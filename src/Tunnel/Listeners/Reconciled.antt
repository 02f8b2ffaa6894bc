-- ===== src/Tunnel/Listeners/Reconciled.antt =====
-- The listeners that a removal and a sync leave.
use newt_rust.Common.{
  ℕ, Bool, true, false, not, ◌&&◌, Option, none, some, List, [], ◌∷◌, ◌++◌, ◌≡◌, refl, sym, ◌∙◌,
  ◌==◌, if◌then◌else◌, any, map, retain, update_first, Text, arith, Bool-cases, inl, inr, ap, ==→eq,
  subst,
}
use newt_rust.Core.Target.{Target}
use newt_rust.Tunnel.Listeners.{
  SocketSet, Listener, DataPlane, destination, desired, on_port, remove_ports, update_target,
  update_each, reconcile_targets,
}
use newt_rust.Tunnel.Listeners.Removed.{none_of, remove_ports-perm}
use mathlib.Core.List
use mathlib.Core.List.{Perm}
use mathlib.Core.List.Perm

-- the targets of all listeners on a port, in their order
abbrev pub targets_at : {H : Type 0} → ℕ → List (Listener H) → List Text
targets_at p [] = []
targets_at p (l ∷ ls) = if l.port == p then l.target ∷ targets_at p ls else targets_at p ls

-- the destination of the last target with the port
abbrev pub wanted : ℕ → List Target → Option Text → Option Text
wanted p [] before = before
wanted p (t ∷ ts) before = wanted p ts (if t.listen_port == p then some (destination t) else before)

-- what a sync makes of the targets on a port: without a destination for the port none is left; else the first
-- gets the destination, or a listener with it is added
abbrev pub synced : Option Text → List Text → List Text
synced none before = []
synced (some to) [] = to ∷ []
synced (some to) (t ∷ before) = to ∷ before

-- the same, where the port is left alone without a destination
abbrev updated : Option Text → List Text → List Text
updated none before = before
updated (some to) before = synced (some to) before

abbrev or_else : Option Text → Text → Option Text
or_else none to = some to
or_else (some b) to = some b

or_else_twice : (a : Option Text) (b c : Text) → or_else a b ≡ or_else (or_else a b) c
or_else_twice none b c = refl
or_else_twice (some a) b c = refl

wanted-behind :
    (p : ℕ) (ts : List Target) (to : Text) → wanted p ts (some to) ≡ or_else (wanted p ts none) to
wanted-behind p [] to = refl
wanted-behind p (t ∷ ts) to = elim (Bool-cases (t.listen_port == p)) [
  | inl e ↦
      let late = wanted-behind p ts (destination t) in
      rw e (
        late
        ∙ or_else_twice (wanted p ts none) (destination t) to
        ∙ ap (λ a. or_else a to) (sym late))
  | inr e ↦ rw e (wanted-behind p ts to)
]

wanted-none :
    (p : ℕ) (ts : List Target) (before : Option Text)
    → any (λ t. t.listen_port == p) ts ≡ false
    → wanted p ts before ≡ before
wanted-none p [] before h = refl
wanted-none p (t ∷ ts) before h = ground (arith, wanted-none p ts before)

wanted-some :
    (p : ℕ) (ts : List Target) (before : Option Text)
    → any (λ t. t.listen_port == p) ts ≡ true
    → (to : Text) × (wanted p ts before ≡ some to)
wanted-some p [] before h = cc
wanted-some p (t ∷ ts) before h = elim (Bool-cases (t.listen_port == p)) [
  | inl e ↦ rw e (given (wanted p ts none) (destination t) (wanted-behind p ts (destination t)))
  | inr e ↦ rw e (wanted-some p ts before (rw e at h))
]
  where
    given :
        (a : Option Text) (b : Text) {c : Option Text}
        → c ≡ or_else a b
        → (to : Text) × (c ≡ some to)
    given none b e = (b, e)
    given (some a) b e = (a, e)

updated_twice :
    (a : Option Text) (to : Text) (ts : List Text)
    → updated a (synced (some to) ts) ≡ updated (or_else a to) ts
updated_twice none to ts = refl
updated_twice (some b) to [] = refl
updated_twice (some b) to (t ∷ ts) = refl

module _ {H : Type 0} where
  pub targets_at-push :
      (p : ℕ) (ls : List (Listener H)) (l : Listener H)
      → targets_at p (ls ++ l ∷ [])
        ≡ (if l.port == p then targets_at p ls ++ l.target ∷ [] else targets_at p ls)
  targets_at-push p [] l = refl
  targets_at-push p (k ∷ ls) l = ground (arith, targets_at-push p ls l)

  pub targets_at-none :
      (p : ℕ) (ls : List (Listener H)) → any (on_port p) ls ≡ false → targets_at p ls ≡ []
  targets_at-none p [] h = refl
  targets_at-none p (l ∷ ls) h = ground (arith, targets_at-none p ls)

  targets_at-update :
      (p q : ℕ) (to : Text) (ls : List (Listener H))
      → any (on_port q) ls ≡ true
      → targets_at p (update_first (on_port q) (λ l. record l { target = to }) ls)
        ≡ (if q == p then synced (some to) (targets_at p ls) else targets_at p ls)
  targets_at-update p q to [] h = cc
  targets_at-update p q to (k ∷ ls) h = ground (arith, targets_at-update p q to ls)

  -- the target of a listener on the port, as the library filters
  target_on : ℕ → Listener H → Option Text
  target_on p l = if l.port == p then some l.target else none

  targets_at-filter_map :
      (p : ℕ) (ls : List (Listener H)) → targets_at p ls ≡ List.filter_map (target_on p) ls
  unfolding target_on List.filter_map
  targets_at-filter_map p [] = refl
  targets_at-filter_map p (l ∷ ls) = elim (Bool-cases (l.port == p)) [
    | inl e ↦ rw e (ap (λ t. l.target ∷ t) (targets_at-filter_map p ls))
    | inr e ↦ rw e (targets_at-filter_map p ls)
  ]

  targets_at-perm :
      (p : ℕ) (xs ys : List (Listener H)) → Perm xs ys → Perm (targets_at p xs) (targets_at p ys)
  targets_at-perm p xs ys h =
      subst (λ t. Perm t (targets_at p ys)) (sym (targets_at-filter_map p xs))
        (subst (λ t. Perm (List.filter_map (target_on p) xs) t) (sym (targets_at-filter_map p ys))
          (Perm.filter_map (target_on p) h))

  targets_at-retain :
      (p : ℕ) (keep : ℕ → Bool) (ls : List (Listener H))
      → targets_at p (retain (λ l. keep l.port) ls) ≡ (if keep p then targets_at p ls else [])
  targets_at-retain p keep [] = ground arith
  targets_at-retain p keep (l ∷ ls) = elim (Bool-cases (l.port == p)) [
    | inl e ↦
        let same : keep l.port ≡ keep p = ap keep (==→eq l.port p e) in
        ground (arith, same, targets_at-retain p keep ls)
    | inr e ↦ ground (arith, targets_at-retain p keep ls)
  ]

module _ (set : SocketSet) where
  abbrev Entry : Type 0
  Entry = Listener set.Handle

  update_target-at :
      (p : ℕ) (t : Target) (d : DataPlane set)
      → targets_at p (update_target set t d).listeners ≡ (
          if t.listen_port == p
          then synced (some (destination t)) (targets_at p d.listeners)
          else targets_at p d.listeners)
  update_target-at p t d = elim (Bool-cases (any (on_port t.listen_port) d.listeners)) [
    | inl e ↦ rw e (targets_at-update p t.listen_port (destination t) d.listeners e)
    | inr e ↦ rw e (
        targets_at-push p d.listeners _ ∙ elim (Bool-cases (t.listen_port == p)) [
          | inl s ↦
              let absent =
                targets_at-none p d.listeners
                  (subst (λ r. any (on_port r) d.listeners ≡ false) (==→eq t.listen_port p s) e) in
              rw (s, absent) refl
          | inr s ↦ rw s refl
        ])
  ]

  update_each-at :
      (p : ℕ) (ts : List Target) (d : DataPlane set)
      → targets_at p (update_each set ts d).listeners
        ≡ updated (wanted p ts none) (targets_at p d.listeners)
  update_each-at p [] d = refl
  update_each-at p (t ∷ ts) d =
      update_each-at p ts (update_target set t d)
      ∙ ap (updated (wanted p ts none)) (update_target-at p t d)
      ∙ elim (Bool-cases (t.listen_port == p)) [
        | inl e ↦ rw e (
            updated_twice (wanted p ts none) (destination t) (targets_at p d.listeners)
            ∙ ap (λ w. updated w (targets_at p d.listeners))
                (sym (wanted-behind p ts (destination t))))
        | inr e ↦ rw e refl
      ]

  -- whether a port is gone after the first loop of a sync
  dropped-none_of :
      (q : ℕ) (gone : ℕ → Bool) (ls : List Entry)
      → none_of (retain gone (map (λ l. l.port) ls)) q ≡ not (gone q && any (on_port q) ls)
  dropped-none_of q gone [] = ground arith
  dropped-none_of q gone (l ∷ ls) = elim (Bool-cases (l.port == q)) [
    | inl e ↦
        let same : gone l.port ≡ gone q = ap gone (==→eq l.port q e) in
        ground (arith, same, dropped-none_of q gone ls)
    | inr e ↦ ground (arith, dropped-none_of q gone ls)
  ]

  -- the targets on a port behind the first loop of a sync
  left-targets :
      (p : ℕ) (gone : ℕ → Bool) (d : DataPlane set)
      → Perm
          (targets_at p
            (remove_ports set (retain gone (map (λ (l : Entry). l.port) d.listeners)) d).listeners)
          (if gone p then [] else targets_at p d.listeners)
  left-targets p gone d =
      let dropped = retain gone (map (λ (l : Entry). l.port) d.listeners) in
      let left = targets_at-perm p _ _ (remove_ports-perm set dropped d) in
      let kept : targets_at p (retain (λ l. none_of dropped l.port) d.listeners)
          ≡ (if gone p then [] else targets_at p d.listeners) =
        targets_at-retain p (none_of dropped) d.listeners
        ∙ ap (λ (b : Bool). if b then targets_at p d.listeners else [])
            (dropped-none_of p gone d.listeners)
        ∙ emptied (gone p) (any (on_port p) d.listeners) (targets_at p d.listeners)
            (targets_at-none p d.listeners) in
      subst (λ t. Perm (targets_at p (remove_ports set dropped d).listeners) t) kept left
    where
      emptied :
          (a b : Bool) (ts : List Text)
          → (b ≡ false → ts ≡ [])
          → (if not (a && b) then ts else []) ≡ (if a then [] else ts)
      emptied true true ts h = refl
      emptied true false ts h = h refl
      emptied false b ts h = refl

  -- On each port a sync leaves the targets that were there, in some order, with the last destination that the
  -- synced specs have for the port in place of the first of them, or alone where there was none; and on a port
  -- that no spec has it leaves no listener.
  pub reconcile_targets-wanted :
      (specs : List Text) (d : DataPlane set) (p : ℕ)
      → (before : List Text) × Perm before (targets_at p d.listeners)
        × (targets_at p (reconcile_targets set specs d).listeners
            ≡ synced (wanted p (desired specs) none) before)
  unfolding reconcile_targets
  reconcile_targets-wanted specs d p =
      let ts = desired specs in
      let gone : ℕ → Bool = λ q. not (any (λ (t : Target). t.listen_port == q) ts) in
      let left = remove_ports set (retain gone (map (λ (l : Entry). l.port) d.listeners)) d in
      let there : Perm (targets_at p left.listeners)
          (if gone p then [] else targets_at p d.listeners) =
        left-targets p gone d in
      elim (Bool-cases (any (λ (t : Target). t.listen_port == p) ts)) [
        | inl e ↦
            let (to, found) = wanted-some p ts none e in
            (targets_at p left.listeners, rw e at there, update_each-at p ts left ∙ rw found refl)
        | inr e ↦
            let missing = wanted-none p ts none e in
            let empty : targets_at p left.listeners ≡ [] = Perm.eq-nil (rw e at there) in
            (
              targets_at p d.listeners,
              Perm.refl (targets_at p d.listeners),
              update_each-at p ts left ∙ rw (missing, empty) refl,
            )
      ]
