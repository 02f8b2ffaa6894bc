-- ===== src/Config/Override.antt =====
-- A later argument overrides an earlier one and the environment.
use newt_rust.Common.{
  Bool, true, false, not, ◌&&◌, Option, none, some, List, [], ◌∷◌, ◌++◌, ◌≡◌, refl, ap, subst, Text,
  codes, text_eq, is_empty, Bool-cases, inl, inr, if◌then◌else◌,
}
use mathlib.Core.Option
use newt_rust.Common.Results.{Result, ok, err, ◌>>=◌, >>=-eq-ok}
use newt_rust.Config.Roles.{checked-ok}
use newt_rust.Config.{
  Config, Raw, SiteRun, ClientRun, Flag, from_sources, read_env, read_args, build, site_of,
  client_of, is_none, default, flag_of, apply_flag, has_value, last_arg, next_arg,
}

flag_last :
    (valued : Bool) (missing : Text) (m x : Result Raw) (j : Raw → Result Raw) (r' : Raw)
    → (if valued then err missing else m) ≡ ok r'
    → (if valued then x else m >>= j) ≡ j r'
flag_last true missing m x j r' h = cc
flag_last false missing m x j r' h = rw h refl

last_arg-next_arg :
    (a v : Text) (j j' : Raw → Result Raw) (r r' : Raw) (o : Option Flag)
    → last_arg a r o ≡ ok r'
    → next_arg a v j j' r o ≡ j' r'
last_arg-next_arg a v j j' r r' none h = cc
last_arg-next_arg a v j j' r r' (some f) h =
    flag_last (has_value f) (codes "missing value for " ++ a) (apply_flag f [] r)
      (apply_flag f v r >>= j) j' r' h

flag_next :
    (k j : Raw → Result Raw) (result : Result Raw) (r' : Raw) (m : Result Raw)
    → ((s : Raw) → k s ≡ ok r' → j s ≡ result)
    → (m >>= k) ≡ ok r'
    → (m >>= j) ≡ result
flag_next k j result r' (ok s) p h = p s h
flag_next k j result r' (err e) p h = cc

next_arg-ok :
    (a v : Text) (k k' j j' : Raw → Result Raw) (result : Result Raw) (r r' : Raw) (o : Option Flag)
    → ((s : Raw) → k s ≡ ok r' → j s ≡ result)
    → ((s : Raw) → k' s ≡ ok r' → j' s ≡ result)
    → next_arg a v k k' r o ≡ ok r'
    → next_arg a v j j' r o ≡ result
next_arg-ok a v k k' j j' result r r' none p q h = cc
next_arg-ok a v k k' j j' result r r' (some f) p q h = flag (has_value f) h
  where
    flag :
        (valued : Bool)
        → (if valued then apply_flag f v r >>= k else apply_flag f [] r >>= k') ≡ ok r'
        → (if valued then apply_flag f v r >>= j else apply_flag f [] r >>= j') ≡ result
    flag true = flag_next k j result r' (apply_flag f v r) p
    flag false = flag_next k' j' result r' (apply_flag f [] r) q

-- Arguments that are accepted are read from left to right, and those behind them start from the result.
pub read_args-append :
    (args rest : List Text) (r r' : Raw)
    → read_args args r ≡ ok r'
    → read_args (args ++ rest) r ≡ read_args rest r'
unfolding read_args
read_args-append [] rest r r' h = let same : r ≡ r' = cc in ap (read_args rest) same
read_args-append (a ∷ []) [] r r' h = h
read_args-append (a ∷ []) (v ∷ rest) r r' h =
    last_arg-next_arg a v (read_args rest) (read_args (v ∷ rest)) r r' (flag_of a) h
read_args-append (a ∷ v ∷ args) rest r r' h =
    next_arg-ok a v (read_args args) (read_args (v ∷ args)) (read_args (args ++ rest))
      (read_args (v ∷ args ++ rest)) (read_args rest r') r r' (flag_of a)
      (λ s. read_args-append args rest s r') (λ s. read_args-append (v ∷ args) rest s r') h

abbrev pub with_endpoint : Text → Config → Config
with_endpoint v c = record c {
  site = Option.map (λ (s : SiteRun). record s { endpoint = v }) c.site;
  client = Option.map (λ (s : ClientRun). record s { endpoint = v }) c.client;
}

site_of-endpoint :
    (v : Text) (r : Raw)
    → site_of (record r { endpoint = v })
      ≡ Option.map (λ (s : SiteRun). record s { endpoint = v }) (site_of r)
site_of-endpoint v r =
    elim (Bool-cases (not (is_empty r.newt_id) && not (is_empty r.newt_secret))) [
      | inl e ↦ rw e refl
      | inr e ↦ rw e refl
    ]

client_of-endpoint :
    (v : Text) (r : Raw)
    → client_of (record r { endpoint = v })
      ≡ Option.map (λ (s : ClientRun). record s { endpoint = v }) (client_of r)
client_of-endpoint v r =
    elim (Bool-cases (not (is_empty r.olm_id) && not (is_empty r.olm_secret))) [
      | inl e ↦ rw e refl
      | inr e ↦ rw e refl
    ]

is_none-map : {A B : Type 0} (f : A → B) (o : Option A) → is_none (Option.map f o) ≡ is_none o
is_none-map f none = refl
is_none-map f (some a) = refl

build-endpoint :
    (v : Text) (r : Raw) (c : Config)
    → is_empty v ≡ false
    → build r ≡ ok c
    → build (record r { endpoint = v }) ≡ ok (with_endpoint v c)
unfolding build
build-endpoint v r c given h =
    let (_, role, same) =
      checked-ok r.log_level (is_empty r.endpoint) (site_of r) (client_of r) c h in
    subst (λ c. build (record r { endpoint = v }) ≡ ok (with_endpoint v c)) same
      (rw (given, site_of-endpoint v r, client_of-endpoint v r)
        (rw
          (
            is_none-map (λ (s : SiteRun). record s { endpoint = v }) (site_of r),
            is_none-map (λ (s : ClientRun). record s { endpoint = v }) (client_of r),
            role,
          )
          refl))

-- An endpoint at the end of the accepted arguments replaces the endpoint of each role, whatever the
-- environment and the earlier arguments say, and nothing else.
pub from_sources-endpoint :
    (linux : Bool) (env : Text → Option Text) (args : List Text) (v : Text) (c : Config)
    → is_empty v ≡ false
    → from_sources linux env args ≡ ok c
    → from_sources linux env (args ++ codes "--endpoint" ∷ v ∷ []) ≡ ok (with_endpoint v c)
unfolding from_sources read_args flag_of apply_flag text_eq
from_sources-endpoint linux env args v c given h =
    let (r, read, h1) = >>=-eq-ok (read_env env (default linux)) _ h in
    let (r', read', h2) = >>=-eq-ok (read_args args r) _ h1 in
    rw read (
      rw (read_args-append args (codes "--endpoint" ∷ v ∷ []) r r' read')
        (build-endpoint v r' c given h2))
