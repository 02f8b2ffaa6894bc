-- ===== src/Core/Sm/Tunnel.antt =====
-- The actions of the machine against the one tunnel that a session holds.
use newt_rust.Common.{
  List, [], ◌∷◌, ◌++◌, Bool, true, false, Option, none, some, ◌≡◌, refl, arith, ◌∙◌, Text, All,
}
use newt_rust.Common.Json.{Json}
use newt_rust.Common.Monads.{◌>>=◌, >>=-eq-some}
use newt_rust.Core.Sm.{
  Sm, Event, ws_connected, exit_nodes, wg_connect, reconnect, terminate, tick, Action, send,
  bring_up, teardown, stop, step, run, is_connected, new,
}

-- Whether the tunnel is up after an action; `none` if a tunnel would be brought up over another.
abbrev pub act : {V : Type 0} → Action V → Bool → Option Bool
act (send m) up = some up
act (bring_up wg) true = none
act (bring_up wg) false = some true
act teardown up = some false
act stop up = some up

abbrev pub act_all : {V : Type 0} → List (Action V) → Bool → Option Bool
act_all [] up = some up
act_all (a ∷ as') up = do up' ← act a up; act_all as' up'

act_all-append :
    {V : Type 0} (xs ys : List (Action V)) (up up' : Bool)
    → act_all xs up ≡ some up'
    → act_all (xs ++ ys) up ≡ act_all ys up'
act_all-append [] ys up up' h = ground arith
act_all-append (x ∷ xs) ys up up' h =
    let (mid, e, rest) = >>=-eq-some (act x up) _ h in rw (e) (act_all-append xs ys mid up' rest)

-- An event that follows the connection: every other one.
abbrev pub Later : {F : Type 0} → Event F → Type 0
Later ws_connected = ⊥
Later (exit_nodes _) = Unit
Later (wg_connect _) = Unit
Later reconnect = Unit
Later terminate = Unit
Later (tick _) = Unit

module _ (json : Json) where
  open json use {Value, Float}

  pub step-act :
      (sm : Sm) (e : Event Float)
      → Later e
      → act_all (step json sm e).1 (is_connected sm.state)
        ≡ some (is_connected (step json sm e).0.state)
  unfolding step
  step-act sm ws_connected l = absurd l
  step-act sm (exit_nodes nodes) l = ground arith
  step-act sm (wg_connect wg) l = ground arith
  step-act sm reconnect l = ground arith
  step-act sm terminate l = ground arith
  step-act sm (tick n) l = ground arith

  run-act :
      (sm : Sm) (es : List (Event Float))
      → All Later es
      → act_all (run json sm es).1 (is_connected sm.state)
        ≡ some (is_connected (run json sm es).0.state)
  unfolding run
  run-act sm [] l = refl
  run-act sm (e ∷ es) (l, ls) =
      act_all-append (step json sm e).1 _ (is_connected sm.state) _ (step-act sm e l)
      ∙ run-act (step json sm e).0 es ls

  -- A session starts with `WsConnected` on a new machine, with no tunnel; whatever events follow, but
  -- for another `WsConnected`, the tunnel is up exactly when the machine is connected, and no tunnel is
  -- brought up while another is up.
  pub session-act :
      (key version : Text) (no_cloud : Bool) (es : List (Event Float))
      → All Later es
      → act_all (run json (new key version no_cloud) (ws_connected ∷ es)).1 false
        ≡ some (is_connected (run json (new key version no_cloud) (ws_connected ∷ es)).0.state)
  unfolding run step new
  session-act key version no_cloud es ls = run-act _ es ls
