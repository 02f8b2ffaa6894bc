-- ===== src/Core/Sm/Timer.antt =====
-- The resend timer.
use newt_rust.Common.{ℕ, ◌+◌, ◌-◌, ◌≤◌, ◌<◌, List, [], ◌∷◌, ◌++◌, map, ◌≡◌, ◌⊎◌, arith, Text, Bool}
use newt_rust.Common.Json.{Json}
use newt_rust.Core.Proto.{WsMessage}
use newt_rust.Core.Sm.{
  State, disconnected, requesting_exit_nodes, registering, connected, Sm, Event, ws_connected,
  exit_nodes, wg_connect, reconnect, terminate, tick, send, step, run, new, ping_request_msg,
  register_msg, ping_resend_ms, register_resend_ms,
}

-- The timer is armed while an answer is awaited, and off before and after.
pub record IsTimed (sm : Sm) : Type 0 where
  pub idle : (sm.state ≡ disconnected) ⊎ (sm.state ≡ connected) → sm.resend_due_ms ≡ 0
  pub requesting :
      sm.state ≡ requesting_exit_nodes
      → (0 < sm.resend_due_ms) × (sm.resend_due_ms ≤ ping_resend_ms)
  pub registers :
      sm.state ≡ registering → (0 < sm.resend_due_ms) × (sm.resend_due_ms ≤ register_resend_ms)

abbrev pub sum : List ℕ → ℕ
sum [] = 0
sum (x ∷ xs) = x + sum xs

abbrev pub IsWaiting : State → Type 0
IsWaiting s = (s ≡ requesting_exit_nodes) ⊎ (s ≡ registering)

abbrev pub period : State → ℕ
period requesting_exit_nodes = ping_resend_ms
period _ = register_resend_ms

module _ (json : Json) where
  open json use {Value, Float}

  step-IsTimed : (sm : Sm) (e : Event Float) → IsTimed sm → IsTimed (step json sm e).0
  unfolding step
  step-IsTimed sm ws_connected h = ground arith
  step-IsTimed sm (exit_nodes nodes) h = ground arith
  step-IsTimed sm (wg_connect wg) h = ground arith
  step-IsTimed sm reconnect h = ground arith
  step-IsTimed sm terminate h = ground arith
  step-IsTimed sm (tick n) h = ground arith

  run-IsTimed : (sm : Sm) (es : List (Event Float)) → IsTimed sm → IsTimed (run json sm es).0
  unfolding run
  run-IsTimed sm [] h = h
  run-IsTimed sm (e ∷ es) h = run-IsTimed (step json sm e).0 es (step-IsTimed sm e h)

  -- After any events, from a new machine: the timer is off when disconnected or connected, and runs
  -- with at most 3000 ms (requesting exit nodes) or 2000 ms (registering) left.
  pub run-new-IsTimed :
      (key version : Text) (no_cloud : Bool) (es : List (Event Float))
      → IsTimed (run json (new key version no_cloud) es).0
  unfolding new
  run-new-IsTimed key version no_cloud es = run-IsTimed _ es (ground arith)

  -- the request that is repeated
  abbrev pub waiting_msg : State → Sm → WsMessage Value
  waiting_msg requesting_exit_nodes sm = ping_request_msg json sm
  waiting_msg _ sm = register_msg json sm []

  step_quiet :
      (sm : Sm) (n : ℕ)
      → n < sm.resend_due_ms
      → step json sm (tick n) ≡ (record sm { resend_due_ms = sm.resend_due_ms - n }, [])
  unfolding step
  step_quiet sm n h = ground arith

  step_due :
      (sm : Sm) (n : ℕ)
      → IsWaiting sm.state
      → 0 < sm.resend_due_ms
      → sm.resend_due_ms ≤ n
      → step json sm (tick n) ≡ (
        record sm { resend_due_ms = period sm.state },
        send (waiting_msg sm.state (record sm { resend_due_ms = period sm.state })) ∷ [],
      )
  unfolding step
  step_due sm n w p h = ground arith

  -- While the machine awaits an answer, ticks that stay below the time left send nothing; the tick that
  -- reaches it repeats the request once and arms the timer anew. The state does not change.
  pub run_resends :
      (sm : Sm) (ns : List ℕ) (n : ℕ)
      → IsWaiting sm.state
      → sum ns < sm.resend_due_ms
      → sm.resend_due_ms ≤ sum ns + n
      → run json sm (map tick (ns ++ n ∷ [])) ≡ (
        record sm { resend_due_ms = period sm.state },
        send (waiting_msg sm.state (record sm { resend_due_ms = period sm.state })) ∷ [],
      )
  unfolding run
  run_resends sm [] n w below reached = rw (step_due sm n w (omega arith) (omega arith))
  run_resends sm (m ∷ ns) n w below reached = rw (step_quiet sm m (omega arith)) (
      run_resends (record sm { resend_due_ms = sm.resend_due_ms - m }) ns n w (omega arith)
        (omega arith))
