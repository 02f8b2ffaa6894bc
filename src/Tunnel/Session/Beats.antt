-- ===== src/Tunnel/Session/Beats.antt =====
-- The heartbeat of a session.
use newt_rust.Common.{
  ℕ, suc, ◌+◌, ◌≤◌, ◌<◌, List, [], ◌∷◌, Option, none, some, Text, ◌≡◌, refl, arith, ◌⊎◌, Bool-cases,
  inl, inr, leb,
}
use newt_rust.Common.Io.{pure, EndsWith, EndsWith-after, EndsWith-imp, EndsWith-world, ◌>>=◌}
use newt_rust.Common.Results.{ok, err}
use newt_rust.Common.Json.{Json, Reader}
use newt_rust.Core.Proto.{WsMessage}
use newt_rust.Core.Sm.{tick}
use newt_rust.Config.Model.{SiteRun}
use newt_rust.Wg.{Keys}
use newt_rust.Tunnel.Session
use newt_rust.Tunnel.Session.{Site, Input, received, tick_due, plane_ready}
use newt_rust.Tunnel.Session.Monitor.{
  Monitor, Keeps, Steady, step_exec-Steady, learned-ticks, on_message-Steady, keep_alive-Keeps,
  drive-Keeps,
}

-- the ticks among the inputs
abbrev pub ticks : {V : Type 0} → List (Input V) → ℕ
ticks [] = 0
ticks (received msg ∷ inputs) = ticks inputs
ticks (tick_due ∷ inputs) = suc (ticks inputs)
ticks (plane_ready ∷ inputs) = ticks inputs

module _ {S : Type 0} (json : Json) (read : Reader json.Value) (site : Site json S) (cfg : SiteRun)
    (keys : Keys S) (token : Text) where
  open json use {Value, Float}
  open site use {World, DataPlane, ws_send}

  abbrev State : Type 0
  State = Session.State json read site cfg keys token

  abbrev Turn : Type 0
  Turn = Session.Turn json read site cfg keys token

  module _ (monitor : Monitor json read site cfg keys token) where
    open monitor use {
      Seen, ping_seen, send_keeps, bring_up_keeps, ping_keeps, punch_keeps, step_keeps,
    }

    -- At least so many ticks were counted since the last heartbeat, unless one was seen.
    abbrev Counted : ℕ → State → World → Type 0
    Counted n s w = (s.ping_ticks < 10) × (Seen w ⊎ (n ≤ s.ping_ticks))

    Counted-Steady :
        (n : ℕ) (s s' : State) (w w' : World)
        → Steady json read site cfg keys token monitor s w s' w'
        → Counted n s w
        → Counted n s' w'
    Counted-Steady n s s' w w' (same, keeps) (few, inl seen) = (omega arith, inl (keeps seen))
    Counted-Steady n s s' w w' (same, keeps) (few, inr many) = (omega arith, inr (omega arith))

    heartbeat-Counted :
        (n : ℕ) (s : State) (w : World)
        → Counted n s w
        → EndsWith (Counted (suc n)) (Session.heartbeat json read site cfg keys token s w)
    unfolding Session.heartbeat
    heartbeat-Counted n s w (few, h) = elim (Bool-cases (leb 10 (s.ping_ticks + 1))) [
      | inl e ↦
          let ping = Session.ping_msg json read site cfg keys token s.config_version in
          rw e (
            EndsWith-after (λ a w'. Seen w') (Counted (suc n)) (ws_send ping w)
              (λ u. pure (record s { ping_ticks = 0 }))
              (EndsWith-world Seen (ws_send ping w) (ping_seen s.config_version w))
              (λ u w1 seen. (omega arith, inl seen)))
      | inr e ↦ rw e (ground arith, counted h)
    ]
      where
        counted : Seen w ⊎ (n ≤ s.ping_ticks) → Seen w ⊎ (suc n ≤ s.ping_ticks + 1)
        counted (inl seen) = inl seen
        counted (inr many) = inr (omega arith)

    on_tick-Counted :
        (n : ℕ) (s : State) (w : World)
        → Counted n s w
        → EndsWith (Counted (suc n)) (Session.on_tick json read site cfg keys token s w)
    unfolding Session.on_tick
    on_tick-Counted n s w h =
        let alive = Session.keep_alive json read site cfg keys token in
        let beat = Session.heartbeat json read site cfg keys token in
        EndsWith-after (Steady json read site cfg keys token monitor s w) (Counted (suc n))
          (Session.step_exec json read site cfg keys token (tick 1000) s w)
          (λ s'. do plane ← alive s'.plane; beat (record s' { plane = plane }))
          (step_exec-Steady json read site cfg keys token monitor (tick 1000) s w)
          (λ s' w1 steady.
            EndsWith-after (Keeps json read site cfg keys token monitor w1) (Counted (suc n))
              (alive s'.plane w1) (λ plane. beat (record s' { plane = plane }))
              (keep_alive-Keeps json read site cfg keys token monitor s'.plane w1)
              (λ plane w2 keeps.
                heartbeat-Counted n (record s' { plane = plane }) w2
                  (Counted-Steady n s' (record s' { plane = plane }) w1 w2 (refl, keeps)
                    (Counted-Steady n s s' w w1 steady h))))

    -- Of a session that goes on.
    abbrev CountedAt : ℕ → Turn → World → Type 0
    CountedAt n (Session.continues s) w = Counted n s w
    CountedAt n Session.returns w = Unit {0}

    on_received-Counted :
        (n : ℕ) (o : Option (WsMessage Value)) (s : State) (w : World)
        → Counted n s w
        → EndsWith (CountedAt n) (Session.on_received json read site cfg keys token o s w)
    unfolding Session.on_received
    on_received-Counted n none s w h = tt
    on_received-Counted n (some msg) s w h =
        let s1 = Session.learned json read site cfg keys token msg s in
        EndsWith-after (Steady json read site cfg keys token monitor s1 w) (CountedAt n)
          (Session.on_message json read site cfg keys token msg s1 w)
          (λ s'. pure (Session.continues s'))
          (on_message-Steady json read site cfg keys token monitor msg s1 w)
          (λ s' w1 steady. Counted-Steady n s1 s' w w1 steady (
            Counted-Steady n s s1 w w
              (learned-ticks json read site cfg keys token monitor msg s, λ seen. seen) h))

    abbrev ticked : ℕ → Input Value → ℕ
    ticked n (received msg) = n
    ticked n tick_due = suc n
    ticked n plane_ready = n

    turn-Counted :
        (n : ℕ) (s : State) (i : Input Value) (w : World)
        → Counted n s w
        → EndsWith (CountedAt (ticked n i)) (Session.turn json read site cfg keys token s i w)
    unfolding Session.turn
    turn-Counted n s (received (err why)) w h = tt
    turn-Counted n s (received (ok m)) w h = on_received-Counted n m s w h
    turn-Counted n s tick_due w h =
        EndsWith-after (Counted (suc n)) (CountedAt (suc n))
          (Session.on_tick json read site cfg keys token s w) (λ s'. pure (Session.continues s'))
          (on_tick-Counted n s w h) (λ s' w1 h1. h1)
    turn-Counted n s plane_ready w h =
        EndsWith-after (Keeps json read site cfg keys token monitor w) (CountedAt n)
          (Session.drive json read site cfg keys token s.plane w)
          (λ plane. pure (Session.continues (record s { plane = plane })))
          (drive-Keeps json read site cfg keys token monitor s.plane w)
          (λ plane w1 keeps. Counted-Steady n s (record s { plane = plane }) w w1 (refl, keeps) h)

    abbrev ticked_all : ℕ → List (Input Value) → ℕ
    ticked_all n [] = n
    ticked_all n (i ∷ inputs) = ticked_all (ticked n i) inputs

    ticked_all-ticks :
        (n : ℕ) (inputs : List (Input Value)) → ticked_all n inputs ≡ n + ticks inputs
    ticked_all-ticks n [] = omega arith
    ticked_all-ticks n (received msg ∷ inputs) = ticked_all-ticks n inputs
    ticked_all-ticks n (tick_due ∷ inputs) = omega (arith, ticked_all-ticks (suc n) inputs)
    ticked_all-ticks n (plane_ready ∷ inputs) = ticked_all-ticks n inputs

    turns-Counted :
        (n : ℕ) (t : Turn) (inputs : List (Input Value)) (w : World)
        → CountedAt n t w
        → EndsWith
            (CountedAt (ticked_all n inputs))
            (Session.turns json read site cfg keys token t inputs w)
    unfolding Session.turns
    turns-Counted n Session.returns inputs w h = tt
    turns-Counted n (Session.continues s) [] w h = h
    turns-Counted n (Session.continues s) (i ∷ inputs) w h =
        EndsWith-after (CountedAt (ticked n i)) (CountedAt (ticked_all n (i ∷ inputs)))
          (Session.turn json read site cfg keys token s i w)
          (λ t. Session.turns json read site cfg keys token t inputs) (turn-Counted n s i w h)
          (λ t w1 h1. turns-Counted (ticked n i) t inputs w1 h1)

    -- While the session goes on, a heartbeat was given to the WebSocket.
    abbrev pub SeenAt : Turn → World → Type 0
    SeenAt (Session.continues s) w = Seen w
    SeenAt Session.returns w = Unit {0}

    -- Within any inputs with ten ticks among them, whatever messages and turns of the data plane come between,
    -- a session that has counted fewer than ten ticks, and that neither fails nor is closed, gives a heartbeat
    -- to the WebSocket.
    pub turns-Seen :
        (s : State) (inputs : List (Input Value)) (w : World)
        → s.ping_ticks < 10
        → 10 ≤ ticks inputs
        → EndsWith SeenAt
            (Session.turns json read site cfg keys token (Session.continues s) inputs w)
    turns-Seen s inputs w few many =
        EndsWith-imp (CountedAt (ticked_all 0 inputs)) SeenAt
          (Session.turns json read site cfg keys token (Session.continues s) inputs w)
          (turns-Counted 0 (Session.continues s) inputs w (few, inr (omega arith))) at_last
      where
        enough : 10 ≤ ticked_all 0 inputs
        enough = omega (arith, ticked_all-ticks 0 inputs)

        seen : (t : State) (w : World) → Counted (ticked_all 0 inputs) t w → Seen w
        seen t w (few, inl h) = h
        seen t w (few, inr h) = absurd (omega (arith, enough))

        at_last : (t : Turn) (w : World) → CountedAt (ticked_all 0 inputs) t w → SeenAt t w
        at_last (Session.continues t) w h = seen t w h
        at_last Session.returns w h = tt
