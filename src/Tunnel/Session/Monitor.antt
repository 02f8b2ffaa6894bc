-- ===== src/Tunnel/Session/Monitor.antt =====
-- What the calls of a session keep of a property of the world.
use newt_rust.Common.{
  List, [], ◌∷◌, Option, none, some, Text, text_eq, ◌≡◌, refl, Bool-cases, Option-cases, inl, inr,
}
use newt_rust.Common.Int.{ℤ}
use newt_rust.Common.Io.{pure, EndsWith, EndsWith-after, EndsWith-imp, EndsWith-world, after}
use newt_rust.Common.Results.{Result, ok, err}
use newt_rust.Common.Json.{Json, Reader}
use newt_rust.Core.Proto.{WsMessage, WgData}
use newt_rust.Core.Sm
use newt_rust.Core.Sm.{Sm, Event, tick, Action, send, bring_up, teardown, stop}
use newt_rust.Core.Topic
use newt_rust.Config.Model.{SiteRun}
use newt_rust.Wg.{Keys}
use newt_rust.Tunnel.Session
use newt_rust.Tunnel.Session.{Site, Input, received, tick_due, plane_ready}

module _ {S : Type 0} (json : Json) (read : Reader json.Value) (site : Site json S) (cfg : SiteRun)
    (keys : Keys S) (token : Text) where
  open json use {Value, Float}
  open site use {World, DataPlane, ws_send}

  abbrev State : Type 0
  State = Session.State json read site cfg keys token

  abbrev Turn : Type 0
  Turn = Session.Turn json read site cfg keys token

  -- A property of the world that holds once a heartbeat was given to the WebSocket, and stays.
  pub record Monitor : Type 1 where
    pub Seen : World → Type 0
    pub ping_seen :
        (v : Option ℤ) (w : World)
        → Seen (ws_send (Session.ping_msg json read site cfg keys token v) w).1
    pub send_keeps : (m : WsMessage Value) (w : World) → Seen w → Seen (ws_send m w).1
    pub bring_up_keeps :
        (wg : WgData) (w : World) → Seen w → Seen (site.bring_up wg cfg keys token w).1
    pub ping_keeps : (d : DataPlane) (w : World) → Seen w → Seen (site.send_ping d w).1
    pub punch_keeps : (d : DataPlane) (w : World) → Seen w → Seen (site.send_holepunch d w).1
    pub step_keeps : (d : DataPlane) (w : World) → Seen w → Seen (site.step_io d w).1

  module _ (monitor : Monitor) where
    open monitor use {
      Seen, ping_seen, send_keeps, bring_up_keeps, ping_keeps, punch_keeps, step_keeps,
    }

    -- What was seen is still seen.
    abbrev pub Keeps : {A : Type 0} → World → A → World → Type 0
    Keeps w a w' = Seen w → Seen w'

    -- The counter is as before, too.
    abbrev pub Steady : State → World → State → World → Type 0
    Steady s w s' w' = (s'.ping_ticks ≡ s.ping_ticks) × (Seen w → Seen w')

    called :
        {A B : Type 0} (w : World) (first : Result A × World) (b : B)
        → (Seen w → Seen first.1)
        → EndsWith (Keeps w) (after first (λ a. pure b))
    called w (err why, w1) b h = tt
    called w (ok a, w1) b h = h

    exec-Keeps :
        (a : Action Value) (plane : Option DataPlane) (w : World)
        → EndsWith (Keeps w) (Session.exec json read site cfg keys token a plane w)
    unfolding Session.exec
    exec-Keeps (send m) plane w = called w (ws_send m w) plane (send_keeps m w)
    exec-Keeps (bring_up wg) plane w =
        EndsWith-after (Keeps w) (Keeps w) (site.bring_up wg cfg keys token w) (λ d. pure (some d))
          (EndsWith-world (λ w'. Seen w → Seen w') (site.bring_up wg cfg keys token w)
            (bring_up_keeps wg w))
          (λ d w1 h. h)
    exec-Keeps teardown plane w = λ h. h
    exec-Keeps stop plane w = tt

    exec_all-Keeps :
        (as' : List (Action Value)) (plane : Option DataPlane) (w : World)
        → EndsWith (Keeps w) (Session.exec_all json read site cfg keys token as' plane w)
    unfolding Session.exec_all
    exec_all-Keeps [] plane w = λ h. h
    exec_all-Keeps (a ∷ as') plane w =
        EndsWith-after (Keeps w) (Keeps w) (Session.exec json read site cfg keys token a plane w)
          (Session.exec_all json read site cfg keys token as') (exec-Keeps a plane w)
          (λ plane' w1 h.
            EndsWith-imp (Keeps w1) (Keeps w)
              (Session.exec_all json read site cfg keys token as' plane' w1)
              (exec_all-Keeps as' plane' w1) (λ p w2 k seen. k (h seen)))

    pub step_exec-Steady :
        (ev : Event Float) (s : State) (w : World)
        → EndsWith (Steady s w) (Session.step_exec json read site cfg keys token ev s w)
    unfolding Session.step_exec
    step_exec-Steady ev s w =
        let stepped = Sm.step json s.sm ev in
        EndsWith-after (Keeps w) (Steady s w)
          (Session.exec_all json read site cfg keys token stepped.1 s.plane w)
          (λ plane. pure (record s { plane = plane; sm = stepped.0 }))
          (exec_all-Keeps stepped.1 s.plane w) (λ plane w1 h. (refl, h))

    on_event-Steady :
        (o : Option (Event Float)) (s : State) (w : World)
        → EndsWith (Steady s w) (Session.on_event json read site cfg keys token o s w)
    unfolding Session.on_event
    on_event-Steady none s w = (refl, λ h. h)
    on_event-Steady (some ev) s w = step_exec-Steady ev s w

    pub learned-ticks :
        (msg : WsMessage Value) (s : State)
        → (Session.learned json read site cfg keys token msg s).ping_ticks ≡ s.ping_ticks
    unfolding Session.learned
    learned-ticks msg s = elim (Option-cases msg.config_version) [
      | inl e ↦ rw (e, Session.learned) refl
      | inr (v, e) ↦ rw (e, Session.learned) refl
    ]

    pub on_message-Steady :
        (msg : WsMessage Value) (s : State) (w : World)
        → EndsWith (Steady s w) (Session.on_message json read site cfg keys token msg s w)
    unfolding Session.on_message Session.on_plane
    on_message-Steady msg s w = elim (Bool-cases (text_eq msg.typ Topic.tcp_add)) [
      | inl e ↦ rw e (refl, λ h. h)
      | inr e ↦ rw e (elim (Bool-cases (text_eq msg.typ Topic.tcp_remove)) [
        | inl f ↦ rw f (refl, λ h. h)
        | inr f ↦ rw f (elim (Bool-cases (text_eq msg.typ Topic.sync)) [
          | inl g ↦ rw g (refl, λ h. h)
          | inr g ↦ rw g (on_event-Steady (Session.to_event json read site cfg keys token msg) s w)
        ])
      ])
    ]

    pub keep_alive-Keeps :
        (plane : Option DataPlane) (w : World)
        → EndsWith (Keeps w) (Session.keep_alive json read site cfg keys token plane w)
    unfolding Session.keep_alive
    keep_alive-Keeps none w = λ h. h
    keep_alive-Keeps (some d) w =
        EndsWith-after (Keeps w) (Keeps w) (site.send_ping d w) _
          (EndsWith-world (λ w'. Seen w → Seen w') (site.send_ping d w) (ping_keeps d w))
          (λ d' w1 h.
            called w (site.send_holepunch d' w1) (some d') (λ seen. punch_keeps d' w1 (h seen)))

    pub drive-Keeps :
        (plane : Option DataPlane) (w : World)
        → EndsWith (Keeps w) (Session.drive json read site cfg keys token plane w)
    unfolding Session.drive
    drive-Keeps none w = λ h. h
    drive-Keeps (some d) w =
        EndsWith-after (Keeps w) (Keeps w) (site.step_io d w) (λ d'. pure (some d'))
          (EndsWith-world (λ w'. Seen w → Seen w') (site.step_io d w) (step_keeps d w))
          (λ d' w1 h. h)
