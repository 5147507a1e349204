-- ===== src/Example/Gateway.antt =====
-- example-libp.c: the gateway stays the sink.
use libp.Base.{
  ◌*◌, ==_iff, ◌≡◌, ◌∙◌, refl, sym, subst, arith, Bool, ◌&&◌, some, List, [], ◌∷◌, true,
}
use mathlib.Core.Option.{some-injective}
use libp.Contiki.{Contiki, ListLaws, MembLaws}
use libp.Rime.{Rime}
use libp.Conn.{Node, emit, announcement_set_value}
use libp.Conn.Api.{set_sink, become_sink}
use libp.Conn.Route.{update_rtmetric}
use libp.Conn.Fault.{Unless, faults, ends, Unless-then}
use libp.Conn.Lasting.{As, same, update_rtmetric-As}
use libp.Conn.Lasting.Calls.{Lasts, keeps_role, send-As, timed-As, step-Lasts}
use libp.Example.{
  looping, Monitor, Process, Post, et_fires, periodic_fires, wait_fires, monitor_fires, handles,
  calling, returned, print, renew, say_hello, send_hello, resume, resume_monitor, waited, monitored,
  wait_over, monitor_over, step, steps, runs, start, settle, start_monitor, beaconing_period,
}
use libp.Example.Lines.{i_am_sink, expired}
use libp.Example.Ready.{
  Ready, calling-Good, resume-Ready, waited-Ready, monitored-Ready, on_monitor,
}
use libp.Example.Calm.{faulty, any_faulty, steps-step, steps-none, runs-start}
use libp.Example.Start.{IsLoaded, gateway, opened, sink, start_at_gateway, start-Started}

module _ ⦃os : Contiki⦄ ⦃rime : Rime⦄ where
  -- The connection is a sink's.
  abbrev Sink : Process → Type 0
  Sink p = As true 1 p.lc

  renew-Sink : (p : Process) → Sink p → Sink (renew p)
  unfolding renew
  renew-Sink p g = ground arith

  send_hello-Sink : (p : Process) → Sink p → Sink (send_hello p)
  unfolding send_hello
  send_hello-Sink p g = send-As true 1 (say_hello (calling p)) 15 (same true 1 p.lc _ refl refl g)

  resume-Sink : (p : Process) → Sink p → Sink (resume p)
  unfolding resume
  resume-Sink p g = ground (
    arith,
    renew-Sink (record p { place = looping }) g,
    renew-Sink p g,
    renew-Sink (send_hello p) (send_hello-Sink p g),
  )

  resume_monitor-Sink : (p : Process) (m : Monitor) → Sink p → Sink (resume_monitor p m)
  unfolding resume_monitor
  resume_monitor-Sink p m g = ground arith

  waited-Sink : (p : Process) → Sink p → Sink (waited p)
  waited-Sink p g =
      on_monitor (λ q. Sink q) p (wait_over p) g
        (λ m. ground (arith, resume_monitor-Sink p (record m { wait_timer = expired }) g)) p.monitor

  monitored-Sink : (p : Process) → Sink p → Sink (monitored p)
  monitored-Sink p g =
      on_monitor (λ q. Sink q) p (monitor_over p) g
        (λ m. ground (arith, resume_monitor-Sink p (record m { monitor_timer = expired }) g))
        p.monitor

  -- What the start makes of the connection.
  set_sink-Sink : (c : Node) → As true 1 (set_sink c 1)
  unfolding set_sink
  set_sink-Sink c =
      let d = emit (announcement_set_value 0) (become_sink c) in
      same true 1 (update_rtmetric d) _ refl refl
        (update_rtmetric-As true 1 d (record { rtmetric = refl; is_sink = refl }))

  sink-Sink : (p : Process) → Sink (sink p)
  sink-Sink p =
      let p1 = print i_am_sink p in
      let c2 = set_sink (calling p1) 1 in
      let p3 = record (returned p1 c2) { is_sink = 1 } in
      timed-As true 1 (calling p3) (os.clock_second * beaconing_period)
        (same true 1 c2 _ refl refl (set_sink-Sink (calling p1)))

  -- The events but a call of `libp_set_sink` from elsewhere.
  abbrev pub keeps : Post → Bool
  keeps (handles e) = keeps_role e
  keeps _ = true

  unfoldable pub all_keep : List Post → Bool
  all_keep [] = true
  all_keep (e ∷ es) = keeps e && all_keep es

  -- A state that the gateway's process stays in.
  abbrev Kept : Process → Type 0
  Kept p = Ready p × Sink p

  Lasts-Kept : (p : Process) (c : Node) → Lasts true 1 c → Kept (returned p c)
  Lasts-Kept p c g = (g.good, g.role)

  Kept-Lasts : (p : Process) → Kept p → Lasts true 1 (calling p)
  Kept-Lasts p (r, g) = record { good = calling-Good p r; role = same true 1 p.lc _ refl refl g }

module _ ⦃os : Contiki⦄ ⦃rime : Rime⦄ (lists : ListLaws) (memb : MembLaws 8) where
  step-Kept :
      (p : Process) (e : Post)
      → keeps e ≡ true
      → Kept p
      → Unless (faulty e) (step p e) (λ q. Kept q)
  unfolding step
  step-Kept p et_fires h (r, g) = ends refl _ refl (
    ground (arith, resume-Ready (record p { et = expired }) r),
    ground (arith, resume-Sink (record p { et = expired }) g),
  )
  step-Kept p periodic_fires h (r, g) = ends refl _ refl (
    ground (arith, resume-Ready (record p { periodic = expired }) r),
    ground (arith, resume-Sink (record p { periodic = expired }) g),
  )
  step-Kept p wait_fires h (r, g) = ends refl (waited p) refl (waited-Ready p r, waited-Sink p g)
  step-Kept p monitor_fires h (r, g) =
      ends refl (monitored p) refl (monitored-Ready p r, monitored-Sink p g)
  step-Kept p (handles e) h k =
      elim (step-Lasts lists memb true 1 (calling p) e h (Kept-Lasts p k)) [
        | faults d is ↦ faults d (rw (step, is) refl)
        | ends d c is g ↦ ends d (returned p c) (rw (step, is) refl) (Lasts-Kept p c g)
      ]

  steps-Kept :
      (p : Process) (es : List Post)
      → all_keep es ≡ true
      → Kept p
      → Unless (any_faulty es) (steps p es) (λ q. Kept q)
  unfolding steps all_keep any_faulty
  steps-Kept p [] h k = ends refl p refl k
  steps-Kept p (e ∷ es) h k =
      Unless-then (step-Kept p e (ground arith) k) (steps-none p e es) (λ p' is k'.
        subst (λ r. Unless (any_faulty es) r (λ q. Kept q)) (sym (steps-step p p' e es is))
          (steps-Kept p' es (ground arith) k'))

  starts_Kept :
      (p : Process) → IsLoaded p → gateway ≡ true → (q : Process) × (start p ≡ some q) × Kept q
  starts_Kept p l here =
      let (m, starts) = start_at_gateway p here in
      let (q, starts', s) = start-Started lists memb p l in
      let p1 = settle (start_monitor (record (sink (opened p)) { tree = m })) in
      let g : Sink p1 = sink-Sink (opened p) in
      (q, starts', (s.ready, subst (λ x. Sink x) (some-injective p1 q (sym starts ∙ starts')) g))

  -- At the node with the address 1.0, the start of the processes of example-libp.c and any
  -- sequence of events after it, but a call of `libp_set_sink` from elsewhere, fault, by a
  -- division by zero, if the beacon period is set to 1 among the events; and if it is not, they
  -- reach their end with the connection's rtmetric 0 and `is_sink` set.
  pub gateway_lasts :
      (p : Process) (es : List Post)
      → IsLoaded p
      → gateway ≡ true
      → all_keep es ≡ true
      → Unless (any_faulty es) (runs p es) (λ q. (q.lc.rtmetric ≡ 0) × (q.lc.is_sink ≡ 1))
  gateway_lasts p es l here h =
      let (p', starts, k) = starts_Kept p l here in
      rw (runs-start p p' es starts) (elim (steps-Kept p' es h k) [
        | faults d is ↦ faults d is
        | ends d q is (r, g) ↦ ends d q is ((==_iff q.lc.rtmetric 0).0 g.rtmetric, g.is_sink)
      ])
