-- ===== src/Example.antt =====
-- example-libp.c: the two processes, from event to event. A process runs to its next wait, and goes
-- on when an event is posted to it; an etimer that expires posts one.
pub mod Lines
mod Output
mod Ready
mod Calm
mod Start
mod Links
mod Turning
mod Gateway
mod Rounds
mod Tests
use libp.Base.{
  ℕ, ◌+◌, ◌*◌, ◌/◌, ◌%◌, ◌==◌, ◌&&◌, not, Bool, true, false, if◌then◌else◌, ltb, Option, none, some,
  List, [], ◌∷◌, ◌++◌, length,
}
use libp.Contiki.{Contiki}
use libp.Rime.{Rime}
use libp.Memory.{Machine, ok, fault, out_of_fuel}
use libp.Tree.{tree_init}
use libp.Conn.{Node, Effect, deliver, draw, drawn, addr_null}
use libp.Example.Lines.{
  Line, i_am_sink, sending, hi_from_sink, link_lost, link_found, got, low, high, decimal, hello,
  link_lines, Etimer, expired, armed, etimer_expired,
}
use libp.Conn.Api.{open_conn, set_sink, send, parent}
use libp.Conn.Beacon.{set_beacon_period}
use libp.Conn.Run.{Event}
use libp.Conn.Run as Run

-- BEACONING_PERIOD, CHANNEL, and LIBP_ROUTER of libp.h.
abbrev pub beaconing_period : ℕ
beaconing_period = 30

abbrev pub channel : ℕ
channel = 130

abbrev pub libp_router : ℕ
libp_router = 1

-- Where a process waits: for the network to settle, or in its loop.
pub data Place : Type 0 where
  settling looping : Place

-- `gateway_monitoring_process`.
pub record Monitor : Type 0 where
  pub place : Place
  pub monitor_timer : Etimer
  pub wait_timer : Etimer

module _ ⦃os : Contiki⦄ ⦃rime : Rime⦄ where
  open os use {clock_second}
  open rime use {clear, datalen, set_datalen, text, set_text, node_addr}

  -- `example_libp_process` with the connection and the other globals, the output newest first.
  pub record Process : Type 0 where
    pub lc : Node
    pub is_sink : ℕ
    pub tree : Machine
    pub place : Place
    pub periodic : Etimer
    pub et : Etimer
    pub oldparent : ℕ
    pub monitor : Option Monitor
    pub output : List Line

  -- `recv`.
  abbrev pub recv : rime.Buf → (originator seqno hops : ℕ) → Line
  recv b originator seqno hops =
      got (low originator) (high originator) seqno hops (datalen b) (text b)

  -- What the callback prints when libp makes the given calls.
  unfoldable pub lines_of : rime.Buf → List Effect → List Line
  lines_of b [] = []
  lines_of b (deliver o s h ∷ es) = recv b o s h ∷ lines_of b es
  lines_of b (_ ∷ es) = lines_of b es

  -- The connection, before a call into libp and after it.
  abbrev pub calling : Process → Node
  calling p = record (p.lc) { effects = [] }

  abbrev pub returned : Process → Node → Process
  returned p c = record p { lc = c; output = lines_of c.packetbuf c.effects ++ p.output }

  abbrev pub print : Line → Process → Process
  print l p = record p { output = l ∷ p.output }

  -- The head of the loop.
  unfoldable pub renew : Process → Process
  renew p =
      if etimer_expired p.periodic
      then record p {
        periodic = armed (clock_second * 30);
        et = armed (draw p.lc % (clock_second * 30));
        lc = drawn p.lc;
      }
      else p

  -- The body of the loop, once `et` is expired.
  abbrev pub say_hello : Node → Node
  say_hello c =
      let t = hello (low (parent c)) in
      record c { packetbuf = set_datalen (set_text (clear c.packetbuf) t) (length t + 1) }

  abbrev pub hello_sent : Process → Process
  hello_sent p = returned (print sending p) (send (say_hello (calling p)) 15).1

  unfoldable pub send_hello : Process → Process
  send_hello p =
      let p1 = hello_sent p in
      record p1 {
        oldparent = parent p1.lc;
        output = link_lines p1.oldparent (parent p1.lc) ++ p1.output;
      }

  -- From one wait to the next.
  abbrev pub looks : Process → Process
  looks p = if etimer_expired p.et then send_hello p else p

  unfoldable pub resume : Process → Process
  resume p = elim p.place [
    | settling ↦ if etimer_expired p.et then renew (record p { place = looping }) else p
    | looping ↦ renew (looks p)
  ]

  -- The same of the gateway's process.
  abbrev pub monitor_interval : Process → ℕ
  monitor_interval p = clock_second * 20 + draw p.lc % (clock_second * 20)

  abbrev pub watch : Process → Monitor → Process
  watch p m = record p {
    lc = drawn p.lc;
    monitor = some (record m { place = looping; monitor_timer = armed (monitor_interval p) });
  }

  unfoldable pub resume_monitor : Process → Monitor → Process
  resume_monitor p m = elim m.place [
    | settling ↦ if etimer_expired m.wait_timer then watch (print hi_from_sink p) m else p
    | looping ↦ if etimer_expired m.monitor_timer then watch p m else p
  ]

  -- The start of the processes. `none` is not reached: the beacon period is even, and `tree_init`
  -- returns.
  abbrev pub start_monitor : Process → Process
  start_monitor p = record p {
    monitor = some (record {
      place = settling;
      monitor_timer = expired;
      wait_timer = armed (60 * 2 * clock_second);
    });
  }

  abbrev pub start_tree : Process → Option Process
  start_tree p = elim (tree_init p.tree) [
    | ok _ m ↦ some (start_monitor (record p { tree = m }))
    | fault ↦ none
    | out_of_fuel ↦ none
  ]

  abbrev pub start_gateway : Process → Option Process
  start_gateway p =
      let p1 = print i_am_sink p in
      let p2 = returned p1 (set_sink (calling p1) 1) in
      let p3 = record p2 { is_sink = 1 } in
      elim (set_beacon_period (calling p3) (clock_second * beaconing_period)) [
        | none ↦ none
        | some c ↦ start_tree (returned p3 c)
      ]

  abbrev pub settle : Process → Process
  settle p = record p { et = armed (120 * clock_second); place = settling }

  unfoldable pub start : Process → Option Process
  start p =
      let p1 = returned p (open_conn (calling p) channel libp_router true) in
      if (low node_addr == 1) && (high node_addr == 0)
      then elim (start_gateway p1) [ none ↦ none | some p2 ↦ some (settle p2) ]
      else some (settle p1)

  -- An etimer that was armed expires, or something happens to the connection.
  pub data Post : Type 0 where
    et_fires periodic_fires wait_fires monitor_fires : Post
    handles : Event → Post

  abbrev pub wait_over : Process → Monitor → Process
  wait_over p m =
      if etimer_expired m.wait_timer
      then p
      else resume_monitor p (record m { wait_timer = expired })

  abbrev pub monitor_over : Process → Monitor → Process
  monitor_over p m =
      if etimer_expired m.monitor_timer
      then p
      else resume_monitor p (record m { monitor_timer = expired })

  abbrev pub waited : Process → Process
  waited p = elim p.monitor [ none ↦ p | some m ↦ wait_over p m ]

  abbrev pub monitored : Process → Process
  monitored p = elim p.monitor [ none ↦ p | some m ↦ monitor_over p m ]

  unfoldable pub step : Process → Post → Option Process
  step p et_fires = some (if etimer_expired p.et then p else resume (record p { et = expired }))
  step p periodic_fires =
      some (if etimer_expired p.periodic then p else resume (record p { periodic = expired }))
  step p wait_fires = some (waited p)
  step p monitor_fires = some (monitored p)
  step p (handles e) = elim (Run.step (calling p) e) [ none ↦ none | some c ↦ some (returned p c) ]

  unfoldable pub steps : Process → List Post → Option Process
  steps p [] = some p
  steps p (e ∷ es) = elim (step p e) [ none ↦ none | some p' ↦ steps p' es ]

  unfoldable pub runs : Process → List Post → Option Process
  runs p es = elim (start p) [ none ↦ none | some q ↦ steps q es ]
