-- ===== src/Example/Ready.antt =====
-- example-libp.c: the processes keep the connection in a good state.
use libp.Base.{arith, Option, none, some}
use libp.Contiki.{Contiki}
use libp.Rime.{Rime}
use libp.Conn.{Node, drawn}
use libp.Conn.Inv.{Good}
use libp.Conn.Handlers.{buf-Good}
use libp.Conn.Calls.{send-Good}
use libp.Example.{
  looping, Monitor, Process, calling, renew, say_hello, send_hello, resume, resume_monitor,
  wait_over, monitor_over, waited, monitored,
}
use libp.Example.Lines.{expired}

module _ ⦃os : Contiki⦄ ⦃rime : Rime⦄ where
  open os use {clock_second}
  open rime use {node_addr}

  -- The connection is in a good state.
  abbrev pub Ready : Process → Type 0
  Ready p = Good p.lc

  pub calling-Good : (p : Process) → Ready p → Good (calling p)
  calling-Good p g = ground arith

  drawn-Good : (c : Node) → Good c → Good (drawn c)
  drawn-Good c g = ground arith

  renew-Ready : (p : Process) → Ready p → Ready (renew p)
  unfolding renew
  renew-Ready p g = ground (arith, drawn-Good p.lc g)

  say_hello-Good : (c : Node) → Good c → Good (say_hello c)
  say_hello-Good c g = buf-Good c _ g

  send_hello-Ready : (p : Process) → Ready p → Ready (send_hello p)
  unfolding send_hello
  send_hello-Ready p g =
      send-Good (say_hello (calling p)) 15 (say_hello-Good (calling p) (calling-Good p g))

  pub resume-Ready : (p : Process) → Ready p → Ready (resume p)
  unfolding resume
  resume-Ready p g = ground (
    arith,
    renew-Ready (record p { place = looping }) g,
    send_hello-Ready p g,
    renew-Ready p g,
    renew-Ready (send_hello p) (send_hello-Ready p g),
  )

  resume_monitor-Ready : (p : Process) (m : Monitor) → Ready p → Ready (resume_monitor p m)
  unfolding resume_monitor
  resume_monitor-Ready p m g = ground (arith, drawn-Good p.lc g)

  pub on_monitor :
      (P : Process → Type 0) (p : Process) (f : Monitor → Process)
      → P p
      → ((m : Monitor) → P (f m))
      → (o : Option Monitor) → P (elim o [ none ↦ p | some m ↦ f m ])
  on_monitor P p f x y none = x
  on_monitor P p f x y (some m) = y m

  pub waited-Ready : (p : Process) → Ready p → Ready (waited p)
  waited-Ready p g =
      on_monitor Ready p (wait_over p) g
        (λ m. ground (arith, resume_monitor-Ready p (record m { wait_timer = expired }) g))
        p.monitor

  pub monitored-Ready : (p : Process) → Ready p → Ready (monitored p)
  monitored-Ready p g =
      on_monitor Ready p (monitor_over p) g
        (λ m. ground (arith, resume_monitor-Ready p (record m { monitor_timer = expired }) g))
        p.monitor
