-- ===== src/Example/Calm.antt =====
-- example-libp.c: what the events that are not the process's own etimers leave alone.
use libp.Base.{◌≡◌, refl, arith, Bool, some, none, List, [], ◌∷◌, ◌||◌, if◌then◌else◌, true, false}
use libp.Contiki.{Contiki, ListLaws, MembLaws}
use libp.Rime.{Rime}
use libp.Conn.{Node}
use libp.Conn.Run.{divides, step-Good}
use libp.Conn.Fault.{Unless, faults, ends}
use libp.Example.{
  Monitor, Process, Post, et_fires, periodic_fires, wait_fires, monitor_fires, handles, calling,
  returned, resume_monitor, wait_over, monitor_over, waited, monitored, start, step, steps, runs,
}
use libp.Example.Lines.{expired}
use libp.Example.Output.{links, sendings, links-lines_of, sendings-lines_of}
use libp.Example.Ready.{Ready, on_monitor, calling-Good, waited-Ready, monitored-Ready}

module _ ⦃os : Contiki⦄ ⦃rime : Rime⦄ where
  open os use {clock_second}
  open rime use {node_addr}

  pub steps-step :
      (p q : Process) (e : Post) (es : List Post)
      → step p e ≡ some q
      → steps p (e ∷ es) ≡ steps q es
  unfolding steps
  steps-step p q e es h = rw (h, steps)

  pub steps-none :
      (p : Process) (e : Post) (es : List Post) → step p e ≡ none → steps p (e ∷ es) ≡ none
  unfolding steps
  steps-none p e es h = rw (h, steps)

  pub runs-start : (p q : Process) (es : List Post) → start p ≡ some q → runs p es ≡ steps q es
  unfolding runs
  runs-start p q es h = rw (h, runs)

  -- The process's own etimers.
  abbrev pub is_own : Post → Bool
  is_own et_fires = true
  is_own periodic_fires = true
  is_own _ = false

  -- The events that make `set_beacon_timer` divide by zero.
  abbrev pub faulty : Post → Bool
  faulty (handles e) = divides e
  faulty _ = false

  unfoldable pub any_faulty : List Post → Bool
  any_faulty [] = false
  any_faulty (e ∷ es) = faulty e || any_faulty es

  -- Nothing of what the process goes by has changed, and nothing of it was printed.
  pub record Calm (p q : Process) : Type 0 where
    pub place : q.place ≡ p.place
    pub periodic : q.periodic ≡ p.periodic
    pub et : q.et ≡ p.et
    pub oldparent : q.oldparent ≡ p.oldparent
    pub drawn : links q.output ≡ links p.output
    pub sent : sendings q.output ≡ sendings p.output

  pub Calm-trans : {p q r : Process} → Calm p q → Calm q r → Calm p r
  Calm-trans a b = ground arith

  pub returned-Calm : (p : Process) (c : Node) → Calm p (returned p c)
  returned-Calm p c = record {
    place = refl;
    periodic = refl;
    et = refl;
    oldparent = refl;
    drawn = links-lines_of c.packetbuf c.effects p.output;
    sent = sendings-lines_of c.packetbuf c.effects p.output;
  }

  resume_monitor-Calm : (p : Process) (m : Monitor) → Calm p (resume_monitor p m)
  unfolding resume_monitor links sendings
  resume_monitor-Calm p m = ground arith

  Calm-refl : (p : Process) → Calm p p
  Calm-refl p = ground arith

  if-Calm :
      (p : Process) (b : Bool) {q r : Process} → Calm p q → Calm p r → Calm p (if b then q else r)
  if-Calm p true c d = c
  if-Calm p false c d = d

  waited-Calm : (p : Process) → Calm p (waited p)
  waited-Calm p =
      on_monitor (Calm p) p (wait_over p) (Calm-refl p)
        (λ m. if-Calm p _ (Calm-refl p) (resume_monitor-Calm p (record m { wait_timer = expired })))
        p.monitor

  monitored-Calm : (p : Process) → Calm p (monitored p)
  monitored-Calm p =
      on_monitor (Calm p) p (monitor_over p) (Calm-refl p)
        (λ m.
          if-Calm p _ (Calm-refl p) (resume_monitor-Calm p (record m { monitor_timer = expired })))
        p.monitor

module _ ⦃os : Contiki⦄ ⦃rime : Rime⦄ (lists : ListLaws) (memb : MembLaws 8) where
  -- An event that is not one of the process's own etimers.
  pub step-Calm :
      (p : Process) (e : Post)
      → is_own e ≡ false
      → Ready p
      → Unless (faulty e) (step p e) (λ q. Ready q × Calm p q)
  unfolding step
  step-Calm p et_fires h g = cc
  step-Calm p periodic_fires h g = cc
  step-Calm p wait_fires h g = ends refl (waited p) refl (waited-Ready p g, waited-Calm p)
  step-Calm p monitor_fires h g =
      ends refl (monitored p) refl (monitored-Ready p g, monitored-Calm p)
  step-Calm p (handles e) h g = elim (step-Good lists memb (calling p) e (calling-Good p g)) [
    | faults d is ↦ faults d (rw (step, is) refl)
    | ends d c is g' ↦ ends d (returned p c) (rw (step, is) refl) (g', returned-Calm p c)
  ]
