-- ===== src/Example/Links.antt =====
-- example-libp.c: the lines `#L` of the output, from which the tree is drawn.
use libp.Base.{
  ◌≡◌, ◌∙◌, refl, sym, ap, subst, arith, Bool-cases, inl, inr, some, List, [], ◌∷◌, if◌then◌else◌,
  true, false,
}
use libp.Conn.Fault.{Unless, faults, ends, ended, Unless-then}
use libp.Contiki.{Contiki, ListLaws, MembLaws}
use libp.Rime.{Rime}
use libp.Conn.{Node}
use libp.Conn.Api.{parent, send}
use libp.Example.{
  looping, Process, Post, et_fires, periodic_fires, wait_fires, monitor_fires, handles, calling,
  returned, print, renew, looks, hello_sent, say_hello, send_hello, resume, step, steps, runs,
  settle, start,
}
use libp.Example.Lines.{sending, expired, etimer_expired}
use libp.Example.Ready.{Ready, resume-Ready}
use libp.Example.Calm.{
  Calm, is_own, faulty, any_faulty, step-Calm, steps-step, steps-none, runs-start,
}
use libp.Example.Start.{IsLoaded, start-Started}
use libp.Example.Output.{links, shown, links-link_lines, links-lines_of}

module _ ⦃os : Contiki⦄ ⦃rime : Rime⦄ where
  -- The drawn link is the one to the parent that the process took down last.
  abbrev pub Draws : Process → Type 0
  Draws p = links p.output ≡ shown p.oldparent

  returned-Draws : (p : Process) (c : Node) → Draws p → Draws (returned p c)
  returned-Draws p c d = links-lines_of c.packetbuf c.effects p.output ∙ d

  renew-Draws : (p : Process) → Draws p → Draws (renew p)
  unfolding renew
  renew-Draws p d = ground arith

  send_hello-Draws : (p : Process) → Draws p → Draws (send_hello p)
  unfolding send_hello links
  send_hello-Draws p d =
      let c = (send (say_hello (calling p)) 15).1 in
      links-link_lines p.oldparent (parent c) (hello_sent p).output
        (returned-Draws (print sending p) c d)

  looks_now : (p : Process) → etimer_expired p.et ≡ true → looks p ≡ send_hello p
  looks_now p e = rw e refl

  looks_not : (p : Process) → etimer_expired p.et ≡ false → looks p ≡ p
  looks_not p e = rw e refl

  looks-Draws : (p : Process) → Draws p → Draws (looks p)
  looks-Draws p d = elim (Bool-cases (etimer_expired p.et)) [
    | inl e ↦ subst Draws (sym (looks_now p e)) (send_hello-Draws p d)
    | inr e ↦ subst Draws (sym (looks_not p e)) d
  ]

  resume-Draws : (p : Process) → Draws p → Draws (resume p)
  unfolding resume
  resume-Draws p d =
      ground (
        arith,
        renew-Draws (record p { place = looping }) d,
        renew-Draws (looks p) (looks-Draws p d),
      )

  -- Once it has sent, the parent taken down is the connection's.
  renew_keeps : (p : Process) → ((renew p).output ≡ p.output) × (parent (renew p).lc ≡ parent p.lc)
  unfolding renew parent
  renew_keeps p = ground arith

  hello-Parent :
      (p : Process) → Draws p → let q = renew (send_hello p) in links q.output ≡ shown (parent q.lc)
  unfolding send_hello
  hello-Parent p d =
      let (lines, same) = renew_keeps (send_hello p) in
      ap links lines ∙ send_hello-Draws p d ∙ ap shown (sym same)

  resume_looping :
      (p : Process)
      → p.place ≡ looping
      → etimer_expired p.et ≡ true
      → resume p ≡ renew (send_hello p)
  unfolding resume
  resume_looping p waits over = ground (arith, looks_now p over)

  Calm-Draws : (p q : Process) → Calm p q → Draws p → Draws q
  Calm-Draws p q c d = c.drawn ∙ d ∙ ap shown (sym c.oldparent)

  -- The connection is in a good state, and the output draws the parent.
  pub record Sound (p : Process) : Type 0 where
    pub ready : Ready p
    pub draws : Draws p

  fires_et-Sound :
      (p : Process)
      → Sound p
      → Sound (if etimer_expired p.et then p else resume (record p { et = expired }))
  fires_et-Sound p s = ground (
    arith,
    resume-Ready (record p { et = expired }) s.ready,
    resume-Draws (record p { et = expired }) s.draws,
  )

  fires_periodic-Sound :
      (p : Process)
      → Sound p
      → Sound (if etimer_expired p.periodic then p else resume (record p { periodic = expired }))
  fires_periodic-Sound p s = ground (
    arith,
    resume-Ready (record p { periodic = expired }) s.ready,
    resume-Draws (record p { periodic = expired }) s.draws,
  )

module _ ⦃os : Contiki⦄ ⦃rime : Rime⦄ (lists : ListLaws) (memb : MembLaws 8) where
  other-Sound :
      (p : Process) (e : Post) → is_own e ≡ false → Sound p → Unless (faulty e) (step p e) Sound
  other-Sound p e h s = elim (step-Calm lists memb p e h s.ready) [
    | faults d is ↦ faults d is
    | ends d q is (ready, calm) ↦
        ends d q is (record { ready = ready; draws = Calm-Draws p q calm s.draws })
  ]

  step-Sound : (p : Process) (e : Post) → Sound p → Unless (faulty e) (step p e) Sound
  unfolding step
  step-Sound p et_fires s = ends refl _ refl (fires_et-Sound p s)
  step-Sound p periodic_fires s = ends refl _ refl (fires_periodic-Sound p s)
  step-Sound p wait_fires s = other-Sound p wait_fires refl s
  step-Sound p monitor_fires s = other-Sound p monitor_fires refl s
  step-Sound p (handles e) s = other-Sound p (handles e) refl s

  steps-Sound : (p : Process) (es : List Post) → Sound p → Unless (any_faulty es) (steps p es) Sound
  unfolding steps any_faulty
  steps-Sound p [] s = ends refl p refl s
  steps-Sound p (e ∷ es) s = Unless-then (step-Sound p e s) (steps-none p e es) (λ p' is s'.
      subst (λ r. Unless (any_faulty es) r Sound) (sym (steps-step p p' e es is))
        (steps-Sound p' es s'))

  start-Sound : (p : Process) → IsLoaded p → (q : Process) × (start p ≡ some q) × Sound q
  unfolding links
  start-Sound p l =
      let (q, starts, s) = start-Started lists memb p l in
      (
        q,
        starts,
        record {
          ready = s.ready;
          draws = Calm-Draws (settle p) q s.calm (rw (l.silent, l.orphan) refl);
        },
      )

  -- From what the loader leaves, the start of the processes of example-libp.c, at the gateway too,
  -- and any sequence of events after it - their etimers expire, or anything happens to the
  -- connection - fault, by a division by zero, if the beacon period is set to 1 among the events;
  -- and if it is not, they reach their end, with the connection in a good state and the output's
  -- `#L` lines drawing one link, to the parent that the process took down last, or none if that
  -- was the null address.
  pub runs-Sound :
      (p : Process) (es : List Post) → IsLoaded p → Unless (any_faulty es) (runs p es) Sound
  unfolding runs
  runs-Sound p es l =
      let (p', starts, s) = start-Sound p l in
      subst (λ r. Unless (any_faulty es) r Sound) (sym (runs-start p p' es starts))
        (steps-Sound p' es s)

  -- Whatever has happened since the processes started, if the process waits in its loop with `et`
  -- armed and `et` expires, it goes on to its next wait, and the `#L` lines printed so far then
  -- draw the link to the connection's parent alone, or none if that is the null address.
  pub hello_draws :
      (p q : Process) (es : List Post)
      → IsLoaded p
      → runs p es ≡ some q
      → q.place ≡ looping
      → etimer_expired q.et ≡ false
      → (r : Process) × (step q et_fires ≡ some r) × (links r.output ≡ shown (parent r.lc))
  unfolding step
  hello_draws p q es l is waits set =
      let s = (ended Sound (any_faulty es) (runs p es) q (runs-Sound p es l) is).1 in
      let q1 = record q { et = expired } in
      (
        resume q1,
        rw set refl,
        subst (λ x. links x.output ≡ shown (parent x.lc)) (sym (resume_looping q1 waits refl))
            (hello-Parent q1 s.draws),
      )
