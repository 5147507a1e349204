-- ===== src/Example/Turning.antt =====
-- example-libp.c: one turn of the process's loop.
use libp.Base.{ℕ, ◌+◌, ◌≡◌, ◌∙◌, refl, ap, subst, arith, Bool, some, true, false}
use libp.Contiki.{Contiki}
use libp.Rime.{Rime}
use libp.Conn.Api.{parent, send}
use libp.Example.{
  settling, looping, Process, et_fires, periodic_fires, calling, print, renew, hello_sent,
  say_hello, send_hello, resume, step,
}
use libp.Example.Lines.{sending, expired, etimer_expired}
use libp.Example.Ready.{Ready, resume-Ready}
use libp.Example.Calm.{Calm}
use libp.Example.Output.{sendings, sendings-link_lines, sendings-lines_of}

module _ ⦃os : Contiki⦄ ⦃rime : Rime⦄ where
  -- The process is in its loop, with its etimers as given, and has sent `n` times.
  pub record Turning (et_over periodic_over : Bool) (n : ℕ) (p : Process) : Type 0 where
    pub ready : Ready p
    pub place : p.place ≡ looping
    pub et : etimer_expired p.et ≡ et_over
    pub periodic : etimer_expired p.periodic ≡ periodic_over
    pub sent : sendings p.output ≡ n

  pub Turning-Calm :
      (a b : Bool) (n : ℕ) (p q : Process) → Turning a b n p → Ready q → Calm p q → Turning a b n q
  Turning-Calm a b n p q t g c = record {
    ready = g;
    place = c.place ∙ t.place;
    et = ap etimer_expired c.et ∙ t.et;
    periodic = ap etimer_expired c.periodic ∙ t.periodic;
    sent = c.sent ∙ t.sent;
  }

  sendings-send_hello : (p : Process) → sendings (send_hello p).output ≡ sendings p.output + 1
  unfolding send_hello sendings
  sendings-send_hello p =
      let c = (send (say_hello (calling p)) 15).1 in
      sendings-link_lines p.oldparent (parent c) (hello_sent p).output
      ∙ sendings-lines_of c.packetbuf c.effects (print sending p).output

  -- The process wakes up in its loop with `et` expired.
  wakes :
      (p : Process)
      → p.place ≡ looping
      → etimer_expired p.et ≡ true
      → resume p ≡ renew (send_hello p)
  unfolding resume
  wakes p l e = ground arith

  hello_keeps :
      (p : Process)
      → ((send_hello p).place ≡ p.place)
        × ((send_hello p).et ≡ p.et)
        × ((send_hello p).periodic ≡ p.periodic)
  unfolding send_hello
  hello_keeps p = (refl, refl, refl)

  renews :
      (p : Process)
      → etimer_expired p.periodic ≡ true
      → ((renew p).place ≡ p.place)
        × (etimer_expired (renew p).et ≡ false)
        × (etimer_expired (renew p).periodic ≡ false)
        × ((renew p).output ≡ p.output)
  unfolding renew
  renews p e = ground arith

  renews_not : (p : Process) → etimer_expired p.periodic ≡ false → renew p ≡ p
  unfolding renew
  renews_not p e = rw e refl

  pub et_over :
      (n : ℕ) (p : Process)
      → Turning false false n p
      → (q : Process) × (step p et_fires ≡ some q) × Turning true false (n + 1) q
  unfolding step
  et_over n p t =
      let p1 = record p { et = expired } in
      let e : resume p1 ≡ send_hello p1 =
        wakes p1 t.place refl
        ∙ renews_not (send_hello p1) ((ap etimer_expired (hello_keeps p1).2) ∙ t.periodic) in
      (
        send_hello p1,
        rw t.et (ap some e),
        record {
          ready = subst Ready e (resume-Ready p1 t.ready);
          place = (hello_keeps p1).0 ∙ t.place;
          et = ap etimer_expired (hello_keeps p1).1;
          periodic = ap etimer_expired (hello_keeps p1).2 ∙ t.periodic;
          sent = sendings-send_hello p1 ∙ ap (λ k. k + 1) t.sent;
        },
      )

  pub periodic_over :
      (n : ℕ) (p : Process)
      → Turning true false n p
      → (q : Process) × (step p periodic_fires ≡ some q) × Turning false false (n + 1) q
  unfolding step
  periodic_over n p t =
      let p1 = record p { periodic = expired } in
      let h = send_hello p1 in
      let e : resume p1 ≡ renew h = wakes p1 t.place t.et in
      let (place, et, periodic, output) = renews h (ap etimer_expired (hello_keeps p1).2) in
      (
        renew h,
        rw t.periodic (ap some e),
        record {
          ready = subst Ready e (resume-Ready p1 t.ready);
          place = place ∙ (hello_keeps p1).0 ∙ t.place;
          et = et;
          periodic = periodic;
          sent = ap sendings output ∙ sendings-send_hello p1 ∙ ap (λ k. k + 1) t.sent;
        },
      )

  -- The process waits for the network to settle.
  pub record Settling (p : Process) : Type 0 where
    pub ready : Ready p
    pub place : p.place ≡ settling
    pub et : etimer_expired p.et ≡ false
    pub periodic : p.periodic ≡ expired
    pub sent : sendings p.output ≡ 0

  resume_settling :
      (p : Process)
      → p.place ≡ settling
      → etimer_expired p.et ≡ true
      → resume p ≡ renew (record p { place = looping })
  unfolding resume
  resume_settling p s e = ground arith

  pub settled :
      (p : Process)
      → Settling p
      → (q : Process) × (step p et_fires ≡ some q) × Turning false false 0 q
  unfolding step
  settled p s =
      let p1 = record p { et = expired } in
      let p2 = record p1 { place = looping } in
      let e : resume p1 ≡ renew p2 = resume_settling p1 s.place refl in
      let (place, et, periodic, output) = renews p2 (ap etimer_expired s.periodic) in
      (
        renew p2,
        rw s.et (ap some e),
        record {
          ready = subst Ready e (resume-Ready p1 s.ready);
          place = place;
          et = et;
          periodic = periodic;
          sent = ap sendings output ∙ s.sent;
        },
      )

  pub Settling-Calm : (p q : Process) → Settling p → Ready q → Calm p q → Settling q
  Settling-Calm p q s g c = record {
    ready = g;
    place = c.place ∙ s.place;
    et = ap etimer_expired c.et ∙ s.et;
    periodic = c.periodic ∙ s.periodic;
    sent = c.sent ∙ s.sent;
  }
