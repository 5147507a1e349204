-- ===== src/Example/Rounds.antt =====
-- example-libp.c: how often the process sends.
use libp.Base.{
  ℕ, ◌+◌, ◌*◌, ◌≡◌, ◌∙◌, refl, arith, Bool, ◌&&◌, not, some, List, [], ◌∷◌, ◌++◌, length, true,
  false,
}
use libp.Contiki.{Contiki, ListLaws, MembLaws}
use libp.Rime.{Rime}
use libp.Example.{Process, Post, et_fires, periodic_fires, step, steps, runs}
use libp.Example.Ready.{Ready}
use libp.Conn.Fault.{ends_if}
use libp.Example.Calm.{Calm, Calm-trans, is_own, faulty, step-Calm, steps-step, runs-start}
use libp.Example.Start.{IsLoaded, start-Started}
use libp.Example.Output.{sendings}
use libp.Example.Turning.{
  Turning, Turning-Calm, et_over, periodic_over, Settling, Settling-Calm, settled,
}

module _ ⦃os : Contiki⦄ ⦃rime : Rime⦄ where
  -- No etimer of the process's own is among the events, and none divides by zero.
  unfoldable pub undisturbed : List Post → Bool
  undisturbed [] = true
  undisturbed (e ∷ es) = not (is_own e) && not (faulty e) && undisturbed es

  -- One period: `et` expires and then `periodic`, with other events before each.
  pub record Period : Type 0 where
    pub before : List Post
    pub between : List Post

  unfoldable pub periods : List Period → List Post
  periods [] = []
  periods (r ∷ rs) = r.before ++ et_fires ∷ (r.between ++ periodic_fires ∷ periods rs)

  unfoldable pub whole : List Period → Bool
  whole [] = true
  whole (r ∷ rs) = undisturbed r.before && undisturbed r.between && whole rs

module _ ⦃os : Contiki⦄ ⦃rime : Rime⦄ (lists : ListLaws) (memb : MembLaws 8) where
  -- The other events pass by.
  pass :
      (p : Process) (es fs : List Post)
      → undisturbed es ≡ true
      → Ready p
      → (q : Process) × (steps p (es ++ fs) ≡ steps q fs) × Ready q × Calm p q
  unfolding steps undisturbed
  pass p [] fs h g = (p, refl, g, ground arith)
  pass p (e ∷ es) fs h g =
      let (p1, first, (g1, c1)) =
        ends_if (λ q. Ready q × Calm p q) (faulty e) (step p e)
          (step-Calm lists memb p e (ground arith) g) (ground arith) in
      let (q, rest, g2, c2) = pass p1 es fs (ground arith) g1 in
      (q, steps-step p p1 e _ first ∙ rest, g2, Calm-trans c1 c2)

  until_et :
      (n : ℕ) (p : Process) (es fs : List Post)
      → undisturbed es ≡ true
      → Turning false false n p
      → (q : Process) × (steps p (es ++ et_fires ∷ fs) ≡ steps q fs) × Turning true false (n + 1) q
  until_et n p es fs h t =
      let (p1, go, g, c) = pass p es (et_fires ∷ fs) h t.ready in
      let (q, fire, t') = et_over n p1 (Turning-Calm false false n p p1 t g c) in
      (q, go ∙ steps-step p1 q et_fires fs fire, t')

  until_periodic :
      (n : ℕ) (p : Process) (es fs : List Post)
      → undisturbed es ≡ true
      → Turning true false n p
      → (q : Process) × (steps p (es ++ periodic_fires ∷ fs) ≡ steps q fs)
        × Turning false false (n + 1) q
  until_periodic n p es fs h t =
      let (p1, go, g, c) = pass p es (periodic_fires ∷ fs) h t.ready in
      let (q, fire, t') = periodic_over n p1 (Turning-Calm true false n p p1 t g c) in
      (q, go ∙ steps-step p1 q periodic_fires fs fire, t')

  turn :
      (rs : List Period) (n : ℕ) (p : Process)
      → whole rs ≡ true
      → Turning false false n p
      → (q : Process) × (steps p (periods rs) ≡ some q) × (sendings q.output ≡ n + 2 * length rs)
  unfolding steps periods whole
  turn [] n p h t = (p, refl, omega (arith, t.sent))
  turn (r ∷ rs) n p h t =
      let rest = r.between ++ periodic_fires ∷ periods rs in
      let (p1, go1, t1) = until_et n p r.before rest (ground arith) t in
      let (p2, go2, t2) = until_periodic (n + 1) p1 r.between (periods rs) (ground arith) t1 in
      let (q, go3, sent) = turn rs (n + 1 + 1) p2 (ground arith) t2 in
      (q, go1 ∙ go2 ∙ go3, omega (arith, sent))

  -- After the network has settled, and in `n` periods in which first `et` and then `periodic`
  -- expires, with any events between but these and a beacon period set to 1, the processes reach
  -- the end and the process has sent `2 * n` packets: `et` stays expired after its packet, so the
  -- expiry of `periodic` sends another.
  pub sends_twice :
      (p : Process) (es : List Post) (rs : List Period)
      → IsLoaded p
      → undisturbed es ≡ true
      → whole rs ≡ true
      → (q : Process) × (runs p (es ++ et_fires ∷ periods rs) ≡ some q)
        × (sendings q.output ≡ 2 * length rs)
  unfolding sendings
  sends_twice p es rs l h hs =
      let (p1, begins, s) = start-Started lists memb p l in
      let (p2, go2, g2, c2) = pass p1 es (et_fires ∷ periods rs) h s.ready in
      let settles : Settling p1 = record {
        ready = s.ready;
        place = s.place;
        et = s.et;
        periodic = s.calm.periodic ∙ l.unset;
        sent = s.calm.sent ∙ rw l.silent refl;
      } in
      let (p3, go3, t3) = settled p2 (Settling-Calm p1 p2 settles g2 c2) in
      let (q, go4, sent) = turn rs 0 p3 hs t3 in
      (
        q,
        runs-start p p1 _ begins ∙ go2 ∙ steps-step p2 p3 et_fires _ go3 ∙ go4,
        omega (arith, sent),
      )
