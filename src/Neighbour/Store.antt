-- ===== src/Neighbour/Store.antt =====
-- libp-neighbour.c: `libp_neighbour_list_add`, what the caller has after it.
use libp.Base.{
  ℕ, ◌≡◌, ◌≢◌, refl, sym, ap, ◌∙◌, subst, Bool, true, false, none, some, [], ◌∷◌, has, arith, ◌≤◌,
  ◌<◌, ==_refl,
}
use libp.Contiki.{Contiki, ListLaws, MembLaws}
use libp.Metric
use libp.Metric.Average.{new_lem}
use libp.Neighbour.{Neighbour, Table, write, update, find_in, find, recycle, restart, add}
use libp.Neighbour.Lookup.{
  find_in-some, find_in-write_unlinked, find_in-append, find_in-write_addr, find_in-write_self,
}
use libp.Neighbour.Choice.{IsWorst, recycle-IsWorst}
use libp.Neighbour.Inv.{IsValid}
use libp.Neighbour.Add.{
  Added, known, fresh, recycled, refused, add-Added, linked, taken, off_list, items-linked,
  find-taken,
}

module _ ⦃os : Contiki⦄ where
  -- A structure begun again for a neighbour: its address and rtmetric, the ages and the penalty at
  -- 0, the link's counts of children as at the start; the samples and the congestion timer stay.
  pub record Begun (a rt : ℕ) (old new : Neighbour) : Type 0 where
    pub addr : new.addr ≡ a
    pub rtmetric : new.rtmetric ≡ rt
    pub age : new.age ≡ 0
    pub lm_age : new.lm_age ≡ 0
    pub penalty : new.penalty ≡ 0
    pub estimate : new.lm ≡ record (old.lm) { num_children = 0; children_accumulator = 8 }
    pub congested : new.congested_timer ≡ old.congested_timer

  restart-Begun : (a rt : ℕ) (n : Neighbour) → Begun a rt n (restart a rt n)
  restart-Begun a rt n = record {
    addr = refl;
    rtmetric = refl;
    age = refl;
    lm_age = refl;
    penalty = refl;
    estimate = new_lem n.lm;
    congested = refl;
  }

  metric-Begun :
      (a rt : ℕ) (m n : Neighbour) → Begun a rt m n → Metric.metric n.lm ≡ Metric.metric m.lm
  unfolding Metric.metric
  metric-Begun a rt m n b = ap Metric.metric b.estimate

module _ ⦃os : Contiki⦄ (lists : ListLaws) (memb : MembLaws 8) where
  open os use {items, allocated, memb_alloc}

  -- What the caller has after an addition: the neighbour under its address with the values given
  -- and all else as it was; or nothing changed, for lack of room and of a worse neighbour.
  abbrev pub Stores : Table → ℕ → ℕ → Bool × Table → Type 0
  Stores t a rt (true, t') =
      (p : ℕ) × (find t' a ≡ some p)
      × Begun a rt (t.mem p) (t'.mem p)
      × ((q : ℕ) → p ≢ q → t'.mem q ≡ t.mem q)
  Stores t a rt (false, t') =
      (t'.mem ≡ t.mem)
      × (t'.chain ≡ t.chain)
      × (find t a ≡ none)
      × ((q : ℕ) → has q (items t.chain) ≡ true → (t.mem q).rtmetric ≤ rt)
      × ((q : ℕ) → q < 8 → allocated t.pool q ≡ true)

  write_self : (m : ℕ → Neighbour) (p : ℕ) (n : Neighbour) → write m p n p ≡ n
  write_self m p n = rw (==_refl p)

  written-Begun :
      (t : Table) (a rt p : ℕ) → Begun a rt (t.mem p) (write t.mem p (restart a rt (t.mem p)) p)
  written-Begun t a rt p =
      subst (Begun a rt (t.mem p)) (sym (write_self t.mem p (restart a rt (t.mem p))))
        (restart-Begun a rt (t.mem p))

  write_ne : (m : ℕ → Neighbour) (p q : ℕ) (n : Neighbour) → p ≢ q → write m p n q ≡ m q
  write_ne m p q n h = ground arith

  recycle-has : (t : Table) (rt p : ℕ) → recycle t rt ≡ some p → has p (items t.chain) ≡ true
  recycle-has t rt p e = (subst (IsWorst t rt) e (recycle-IsWorst t rt)).0

  recycle-refuses :
      (t : Table) (rt q : ℕ)
      → recycle t rt ≡ none
      → has q (items t.chain) ≡ true
      → (t.mem q).rtmetric ≤ rt
  recycle-refuses t rt q e = subst (IsWorst t rt) e (recycle-IsWorst t rt) q

  find-known :
      (t : Table) (a rt p : ℕ) → find t a ≡ some p → find (update t p (restart a rt)) a ≡ some p
  unfolding find
  find-known t a rt p e =
      find_in-write_addr t.mem (items t.chain) a p (restart a rt (t.mem p))
        (sym (find_in-some t.mem (items t.chain) a p e).0)
      ∙ e

  find-linked :
      (t : Table) (a rt p : ℕ)
      → IsValid t
      → find t a ≡ none
      → (memb_alloc t.pool).0 ≡ some p
      → find (update (linked t p) p (restart a rt)) a ≡ some p
  unfolding find find_in
  find-linked t a rt p i e alloc =
      let n = restart a rt (t.mem p) in
      rw (items-linked lists memb t p i alloc) (
        ground (
          arith,
          find_in-append (write t.mem p n) (items t.chain) (p ∷ []) a,
          find_in-write_unlinked t.mem (items t.chain) a p n (off_list lists memb t p i alloc),
          ==_refl p,
          ==_refl a,
        ))

  find-reused :
      (t : Table) (a rt p : ℕ)
      → find t a ≡ none
      → has p (items t.chain) ≡ true
      → find (update t p (restart a rt)) a ≡ some p
  unfolding find
  find-reused t a rt p e on =
      find_in-write_self t.mem (items t.chain) p (restart a rt (t.mem p)) on e

  -- Of a valid table, `libp_neighbour_list_add` makes what `Stores` says: the address finds a
  -- structure with that address, the rtmetric given, both ages and the penalty 0, `num_children` 0
  -- and `children_accumulator` 8, whose link samples and congestion timer are those that it held
  -- before, and the other structures are as before; or no structure and no listing has changed,
  -- because the address is not on the list, all eight structures are in use and no listed rtmetric
  -- is higher than the new one.
  pub add-Stores : (t : Table) (a rt : ℕ) → IsValid t → Stores t a rt (add t a rt)
  add-Stores t a rt i = go (add t a rt) (add-Added t a rt)
    where
      go : (r : Bool × Table) → Added t a rt r → Stores t a rt r
      go r (known p e f) =
          rw f (p, find-known t a rt p e, written-Begun t a rt p, λ q h. write_ne t.mem p q _ h)
      go r (fresh p e alloc f) =
          rw f (
            p,
            find-linked t a rt p i e alloc,
            written-Begun t a rt p,
            λ q h. write_ne t.mem p q _ h,
          )
      go r (recycled p e full g f) = rw f (
        p,
        find-reused (taken t) a rt p (find-taken lists memb t a ∙ e) (recycle-has t rt p g),
        written-Begun t a rt p,
        λ q h. write_ne t.mem p q _ h,
      )
      go r (refused e full g f) = rw f (
        refl,
        refl,
        e,
        λ q on. recycle-refuses t rt q g on,
        λ q h. (memb.alloc-none t.pool q full).0 h,
      )

  -- If `libp_neighbour_list_add` succeeds on a valid table, the metric of the link to the new
  -- neighbour is the one that its structure held before, whichever neighbour that was for.
  pub add-stale :
      (t : Table) (a rt : ℕ)
      → IsValid t
      → (add t a rt).0 ≡ true
      → (p : ℕ) × (find (add t a rt).1 a ≡ some p)
        × (Metric.metric ((add t a rt).1.mem p).lm ≡ Metric.metric (t.mem p).lm)
  add-stale t a rt i e = go (add t a rt) (add-Stores t a rt i) e
    where
      go :
          (r : Bool × Table)
          → Stores t a rt r
          → r.0 ≡ true
          → (p : ℕ) × (find r.1 a ≡ some p)
            × (Metric.metric (r.1.mem p).lm ≡ Metric.metric (t.mem p).lm)
      go (true, t') (p, f, begun, others) e = (p, f, metric-Begun a rt (t.mem p) (t'.mem p) begun)
      go (false, t') s e = cc
