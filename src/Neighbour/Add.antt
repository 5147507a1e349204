-- ===== src/Neighbour/Add.antt =====
-- libp-neighbour.c: `libp_neighbour_list_add`, case by case.
use libp.Base.{
  has-append, ◌<◌, ℕ, ◌≡◌, inl, inr, refl, sym, ◌∙◌, Bool, true, false, ◌++◌, Option, none, some,
  [], ◌∷◌, has, arith, Option-cases, Bool-cases,
}
use libp.Contiki.{Contiki, ListLaws, MembLaws}
use libp.Metric.Bounds.{new-IsValid}
use libp.Neighbour.{Table, write, update, find_in, find, recycle, allocate, pick, restart, add}
use libp.Neighbour.Lookup.{
  Apart, find_in-some, find_in-write_unlinked, Apart-write_new, Apart-append,
}
use libp.Neighbour.Inv.{IsValid, write-metrics, update-IsValid}

module _ ⦃os : Contiki⦄ where
  open os use {items, allocated, memb_alloc, memb_free, list_add}

  -- The table after an allocation from the block, and after one that was linked too.
  abbrev pub taken : Table → Table
  taken t = record t { pool = (memb_alloc t.pool).1 }

  abbrev pub linked : Table → ℕ → Table
  linked t p = record t { pool = (memb_alloc t.pool).1; chain = list_add t.chain p }

  -- How `add` came to its structure.
  pub data Added (t : Table) (a rt : ℕ) (r : Bool × Table) : Type 0 where
    known : (p : ℕ) → find t a ≡ some p → r ≡ (true, update t p (restart a rt)) → Added t a rt r
    fresh :
        (p : ℕ)
        → find t a ≡ none
        → (memb_alloc t.pool).0 ≡ some p
        → r ≡ (true, update (linked t p) p (restart a rt))
        → Added t a rt r
    recycled :
        (p : ℕ)
        → find t a ≡ none
        → (memb_alloc t.pool).0 ≡ none
        → recycle t rt ≡ some p
        → r ≡ (true, update (taken t) p (restart a rt))
        → Added t a rt r
    refused :
        find t a ≡ none
        → (memb_alloc t.pool).0 ≡ none
        → recycle t rt ≡ none
        → r ≡ (false, taken t)
        → Added t a rt r

  pub add-Added : (t : Table) (a rt : ℕ) → Added t a rt (add t a rt)
  unfolding add pick allocate
  add-Added t a rt = elim (Option-cases (find t a)) [
    | inr (p, e) ↦ known p e (ground arith)
    | inl e ↦ elim (Option-cases (memb_alloc t.pool).0) [
      | inr (p, f) ↦ fresh p e f (ground arith)
      | inl f ↦ elim (Option-cases (recycle t rt)) [
        | inr (p, g) ↦ recycled p e f g (ground arith)
        | inl g ↦ refused e f g (ground arith)
      ]
    ]
  ]

module _ ⦃os : Contiki⦄ (lists : ListLaws) (memb : MembLaws 8) where
  open os use {items, allocated, memb_alloc, memb_free, list_add}

  -- A free structure is not on the list.
  not-has_of_free :
      (t : Table) (p : ℕ) → IsValid t → allocated t.pool p ≡ false → has p (items t.chain) ≡ false
  not-has_of_free t p i free = elim (Bool-cases (has p (items t.chain))) [
    | inl on ↦ absurd (ground (arith, i.held p on))
    | inr off ↦ off
  ]

  pub off_list :
      (t : Table) (p : ℕ)
      → IsValid t
      → (memb_alloc t.pool).0 ≡ some p
      → has p (items t.chain) ≡ false
  off_list t p i alloc = not-has_of_free t p i (memb.alloc-some t.pool p alloc).1

  pub items-linked :
      (t : Table) (p : ℕ)
      → IsValid t
      → (memb_alloc t.pool).0 ≡ some p
      → items (list_add t.chain p) ≡ items t.chain ++ p ∷ []
  items-linked t p i alloc = lists.items-add t.chain p (off_list t p i alloc)

  held-linked :
      (t : Table) (p q : ℕ)
      → IsValid t
      → (memb_alloc t.pool).0 ≡ some p
      → has q (items (list_add t.chain p)) ≡ true
      → allocated (memb_alloc t.pool).1 q ≡ true
  held-linked t p q i alloc on = ground (
    arith,
    items-linked t p i alloc,
    has-append q p (items t.chain),
    i.held q,
    memb.allocated-alloc t.pool p q alloc,
  )

  within-linked :
      (t : Table) (p q : ℕ)
      → IsValid t
      → (memb_alloc t.pool).0 ≡ some p
      → has q (items (list_add t.chain p)) ≡ true
      → q < 8
  within-linked t p q i alloc on = ground (
    arith,
    items-linked t p i alloc,
    has-append q p (items t.chain),
    i.within q,
    memb.alloc-some t.pool p alloc,
  )

  Apart-linked :
      (t : Table) (p a rt : ℕ)
      → find_in t.mem (items t.chain) a ≡ none
      → (memb_alloc t.pool).0 ≡ some p
      → IsValid t
      → Apart (write t.mem p (restart a rt (t.mem p))) (items (list_add t.chain p))
  Apart-linked t p a rt e alloc i =
      let n = restart a rt (t.mem p) in
      rw (items-linked t p i alloc) (
        Apart-append (write t.mem p n) (items t.chain) p
          (ground
            (arith, find_in-write_unlinked t.mem (items t.chain) a p n (off_list t p i alloc)))
          (Apart-write_new t.mem (items t.chain) p n e i.apart))

  addr_of_find : (t : Table) (a p : ℕ) → find t a ≡ some p → (t.mem p).addr ≡ a
  unfolding find
  addr_of_find t a p e = (find_in-some t.mem (items t.chain) a p e).0

  find_in_of_find :
      (t : Table) (a : ℕ) (o : Option ℕ) → find t a ≡ o → find_in t.mem (items t.chain) a ≡ o
  unfolding find
  find_in_of_find t a o e = e

  linked-IsValid :
      (t : Table) (p a rt : ℕ)
      → find t a ≡ none
      → (memb_alloc t.pool).0 ≡ some p
      → IsValid t
      → IsValid (update (linked t p) p (restart a rt))
  linked-IsValid t p a rt e alloc i = record {
    held = λ q on. held-linked t p q i alloc on;
    within = λ q on. within-linked t p q i alloc on;
    apart = Apart-linked t p a rt (find_in_of_find t a none e) alloc i;
    metrics =
        write-metrics t.mem p (restart a rt (t.mem p)) (new-IsValid (t.mem p).lm (i.metrics p))
          i.metrics;
  }

  taken-IsValid : (t : Table) → (memb_alloc t.pool).0 ≡ none → IsValid t → IsValid (taken t)
  taken-IsValid t full i = record {
    held = λ q on. ground (arith, i.held q on, memb.alloc-none t.pool q full);
    within = i.within;
    apart = i.apart;
    metrics = i.metrics;
  }

  -- A listed structure takes the new address.
  reused-IsValid :
      (t : Table) (p a rt : ℕ) → find t a ≡ none → IsValid t → IsValid (update t p (restart a rt))
  reused-IsValid t p a rt e i = record {
    held = i.held;
    within = i.within;
    apart =
        Apart-write_new t.mem (items t.chain) p (restart a rt (t.mem p))
          (find_in_of_find t a none e) i.apart;
    metrics =
        write-metrics t.mem p (restart a rt (t.mem p)) (new-IsValid (t.mem p).lm (i.metrics p))
          i.metrics;
  }

  pub find-taken : (t : Table) (a : ℕ) → find (taken t) a ≡ find t a
  unfolding find
  find-taken t a = refl

  pub add-IsValid : (t : Table) (a rt : ℕ) → IsValid t → IsValid (add t a rt).1
  add-IsValid t a rt i = go (add t a rt) (add-Added t a rt)
    where
      go : (r : Bool × Table) → Added t a rt r → IsValid r.1
      go r (known p e f) = rw f (
          update-IsValid t p (restart a rt) (sym (addr_of_find t a p e))
            (new-IsValid (t.mem p).lm (i.metrics p)) i)
      go r (fresh p e alloc f) = rw f (linked-IsValid t p a rt e alloc i)
      go r (recycled p e full g f) =
          rw f (reused-IsValid (taken t) p a rt (find-taken t a ∙ e) (taken-IsValid t full i))
      go r (refused e full g f) = rw f (taken-IsValid t full i)
