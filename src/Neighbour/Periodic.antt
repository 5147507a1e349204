-- ===== src/Neighbour/Periodic.antt =====
-- libp-neighbour.c: `periodic`, which ages the neighbours and drops the old ones.
use libp.Base.{
  has-erase, ℕ, zero, suc, ◌≡◌, ◌≢◌, ◌+◌, inl, inr, refl, ◌==◌, true, if◌then◌else◌, some, List, [],
  ◌∷◌, has, erase, tail, length, arith, ◌≤◌, ◌<◌, Bool-cases, u16,
}
use libp.Contiki.{Contiki, ListLaws, MembLaws}
use libp.Metric
use libp.Metric.Bounds.{new-IsValid}
use libp.Neighbour.{Neighbour, Table, write, update, unlink, older, renewed, sweep, periodic}
use libp.Neighbour.Lookup.{Apart, Apart-write_addr, not-has_of_none}
use libp.Neighbour.Inv.{IsValid, update-IsValid, write-metrics}
use libp.Neighbour.Remove.{unlink-IsValid}

module _ ⦃os : Contiki⦄ where
  open os use {items, list_remove}

  abbrev pub aged : Neighbour → Neighbour
  aged n = record n { age = u16 (n.age + 1); lm_age = u16 (n.lm_age + 1) }

  -- The first loop ages every listed neighbour once, and no other.
  pub older_lem :
      (m : ℕ → Neighbour) (ps : List ℕ) (q : ℕ)
      → Apart m ps
      → older m ps q ≡ (if has q ps then aged (m q) else m q)
  unfolding older
  older_lem m [] q d = refl
  older_lem m (p ∷ ps) q d = ground (
    arith,
    older_lem (write m p (aged (m p))) ps q (Apart-write_addr m ps p (aged (m p)) refl d.1),
    not-has_of_none m ps p d.0,
  )

  older-Apart : (m : ℕ → Neighbour) (ps qs : List ℕ) → Apart m qs → Apart (older m ps) qs
  unfolding older
  older-Apart m [] qs d = d
  older-Apart m (p ∷ ps) qs d =
      older-Apart (write m p (aged (m p))) ps qs (Apart-write_addr m qs p (aged (m p)) refl d)

  older-metrics :
      (m : ℕ → Neighbour) (ps : List ℕ)
      → ((q : ℕ) → Metric.Bounds.IsValid (m q).lm)
      → (q : ℕ) → Metric.Bounds.IsValid (older m ps q).lm
  unfolding older
  older-metrics m [] v q = v q
  older-metrics m (p ∷ ps) v q =
      older-metrics (write m p (aged (m p))) ps (write-metrics m p (aged (m p)) (v p) v) q

  abbrev pub Within : List ℕ → List ℕ → Type 0
  Within ps qs = (q : ℕ) → has q ps ≡ true → has q qs ≡ true

  length-erase_le : (p : ℕ) (ps : List ℕ) → length (erase p ps) ≤ length ps
  length-erase_le p [] = omega arith
  length-erase_le p (q ∷ ps) = ground (arith, length-erase_le p ps)

  length-erase_lt : (p : ℕ) (ps : List ℕ) → has p ps ≡ true → length (erase p ps) < length ps
  length-erase_lt p [] h = cc
  length-erase_lt p (q ∷ ps) h = ground (arith, length-erase_lt p ps, length-erase_le p ps)

  has-tail : (q : ℕ) (ps : List ℕ) → has q (tail ps) ≡ true → has q ps ≡ true
  has-tail q [] h = h
  has-tail q (p ∷ ps) h = ground arith

  renewed-lm : (n : Neighbour) → Metric.Bounds.IsValid n.lm → Metric.Bounds.IsValid (renewed n).lm
  renewed-lm n v = ground (arith, new-IsValid n.lm v)

  pub renewed_keeps :
      (n : Neighbour)
      → ((renewed n).addr ≡ n.addr)
        × ((renewed n).rtmetric ≡ n.rtmetric)
        × ((renewed n).age ≡ n.age)
  renewed_keeps n = ground arith

  unfoldable pub aged_table : Table → Table
  aged_table t = record t { mem = older t.mem (items t.chain) }

  -- What the two kinds of rounds of the second loop have to keep.
  abbrev pub Rounds : (Table → List ℕ → Type 0) → Type 0
  Rounds P =
      (t : Table) (p : ℕ) (ps : List ℕ)
      → P t (p ∷ ps)
      → ((t.mem p).age ≢ 180 → P (update t p renewed) ps)
        × ((t.mem p).age ≡ 180
            → P (unlink (update t p renewed) p) (tail (items (list_remove t.chain p))))

module _ ⦃os : Contiki⦄ (lists : ListLaws) (memb : MembLaws 8) where
  open os use {items, list_remove}

  pub renewed-IsValid : (t : Table) (p : ℕ) → IsValid t → IsValid (update t p renewed)
  renewed-IsValid t p i =
      update-IsValid t p renewed (renewed_keeps (t.mem p)).0 (renewed-lm (t.mem p) (i.metrics p)) i

  length-pos : (p : ℕ) (ps : List ℕ) → has p ps ≡ true → 0 < length ps
  length-pos p [] h = cc
  length-pos p (q ∷ ps) h = omega arith

  unlinked_lt :
      (t : Table) (p : ℕ)
      → has p (items t.chain) ≡ true
      → length (items (list_remove t.chain p)) < length (items t.chain)
  unlinked_lt t p on = rw (lists.items-remove t.chain p) (length-erase_lt p (items t.chain) on)

  -- The loop ends if it is allowed as many removals as there are elements, and what its rounds
  -- keep holds at its end.
  sweep_run :
      (P : Table → List ℕ → Type 0)
      → Rounds P
      → (k : ℕ) (t : Table) (ps : List ℕ) → P t ps
      → Within ps (items t.chain)
      → length (items t.chain) ≤ k
      → (t' : Table) × (sweep k t ps ≡ some t') × P t' []
  unfolding sweep
  sweep_run P rounds k t [] h w l = (t, refl, h)
  sweep_run P rounds zero t (p ∷ ps) h w l =
      absurd (omega (arith, l, length-pos p (items t.chain) (w p (ground arith))))
  sweep_run P rounds (suc k) t (p ∷ ps) h w l = elim (Bool-cases ((t.mem p).age == 180)) [
    | inr off ↦
        let (t', run, end) =
          sweep_run P rounds (suc k) (update t p renewed) ps ((rounds t p ps h).0 (ground arith))
            (λ q on. w q (ground arith)) l in
        (t', rw (off, sweep) run, end)
    | inl old ↦
        let (t', run, end) =
          sweep_run P rounds k (unlink (update t p renewed) p)
            (tail (items (list_remove t.chain p))) ((rounds t p ps h).1 (ground arith))
            (λ q. has-tail q (items (list_remove t.chain p)))
            (omega (arith, unlinked_lt t p (w p (ground arith)))) in
        (t', rw (old, sweep) run, end)
  ]

  pub periodic_run :
      (P : Table → List ℕ → Type 0)
      → Rounds P
      → (t : Table) → P (aged_table t) (items t.chain)
      → (t' : Table) × (periodic t ≡ some t') × P t' []
  unfolding periodic aged_table
  periodic_run P rounds t h =
      sweep_run P rounds (os.list_length t.chain) (aged_table t) (items t.chain) h (λ q on. on)
        (omega (arith, lists.length-items t.chain))

  pub aged-IsValid : (t : Table) → IsValid t → IsValid (aged_table t)
  unfolding aged_table
  aged-IsValid t i = record {
    held = i.held;
    within = i.within;
    apart = older-Apart t.mem (items t.chain) (items t.chain) i.apart;
    metrics = older-metrics t.mem (items t.chain) i.metrics;
  }

  -- On a valid table the callback `periodic` reaches its end, and the table that it leaves is
  -- valid.
  pub periodic-IsValid :
      (t : Table) → IsValid t → (t' : Table) × (periodic t ≡ some t') × IsValid t'
  periodic-IsValid t i =
      periodic_run (λ u ps. IsValid u)
        (λ u p ps v. (
          λ young. renewed-IsValid u p v,
          λ old. unlink-IsValid lists memb (update u p renewed) p (renewed-IsValid u p v),
        ))
        t (aged-IsValid t i)

  -- The neighbour `q` is on the list, at age `n`, with its address and its rtmetric.
  abbrev pub Listed : ℕ → Neighbour → ℕ → Table → List ℕ → Type 0
  Listed q x n t ps =
      (has q (items t.chain) ≡ true)
      × ((t.mem q).age ≡ n)
      × ((t.mem q).addr ≡ x.addr)
      × ((t.mem q).rtmetric ≡ x.rtmetric)

  Listed-Rounds : (q : ℕ) (x : Neighbour) (n : ℕ) → n ≢ 180 → Rounds (Listed q x n)
  Listed-Rounds q x n ne t p ps h = (
    λ young. ground (arith, renewed_keeps (t.mem p)),
    λ old. ground (
      arith,
      renewed_keeps (t.mem p),
      lists.items-remove t.chain p,
      has-erase p q (items t.chain),
    ),
  )

  aged_Listed :
      (t : Table) (q : ℕ)
      → IsValid t
      → has q (items t.chain) ≡ true
      → (t.mem q).age < 65535
      → Listed q (t.mem q) ((t.mem q).age + 1) (aged_table t) (items t.chain)
  unfolding aged_table
  aged_Listed t q i on small = ground (arith, older_lem t.mem (items t.chain) q i.apart)

  -- On a valid table `periodic` reaches its end with every listed neighbour whose age is below
  -- 65535 and not 179 still on the list, one minute older, at its address and with its rtmetric.
  pub periodic_keeps :
      (t : Table) (q : ℕ)
      → IsValid t
      → has q (items t.chain) ≡ true
      → (t.mem q).age < 65535
      → (t.mem q).age ≢ 179
      → (t' : Table) × (periodic t ≡ some t') × Listed q (t.mem q) ((t.mem q).age + 1) t' []
  periodic_keeps t q i on small ne =
      periodic_run (Listed q (t.mem q) ((t.mem q).age + 1))
        (Listed-Rounds q (t.mem q) ((t.mem q).age + 1) (omega arith)) t (aged_Listed t q i on small)
