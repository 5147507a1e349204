-- ===== src/Neighbour/Overdue.antt =====
-- libp-neighbour.c: `periodic` goes on behind the head after a removal, so it misses a neighbour
-- that became too old at the same time as the one in front of it.
use libp.Base.{
  has-erase, ℕ, ◌≡◌, ◌≢◌, ◌⊎◌, inl, inr, subst, true, false, if◌then◌else◌, some, List, [], ◌∷◌,
  has, erase, arith,
}
use libp.Contiki.{Contiki, ListLaws, MembLaws}
use libp.Neighbour.{Table, periodic, older}
use libp.Neighbour.Lookup.{Apart, not-has_of_none}
use libp.Neighbour.Inv.{IsValid}
use libp.Neighbour.Periodic.{aged_table, aged, older_lem, renewed_keeps, Rounds, periodic_run}

module _ ⦃os : Contiki⦄ (lists : ListLaws) (memb : MembLaws 8) where
  open os use {items, list_remove}

  -- The element that heads the list stays at its head while the elements behind it are swept.
  abbrev Heads : ℕ → ℕ → Table → List ℕ → Type 0
  Heads q n t ps =
      (r : List ℕ) × (items t.chain ≡ q ∷ r)
      × (has q r ≡ false)
      × (has q ps ≡ false)
      × ((t.mem q).age ≡ n)

  has-erase_off : (p q : ℕ) (ps : List ℕ) → has q ps ≡ false → has q (erase p ps) ≡ false
  has-erase_off p q ps h = ground (arith, has-erase p q ps)

  Heads-Rounds : (q n : ℕ) → Rounds (Heads q n)
  Heads-Rounds q n t p ps (r, e, off, out, age) = (
    λ young. (r, e, off, ground arith, ground (arith, renewed_keeps (t.mem p))),
    λ old. (
      erase p r,
      ground (arith, lists.items-remove t.chain p),
      has-erase_off p q r off,
      ground (arith, lists.items-remove t.chain p, has-erase_off p q r off),
      ground (arith, renewed_keeps (t.mem p)),
    ),
  )

  -- The state in which the second loop starts.
  abbrev Starts : ℕ → ℕ → List ℕ → Table → List ℕ → Type 0
  Starts p q r t ps =
      (ps ≡ p ∷ q ∷ r)
      × (items t.chain ≡ p ∷ q ∷ r)
      × (p ≢ q)
      × (has q r ≡ false)
      × ((t.mem p).age ≡ 180)
      × ((t.mem q).age ≡ 180)

  abbrev Skips : ℕ → ℕ → List ℕ → Table → List ℕ → Type 0
  Skips p q r t ps = Starts p q r t ps ⊎ Heads q 180 t ps

  Skips-Rounds : (p q : ℕ) (r : List ℕ) → Rounds (Skips p q r)
  Skips-Rounds p q r t x ps (inr h) = (
    λ young. inr ((Heads-Rounds q 180 t x ps h).0 young),
    λ old. inr ((Heads-Rounds q 180 t x ps h).1 old),
  )
  Skips-Rounds p q r t x ps (inl (e, f, ne, off, agep, ageq)) = (
    λ young. absurd (ground arith),
    λ old. inr (
      erase p r,
      ground (arith, lists.items-remove t.chain x),
      has-erase_off p q r off,
      ground (arith, lists.items-remove t.chain x, has-erase_off p q r off),
      ground (arith, renewed_keeps (t.mem x)),
    ),
  )

  aged_Starts :
      (t : Table) (p q : ℕ) (r : List ℕ)
      → IsValid t
      → items t.chain ≡ p ∷ q ∷ r
      → (t.mem p).age ≡ 179
      → (t.mem q).age ≡ 179
      → Starts p q r (aged_table t) (items t.chain)
  unfolding aged_table
  aged_Starts t p q r i e agep ageq =
      (e, e, ground (arith, off), ground (arith, off), ground (arith, age p), ground (arith, age q))
    where
      d : Apart t.mem (p ∷ q ∷ r)
      d = subst (Apart t.mem) e i.apart

      off : (has p (q ∷ r) ≡ false) × (has q r ≡ false)
      off = (not-has_of_none t.mem (q ∷ r) p d.0, not-has_of_none t.mem r q d.1.0)

      age :
          (x : ℕ)
          → older t.mem (items t.chain) x
            ≡ (if has x (items t.chain) then aged (t.mem x) else t.mem x)
      age x = older_lem t.mem (items t.chain) x i.apart

  stays :
      (p q : ℕ) (r : List ℕ) (t : Table)
      → Skips p q r t []
      → (has q (items t.chain) ≡ true) × ((t.mem q).age ≡ 180)
  stays p q r t (inl (e, _, _, _, _, _)) = cc
  stays p q r t (inr (s, e, _, _, age)) = (rw e (ground arith), age)

  -- If the first two neighbours on the list of a valid table are both of age 179, `periodic`
  -- reaches its end with the second still on the list, at age 180.
  pub periodic_skips :
      (t : Table) (p q : ℕ) (r : List ℕ)
      → IsValid t
      → items t.chain ≡ p ∷ q ∷ r
      → (t.mem p).age ≡ 179
      → (t.mem q).age ≡ 179
      → (t' : Table) × (periodic t ≡ some t')
        × (has q (items t'.chain) ≡ true)
        × ((t'.mem q).age ≡ 180)
  periodic_skips t p q r i e agep ageq =
      let (t', run, end) =
        periodic_run lists memb (Skips p q r) (Skips-Rounds p q r) t
          (inl (aged_Starts t p q r i e agep ageq)) in
      let (on, age) = stays p q r t' end in (t', run, on, age)
