-- ===== src/Neighbour/Choice.antt =====
-- libp-neighbour.c: `libp_neighbour_list_best` finds a neighbour of least cost, and the recycling
-- of `libp_neighbour_list_add` takes one of highest rtmetric.
use libp.Base.{
  ℕ, ◌≡◌, ◌⊎◌, inl, inr, refl, true, Option, none, some, List, [], ◌∷◌, has, arith, ◌≤◌, ◌<◌,
}
use libp.Contiki.{Contiki}
use libp.Neighbour.{
  Neighbour, Table, worst_in, best_in, best, cost, recycle, max_depth, set_congested,
}

module _ ⦃os : Contiki⦄ where
  open os use {items}

  worst_in-ge :
      (m : ℕ → Neighbour) (ps : List ℕ) (w : Option ℕ) (rt : ℕ) → rt ≤ (worst_in m ps w rt).1
  unfolding worst_in
  worst_in-ge m [] w rt = omega arith
  worst_in-ge m (p ∷ ps) w rt =
      ground (arith, worst_in-ge m ps (some p) (m p).rtmetric, worst_in-ge m ps w rt)

  worst_in-max :
      (m : ℕ → Neighbour) (ps : List ℕ) (w : Option ℕ) (rt q : ℕ)
      → has q ps ≡ true
      → (m q).rtmetric ≤ (worst_in m ps w rt).1
  unfolding worst_in
  worst_in-max m [] w rt q h = cc
  worst_in-max m (p ∷ ps) w rt q h = ground (
    arith,
    worst_in-ge m ps (some p) (m p).rtmetric,
    worst_in-ge m ps w rt,
    worst_in-max m ps (some p) (m p).rtmetric q,
    worst_in-max m ps w rt q,
  )

  -- The outcome is the start, or a listed neighbour and its rtmetric.
  worst_in-form :
      (m : ℕ → Neighbour) (ps : List ℕ) (w : Option ℕ) (rt : ℕ)
      → (worst_in m ps w rt ≡ (w, rt))
        ⊎ ((p : ℕ) × (has p ps ≡ true) × (worst_in m ps w rt ≡ (some p, (m p).rtmetric)))
  unfolding worst_in
  worst_in-form m [] w rt = inl refl
  worst_in-form m (p ∷ ps) w rt =
      grind (arith, worst_in-form m ps (some p) (m p).rtmetric, worst_in-form m ps w rt)

  best_in-none :
      (m : ℕ → Neighbour) (ps : List ℕ) (b : Option ℕ) (rt q : ℕ)
      → best_in m ps b rt ≡ none
      → (b ≡ none) × (has q ps ≡ true → rt ≤ cost (m q))
  unfolding best_in
  best_in-none m [] b rt q e = ground arith
  best_in-none m (p ∷ ps) b rt q e =
      ground (arith, best_in-none m ps (some p) (cost (m p)) q, best_in-none m ps b rt q)

  best_in-some :
      (m : ℕ → Neighbour) (ps : List ℕ) (b : Option ℕ) (rt p q : ℕ)
      → best_in m ps b rt ≡ some p
      → ((b ≡ some p) × (has q ps ≡ true → rt ≤ cost (m q)))
        ⊎ ((has p ps ≡ true) × (cost (m p) < rt) × (has q ps ≡ true → cost (m p) ≤ cost (m q)))
  unfolding best_in
  best_in-some m [] b rt p q e = inl (ground arith)
  best_in-some m (x ∷ ps) b rt p q e =
      ground (arith, best_in-some m ps (some x) (cost (m x)) p q, best_in-some m ps b rt p q)

  -- What a choice of the best neighbour promises.
  abbrev pub IsBest : Table → Option ℕ → Type 0
  IsBest t none = (q : ℕ) → has q (items t.chain) ≡ true → max_depth ≤ cost (t.mem q)
  IsBest t (some p) =
      (has p (items t.chain) ≡ true)
      × (cost (t.mem p) < max_depth)
      × ((q : ℕ) → has q (items t.chain) ≡ true → cost (t.mem p) ≤ cost (t.mem q))

  IsBest-of : (t : Table) (b : Option ℕ) → best t ≡ b → IsBest t b
  unfolding best
  IsBest-of t none e = λ q. (best_in-none t.mem (items t.chain) none max_depth q e).1
  IsBest-of t (some p) e = (
    ground (arith, best_in-some t.mem (items t.chain) none max_depth p p e),
    ground (arith, best_in-some t.mem (items t.chain) none max_depth p p e),
    λ q h. ground (arith, best_in-some t.mem (items t.chain) none max_depth p q e),
  )

  -- `libp_neighbour_list_best` returns a listed neighbour whose cost is least and below 511, and
  -- NULL only if no listed neighbour's cost is below 511.
  pub best-IsBest : (t : Table) → IsBest t (best t)
  best-IsBest t = IsBest-of t (best t) refl

  -- What the recycling for a neighbour of the given rtmetric promises.
  abbrev pub IsWorst : Table → ℕ → Option ℕ → Type 0
  IsWorst t rt none = (q : ℕ) → has q (items t.chain) ≡ true → (t.mem q).rtmetric ≤ rt
  IsWorst t rt (some p) =
      (has p (items t.chain) ≡ true)
      × (rt < (t.mem p).rtmetric)
      × ((q : ℕ) → has q (items t.chain) ≡ true → (t.mem q).rtmetric ≤ (t.mem p).rtmetric)

  recycle_cases :
      (t : Table) (rt : ℕ)
      → ((recycle t rt ≡ none) × ((worst_in t.mem (items t.chain) none 0).1 ≤ rt))
        ⊎ ((p : ℕ) × (recycle t rt ≡ some p)
            × (has p (items t.chain) ≡ true)
            × (rt < (t.mem p).rtmetric)
            × ((worst_in t.mem (items t.chain) none 0).1 ≡ (t.mem p).rtmetric))
  unfolding recycle
  recycle_cases t rt = grind (arith, worst_in-form t.mem (items t.chain) none 0)

  -- The neighbour that `libp_neighbour_list_add` recycles has the highest rtmetric on the list,
  -- and a higher one than the new; where it recycles none, no listed rtmetric is higher than the
  -- new.
  pub recycle-IsWorst : (t : Table) (rt : ℕ) → IsWorst t rt (recycle t rt)
  recycle-IsWorst t rt = elim (recycle_cases t rt) [
    | inl (e, h) ↦ rw e (λ q on. omega (arith, h, worst_in-max t.mem (items t.chain) none 0 q on))
    | inr (p, e, on, lt, same) ↦
        rw e (on, lt, λ q on'. omega (arith, same, worst_in-max t.mem (items t.chain) none 0 q on'))
  ]

  -- A neighbour that is marked as congested is chosen as before: no search reads the timer.
  best_in-same_cost :
      (m m' : ℕ → Neighbour) (ps : List ℕ) (b : Option ℕ) (rt : ℕ)
      → ((q : ℕ) → cost (m' q) ≡ cost (m q))
      → best_in m' ps b rt ≡ best_in m ps b rt
  unfolding best_in
  best_in-same_cost m m' [] b rt h = refl
  best_in-same_cost m m' (p ∷ ps) b rt h = ground (
    arith,
    h p,
    best_in-same_cost m m' ps (some p) (cost (m p)) h,
    best_in-same_cost m m' ps b rt h,
  )

  cost-set_congested :
      (t : Table) (n : Option ℕ) (now q : ℕ) → cost ((set_congested t n now).mem q) ≡ cost (t.mem q)
  unfolding set_congested cost
  cost-set_congested t none now q = refl
  cost-set_congested t (some p) now q = ground arith

  -- `libp_neighbour_set_congested` never changes which neighbour `libp_neighbour_list_best`
  -- returns.
  pub best-set_congested :
      (t : Table) (n : Option ℕ) (now : ℕ) → best (set_congested t n now) ≡ best t
  unfolding best set_congested
  best-set_congested t none now = refl
  best-set_congested t (some p) now =
      best_in-same_cost t.mem (set_congested t (some p) now).mem (items t.chain) none max_depth
        (cost-set_congested t (some p) now)
