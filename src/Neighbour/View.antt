-- ===== src/Neighbour/View.antt =====
-- libp-neighbour.c: the table as a function from addresses to rtmetrics, which forgets the order of
-- the list and where the structures lie.
use libp.Base.{
  ℕ, ◌≡◌, ◌⊎◌, inl, inr, refl, true, false, ◌++◌, if◌then◌else◌, ◌==◌, Option, none, some, List, [],
  ◌∷◌, has, erase, erase_absent, arith, ==_refl, Bool-cases,
}
use libp.Contiki.{Contiki}
use libp.Neighbour.{Neighbour, Table, write, find_in}
use libp.Neighbour.Lookup.{Apart, not-has_of_none, find_in-none}

module _ ⦃os : Contiki⦄ where
  open os use {items}

  unfoldable pub view_in : (ℕ → Neighbour) → List ℕ → ℕ → Option ℕ
  view_in m [] b = none
  view_in m (p ∷ ps) b = if (m p).addr == b then some (m p).rtmetric else view_in m ps b

  -- The rtmetric of the neighbour at an address.
  abbrev pub view : Table → ℕ → Option ℕ
  view t = view_in t.mem (items t.chain)

  pub view_in_of_none :
      (m : ℕ → Neighbour) (ps : List ℕ) (a : ℕ) → find_in m ps a ≡ none → view_in m ps a ≡ none
  unfolding view_in find_in
  view_in_of_none m [] a e = refl
  view_in_of_none m (p ∷ ps) a e = ground (arith, view_in_of_none m ps a)

  pub view_in_of_some :
      (m : ℕ → Neighbour) (ps : List ℕ) (a p : ℕ)
      → find_in m ps a ≡ some p
      → view_in m ps a ≡ some (m p).rtmetric
  unfolding view_in find_in
  view_in_of_some m [] a p e = cc
  view_in_of_some m (q ∷ ps) a p e = ground (arith, view_in_of_some m ps a p)

  -- What an address shows is the rtmetric of a listed neighbour.
  pub view_in_listed :
      (m : ℕ → Neighbour) (ps : List ℕ) (b r : ℕ)
      → view_in m ps b ≡ some r
      → (p : ℕ) × (has p ps ≡ true) × ((m p).rtmetric ≡ r)
  unfolding view_in
  view_in_listed m [] b r e = cc
  view_in_listed m (p ∷ ps) b r e = elim (Bool-cases ((m p).addr == b)) [
    | inl at ↦ (p, ground (arith, ==_refl p), ground arith)
    | inr off ↦
        let (q, on, same) = view_in_listed m ps b r (ground arith) in (q, ground arith, same)
  ]

  pub view_in-same :
      (m m' : ℕ → Neighbour) (ps : List ℕ) (b : ℕ)
      → ((q : ℕ) → ((m' q).addr ≡ (m q).addr) × ((m' q).rtmetric ≡ (m q).rtmetric))
      → view_in m' ps b ≡ view_in m ps b
  unfolding view_in
  view_in-same m m' [] b h = refl
  view_in-same m m' (p ∷ ps) b h = ground (arith, h p, view_in-same m m' ps b h)

  view_in-absent :
      (m : ℕ → Neighbour) (ps : List ℕ) (p b : ℕ)
      → find_in m ps (m p).addr ≡ none
      → (m p).addr ≡ b
      → view_in m ps b ≡ none
  unfolding view_in find_in
  view_in-absent m [] p b e h = refl
  view_in-absent m (q ∷ ps) p b e h = ground (arith, view_in-absent m ps p b)

  pub view_in-write_unlinked :
      (m : ℕ → Neighbour) (ps : List ℕ) (p b : ℕ) (n : Neighbour)
      → has p ps ≡ false
      → view_in (write m p n) ps b ≡ view_in m ps b
  unfolding view_in
  view_in-write_unlinked m [] p b n h = refl
  view_in-write_unlinked m (q ∷ ps) p b n h = ground (arith, view_in-write_unlinked m ps p b n)

  -- A listed structure that keeps its address, and one that gets an address of its own.
  pub view_in-write_addr :
      (m : ℕ → Neighbour) (ps : List ℕ) (p b : ℕ) (n : Neighbour)
      → Apart m ps
      → has p ps ≡ true
      → n.addr ≡ (m p).addr
      → view_in (write m p n) ps b ≡ (if n.addr == b then some n.rtmetric else view_in m ps b)
  unfolding view_in
  view_in-write_addr m [] p b n d on h = cc
  view_in-write_addr m (q ∷ ps) p b n d on h = ground (
    arith,
    not-has_of_none m ps q d.0,
    view_in-write_unlinked m ps p b n,
    view_in-write_addr m ps p b n d.1,
    find_in-none m ps (m q).addr p d.0,
  )

  pub view_in-write_new :
      (m : ℕ → Neighbour) (ps : List ℕ) (p b : ℕ) (n : Neighbour)
      → Apart m ps
      → has p ps ≡ true
      → find_in m ps n.addr ≡ none
      → view_in (write m p n) ps b ≡ (
          if n.addr == b then some n.rtmetric else if (m p).addr == b then none else view_in m ps b)
  unfolding view_in find_in
  view_in-write_new m [] p b n d on h = cc
  view_in-write_new m (q ∷ ps) p b n d on h = ground (
    arith,
    not-has_of_none m ps q d.0,
    view_in-write_unlinked m ps p b n,
    view_in-write_new m ps p b n d.1,
    find_in-none m ps (m q).addr p d.0,
    view_in_of_none m ps n.addr,
    view_in-absent m ps q b d.0,
  )

  pub view_in-append :
      (m : ℕ → Neighbour) (ps : List ℕ) (p b : ℕ)
      → find_in m ps (m p).addr ≡ none
      → view_in m (ps ++ p ∷ []) b
        ≡ (if (m p).addr == b then some (m p).rtmetric else view_in m ps b)
  unfolding view_in find_in
  view_in-append m [] p b h = refl
  view_in-append m (q ∷ ps) p b h = ground (arith, view_in-append m ps p b)

  pub view_in-erase :
      (m : ℕ → Neighbour) (ps : List ℕ) (p b : ℕ)
      → Apart m ps
      → has p ps ≡ true
      → view_in m (erase p ps) b ≡ (if (m p).addr == b then none else view_in m ps b)
  unfolding view_in
  view_in-erase m [] p b d on = cc
  view_in-erase m (q ∷ ps) p b d on = ground (
    arith,
    not-has_of_none m ps q d.0,
    erase_absent q ps,
    view_in-erase m ps p b d.1,
    find_in-none m ps (m q).addr p d.0,
    view_in-absent m ps q b d.0,
  )

  -- A removal shows every address as before, or not at all.
  pub view_in-erase_cases :
      (m : ℕ → Neighbour) (ps : List ℕ) (p b : ℕ)
      → Apart m ps
      → (view_in m (erase p ps) b ≡ view_in m ps b) ⊎ (view_in m (erase p ps) b ≡ none)
  view_in-erase_cases m ps p b d = elim (Bool-cases (has p ps)) [
    | inl on ↦ ground (arith, view_in-erase m ps p b d on)
    | inr off ↦ inl (ground (arith, erase_absent p ps off))
  ]
