-- ===== src/Neighbour/Lookup.antt =====
-- libp-neighbour.c: what the searches through the list find, and how they see a changed structure.
use libp.Base.{
  ℕ, ◌≡◌, ◌≢◌, ◌⊎◌, inl, refl, true, false, ◌++◌, if◌then◌else◌, Option, none, some, List, [], ◌∷◌,
  has, erase, arith, ltb, ==_refl,
}
use libp.Contiki.{Contiki}
use libp.Neighbour.{Neighbour, write, find_in, worst_in}

module _ ⦃os : Contiki⦄ where
  pub find_in-some :
      (m : ℕ → Neighbour) (ps : List ℕ) (a p : ℕ)
      → find_in m ps a ≡ some p
      → ((m p).addr ≡ a) × (has p ps ≡ true)
  unfolding find_in
  find_in-some m [] a p e = cc
  find_in-some m (q ∷ ps) a p e = ground (arith, find_in-some m ps a p)

  pub find_in-none :
      (m : ℕ → Neighbour) (ps : List ℕ) (a p : ℕ)
      → find_in m ps a ≡ none
      → has p ps ≡ true
      → (m p).addr ≢ a
  unfolding find_in
  find_in-none m [] a p e h = cc
  find_in-none m (q ∷ ps) a p e h = ground (arith, find_in-none m ps a p)

  -- A structure that is not searched, or keeps its address, does not matter.
  pub find_in-write_unlinked :
      (m : ℕ → Neighbour) (ps : List ℕ) (a p : ℕ) (n : Neighbour)
      → has p ps ≡ false
      → find_in (write m p n) ps a ≡ find_in m ps a
  unfolding find_in
  find_in-write_unlinked m [] a p n h = refl
  find_in-write_unlinked m (q ∷ ps) a p n h = ground (arith, find_in-write_unlinked m ps a p n)

  pub find_in-write_addr :
      (m : ℕ → Neighbour) (ps : List ℕ) (a p : ℕ) (n : Neighbour)
      → n.addr ≡ (m p).addr
      → find_in (write m p n) ps a ≡ find_in m ps a
  unfolding find_in
  find_in-write_addr m [] a p n h = refl
  find_in-write_addr m (q ∷ ps) a p n h = ground (arith, find_in-write_addr m ps a p n)

  find_in-write_ne :
      (m : ℕ → Neighbour) (ps : List ℕ) (b p : ℕ) (n : Neighbour)
      → n.addr ≢ b
      → find_in m ps b ≡ none
      → find_in (write m p n) ps b ≡ none
  unfolding find_in
  find_in-write_ne m [] b p n h e = refl
  find_in-write_ne m (q ∷ ps) b p n h e = ground (arith, find_in-write_ne m ps b p n)

  pub find_in-write_self :
      (m : ℕ → Neighbour) (ps : List ℕ) (p : ℕ) (n : Neighbour)
      → has p ps ≡ true
      → find_in m ps n.addr ≡ none
      → find_in (write m p n) ps n.addr ≡ some p
  unfolding find_in
  find_in-write_self m [] p n h e = cc
  find_in-write_self m (q ∷ ps) p n h e = ground (arith, find_in-write_self m ps p n)

  pub find_in-append :
      (m : ℕ → Neighbour) (ps qs : List ℕ) (a : ℕ)
      → find_in m ps a ≡ none
      → find_in m (ps ++ qs) a ≡ find_in m qs a
  unfolding find_in
  find_in-append m [] qs a e = refl
  find_in-append m (q ∷ ps) qs a e = ground (arith, find_in-append m ps qs a)

  pub find_in-erase :
      (m : ℕ → Neighbour) (ps : List ℕ) (a p : ℕ)
      → find_in m ps a ≡ none
      → find_in m (erase p ps) a ≡ none
  unfolding find_in
  find_in-erase m [] a p e = refl
  find_in-erase m (q ∷ ps) a p e = ground (arith, find_in-erase m ps a p)

  -- The addresses of the listed structures differ.
  abbrev pub Apart : (ℕ → Neighbour) → List ℕ → Type 0
  Apart m [] = Unit {0}
  Apart m (p ∷ ps) = (find_in m ps (m p).addr ≡ none) × Apart m ps

  pub not-has_of_none :
      (m : ℕ → Neighbour) (ps : List ℕ) (p : ℕ) → find_in m ps (m p).addr ≡ none → has p ps ≡ false
  unfolding find_in
  not-has_of_none m [] p e = refl
  not-has_of_none m (q ∷ ps) p e = ground (arith, not-has_of_none m ps p)

  -- A listed structure is the one that its address finds.
  pub find_in_self :
      (m : ℕ → Neighbour) (ps : List ℕ) (p : ℕ)
      → Apart m ps
      → has p ps ≡ true
      → find_in m ps (m p).addr ≡ some p
  unfolding find_in
  find_in_self m [] p d h = cc
  find_in_self m (q ∷ ps) p d h =
      ground
        (arith, find_in_self m ps p d.1, find_in-none m ps (m q).addr p d.0, ==_refl (m q).addr)

  pub Apart-write_addr :
      (m : ℕ → Neighbour) (ps : List ℕ) (p : ℕ) (n : Neighbour)
      → n.addr ≡ (m p).addr
      → Apart m ps
      → Apart (write m p n) ps
  Apart-write_addr m [] p n h d = tt
  Apart-write_addr m (q ∷ ps) p n h d = ground (
    arith,
    find_in-write_addr m ps (m q).addr p n h,
    find_in-write_addr m ps n.addr p n h,
    Apart-write_addr m ps p n h d.1,
  )

  pub Apart-write_new :
      (m : ℕ → Neighbour) (ps : List ℕ) (p : ℕ) (n : Neighbour)
      → find_in m ps n.addr ≡ none
      → Apart m ps
      → Apart (write m p n) ps
  unfolding find_in
  Apart-write_new m [] p n h d = tt
  Apart-write_new m (q ∷ ps) p n h d = ground (
    arith,
    find_in-write_ne m ps (m q).addr p n,
    find_in-write_unlinked m ps n.addr p n,
    not-has_of_none m ps q,
    Apart-write_new m ps p n,
  )

  pub Apart-append :
      (m : ℕ → Neighbour) (ps : List ℕ) (p : ℕ)
      → find_in m ps (m p).addr ≡ none
      → Apart m ps
      → Apart m (ps ++ p ∷ [])
  unfolding find_in
  Apart-append m [] p h d = (refl, tt)
  Apart-append m (q ∷ ps) p h d =
      ground (arith, find_in-append m ps (p ∷ []) (m q).addr, Apart-append m ps p)

  pub Apart-erase : (m : ℕ → Neighbour) (ps : List ℕ) (p : ℕ) → Apart m ps → Apart m (erase p ps)
  Apart-erase m [] p d = tt
  Apart-erase m (q ∷ ps) p d = ground (arith, find_in-erase m ps (m q).addr p, Apart-erase m ps p)

  -- The worst neighbour is on the list, or none was worse than the start.
  worst_in-has :
      (m : ℕ → Neighbour) (ps : List ℕ) (w : Option ℕ) (rt p : ℕ)
      → (worst_in m ps w rt).0 ≡ some p
      → (w ≡ some p) ⊎ (has p ps ≡ true)
  unfolding worst_in
  worst_in-has m [] w rt p e = inl e
  worst_in-has m (q ∷ ps) w rt p e = ground (
    arith,
    worst_in-has m ps (if ltb rt (m q).rtmetric then some q else w)
        (if ltb rt (m q).rtmetric then (m q).rtmetric else rt) p e,
  )
