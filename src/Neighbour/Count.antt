-- ===== src/Neighbour/Count.antt =====
-- libp-neighbour.c: how many neighbours the table lists.
use libp.Base.{ℕ, ◌≤◌, List, [], ◌∷◌, length, Distinct, length-le-bound, arith}
use libp.Contiki.{Contiki, ListLaws}
use libp.Neighbour.{Neighbour, Table, num}
use libp.Neighbour.Lookup.{Apart, not-has_of_none}
use libp.Neighbour.Inv.{IsValid}

module _ ⦃os : Contiki⦄ where
  open os use {items}

  Apart-Distinct : (m : ℕ → Neighbour) (ps : List ℕ) → Apart m ps → Distinct ps
  Apart-Distinct m [] d = tt
  Apart-Distinct m (p ∷ ps) d = (not-has_of_none m ps p d.0, Apart-Distinct m ps d.1)

  length-items_le : (t : Table) → IsValid t → length (items t.chain) ≤ 8
  length-items_le t i =
      length-le-bound 8 (items t.chain) (Apart-Distinct t.mem (items t.chain) i.apart) i.within

module _ ⦃os : Contiki⦄ (lists : ListLaws) where
  -- A valid table lists at most eight neighbours.
  num-le : (t : Table) → IsValid t → num t ≤ 8
  unfolding num
  num-le t i = omega (arith, lists.length-items t.chain, length-items_le t i)
