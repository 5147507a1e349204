-- ===== src/Queue/Linked.antt =====
-- queue.c: the items of the queue in memory.
use libp.Base.{
  ℕ, ◌≡◌, ◌++◌, refl, false, true, Option, some, List, [], ◌∷◌, has, has-append, arith, ==_refl,
}
use libp.Memory.{Item, write}

abbrev pub first : List ℕ → ℕ
first [] = 0
first (a ∷ ps) = a

abbrev pub last : ℕ → List ℕ → ℕ
last a [] = a
last a (b ∷ ps) = last b ps

abbrev pub item : (node next : ℕ) → Item
item node next = record { node = node; next = next }

-- The items at the addresses `ps`, no two of them the same, are linked in this order and hold the
-- nodes `ns`.
abbrev pub Linked : (ℕ → Option Item) → (ps ns : List ℕ) → Type 0
Linked m [] [] = Unit {0}
Linked m [] (n ∷ ns) = ⊥
Linked m (a ∷ ps) [] = ⊥
Linked m (a ∷ ps) (n ∷ ns) = (m a ≡ some (item n (first ps))) × (has a ps ≡ false) × Linked m ps ns

pub Linked-write_off :
    (m : ℕ → Option Item) (ps ns : List ℕ) (p : ℕ) (x : Option Item)
    → has p ps ≡ false
    → Linked m ps ns
    → Linked (write m p x) ps ns
Linked-write_off m [] [] p x off l = tt
Linked-write_off m [] (n ∷ ns) p x off l = elim l [ ]
Linked-write_off m (a ∷ ps) [] p x off l = elim l [ ]
Linked-write_off m (a ∷ ps) (n ∷ ns) p x off (e, d, l) =
    (ground arith, d, Linked-write_off m ps ns p x (ground arith) l)

pub has-last : (a : ℕ) (ps : List ℕ) → has (last a ps) (a ∷ ps) ≡ true
has-last a [] = ground (arith, ==_refl a)
has-last a (b ∷ ps) = ground (arith, has-last b ps)

-- The last item, whose link is NULL.
pub at_end :
    (m : ℕ → Option Item) (a n : ℕ) (ps ns : List ℕ)
    → Linked m (a ∷ ps) (n ∷ ns)
    → (k : ℕ) × (m (last a ps) ≡ some (item k 0))
at_end m a n [] [] (e, d, l) = (n, e)
at_end m a n [] (k ∷ ns) (e, d, l) = elim l [ ]
at_end m a n (b ∷ ps) [] (e, d, l) = elim l [ ]
at_end m a n (b ∷ ps) (k ∷ ns) (e, d, l) = at_end m b k ps ns l

-- A new item linked behind the last.
pub Linked-append :
    (m : ℕ → Option Item) (a n : ℕ) (ps ns : List ℕ) (u k : ℕ) (i : Item)
    → Linked m (a ∷ ps) (n ∷ ns)
    → has u (a ∷ ps) ≡ false
    → m u ≡ some (item k 0)
    → m (last a ps) ≡ some i
    → Linked
        (write m (last a ps) (some (record i { next = u })))
        (a ∷ ps ++ u ∷ [])
        (n ∷ ns ++ k ∷ [])
Linked-append m a n [] [] u k i (e, d, l) off new end =
    (ground (arith, ==_refl a), ground arith, (ground arith, refl, tt))
Linked-append m a n [] (j ∷ ns) u k i (e, d, l) off new end = elim l [ ]
Linked-append m a n (b ∷ ps) [] u k i (e, d, l) off new end = elim l [ ]
Linked-append m a n (b ∷ ps) (j ∷ ns) u k i (e, d, l) off new end = (
  ground (arith, has-last b ps),
  ground (arith, has-append a u ps),
  Linked-append m b j ps ns u k i l (ground arith) new end,
)
