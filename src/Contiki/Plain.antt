-- ===== src/Contiki/Plain.antt =====
-- A concrete Contiki that meets the laws: chains and allocations as plain lists.
use libp.Base.{
  has-erase, ℕ, suc, zero, ◌+◌, ◌<◌, ◌≤◌, ◌≡◌, ap, refl, true, false, Option, none, some, List, [],
  ◌∷◌, ◌++◌, length, has, erase, tail, head?, if◌then◌else◌, arith, leb,
}
use libp.Contiki.{Contiki, ListLaws, MembLaws}

-- The first index from `i` on, of `k` candidates, that is not in use.
unfoldable pub first_free : ℕ → ℕ → List ℕ → Option ℕ
first_free zero i used = none
first_free (suc k) i used =
    let rest = first_free k (i + 1) used in if has i used then rest else some i

unfoldable pub take_slot : Option ℕ → List ℕ → Option ℕ × List ℕ
take_slot none used = (none, used)
take_slot (some p) used = (some p, p ∷ used)

instance abbrev pub plain : Contiki
plain = record {
  Chain = List ℕ;
  items = λ c. c;
  list_init = [];
  list_add = λ c p. c ++ p ∷ [];
  list_remove = λ c p. erase p c;
  list_pop = λ c. (head? c, tail c);
  list_length = λ c. length c;
  Pool = List ℕ;
  allocated = λ m p. has p m;
  memb_init = [];
  memb_alloc = λ m. take_slot (first_free 8 0 m) m;
  memb_free = λ m p. erase p m;
  Timer = ℕ;
  timer_set = λ now interval. now + interval;
  timer_expired = λ now t. leb t now;
  clock_second = 128;
}

pub plain-ListLaws : ListLaws
plain-ListLaws = record {
  items-init = refl;
  items-add = λ c p h. refl;
  items-remove = λ c p. refl;
  pop-head = λ c. refl;
  items-pop = λ c. refl;
  length-items = λ c. refl;
}

first_free-some :
    (k i : ℕ) (used : List ℕ) (p : ℕ)
    → first_free k i used ≡ some p
    → (p < k + i) × (has p used ≡ false)
unfolding first_free
first_free-some zero i used p e = cc
first_free-some (suc k) i used p e = ground (arith, first_free-some k (i + 1) used p)

first_free-none :
    (k i : ℕ) (used : List ℕ) (q : ℕ)
    → first_free k i used ≡ none
    → i ≤ q
    → q < k + i
    → has q used ≡ true
unfolding first_free
first_free-none zero i used q e l h = absurd (omega arith)
first_free-none (suc k) i used q e l h = ground (arith, first_free-none k (i + 1) used q)

take_slot-some :
    (o : Option ℕ) (used : List ℕ) (p : ℕ)
    → (take_slot o used).0 ≡ some p
    → (o ≡ some p) × ((take_slot o used).1 ≡ p ∷ used)
unfolding take_slot
take_slot-some none used p e = cc
take_slot-some (some x) used p e = ground arith

take_slot-none :
    (o : Option ℕ) (used : List ℕ)
    → (take_slot o used).0 ≡ none
    → (o ≡ none) × ((take_slot o used).1 ≡ used)
unfolding take_slot
take_slot-none none used e = (refl, refl)
take_slot-none (some x) used e = cc

pub plain-MembLaws : MembLaws 8
plain-MembLaws = record {
  allocated-init = λ q. refl;
  alloc-some = λ m p e. first_free-some 8 0 m p (take_slot-some (first_free 8 0 m) m p e).0;
  allocated-alloc = λ m p q e. rw (take_slot-some (first_free 8 0 m) m p e).1;
  alloc-none = λ m q e.
      let (full, same) = take_slot-none (first_free 8 0 m) m e in
      (λ h. first_free-none 8 0 m q full (omega arith) h, ap (has q) same);
  allocated-free = λ m p q. has-erase p q m;
}
