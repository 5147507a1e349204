-- ===== src/Contiki.antt =====
-- What the program calls in Contiki, which stands in a git submodule: the list library, one block
-- of `memb` memory and the passive timers. They are arguments of the model. `items` is what a
-- loop `for(n = list_head(l); n != NULL; n = list_item_next(n))` visits, in order.
pub mod Plain
use libp.Base.{
  ℕ, ◌+◌, ◌<◌, ◌≡◌, Bool, true, false, ◌||◌, Option, none, some, List, [], ◌∷◌, ◌++◌, length, has,
  erase, tail, head?, ◌==◌, if◌then◌else◌,
}

pub record Contiki : Type 1 where
  pub Chain : Type 0
  pub items : Chain → List ℕ
  pub list_init : Chain
  pub list_add : Chain → ℕ → Chain
  pub list_remove : Chain → ℕ → Chain
  pub list_pop : Chain → Option ℕ × Chain
  pub list_length : Chain → ℕ
  pub Pool : Type 0
  pub allocated : Pool → ℕ → Bool
  pub memb_init : Pool
  pub memb_alloc : Pool → Option ℕ × Pool
  pub memb_free : Pool → ℕ → Pool
  pub Timer : Type 0
  pub timer_set : (now interval : ℕ) → Timer
  pub timer_expired : (now : ℕ) → Timer → Bool
  pub clock_second : ℕ

-- The documented behaviour of lib/list.h: an element is added at the end (the caller adds none
-- twice), removed wherever it stands, and popped from the front.
pub record ListLaws ⦃os : Contiki⦄ : Type 0 where
  pub items-init : os.items os.list_init ≡ []
  pub items-add :
      (c : os.Chain) (p : ℕ)
      → has p (os.items c) ≡ false
      → os.items (os.list_add c p) ≡ os.items c ++ p ∷ []
  pub items-remove : (c : os.Chain) (p : ℕ) → os.items (os.list_remove c p) ≡ erase p (os.items c)
  pub pop-head : (c : os.Chain) → (os.list_pop c).0 ≡ head? (os.items c)
  pub items-pop : (c : os.Chain) → os.items (os.list_pop c).1 ≡ tail (os.items c)
  pub length-items : (c : os.Chain) → os.list_length c ≡ length (os.items c)

-- The documented behaviour of lib/memb.h for a block of `size` structures, named by their index:
-- an allocation takes a free one, and fails only if there is none.
pub record MembLaws ⦃os : Contiki⦄ (size : ℕ) : Type 0 where
  pub allocated-init : (q : ℕ) → os.allocated os.memb_init q ≡ false
  pub alloc-some :
      (m : os.Pool) (p : ℕ) → (os.memb_alloc m).0 ≡ some p → (p < size) × (os.allocated m p ≡ false)
  pub allocated-alloc :
      (m : os.Pool) (p q : ℕ)
      → (os.memb_alloc m).0 ≡ some p
      → os.allocated (os.memb_alloc m).1 q ≡ ((p == q) || os.allocated m q)
  pub alloc-none :
      (m : os.Pool) (q : ℕ)
      → (os.memb_alloc m).0 ≡ none
      → ((q < size → os.allocated m q ≡ true)
          × (os.allocated (os.memb_alloc m).1 q ≡ os.allocated m q))
  pub allocated-free :
      (m : os.Pool) (p q : ℕ)
      → os.allocated (os.memb_free m p) q ≡ (if p == q then false else os.allocated m q)
