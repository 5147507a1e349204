-- ===== src/Neighbour/Abstract.antt =====
-- libp-neighbour.c: the operations by which libp.c changes the table, as they may act on a partial
-- function from addresses to rtmetrics.
use libp.Base.{ℕ, ◌≡◌, ◌⊎◌, if◌then◌else◌, ◌==◌, Option, none, some, List, [], ◌∷◌, ◌≤◌, ◌<◌}
use libp.Contiki.{Contiki}
use libp.Neighbour.{
  Table, find, add, remove, purge, periodic, update_rtmetric, tx, tx_fail, set_congested,
}

-- The operations by which libp.c changes the table, each on the neighbour at an address.
pub data Op : Type 0 where
  adds : (a rt : ℕ) → Op
  removes : (a : ℕ) → Op
  hears : (a rt : ℕ) → Op
  sends : (a num_tx : ℕ) → Op
  fails : (a num_tx : ℕ) → Op
  congests : (a now : ℕ) → Op
  purges : Op
  ages : Op

-- What an operation may do to the function from addresses to rtmetrics.
pub data Step (v : ℕ → Option ℕ) : Op → (ℕ → Option ℕ) → Type 0 where
  added :
      (a rt : ℕ) (v' : ℕ → Option ℕ)
      → ((b : ℕ) → v' b ≡ (if a == b then some rt else v b))
      → Step v (adds a rt) v'
  replaced :
      (a rt c s : ℕ) (v' : ℕ → Option ℕ)
      → v a ≡ none
      → v c ≡ some s
      → rt < s
      → ((b r : ℕ) → v b ≡ some r → r ≤ s)
      → ((b : ℕ) → v' b ≡ (if a == b then some rt else if c == b then none else v b))
      → Step v (adds a rt) v'
  unmoved :
      (a rt : ℕ) (v' : ℕ → Option ℕ)
      → v a ≡ none
      → ((b r : ℕ) → v b ≡ some r → r ≤ rt)
      → ((b : ℕ) → v' b ≡ v b)
      → Step v (adds a rt) v'
  removed :
      (a : ℕ) (v' : ℕ → Option ℕ)
      → ((b : ℕ) → v' b ≡ (if a == b then none else v b))
      → Step v (removes a) v'
  heard :
      (a rt s : ℕ) (v' : ℕ → Option ℕ)
      → v a ≡ some s
      → ((b : ℕ) → v' b ≡ (if a == b then some rt else v b))
      → Step v (hears a rt) v'
  unheard :
      (a rt : ℕ) (v' : ℕ → Option ℕ) → v a ≡ none → ((b : ℕ) → v' b ≡ v b) → Step v (hears a rt) v'
  sent : (a k : ℕ) (v' : ℕ → Option ℕ) → ((b : ℕ) → v' b ≡ v b) → Step v (sends a k) v'
  failed : (a k : ℕ) (v' : ℕ → Option ℕ) → ((b : ℕ) → v' b ≡ v b) → Step v (fails a k) v'
  congested : (a now : ℕ) (v' : ℕ → Option ℕ) → ((b : ℕ) → v' b ≡ v b) → Step v (congests a now) v'
  purged : (v' : ℕ → Option ℕ) → ((b : ℕ) → v' b ≡ none) → Step v purges v'
  aged : (v' : ℕ → Option ℕ) → ((b : ℕ) → (v' b ≡ v b) ⊎ (v' b ≡ none)) → Step v ages v'

pub data Steps : (ℕ → Option ℕ) → List Op → (ℕ → Option ℕ) → Type 0 where
  stop : (v : ℕ → Option ℕ) → Steps v [] v
  next :
      (u v w : ℕ → Option ℕ) (o : Op) (os : List Op)
      → Step u o v
      → Steps v os w
      → Steps u (o ∷ os) w

module _ ⦃os : Contiki⦄ where
  -- The code of an operation; `none` is a loop that ran out of fuel.
  unfoldable pub perform : Op → Table → Option Table
  perform (adds a rt) t = some (add t a rt).1
  perform (removes a) t = some (remove t a)
  perform (hears a rt) t = some (update_rtmetric t (find t a) rt)
  perform (sends a k) t = some (tx t (find t a) k)
  perform (fails a k) t = some (tx_fail t (find t a) k)
  perform (congests a now) t = some (set_congested t (find t a) now)
  perform purges t = purge t
  perform ages t = periodic t

  unfoldable pub performs : List Op → Table → Option Table
  performs [] t = some t
  performs (o ∷ ops) t = elim (perform o t) [ none ↦ none | some t' ↦ performs ops t' ]
