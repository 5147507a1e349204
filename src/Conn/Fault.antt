-- ===== src/Conn/Fault.antt =====
-- libp.c: calls that end but for a fault that is known beforehand.
use libp.Base.{◌≡◌, ◌∙◌, sym, subst, Bool, true, false, ◌||◌, Option, none, some, arith}
use mathlib.Core.Option.{some-injective}

-- The call has the result `none`, a fault, if `f` is true, and else a result with `P`.
pub data Unless {A : Type 0} (f : Bool) (o : Option A) (P : A → Type 0) : Type 0 where
  faults : f ≡ true → o ≡ none → Unless f o P
  ends : f ≡ false → (a : A) → o ≡ some a → P a → Unless f o P

module _ {A : Type 0} where
  pub none-some : {o : Option A} {a : A} → o ≡ none → o ≡ some a → ⊥
  none-some e h = cc

  -- There is a result where no fault was foreseen.
  pub ends_if :
      (P : A → Type 0) (f : Bool) (o : Option A)
      → Unless f o P
      → f ≡ false
      → (a : A) × (o ≡ some a) × P a
  ends_if P f o (faults h e) k = absurd (ground arith)
  ends_if P f o (ends h a e p) k = (a, e, p)

  -- A result is the one that was foreseen, and no fault was.
  pub ended :
      (P : A → Type 0) (f : Bool) (o : Option A) (a : A)
      → Unless f o P
      → o ≡ some a
      → (f ≡ false) × P a
  ended P f o a (faults h e) is = absurd (none-some e is)
  ended P f o a (ends h b e p) is = (h, subst P (some-injective b a (sym e ∙ is)) p)

  -- One call after another.
  pub Unless-then :
      {P Q : A → Type 0} {f g : Bool} {o r : Option A}
      → Unless f o P
      → (o ≡ none → r ≡ none)
      → ((a : A) → o ≡ some a → P a → Unless g r Q)
      → Unless (f || g) r Q
  Unless-then (faults h e) n k = faults (ground arith) (n e)
  Unless-then (ends h a e p) n k = elim (k a e p) [
    | faults i d ↦ faults (ground arith) d
    | ends i b d q ↦ ends (ground arith) b d q
  ]
