-- ===== src/Queue/Represents.antt =====
-- queue.c: how the globals and the items stand for the contents of the queue.
use libp.Base.{ℕ, ◌≡◌, ◌≢◌, ◌<◌, true, Option, none, some, List, ◌∷◌, has}
use libp.Memory.{TreeNode, Machine, Run, ok, fault}
use libp.Queue.Contract.{Contents, fresh, held, emptied, size}
use libp.Queue.Linked.{last, Linked}

-- How the globals and the items stand for the contents.
pub data Stands (s : Machine) : Contents → Type 0 where
  is_fresh : s.head ≡ 0 → s.tail ≡ 0 → Stands s fresh
  is_held :
      (a n : ℕ) (ps ns : List ℕ)
      → s.head ≡ a
      → s.tail ≡ last a ps
      → Linked s.item_at (a ∷ ps) (n ∷ ns)
      → ((q : ℕ) → has q (a ∷ ps) ≡ true → q < s.unused)
      → Stands s (held n ns)
  is_emptied :
      s.head ≡ 0 → s.tail ≢ 0 → s.tail < s.unused → s.item_at s.tail ≡ none → Stands s emptied

pub record Represents (s : Machine) (c : Contents) : Type 0 where
  pub stands : Stands s c
  pub null : s.item_at 0 ≡ none
  pub real : 0 < s.unused
  pub counted : s.elements ≡ size c

-- What a call ends in, for its answer.
unfoldable pub Meets : (ℕ → Option TreeNode) → Option (List ℕ × Contents) → Run (List ℕ) → Type 0
Meets at none r = r ≡ fault
Meets at (some (xs, c)) r = (s : Machine) × (r ≡ ok xs s) × Represents s c × (s.node_at ≡ at)
