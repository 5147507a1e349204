-- ===== src/Queue/Contract.antt =====
-- queue.c: what the queue promises for a sequence of calls after `queue_init`, in terms of the list
-- of the nodes that it holds.
use libp.Base.{ℕ, ◌+◌, ◌++◌, ◌==◌, if◌then◌else◌, Option, none, some, List, [], ◌∷◌, length}
use libp.Memory.{TreeNode, Cmd, pure, ◌>>=◌, ◌>>◌}
use libp.Queue.{queue_push, queue_dequeue, queue_get_size, queue_empty}

pub data Call : Type 0 where
  pushes : (node : ℕ) → Call
  takes : Call
  counts : Call
  asks : Call

-- A queue that nothing was pushed on yet, one that holds nodes, and one that was emptied.
pub data Contents : Type 0 where
  fresh : Contents
  held : (n : ℕ) → (ns : List ℕ) → Contents
  emptied : Contents

abbrev pub size : Contents → ℕ
size fresh = 0
size (held n ns) = length ns + 1
size emptied = 0

abbrev pub behind : List ℕ → Contents
behind [] = emptied
behind (n ∷ ns) = held n ns

abbrev pub taken : Option TreeNode → List ℕ → Option (List ℕ × Contents)
taken none ns = none
taken (some x) ns = some (x.id ∷ [], behind ns)

-- The numbers that a call returns and the contents after it; `none` is a fault.
unfoldable pub answer : (ℕ → Option TreeNode) → Call → Contents → Option (List ℕ × Contents)
answer at (pushes m) fresh = some ([], held m [])
answer at (pushes m) (held n ns) = some ([], held n (ns ++ m ∷ []))
answer at (pushes m) emptied = none
answer at takes fresh = none
answer at takes (held n ns) = taken (at n) ns
answer at takes emptied = none
answer at counts c = some (size c ∷ [], c)
answer at asks c = some ((if size c == 0 then 1 else 0) ∷ [], c)

abbrev pub prepend : List ℕ → Option (List ℕ) → Option (List ℕ)
prepend xs none = none
prepend xs (some ys) = some (xs ++ ys)

unfoldable pub answers : (ℕ → Option TreeNode) → List Call → Contents → Option (List ℕ)
answers at [] c = some []
answers at (k ∷ ks) c = elim (answer at k c) [
  | none ↦ none
  | some (xs, c') ↦ prepend xs (answers at ks c')
]

-- The code of the calls.
unfoldable pub call : Call → Cmd (List ℕ)
call (pushes n) = queue_push n >> pure []
call takes = queue_dequeue >>= λ id. pure (id ∷ [])
call counts = queue_get_size >>= λ k. pure (k ∷ [])
call asks = queue_empty >>= λ k. pure (k ∷ [])

unfoldable pub calls : List Call → Cmd (List ℕ)
calls [] = pure []
calls (k ∷ ks) = call k >>= λ xs. calls ks >>= λ ys. pure (xs ++ ys)
