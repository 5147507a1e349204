-- ===== src/Queue.antt =====
-- queue.h and queue.c: the queue of tree nodes that the breadth-first search uses.
pub mod Contract
pub mod Linked
pub mod Represents
pub mod Push
pub mod Fifo
mod Tests
use libp.Base.{ℕ, zero, suc, ◌+◌, ◌-◌, ◌==◌, if◌then◌else◌, ltb, List, [], ◌∷◌}
use libp.Memory.{
  Machine, Run, out_of_fuel, Cmd, pure, modify, gets, ◌>>=◌, ◌>>◌, load_node, load_item,
  update_item, new_item, free_item,
}

-- `queue_init`.
unfoldable pub queue_init : Cmd (Unit {0})
queue_init = modify (λ s. record s { elements = 0; head = 0; tail = 0 })

abbrev pub link_tail : (tail i : ℕ) → Cmd (Unit {0})
link_tail tail i = do
  (if tail == 0 then pure tt else update_item tail (λ x. record x { next = i }))
  modify (λ s. record s { tail = i })

abbrev pub link_head : ℕ → Machine → Machine
link_head i s = if s.head == 0 then record s { head = i } else s

-- `queue_push`.
unfoldable pub queue_push : ℕ → Cmd (Unit {0})
queue_push node = do
  i ← new_item (record { node = node; next = 0 })
  tail ← gets (λ s. s.tail)
  link_tail tail i
  modify (link_head i)
  modify (λ s. record s { elements = s.elements + 1 })

-- `queue_dequeue`. There is an element where `head` points to an item, so `elements` is not 0.
unfoldable pub queue_dequeue : Cmd ℕ
queue_dequeue = do
  tmp ← gets (λ s. s.head)
  item ← load_item tmp
  n ← load_node item.node
  modify (λ s. record s { head = item.next })
  free_item tmp
  modify (λ s. record s { elements = s.elements - 1 })
  pure n.id

-- `queue_getSize`, `queue_empty`, `get_head`, `get_tail`.
unfoldable pub queue_get_size : Cmd ℕ
queue_get_size = gets (λ s. s.elements)

unfoldable pub queue_empty : Cmd ℕ
queue_empty = gets (λ s. if ltb s.elements 1 then 1 else 0)

unfoldable pub get_head : Cmd ℕ
get_head = gets (λ s. s.head)

unfoldable pub get_tail : Cmd ℕ
get_tail = gets (λ s. s.tail)

-- `print_queue`; the result is the ids that it prints.
pub print_queue_from : ℕ → (tmp : ℕ) → Cmd (List ℕ)
print_queue_from zero tmp = λ _. out_of_fuel
print_queue_from (suc k) tmp = if tmp == 0 then pure [] else do
  item ← load_item tmp
  n ← load_node item.node
  rest ← print_queue_from k item.next
  pure (n.id ∷ rest)

pub print_queue : ℕ → Cmd (List ℕ)
print_queue k = gets (λ s. s.head) >>= print_queue_from k
