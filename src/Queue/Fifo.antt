-- ===== src/Queue/Fifo.antt =====
-- queue.c: a queue that `queue_init` started keeps what `Contract` promises of every sequence of
-- calls.
use libp.Base.{
  ℕ, ◌≡◌, ◌-◌, ◌<◌, refl, ap, subst, true, Option, none, some, List, [], ◌∷◌, has, arith, ==_refl,
}
use libp.Memory.{TreeNode, Machine, write, Run, ok, fault, ◌>>◌}
use libp.Queue.{queue_init, queue_dequeue, queue_get_size, queue_empty}
use libp.Queue.Contract.{
  Call, pushes, takes, counts, asks, Contents, fresh, held, emptied, taken, answer, prepend,
  answers, call, calls,
}
use libp.Queue.Linked.{first, last, item, Linked, Linked-write_off}
use libp.Queue.Represents.{is_fresh, is_held, is_emptied, Represents, Meets}
use libp.Queue.Push.{push_fresh, push_emptied, push_held}

take_none : (s : Machine) → s.head ≡ 0 → s.item_at 0 ≡ none → queue_dequeue s ≡ fault
unfolding queue_dequeue
take_none s h null = ground arith

count_lem :
    (s : Machine) (c : Contents)
    → Represents s c
    → Meets s.node_at (answer s.node_at counts c) (call counts s)
unfolding Meets answer call queue_get_size
count_lem s c r = (s, ap (λ k. ok (k ∷ []) s) r.counted, r, refl)

ask_lem :
    (s : Machine) (c : Contents)
    → Represents s c
    → Meets s.node_at (answer s.node_at asks c) (call asks s)
unfolding Meets answer call queue_empty
ask_lem s c r = (s, ground (arith, r.counted), r, refl)

without_first : Machine → (a n : ℕ) → Machine
without_first s a n = record s {
  item_at = write s.item_at a none;
  head = n;
  elements = s.elements - 1;
}

dequeue_some :
    (s : Machine) (a n b : ℕ) (x : TreeNode)
    → s.head ≡ a
    → s.item_at a ≡ some (item n b)
    → s.node_at n ≡ some x
    → queue_dequeue s ≡ ok x.id (without_first s a b)
unfolding queue_dequeue without_first
dequeue_some s a n b x h e f = ground (arith, ==_refl a)

dequeue_fault :
    (s : Machine) (a n b : ℕ)
    → s.head ≡ a
    → s.item_at a ≡ some (item n b)
    → s.node_at n ≡ none
    → queue_dequeue s ≡ fault
unfolding queue_dequeue
dequeue_fault s a n b h e f = ground (arith, ==_refl a)

call_takes :
    (s : Machine) (i : ℕ) (s' : Machine) → queue_dequeue s ≡ ok i s' → call takes s ≡ ok (i ∷ []) s'
unfolding call
call_takes s i s' e = ground (arith)

call_takes_fault : (s : Machine) → queue_dequeue s ≡ fault → call takes s ≡ fault
unfolding call
call_takes_fault s e = ground (arith)

-- What is left of the items behind the first.
rest_lem :
    (s : Machine) (a b n k : ℕ) (ps ns : List ℕ)
    → Represents s (held n (k ∷ ns))
    → s.tail ≡ last a (b ∷ ps)
    → Linked s.item_at (a ∷ b ∷ ps) (n ∷ k ∷ ns)
    → ((q : ℕ) → has q (a ∷ b ∷ ps) ≡ true → q < s.unused)
    → Represents (without_first s a b) (held k ns)
unfolding without_first
rest_lem s a b n k ps ns r t (e, d, l) low = record {
  stands =
      is_held b k ps ns refl t (Linked-write_off s.item_at (b ∷ ps) (k ∷ ns) a none d l)
        (λ q on. low q (ground arith));
  null = ground (arith, r.null);
  real = r.real;
  counted = omega (arith, r.counted);
}

emptied_lem :
    (s : Machine) (a n : ℕ)
    → Represents s (held n [])
    → s.tail ≡ a
    → s.item_at a ≡ some (item n 0)
    → a < s.unused
    → Represents (without_first s a 0) emptied
unfolding without_first
emptied_lem s a n r t e low = record {
  stands = is_emptied refl (ground (arith, r.null)) (omega arith) (ground (arith, ==_refl a));
  null = ground (arith, r.null);
  real = r.real;
  counted = omega (arith, r.counted);
}

taken_lem :
    (s : Machine) (a n : ℕ) (ps ns : List ℕ) (o : Option TreeNode)
    → Represents s (held n ns)
    → s.node_at n ≡ o
    → s.head ≡ a
    → s.tail ≡ last a ps
    → Linked s.item_at (a ∷ ps) (n ∷ ns)
    → ((q : ℕ) → has q (a ∷ ps) ≡ true → q < s.unused)
    → Meets s.node_at (taken o ns) (call takes s)
unfolding Meets without_first
taken_lem s a n ps ns none r e h t l low =
    call_takes_fault s (dequeue_fault s a n (first ps) h l.0 e)
taken_lem s a n [] [] (some x) r e h t l low = (
  without_first s a 0,
  call_takes s x.id _ (dequeue_some s a n 0 x h l.0 e),
  emptied_lem s a n r t l.0 (low a (ground (arith, ==_refl a))),
  refl,
)
taken_lem s a n (b ∷ ps) (k ∷ ns) (some x) r e h t l low = (
  without_first s a b,
  call_takes s x.id _ (dequeue_some s a n b x h l.0 e),
  rest_lem s a b n k ps ns r t l low,
  refl,
)
taken_lem s a n [] (k ∷ ns) (some x) r e h t (_, _, l) low = elim l [ ]
taken_lem s a n (b ∷ ps) [] (some x) r e h t (_, _, l) low = elim l [ ]

take_held :
    (s : Machine) (n : ℕ) (ns : List ℕ) (o : Option TreeNode)
    → Represents s (held n ns)
    → s.node_at n ≡ o
    → Meets s.node_at (taken o ns) (call takes s)
unfolding Meets
take_held s n ns o r e = elim r.stands [
  | is_held a n ps ns h t l low ↦ taken_lem s a n ps ns o r e h t l low
]

take_empty : (s : Machine) (c : Contents) → s.head ≡ 0 → s.item_at 0 ≡ none → call takes s ≡ fault
take_empty s c h null = call_takes_fault s (take_none s h null)

call_lem :
    (s : Machine) (k : Call) (c : Contents)
    → Represents s c
    → Meets s.node_at (answer s.node_at k c) (call k s)
unfolding Meets answer
call_lem s (pushes m) fresh r = push_fresh s m r
call_lem s (pushes m) (held n ns) r = push_held s m n ns r
call_lem s (pushes m) emptied r = push_emptied s m r
call_lem s takes fresh r = elim r.stands [ is_fresh h t ↦ take_empty s fresh h r.null ]
call_lem s takes (held n ns) r = take_held s n ns (s.node_at n) r refl
call_lem s takes emptied r = elim r.stands [
  | is_emptied h t low gone ↦ take_empty s emptied h r.null
]
call_lem s counts c r = count_lem s c r
call_lem s asks c r = ask_lem s c r

-- What a sequence of calls ends in, for its answers.
pub Returns : Option (List ℕ) → Run (List ℕ) → Type 0
Returns none r = r ≡ fault
Returns (some xs) r = (s : Machine) × (r ≡ ok xs s)

calls_fault :
    (s : Machine) (k : Call) (ks : List Call) → call k s ≡ fault → calls (k ∷ ks) s ≡ fault
unfolding calls
calls_fault s k ks e = ground arith

calls-Returns :
    (s s' : Machine) (k : Call) (ks : List Call) (xs : List ℕ) (o : Option (List ℕ))
    → call k s ≡ ok xs s'
    → Returns o (calls ks s')
    → Returns (prepend xs o) (calls (k ∷ ks) s)
unfolding calls Returns
calls-Returns s s' k ks xs none e h = ground arith
calls-Returns s s' k ks xs (some ys) e (t, h) = (t, ground arith)

-- The calls after a first one, by that one's answer.
calls_step :
    (s : Machine) (at : ℕ → Option TreeNode) (k : Call) (ks : List Call) (c : Contents)
    (o : Option (List ℕ × Contents))
    → answer at k c ≡ o
    → Meets at o (call k s)
    → ((s' : Machine) (c' : Contents)
        → Represents s' c'
        → s'.node_at ≡ at
        → Returns (answers at ks c') (calls ks s'))
    → Returns (answers at (k ∷ ks) c) (calls (k ∷ ks) s)
unfolding answers Meets Returns
calls_step s at k ks c none f h rest = rw (f, answers) (calls_fault s k ks h)
calls_step s at k ks c (some (xs, c')) f (s', h, r, e) rest =
    rw (f, answers) (calls-Returns s s' k ks xs (answers at ks c') h (rest s' c' r e))

calls_lem :
    (s : Machine) (at : ℕ → Option TreeNode) (ks : List Call) (c : Contents)
    → Represents s c
    → s.node_at ≡ at
    → Returns (answers at ks c) (calls ks s)
unfolding answers calls Returns
calls_lem s at [] c r e = (s, refl)
calls_lem s at (k ∷ ks) c r e =
    calls_step s at k ks c (answer at k c) refl
      (subst (λ m. Meets m (answer m k c) (call k s)) e (call_lem s k c r))
      (λ s' c' r' e'. calls_lem s' at ks c' r' e')

-- In memory where NULL holds nothing, any sequence of calls of `queue_push`, `queue_dequeue`,
-- `queue_getSize` and `queue_empty` after `queue_init` returns the answers of the list that it
-- stands for, first in first out, and faults exactly where these have none: at a dequeue of no
-- node or of a node that is not in memory, and at a push after the queue was emptied.
pub calls_of_init :
    (s : Machine) (ks : List Call)
    → s.item_at 0 ≡ none
    → 0 < s.unused
    → Returns (answers s.node_at ks fresh) ((queue_init >> calls ks) s)
unfolding queue_init
calls_of_init s ks null real =
    calls_lem (record s { elements = 0; head = 0; tail = 0 }) s.node_at ks fresh
      (record { stands = is_fresh refl refl; null = null; real = real; counted = refl }) refl
