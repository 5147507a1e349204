-- ===== src/Queue/Push.antt =====
-- queue.c: `queue_push`, for each kind of contents.
use libp.Base.{
  ℕ, ◌≡◌, ◌≢◌, ◌++◌, ◌+◌, ◌<◌, refl, sym, subst, false, true, some, List, [], ◌∷◌, has, has-append,
  arith, length-append_one, ==_refl,
}
use libp.Memory.{Item, Machine, write, ok}
use libp.Queue.{queue_push}
use libp.Queue.Contract.{pushes, fresh, held, emptied, answer, call}
use libp.Queue.Linked.{last, item, Linked, Linked-write_off, has-last, at_end, Linked-append}
use libp.Queue.Represents.{is_fresh, is_held, is_emptied, Represents, Meets}

abbrev with_item : Machine → ℕ → Machine
with_item s m = record s {
  item_at = write s.item_at s.unused (some (item m 0));
  unused = s.unused + 1;
  tail = s.unused;
  elements = s.elements + 1;
}

pub push_fresh :
    (s : Machine) (m : ℕ)
    → Represents s fresh
    → Meets s.node_at (answer s.node_at (pushes m) fresh) (call (pushes m) s)
unfolding Meets answer call queue_push
push_fresh s m r = elim r.stands [
  | is_fresh h t ↦ (
    record (with_item s m) { head = s.unused },
    rw (h, t) refl,
    record {
      stands =
          is_held s.unused m [] [] refl refl (ground (arith, ==_refl s.unused), refl, tt)
            (λ q on. ground arith);
      null = ground (arith, r.null, r.real);
      real = omega arith;
      counted = omega (arith, r.counted);
    },
    refl,
  )
]

pub push_emptied :
    (s : Machine) (m : ℕ)
    → Represents s emptied
    → Meets s.node_at (answer s.node_at (pushes m) emptied) (call (pushes m) s)
unfolding Meets answer call queue_push
push_emptied s m r = elim r.stands [ is_emptied h t low gone ↦ ground (arith) ]

abbrev with_link : Machine → ℕ → Item → Machine
with_link s m i = record (with_item s m) {
  item_at =
      write (write s.item_at s.unused (some (item m 0))) s.tail
        (some (record i { next = s.unused }));
}

push_some :
    (s : Machine) (m : ℕ) (i : Item)
    → s.head ≢ 0
    → s.tail ≢ 0
    → s.tail ≢ s.unused
    → s.item_at s.tail ≡ some i
    → queue_push m s ≡ ok tt (with_link s m i)
unfolding queue_push
push_some s m i h t new e = ground (arith)

with_link-Linked :
    (s : Machine) (m a n : ℕ) (ps ns : List ℕ) (i : Item)
    → Linked s.item_at (a ∷ ps) (n ∷ ns)
    → ((q : ℕ) → has q (a ∷ ps) ≡ true → q < s.unused)
    → s.tail ≡ last a ps
    → s.item_at s.tail ≡ some i
    → Linked (with_link s m i).item_at (a ∷ ps ++ s.unused ∷ []) (n ∷ ns ++ m ∷ [])
with_link-Linked s m a n ps ns i l low t e =
    let u = s.unused in
    let off : has u (a ∷ ps) ≡ false = ground (arith, low u) in
    subst
      (λ z.
        Linked (write (write s.item_at u (some (item m 0))) z (some (record i { next = u })))
          (a ∷ ps ++ u ∷ []) (n ∷ ns ++ m ∷ []))
      (sym t)
      (Linked-append (write s.item_at u (some (item m 0))) a n ps ns u m i
        (Linked-write_off s.item_at (a ∷ ps) (n ∷ ns) u (some (item m 0)) off l) off
        (ground (arith, ==_refl u)) (ground (arith, has-last a ps)))

last-append : (a u : ℕ) (ps : List ℕ) → last a (ps ++ u ∷ []) ≡ u
last-append a u [] = refl
last-append a u (b ∷ ps) = last-append b u ps

call_pushes :
    (s : Machine) (m : ℕ) (s' : Machine) → queue_push m s ≡ ok tt s' → call (pushes m) s ≡ ok [] s'
unfolding call
call_pushes s m s' e = ground (arith)

pub push_held :
    (s : Machine) (m n : ℕ) (ns : List ℕ)
    → Represents s (held n ns)
    → Meets s.node_at (answer s.node_at (pushes m) (held n ns)) (call (pushes m) s)
unfolding Meets answer call
push_held s m n ns r = elim r.stands [
  | is_held a n ps ns h t l low ↦
      let (k, e) = at_end s.item_at a n ps ns l in
      let i = item k 0 in
      let at_tail : s.item_at s.tail ≡ some i = rw t e in
      let nonzero : s.tail ≢ 0 = ground (arith, r.null) in
      let low_tail : s.tail < s.unused = ground (arith, low (last a ps), has-last a ps) in
      let u = s.unused in
      (
        with_link s m i,
        call_pushes s m (with_link s m i)
            (push_some s m i (ground (arith, r.null)) nonzero (ground arith) at_tail),
        record {
          stands =
              is_held a n (ps ++ u ∷ []) (ns ++ m ∷ []) h (ground (arith, last-append a u ps))
                (with_link-Linked s m a n ps ns i l low t at_tail)
                (λ q on. ground (arith, has-append q u ps, low q));
          null = ground (arith, r.null, r.real);
          real = omega arith;
          counted = omega (arith, r.counted, length-append_one ns m);
        },
        refl,
      )
]
