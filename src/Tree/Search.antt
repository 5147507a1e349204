-- ===== src/Tree/Search.antt =====
-- `bfs` of tree.c at a node that has a child.
use Prim.Native.Nat.{compare, Ordering}
use libp.Base.{ℕ, suc, ◌+◌, ◌==◌, true, false, ltb, ◌≡◌, refl, arith, some, get_or, if◌then◌else◌}
use libp.Memory.{Machine, TreeNode, fault}
use libp.Queue.{queue_init, queue_push, queue_dequeue, queue_get_size}
use libp.Memory.{set_visited, in_array, visited_of, node_of, ◌>>=◌, ◌>>◌}
use libp.Tree.{bfs, queue_loop, visit_next, children_loop, visit}

pub compare-lt : (a b : ℕ) → ltb a b ≡ true → compare a b ≡ Ordering.lt
compare-lt a b h = ground arith

compare-gt : (a : ℕ) → (a == 0) ≡ false → compare a 0 ≡ Ordering.gt
compare-gt a h = ground arith

compare-eq : (a : ℕ) → compare a a ≡ Ordering.eq
compare-eq a = ground arith

compare-suc : (a : ℕ) → compare (a + 1) a ≡ Ordering.gt
compare-suc a = ground arith

-- In memory where `v` holds a node with a first child, both with ids below 128, the array `nodes`
-- has `v` under its id and the next new address is not NULL, `bfs` of `v` faults with fuel for two
-- rounds or more: `queue_dequeue` leaves `tail` at the item that it frees, and the `queue_push` of
-- the child writes there.
pub bfs_use_after_free :
    (k v : ℕ)
    → (s : Machine) → (n c : TreeNode) → s.node_at v ≡ some n
    → s.node_at n.firstchild ≡ some c
    → (n.firstchild == 0) ≡ false
    → ltb n.id 128 ≡ true
    → ltb c.id 128 ≡ true
    → get_or s.nodes n.id 0 ≡ v
    → (s.unused == 0) ≡ false
    → bfs (suc (suc k)) v s ≡ fault
unfolding bfs queue_loop visit_next children_loop queue_init queue_push queue_dequeue queue_get_size
bfs_use_after_free k v s n c at_v at_c linked n_low c_low found real =
    let u = s.unused in
    rw
      (
        at_v,
        compare-lt n.id 128 n_low,
        compare-eq u,
        at_v,
        compare-eq u,
        compare-lt n.id 128 n_low,
        found,
        at_v,
        compare-gt n.firstchild linked,
        at_c,
        compare-lt c.id 128 c_low,
        compare-lt c.id 128 c_low,
        compare-gt u real,
        compare-eq u,
        compare-suc u,
        visit,
        visited_of,
        node_of,
        set_visited,
        in_array,
        ltb,
        ◌==◌,
        if◌then◌else◌,
        ◌>>=◌,
        ◌>>◌,
      )
      refl
