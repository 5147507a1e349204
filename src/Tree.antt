-- ===== src/Tree.antt =====
-- tree.h and tree.c: the sink's picture of the routing tree. Loops and recursions whose length lies
-- in the linked structures run on fuel, their first argument.
pub mod Clear
pub mod Search
pub mod Children
pub mod Place
pub mod Adopt
pub mod Growth
pub mod Families
pub mod Forest
pub mod Tests
use libp.Base.{ℕ, zero, suc, ◌+◌, ◌-◌, ◌==◌, Bool, true, false, if◌then◌else◌, ltb, List, replicate}
use libp.Memory.{
  ℤ, pos, negsuc, TreeNode, Machine, Run, ok, fault, out_of_fuel, Cmd, pure, modify, gets, ◌>>=◌,
  ◌>>◌, load_node, update_node, new_node, free_node, node_of, visited_of, set_node_of, set_visited,
  set_calculated,
}
use libp.Queue.{queue_init, queue_push, queue_dequeue, queue_get_size}

-- `init_visited`.
unfoldable pub init_visited : Cmd (Unit {0})
init_visited = modify (λ s. record s { visited = replicate 128 0 })

-- The next number in the order of the visits.
abbrev pub visit : ℕ → Cmd (Unit {0})
visit id = do
  modify (λ s. record s { bfs_count = s.bfs_count + 1 })
  count ← gets (λ s. s.bfs_count)
  set_visited id count

-- The loop of `bfs` over the children. The `if` of the source ends at its semicolon, so it only
-- reads `visited`.
pub children_loop : ℕ → (c kids : ℕ) → Cmd ℕ
children_loop zero c kids = λ _. out_of_fuel
children_loop (suc k) c kids = if c == 0 then pure kids else do
  n ← load_node c
  _ ← visited_of n.id
  visit n.id
  queue_push c
  children_loop k n.nextsibling (kids + 1)

-- A round of the loop of `bfs` over the queue; the result is the next `queue_size`.
pub visit_next : ℕ → Cmd ℕ
visit_next k = do
  id ← queue_dequeue
  p ← node_of id
  n ← load_node p
  kids ← children_loop k n.firstchild 0
  set_calculated id (pos kids)
  queue_get_size

-- The loop of `bfs` over the queue.
pub queue_loop : ℕ → (queue_size : ℕ) → Cmd (Unit {0})
queue_loop zero queue_size = λ _. out_of_fuel
queue_loop (suc k) queue_size = if ltb 0 queue_size then visit_next k >>= queue_loop k else pure tt

-- `bfs`.
pub bfs : ℕ → (v : ℕ) → Cmd (Unit {0})
bfs k v = do
  queue_init
  queue_push v
  n ← load_node v
  visit n.id
  size ← queue_get_size
  queue_loop k size

-- The loops of `tree_bfs` and `clear_tree` over the indices from `i` on, `rounds` of them.
abbrev pub if_unvisited : (i : ℕ) → (ℕ → Cmd (Unit {0})) → Cmd (Unit {0})
if_unvisited i f = do
  p ← node_of i
  (if p == 0 then pure tt else do v ← visited_of i; (if v == 0 then f p else pure tt))

pub each_unvisited : (rounds i : ℕ) → (ℕ → Cmd (Unit {0})) → Cmd (Unit {0})
each_unvisited zero i f = pure tt
each_unvisited (suc r) i f = if_unvisited i f >> each_unvisited r (i + 1) f

-- `tree_bfs`.
pub tree_bfs : ℕ → Cmd (Unit {0})
tree_bfs k = do modify (λ s. record s { bfs_count = 0 }); init_visited; each_unvisited 128 0 (bfs k)

abbrev pub leaf : (id : ℕ) → ℤ → TreeNode
leaf id metric = record { id = id; metric = metric; firstchild = 0; nextsibling = 0 }

-- `tree_init`.
pub tree_init : Cmd (Unit {0})
tree_init = do
  modify (λ s. record s {
    root = 0;
    advertised = replicate 128 (negsuc 0);
    calculated = replicate 128 (negsuc 0);
    nodes = replicate 128 0;
  })
  r ← new_node (leaf 0 (negsuc 0))
  modify (λ s. record s { root = r })
  set_node_of 0 r
  init_visited

-- `get_root`.
pub get_root : Cmd ℕ
get_root = gets (λ s. s.root)

-- `change_node_metric`; `change_node_parent` has an empty body.
pub change_node_metric : (id : ℕ) → (metric : ℤ) → Cmd (Unit {0})
change_node_metric id metric = do
  p ← node_of id
  (if p == 0 then pure tt else update_node p (λ n. record n { metric = metric }))

pub change_node_parent : (id new_parent : ℕ) → Cmd (Unit {0})
change_node_parent id new_parent = pure tt

-- `dfs_clear`, which calls itself in its loop over the children; here too the `if` only reads.
mutual
  pub dfs_clear : ℕ → (n : ℕ) → Cmd (Unit {0})
  dfs_clear zero n = λ _. out_of_fuel
  dfs_clear (suc k) n = do
    x ← load_node n
    visit x.id
    clear_loop k x.firstchild
    free_node n
    set_node_of x.id 0

  pub clear_loop : ℕ → (c : ℕ) → Cmd (Unit {0})
  clear_loop zero c = λ _. out_of_fuel
  clear_loop (suc k) c = if c == 0 then pure tt else do
    x ← load_node c
    _ ← visited_of x.id
    dfs_clear k c
    y ← load_node c
    clear_loop k y.nextsibling

-- `clear_tree`.
pub clear_tree : ℕ → Cmd (Unit {0})
clear_tree k = do
  init_visited
  modify (λ s. record s { bfs_count = 0 })
  each_unvisited 128 0 (dfs_clear k)

-- The walk of `add_node` to the last sibling, and the write that follows it.
pub append_sibling : ℕ → (child n : ℕ) → Cmd (Unit {0})
append_sibling zero child n = λ _. out_of_fuel
append_sibling (suc k) child n = do
  x ← load_node child
  (if x.nextsibling == 0
      then update_node child (λ y. record y { nextsibling = n })
      else append_sibling k x.nextsibling n)

abbrev pub placeholder : (id child : ℕ) → TreeNode
placeholder id child = record { id = id; metric = negsuc 0; firstchild = child; nextsibling = 0 }

-- The new node `n` below the parent's structure at `p`.
abbrev pub add_child : ℕ → (p n : ℕ) → Cmd (Unit {0})
add_child k p n = do
  x ← load_node p
  (if x.firstchild == 0
      then update_node p (λ y. record y { firstchild = n })
      else append_sibling k x.firstchild n)

-- `add_node`.
pub add_node : ℕ → (parent : ℕ) → (metric : ℤ) → (id : ℕ) → Cmd (Unit {0})
add_node k parent metric id = do
  n ← new_node (leaf id metric)
  set_node_of id n
  p ← node_of parent
  (if p == 0
      then (new_node (placeholder parent n) >>= λ q. set_node_of parent q)
      else add_child k p n)

-- The id that `print_nodes` finds behind a link, -1 where there is none.
abbrev linked_id : ℕ → Cmd ℤ
linked_id p = if p == 0 then pure (negsuc 0) else (load_node p >>= λ n. pure (pos n.id))

-- The loop of `print_nodes` from the index `k` on; its only output is commented out.
pub print_loop : (rounds k : ℕ) → Cmd (Unit {0})
print_loop zero k = pure tt
print_loop (suc r) k = do
  p ← node_of k
  (if p == 0
      then pure tt
      else do n ← load_node p; _ ← linked_id n.firstchild; _ ← linked_id n.nextsibling; pure tt)
  print_loop r (k + 1)

-- `print_nodes`.
pub print_nodes : Cmd (Unit {0})
print_nodes = print_loop 128 0
