-- ===== src/Tree/Tests.antt =====
-- tree.c and queue.c: runs on a concrete tree.
use libp.Base.{
  ◌≤◌, ℕ, List, [], ◌==◌, ◌≡◌, ◌≢◌, refl, arith, if◌then◌else◌, some, none, ◌∷◌, get_or, replicate,
}
use libp.Memory.{pos, negsuc, TreeNode, Machine, Run, ok, fault, ◌>>=◌, ◌>>◌, gets}
use libp.Queue.{
  queue_init, queue_push, queue_dequeue, queue_get_size, queue_empty, get_head, get_tail,
}
use libp.Tree.{
  bfs, queue_loop, visit_next, children_loop, tree_bfs, each_unvisited, tree_init, init_visited,
  get_root, change_node_metric, change_node_parent, clear_tree, dfs_clear, clear_loop, add_node,
  append_sibling, leaf, print_nodes, print_loop,
}
use libp.Tree.Search.{bfs_use_after_free}
use libp.Tree.Clear.{dfs_clear_never_returns}
use libp.Tree.Children.{Children}
use libp.Tree.Families.{Addition, families, add_nodes, Ids}
use libp.Tree.Forest.{add_nodes_of_init}

abbrev mother : TreeNode
mother = record { id = 0; metric = pos 3; firstchild = 2; nextsibling = 0 }

-- The node 0 at the address 1, and its child, the node 1, at the address 2.
abbrev pub family : Machine
family = record {
  node_at = λ p. if p == 1 then some mother else if p == 2 then some (leaf 1 (pos 3)) else none;
  item_at = λ p. none;
  unused = 3;
  head = 0;
  tail = 0;
  elements = 0;
  root = 1;
  nodes = 1 ∷ 2 ∷ replicate 126 0;
  visited = replicate 128 0;
  advertised = replicate 128 (negsuc 0);
  calculated = replicate 128 (negsuc 0);
  bfs_count = 0;
}

abbrev pub result : {A : Type 0} → A → Run A → A
result a (ok b s) = b
result a fault = a
result a Run.out_of_fuel = a

grown_test :
    result 9 (
      (tree_init
          >> add_node 5 0 (pos 3) 1
          >> add_node 5 0 (pos 3) 2
          >> gets (λ s. get_or s.nodes 2 9))
        family)
    ≡ 5
unfolding tree_init add_node append_sibling init_visited
grown_test = refl

root_test :
    result 9 ((change_node_metric 0 (pos 4) >> change_node_parent 1 2 >> get_root) family) ≡ 1
unfolding change_node_metric change_node_parent get_root
root_test = refl

-- A queue that was emptied points to a freed item.
queue_test :
    (result 9 ((queue_init >> queue_push 1 >> queue_push 2 >> queue_dequeue) family) ≡ 0)
    × (result 9 ((queue_init >> queue_push 1 >> queue_empty) family) ≡ 0)
    × (result 9 ((queue_init >> queue_push 1 >> queue_get_size) family) ≡ 1)
    × (result 9 ((queue_init >> queue_push 1 >> get_head) family) ≡ 3)
    × (result 9 ((queue_init >> queue_push 1 >> queue_dequeue >>= λ id. get_tail) family) ≡ 3)
unfolding queue_init queue_push queue_dequeue queue_empty queue_get_size get_head get_tail
queue_test = (refl, refl, refl, refl, refl)

leaf_test : result 9 ((bfs 5 2 >> gets (λ s. s.bfs_count)) family) ≡ 1
unfolding bfs queue_loop visit_next children_loop queue_init queue_push queue_dequeue queue_get_size
leaf_test = refl

walk_test : tree_bfs 5 family ≡ fault
unfolding tree_bfs each_unvisited init_visited bfs queue_loop visit_next children_loop queue_init
    queue_push queue_dequeue queue_get_size
walk_test = refl

clear_test : clear_tree 5 family ≡ fault
unfolding clear_tree each_unvisited init_visited dfs_clear clear_loop
clear_test = refl

bfs_use_after_free_example : bfs 2 1 family ≡ fault
bfs_use_after_free_example =
    bfs_use_after_free 0 1 family mother (leaf 1 (pos 3)) refl refl refl refl refl refl refl

dfs_clear_never_returns_example : dfs_clear 5 1 family ≢ ok tt family
dfs_clear_never_returns_example =
    dfs_clear_never_returns 5 1 family mother refl (omega arith) family

print_test : result 9 ((print_nodes >> gets (λ s. s.unused)) family) ≡ 3
unfolding print_nodes print_loop
print_test = refl

-- The node 2 comes before its parent, the node 1.
abbrev late_parent : List Addition
late_parent =
    record { parent = 1; metric = pos 2; id = 2 }
    ∷ record { parent = 0; metric = pos 1; id = 1 }
    ∷ record { parent = 0; metric = pos 1; id = 3 }
    ∷ []

families_test :
    (families late_parent (λ _. []) 0 ≡ 1 ∷ 3 ∷ []) × (families late_parent (λ _. []) 1 ≡ [])
unfolding families
families_test = (refl, refl)

family_above : (p : ℕ) → family.unused ≤ p → family.node_at p ≡ none
family_above p h = ground arith

add_nodes_of_init_example :
    (s : Machine) × ((tree_init >> add_nodes 3 late_parent) family ≡ ok tt s)
    × ((i : ℕ)
        → (ys : List ℕ) × Children s i ys × Ids s.node_at ys (families late_parent (λ _. []) i))
add_nodes_of_init_example =
    add_nodes_of_init 3 late_parent family refl family_above (omega arith)
      (
        (omega arith, omega arith, omega arith),
        ((omega arith, omega arith, omega arith), ((omega arith, omega arith, omega arith), tt)),
      )
      (omega arith)
