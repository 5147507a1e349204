-- ===== src/Tree/Adopt.antt =====
-- tree.c: `add_node`, as it runs.
use libp.Base.{
  ℕ, ◌≡◌, ◌≢◌, ◌+◌, ◌<◌, refl, sym, ap, ◌∙◌, some, arith, get_or, set, get_or-set_ne, ◌==◌,
  if◌then◌else◌, ltb,
}
use libp.Memory.{
  ℤ, TreeNode, Machine, Cmd, Run, ok, fault, out_of_fuel, new_node, write, set_node_of, node_of,
  in_array, ◌>>=◌, ◌>>◌,
}
use libp.Tree.Search.{compare-lt}
use libp.Tree.{add_node, add_child, append_sibling, leaf, placeholder}
use libp.Tree.Place.{placed, changed}

pub set_node_of_low :
    (i p : ℕ) (s : Machine)
    → i < 128
    → set_node_of i p s ≡ ok tt (record s { nodes = set s.nodes i p })
set_node_of_low i p s h = rw (compare-lt i 128 (ground arith), in_array, ltb, ◌>>=◌, ◌>>◌) refl

node_of_low : (i : ℕ) (s : Machine) → i < 128 → node_of i s ≡ ok (get_or s.nodes i 0) s
node_of_low i s h = rw (compare-lt i 128 (ground arith), in_array, ltb, ◌>>=◌, ◌>>◌) refl

abbrev pub from : {A B : Type 0} → (A → Cmd B) → Run A → Run B
from f r = elim r [ ok a s ↦ f a s | fault ↦ fault | out_of_fuel ↦ out_of_fuel ]

-- What `add_node` does at the parent's structure.
abbrev pub adopt : (k parent u p : ℕ) → Cmd (Unit {0})
adopt k parent u p =
    if p == 0
    then (new_node (placeholder parent u) >>= λ q. set_node_of parent q)
    else add_child k p u

-- The start of `add_node`, up to its test of the parent.
pub add_node_start :
    (k parent : ℕ) (metric : ℤ) (id : ℕ) (s : Machine)
    → parent ≢ id
    → parent < 128
    → id < 128
    → add_node k parent metric id s
      ≡ adopt k parent s.unused (get_or s.nodes parent 0) (placed s id (leaf id metric))
unfolding add_node
add_node_start k parent metric id s ne pl il =
    let u = s.unused in
    let t = placed s id (leaf id metric) in
    ap (from (λ _. node_of parent >>= adopt k parent u)) (
      set_node_of_low id u
        (record s { node_at = write s.node_at u (some (leaf id metric)); unused = u + 1 }) il)
    ∙ ap (from (adopt k parent u)) (node_of_low parent t pl)
    ∙ ap (λ p. adopt k parent u p t) (get_or-set_ne s.nodes id parent u 0 (λ q. ne (sym q)))

pub adopt_known :
    (k parent u p : ℕ) (t : Machine) → p ≢ 0 → adopt k parent u p t ≡ add_child k p u t
adopt_known k parent u p t h = ground arith

pub add_first :
    (k u p : ℕ) (x : TreeNode) (t : Machine)
    → t.node_at p ≡ some x
    → x.firstchild ≡ 0
    → add_child k p u t ≡ ok tt (changed t p (record x { firstchild = u }))
add_first k u p x t e z = ground arith

pub add_later :
    (k u p c : ℕ) (x : TreeNode) (t t' : Machine)
    → t.node_at p ≡ some x
    → x.firstchild ≡ c
    → c ≢ 0
    → append_sibling k c u t ≡ ok tt t'
    → add_child k p u t ≡ ok tt t'
add_later k u p c x t t' e f nz run = ground arith
