-- ===== src/Tree/Place.antt =====
-- tree.c: the steps of `add_node` on the children of the nodes.
use libp.Base.{
  ℕ, ◌≡◌, ◌≢◌, ◌+◌, ◌<◌, subst, ◌∙◌, true, some, List, has, arith, length-set, get_or, set,
  get_or-set_self, get_or-set_ne, ==_refl, ◌==◌, Bool-cases, inl, inr,
}
use libp.Memory.{TreeNode, Machine, write}
use libp.Tree.Children.{
  Siblings, Children, unknown, known, IsMemory, Siblings-write_free, Siblings-write_link,
}

-- A new structure, entered in the array `nodes`.
abbrev pub placed : Machine → (i : ℕ) → TreeNode → Machine
placed s i n = record s {
  node_at = write s.node_at s.unused (some n);
  unused = s.unused + 1;
  nodes = set s.nodes i s.unused;
}

pub placed-IsMemory :
    (s : Machine) (i : ℕ) (n : TreeNode) → i < 128 → IsMemory s → IsMemory (placed s i n)
placed-IsMemory s i n low w = record {
  null = ground (arith, w.null, w.real);
  above = λ p h. ground (arith, w.above p);
  real = omega arith;
  entries = λ j. ground (
    arith,
    w.whole,
    w.entries j,
    get_or-set_self s.nodes i s.unused 0,
    get_or-set_ne s.nodes i j s.unused 0,
  );
  apart = λ j k h e. ground (
    arith,
    w.whole,
    w.entries j,
    w.entries k,
    w.apart j k,
    get_or-set_self s.nodes i s.unused 0,
    get_or-set_ne s.nodes i j s.unused 0,
    get_or-set_ne s.nodes i k s.unused 0,
  );
  whole = length-set s.nodes i s.unused ∙ w.whole;
}

pub Children-placed :
    (s : Machine) (i : ℕ) (n : TreeNode) (q : ℕ) (zs : List ℕ)
    → IsMemory s
    → q ≢ i
    → Children s q zs
    → Children (placed s i n) q zs
Children-placed s i n q zs w ne (unknown e) =
    unknown (ground (arith, get_or-set_ne s.nodes i q s.unused 0))
Children-placed s i n q zs w ne (known x ys e l) =
    known x ys (ground (arith, w.entries q, get_or-set_ne s.nodes i q s.unused 0)) (
      Siblings-write_free s.node_at x.firstchild ys s.unused (some n)
        (w.above s.unused (omega arith)) l)

pub Children-placed_self :
    (s : Machine) (i : ℕ) (n : TreeNode) (zs : List ℕ)
    → IsMemory s
    → i < 128
    → Siblings (placed s i n).node_at n.firstchild zs
    → Children (placed s i n) i zs
Children-placed_self s i n zs w low l =
    known n zs (ground (arith, w.whole, get_or-set_self s.nodes i s.unused 0, ==_refl s.unused)) l

-- A structure that is changed in its place.
abbrev pub changed : Machine → ℕ → TreeNode → Machine
changed s p x = record s { node_at = write s.node_at p (some x) }

pub changed-IsMemory :
    (s : Machine) (p : ℕ) (x x' : TreeNode)
    → s.node_at p ≡ some x
    → IsMemory s
    → IsMemory (changed s p x')
changed-IsMemory s p x x' e w = record {
  null = ground (arith, w.null);
  above = λ q h. ground (arith, w.above q);
  real = w.real;
  entries = w.entries;
  apart = w.apart;
  whole = w.whole;
}

pub Children-changed :
    (s : Machine) (p : ℕ) (x x' : TreeNode) (q : ℕ) (zs : List ℕ)
    → s.node_at p ≡ some x
    → (get_or s.nodes q 0 ≡ p → x'.firstchild ≡ x.firstchild)
    → (has p zs ≡ true → x'.nextsibling ≡ x.nextsibling)
    → Children s q zs
    → Children (changed s p x') q zs
Children-changed s p x x' q zs e first next (unknown f) = unknown f
Children-changed s p x x' q zs e first next (known y ys f l) =
    let l' = Siblings-write_link s.node_at y.firstchild ys p x x' e next l in
    elim (Bool-cases (p == get_or s.nodes q 0)) [
      | inl at ↦
          known x' ys (ground arith)
            (subst (λ c. Siblings (changed s p x').node_at c ys) (ground (arith, first)) l')
      | inr off ↦ known y ys (ground arith) l'
    ]

-- The parent, which may be the changed structure itself, and its new children.
pub known_changed :
    (t : Machine) (p q i : ℕ) (x l l' : TreeNode) (zs : List ℕ)
    → t.node_at p ≡ some x
    → t.node_at q ≡ some l
    → l'.firstchild ≡ l.firstchild
    → get_or t.nodes i 0 ≡ p
    → Siblings (changed t q l').node_at x.firstchild zs
    → Children (changed t q l') i zs
known_changed t p q i x l l' zs e f same at c = elim (Bool-cases (q == p)) [
  | inl h ↦
      known l' zs (ground arith)
        (subst (λ a. Siblings (changed t q l').node_at a zs) (ground arith) c)
  | inr h ↦ known x zs (ground arith) c
]
