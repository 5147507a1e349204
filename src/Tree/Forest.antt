-- ===== src/Tree/Forest.antt =====
-- tree.c: the forest that a sequence of `add_node` builds from `tree_init` on.
use libp.Base.{
  ℕ, ◌≡◌, ◌≢◌, ◌++◌, ◌+◌, ◌<◌, ◌≤◌, ◌==◌, refl, sym, ◌∙◌, false, true, none, List, [], ◌∷◌, has,
  has-append, arith, length, get_or, replicate, if◌then◌else◌, Bool-cases, inl, inr, subst, ap,
  ==_iff, length-append_one, get_or-replicate,
}
use libp.Memory.{negsuc, TreeNode, Machine, ok, ◌>>◌}
use libp.Tree.{tree_init, init_visited, leaf}
use libp.Tree.Children.{Children, unknown, known, IsMemory, Siblings-off}
use libp.Tree.Place.{placed, placed-IsMemory, Children-placed, Children-placed_self}
use libp.Tree.Adopt.{from}
use libp.Tree.Growth.{Grown, add_node-Grown}
use libp.Tree.Families.{
  Addition, attached, families, add_nodes, AreProper, Ids, Ids-keep, Ids-append,
}

-- Each node has its own list of children, with the ids that `f` says, after at most `n` additions.
pub record IsForest (s : Machine) (f : ℕ → List ℕ) (n : ℕ) : Type 0 where
  pub memory : IsMemory s
  pub kids : ℕ → List ℕ
  pub listed : (i : ℕ) → Children s i (kids i)
  pub ids : (i : ℕ) → Ids s.node_at (kids i) (f i)
  pub apart : (i j y : ℕ) → i ≢ j → has y (kids i) ≡ true → has y (kids j) ≡ false
  pub few : (i : ℕ) → length (kids i) ≤ n

-- A list of children knows no address that holds nothing.
Children-off :
    (s : Machine) (i u : ℕ) (ys : List ℕ) → Children s i ys → s.node_at u ≡ none → has u ys ≡ false
Children-off s i u _ (unknown e) h = refl
Children-off s i u _ (known x ys e l) h = Siblings-off s.node_at x.firstchild u ys l h

abbrev kids_after : Addition → (ℕ → List ℕ) → ℕ → ℕ → List ℕ
kids_after a kids u i = if i == a.parent then kids i ++ u ∷ [] else if i == a.id then [] else kids i

-- What one addition leaves of a forest.
module _ (s s' : Machine) (f : ℕ → List ℕ) (n : ℕ) (a : Addition) (w : IsForest s f n)
    (g : Grown s a.parent a.id a.metric (w.kids a.parent) s') where
  listed_after : (i : ℕ) → Children s' i (kids_after a w.kids s.unused i)
  listed_after i = elim (Bool-cases (i == a.parent)) [
    | inl p ↦ rw p (
        subst (λ j. Children s' j (w.kids j ++ s.unused ∷ [])) (sym ((==_iff i a.parent).0 p))
          g.child)
    | inr np ↦ elim (Bool-cases (i == a.id)) [
      | inl q ↦ rw (np, q) (subst (λ j. Children s' j []) (sym ((==_iff i a.id).0 q)) g.alone)
      | inr nq ↦
          rw (np, nq)
            (g.others i (w.kids i) (ground arith) (ground arith)
              (λ y on. w.apart a.parent i y (ground arith) on) (w.listed i))
    ]
  ]

  Ids-kept : (i : ℕ) → Ids s'.node_at (w.kids i) (f i)
  Ids-kept i = Ids-keep s.node_at s'.node_at (w.kids i) (f i) g.keeps (w.ids i)

  Ids-with : (i : ℕ) → Ids s'.node_at (w.kids i ++ s.unused ∷ []) (f i ++ a.id ∷ [])
  Ids-with i =
      let (_, m, e, same, _) = g.stored in
      subst (λ k. Ids s'.node_at (w.kids i ++ s.unused ∷ []) (f i ++ k ∷ [])) same
        (Ids-append s'.node_at (w.kids i) (f i) s.unused m (Ids-kept i) e)

  Ids-after : (i : ℕ) → Ids s'.node_at (kids_after a w.kids s.unused i) (attached a f i)
  Ids-after i = elim (Bool-cases (i == a.parent)) [
    | inl p ↦ rw p (Ids-with i)
    | inr np ↦ elim (Bool-cases (i == a.id)) [
      | inl q ↦ rw (np, q) tt
      | inr nq ↦ rw (np, nq) (Ids-kept i)
    ]
  ]

  new_off : (i : ℕ) → has s.unused (w.kids i) ≡ false
  new_off i =
      Children-off s i s.unused (w.kids i) (w.listed i) (w.memory.above s.unused (omega arith))

  Grown-IsForest : IsForest s' (attached a f) (n + 1)
  Grown-IsForest = record {
    memory = g.memory;
    kids = kids_after a w.kids s.unused;
    listed = listed_after;
    ids = Ids-after;
    apart = λ i j y ne on. ground (
      arith,
      w.apart i j y,
      new_off i,
      new_off j,
      has-append y s.unused (w.kids i),
      has-append y s.unused (w.kids j),
    );
    few = λ i. ground (arith, w.few i, length-append_one (w.kids i) s.unused);
  }

add_nodes_lem :
    (k : ℕ) (added : List Addition) (s : Machine) (f : ℕ → List ℕ) (n : ℕ)
    → IsForest s f n
    → AreProper added
    → length added + n ≤ k
    → (s' : Machine) × (add_nodes k added s ≡ ok tt s') × (m : ℕ) × IsForest s' (families added f) m
unfolding add_nodes families
add_nodes_lem k [] s f n w h fuel = (s, refl, n, w)
add_nodes_lem k (a ∷ added) s f n w ((ne, pl, il), h) fuel =
    let (t, run, g) =
      add_node-Grown k a.parent a.metric a.id (w.kids a.parent) s w.memory (w.listed a.parent) ne pl
        il (omega (arith, w.few a.parent)) in
    let (s', runs, m, w') =
      add_nodes_lem k added t (attached a f) (n + 1) (Grown-IsForest s t f n a w g) h
        (omega arith) in
    (s', ap (from (λ _. add_nodes k added)) run ∙ runs, m, w')

abbrev Blank : Machine → Type 0
Blank s = ((i : ℕ) → get_or s.nodes i 0 ≡ 0) × (length s.nodes ≡ 128)

module _ (s : Machine) (b : Blank s) (null : s.node_at 0 ≡ none)
    (above : (p : ℕ) → s.unused ≤ p → s.node_at p ≡ none) (real : 0 < s.unused) where
  Blank-IsMemory : IsMemory s
  Blank-IsMemory = record {
    null = null;
    above = above;
    real = real;
    entries = λ i. omega (arith, b.0 i);
    apart = λ i j h e. absurd (h (b.0 i));
    whole = b.1;
  }

  root_children : (n : TreeNode) → n.firstchild ≡ 0 → (i : ℕ) → Children (placed s 0 n) i []
  root_children n e i = elim (Bool-cases (i == 0)) [
    | inl at ↦
        subst (λ j. Children (placed s 0 n) j []) (sym ((==_iff i 0).0 at))
          (Children-placed_self s 0 n [] Blank-IsMemory (omega arith) e)
    | inr off ↦ Children-placed s 0 n i [] Blank-IsMemory (ground arith) (unknown (b.0 i))
  ]

  root-IsForest : (n : TreeNode) → n.firstchild ≡ 0 → IsForest (placed s 0 n) (λ i. []) 0
  root-IsForest n e = record {
    memory = placed-IsMemory s 0 n (omega arith) Blank-IsMemory;
    kids = λ i. [];
    listed = root_children n e;
    ids = λ i. tt;
    apart = λ i j y ne on. refl;
    few = λ i. omega arith;
  }

-- `tree_init` enters the root in an array that knows no node.
abbrev bare : Machine → Machine
bare s = record s {
  root = s.unused;
  visited = replicate 128 0;
  advertised = replicate 128 (negsuc 0);
  calculated = replicate 128 (negsuc 0);
  nodes = replicate 128 0;
}

tree_init_lem : (s : Machine) → tree_init s ≡ ok tt (placed (bare s) 0 (leaf 0 (negsuc 0)))
unfolding tree_init init_visited
tree_init_lem s = refl

-- `tree_init` returns.
pub tree_init_returns : (s : Machine) → (s' : Machine) × (tree_init s ≡ ok tt s')
tree_init_returns s = (placed (bare s) 0 (leaf 0 (negsuc 0)), tree_init_lem s)

-- In memory where NULL and the unused addresses hold nothing, `tree_init` and any sequence of
-- `add_node` after it, with ids below 128 and no node its own parent, return when the fuel is the
-- number of additions, and the children of each node in memory have the ids of `families`: each
-- addition comes last among its parent's children, and leaves its own id without children.
pub add_nodes_of_init :
    (k : ℕ) (added : List Addition) (s : Machine)
    → s.node_at 0 ≡ none
    → ((p : ℕ) → s.unused ≤ p → s.node_at p ≡ none)
    → 0 < s.unused
    → AreProper added
    → length added ≤ k
    → (s' : Machine) × ((tree_init >> add_nodes k added) s ≡ ok tt s')
      × ((i : ℕ)
          → (ys : List ℕ) × Children s' i ys × Ids s'.node_at ys (families added (λ _. []) i))
add_nodes_of_init k added s null above real proper fuel =
    let root = leaf 0 (negsuc 0) in
    let b : Blank (bare s) = (λ i. get_or-replicate {A = ℕ} 128 i 0, refl) in
    let (s', run, _, w) =
      add_nodes_lem k added (placed (bare s) 0 root) (λ _. []) 0
        (root-IsForest (bare s) b null above real root refl) proper (omega arith) in
    (
      s',
      ap (from (λ _. add_nodes k added)) (tree_init_lem s) ∙ run,
      λ i. (w.kids i, w.listed i, w.ids i),
    )
