-- ===== src/Tree/Growth.antt =====
-- tree.c: `add_node`.
use libp.Base.{
  ℕ, ◌≡◌, ◌≢◌, ◌++◌, ◌+◌, ◌<◌, ◌≤◌, refl, sym, ◌∙◌, false, true, none, some, List, [], ◌∷◌, has,
  arith, length, get_or, get_or-set_self, get_or-set_ne, ==_refl, ◌==◌, Bool-cases, inl, inr, ◌⊎◌,
}
use libp.Memory.{ℤ, TreeNode, Machine, ok, write}
use libp.Tree.{add_node, leaf, placeholder}
use libp.Tree.Place.{
  placed, placed-IsMemory, Children-placed, Children-placed_self, changed, changed-IsMemory,
  known_changed, Children-changed,
}
use libp.Tree.Children.{
  Siblings, Children, unknown, known, IsMemory, Siblings-write_free, last, has-last,
  Siblings-append, append_sibling_lem, Siblings-off,
}
use libp.Tree.Adopt.{set_node_of_low, add_node_start, adopt_known, add_first, add_later}

-- What `add_node` leaves of a machine in which the children of the parent are `ys`.
pub record Grown (s : Machine) (parent id : ℕ) (metric : ℤ) (ys : List ℕ) (s' : Machine)
    : Type 0 where
  pub memory : IsMemory s'
  pub child : Children s' parent (ys ++ s.unused ∷ [])
  pub alone : Children s' id []
  pub stored :
      (get_or s'.nodes id 0 ≡ s.unused)
      × (n : TreeNode) × (s'.node_at s.unused ≡ some n)
      × (n.id ≡ id)
      × (n.metric ≡ metric)
  pub keeps :
      (y : ℕ) (n : TreeNode)
      → s.node_at y ≡ some n
      → (n' : TreeNode) × (s'.node_at y ≡ some n') × (n'.id ≡ n.id)
  pub others :
      (q : ℕ) (zs : List ℕ)
      → q ≢ parent
      → q ≢ id
      → ((y : ℕ) → has y ys ≡ true → has y zs ≡ false)
      → Children s q zs
      → Children s' q zs

get_or-placed :
    (s : Machine) (i : ℕ) (n : TreeNode)
    → IsMemory s
    → i < 128
    → get_or (placed s i n).nodes i 0 ≡ s.unused
get_or-placed s i n w low = ground (arith, w.whole, get_or-set_self s.nodes i s.unused 0)

placed_at : (s : Machine) (i : ℕ) (n : TreeNode) → (placed s i n).node_at s.unused ≡ some n
placed_at s i n = ground (arith, ==_refl s.unused)

add_to_unknown :
    (k parent : ℕ) (metric : ℤ) (id : ℕ) (s : Machine)
    → IsMemory s
    → parent ≢ id
    → parent < 128
    → id < 128
    → get_or s.nodes parent 0 ≡ 0
    → (s' : Machine) × (add_node k parent metric id s ≡ ok tt s') × Grown s parent id metric [] s'
add_to_unknown k parent metric id s w ne pl il e =
    let u = s.unused in
    let t = placed s id (leaf id metric) in
    let m = placeholder parent u in
    let w1 = placed-IsMemory s id (leaf id metric) il w in
    (
      placed t parent m,
      add_node_start k parent metric id s ne pl il
          ∙ rw e (
              set_node_of_low parent t.unused
                (record t { node_at = write t.node_at t.unused (some m); unused = t.unused + 1 })
                pl),
      record {
        memory = placed-IsMemory t parent m pl w1;
        child =
            Children-placed_self t parent m (u ∷ []) w1 pl
              (refl, refl, leaf id metric, ground (arith, placed_at s id (leaf id metric)), refl);
        alone =
            Children-placed t parent m id [] w1 (λ q. ne (sym q))
              (Children-placed_self s id (leaf id metric) [] w il refl);
        stored = (
          get_or-set_ne t.nodes parent id t.unused 0 ne ∙ get_or-placed s id (leaf id metric) w il,
          leaf id metric,
          ground (arith, placed_at s id (leaf id metric)),
          refl,
          refl,
        );
        keeps = λ y j f. (j, ground (arith, w.above y), refl);
        others = λ q zs np ni off c.
            Children-placed t parent m q zs w1 np
              (Children-placed s id (leaf id metric) q zs w ni c);
      },
    )

-- The rest of the additions change one structure of the machine in which the node is placed.
changed-Grown :
    (s : Machine) (parent id : ℕ) (metric : ℤ) (ys : List ℕ) (p : ℕ) (x x' : TreeNode)
    → IsMemory s
    → parent ≢ id
    → id < 128
    → s.node_at p ≡ some x
    → (has p ys ≡ true) ⊎ (x'.nextsibling ≡ x.nextsibling)
    → (p ≡ get_or s.nodes parent 0) ⊎ (x'.firstchild ≡ x.firstchild)
    → x'.id ≡ x.id
    → Children (changed (placed s id (leaf id metric)) p x') parent (ys ++ s.unused ∷ [])
    → Grown s parent id metric ys (changed (placed s id (leaf id metric)) p x')
changed-Grown s parent id metric ys p x x' w ne il e next first same c =
    let n = leaf id metric in
    let t = placed s id n in
    let w1 = placed-IsMemory s id n il w in
    let at_p : t.node_at p ≡ some x = ground (arith, w.above p) in
    let self = get_or-placed s id n w il in
    record {
      memory = changed-IsMemory t p x x' at_p w1;
      child = c;
      alone =
          Children-changed t p x x' id [] at_p (λ q. absurd (ground (arith, w.above p, self)))
            (λ h. absurd (ground arith)) (Children-placed_self s id n [] w il refl);
      stored = (self, n, ground (arith, w.above p, placed_at s id n), refl, refl);
      keeps = λ y j f. elim (Bool-cases (p == y)) [
        | inl h ↦ (x', ground arith, ground arith)
        | inr h ↦ (j, ground (arith, w.above y), refl)
      ];
      others = λ q zs np ni off d.
          Children-changed t p x x' q zs at_p
            (λ f.
              ground
                (arith, first, w.apart q parent, w.null, get_or-set_ne s.nodes id q s.unused 0))
            (λ on. ground (arith, next, off p)) (Children-placed s id n q zs w ni d);
    }

add_to_childless :
    (k parent : ℕ) (metric : ℤ) (id : ℕ) (s : Machine) (x : TreeNode)
    → IsMemory s
    → parent ≢ id
    → parent < 128
    → id < 128
    → s.node_at (get_or s.nodes parent 0) ≡ some x
    → x.firstchild ≡ 0
    → (s' : Machine) × (add_node k parent metric id s ≡ ok tt s') × Grown s parent id metric [] s'
add_to_childless k parent metric id s x w ne pl il e z =
    let u = s.unused in
    let n = leaf id metric in
    let p = get_or s.nodes parent 0 in
    let t = placed s id n in
    let x' : TreeNode = record x { firstchild = u } in
    let at_p : t.node_at p ≡ some x = ground (arith, w.above p) in
    let new : (changed t p x').node_at u ≡ some n = ground (arith, w.above p, placed_at s id n) in
    (
      changed t p x',
      add_node_start k parent metric id s ne pl il
          ∙ adopt_known k parent u p t (ground (arith, w.null))
          ∙ add_first k u p x t at_p z,
      changed-Grown s parent id metric [] p x x' w ne il e (inr refl) (inl refl) refl (
          known x' (u ∷ []) (ground (arith, get_or-set_ne s.nodes id parent u 0, ==_refl p))
            (refl, refl, n, new, refl)),
    )

add_behind :
    (k parent : ℕ) (metric : ℤ) (id y : ℕ) (ys : List ℕ) (s : Machine) (x : TreeNode)
    → IsMemory s
    → parent ≢ id
    → parent < 128
    → id < 128
    → s.node_at (get_or s.nodes parent 0) ≡ some x
    → Siblings s.node_at x.firstchild (y ∷ ys)
    → length ys < k
    → (s' : Machine) × (add_node k parent metric id s ≡ ok tt s')
      × Grown s parent id metric (y ∷ ys) s'
add_behind k parent metric id y ys s x w ne pl il e sib fuel =
    let u = s.unused in
    let n = leaf id metric in
    let p = get_or s.nodes parent 0 in
    let t = placed s id n in
    let none_at : s.node_at u ≡ none = w.above u (omega arith) in
    let sib' = Siblings-write_free s.node_at x.firstchild (y ∷ ys) u (some n) none_at sib in
    let off = Siblings-off s.node_at x.firstchild u (y ∷ ys) sib none_at in
    let (l, g, run) =
      append_sibling_lem k x.firstchild y u ys t sib' (ground (arith, w.null, w.real)) fuel in
    let q = last y ys in
    let l' : TreeNode = record l { nextsibling = u } in
    let at_q : s.node_at q ≡ some l = ground (arith, has-last y ys) in
    let at_p : t.node_at p ≡ some x = ground (arith, w.above p) in
    let grown =
      Siblings-append t.node_at x.firstchild y u ys n l sib' off (placed_at s id n) refl g in
    (
      changed t q l',
      add_node_start k parent metric id s ne pl il
          ∙ adopt_known k parent u p t (ground (arith, w.null))
          ∙ add_later k u p x.firstchild x t (changed t q l') at_p refl
              (ground (arith, w.null, sib.0, sib.3)) run,
      changed-Grown s parent id metric (y ∷ ys) q l l' w ne il at_q (inl (has-last y ys)) (inr refl)
          refl
          (known_changed t p q parent x l l' (y ∷ ys ++ u ∷ []) at_p g refl
            (get_or-set_ne s.nodes id parent u 0 (λ f. ne (sym f))) grown),
    )

-- An addition returns, and leaves the children as `Grown` says.
pub add_node-Grown :
    (k parent : ℕ) (metric : ℤ) (id : ℕ) (ys : List ℕ) (s : Machine)
    → IsMemory s
    → Children s parent ys
    → parent ≢ id
    → parent < 128
    → id < 128
    → length ys ≤ k
    → (s' : Machine) × (add_node k parent metric id s ≡ ok tt s') × Grown s parent id metric ys s'
add_node-Grown k parent metric id _ s w (unknown e) ne pl il fuel =
    add_to_unknown k parent metric id s w ne pl il e
add_node-Grown k parent metric id _ s w (known x [] e l) ne pl il fuel =
    add_to_childless k parent metric id s x w ne pl il e l
add_node-Grown k parent metric id _ s w (known x (y ∷ ys) e l) ne pl il fuel =
    add_behind k parent metric id y ys s x w ne pl il e l (omega arith)
