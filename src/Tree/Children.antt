-- ===== src/Tree/Children.antt =====
-- tree.c: the children of a node in memory.
use libp.Base.{
  ℕ, ◌≡◌, ◌≢◌, ◌++◌, ◌<◌, ◌≤◌, refl, false, true, Option, none, some, List, [], ◌∷◌, has,
  has-append, arith, length, get_or, ==_refl, zero, suc, Bool-cases, inl, inr, ◌==◌,
}
use libp.Memory.{TreeNode, Machine, ok, write}
use libp.Tree.{append_sibling}

-- The structures at the addresses `ys`, no two of them the same, are linked in this order from `c` on.
abbrev pub Siblings : (ℕ → Option TreeNode) → ℕ → List ℕ → Type 0
Siblings m c [] = c ≡ 0
Siblings m c (y ∷ ys) =
    (c ≡ y) × (has y ys ≡ false) × (n : TreeNode) × (m y ≡ some n) × Siblings m n.nextsibling ys

-- The children of a node, which the array `nodes` may not know.
pub data Children (s : Machine) (i : ℕ) : List ℕ → Type 0 where
  unknown : get_or s.nodes i 0 ≡ 0 → Children s i []
  known :
      (x : TreeNode) (ys : List ℕ)
      → s.node_at (get_or s.nodes i 0) ≡ some x
      → Siblings s.node_at x.firstchild ys
      → Children s i ys

-- Memory in which NULL and the addresses from `unused` on hold nothing, and a whole array `nodes`
-- with addresses below `unused`, each but NULL under one index.
pub record IsMemory (s : Machine) : Type 0 where
  pub null : s.node_at 0 ≡ none
  pub above : (p : ℕ) → s.unused ≤ p → s.node_at p ≡ none
  pub real : 0 < s.unused
  pub entries : (i : ℕ) → get_or s.nodes i 0 < s.unused
  pub apart : (i j : ℕ) → get_or s.nodes i 0 ≢ 0 → get_or s.nodes i 0 ≡ get_or s.nodes j 0 → i ≡ j
  pub whole : length s.nodes ≡ 128

-- The links of the structures decide.
Siblings-ext :
    (m m' : ℕ → Option TreeNode) (c : ℕ) (ys : List ℕ)
    → ((y : ℕ) (n : TreeNode)
        → has y ys ≡ true
        → m y ≡ some n
        → (n' : TreeNode) × (m' y ≡ some n') × (n'.nextsibling ≡ n.nextsibling))
    → Siblings m c ys
    → Siblings m' c ys
Siblings-ext m m' c [] h l = l
Siblings-ext m m' c (y ∷ ys) h (e, d, n, f, l) =
    let (n', f', same) = h y n (ground (arith, ==_refl y)) f in
    (e, d, n', f', rw same (Siblings-ext m m' n.nextsibling ys (λ z k on. h z k (ground arith)) l))

-- A listed structure is in memory.
Siblings-some :
    (m : ℕ → Option TreeNode) (c : ℕ) (ys : List ℕ) (y : ℕ)
    → Siblings m c ys
    → has y ys ≡ true
    → (n : TreeNode) × (m y ≡ some n)
Siblings-some m c [] y l on = cc
Siblings-some m c (z ∷ ys) y (e, d, n, f, l) on = elim (Bool-cases (z == y)) [
  | inl at ↦ (n, ground arith)
  | inr off ↦ Siblings-some m n.nextsibling ys y l (ground arith)
]

-- Where nothing was, a write does not matter.
pub Siblings-write_free :
    (m : ℕ → Option TreeNode) (c : ℕ) (ys : List ℕ) (p : ℕ) (x : Option TreeNode)
    → m p ≡ none
    → Siblings m c ys
    → Siblings (write m p x) c ys
Siblings-write_free m c ys p x e l =
    Siblings-ext m (write m p x) c ys (λ y n on f. (n, ground arith, refl)) l

-- A write that keeps the link, where it is one of these.
pub Siblings-write_link :
    (m : ℕ → Option TreeNode) (c : ℕ) (ys : List ℕ) (p : ℕ) (x x' : TreeNode)
    → m p ≡ some x
    → (has p ys ≡ true → x'.nextsibling ≡ x.nextsibling)
    → Siblings m c ys
    → Siblings (write m p (some x')) c ys
Siblings-write_link m c ys p x x' e same l =
    Siblings-ext m (write m p (some x')) c ys
      (λ y n on f. elim (Bool-cases (p == y)) [
        | inl at ↦ (x', ground arith, ground arith)
        | inr off ↦ (n, ground arith, refl)
      ])
      l

unfoldable pub last : ℕ → List ℕ → ℕ
last y [] = y
last y (z ∷ ys) = last z ys

pub has-last : (y : ℕ) (ys : List ℕ) → has (last y ys) (y ∷ ys) ≡ true
unfolding last
has-last y [] = ground (arith, ==_refl y)
has-last y (z ∷ ys) = ground (arith, has-last z ys)

-- A new last sibling.
pub Siblings-append :
    (m : ℕ → Option TreeNode) (c y u : ℕ) (ys : List ℕ) (n l : TreeNode)
    → Siblings m c (y ∷ ys)
    → has u (y ∷ ys) ≡ false
    → m u ≡ some n
    → n.nextsibling ≡ 0
    → m (last y ys) ≡ some l
    → Siblings (write m (last y ys) (some (record l { nextsibling = u }))) c (y ∷ ys ++ u ∷ [])
unfolding last
Siblings-append m c y u [] n l (e, d, x, f, r) off new end g = (
  e,
  ground arith,
  record l { nextsibling = u },
  ground (arith, ==_refl y),
  (refl, refl, n, ground arith, end),
)
Siblings-append m c y u (z ∷ ys) n l (e, d, x, f, r) off new end g = (
  e,
  ground (arith, has-append y u ys),
  x,
  ground (arith, has-last z ys),
  Siblings-append m x.nextsibling z u ys n l r (ground arith) new end g,
)

-- The last structure on the way is the last sibling.
pub append_sibling_lem :
    (k c y u : ℕ) (ys : List ℕ) (s : Machine)
    → Siblings s.node_at c (y ∷ ys)
    → s.node_at 0 ≡ none
    → length ys < k
    → (l : TreeNode) × (s.node_at (last y ys) ≡ some l)
      × (append_sibling k c u s
          ≡ ok tt (record s {
            node_at = write s.node_at (last y ys) (some (record l { nextsibling = u }));
          }))
unfolding append_sibling last
append_sibling_lem zero c y u ys s h null k_ok = absurd (omega arith)
append_sibling_lem (suc k) c y u [] s (e, d, x, f, r) null k_ok = (x, f, ground arith)
append_sibling_lem (suc k) c y u (z ∷ ys) s (e, d, x, f, r) null k_ok =
    let (l, g, run) = append_sibling_lem k x.nextsibling z u ys s r null (omega arith) in
    (l, g, ground arith)

-- An address that holds nothing is no sibling.
pub Siblings-off :
    (m : ℕ → Option TreeNode) (c u : ℕ) (ys : List ℕ)
    → Siblings m c ys
    → m u ≡ none
    → has u ys ≡ false
Siblings-off m c u ys l e = elim (Bool-cases (has u ys)) [
  | inl on ↦ let (n, f) = Siblings-some m c ys u l on in absurd (ground arith)
  | inr off ↦ off
]
