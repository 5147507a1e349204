-- ===== src/Tree/Families.antt =====
-- tree.c: the children that a sequence of `add_node` is to give each node, by their ids.
use libp.Base.{ℕ, ◌≡◌, ◌≢◌, ◌++◌, ◌<◌, ◌==◌, refl, ◌∙◌, some, List, [], ◌∷◌, if◌then◌else◌, Option}
use libp.Memory.{ℤ, TreeNode, Cmd, pure, ◌>>◌}
use libp.Tree.{add_node}

pub record Addition : Type 0 where
  pub parent : ℕ
  pub metric : ℤ
  pub id : ℕ

-- The ids of the children of each node, as an addition changes them.
abbrev pub attached : Addition → (ℕ → List ℕ) → ℕ → List ℕ
attached a f i = if i == a.parent then f i ++ a.id ∷ [] else if i == a.id then [] else f i

unfoldable pub families : List Addition → (ℕ → List ℕ) → ℕ → List ℕ
families [] f = f
families (a ∷ rest) f = families rest (attached a f)

unfoldable pub add_nodes : ℕ → List Addition → Cmd (Unit {0})
add_nodes k [] = pure tt
add_nodes k (a ∷ rest) = add_node k a.parent a.metric a.id >> add_nodes k rest

abbrev pub AreProper : List Addition → Type 0
AreProper [] = Unit {0}
AreProper (a ∷ rest) = ((a.parent ≢ a.id) × (a.parent < 128) × (a.id < 128)) × AreProper rest

-- The structures at the addresses have these ids.
abbrev pub Ids : (ℕ → Option TreeNode) → (ys is : List ℕ) → Type 0
Ids m [] [] = Unit {0}
Ids m [] (i ∷ is) = ⊥
Ids m (y ∷ ys) [] = ⊥
Ids m (y ∷ ys) (i ∷ is) = ((n : TreeNode) × (m y ≡ some n) × (n.id ≡ i)) × Ids m ys is

pub Ids-keep :
    (m m' : ℕ → Option TreeNode) (ys is : List ℕ)
    → ((y : ℕ) (n : TreeNode) → m y ≡ some n → (n' : TreeNode) × (m' y ≡ some n') × (n'.id ≡ n.id))
    → Ids m ys is
    → Ids m' ys is
Ids-keep m m' [] [] h d = tt
Ids-keep m m' [] (i ∷ is) h d = elim d [ ]
Ids-keep m m' (y ∷ ys) [] h d = elim d [ ]
Ids-keep m m' (y ∷ ys) (i ∷ is) h ((n, e, at), d) =
    let (n', e', same) = h y n e in ((n', e', same ∙ at), Ids-keep m m' ys is h d)

pub Ids-append :
    (m : ℕ → Option TreeNode) (ys is : List ℕ) (u : ℕ) (n : TreeNode)
    → Ids m ys is
    → m u ≡ some n
    → Ids m (ys ++ u ∷ []) (is ++ n.id ∷ [])
Ids-append m [] [] u n d e = ((n, e, refl), tt)
Ids-append m [] (i ∷ is) u n d e = elim d [ ]
Ids-append m (y ∷ ys) [] u n d e = elim d [ ]
Ids-append m (y ∷ ys) (i ∷ is) u n (c, d) e = (c, Ids-append m ys is u n d e)
