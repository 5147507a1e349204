-- ===== src/Memory.antt =====
-- node.h, queue.h and tree.h: the C memory that queue.c and tree.c work on, with their globals. An
-- address is a number, 0 is NULL; `malloc` gives an address that was never used and is assumed to
-- succeed. An access through an address that holds nothing, NULL or freed, is a fault, and so is an
-- index outside an array.
use libp.Base.{ℕ, ◌+◌, ◌==◌, if◌then◌else◌, ltb, Option, none, some, List, get_or, set}

-- An `int`; `negsuc n` is -(n + 1).
pub data ℤ : Type 0 where
  pos : ℕ → ℤ
  negsuc : ℕ → ℤ

-- `struct Node`.
pub record TreeNode : Type 0 where
  pub id : ℕ
  pub metric : ℤ
  pub firstchild : ℕ
  pub nextsibling : ℕ

-- `struct Item`.
pub record Item : Type 0 where
  pub node : ℕ
  pub next : ℕ

-- The two kinds of structures in memory, the next unused address, and the globals.
pub record Machine : Type 0 where
  pub node_at : ℕ → Option TreeNode
  pub item_at : ℕ → Option Item
  pub unused : ℕ
  pub head : ℕ
  pub tail : ℕ
  pub elements : ℕ
  pub root : ℕ
  pub nodes : List ℕ
  pub visited : List ℕ
  pub advertised : List ℤ
  pub calculated : List ℤ
  pub bfs_count : ℕ

-- How a call ends. A loop or a recursion that uses up its fuel is `out_of_fuel`.
pub data Run (A : Type 0) : Type 0 where
  ok : A → Machine → Run A
  fault : Run A
  out_of_fuel : Run A

abbrev pub Cmd : Type 0 → Type 0
Cmd A = Machine → Run A

abbrev pub pure : {A : Type 0} → A → Cmd A
pure a s = ok a s

infixl 5 ◌>>=◌ ◌>>◌
abbrev pub ◌>>=◌ : {A B : Type 0} → Cmd A → (A → Cmd B) → Cmd B
◌>>=◌ m f s = elim (m s) [ ok a s' ↦ f a s' | fault ↦ fault | out_of_fuel ↦ out_of_fuel ]

abbrev pub ◌>>◌ : {B : Type 0} → Cmd (Unit {0}) → Cmd B → Cmd B
m >> k = m >>= λ _. k

-- A change of the globals or of the memory.
abbrev pub modify : (Machine → Machine) → Cmd (Unit {0})
modify f s = ok tt (f s)

abbrev pub gets : {A : Type 0} → (Machine → A) → Cmd A
gets f s = ok (f s) s

abbrev pub write {ℓ} : {A : Type ℓ} → (ℕ → Option A) → ℕ → Option A → ℕ → Option A
write m p x q = if p == q then x else m q

abbrev pub or_fault : {A : Type 0} → Option A → Cmd A
or_fault none s = fault
or_fault (some a) s = ok a s

abbrev pub load_node : ℕ → Cmd TreeNode
load_node p s = or_fault (s.node_at p) s

abbrev pub load_item : ℕ → Cmd Item
load_item p s = or_fault (s.item_at p) s

-- An assignment to a field reads the structure first, so it faults where there is none.
abbrev pub update_node : ℕ → (TreeNode → TreeNode) → Cmd (Unit {0})
update_node p f =
    load_node p >>= λ n. modify (λ s. record s { node_at = write s.node_at p (some (f n)) })

abbrev pub update_item : ℕ → (Item → Item) → Cmd (Unit {0})
update_item p f =
    load_item p >>= λ i. modify (λ s. record s { item_at = write s.item_at p (some (f i)) })

abbrev pub new_node : TreeNode → Cmd ℕ
new_node n s =
    ok s.unused (record s { node_at = write s.node_at s.unused (some n); unused = s.unused + 1 })

abbrev pub new_item : Item → Cmd ℕ
new_item i s =
    ok s.unused (record s { item_at = write s.item_at s.unused (some i); unused = s.unused + 1 })

-- `free` of an address that holds something.
abbrev pub free_node : ℕ → Cmd (Unit {0})
free_node p = load_node p >>= λ _. modify (λ s. record s { node_at = write s.node_at p none })

abbrev pub free_item : ℕ → Cmd (Unit {0})
free_item p = load_item p >>= λ _. modify (λ s. record s { item_at = write s.item_at p none })

-- The arrays of tree.h have 128 elements.
abbrev pub in_array : ℕ → Cmd (Unit {0})
in_array i s = if ltb i 128 then ok tt s else fault

abbrev pub node_of : ℕ → Cmd ℕ
node_of i = in_array i >> gets (λ s. get_or s.nodes i 0)

abbrev pub visited_of : ℕ → Cmd ℕ
visited_of i = in_array i >> gets (λ s. get_or s.visited i 0)

abbrev pub set_node_of : ℕ → ℕ → Cmd (Unit {0})
set_node_of i p = in_array i >> modify (λ s. record s { nodes = set s.nodes i p })

abbrev pub set_visited : ℕ → ℕ → Cmd (Unit {0})
set_visited i v = in_array i >> modify (λ s. record s { visited = set s.visited i v })

abbrev pub set_calculated : ℕ → ℤ → Cmd (Unit {0})
set_calculated i v = in_array i >> modify (λ s. record s { calculated = set s.calculated i v })
