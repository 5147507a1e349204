-- ===== src/Tree/Clear.antt =====
-- `dfs_clear` of tree.c at a node that has a child.
use libp.Base.{
  ℕ, zero, suc, ◌==◌, ltb, ◌≡◌, ◌≢◌, refl, subst, some, none, ==_refl, ==_iff, Option-cases,
  Bool-cases, inl, inr,
}
use libp.Memory.{
  Machine, TreeNode, Run, Cmd, ok, fault, out_of_fuel, free_node, set_node_of, load_node,
  visited_of,
}
use libp.Tree.{dfs_clear, clear_loop, visit}

-- If the call returns, `Q` holds of what it returns.
abbrev pub Ends : {A : Type 0} → (A → Machine → Type 0) → Run A → Type 0
Ends Q (ok a s) = Q a s
Ends Q fault = Unit {0}
Ends Q out_of_fuel = Unit {0}

abbrev Anything : {A : Type 0} → A → Machine → Type 0
Anything a s = Unit {0}

Ends-bind :
    {A B : Type 0} (R : A → Machine → Type 0) (Q : B → Machine → Type 0) (r : Run A) (f : A → Cmd B)
    → Ends R r
    → ((a : A) (s : Machine) → R a s → Ends Q (f a s))
    → Ends Q (elim r [ ok a s ↦ f a s | fault ↦ fault | out_of_fuel ↦ out_of_fuel ])
Ends-bind R Q (ok a s) f h g = g a s h
Ends-bind R Q fault f h g = tt
Ends-bind R Q out_of_fuel f h g = tt

Ends-Anything : {A : Type 0} (r : Run A) → Ends Anything r
Ends-Anything (ok a s) = tt
Ends-Anything fault = tt
Ends-Anything out_of_fuel = tt

abbrev Freed : ℕ → Unit {0} → Machine → Type 0
Freed n u s = s.node_at n ≡ none

set_node_of-Freed : (i n : ℕ) (s : Machine) → Freed n tt s → Ends (Freed n) (set_node_of i 0 s)
set_node_of-Freed i n s h = elim (Bool-cases (ltb i 128)) [
  | inl e ↦ rw (e, Ends) h
  | inr e ↦ rw (e, Ends) tt
]

free_node-Freed : (n : ℕ) (s : Machine) → Ends (Freed n) (free_node n s)
free_node-Freed n s = elim (Option-cases (s.node_at n)) [
  | inl e ↦ rw (e, Ends) tt
  | inr (x, e) ↦ rw (e, ==_refl n, Ends) refl
]

-- A call of `dfs_clear` that returns has freed its node.
dfs_clear-Freed : (k n : ℕ) (s : Machine) → Ends (Freed n) (dfs_clear k n s)
unfolding dfs_clear
dfs_clear-Freed zero n s = tt
dfs_clear-Freed (suc k) n s =
    Ends-bind Anything (Freed n) (load_node n s) _ (Ends-Anything _) λ x s1 _.
      Ends-bind Anything (Freed n) (visit x.id s1) _ (Ends-Anything _) λ _ s2 _.
        Ends-bind Anything (Freed n) (clear_loop k x.firstchild s2) _ (Ends-Anything _) λ _ s3 _.
          Ends-bind (Freed n) (Freed n) (free_node n s3) _ (free_node-Freed n s3)
            λ _ s4 h. set_node_of-Freed x.id n s4 h

abbrev Never : {A : Type 0} → A → Machine → Type 0
Never a s = ⊥

-- The loop over the children reads a child that it has just freed.
clear_loop-Never : (k c : ℕ) (s : Machine) → c ≢ 0 → Ends Never (clear_loop k c s)
unfolding clear_loop
clear_loop-Never zero c s h = tt
clear_loop-Never (suc k) c s h = elim (Bool-cases (c == 0)) [
  | inl e ↦ absurd (h ((==_iff c 0).0 e))
  | inr e ↦ rw e (
      Ends-bind Anything Never (load_node c s) _ (Ends-Anything _) λ x s1 _.
        Ends-bind Anything Never (visited_of x.id s1) _ (Ends-Anything _) λ _ s2 _.
          Ends-bind (Freed c) Never (dfs_clear k c s2) _ (dfs_clear-Freed k c s2)
            λ _ s3 gone. rw (gone, Ends) tt)
]

dfs_clear-Never :
    (k n : ℕ) (s : Machine) (x : TreeNode)
    → s.node_at n ≡ some x
    → x.firstchild ≢ 0
    → Ends Never (dfs_clear k n s)
unfolding dfs_clear
dfs_clear-Never zero n s x e h = tt
dfs_clear-Never (suc k) n s x e h =
    rw (e, Ends)
      (Ends-bind Anything Never (visit x.id s) _ (Ends-Anything _) λ _ s2 _.
        Ends-bind Never Never (clear_loop k x.firstchild s2) _
          (clear_loop-Never k x.firstchild s2 h) λ _ s3 no. absurd no)

-- `dfs_clear` of a node that has a child never returns, whatever the memory and the fuel.
pub dfs_clear_never_returns :
    (k n : ℕ) (s : Machine) (x : TreeNode)
    → s.node_at n ≡ some x
    → x.firstchild ≢ 0
    → (s' : Machine) → dfs_clear k n s ≢ ok tt s'
dfs_clear_never_returns k n s x e h s' r = subst (Ends Never) r (dfs_clear-Never k n s x e h)
