-- ===== src/Neighbour/Remove.antt =====
-- libp-neighbour.c: `libp_neighbour_list_remove` and `libp_neighbour_list_purge`.
use libp.Base.{
  has-erase, ℕ, zero, suc, ◌≡◌, ◌≢◌, ◌⊎◌, ◌+◌, inl, inr, refl, ◌∙◌, ap, ◌==◌, false, if◌then◌else◌,
  none, some, List, [], ◌∷◌, has, erase, tail, head?, length, arith, ◌<◌,
}
use libp.Contiki.{Contiki, ListLaws, MembLaws}
use libp.Neighbour.{Neighbour, Table, find_in, find, unlink, remove, purge_loop, purge}
use libp.Neighbour.Lookup.{Apart, find_in-some, find_in-erase, Apart-erase}
use libp.Neighbour.Inv.{IsValid}

module _ ⦃os : Contiki⦄ where
  open os use {items, allocated}

  find_in-erase_self :
      (m : ℕ → Neighbour) (ps : List ℕ) (a p : ℕ)
      → Apart m ps
      → find_in m ps a ≡ some p
      → find_in m (erase p ps) a ≡ none
  unfolding find_in
  find_in-erase_self m [] a p d e = refl
  find_in-erase_self m (q ∷ ps) a p d e =
      ground (arith, find_in-erase m ps a p, find_in-erase_self m ps a p d.1, find_in-some m ps a p)

  find_in-erase_ne :
      (m : ℕ → Neighbour) (ps : List ℕ) (b p : ℕ)
      → (m p).addr ≢ b
      → find_in m (erase p ps) b ≡ find_in m ps b
  unfolding find_in
  find_in-erase_ne m [] b p h = refl
  find_in-erase_ne m (q ∷ ps) b p h = ground (arith, find_in-erase_ne m ps b p h)

module _ ⦃os : Contiki⦄ (lists : ListLaws) (memb : MembLaws 8) where
  open os use {items, allocated}

  pub unlink-IsValid : (t : Table) (p : ℕ) → IsValid t → IsValid (unlink t p)
  unlink-IsValid t p i = record {
    held = λ q on. ground (
      arith,
      lists.items-remove t.chain p,
      has-erase p q (items t.chain),
      memb.allocated-free t.pool p q,
      i.held q,
    );
    within = λ q on.
        ground (arith, lists.items-remove t.chain p, has-erase p q (items t.chain), i.within q);
    apart = rw (lists.items-remove t.chain p) (Apart-erase t.mem (items t.chain) p i.apart);
    metrics = i.metrics;
  }

  pub remove_cases :
      (t : Table) (a : ℕ)
      → ((find t a ≡ none) × (remove t a ≡ t))
        ⊎ ((p : ℕ) × (find t a ≡ some p) × (remove t a ≡ unlink t p))
  unfolding remove
  remove_cases t a = ground arith

  pub remove-IsValid : (t : Table) (a : ℕ) → IsValid t → IsValid (remove t a)
  remove-IsValid t a i = elim (remove_cases t a) [
    | inl (e, r) ↦ rw r i
    | inr (p, e, r) ↦ rw r (unlink-IsValid t p i)
  ]

  find-unlink_self :
      (t : Table) (a p : ℕ) → IsValid t → find t a ≡ some p → find (unlink t p) a ≡ none
  unfolding find
  find-unlink_self t a p i e =
      rw (lists.items-remove t.chain p) (find_in-erase_self t.mem (items t.chain) a p i.apart e)

  find-unlink_ne :
      (t : Table) (a b p : ℕ) → find t a ≡ some p → a ≢ b → find (unlink t p) b ≡ find t b
  unfolding find
  find-unlink_ne t a b p e h = rw (lists.items-remove t.chain p) (
      find_in-erase_ne t.mem (items t.chain) b p
        (ground (arith, find_in-some t.mem (items t.chain) a p e)))

  -- After `libp_neighbour_list_remove` of an address from a valid table that address is not found,
  -- and every other one is found as before.
  find-remove :
      (t : Table) (a b : ℕ) → IsValid t → find (remove t a) b ≡ (if a == b then none else find t b)
  find-remove t a b i = elim (remove_cases t a) [
    | inl (e, r) ↦ rw r (ground (arith, e))
    | inr (p, e, r) ↦ rw r (ground (arith, find-unlink_self t a p i e, find-unlink_ne t a b p e))
  ]

  purge_round :
      (k : ℕ) (t : Table) (p : ℕ) (ps : List ℕ)
      → items t.chain ≡ p ∷ ps
      → (os.list_pop t.chain).0 ≡ some p
      → purge_loop (suc k) t
        ≡ purge_loop k (record t { chain = (os.list_pop t.chain).1; pool = os.memb_free t.pool p })
  unfolding purge_loop
  purge_round k t p ps e first = ground arith

  -- Each round of the purge takes the first element off.
  purge_loop_lem :
      (k : ℕ) (t : Table) (ps : List ℕ)
      → items t.chain ≡ ps
      → length ps < k
      → (t' : Table) × (purge_loop k t ≡ some t')
        × (items t'.chain ≡ [])
        × (t'.mem ≡ t.mem)
        × ((q : ℕ) → allocated t'.pool q ≡ (if has q ps then false else allocated t.pool q))
  unfolding purge_loop
  purge_loop_lem zero t ps e h = absurd (omega arith)
  purge_loop_lem (suc k) t [] e h = (t, rw (e, purge_loop), e, refl, λ q. refl)
  purge_loop_lem (suc k) t (p ∷ ps) e h =
      let next : Table = record t {
        chain = (os.list_pop t.chain).1;
        pool = os.memb_free t.pool p;
      } in
      let first : (os.list_pop t.chain).0 ≡ some p = lists.pop-head t.chain ∙ ap head? e in
      let (t', run, empty, same, free) =
        purge_loop_lem k next ps (lists.items-pop t.chain ∙ ap tail e) (omega arith) in
      (
        t',
        purge_round k t p ps e first ∙ run,
        empty,
        same,
        λ q. ground (arith, free q, memb.allocated-free t.pool p q),
      )

  -- `libp_neighbour_list_purge` reaches its end with an empty list and the contents of the
  -- structures as they were, and has freed the structures that were on the list and no other.
  pub purge_lem :
      (t : Table)
      → (t' : Table) × (purge t ≡ some t')
        × (items t'.chain ≡ [])
        × (t'.mem ≡ t.mem)
        × ((q : ℕ)
            → allocated t'.pool q ≡ (if has q (items t.chain) then false else allocated t.pool q))
  unfolding purge
  purge_lem t =
      purge_loop_lem (os.list_length t.chain + 1) t (items t.chain) refl
        (omega (arith, lists.length-items t.chain))
