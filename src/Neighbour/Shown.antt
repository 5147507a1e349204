-- ===== src/Neighbour/Shown.antt =====
-- libp-neighbour.c: what the function from addresses to rtmetrics shows of each change of the table.
use libp.Base.{
  ℕ, ◌≡◌, ◌⊎◌, refl, true, if◌then◌else◌, ◌==◌, Option, none, some, has, arith, ==_refl, ◌≤◌, subst,
}
use libp.Contiki.{Contiki, ListLaws, MembLaws}
use libp.Neighbour.{
  Neighbour, Table, write, update, unlink, find_in, find, recycle, restart, tx, tx_fail,
  set_congested, renewed, at, older,
}
use libp.Neighbour.Lookup.{find_in-some, find_in-write_unlinked}
use libp.Neighbour.Choice.{IsWorst, recycle-IsWorst}
use libp.Neighbour.Inv.{IsValid}
use libp.Neighbour.Add.{off_list, items-linked}
use libp.Neighbour.Periodic.{aged_table, older_lem, renewed_keeps}
use libp.Neighbour.View.{
  view_in, view, view_in_of_none, view_in_of_some, view_in_listed, view_in-same,
  view_in-write_unlinked, view_in-write_addr, view_in-write_new, view_in-append,
  view_in-erase_cases,
}

module _ ⦃os : Contiki⦄ where
  open os use {items, memb_alloc, list_add}

  pub view_of_none : (t : Table) (a : ℕ) → find t a ≡ none → view t a ≡ none
  unfolding find
  view_of_none t a e = view_in_of_none t.mem (items t.chain) a e

  pub view_of_some : (t : Table) (a p : ℕ) → find t a ≡ some p → view t a ≡ some (t.mem p).rtmetric
  unfolding find
  view_of_some t a p e = view_in_of_some t.mem (items t.chain) a p e

  pub found :
      (t : Table) (a p : ℕ)
      → find t a ≡ some p
      → ((t.mem p).addr ≡ a) × (has p (items t.chain) ≡ true)
  unfolding find
  found t a p e = find_in-some t.mem (items t.chain) a p e

  pub missing : (t : Table) (a : ℕ) → find t a ≡ none → find_in t.mem (items t.chain) a ≡ none
  unfolding find
  missing t a e = e

  -- A listed structure at an address that gets a new rtmetric.
  pub view-update :
      (t : Table) (a p b : ℕ) (f : Neighbour → Neighbour)
      → IsValid t
      → find t a ≡ some p
      → (f (t.mem p)).addr ≡ a
      → view (update t p f) b ≡ (if a == b then some (f (t.mem p)).rtmetric else view t b)
  view-update t a p b f i e same = ground (
    arith,
    found t a p e,
    view_in-write_addr t.mem (items t.chain) p b (f (t.mem p)) i.apart (found t a p e).1,
  )

  pub view-recycled :
      (t : Table) (a rt p b : ℕ)
      → IsValid t
      → find t a ≡ none
      → recycle t rt ≡ some p
      → view_in (write t.mem p (restart a rt (t.mem p))) (items t.chain) b
        ≡ (if a == b then some rt else if (t.mem p).addr == b then none else view t b)
  view-recycled t a rt p b i e w =
      view_in-write_new t.mem (items t.chain) p b (restart a rt (t.mem p)) i.apart
        (subst (IsWorst t rt) w (recycle-IsWorst t rt)).0 (missing t a e)

  -- No address shows more than the worst neighbour has.
  pub view-worst :
      (t : Table) (w b r : ℕ)
      → ((q : ℕ) → has q (items t.chain) ≡ true → (t.mem q).rtmetric ≤ w)
      → view t b ≡ some r
      → r ≤ w
  view-worst t w b r h e =
      let (q, on, same) = view_in_listed t.mem (items t.chain) b r e in omega (arith, h q on, same)

  -- A change that neither an address nor an rtmetric shows.
  at-view :
      (t : Table) (n : Option ℕ) (f : Neighbour → Neighbour) (b : ℕ)
      → ((x : Neighbour) → ((f x).addr ≡ x.addr) × ((f x).rtmetric ≡ x.rtmetric))
      → view (at t n f) b ≡ view t b
  at-view t none f b same = refl
  at-view t (some p) f b same =
      view_in-same t.mem (write t.mem p (f (t.mem p))) (items t.chain) b
        (λ q. ground (arith, same (t.mem p)))

  pub tx-view : (t : Table) (n : Option ℕ) (k b : ℕ) → view (tx t n k) b ≡ view t b
  unfolding tx
  tx-view t n k b = at-view t n _ b (λ x. (refl, refl))

  pub tx_fail-view : (t : Table) (n : Option ℕ) (k b : ℕ) → view (tx_fail t n k) b ≡ view t b
  unfolding tx_fail
  tx_fail-view t n k b = at-view t n _ b (λ x. (refl, refl))

  pub set_congested-view :
      (t : Table) (n : Option ℕ) (now b : ℕ) → view (set_congested t n now) b ≡ view t b
  unfolding set_congested
  set_congested-view t n now b = at-view t n _ b (λ x. (refl, refl))

  pub renewed-view : (u : Table) (p b : ℕ) → view (update u p renewed) b ≡ view u b
  renewed-view u p b =
      view_in-same u.mem (write u.mem p (renewed (u.mem p))) (items u.chain) b
        (λ q. ground (arith, renewed_keeps (u.mem p)))

  pub aged_table-view : (t : Table) (b : ℕ) → IsValid t → view (aged_table t) b ≡ view t b
  unfolding aged_table
  aged_table-view t b i =
      view_in-same t.mem (older t.mem (items t.chain)) (items t.chain) b
        (λ q. ground (arith, older_lem t.mem (items t.chain) q i.apart))

module _ ⦃os : Contiki⦄ (lists : ListLaws) (memb : MembLaws 8) where
  open os use {items, memb_alloc, list_add}

  pub view-fresh :
      (t : Table) (a rt p b : ℕ)
      → IsValid t
      → find t a ≡ none
      → (memb_alloc t.pool).0 ≡ some p
      → view_in (write t.mem p (restart a rt (t.mem p))) (items (list_add t.chain p)) b
        ≡ (if a == b then some rt else view t b)
  view-fresh t a rt p b i e alloc =
      let n = restart a rt (t.mem p) in
      let off = off_list lists memb t p i alloc in
      rw (items-linked lists memb t p i alloc) (
        ground (
          arith,
          ==_refl p,
          missing t a e,
          find_in-write_unlinked t.mem (items t.chain) a p n off,
          view_in-append (write t.mem p n) (items t.chain) p b,
          view_in-write_unlinked t.mem (items t.chain) p b n off,
        ))

  pub unlink-view :
      (u : Table) (p b : ℕ)
      → IsValid u
      → (view (unlink u p) b ≡ view u b) ⊎ (view (unlink u p) b ≡ none)
  unlink-view u p b i =
      rw (lists.items-remove u.chain p) (view_in-erase_cases u.mem (items u.chain) p b i.apart)
