-- ===== src/Neighbour/Refine.antt =====
-- libp-neighbour.c: the table refines a partial function from addresses to rtmetrics, over every
-- sequence of the operations by which libp.c changes it.
use libp.Base.{
  ℕ, ◌≡◌, ◌⊎◌, inl, inr, refl, Option, none, some, List, [], ◌∷◌, arith, Bool, Option-cases, subst,
}
use libp.Contiki.{Contiki, ListLaws, MembLaws}
use libp.Neighbour.{
  Table, update, find, add, remove, restart, update_rtmetric, tx, tx_fail, set_congested, renewed,
}
use libp.Neighbour.Choice.{IsWorst, recycle-IsWorst}
use libp.Neighbour.Inv.{
  IsValid, find_self, update_rtmetric-IsValid, tx-IsValid, tx_fail-IsValid, set_congested-IsValid,
}
use libp.Neighbour.Add.{Added, known, fresh, recycled, refused, add-Added, add-IsValid}
use libp.Neighbour.Remove.{remove_cases, remove-IsValid, unlink-IsValid, purge_lem}
use libp.Neighbour.Periodic.{Rounds, periodic_run, aged_table, renewed-IsValid, aged-IsValid}
use libp.Neighbour.View.{view_in, view, view_in-erase}
use libp.Neighbour.Shown.{
  view_of_none, view_of_some, found, view-update, view-fresh, view-recycled, view-worst, tx-view,
  tx_fail-view, set_congested-view, renewed-view, unlink-view, aged_table-view,
}
use libp.Neighbour.Abstract.{
  Op, adds, removes, hears, sends, fails, congests, purges, ages, Step, added, replaced, unmoved,
  removed, heard, unheard, sent, failed, congested, purged, aged, Steps, stop, next, perform,
  performs,
}

module _ ⦃os : Contiki⦄ (lists : ListLaws) (memb : MembLaws 8) where
  open os use {items, memb_alloc, list_add}

  add-Step :
      (t : Table) (a rt : ℕ) (r : Bool × Table)
      → IsValid t
      → Added t a rt r
      → Step (view t) (adds a rt) (view r.1)
  add-Step t a rt r i (known p e f) =
      added a rt (view r.1) (λ b. rw f (view-update t a p b (restart a rt) i e refl))
  add-Step t a rt r i (fresh p e alloc f) =
      added a rt (view r.1) (λ b. rw f (view-fresh lists memb t a rt p b i e alloc))
  add-Step t a rt r i (recycled p e full w f) =
      let (on, lt, most) = subst (IsWorst t rt) w (recycle-IsWorst t rt) in
      replaced a rt (t.mem p).addr (t.mem p).rtmetric (view r.1) (view_of_none t a e)
        (view_of_some t (t.mem p).addr p (find_self t p i on)) lt
        (λ b s. view-worst t (t.mem p).rtmetric b s most)
        (λ b. rw f (view-recycled t a rt p b i e w))
  add-Step t a rt r i (refused e full w f) =
      unmoved a rt (view r.1) (view_of_none t a e)
        (λ b s. view-worst t rt b s (subst (IsWorst t rt) w (recycle-IsWorst t rt)))
        (λ b. rw f refl)

  remove-Step : (t : Table) (a : ℕ) → IsValid t → Step (view t) (removes a) (view (remove t a))
  remove-Step t a i = elim (remove_cases lists memb t a) [
    | inl (e, r) ↦ removed a (view (remove t a)) (λ b. rw r (ground (arith, view_of_none t a e)))
    | inr (p, e, r) ↦ removed a (view (remove t a)) (λ b.
        rw (r, lists.items-remove t.chain p)
          (ground (
            arith,
            found t a p e,
            view_in-erase t.mem (items t.chain) p b i.apart (found t a p e).1,
          )))
  ]

  hear-Step :
      (t : Table) (a rt : ℕ)
      → IsValid t
      → Step (view t) (hears a rt) (view (update_rtmetric t (find t a) rt))
  unfolding update_rtmetric
  hear-Step t a rt i = elim (Option-cases (find t a)) [
    | inl e ↦ rw e (unheard a rt (view t) (view_of_none t a e) (λ b. refl))
    | inr (p, e) ↦ rw e (
        heard a rt (t.mem p).rtmetric _ (view_of_some t a p e) (λ b.
          view-update t a p b (λ x. record x { rtmetric = rt; age = 0 }) i e (found t a p e).0))
  ]

  purge-Step : (t t' : Table) → items t'.chain ≡ [] → Step (view t) purges (view t')
  unfolding view_in
  purge-Step t t' e = purged (view t') (λ b. rw e refl)

  -- What the rounds of `periodic` keep of the function.
  abbrev Fades : (ℕ → Option ℕ) → Table → List ℕ → Type 0
  Fades v u ps = IsValid u × ((b : ℕ) → (view u b ≡ v b) ⊎ (view u b ≡ none))

  Fades-Rounds : (v : ℕ → Option ℕ) → Rounds (Fades v)
  Fades-Rounds v u p ps (i, h) =
      let i' = renewed-IsValid lists memb u p i in
      (
        λ young. (i', λ b. ground (arith, h b, renewed-view u p b)),
        λ old. (
          unlink-IsValid lists memb (update u p renewed) p i',
          λ b.
              ground (
                arith,
                h b,
                renewed-view u p b,
                unlink-view lists memb (update u p renewed) p b i',
              ),
        ),
      )

  chain_of_aged : (t : Table) → items (aged_table t).chain ≡ items t.chain
  unfolding aged_table
  chain_of_aged t = refl

  -- What one operation gives.
  abbrev Performs : Table → Op → Type 0
  Performs t o = (t' : Table) × (perform o t ≡ some t') × IsValid t' × Step (view t) o (view t')

  age-Performs : (t : Table) → IsValid t → Performs t ages
  unfolding perform
  age-Performs t i =
      let (t', run, (i', h)) =
        periodic_run lists memb (Fades (view t)) (Fades-Rounds (view t)) t
          (aged-IsValid lists memb t i, λ b. inl (aged_table-view t b i)) in
      (t', run, i', aged (view t') h)

  empty-IsValid : (t t' : Table) → IsValid t → items t'.chain ≡ [] → t'.mem ≡ t.mem → IsValid t'
  empty-IsValid t t' i e same = record {
    held = λ q on. ground (arith, e);
    within = λ q on. ground (arith, e);
    apart = rw e tt;
    metrics = λ q. rw same (i.metrics q);
  }

  perform-Performs : (t : Table) (o : Op) → IsValid t → Performs t o
  unfolding perform
  perform-Performs t (adds a rt) i = (
    (add t a rt).1,
    refl,
    add-IsValid lists memb t a rt i,
    add-Step t a rt (add t a rt) i (add-Added t a rt),
  )
  perform-Performs t (removes a) i =
      (remove t a, refl, remove-IsValid lists memb t a i, remove-Step t a i)
  perform-Performs t (hears a rt) i = (
    update_rtmetric t (find t a) rt,
    refl,
    update_rtmetric-IsValid t (find t a) rt i,
    hear-Step t a rt i,
  )
  perform-Performs t (sends a k) i =
      (tx t (find t a) k, refl, tx-IsValid t (find t a) k i, sent a k _ (tx-view t (find t a) k))
  perform-Performs t (fails a k) i = (
    tx_fail t (find t a) k,
    refl,
    tx_fail-IsValid t (find t a) k i,
    failed a k _ (tx_fail-view t (find t a) k),
  )
  perform-Performs t (congests a now) i = (
    set_congested t (find t a) now,
    refl,
    set_congested-IsValid t (find t a) now i,
    congested a now _ (set_congested-view t (find t a) now),
  )
  perform-Performs t purges i =
      let (t', run, empty, same, _) = purge_lem lists memb t in
      (t', run, empty-IsValid t t' i empty same, purge-Step t t' empty)
  perform-Performs t ages i = age-Performs t i

  -- From a valid table, any sequence of the operations by which libp.c changes it - additions,
  -- removals, the updates of the neighbour found at an address, purges and `periodic` - reaches
  -- its end with a valid table, and each operation changes the partial function from addresses to
  -- rtmetrics as `Step` allows: an addition sets its address, alone or in place of an address of
  -- highest rtmetric, above the new one, or changes nothing where it is unknown and no rtmetric is
  -- above the new one; a removal clears its address; a new rtmetric goes to a known address only;
  -- transmissions, failures and congestion change nothing; a purge clears all; `periodic` keeps or
  -- clears each address.
  pub performs-Steps :
      (ops : List Op) (t : Table)
      → IsValid t
      → (t' : Table) × (performs ops t ≡ some t') × IsValid t' × Steps (view t) ops (view t')
  unfolding performs
  performs-Steps [] t i = (t, refl, i, stop (view t))
  performs-Steps (o ∷ ops) t i =
      let (u, run, iu, step) = perform-Performs t o i in
      let (t', runs, i', steps) = performs-Steps ops u iu in
      (t', rw (run, performs) runs, i', next (view t) (view u) (view t') o ops step steps)
