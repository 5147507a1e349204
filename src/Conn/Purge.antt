-- ===== src/Conn/Purge.antt =====
-- libp.c: `libp_purge`.
use libp.Base.{ℕ, ◌≡◌, ◌≢◌, refl, ap, ◌∙◌, none, some, []}
use libp.Contiki.{Contiki, ListLaws, MembLaws}
use libp.Neighbour
use libp.Neighbour.{Table}
use libp.Neighbour.Remove.{purge_lem}
use libp.Rime.{Rime}
use libp.Conn.{Node}
use libp.Conn.Api.{purge}
use libp.Conn.Route.{update_parent, update_rtmetric}
use libp.Conn.Choose.{sane_of_none, table_kept}
use libp.Conn.Frame.{update_rtmetric-Updated, update_rtmetric-Settled}

module _ ⦃os : Contiki⦄ ⦃rime : Rime⦄ where
  -- What a purge leaves of a node.
  pub record IsPurged (c c' : Node) : Type 0 where
    pub table : os.items c'.neighbour_list.chain ≡ []
    pub parent : c'.parent ≡ 0
    pub no_route : c.rtmetric ≢ 0 → c'.rtmetric ≡ 511
    pub sink : c.rtmetric ≡ 0 → c'.rtmetric ≡ 0
    pub queue : c'.send_queue ≡ c.send_queue

  find-empty : (t : Table) (a : ℕ) → os.items t.chain ≡ [] → Neighbour.find t a ≡ none
  unfolding Neighbour.find Neighbour.find_in
  find-empty t a e = rw e refl

  -- The node before its routing is updated.
  abbrev emptied : Node → Table → Node
  emptied c t = record c { neighbour_list = t; parent = 0 }

  route_after :
      (c : Node) (t : Table)
      → os.items t.chain ≡ []
      → c.rtmetric ≢ 0
      → (update_rtmetric (emptied c t)).rtmetric ≡ 511
  route_after c t e h =
      let x = emptied c t in
      let u = update_rtmetric-Updated x h in
      u.rtmetric
      ∙ sane_of_none (update_parent x) (
          ap (λ l. Neighbour.find l (update_parent x).parent) (table_kept x)
          ∙ find-empty t (update_parent x).parent e)

  emptied-IsPurged :
      (c : Node) (t : Table)
      → os.items t.chain ≡ []
      → IsPurged c (record (update_rtmetric (emptied c t)) { parent = 0 })
  emptied-IsPurged c t e =
      let s = update_rtmetric-Settled (emptied c t) in
      record {
        table = ap (λ l. os.items l.chain) s.kept.table ∙ e;
        parent = refl;
        no_route = route_after c t e;
        sink = s.sink;
        queue = s.queue;
      }

  purge-some :
      (c : Node) (t : Table)
      → Neighbour.purge c.neighbour_list ≡ some t
      → purge c ≡ some (record (update_rtmetric (emptied c t)) { parent = 0 })
  unfolding purge
  purge-some c t e = rw (e, purge) refl

module _ ⦃os : Contiki⦄ ⦃rime : Rime⦄ (lists : ListLaws) (memb : MembLaws 8) where
  -- `libp_purge` reaches its end with an empty neighbour table, no parent and the packet queue as
  -- it was; the rtmetric is then 511 if it was not 0, and 0 if it was.
  pub purge-IsPurged : (c : Node) → (c' : Node) × (purge c ≡ some c') × IsPurged c c'
  purge-IsPurged c =
      let (t, run, empty, _, _) = purge_lem lists memb c.neighbour_list in
      (
        record (update_rtmetric (emptied c t)) { parent = 0 },
        purge-some c t run,
        emptied-IsPurged c t empty,
      )
