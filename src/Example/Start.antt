-- ===== src/Example/Start.antt =====
-- example-libp.c: the start of the processes.
use libp.Base.{
  ◌≡◌, ◌∙◌, refl, arith, Bool, Bool-cases, ◌==◌, ◌&&◌, inl, inr, some, [], true, false, ◌⊎◌, ◌*◌,
}
use libp.Contiki.{Contiki, ListLaws, MembLaws}
use libp.Rime.{Rime}
use libp.Memory.{Machine}
use libp.Tree.Forest.{tree_init_returns}
use libp.Conn.Calls.{set_sink-Good, timed-Good}
use libp.Conn.Api.{open_conn, set_sink}
use libp.Conn.Beacon.Timed.{timed, set_beacon_period-timed}
use libp.Conn.Run.{IsBooted, open_conn-Good}
use libp.Example.{
  settling, Process, calling, returned, print, start_monitor, start_tree, start_gateway, settle,
  start, channel, libp_router, beaconing_period,
}
use libp.Example.Lines.{i_am_sink, low, high, expired, etimer_expired}
use libp.Example.Output.{links, sendings}
use libp.Example.Ready.{Ready, calling-Good}
use libp.Example.Calm.{Calm, Calm-trans, returned-Calm}

module _ ⦃os : Contiki⦄ ⦃rime : Rime⦄ where
  open os use {clock_second}
  open rime use {node_addr}

  abbrev pub gateway : Bool
  gateway = (low node_addr == 1) && (high node_addr == 0)

  -- What the loader leaves.
  pub record IsLoaded (p : Process) : Type 0 where
    pub booted : IsBooted p.lc
    pub silent : p.output ≡ []
    pub orphan : p.oldparent ≡ 0
    pub unset : p.periodic ≡ expired

  abbrev pub opened : Process → Process
  opened p = returned p (open_conn (calling p) channel libp_router true)

  -- The gateway's part of the start, before `tree_init`.
  abbrev pub sink : Process → Process
  sink p =
      let p1 = print i_am_sink p in
      let p2 = returned p1 (set_sink (calling p1) 1) in
      let p3 = record p2 { is_sink = 1 } in
      returned p3 (timed (calling p3) (clock_second * beaconing_period))

  sink-Ready : (p : Process) → Ready p → Ready (sink p)
  sink-Ready p g =
      let p1 = print i_am_sink p in
      let g2 = set_sink-Good (calling p1) 1 (calling-Good p1 g) in
      let p3 = record (returned p1 (set_sink (calling p1) 1)) { is_sink = 1 } in
      timed-Good (calling p3) (clock_second * beaconing_period) (calling-Good p3 g2)

  start_tree_lem :
      (p : Process) → (m : Machine) × (start_tree p ≡ some (start_monitor (record p { tree = m })))
  start_tree_lem p = let (m, e) = tree_init_returns p.tree in (m, rw (start_tree, e) refl)

  start_gateway_lem :
      (p : Process)
      → (m : Machine) × (start_gateway p ≡ some (start_monitor (record (sink p) { tree = m })))
  start_gateway_lem p =
      let p1 = print i_am_sink p in
      let p3 = record (returned p1 (set_sink (calling p1) 1)) { is_sink = 1 } in
      let period = clock_second * beaconing_period in
      let (m, e) = start_tree_lem (sink p) in
      (m, rw (start_gateway, set_beacon_period-timed (calling p3) period (omega arith)) e)

  sink-Calm : (p : Process) → Calm p (sink p)
  unfolding links sendings
  sink-Calm p =
      let p1 = print i_am_sink p in
      let c2 = set_sink (calling p1) 1 in
      let p3 = record (returned p1 c2) { is_sink = 1 } in
      let a = returned-Calm p1 c2 in
      let b = returned-Calm p3 (timed (calling p3) (clock_second * beaconing_period)) in
      record {
        place = refl;
        periodic = refl;
        et = refl;
        oldparent = refl;
        drawn = b.drawn ∙ a.drawn;
        sent = b.sent ∙ a.sent;
      }

  settle-Calm : (p q : Process) → Calm p q → Calm (settle p) (settle q)
  settle-Calm p q c = ground arith

  monitor-Calm :
      (p q : Process) (m : Machine) → Calm p q → Calm p (start_monitor (record q { tree = m }))
  monitor-Calm p q m c = ground arith

  calling-IsBooted : (p : Process) → IsBooted p.lc → IsBooted (calling p)
  calling-IsBooted p b = ground arith

  pub start_at_gateway :
      (p : Process)
      → gateway ≡ true
      → (m : Machine) × (start p
          ≡ some (settle (start_monitor (record (sink (opened p)) { tree = m }))))
  unfolding start
  start_at_gateway p y = let (m, e) = start_gateway_lem (opened p) in (m, rw (y, start, e) refl)

  -- The two ways to start.
  start_cases :
      (p : Process)
      → (start p ≡ some (settle (opened p)))
        ⊎ ((m : Machine) × (start p
              ≡ some (settle (start_monitor (record (sink (opened p)) { tree = m })))))
  unfolding start
  start_cases p = elim (Bool-cases gateway) [
    | inl y ↦ inr (start_at_gateway p y)
    | inr n ↦ inl (rw n refl)
  ]

module _ ⦃os : Contiki⦄ ⦃rime : Rime⦄ (lists : ListLaws) (memb : MembLaws 8) where
  -- The processes start.
  pub record Started (p q : Process) : Type 0 where
    pub ready : Ready q
    pub place : q.place ≡ settling
    pub et : etimer_expired q.et ≡ false
    pub calm : Calm (settle p) q

  pub start-Started : (p : Process) → IsLoaded p → (q : Process) × (start p ≡ some q) × Started p q
  start-Started p l =
      let g1 =
        open_conn-Good lists memb (calling p) channel libp_router true
          (calling-IsBooted p l.booted) in
      let opens = returned-Calm p (open_conn (calling p) channel libp_router true) in
      elim (start_cases p) [
        | inl e ↦
            (_, e, record { ready = g1; place = refl; et = refl; calm = settle-Calm p _ opens })
        | inr (m, e) ↦ (
          _,
          e,
          record {
            ready = sink-Ready (opened p) g1;
            place = refl;
            et = refl;
            calm =
                settle-Calm p _
                  (monitor-Calm p (sink (opened p)) m (Calm-trans opens (sink-Calm (opened p))));
          },
        )
      ]
