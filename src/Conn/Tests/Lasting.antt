-- ===== src/Conn/Tests/Lasting.antt =====
-- libp.c: a run of a node that was just opened.
use libp.Base.{◌≡◌, ◌==◌, refl, true, false, [], ◌∷◌, List}
use libp.Contiki.Plain.{plain, plain-ListLaws, plain-MembLaws}
use libp.Rime.Plain.{plain_rime}
use libp.Conn.{Node, retransmit}
use libp.Conn.Api.{open_conn}
use libp.Conn.Run.{Event, announced, beacon_heard, fires, run, any_divides, open_conn-Good}
use libp.Conn.Fault.{Unless}
use libp.Conn.Lasting.Calls.{keep_role, run_keeps_sinks}
use libp.Conn.Tests.{loaded, loaded-IsBooted}

abbrev fresh : Node
fresh = open_conn loaded 130 1 true

abbrev morning : List Event
morning = announced 7 16 ∷ beacon_heard ∷ fires retransmit ∷ []

morning-keep_role : keep_role morning ≡ true
unfolding keep_role
morning-keep_role = refl

morning-any_divides : any_divides morning ≡ false
unfolding any_divides
morning-any_divides = refl

run_keeps_sinks_example :
    Unless
      (any_divides morning)
      (run fresh morning)
      (λ d. ((d.rtmetric == 0) ≡ (fresh.rtmetric == 0)) × (d.is_sink ≡ fresh.is_sink))
run_keeps_sinks_example =
    run_keeps_sinks plain-ListLaws plain-MembLaws fresh morning
      (open_conn-Good plain-ListLaws plain-MembLaws loaded 130 1 true loaded-IsBooted)
      morning-keep_role
