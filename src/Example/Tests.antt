-- ===== src/Example/Tests.antt =====
-- example-libp.c: runs of the process at the node 9, which is no gateway.
mod Gateway
use libp.Base.{◌≡◌, refl, true, false, some, none, [], ◌∷◌, ◌*◌, ◌%◌, List}
use libp.Contiki.Plain.{plain, plain-ListLaws, plain-MembLaws}
use libp.Rime.Plain.{plain_rime}
use libp.Tree.Tests.{family}
use libp.Conn.{drawn}
use libp.Conn.Tests.{loaded, loaded-IsBooted}
use libp.Conn.Api.{open_conn, parent}
use libp.Conn.Run.{beacon_heard, announced}
use libp.Example.Lines.{expired, armed, link_found, link_lost, hello, sending}
use libp.Example.{
  Process, settling, looping, Post, et_fires, periodic_fires, handles, start, step, steps, runs,
  renew, resume, calling, lines_of,
}
use libp.Conn.Fault.{Unless}
use libp.Example.Calm.{any_faulty}
use libp.Example.Start.{IsLoaded}
use libp.Example.Output.{links, shown, sendings}
use libp.Example.Links.{Sound, runs-Sound, hello_draws}
use libp.Example.Rounds.{Period, periods, whole, undisturbed, sends_twice}

-- "Hello 205"
hello_test : hello 205 ≡ 72 ∷ 101 ∷ 108 ∷ 108 ∷ 111 ∷ 32 ∷ 50 ∷ 48 ∷ 53 ∷ []
hello_test = refl

links_test : links (link_found 6 ∷ link_lost 5 ∷ sending ∷ link_found 5 ∷ []) ≡ 6 ∷ []
unfolding links
links_test = refl

abbrev booting : Process
booting = record {
  lc = loaded;
  is_sink = 0;
  tree = family;
  place = settling;
  periodic = expired;
  et = expired;
  oldparent = 0;
  monitor = none;
  output = [];
}

booting-IsLoaded : IsLoaded booting
booting-IsLoaded = record { booted = loaded-IsBooted; silent = refl; orphan = refl; unset = refl }

abbrev day : List Post
day = handles (announced 7 16) ∷ et_fires ∷ et_fires ∷ handles beacon_heard ∷ periodic_fires ∷ []

day-any_faulty : any_faulty day ≡ false
unfolding any_faulty
day-any_faulty = refl

runs-Sound_example : Unless (any_faulty day) (runs booting day) Sound
runs-Sound_example = runs-Sound plain-ListLaws plain-MembLaws booting day booting-IsLoaded

abbrev first_period : Period
first_period = record {
  before = handles (announced 7 16) ∷ [];
  between = handles beacon_heard ∷ [];
}

abbrev next_period : Period
next_period = record { before = []; between = [] }

two-whole : whole (first_period ∷ next_period ∷ []) ≡ true
unfolding whole undisturbed
two-whole = refl

none-undisturbed : undisturbed [] ≡ true
unfolding undisturbed
none-undisturbed = refl

sends_twice_example :
    (q : Process) × (runs booting (et_fires ∷ periods (first_period ∷ next_period ∷ [])) ≡ some q)
    × (sendings q.output ≡ 4)
sends_twice_example =
    sends_twice plain-ListLaws plain-MembLaws booting [] (first_period ∷ next_period ∷ [])
      booting-IsLoaded none-undisturbed two-whole

-- The process in its loop.
abbrev turning : Process
turning = record booting {
  lc = drawn (open_conn (calling booting) 130 1 true);
  place = looping;
  periodic = armed (128 * 30);
  et = armed ((open_conn (calling booting) 130 1 true).calls % (128 * 30));
}

loop_lem : runs booting (et_fires ∷ []) ≡ some turning
unfolding runs start steps step resume renew open_conn lines_of
loop_lem = refl

hello_draws_example :
    (r : Process) × (step turning et_fires ≡ some r) × (links r.output ≡ shown (parent r.lc))
hello_draws_example =
    hello_draws plain-ListLaws plain-MembLaws booting turning (et_fires ∷ []) booting-IsLoaded
      loop_lem refl refl
