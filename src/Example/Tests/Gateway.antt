-- ===== src/Example/Tests/Gateway.antt =====
-- example-libp.c: a run of the processes at the gateway.
use libp.Base.{◌≡◌, refl, true, false, none, [], ◌∷◌, List, replicate}
use libp.Contiki.Plain.{plain, plain-ListLaws, plain-MembLaws}
use libp.Rime.Plain.{no_packet}
use libp.Rime.First.{first_rime}
use libp.Tree.Tests.{family}
use libp.Neighbour.Tests.{young, two_of_age-IsValid}
use libp.Conn.{Node}
use libp.Conn.Tests.{no_stats}
use libp.Conn.Run.{beacon_heard, announced}
use libp.Example.Lines.{expired}
use libp.Example.{
  Process, settling, Post, et_fires, periodic_fires, wait_fires, monitor_fires, handles, runs,
}
use libp.Conn.Fault.{Unless}
use libp.Example.Calm.{any_faulty}
use libp.Example.Start.{IsLoaded}
use libp.Example.Gateway.{all_keep, gateway_lasts}

abbrev loaded : Node
loaded = record {
  neighbour_list = young;
  send_queue = [];
  parent = 0;
  current_parent = 0;
  rtmetric = 0;
  seqno = 0;
  eseqno = 0;
  sending = 0;
  transmissions = 0;
  max_rexmits = 0;
  is_router = 0;
  is_sink = 0;
  beacon_period = 0;
  send_time = 0;
  has_recv = true;
  recent_packets = replicate 16 none;
  recent_packet_ptr = 0;
  stats = no_stats;
  packetbuf = no_packet;
  clock_time = 0;
  calls = 0;
  effects = [];
}

abbrev booting : Process
booting = record {
  lc = loaded;
  is_sink = 0;
  tree = family;
  place = settling;
  periodic = expired;
  et = expired;
  oldparent = 0;
  monitor = none;
  output = [];
}

booting-IsLoaded : IsLoaded booting
booting-IsLoaded = record {
  booted = record {
    metrics = (two_of_age-IsValid 3).metrics;
    places = refl;
    index = refl;
    transmissions = refl;
    max_rexmits = refl;
  };
  silent = refl;
  orphan = refl;
  unset = refl;
}

abbrev day : List Post
day =
    handles (announced 7 16)
    ∷ et_fires
    ∷ wait_fires
    ∷ et_fires
    ∷ handles beacon_heard
    ∷ periodic_fires
    ∷ monitor_fires
    ∷ []

day-all_keep : all_keep day ≡ true
unfolding all_keep
day-all_keep = refl

day-any_faulty : any_faulty day ≡ false
unfolding any_faulty
day-any_faulty = refl

gateway_lasts_example :
    Unless (any_faulty day) (runs booting day) (λ q. (q.lc.rtmetric ≡ 0) × (q.lc.is_sink ≡ 1))
gateway_lasts_example =
    gateway_lasts plain-ListLaws plain-MembLaws booting day booting-IsLoaded refl day-all_keep
