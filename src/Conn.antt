-- ===== src/Conn.antt =====
-- libp.h and libp.c: a node's state. `struct libp_conn` and the file's globals (the recent packets,
-- the statistics) stand in one record, since a node has one connection; the packet buffer, the
-- time and the calls that leave the program stand there too. Flags are 0 or 1.
pub mod Send
pub mod Route
pub mod Timers
pub mod Ack
pub mod Receive
pub mod Beacon
pub mod Fault
pub mod Probe
pub mod Api
pub mod Frame
pub mod Choose
pub mod Recent
pub mod Inv
pub mod Handlers
pub mod Calls
pub mod Run
pub mod Delivery
pub mod Sequence
pub mod Roles
pub mod Lasting
pub mod Margin
pub mod Overwrite
pub mod Acked
pub mod Stable
pub mod Progress
pub mod Outcome
pub mod Received
pub mod Sink
pub mod Once
pub mod Purge
pub mod Probing
pub mod Tests
use libp.Base.{
  ℕ, suc, ◌+◌, ◌-◌, ◌*◌, ◌/◌, ◌%◌, ◌==◌, Bool, if◌then◌else◌, Option, some, none, List, ◌∷◌, u8,
  u16, u32,
}
use libp.Contiki.{Contiki}
use libp.Neighbour.{Table}
use libp.Rime.{Rime}

-- ACK_FLAGS_*, MAX_MAC_REXMITS and the other constants.
abbrev pub ack_flags_congested : ℕ
ack_flags_congested = 0x80

abbrev pub ack_flags_dropped : ℕ
ack_flags_dropped = 0x40

abbrev pub ack_flags_lifetime_exceeded : ℕ
ack_flags_lifetime_exceeded = 0x20

abbrev pub ack_flags_rtmetric_needs_update : ℕ
ack_flags_rtmetric_needs_update = 0x10

abbrev pub num_recent_packets : ℕ
num_recent_packets = 16

abbrev pub max_hoplim : ℕ
max_hoplim = 15

abbrev pub rtmetric_sink : ℕ
rtmetric_sink = 0

abbrev pub rtmetric_max : ℕ
rtmetric_max = 511

abbrev pub significant_rtmetric_parent_change : ℕ
significant_rtmetric_parent_change = 8 + 8 / 2

abbrev pub max_mac_rexmits : ℕ
max_mac_rexmits = 2

abbrev pub max_ack_mac_rexmits : ℕ
max_ack_mac_rexmits = 5

abbrev pub min_available_queue_entries : ℕ
min_available_queue_entries = 4

abbrev pub max_rexmits_limit : ℕ
max_rexmits_limit = 31

abbrev pub proactive_probing_rexmits : ℕ
proactive_probing_rexmits = 15

abbrev pub rebroadcast_time : ℕ
rebroadcast_time = 10

abbrev pub beaconing_period : ℕ
beaconing_period = 30

-- `rimeaddr_null`, and the size of `struct data_msg_hdr` and of `struct ack_msg`.
abbrev pub addr_null : ℕ
addr_null = 0

abbrev pub header_size : ℕ
header_size = 4

-- The callback timers of a connection, and the functions that they call.
pub data TimerName : Type 0 where
  retransmission beacon proactive_probing neighbour_periodic : TimerName

pub data Callback : Type 0 where
  retransmit retransmit_not_sent send_beacon probe age_neighbours : Callback

-- `struct recent_packet`; an entry whose connection is NULL is `none`.
pub record RecentPacket : Type 0 where
  pub originator : ℕ
  pub eseqno : ℕ

-- The statistics, each a `uint32_t`.
pub record Stats : Type 0 where
  pub foundroute : ℕ
  pub newparent : ℕ
  pub routelost : ℕ
  pub acksent : ℕ
  pub datasent : ℕ
  pub datarecv : ℕ
  pub ackrecv : ℕ
  pub badack : ℕ
  pub duprecv : ℕ
  pub qdrop : ℕ
  pub rtdrop : ℕ
  pub ttldrop : ℕ
  pub ackdrop : ℕ
  pub timedout : ℕ

module _ ⦃os : Contiki⦄ ⦃rime : Rime⦄ where
  open os use {clock_second}
  open rime use {Buf, Queue, random_rand, channel_check_rate, queuebuf_num, packet_id_bits}

  -- The calls by which the node acts on the world.
  pub data Effect : Type 0 where
    unicast_send : Buf → (to : ℕ) → Effect
    broadcast_send : Buf → Effect
    deliver : (originator seqno hops : ℕ) → Effect
    ctimer_set : TimerName → (interval : ℕ) → Callback → Effect
    ctimer_stop : TimerName → Effect
    announcement_register : (id : ℕ) → Effect
    announcement_set_value : ℕ → Effect
    announcement_bump : Effect
    announcement_remove : Effect
    unicast_open : (channel : ℕ) → Effect
    broadcast_open : (channel : ℕ) → Effect
    channel_set_attributes : (channel : ℕ) → Effect
    unicast_close : Effect
    broadcast_close : Effect

  pub record Node : Type 0 where
    -- `struct libp_conn`
    pub neighbour_list : Table
    pub send_queue : Queue
    pub parent : ℕ
    pub current_parent : ℕ
    pub rtmetric : ℕ
    pub seqno : ℕ
    pub eseqno : ℕ
    pub sending : ℕ
    pub transmissions : ℕ
    pub max_rexmits : ℕ
    pub is_router : ℕ
    pub is_sink : ℕ
    pub beacon_period : ℕ
    pub send_time : ℕ
    -- whether `cb->recv` is set
    pub has_recv : Bool
    -- the globals
    pub recent_packets : List (Option RecentPacket)
    pub recent_packet_ptr : ℕ
    pub stats : Stats
    -- the packet buffer, `clock_time()`, the number of calls whose outcome the environment decides,
    -- and the calls made, newest first
    pub packetbuf : Buf
    pub clock_time : ℕ
    pub calls : ℕ
    pub effects : List Effect

  abbrev pub emit : Effect → Node → Node
  emit e n = record n { effects = e ∷ n.effects }

  abbrev pub count : (Stats → Stats) → Node → Node
  count f n = record n { stats = f n.stats }

  abbrev pub on_buf : (Buf → Buf) → Node → Node
  on_buf f n = record n { packetbuf = f n.packetbuf }

  -- `random_rand()`: the number drawn, and the node after the call.
  abbrev pub draw : Node → ℕ
  draw n = random_rand n.calls

  abbrev pub drawn : Node → Node
  drawn n = record n { calls = n.calls + 1 }

  -- REXMIT_TIME, MAX_SENDING_QUEUE.
  abbrev pub rexmit_time : ℕ
  rexmit_time = clock_second * 32 / channel_check_rate

  abbrev pub max_sending_queue : ℕ
  max_sending_queue = 3 * queuebuf_num / 4

  -- FORWARD_PACKET_LIFETIME_BASE * k
  abbrev pub forward_lifetime : ℕ → ℕ
  forward_lifetime k = rexmit_time * 2 * k
