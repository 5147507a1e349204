-- ===== src/Rime.antt =====
-- What libp.c calls in Contiki's Rime stack and kernel: the packet buffer with its attributes, the
-- packet queue and its queue buffers, random numbers, and the configuration. They stand in a git
-- submodule and are arguments of the model. A call whose outcome lies with the environment takes
-- the number of such calls before it.
use libp.Base.{
  ℕ, ◌+◌, ◌-◌, ◌*◌, ◌/◌, ◌≤◌, ◌<◌, ◌≡◌, ◌≢◌, Bool, true, false, Option, none, some, List, [], ◌∷◌,
  ◌++◌, length, tail, head?, ◌==◌, if◌then◌else◌, u16,
}
pub mod Plain
pub mod First

-- The packet attributes and addresses that the program uses.
pub data Attr : Type 0 where
  packet_id packet_type reliable ereliable max_mac_transmissions epacket_id hops ttl max_rexmit :
      Attr

pub data AddrAttr : Type 0 where
  sender esender receiver : AddrAttr

abbrev pub attr_eq : Attr → Attr → Bool
attr_eq packet_id packet_id = true
attr_eq packet_type packet_type = true
attr_eq reliable reliable = true
attr_eq ereliable ereliable = true
attr_eq max_mac_transmissions max_mac_transmissions = true
attr_eq epacket_id epacket_id = true
attr_eq hops hops = true
attr_eq ttl ttl = true
attr_eq max_rexmit max_rexmit = true
attr_eq k j = false

abbrev pub addr_eq : AddrAttr → AddrAttr → Bool
addr_eq sender sender = true
addr_eq esender esender = true
addr_eq receiver receiver = true
addr_eq k j = false

-- `struct data_msg_hdr` and `struct ack_msg`, which have the same four bytes.
pub record Header : Type 0 where
  pub flags : ℕ
  pub dummy : ℕ
  pub rtmetric : ℕ

pub record Rime : Type 1 where
  pub Buf : Type 0
  pub attr : Buf → Attr → ℕ
  pub set_attr : Buf → Attr → ℕ → Buf
  pub addr : Buf → AddrAttr → ℕ
  pub set_addr : Buf → AddrAttr → ℕ → Buf
  pub clear : Buf → Buf
  pub datalen : Buf → ℕ
  pub totlen : Buf → ℕ
  -- the string at `packetbuf_dataptr()`, as character codes, read and written there
  pub text : Buf → List ℕ
  pub set_text : Buf → List ℕ → Buf
  pub set_datalen : Buf → ℕ → Buf
  pub hdralloc : Buf → ℕ → Buf
  pub hdrreduce : Buf → ℕ → Buf
  -- the first four bytes at `packetbuf_dataptr()`, read and written through `memcpy`
  pub header : Buf → Header
  pub set_header : Buf → Header → Buf
  -- `packetbuf_copyfrom` of a beacon that carries the given rtmetric
  pub copy_beacon : Buf → ℕ → Buf
  pub Queuebuf : Type 0
  pub to_packetbuf : Queuebuf → Buf
  pub queuebuf_new : (call : ℕ) → Buf → Option Queuebuf
  pub Item : Type 0
  pub queuebuf : Item → Option Queuebuf
  pub Queue : Type 0
  pub new_queue : Queue
  pub first : Queue → Option Item
  pub len : Queue → ℕ
  pub enqueue : (call : ℕ) → Queue → Buf → (lifetime : ℕ) → Bool × Queue
  pub dequeue : Queue → Queue
  pub random_rand : (call : ℕ) → ℕ
  pub node_addr : ℕ
  pub type_data : ℕ
  pub type_ack : ℕ
  pub packet_id_bits : ℕ
  pub channel_check_rate : ℕ
  pub queuebuf_num : ℕ

-- The documented behaviour of net/packetbuf.h: an attribute is a 16-bit field of its own, and so
-- is an address; the accessors of one kind do not touch the other, the data or its length.
pub record BufLaws ⦃rime : Rime⦄ : Type 0 where
  pub attr-set_attr :
      (b : rime.Buf) (k j : Attr) (v : ℕ)
      → rime.attr (rime.set_attr b k v) j ≡ (if attr_eq k j then u16 v else rime.attr b j)
  pub attr-set_addr :
      (b : rime.Buf) (k : AddrAttr) (a : ℕ) (j : Attr)
      → rime.attr (rime.set_addr b k a) j ≡ rime.attr b j
  pub attr-set_header :
      (b : rime.Buf) (h : Header) (j : Attr) → rime.attr (rime.set_header b h) j ≡ rime.attr b j
  pub attr-hdralloc :
      (b : rime.Buf) (k : ℕ) (j : Attr) → rime.attr (rime.hdralloc b k) j ≡ rime.attr b j
  pub addr-set_addr :
      (b : rime.Buf) (k j : AddrAttr) (a : ℕ)
      → rime.addr (rime.set_addr b k a) j ≡ (if addr_eq k j then a else rime.addr b j)
  pub addr-set_attr :
      (b : rime.Buf) (k : Attr) (v : ℕ) (j : AddrAttr)
      → rime.addr (rime.set_attr b k v) j ≡ rime.addr b j
  pub header-set_header : (b : rime.Buf) (h : Header) → rime.header (rime.set_header b h) ≡ h
  pub header-set_attr :
      (b : rime.Buf) (k : Attr) (v : ℕ) → rime.header (rime.set_attr b k v) ≡ rime.header b
  pub header-set_addr :
      (b : rime.Buf) (k : AddrAttr) (a : ℕ) → rime.header (rime.set_addr b k a) ≡ rime.header b

-- The same, of the data: a queue buffer keeps the packet that it was made from, and taking a header
-- off a packet that has one shortens the data and touches nothing else.
pub record DataLaws ⦃rime : Rime⦄ : Type 0 where
  pub to_packetbuf-new :
      (call : ℕ) (b : rime.Buf) (q : rime.Queuebuf)
      → rime.queuebuf_new call b ≡ some q
      → rime.to_packetbuf q ≡ b
  pub datalen-hdrreduce :
      (b : rime.Buf) (k : ℕ)
      → k ≤ rime.datalen b
      → rime.datalen (rime.hdrreduce b k) ≡ rime.datalen b - k
  pub attr-hdrreduce :
      (b : rime.Buf) (k : ℕ) (j : Attr) → rime.attr (rime.hdrreduce b k) j ≡ rime.attr b j
  pub addr-hdrreduce :
      (b : rime.Buf) (k : ℕ) (j : AddrAttr) → rime.addr (rime.hdrreduce b k) j ≡ rime.addr b j

-- The documented behaviour of net/packetqueue.h: the first packet is taken off, the queue is
-- empty when it has no first packet, and a packet that is accepted makes the queue one longer.
pub record QueueLaws ⦃rime : Rime⦄ : Type 0 where
  pub len-new_queue : rime.len rime.new_queue ≡ 0
  pub len-dequeue : (q : rime.Queue) → rime.len (rime.dequeue q) ≡ rime.len q - 1
  pub first-none : (q : rime.Queue) → rime.first q ≡ none → rime.len q ≡ 0
  pub len-none : (q : rime.Queue) → rime.len q ≡ 0 → rime.first q ≡ none
  pub len-enqueue :
      (call : ℕ) (q : rime.Queue) (b : rime.Buf) (l : ℕ)
      → rime.len (rime.enqueue call q b l).1
        ≡ rime.len q + (if (rime.enqueue call q b l).0 then 1 else 0)

-- The same, of the total length, which only the calls that make room for a header or set the data
-- change, and of the two calls that touch the headers.
pub record LengthLaws ⦃rime : Rime⦄ : Type 0 where
  pub totlen-set_attr :
      (b : rime.Buf) (k : Attr) (v : ℕ) → rime.totlen (rime.set_attr b k v) ≡ rime.totlen b
  pub totlen-set_header :
      (b : rime.Buf) (h : Header) → rime.totlen (rime.set_header b h) ≡ rime.totlen b
  pub addr-hdralloc :
      (b : rime.Buf) (k : ℕ) (j : AddrAttr) → rime.addr (rime.hdralloc b k) j ≡ rime.addr b j
  pub addr-set_header :
      (b : rime.Buf) (h : Header) (j : AddrAttr) → rime.addr (rime.set_header b h) j ≡ rime.addr b j

-- The documented behaviour of `packetqueue_enqueue_packetbuf` and `queuebuf_to_packetbuf`: a packet
-- that an empty queue takes is its first, and comes back from its queue buffer with its attributes,
-- its addresses and its length.
pub record FifoLaws ⦃rime : Rime⦄ : Type 0 where
  pub first-enqueue :
      (call : ℕ) (q : rime.Queue) (b : rime.Buf) (l : ℕ)
      → rime.first q ≡ none
      → (rime.enqueue call q b l).0 ≡ true
      → (i : rime.Item) × (k : rime.Queuebuf) × (rime.first (rime.enqueue call q b l).1 ≡ some i)
        × (rime.queuebuf i ≡ some k)
        × ((j : Attr) → rime.attr (rime.to_packetbuf k) j ≡ rime.attr b j)
        × ((j : AddrAttr) → rime.addr (rime.to_packetbuf k) j ≡ rime.addr b j)
        × (rime.totlen (rime.to_packetbuf k) ≡ rime.totlen b)

-- What the configuration has to meet: packet ids are bytes of at least one bit, and the two types
-- of packets differ.
pub record ConfigLaws ⦃rime : Rime⦄ : Type 0 where
  pub some_bits : 0 < rime.packet_id_bits
  pub byte_bits : rime.packet_id_bits ≤ 8
  pub types_differ : rime.type_data ≢ rime.type_ack
