-- ===== src/Rime/First.antt =====
-- The concrete Rime stack at the node whose address has the first byte 1 and the second byte 0.
use libp.Rime.{Rime}
use libp.Rime.Plain.{plain_rime}

instance abbrev pub first_rime : Rime
first_rime = record plain_rime { node_addr = 1 }
