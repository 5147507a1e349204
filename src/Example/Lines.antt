-- ===== src/Example/Lines.antt =====
-- example-libp.c: the bytes of an address, the lines that are printed and the etimers. A line is a
-- constructor with the numbers in it. The first byte of an address is its low one. An etimer is
-- expired when it was never set or its time is over, and `etimer_expired` tells which it is.
use libp.Base.{ℕ, ◌+◌, ◌/◌, ◌%◌, ◌==◌, Bool, true, false, if◌then◌else◌, ltb, List, [], ◌∷◌, ◌++◌}
use libp.Conn.{addr_null}

-- `u8[0]` and `u8[1]` of an address.
abbrev pub low : ℕ → ℕ
low a = a % 256

abbrev pub high : ℕ → ℕ
high a = a / 256 % 256

pub data Line : Type 0 where
  i_am_sink sending hi_from_sink : Line
  link_lost link_found : ℕ → Line
  got : (low high seqno hops len : ℕ) → (text : List ℕ) → Line

pub data Etimer : Type 0 where
  expired : Etimer
  armed : (interval : ℕ) → Etimer

abbrev pub etimer_expired : Etimer → Bool
etimer_expired expired = true
etimer_expired (armed k) = false

-- `%d` of a byte, and the text "Hello %d".
abbrev pub decimal : ℕ → List ℕ
decimal n =
    if ltb n 10
    then (n + 48) ∷ []
    else if ltb n 100
    then (n / 10 + 48) ∷ (n % 10 + 48) ∷ []
    else (n / 100 + 48) ∷ (n / 10 % 10 + 48) ∷ (n % 10 + 48) ∷ []

abbrev pub hello : ℕ → List ℕ
hello n = 72 ∷ 101 ∷ 108 ∷ 108 ∷ 111 ∷ 32 ∷ decimal n

-- The lines that tell of a new parent, newest first.
abbrev pub link_lines : (oldparent parent : ℕ) → List Line
link_lines oldparent parent =
    if parent == oldparent
    then []
    else (if parent == addr_null then [] else link_found (low parent) ∷ [])
      ++ (if oldparent == addr_null then [] else link_lost (low oldparent) ∷ [])
