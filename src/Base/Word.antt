-- ===== src/Base/Word.antt =====
-- The unsigned integers of C that the program uses, as numbers with the wrap-around written out.
use Prim.Native.Nat.{ℕ, ◌%◌, ◌<◌}
use native.Mathlib.Omega.{arith}

-- A conversion to `uint8_t`, `uint16_t` or `uint32_t`.
abbrev pub u8 : ℕ → ℕ
u8 n = n % 256

abbrev pub u16 : ℕ → ℕ
u16 n = n % 65536

abbrev pub u32 : ℕ → ℕ
u32 n = n % 4294967296

u8-lt : (n : ℕ) → u8 n < 256
u8-lt n = omega arith

u16-lt : (n : ℕ) → u16 n < 65536
u16-lt n = omega arith
