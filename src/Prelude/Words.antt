-- ===== src/Prelude/Words.antt =====
-- Unsigned machine words with their wrap-around: `size_t` and `uint32_t`.
use Prim.Native.Nat.{ℕ, ◌+◌, ◌-◌, ◌*◌, ◌%◌, ◌^◌}

abbrev pub word64 : ℕ
word64 = 2 ^ 64

abbrev pub word32 : ℕ
word32 = 2 ^ 32

-- `a + b`, `a - b` and `a * b` of `size_t`.
abbrev pub add64 : ℕ → ℕ → ℕ
add64 a b = (a + b) % word64

abbrev pub sub64 : ℕ → ℕ → ℕ
sub64 a b = (a + word64 - b) % word64

abbrev pub mul64 : ℕ → ℕ → ℕ
mul64 a b = (a * b) % word64

-- `a + b` of `uint32_t`.
abbrev pub add32 : ℕ → ℕ → ℕ
add32 a b = (a + b) % word32
