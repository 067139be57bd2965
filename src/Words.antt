-- ===== src/Words.antt =====
-- The machine words of the program. `as u16` keeps the low bits, sums wrap as a release build's do
-- (no profile of the workspace turns overflow checks on), `saturating_mul` stops at the maximum.
use artzain.Prelude.{ℕ, ◌+◌, ◌-◌, ◌*◌, ◌%◌, ◌≤◌, ◌≡◌, min, arith}

abbrev pub u16_mod : ℕ
u16_mod = 65536

abbrev pub u32_mod : ℕ
u32_mod = 4294967296

abbrev pub u64_max : ℕ
u64_max = 18446744073709551615

abbrev pub u16_max : ℕ
u16_max = 65535

abbrev pub as_u16 : ℕ → ℕ
as_u16 n = n % u16_mod

abbrev pub add_u16 : ℕ → ℕ → ℕ
add_u16 a b = (a + b) % u16_mod

abbrev pub add_u32 : ℕ → ℕ → ℕ
add_u32 a b = (a + b) % u32_mod

abbrev pub sub_u32 : ℕ → ℕ → ℕ
sub_u32 a b = (a + (u32_mod - b % u32_mod)) % u32_mod

abbrev pub saturating_mul_u64 : ℕ → ℕ → ℕ
saturating_mul_u64 a b = min (a * b) u64_max

-- Inside the window of a port and its replicas nothing wraps.
pub add_u16_exact : (port i : ℕ) → port + i ≤ u16_max → add_u16 port (as_u16 i) ≡ port + i
add_u16_exact port i h = omega arith
