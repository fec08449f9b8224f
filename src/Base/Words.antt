-- ===== src/Base/Words.antt =====
-- Unsigned 64-bit words: `size_t` and `uint64_t`, with their wrap-around written out.
use Prim.Native.Nat.{ℕ, ◌+◌, ◌-◌, ◌%◌, ◌^◌, ◌<◌, ◌≤◌}
use mathlib.Core.Path.{◌≡◌}
use native.Mathlib.Omega.{arith}

abbrev pub word : ℕ
word = 2 ^ 64

-- x + y and x - y of two words.
abbrev pub add64 : ℕ → ℕ → ℕ
add64 x y = (x + y) % word

abbrev pub sub64 : ℕ → ℕ → ℕ
sub64 x y = (x + word - y) % word

pub add64_exact : (x y : ℕ) → x + y < word → add64 x y ≡ x + y
add64_exact x y h = omega arith

pub sub64_exact : (x y : ℕ) → y ≤ x → x < word → sub64 x y ≡ x - y
sub64_exact x y h k = omega arith
