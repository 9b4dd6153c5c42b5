-- ===== src/Base/Words.antt =====
-- Machine words of 64 bits as their bit patterns. `size_t`, `fsblkcnt_t` and `nlink_t` are read
-- unsigned; `ssize_t` and `off_t` are the same patterns, compared by the signed tests.
use Prim.Native.Nat.{ℕ, ◌+◌, ◌-◌, ◌*◌, ◌%◌, ◌^◌, ◌≤◌, ◌<◌}
use mathlib.Core.Path.{◌≡◌}
use mathlib.Core.Bool.{Bool}
use native.Mathlib.Omega.{arith}
use fuse_cpp_ramfs.Base.Tests.{ltb, leb}

abbrev pub word_mod : ℕ
word_mod = 2 ^ 64

unfoldable pub add64 : ℕ → ℕ → ℕ
add64 a b = (a + b) % word_mod

unfoldable pub sub64 : ℕ → ℕ → ℕ
sub64 a b = (a + (word_mod - b % word_mod)) % word_mod

unfoldable pub mul64 : ℕ → ℕ → ℕ
mul64 a b = (a * b) % word_mod

-- The signed order: adding 2^63 turns it into the order of the patterns.
abbrev pub biased : ℕ → ℕ
biased a = (a + 2 ^ 63) % word_mod

abbrev pub signed_lt : ℕ → ℕ → Bool
signed_lt a b = ltb (biased a) (biased b)

abbrev pub signed_le : ℕ → ℕ → Bool
signed_le a b = leb (biased a) (biased b)

pub sub64-lt : (a b : ℕ) → sub64 a b < word_mod
unfolding sub64
sub64-lt a b = omega arith

pub add64-lt : (a b : ℕ) → add64 a b < word_mod
unfolding add64
add64-lt a b = omega arith

pub add64_exact : (a b : ℕ) → a + b < word_mod → add64 a b ≡ a + b
unfolding add64
add64_exact a b h = omega arith

pub sub64_exact : (a b c : ℕ) → a ≡ b + c → a < word_mod → sub64 a b ≡ c
unfolding sub64
sub64_exact a b c h k = omega arith

-- What is taken away, added again.
pub sub64-add : (a b : ℕ) → (sub64 a b + b) % word_mod ≡ a % word_mod
unfolding sub64
sub64-add a b = omega arith

-- Twice the negative.
pub sub64-sub64 : (a : ℕ) → a < word_mod → sub64 0 (sub64 0 a) ≡ a
unfolding sub64
sub64-sub64 a h = omega arith

-- The sum with a negative.
pub add64-sub64 : (a b : ℕ) → b ≤ a → a < word_mod → add64 a (sub64 0 b) ≡ a - b
unfolding add64 sub64
add64-sub64 a b h k = omega arith
