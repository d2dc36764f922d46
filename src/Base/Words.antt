-- ===== src/Base/Words.antt =====
-- size_t: 64-bit words, with the wrap-around written out.
use Prim.Native.Nat.{ℕ, ◌+◌, ◌-◌, ◌%◌, ◌^◌, ◌≤◌, ◌<◌}
use mathlib.Core.Path.{◌≡◌}
use mathlib.Core.Logic.{◌≢◌}
use native.Mathlib.Nat.{add-mod, zero-mod}
use native.Mathlib.Omega.{arith}

abbrev pub size_mod : ℕ
size_mod = 2 ^ 64

unfoldable pub add_size : ℕ → ℕ → ℕ
add_size a b = (a + b) % size_mod

unfoldable pub sub_size : ℕ → ℕ → ℕ
sub_size a b = (a + size_mod - b) % size_mod

pub add_size-eq : (a b : ℕ) → a + b < size_mod → add_size a b ≡ a + b
unfolding add_size
add_size-eq a b h = omega arith

pub sub_size-eq : (a b : ℕ) → a < size_mod → b ≤ a → sub_size a b ≡ a - b
unfolding sub_size
sub_size-eq a b h k = omega arith

pub add_size-lt : (a b : ℕ) → add_size a b < size_mod
unfolding add_size
add_size-lt a b = omega arith

-- Multiples.
pub mod-add_self : (q b : ℕ) → 0 < b → q % b ≡ 0 → (q + b) % b ≡ 0
mod-add_self q b h e = grind arith

pub mod-sub_mod : (a b : ℕ) → 0 < b → (a - a % b) % b ≡ 0
mod-sub_mod a b h = grind arith

pub mod-add : (q a b : ℕ) → q % b ≡ 0 → a % b ≡ 0 → (q + a) % b ≡ 0
mod-add q a b e f = rw (add-mod q a b, e, f) (zero-mod b)

pub sub-mod_ge : (a b : ℕ) → 0 < b → b ≤ a → b ≤ a - a % b
sub-mod_ge a b h l = grind arith

-- Below a multiple of `b`, a multiple of `b` is at least `b` away.
pub mod-gap : (a b c : ℕ) → 0 < b → a % b ≡ 0 → c ≤ a → c % b ≢ 0 → c < a
mod-gap a b c h e l n = grind arith
