-- ===== src/Prelude/Bits.antt =====
-- The masks that the program applies to a byte, as arithmetic. Each is a table over the bytes.
use Prim.Native.Nat.{ℕ, zero, suc, ◌+◌, ◌*◌, ◌/◌, ◌%◌, ◌<◌, bit_and, bit_or}
use mathlib.Core.Path.{◌≡◌, refl}
use mathlib.Core.Bool.{Bool, true, ◌&&◌}
use native.Mathlib.Omega.{arith}
use mathlib.Core.Logic.{inl, inr}
use kocom.Prelude.Tests.{◌==◌, Bool-cases}

-- Two functions agree on the first `n` numbers.
agree : (f g : ℕ → ℕ) → ℕ → Bool
agree f g zero = true
agree f g (suc n) = agree f g n && f n == g n

table : (f g : ℕ → ℕ) (n : ℕ) → agree f g n ≡ true → (x : ℕ) → x < n → f x ≡ g x
unfolding agree
table f g zero h x lt = absurd (omega arith)
table f g (suc n) h x lt = elim (Bool-cases (x == n)) [
  | inl last ↦ let e : x ≡ n = ground (arith, last) in rw e (ground (arith, h))
  | inr before ↦ table f g n (ground (arith, h)) x (ground (arith, before))
]

pub bit_and_7f : (b : ℕ) → b < 256 → bit_and b 0x7f ≡ b % 128
unfolding agree
bit_and_7f = table _ _ 256 refl

pub bit_and_80 : (b : ℕ) → b < 256 → bit_and b 0x80 ≡ b / 128 * 128
unfolding agree
bit_and_80 = table _ _ 256 refl

pub bit_or_80 : (b : ℕ) → b < 128 → bit_or b 0x80 ≡ b + 128
unfolding agree
bit_or_80 = table _ _ 128 refl

pub bit_and_0f : (b : ℕ) → b < 256 → bit_and b 0x0f ≡ b % 16
unfolding agree
bit_and_0f = table _ _ 256 refl

pub bit_and_f0 : (b : ℕ) → b < 256 → bit_and b 0xf0 ≡ b / 16 * 16
unfolding agree
bit_and_f0 = table _ _ 256 refl
