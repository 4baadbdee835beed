-- ===== src/Prelude/Bits.antt =====
-- Masks on one byte as arithmetic; each fact is a table over the byte, checked by evaluation.
use Prim.Native.Nat.{ℕ, zero, suc, ◌+◌, ◌*◌, ◌/◌, ◌%◌, ◌<◌, bit_and, bit_or, bit_xor}
use mathlib.Core.Path.{◌≡◌, refl}
use mathlib.Core.Bool.{Bool, true, ◌&&◌}
use native.Mathlib.Omega.{arith}
use incubator.Prelude.Tests.{ltb, ◌==◌, ==_iff, ltb→lt}

-- A test that holds at every number below a bound.
unfoldable pub tabulate : (ℕ → Bool) → ℕ → Bool
tabulate test zero = true
tabulate test (suc bound) = tabulate test bound && test bound

pub tabulate_lem :
    (test : ℕ → Bool) (i bound : ℕ) → i < bound → tabulate test bound ≡ true → test i ≡ true
unfolding tabulate
tabulate_lem test i zero below e = absurd (omega arith)
tabulate_lem test i (suc bound) below e = ground (arith, tabulate_lem test i bound)

-- Two functions that agree at each number below a bound.
module _ (f g : ℕ → ℕ) where
  agree_below : (n : ℕ) → tabulate (λ x. f x == g x) n ≡ true → (x : ℕ) → x < n → f x ≡ g x
  agree_below n h x lt = (==_iff (f x) (g x)).0 (tabulate_lem _ x n lt h)

pub bit_and_0x80 : (b : ℕ) → b < 256 → bit_and b 0x80 ≡ b / 128 * 128
unfolding tabulate
bit_and_0x80 = agree_below _ _ 256 refl

pub bit_and_0x7f : (b : ℕ) → b < 256 → bit_and b 0x7f ≡ b % 128
unfolding tabulate
bit_and_0x7f = agree_below _ _ 256 refl

pub bit_and_0x0f : (b : ℕ) → b < 256 → bit_and b 0x0f ≡ b % 16
unfolding tabulate
bit_and_0x0f = agree_below _ _ 256 refl

pub bit_and_0x70 : (b : ℕ) → b < 256 → bit_and b 0x70 ≡ b / 16 % 8 * 16
unfolding tabulate
bit_and_0x70 = agree_below _ _ 256 refl

pub bit_or_0x80 : (b : ℕ) → b < 128 → bit_or 0x80 b ≡ b + 128
unfolding tabulate
bit_or_0x80 = agree_below _ _ 128 refl

pub bit_or_0x00 : (b : ℕ) → b < 256 → bit_or 0x00 b ≡ b
unfolding tabulate
bit_or_0x00 = agree_below _ _ 256 refl

-- The square of the byte, for facts about two bytes.
all_pairs : (ℕ → ℕ → Bool) → Bool
unfolding tabulate
all_pairs p = tabulate (λ x. tabulate (p x) 256) 256

all_pairs_sound :
    (p : ℕ → ℕ → Bool) (x y : ℕ) → all_pairs p ≡ true → x < 256 → y < 256 → p x y ≡ true
unfolding all_pairs
all_pairs_sound p x y h hx hy =
    tabulate_lem (p x) y 256 hy (tabulate_lem (λ a. tabulate (p a) 256) x 256 hx h)

xor_table : all_pairs (λ x y. bit_xor (bit_xor x y) y == x && ltb (bit_xor x y) 256) ≡ true
unfolding all_pairs
xor_table = refl

-- Masking a byte twice by one byte gives it back, and stays within a byte.
pub bit_xor_byte :
    (x y : ℕ) → x < 256 → y < 256 → (bit_xor (bit_xor x y) y ≡ x) × (bit_xor x y < 256)
bit_xor_byte x y hx hy =
    let h = all_pairs_sound _ x y xor_table hx hy in
    (
      (==_iff (bit_xor (bit_xor x y) y) x).0 (ground (arith, h)),
      ltb→lt (bit_xor x y) 256 (ground (arith, h)),
    )
