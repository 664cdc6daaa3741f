-- ===== src/Prelude/Bits.antt =====
-- The bit operations of the source: the high bit of a byte, two bytes joined by shift and or, and
-- exclusive or, from the digit recursion that the native operations stand for.
use Prim.Native.Nat.{
  ℕ, zero, suc, ◌+◌, ◌*◌, ◌/◌, ◌%◌, ◌^◌, ◌≤◌, ◌<◌, max, bit_and, bit_or, bit_xor, digits, differ,
  bit_or-bitwise, bit_xor-bitwise,
}
use mathlib.Core.Path.{◌≡◌, refl}
use mathlib.Core.Bool.{Bool, true, false, ◌&&◌, ◌||◌, not}
use native.Mathlib.Omega.{arith}
use native.Mathlib.Decide.{dec_lt}
use native.Mathlib.Nat.{pow-suc}
use sfo_reuseport.Prelude.Tests.{ltb, ◌==◌, ==_iff}

-- The recursion on digits gives the same with any count of digits that is enough.
module _ (z : ℕ → ℕ) (f : ℕ → ℕ → ℕ) where
  same_digits : (x y c e : ℕ) → x ≤ c → x ≤ e → digits z f c x y ≡ digits z f e x y
  same_digits zero y zero zero l r = refl
  same_digits zero y zero (suc e) l r = refl
  same_digits zero y (suc c) zero l r = refl
  same_digits zero y (suc c) (suc e) l r = refl
  same_digits (suc x) y zero e l r = elim l [ ]
  same_digits (suc x) y (suc c) zero l r = elim r [ ]
  same_digits (suc x) y (suc c) (suc e) l r =
      let half : ℕ = suc x / 2 in
      let ih = same_digits half (y / 2) c e (omega arith) (omega arith) in rw ih

  digits_step :
      (x y : ℕ)
      → digits z f (suc x) (suc x) y
        ≡ digits z f (suc x / 2) (suc x / 2) (y / 2) * 2 + f (suc x % 2) (y % 2)
  digits_step x y = rw (same_digits (suc x / 2) (y / 2) x (suc x / 2) (omega arith) (omega arith))

zero-bit_or : (b : ℕ) → bit_or 0 b ≡ b
zero-bit_or b = bit_or-bitwise 0 b

zero-bit_xor : (b : ℕ) → bit_xor 0 b ≡ b
zero-bit_xor b = bit_xor-bitwise 0 b

pub bit_or_step : (a b : ℕ) → bit_or a b ≡ bit_or (a / 2) (b / 2) * 2 + max (a % 2) (b % 2)
bit_or_step zero b = omega (arith, zero-bit_or b, zero-bit_or (b / 2))
bit_or_step (suc a) b = omega (
  arith,
  bit_or-bitwise (suc a) b,
  bit_or-bitwise (suc a / 2) (b / 2),
  digits_step (λ b. b) max a b,
)

pub bit_xor_step : (a b : ℕ) → bit_xor a b ≡ bit_xor (a / 2) (b / 2) * 2 + differ (a % 2) (b % 2)
bit_xor_step zero b = omega (arith, zero-bit_xor b, zero-bit_xor (b / 2))
bit_xor_step (suc a) b = omega (
  arith,
  bit_xor-bitwise (suc a) b,
  bit_xor-bitwise (suc a / 2) (b / 2),
  digits_step (λ b. b) differ a b,
)

bit_or-zero_fuel : (n a : ℕ) → a ≤ n → bit_or a 0 ≡ a
bit_or-zero_fuel n zero h = refl
bit_or-zero_fuel zero (suc a) h = absurd (omega arith)
bit_or-zero_fuel (suc n) (suc a) h =
    omega (arith, bit_or_step (suc a) 0, bit_or-zero_fuel n (suc a / 2) (omega arith))

-- A zero digit in front takes the other's digit.
double-bit_or : (x a b : ℕ) → x ≡ a * 2 → bit_or x b ≡ bit_or a (b / 2) * 2 + b % 2
double-bit_or x a b e = rw (e, bit_or_step) (rw (half, low) refl)
  where
    half : a * 2 / 2 ≡ a
    half = omega arith

    low : max (a * 2 % 2) (b % 2) ≡ b % 2
    low = omega arith

shift_fuel : (k hi lo : ℕ) → lo < 2 ^ k → bit_or (hi * 2 ^ k) lo ≡ hi * 2 ^ k + lo
shift_fuel zero hi lo h = rw (one, none_left) (omega (arith, bit_or-zero_fuel hi hi))
  where
    one : hi * 2 ^ 0 ≡ hi
    one = omega arith

    none_left : lo ≡ 0
    none_left = omega arith
shift_fuel (suc k) hi lo h =
    rw (double-bit_or (hi * 2 ^ suc k) (hi * 2 ^ k) lo double)
      (omega (arith, shift_fuel k hi (lo / 2) (omega (arith, pow-suc 2 k)), double))
  where
    double : hi * 2 ^ suc k ≡ hi * 2 ^ k * 2
    double = rw pow-suc (omega arith)

-- `(hi << 8) | lo` is the big-endian number of the two bytes.
pub shift_bit_or : (hi lo : ℕ) → lo < 256 → bit_or (hi * 256) lo ≡ hi * 256 + lo
shift_bit_or = shift_fuel 8

-- The test of the high bit of a byte.
abbrev pub high_bit : ℕ → Bool
high_bit b = not (bit_and b 0x80 == 0)

-- A test that passes at every number below a bound, by evaluation.
passes : (ℕ → Bool) → ℕ → Bool
passes test zero = true
passes test (suc b) = passes test b && test b

passes_at : (test : ℕ → Bool) (b : ℕ) {n : ℕ} → n < b → passes test b ≡ true → test n ≡ true
unfolding passes
passes_at test zero below all = elim below [ ]
passes_at test (suc b) {n} below all = elim (dec_lt n b) [
  | yes further ↦ passes_at test b further (ground arith)
  | no last ↦ let here : n ≡ b = omega arith in rw here (ground arith)
]

short_table : passes (λ b. bit_and b 0x80 == 0) 128 ≡ true
unfolding passes
short_table = refl

long_table : passes (λ b. ltb b 128 || not (bit_and b 0x80 == 0)) 256 ≡ true
unfolding passes
long_table = refl

pub high_bit_short : (b : ℕ) → b < 128 → bit_and b 0x80 ≡ 0
high_bit_short b h = (==_iff _ 0).0 (passes_at _ 128 h short_table)

pub high_bit_clear : (b : ℕ) → b < 128 → (bit_and b 0x80 == 0) ≡ true
high_bit_clear b h = passes_at _ 128 h short_table

pub high_bit_long : (b : ℕ) → 128 ≤ b → b < 256 → (bit_and b 0x80 == 0) ≡ false
high_bit_long b l h = ground (arith, passes_at _ 256 h long_table)

-- Exclusive or with a fixed number can be undone, and stays within a power of two.
differ_cancel_table : (x y z : ℕ) → x < 2 → y < 2 → z < 2 → differ x z ≡ differ y z → x ≡ y
differ_cancel_table zero zero z a b c e = refl
differ_cancel_table zero (suc zero) zero a b c e = absurd (omega arith)
differ_cancel_table zero (suc zero) (suc zero) a b c e = absurd (omega arith)
differ_cancel_table (suc zero) zero zero a b c e = absurd (omega arith)
differ_cancel_table (suc zero) zero (suc zero) a b c e = absurd (omega arith)
differ_cancel_table (suc zero) (suc zero) z a b c e = refl
differ_cancel_table (suc (suc x)) y z a b c e = absurd (omega arith)
differ_cancel_table x (suc (suc y)) z a b c e = absurd (omega arith)
differ_cancel_table x y (suc (suc z)) a b c e = absurd (omega arith)

differ-lt : (x y : ℕ) → x < 2 → y < 2 → differ x y < 2
differ-lt zero y a b = b
differ-lt (suc zero) zero a b = omega arith
differ-lt (suc zero) (suc zero) a b = omega arith
differ-lt (suc (suc x)) y a b = absurd (omega arith)
differ-lt x (suc (suc y)) a b = absurd (omega arith)

differ_cancel_left_table : (x y z : ℕ) → x < 2 → y < 2 → z < 2 → differ x y ≡ differ x z → y ≡ z
differ_cancel_left_table zero y z a b c e = e
differ_cancel_left_table (suc zero) zero zero a b c e = refl
differ_cancel_left_table (suc zero) zero (suc z) a b c e = absurd (ground arith)
differ_cancel_left_table (suc zero) (suc y) zero a b c e = absurd (ground arith)
differ_cancel_left_table (suc zero) (suc zero) (suc zero) a b c e = refl
differ_cancel_left_table (suc zero) (suc (suc y)) z a b c e = absurd (omega arith)
differ_cancel_left_table (suc zero) y (suc (suc z)) a b c e = absurd (omega arith)
differ_cancel_left_table (suc (suc x)) y z a b c e = absurd (omega arith)

xor_cancel_fuel : (n a b v : ℕ) → a ≤ n → b ≤ n → bit_xor a v ≡ bit_xor b v → a ≡ b
xor_cancel_fuel zero a b v p q e = omega arith
xor_cancel_fuel (suc n) a b v p q e = omega (
  arith,
  xor_cancel_fuel n (a / 2) (b / 2) (v / 2) (omega arith) (omega arith) halves,
  differ_cancel_table (a % 2) (b % 2) (v % 2) (omega arith) (omega arith) (omega arith) ends,
)
  where
    small : (x : ℕ) → differ (x % 2) (v % 2) < 2
    small x = differ-lt (x % 2) (v % 2) (omega arith) (omega arith)

    halves : bit_xor (a / 2) (v / 2) ≡ bit_xor (b / 2) (v / 2)
    halves = omega (arith, bit_xor_step a v, bit_xor_step b v, small a, small b)

    ends : differ (a % 2) (v % 2) ≡ differ (b % 2) (v % 2)
    ends = omega (arith, bit_xor_step a v, bit_xor_step b v, small a, small b)

pub bit_xor_cancel : (a b v : ℕ) → bit_xor a v ≡ bit_xor b v → a ≡ b
bit_xor_cancel a b v = xor_cancel_fuel (a + b) a b v (omega arith) (omega arith)

xor_cancel_left_fuel : (n a u v : ℕ) → u ≤ n → v ≤ n → bit_xor a u ≡ bit_xor a v → u ≡ v
xor_cancel_left_fuel zero a u v p q e = omega arith
xor_cancel_left_fuel (suc n) a u v p q e = omega (
  arith,
  xor_cancel_left_fuel n (a / 2) (u / 2) (v / 2) (omega arith) (omega arith) halves,
  differ_cancel_left_table (a % 2) (u % 2) (v % 2) (omega arith) (omega arith) (omega arith) ends,
)
  where
    small : (x : ℕ) → differ (a % 2) (x % 2) < 2
    small x = differ-lt (a % 2) (x % 2) (omega arith) (omega arith)

    halves : bit_xor (a / 2) (u / 2) ≡ bit_xor (a / 2) (v / 2)
    halves = omega (arith, bit_xor_step a u, bit_xor_step a v, small u, small v)

    ends : differ (a % 2) (u % 2) ≡ differ (a % 2) (v % 2)
    ends = omega (arith, bit_xor_step a u, bit_xor_step a v, small u, small v)

pub bit_xor_cancel_left : (a u v : ℕ) → bit_xor a u ≡ bit_xor a v → u ≡ v
bit_xor_cancel_left a u v = xor_cancel_left_fuel (u + v) a u v (omega arith) (omega arith)

pub bit_xor-lt : (k a b : ℕ) → a < 2 ^ k → b < 2 ^ k → bit_xor a b < 2 ^ k
bit_xor-lt zero a b p q = rw (none_left a p, none_left b q) (omega arith)
  where
    none_left : (x : ℕ) → x < 2 ^ 0 → x ≡ 0
    none_left x h = omega arith
bit_xor-lt (suc k) a b p q = omega (
  arith,
  pow-suc 2 k,
  bit_xor_step a b,
  differ-lt (a % 2) (b % 2) (omega arith) (omega arith),
  bit_xor-lt k (a / 2) (b / 2) (omega (arith, pow-suc 2 k)) (omega (arith, pow-suc 2 k)),
)
