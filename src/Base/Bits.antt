-- ===== src/Base/Bits.antt =====
-- Laws of `|`, `&` and `^` at variables, from one equation for the lowest digit.
use Prim.Native.Nat.{ℕ, zero, suc, ◌+◌, ◌-◌, ◌*◌, ◌/◌, ◌%◌, ◌^◌, ◌≤◌, ◌<◌, min, max}
use Prim.Native.Nat.{bit_and, bit_or, bit_xor, digits, differ}
use Prim.Native.Nat.{bit_and-bitwise, bit_or-bitwise, bit_xor-bitwise}
use mathlib.Core.Path.{◌≡◌, refl, sym, ap, ap₂, ◌∙◌}
use native.Mathlib.Nat.{pow-suc, one-le-pow}
use native.Mathlib.Omega.{arith}

-- More fuel than the first number gives the same digits, for every fuel up to `m`.
module _ (z : ℕ → ℕ) (f : ℕ → ℕ → ℕ) where
  abbrev join : ℕ → ℕ → ℕ → ℕ
  join x y t = t * 2 + f (x % 2) (y % 2)

  digits_settled : (m n x y : ℕ) → n ≤ m → x ≤ n → digits z f n x y ≡ digits z f x x y
  digits_settled m n zero y le_m le_n = elim n as (λ k. digits z f k 0 y ≡ z y) [
    | zero ↦ refl
    | suc k ↦ refl
  ]
  digits_settled m zero (suc x) y le_m le_n = elim le_n [ ]
  digits_settled zero (suc n) (suc x) y le_m le_n = elim le_m [ ]
  digits_settled (suc m) (suc n) (suc x) y le_m le_n =
      let long = digits_settled m n (suc x / 2) (y / 2) (omega arith) (omega arith) in
      let short = digits_settled m x (suc x / 2) (y / 2) (omega arith) (omega arith) in
      ap (join (suc x) y) (long ∙ sym short)

  digits-suc :
      (x y : ℕ)
      → digits z f (suc x) (suc x) y ≡ join (suc x) y (digits z f (suc x / 2) (suc x / 2) (y / 2))
  digits-suc x y =
      ap (join (suc x) y) (digits_settled x x (suc x / 2) (y / 2) (omega arith) (omega arith))

-- The lowest digit of each operation, and the operation on what lies above it.
pub or_digit : (x y : ℕ) → bit_or x y ≡ max (x % 2) (y % 2) + 2 * bit_or (x / 2) (y / 2)
or_digit zero y = omega (arith, bit_or-bitwise 0 y, bit_or-bitwise 0 (y / 2))
or_digit (suc x) y = omega (
  arith,
  digits-suc (λ t. t) max x y,
  bit_or-bitwise (suc x) y,
  bit_or-bitwise (suc x / 2) (y / 2),
)

pub and_digit : (x y : ℕ) → bit_and x y ≡ min (x % 2) (y % 2) + 2 * bit_and (x / 2) (y / 2)
and_digit zero y = omega (arith, bit_and-bitwise 0 y, bit_and-bitwise 0 (y / 2))
and_digit (suc x) y = omega (
  arith,
  digits-suc (λ t. 0) min x y,
  bit_and-bitwise (suc x) y,
  bit_and-bitwise (suc x / 2) (y / 2),
)

pub xor_digit : (x y : ℕ) → bit_xor x y ≡ differ (x % 2) (y % 2) + 2 * bit_xor (x / 2) (y / 2)
xor_digit zero y = omega (arith, bit_xor-bitwise 0 y, bit_xor-bitwise 0 (y / 2))
xor_digit (suc x) y = omega (
  arith,
  digits-suc (λ t. t) differ x y,
  bit_xor-bitwise (suc x) y,
  bit_xor-bitwise (suc x / 2) (y / 2),
)

-- Each law goes from `a / 2` to `a`, so it is proved for all numbers up to a bound.
bit_or-zero_upto : (n a : ℕ) → a ≤ n → bit_or a 0 ≡ a
bit_or-zero_upto n zero h = refl
bit_or-zero_upto zero (suc a) h = absurd (omega arith)
bit_or-zero_upto (suc n) (suc a) h =
    omega (arith, or_digit (suc a) 0, bit_or-zero_upto n (suc a / 2) (omega arith))

bit_and-zero_upto : (n a : ℕ) → a ≤ n → bit_and a 0 ≡ 0
bit_and-zero_upto n zero h = refl
bit_and-zero_upto zero (suc a) h = absurd (omega arith)
bit_and-zero_upto (suc n) (suc a) h =
    omega (arith, and_digit (suc a) 0, bit_and-zero_upto n (suc a / 2) (omega arith))

mul-pow-suc : (q k : ℕ) → q * 2 ^ suc k ≡ 2 * (q * 2 ^ k)
mul-pow-suc q k = omega (arith, ap (λ (t : ℕ). q * t) (pow-suc 2 k))

-- `(q << k) | r` is a sum where `r` fits in `k` bits.
pub bit_or-shifted : (k q r : ℕ) → r < 2 ^ k → bit_or (q * 2 ^ k) r ≡ q * 2 ^ k + r
bit_or-shifted zero q r h = ground (arith, bit_or-zero_upto q q)
bit_or-shifted (suc k) q r h =
    ground
      (arith, pow-suc 2 k, mul-pow-suc q k, or_digit (q * 2 ^ suc k) r, bit_or-shifted k q (r / 2))

mask_of_sum : (k q r : ℕ) → r < 2 ^ k → bit_and (q * 2 ^ k + r) (2 ^ k - 1) ≡ r
mask_of_sum zero q r h = ground (arith, bit_and-zero_upto (q * 1 + r) (q * 1 + r))
mask_of_sum (suc k) q r h = ground (
  arith,
  pow-suc 2 k,
  one-le-pow k 2,
  mul-pow-suc q k,
  and_digit (q * 2 ^ suc k + r) (2 ^ suc k - 1),
  mask_of_sum k q (r / 2),
)

-- A mask of the `k` low bits is the remainder by `2 ^ k`.
pub bit_and-mask : (k a : ℕ) → bit_and a (2 ^ k - 1) ≡ a % 2 ^ k
bit_and-mask k a = ground (arith, one-le-pow k 2, mask_of_sum k (a / 2 ^ k) (a % 2 ^ k))

-- The digits of an exclusive or, and what the laws below need of them.
differ-lt : (x y : ℕ) → x < 2 → y < 2 → differ x y < 2
differ-lt zero y h k = k
differ-lt (suc x) zero h k = h
differ-lt (suc zero) (suc zero) h k = omega arith
differ-lt (suc zero) (suc (suc y)) h k = absurd (omega arith)
differ-lt (suc (suc x)) (suc y) h k = absurd (omega arith)

differ_cancel : (x y : ℕ) → x < 2 → y < 2 → differ (differ x y) y ≡ x
differ_cancel zero zero h k = refl
differ_cancel zero (suc zero) h k = refl
differ_cancel (suc zero) zero h k = refl
differ_cancel (suc zero) (suc zero) h k = refl
differ_cancel (suc (suc x)) y h k = absurd (omega arith)
differ_cancel x (suc (suc y)) h k = absurd (omega arith)

differ_swap :
    (x y z w : ℕ)
    → x < 2
    → y < 2
    → z < 2
    → w < 2
    → differ (differ x y) (differ z w) ≡ differ (differ x z) (differ y w)
differ_swap zero zero z w hx hy hz hw = refl
differ_swap zero (suc zero) zero w hx hy hz hw = refl
differ_swap zero (suc zero) (suc zero) zero hx hy hz hw = refl
differ_swap zero (suc zero) (suc zero) (suc zero) hx hy hz hw = refl
differ_swap (suc zero) zero zero zero hx hy hz hw = refl
differ_swap (suc zero) zero zero (suc zero) hx hy hz hw = refl
differ_swap (suc zero) zero (suc zero) zero hx hy hz hw = refl
differ_swap (suc zero) zero (suc zero) (suc zero) hx hy hz hw = refl
differ_swap (suc zero) (suc zero) zero zero hx hy hz hw = refl
differ_swap (suc zero) (suc zero) zero (suc zero) hx hy hz hw = refl
differ_swap (suc zero) (suc zero) (suc zero) zero hx hy hz hw = refl
differ_swap (suc zero) (suc zero) (suc zero) (suc zero) hx hy hz hw = refl
differ_swap (suc (suc x)) y z w hx hy hz hw = absurd (omega arith)
differ_swap x (suc (suc y)) z w hx hy hz hw = absurd (omega arith)
differ_swap x y (suc (suc z)) w hx hy hz hw = absurd (omega arith)
differ_swap x y z (suc (suc w)) hx hy hz hw = absurd (omega arith)

-- Quotient and remainder of an exclusive or.
pub bit_xor-half : (a b : ℕ) → bit_xor a b / 2 ≡ bit_xor (a / 2) (b / 2)
bit_xor-half a b =
    omega (arith, xor_digit a b, differ-lt (a % 2) (b % 2) (omega arith) (omega arith))

pub bit_xor-low : (a b : ℕ) → bit_xor a b % 2 ≡ differ (a % 2) (b % 2)
bit_xor-low a b =
    omega (arith, xor_digit a b, differ-lt (a % 2) (b % 2) (omega arith) (omega arith))

half_join : (x y : ℕ) → x / 2 ≡ y / 2 → x % 2 ≡ y % 2 → x ≡ y
half_join x y h k = omega arith

bit_xor-lt_upto : (k a b : ℕ) → a < 2 ^ k → b < 2 ^ k → bit_xor a b < 2 ^ k
bit_xor-lt_upto zero zero zero p q = omega arith
bit_xor-lt_upto zero (suc a) b p q = absurd (omega arith)
bit_xor-lt_upto zero a (suc b) p q = absurd (omega arith)
bit_xor-lt_upto (suc k) a b p q =
    ground (arith, pow-suc 2 k, bit_xor-half a b, bit_xor-lt_upto k (a / 2) (b / 2))

-- An exclusive or of `k`-bit words is a `k`-bit word.
pub bit_xor-lt : (k : ℕ) {a b : ℕ} → a < 2 ^ k → b < 2 ^ k → bit_xor a b < 2 ^ k
bit_xor-lt k {a} {b} p q = bit_xor-lt_upto k a b p q

bit_xor_cancel_upto : (n a b : ℕ) → a ≤ n → b ≤ n → bit_xor (bit_xor a b) b ≡ a
bit_xor_cancel_upto zero zero zero p q = refl
bit_xor_cancel_upto zero (suc a) b p q = absurd (omega arith)
bit_xor_cancel_upto zero a (suc b) p q = absurd (omega arith)
bit_xor_cancel_upto (suc n) a b p q =
    half_join (bit_xor (bit_xor a b) b) a
      (bit_xor-half (bit_xor a b) b
        ∙ ap (λ t. bit_xor t (b / 2)) (bit_xor-half a b)
        ∙ bit_xor_cancel_upto n (a / 2) (b / 2) (omega arith) (omega arith))
      (bit_xor-low (bit_xor a b) b
        ∙ ap (λ t. differ t (b % 2)) (bit_xor-low a b)
        ∙ differ_cancel (a % 2) (b % 2) (omega arith) (omega arith))

-- Applying a mask twice gives the word back.
pub bit_xor_cancel : (a b : ℕ) → bit_xor (bit_xor a b) b ≡ a
bit_xor_cancel a b = bit_xor_cancel_upto (a + b) a b (omega arith) (omega arith)

bit_xor_swap_upto :
    (n a b c d : ℕ)
    → a ≤ n
    → b ≤ n
    → c ≤ n
    → d ≤ n
    → bit_xor (bit_xor a b) (bit_xor c d) ≡ bit_xor (bit_xor a c) (bit_xor b d)
bit_xor_swap_upto zero zero zero zero zero p q r s = refl
bit_xor_swap_upto zero (suc a) b c d p q r s = absurd (omega arith)
bit_xor_swap_upto zero a (suc b) c d p q r s = absurd (omega arith)
bit_xor_swap_upto zero a b (suc c) d p q r s = absurd (omega arith)
bit_xor_swap_upto zero a b c (suc d) p q r s = absurd (omega arith)
bit_xor_swap_upto (suc n) a b c d p q r s =
    half_join (bit_xor (bit_xor a b) (bit_xor c d)) (bit_xor (bit_xor a c) (bit_xor b d))
      (halves a b c d
        ∙ bit_xor_swap_upto n (a / 2) (b / 2) (c / 2) (d / 2) (omega arith) (omega arith)
            (omega arith) (omega arith)
        ∙ sym (halves a c b d))
      (lows a b c d
        ∙ differ_swap (a % 2) (b % 2) (c % 2) (d % 2) (omega arith) (omega arith) (omega arith)
            (omega arith)
        ∙ sym (lows a c b d))
  where
    halves :
        (a b c d : ℕ)
        → bit_xor (bit_xor a b) (bit_xor c d) / 2
          ≡ bit_xor (bit_xor (a / 2) (b / 2)) (bit_xor (c / 2) (d / 2))
    halves a b c d =
        bit_xor-half (bit_xor a b) (bit_xor c d) ∙ ap₂ bit_xor (bit_xor-half a b) (bit_xor-half c d)

    lows :
        (a b c d : ℕ)
        → bit_xor (bit_xor a b) (bit_xor c d) % 2
          ≡ differ (differ (a % 2) (b % 2)) (differ (c % 2) (d % 2))
    lows a b c d =
        bit_xor-low (bit_xor a b) (bit_xor c d) ∙ ap₂ differ (bit_xor-low a b) (bit_xor-low c d)

-- The middle terms of four can change places.
pub bit_xor_swap :
    (a b c d : ℕ) → bit_xor (bit_xor a b) (bit_xor c d) ≡ bit_xor (bit_xor a c) (bit_xor b d)
bit_xor_swap a b c d =
    bit_xor_swap_upto (a + b + c + d) a b c d (omega arith) (omega arith) (omega arith)
      (omega arith)

bit_or_comm_upto : (n a b : ℕ) → a ≤ n → b ≤ n → bit_or a b ≡ bit_or b a
bit_or_comm_upto zero zero zero h k = refl
bit_or_comm_upto zero (suc a) b h k = absurd (omega arith)
bit_or_comm_upto zero a (suc b) h k = absurd (omega arith)
bit_or_comm_upto (suc n) a b h k = omega (
  arith,
  or_digit a b,
  or_digit b a,
  bit_or_comm_upto n (a / 2) (b / 2) (omega arith) (omega arith),
)

pub bit_or-above : (k q r : ℕ) → r < 2 ^ k → bit_or r (q * 2 ^ k) ≡ q * 2 ^ k + r
bit_or-above k q r h =
    bit_or_comm_upto (r + q * 2 ^ k) r (q * 2 ^ k) (omega arith) (omega arith)
    ∙ bit_or-shifted k q r h

differ_zero : (x : ℕ) → x < 2 → differ 0 x ≡ x
differ_zero x h = refl

differ_none : (x : ℕ) → x < 2 → differ x 0 ≡ x
differ_none zero h = refl
differ_none (suc zero) h = refl
differ_none (suc (suc x)) h = absurd (omega arith)

bit_xor-zero_upto : (n a : ℕ) → a ≤ n → bit_xor 0 a ≡ a
bit_xor-zero_upto n zero h = refl
bit_xor-zero_upto zero (suc a) h = absurd (omega arith)
bit_xor-zero_upto (suc n) (suc a) h =
    half_join (bit_xor 0 (suc a)) (suc a)
      (bit_xor-half 0 (suc a) ∙ bit_xor-zero_upto n (suc a / 2) (omega arith))
      (bit_xor-low 0 (suc a) ∙ differ_zero (suc a % 2) (omega arith))

pub bit_xor-above : (k q r : ℕ) → r < 2 ^ k → bit_xor r (q * 2 ^ k) ≡ q * 2 ^ k + r
bit_xor-above zero q zero h = bit_xor-zero_upto (q * 1) (q * 1) (omega arith) ∙ omega arith
bit_xor-above zero q (suc r) h = absurd (omega arith)
bit_xor-above (suc k) q r h =
    half_join (bit_xor r (q * 2 ^ suc k)) (q * 2 ^ suc k + r)
      (bit_xor-half r (q * 2 ^ suc k)
        ∙ ap (bit_xor (r / 2)) (omega (arith, mul-pow-suc q k))
        ∙ bit_xor-above k q (r / 2) (omega (arith, pow-suc 2 k))
        ∙ omega (arith, mul-pow-suc q k))
      (bit_xor-low r (q * 2 ^ suc k)
        ∙ ap (differ (r % 2)) (omega (arith, mul-pow-suc q k))
        ∙ differ_none (r % 2) (omega arith)
        ∙ omega (arith, mul-pow-suc q k))
