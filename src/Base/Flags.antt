-- ===== src/Base/Flags.antt =====
-- Single bits of a word.
use dragino_fwd_src_lps8_mqt.Base.Bits.{or_digit, and_digit}
use Prim.Native.Nat.{ℕ, zero, suc, ◌*◌, ◌/◌, ◌%◌, ◌^◌, ◌≤◌, ◌<◌, max, bit_and, bit_or}
use mathlib.Core.Path.{◌≡◌, refl, ap, ◌∙◌}
use mathlib.Core.Logic.{◌≢◌, ◌↔◌, ◌⊎◌, inl, inr}
use native.Mathlib.Nat.{pow-suc, one-le-pow, mul_assoc}
use native.Mathlib.Omega.{arith}

-- The bit number `k`, 0 or 1.
abbrev pub flag : ℕ → ℕ → ℕ
flag zero x = x % 2
flag (suc k) x = flag k (x / 2)

Bit-cases : (x : ℕ) → x < 2 → (x ≡ 0) ⊎ (x ≡ 1)
Bit-cases zero h = inl refl
Bit-cases (suc zero) h = inr refl
Bit-cases (suc (suc x)) h = absurd (omega arith)

pub flag-le : (k x : ℕ) → flag k x ≤ 1
flag-le zero x = omega arith
flag-le (suc k) x = flag-le k (x / 2)

pub flag-cases : (k x : ℕ) → (flag k x ≡ 0) ⊎ (flag k x ≡ 1)
flag-cases zero x = Bit-cases (x % 2) (omega arith)
flag-cases (suc k) x = flag-cases k (x / 2)

pub flag-bit_or : (k a b : ℕ) → flag k (bit_or a b) ≡ max (flag k a) (flag k b)
flag-bit_or zero a b = omega (arith, or_digit a b)
flag-bit_or (suc k) a b =
    let half : bit_or a b / 2 ≡ bit_or (a / 2) (b / 2) = omega (arith, or_digit a b) in
    ap (flag k) half ∙ flag-bit_or k (a / 2) (b / 2)

pub flag_pow : (k : ℕ) → flag k (2 ^ k) ≡ 1
flag_pow zero = refl
flag_pow (suc k) =
    let half : 2 ^ suc k / 2 ≡ 2 ^ k = omega (arith, pow-suc 2 k) in ap (flag k) half ∙ flag_pow k

pub flag_zero : (k : ℕ) → flag k 0 ≡ 0
flag_zero zero = refl
flag_zero (suc k) = flag_zero k

pub flag_pow_other : (j k : ℕ) → j ≢ k → flag j (2 ^ k) ≡ 0
flag_pow_other zero zero h = absurd (h refl)
flag_pow_other zero (suc k) h = omega (arith, pow-suc 2 k)
flag_pow_other (suc j) zero h = flag_zero j
flag_pow_other (suc j) (suc k) h =
    let half : 2 ^ suc k / 2 ≡ 2 ^ k = omega (arith, pow-suc 2 k) in
    ap (flag j) half ∙ flag_pow_other j k (λ e. h (ap suc e))

zero-bit_and_upto : (n x : ℕ) → x ≤ n → bit_and 0 x ≡ 0
zero-bit_and_upto n zero h = refl
zero-bit_and_upto zero (suc x) h = absurd (omega arith)
zero-bit_and_upto (suc n) (suc x) h =
    omega (arith, and_digit 0 (suc x), zero-bit_and_upto n (suc x / 2) (omega arith))

double_times : (b k : ℕ) → 2 ^ suc k * b ≡ 2 * (2 ^ k * b)
double_times b k =
    let wide : 2 ^ suc k ≡ 2 * 2 ^ k = omega (arith, pow-suc 2 k) in
    ap (λ (t : ℕ). t * b) wide ∙ mul_assoc 2 (2 ^ k) b

-- Masking by a single bit.
pub bit_and-pow : (k x : ℕ) → bit_and (2 ^ k) x ≡ 2 ^ k * flag k x
bit_and-pow zero x = omega (arith, and_digit 1 x, zero-bit_and_upto (x / 2) (x / 2) (omega arith))
bit_and-pow (suc k) x =
    let half : 2 ^ suc k / 2 ≡ 2 ^ k = omega (arith, pow-suc 2 k) in
    let low : 2 ^ suc k % 2 ≡ 0 = omega (arith, pow-suc 2 k) in
    let high : bit_and (2 ^ suc k / 2) (x / 2) ≡ 2 ^ k * flag k (x / 2) =
      ap (λ t. bit_and t (x / 2)) half ∙ bit_and-pow k (x / 2) in
    let twice : 2 ^ suc k * flag k (x / 2) ≡ 2 * (2 ^ k * flag k (x / 2)) =
      double_times (flag k (x / 2)) k in
    omega (arith, and_digit (2 ^ suc k) x, low, high, twice)

-- `stamp == (stamp & stamps)` asks whether the bit is set.
pub masked_iff : (k x : ℕ) → (2 ^ k ≡ bit_and (2 ^ k) x) ↔ (flag k x ≡ 1)
masked_iff k x = (
  (λ e. elim (flag-cases k x) [
    | inl off ↦ absurd (grind (arith, one-le-pow k, bit_and-pow k x))
    | inr on ↦ on
  ]),
  (λ e. grind (arith, bit_and-pow k x)),
)
