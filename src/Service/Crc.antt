-- ===== src/Service/Crc.antt =====
-- The checksum: its range, and the check that a receiver makes.
use dragino_fwd_src_lps8_mqt.Base.{
  ℕ, zero, suc, ◌+◌, ◌*◌, ◌/◌, ◌%◌, ◌^◌, ◌<◌, ◌≡◌, refl, sym, List, [], ◌∷◌, ◌++◌, arith, bit_xor,
  u16, ◌∙◌, ap,
}
use dragino_fwd_src_lps8_mqt.Base.Bits.{bit_xor-lt, bit_xor_cancel, bit_xor-above}
use dragino_fwd_src_lps8_mqt.Service.{crc_shift, crc_bits, crc_from, crc16}

crc_shift-lt : (x : ℕ) → crc_shift x < 2 ^ 16
unfolding crc_shift
crc_shift-lt x = ground arith

crc_bits-lt : (n x : ℕ) → x < 2 ^ 16 → crc_bits n x < 2 ^ 16
unfolding crc_bits
crc_bits-lt zero x h = h
crc_bits-lt (suc n) x h = crc_bits-lt n (crc_shift x) (crc_shift-lt x)

crc_from-lt : (x : ℕ) (bytes : List ℕ) → x < 2 ^ 16 → crc_from x bytes < 2 ^ 16
unfolding crc_from
crc_from-lt x [] h = h
crc_from-lt x (b ∷ bytes) h =
    crc_from-lt (crc_bits 8 (bit_xor x (u16 (b * 2 ^ 8)))) bytes
      (crc_bits-lt 8 (bit_xor x (u16 (b * 2 ^ 8))) (bit_xor-lt 16 h (omega arith)))

crc_from-append : (x : ℕ) (xs ys : List ℕ) → crc_from x (xs ++ ys) ≡ crc_from (crc_from x xs) ys
unfolding crc_from
crc_from-append x [] ys = refl
crc_from-append x (b ∷ xs) ys = crc_from-append (crc_bits 8 (bit_xor x (u16 (b * 2 ^ 8)))) xs ys

crc_bits_zero : (n : ℕ) → crc_bits n 0 ≡ 0
unfolding crc_bits crc_shift
crc_bits_zero zero = refl
crc_bits_zero (suc n) = crc_bits_zero n

xor_upper : (lo hi : ℕ) → lo < 256 → bit_xor (hi * 2 ^ 8 + lo) (hi * 2 ^ 8) ≡ lo
xor_upper lo hi h =
    ap (λ t. bit_xor t (hi * 2 ^ 8)) (sym (bit_xor-above 8 hi lo h))
    ∙ bit_xor_cancel lo (hi * 2 ^ 8)

shift_plain : (x : ℕ) → x < 0x8000 → crc_shift x ≡ 2 * x
unfolding crc_shift
shift_plain x h = ground arith

-- A byte in the lower half is shifted up without a reduction.
crc_bits_low : (lo : ℕ) → lo < 256 → crc_bits 8 lo ≡ lo * 2 ^ 8
unfolding crc_bits
crc_bits_low lo h =
    rw
      (
        shift_plain lo (omega arith),
        shift_plain (2 * lo) (omega arith),
        shift_plain (2 * (2 * lo)) (omega arith),
        shift_plain (2 * (2 * (2 * lo))) (omega arith),
        shift_plain (2 * (2 * (2 * (2 * lo)))) (omega arith),
        shift_plain (2 * (2 * (2 * (2 * (2 * lo))))) (omega arith),
        shift_plain (2 * (2 * (2 * (2 * (2 * (2 * lo)))))) (omega arith),
        shift_plain (2 * (2 * (2 * (2 * (2 * (2 * (2 * lo))))))) (omega arith),
      )
      (omega arith)

-- A remainder of 16 bits is used up by its own two bytes.
crc_residue : (x : ℕ) → x < 2 ^ 16 → crc_from x (x / 256 ∷ x % 256 ∷ []) ≡ 0
unfolding crc_from
crc_residue x h =
    let hi : u16 (x / 256 * 2 ^ 8) ≡ x / 256 * 2 ^ 8 = omega arith in
    let lo : u16 (x % 256 * 2 ^ 8) ≡ x % 256 * 2 ^ 8 = omega arith in
    let split : x ≡ x / 256 * 2 ^ 8 + x % 256 = omega arith in
    let first : bit_xor x (x / 256 * 2 ^ 8) ≡ x % 256 =
      ap (λ t. bit_xor t (x / 256 * 2 ^ 8)) split ∙ xor_upper (x % 256) (x / 256) (omega arith) in
    let second : bit_xor (x % 256 * 2 ^ 8) (x % 256 * 2 ^ 8) ≡ 0 =
      ap (λ t. bit_xor t (x % 256 * 2 ^ 8)) (omega arith) ∙ xor_upper 0 (x % 256) (omega arith) in
    rw (hi, lo, first, crc_bits_low (x % 256) (omega arith), second) (crc_bits_zero 8)

-- The checksum has 16 bits, and the checksum of bytes followed by the two bytes of their own checksum, the upper one first, is 0.
pub crc16_check :
    (bytes : List ℕ)
    → (crc16 bytes < 2 ^ 16) × (crc16 (bytes ++ (crc16 bytes / 256 ∷ crc16 bytes % 256 ∷ [])) ≡ 0)
unfolding crc16
crc16_check bytes =
    let fits = crc_from-lt 0 bytes (omega arith) in
    (
      fits,
      crc_from-append 0 bytes (crc_from 0 bytes / 256 ∷ crc_from 0 bytes % 256 ∷ [])
          ∙ crc_residue (crc_from 0 bytes) fits,
    )
