-- ===== src/Base64/Blocks.antt =====
-- The bits of a block, and the characters of the alphabet.
use dragino_fwd_src_lps8_mqt.Base.{
  ℕ, ◌+◌, ◌-◌, ◌*◌, ◌/◌, ◌%◌, ◌^◌, ◌<◌, ◌≡◌, ◌≢◌, arith, some, inl, inr, leb_cases,
}
use dragino_fwd_src_lps8_mqt.Base.Bits.{bit_or-shifted, bit_and-mask}
use dragino_fwd_src_lps8_mqt.Base64.{
  code_to_char, char_to_code, code_pad, pack_bytes, sextet, pack_codes, octet,
}

pub pack_bytes_sum :
    (x y z : ℕ) → x < 256 → y < 256 → z < 256 → pack_bytes x y z ≡ x * 65536 + y * 256 + z
unfolding pack_bytes
pack_bytes_sum x y z hx hy hz = ground (
  arith,
  bit_and-mask 8 x,
  bit_and-mask 8 y,
  bit_and-mask 8 z,
  bit_or-shifted 16 x (y * 256),
  bit_or-shifted 8 (x * 256 + y) z,
)

pub pack_codes_sum :
    (x y z w : ℕ)
    → x < 64
    → y < 64
    → z < 64
    → w < 64
    → pack_codes x y z w ≡ x * 262144 + y * 4096 + z * 64 + w
unfolding pack_codes
pack_codes_sum x y z w hx hy hz hw = ground (
  arith,
  bit_and-mask 6 x,
  bit_and-mask 6 y,
  bit_and-mask 6 z,
  bit_and-mask 6 w,
  bit_or-shifted 18 x (y * 4096),
  bit_or-shifted 12 (x * 64 + y) (z * 64),
  bit_or-shifted 6 (x * 4096 + y * 64 + z) w,
)

pub sextet_mod : (b k : ℕ) → sextet b k ≡ b / 2 ^ k % 64
unfolding sextet
sextet_mod b k = bit_and-mask 6 (b / 2 ^ k)

pub octet_mod : (b k : ℕ) → octet b k ≡ b / 2 ^ k % 256
unfolding octet
octet_mod b k = bit_and-mask 8 (b / 2 ^ k)

-- Every code has a character, which is not the padding and has that code.
pub code_char_code :
    (x : ℕ)
    → x < 64
    → (c : ℕ) × (code_to_char x ≡ some c) × (char_to_code c ≡ some x) × (c ≢ code_pad)
unfolding code_to_char char_to_code
code_char_code x h = elim (leb_cases x 25) [
  | inl u ↦ (65 + x, ground arith, ground arith, λ e. omega (arith, e, u))
  | inr u ↦ elim (leb_cases x 51) [
    | inl v ↦ (97 + (x - 26), ground arith, ground arith, λ e. omega (arith, e, u))
    | inr v ↦ elim (leb_cases x 61) [
      | inl w ↦ (48 + (x - 52), ground arith, ground arith, λ e. omega (arith, e, w))
      | inr w ↦ elim (leb_cases x 62) [
        | inl z ↦ (43, ground arith, ground arith, λ e. omega (arith, e))
        | inr z ↦ (47, ground arith, ground arith, λ e. omega (arith, e))
      ]
    ]
  ]
]

pub sextet_code :
    (b k : ℕ)
    → (c : ℕ) × (code_to_char (sextet b k) ≡ some c)
      × (char_to_code c ≡ some (sextet b k))
      × (c ≢ code_pad)
sextet_code b k = code_char_code (sextet b k) (omega (arith, sextet_mod b k))

-- The codes of a block give it back, and its bytes are the bytes it was packed from.
codes_of_word :
    (b : ℕ) → b < 2 ^ 24 → pack_codes (sextet b 18) (sextet b 12) (sextet b 6) (sextet b 0) ≡ b
codes_of_word b h = ground (
  arith,
  pack_codes_sum (sextet b 18) (sextet b 12) (sextet b 6) (sextet b 0),
  sextet_mod b 18,
  sextet_mod b 12,
  sextet_mod b 6,
  sextet_mod b 0,
)

module _ (x y z : ℕ) (hx : x < 256) (hy : y < 256) (hz : z < 256) where
  pub codes_of_block :
      pack_codes
        (sextet (pack_bytes x y z) 18)
        (sextet (pack_bytes x y z) 12)
        (sextet (pack_bytes x y z) 6)
        (sextet (pack_bytes x y z) 0)
      ≡ pack_bytes x y z
  codes_of_block = codes_of_word (pack_bytes x y z) (omega (arith, pack_bytes_sum x y z hx hy hz))

  pub first_octet : octet (pack_bytes x y z) 16 ≡ x
  first_octet = omega (arith, octet_mod (pack_bytes x y z) 16, pack_bytes_sum x y z hx hy hz)

  pub second_octet : octet (pack_bytes x y z) 8 ≡ y
  second_octet = omega (arith, octet_mod (pack_bytes x y z) 8, pack_bytes_sum x y z hx hy hz)

  pub third_octet : octet (pack_bytes x y z) 0 ≡ z
  third_octet = omega (arith, octet_mod (pack_bytes x y z) 0, pack_bytes_sum x y z hx hy hz)

-- The codes of a block that is not full: the bits of the missing bytes are 0.
pub codes_of_two :
    (x y : ℕ)
    → x < 256
    → y < 256
    → pack_codes
        (sextet (pack_bytes x y 0) 18)
        (sextet (pack_bytes x y 0) 12)
        (sextet (pack_bytes x y 0) 6)
        0
      ≡ pack_bytes x y 0
codes_of_two x y hx hy =
    let e : sextet (pack_bytes x y 0) 0 ≡ 0 =
      omega (arith, sextet_mod (pack_bytes x y 0) 0, pack_bytes_sum x y 0 hx hy (omega arith)) in
    cc (codes_of_block x y 0 hx hy (omega arith), e)

pub codes_of_one :
    (x : ℕ)
    → x < 256
    → pack_codes (sextet (pack_bytes x 0 0) 18) (sextet (pack_bytes x 0 0) 12) 0 0
      ≡ pack_bytes x 0 0
codes_of_one x hx =
    let e : sextet (pack_bytes x 0 0) 6 ≡ 0 = omega (
      arith,
      sextet_mod (pack_bytes x 0 0) 6,
      pack_bytes_sum x 0 0 hx (omega arith) (omega arith),
    ) in
    cc (codes_of_two x 0 hx (omega arith), e)
