-- ===== src/Util/Hex.antt =====
-- Hexadecimal text.
use dragino_fwd_src_lps8_mqt.Base.{
  ℕ, ◌*◌, ◌/◌, ◌%◌, ◌^◌, ◌<◌, ◌≡◌, refl, ap, List, [], ◌∷◌, length, All, arith, bit_or, take-length,
}
use dragino_fwd_src_lps8_mqt.Base.Bits.{bit_or-shifted}
use dragino_fwd_src_lps8_mqt.Util.{
  nibble2hexchar, str2hex, upper_digit, hex2int, hex_pairs, hex2str,
}

-- Two characters for each byte, the high half first.
abbrev pub hex_of : List ℕ → List ℕ
hex_of [] = []
hex_of (x ∷ xs) = nibble2hexchar (x / 16) ∷ nibble2hexchar (x % 16) ∷ hex_of xs

hex2int-nibble2hexchar : (a : ℕ) → a < 16 → hex2int (nibble2hexchar a) ≡ a
unfolding hex2int nibble2hexchar
hex2int-nibble2hexchar a h = ground arith

pair_back :
    (x : ℕ)
    → x < 256
    → bit_or (hex2int (nibble2hexchar (x / 16)) * 2 ^ 4) (hex2int (nibble2hexchar (x % 16))) % 2 ^ 8
      ≡ x
pair_back x h =
    rw
      (hex2int-nibble2hexchar (x / 16) (omega arith), hex2int-nibble2hexchar (x % 16) (omega arith))
      (omega (arith, bit_or-shifted 4 (x / 16) (x % 16)))

hex_pairs-hex_of : (xs : List ℕ) → All (λ x. x < 256) xs → hex_pairs (hex_of xs) ≡ xs
unfolding hex_pairs
hex_pairs-hex_of [] h = refl
hex_pairs-hex_of (x ∷ xs) h = rw (pair_back x (h.0), hex_pairs-hex_of xs (h.1)) refl

length-hex_of : (xs : List ℕ) → length (hex_of xs) ≡ 2 * length xs
length-hex_of [] = refl
length-hex_of (x ∷ xs) = omega (arith, length-hex_of xs)

-- hex2str with the length of the text gives back the bytes that were written with two digits of nibble2hexchar each, if the length fits in its uint8_t parameter.
pub hex2str_round_trip :
    (xs : List ℕ)
    → All (λ x. x < 256) xs
    → 2 * length xs < 256
    → hex2str (hex_of xs) (2 * length xs) ≡ xs
unfolding hex2str
hex2str_round_trip xs h small =
    let e : 2 * length xs % 2 ^ 8 ≡ length (hex_of xs) = omega (arith, length-hex_of xs) in
    rw (e, take-length (hex_of xs)) (hex_pairs-hex_of xs h)

module _ (toupper : ℕ → ℕ)
    (toupper_keeps : (a : ℕ) → a < 16 → toupper (nibble2hexchar a) ≡ nibble2hexchar a) where
  upper_digit-nibble2hexchar : (a : ℕ) → a < 16 → upper_digit toupper (nibble2hexchar a) ≡ a
  unfolding upper_digit nibble2hexchar
  upper_digit-nibble2hexchar a h = rw (toupper_keeps a h) (ground arith)

  -- str2hex gives back the bytes that were written with two digits of nibble2hexchar each, if toupper leaves the digits and the capitals A to F alone.
  pub str2hex_round_trip :
      (xs : List ℕ) → All (λ x. x < 256) xs → str2hex toupper (hex_of xs) (length xs) ≡ xs
  unfolding str2hex
  str2hex_round_trip [] h = refl
  str2hex_round_trip (x ∷ xs) h =
      rw
        (
          upper_digit-nibble2hexchar (x / 16) (omega arith),
          upper_digit-nibble2hexchar (x % 16) (omega arith),
          str2hex_round_trip xs (h.1),
        )
        (ap (λ n. n ∷ xs) (omega arith))
