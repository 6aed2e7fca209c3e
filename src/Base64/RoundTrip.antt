-- ===== src/Base64/RoundTrip.antt =====
-- Decoding what was encoded.
use dragino_fwd_src_lps8_mqt.Base.{
  ℕ, ◌+◌, ◌*◌, ◌/◌, ◌%◌, ◌<◌, ◌≡◌, refl, ap, suc, sym, ◌∙◌, ◌≢◌, List, [], ◌∷◌, ◌++◌, arith, some,
  Option-cases, inl, inr, length, All, ge→ltb, false, ◌≤◌, false, ◌==◌,
}
use dragino_fwd_src_lps8_mqt.Base64.{
  code_pad, pack_bytes, encode_blocks, decode_blocks, last_chars, last_bytes, bin_to_b64_nopad,
  b64_to_bin_nopad, done,
}
use dragino_fwd_src_lps8_mqt.Base64.Blocks.{
  sextet_code, codes_of_block, codes_of_one, codes_of_two, first_octet, second_octet, third_octet,
}

abbrev pub IsByte : ℕ → Type 0
IsByte x = x < 256

abbrev pub NoPad : List ℕ → Type 0
NoPad text = All (λ c. c ≢ code_pad) text

-- The length of the text, as the source computes it.
abbrev pub text_len : ℕ → ℕ
text_len n = 4 * (n / 3) + last_chars (n % 3)

text_len_block : (n : ℕ) → text_len (suc (suc (suc n))) ≡ suc (suc (suc (suc (text_len n))))
text_len_block n = let e : suc (suc (suc n)) % 3 ≡ n % 3 = omega arith in rw e (omega arith)

zero_byte : 0 < 256
zero_byte = omega arith

pub encoded :
    (xs : List ℕ)
    → All IsByte xs
    → (text : List ℕ) × (encode_blocks xs ≡ some text)
      × (decode_blocks text ≡ some xs)
      × (length text ≡ text_len (length xs))
      × NoPad text
unfolding encode_blocks decode_blocks last_chars
encoded [] h = ([], refl, refl, refl, tt)
encoded (x ∷ []) h =
    let (c, c1, c2, c3) = sextet_code (pack_bytes x 0 0) 18 in
    let (d, d1, d2, d3) = sextet_code (pack_bytes x 0 0) 12 in
    (
      c ∷ d ∷ [],
      rw (c1, d1) refl,
      rw (c2, d2, codes_of_one x (h.0), first_octet x 0 0 (h.0) (omega arith) (omega arith)) refl,
      refl,
      (c3, (d3, tt)),
    )
encoded (x ∷ y ∷ []) h =
    let (hx, (hy, _)) = h in
    let (c, c1, c2, c3) = sextet_code (pack_bytes x y 0) 18 in
    let (d, d1, d2, d3) = sextet_code (pack_bytes x y 0) 12 in
    let (e, e1, e2, e3) = sextet_code (pack_bytes x y 0) 6 in
    (
      c ∷ d ∷ e ∷ [],
      rw (c1, d1, e1) refl,
      rw
          (
            c2,
            d2,
            e2,
            codes_of_two x y hx hy,
            first_octet x y 0 hx hy zero_byte,
            second_octet x y 0 hx hy zero_byte,
          )
          refl,
      refl,
      (c3, (d3, (e3, tt))),
    )
encoded (x ∷ y ∷ z ∷ rest) h =
    let (hx, (hy, (hz, hs))) = h in
    let (text, t1, t2, t3, t4) = encoded rest hs in
    let (c, c1, c2, c3) = sextet_code (pack_bytes x y z) 18 in
    let (d, d1, d2, d3) = sextet_code (pack_bytes x y z) 12 in
    let (e, e1, e2, e3) = sextet_code (pack_bytes x y z) 6 in
    let (f, f1, f2, f3) = sextet_code (pack_bytes x y z) 0 in
    (
      c ∷ d ∷ e ∷ f ∷ text,
      rw (c1, d1, e1, f1, t1) refl,
      rw
          (
            c2,
            d2,
            e2,
            f2,
            t2,
            codes_of_block x y z hx hy hz,
            first_octet x y z hx hy hz,
            second_octet x y z hx hy hz,
            third_octet x y z hx hy hz,
          )
          refl,
      ap (λ n. suc (suc (suc (suc n)))) t3 ∙ sym (text_len_block (length rest)),
      (c3, (d3, (e3, (f3, t4)))),
    )

suc_not_zero : (n : ℕ) → (suc n == 0) ≡ false
suc_not_zero n = ground arith

text_len_zero : text_len 0 ≡ 0
unfolding last_chars
text_len_zero = refl

module _ (n : ℕ) where
  pub text_len_back : 3 * (text_len n / 4) + last_bytes (text_len n % 4) ≡ n
  unfolding last_chars last_bytes
  text_len_back = ground arith

  pub text_len_rem : (text_len n % 4 == 1) ≡ false
  unfolding last_chars
  text_len_rem = ground arith

  pub text_len_nonzero : (text_len (suc n) == 0) ≡ false
  unfolding last_chars
  text_len_nonzero = ground arith

-- The nopad pair on a text that was encoded.
pub encode_nopad :
    (inp text : List ℕ) (max_len : ℕ)
    → encode_blocks inp ≡ some text
    → text_len (length inp) + 1 ≤ max_len
    → bin_to_b64_nopad inp max_len ≡ done (text_len (length inp)) (text ++ (0 ∷ []))
unfolding bin_to_b64_nopad encode_blocks
encode_nopad [] text max_len e room = ground (arith, e)
encode_nopad (x ∷ xs) text max_len e room =
    rw (e, ge→ltb max_len (text_len (length (x ∷ xs)) + 1) room)
      (rw (suc_not_zero (length xs)) refl)

pub decode_nopad :
    (inp text : List ℕ) (max_len : ℕ)
    → decode_blocks text ≡ some inp
    → length text ≡ text_len (length inp)
    → length inp ≤ max_len
    → b64_to_bin_nopad text max_len ≡ done (length inp) inp
unfolding b64_to_bin_nopad
decode_nopad [] text max_len e l room = rw (l ∙ text_len_zero) refl
decode_nopad (x ∷ xs) text max_len e l room =
    let n = length (x ∷ xs) in
    rw (l, e, text_len_back n, text_len_nonzero (length xs), text_len_rem n, ge→ltb max_len n room)
      refl

-- The number of bytes that a text decodes to.
abbrev pub bytes_len : ℕ → ℕ
bytes_len n = 3 * (n / 4) + last_bytes (n % 4)

bytes_len_block : (n : ℕ) → bytes_len (suc (suc (suc (suc n)))) ≡ suc (suc (suc (bytes_len n)))
bytes_len_block n = let e : suc (suc (suc (suc n))) % 4 ≡ n % 4 = omega arith in rw e (omega arith)

pub length-decode_blocks :
    (text out : List ℕ)
    → length text % 4 ≢ 1
    → decode_blocks text ≡ some out
    → length out ≡ bytes_len (length text)
unfolding decode_blocks last_bytes
length-decode_blocks [] out h e = ground (arith, e)
length-decode_blocks (c ∷ []) out h e = absurd (h refl)
length-decode_blocks (c ∷ d ∷ []) out h e = ground (arith, e)
length-decode_blocks (c ∷ d ∷ f ∷ []) out h e = ground (arith, e)
length-decode_blocks (c ∷ d ∷ f ∷ g ∷ rest) out h e = elim (Option-cases (decode_blocks rest)) [
  | inl n ↦ absurd (ground (arith, e, n))
  | inr (bytes, b) ↦
      let more : length out ≡ suc (suc (suc (length bytes))) = ground (arith, e, b) in
      let left : length rest % 4 ≢ 1 = λ k. h (omega (arith, k)) in
      more
      ∙ ap (λ n. suc (suc (suc n))) (length-decode_blocks rest bytes left b)
      ∙ sym (bytes_len_block (length rest))
]
