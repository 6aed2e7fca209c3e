-- ===== src/Base64/Padding.antt =====
-- The padded pair, by the unpadded one.
use dragino_fwd_src_lps8_mqt.Base.{
  ℕ, ◌+◌, ◌-◌, ◌*◌, ◌/◌, ◌%◌, ◌<◌, ◌≡◌, refl, sym, ◌∙◌, ◌≢◌, List, [], ◌∷◌, ◌++◌, arith, length,
  All, ◌&&◌, ◌≤◌, false, true, leb, ◌==◌, get_or, ◌⊎◌, inl, inr, le→leb, lt→ltb, take-append,
  Bool-cases, length-append, ==_false, append_assoc, get_or-left, get_or-append, leb_cases, gt→leb,
  ◌↔◌,
}
use dragino_fwd_src_lps8_mqt.Base64.{
  code_pad, last_chars, bin_to_b64_nopad, b64_to_bin_nopad, done, fails, pad, bin_to_b64,
  b64_to_bin,
}
use dragino_fwd_src_lps8_mqt.Base.Perms.{All-get_or}
use dragino_fwd_src_lps8_mqt.Base64.RoundTrip.{
  IsByte, NoPad, encoded, text_len, encode_nopad, decode_nopad,
}

not_pad :
    (text : List ℕ) (i : ℕ) → NoPad text → i < length text → (get_or text i 0 == code_pad) ≡ false
not_pad text i clean h =
    ==_false (get_or text i 0) code_pad (All-get_or (λ c. c ≢ code_pad) text i 0 h clean)

-- What the decoder strips.
strip_two :
    (text : List ℕ) (m : ℕ)
    → length text % 4 ≡ 2
    → b64_to_bin (text ++ (code_pad ∷ code_pad ∷ [])) m ≡ b64_to_bin_nopad text m
unfolding b64_to_bin
strip_two text m h =
    let k = length text in
    let t1 : ((k + 2) % 4 == 0) ≡ true = ground arith in
    let t2 : leb 4 (k + 2) ≡ true = ground arith in
    let t3 : k + 2 - 2 ≡ k = omega arith in
    rw
      (
        length-append text (code_pad ∷ code_pad ∷ []),
        t1,
        t2,
        t3,
        get_or-append text (code_pad ∷ code_pad ∷ []) 0,
        take-append k text (code_pad ∷ code_pad ∷ []) refl,
      )
      refl

strip_one :
    (text : List ℕ) (m : ℕ)
    → NoPad text
    → length text % 4 ≡ 3
    → b64_to_bin (text ++ (code_pad ∷ [])) m ≡ b64_to_bin_nopad text m
unfolding b64_to_bin
strip_one text m clean h =
    let k = length text in
    let t1 : ((k + 1) % 4 == 0) ≡ true = ground arith in
    let t2 : leb 4 (k + 1) ≡ true = ground arith in
    let t3 : k + 1 - 1 ≡ k = omega arith in
    rw
      (
        length-append text (code_pad ∷ []),
        t1,
        t2,
        t3,
        get_or-left text (code_pad ∷ []) (k + 1 - 2) 0 (omega arith),
        not_pad text (k + 1 - 2) clean (omega arith),
        get_or-append text (code_pad ∷ []) 0,
        take-append k text (code_pad ∷ []) refl,
      )
      refl

strip_none : (text : List ℕ) (m : ℕ) → NoPad text → b64_to_bin text m ≡ b64_to_bin_nopad text m
unfolding b64_to_bin
strip_none text m clean = elim (Bool-cases (length text % 4 == 0 && leb 4 (length text))) [
  | inl t ↦
      let big : 4 ≤ length text = ground arith in
      rw
        (
          t,
          not_pad text (length text - 2) clean (omega arith),
          not_pad text (length text - 1) clean (omega arith),
        )
        refl
  | inr t ↦ rw t refl
]

-- How many characters of padding there are.
pad_cases :
    (n : ℕ)
    → ((text_len n % 4 ≡ 0) × (4 * ((n + 2) / 3) ≡ text_len n))
      ⊎ (((text_len n % 4 ≡ 2) × (4 * ((n + 2) / 3) ≡ text_len n + 2))
          ⊎ ((text_len n % 4 ≡ 3) × (4 * ((n + 2) / 3) ≡ text_len n + 1)))
unfolding last_chars
pad_cases n = elim (Bool-cases (n % 3 == 0)) [
  | inl u ↦ inl (ground arith, ground arith)
  | inr u ↦ elim (Bool-cases (n % 3 == 1)) [
    | inl v ↦ inr (inl (ground arith, ground arith))
    | inr v ↦ inr (inr (ground arith, ground arith))
  ]
]

-- What the encoder adds to `n` characters that are written with their terminator.
module _ (text : List ℕ) (max_len : ℕ) where
  pad_two :
      (n : ℕ)
      → length text ≡ n
      → n % 4 ≡ 2
      → n + 2 + 1 ≤ max_len
      → pad max_len n (text ++ (0 ∷ []))
        ≡ done (n + 2) ((text ++ (code_pad ∷ code_pad ∷ [])) ++ (0 ∷ []))
  unfolding pad
  pad_two n l h room =
      rw
        (
          h,
          le→leb (n + 2 + 1) max_len room,
          take-append n text (0 ∷ []) l,
          append_assoc text (code_pad ∷ code_pad ∷ []) (0 ∷ []),
        )
        refl

  pad_one :
      (n : ℕ)
      → length text ≡ n
      → n % 4 ≡ 3
      → n + 1 + 1 ≤ max_len
      → pad max_len n (text ++ (0 ∷ [])) ≡ done (n + 1) ((text ++ (code_pad ∷ [])) ++ (0 ∷ []))
  unfolding pad
  pad_one n l h room =
      rw
        (
          h,
          le→leb (n + 1 + 1) max_len room,
          take-append n text (0 ∷ []) l,
          append_assoc text (code_pad ∷ []) (0 ∷ []),
        )
        refl

  pad_none : (n : ℕ) → n % 4 ≡ 0 → pad max_len n (text ++ (0 ∷ [])) ≡ done n (text ++ (0 ∷ []))
  unfolding pad
  pad_none n h = rw h refl

-- What bin_to_b64 makes of bytes has four characters for every three bytes or part of them; in
-- a buffer with room for them and the terminator it returns their number and writes them, and
-- b64_to_bin with room for the bytes gives the bytes back.
pub b64_round_trip :
    (inp : List ℕ) (max_len max_bytes : ℕ)
    → All IsByte inp
    → 4 * ((length inp + 2) / 3) + 1 ≤ max_len
    → length inp ≤ max_bytes
    → (text : List ℕ) × (bin_to_b64 inp max_len
        ≡ done (4 * ((length inp + 2) / 3)) (text ++ (0 ∷ [])))
      × (length text ≡ 4 * ((length inp + 2) / 3))
      × (b64_to_bin text max_bytes ≡ done (length inp) inp)
unfolding bin_to_b64
b64_round_trip inp max_len max_bytes bytes room room2 =
    let n = length inp in
    let (text, t1, t2, t3, clean) = encoded inp bytes in
    let raw : (text_len n + 1 ≤ max_len
        → bin_to_b64_nopad inp max_len ≡ done (text_len n) (text ++ (0 ∷ []))) =
      encode_nopad inp text max_len t1 in
    let back : b64_to_bin_nopad text max_bytes ≡ done n inp =
      decode_nopad inp text max_bytes t2 t3 room2 in
    elim (pad_cases n) [
      | inl (m, e) ↦ (
        text,
        rw (raw (omega arith), e) (pad_none text max_len (text_len n) m),
        t3 ∙ sym e,
        strip_none text max_bytes clean ∙ back,
      )
      | inr (inl (m, e)) ↦ (
        text ++ (code_pad ∷ code_pad ∷ []),
        rw (raw (omega arith), e) (pad_two text max_len (text_len n) t3 m (omega arith)),
        omega (arith, length-append text (code_pad ∷ code_pad ∷ [])),
        strip_two text max_bytes (omega arith) ∙ back,
      )
      | inr (inr (m, e)) ↦ (
        text ++ (code_pad ∷ []),
        rw (raw (omega arith), e) (pad_one text max_len (text_len n) t3 m (omega arith)),
        omega (arith, length-append text (code_pad ∷ [])),
        strip_one text max_bytes clean (omega arith) ∙ back,
      )
    ]

done-fails : {n : ℕ} {out : List ℕ} → done n out ≢ fails
done-fails e = cc e

encode_tiny :
    (inp : List ℕ) (max_len : ℕ)
    → 0 < length inp
    → max_len < text_len (length inp) + 1
    → bin_to_b64_nopad inp max_len ≡ fails
unfolding bin_to_b64_nopad
encode_tiny inp max_len some_bytes small =
    rw
      (==_false (length inp) 0 (λ e. omega arith), lt→ltb max_len (text_len (length inp) + 1) small)
      refl

pad_fails :
    (max_len n : ℕ) (out : List ℕ)
    → text_len n + 1 ≤ max_len
    → max_len < 4 * ((n + 2) / 3) + 1
    → pad max_len (text_len n) out ≡ fails
unfolding pad
pad_fails max_len n out raw small = elim (pad_cases n) [
  | inl (m, e) ↦ absurd (omega arith)
  | inr (inl (m, e)) ↦ rw (m, gt→leb (text_len n + 2 + 1) max_len (omega arith)) refl
  | inr (inr (m, e)) ↦ rw (m, gt→leb (text_len n + 1 + 1) max_len (omega arith)) refl
]

-- bin_to_b64 of bytes that are not empty returns -1 exactly when the buffer has no room for the
-- padded text and the terminator.
pub bin_to_b64_fails_iff :
    (inp : List ℕ) (max_len : ℕ)
    → All IsByte inp
    → 0 < length inp
    → (bin_to_b64 inp max_len ≡ fails) ↔ (max_len < 4 * ((length inp + 2) / 3) + 1)
unfolding bin_to_b64
bin_to_b64_fails_iff inp max_len bytes some_bytes = (
  (λ e. elim (leb_cases (4 * ((length inp + 2) / 3) + 1) max_len) [
    | inl room ↦
        let (text, t1, _, _) = b64_round_trip inp max_len (length inp) bytes room (omega arith) in
        absurd (done-fails (sym t1 ∙ e))
    | inr small ↦ small
  ]),
  (λ small. elim (leb_cases (text_len (length inp) + 1) max_len) [
    | inl raw ↦
        let (text, t1, _, _, _) = encoded inp bytes in
        rw (encode_nopad inp text max_len t1 raw)
          (pad_fails max_len (length inp) (text ++ (0 ∷ [])) raw small)
    | inr tiny ↦ rw (encode_tiny inp max_len some_bytes tiny) refl
  ]),
)
