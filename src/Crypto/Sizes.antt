-- ===== src/Crypto/Sizes.antt =====
-- How long what the functions leave is, and how large a code is.
use dragino_fwd_src_lps8_mqt.Base.{
  ℕ, zero, suc, ◌+◌, ◌*◌, ◌/◌, ◌%◌, ◌^◌, ◌<◌, ◌≡◌, ◌++◌, refl, ap, ◌∙◌, inl, inr, List, [], ◌∷◌,
  length, take, set, get_or, u8, u16, bit_or, ◌<<<◌, arith, leb_cases, lt→ltb, ge→ltb,
}
use dragino_fwd_src_lps8_mqt.Base.Bits.{bit_or-shifted}
use dragino_fwd_src_lps8_mqt.Crypto.{
  Ciphers, set_fields, encrypt_blocks, xor_block, mic_of, lora_mac_payload_encrypt,
  lora_mac_compute_mic,
}
use dragino_fwd_src_lps8_mqt.Crypto.Stream.{length-xor_block}

module _ (ciphers : Ciphers) (key : List ℕ) where
  length-encrypt_blocks :
      (n : ℕ) (block buffer : List ℕ) (at ctr : ℕ) (enc : List ℕ)
      → length (encrypt_blocks ciphers n key block buffer at ctr enc).3 ≡ length enc
  unfolding encrypt_blocks
  length-encrypt_blocks zero block buffer at ctr enc = refl
  length-encrypt_blocks (suc n) block buffer at ctr enc =
      let block' = set block 15 (ctr % 256) in
      let s = ciphers.aes_encrypt key block' in
      length-encrypt_blocks n block' buffer (u8 (at + 16)) (u16 (ctr + 1))
        (xor_block enc buffer at s 16)
      ∙ length-xor_block enc buffer at s 16

  pub length-payload_encrypt :
      (block buffer : List ℕ) (size address dir counter : ℕ) (enc : List ℕ)
      → length (lora_mac_payload_encrypt ciphers block buffer size key address dir counter enc).1
        ≡ length enc
  unfolding lora_mac_payload_encrypt
  length-payload_encrypt block buffer size address dir counter enc =
      let base = set_fields block address dir counter in
      let after = encrypt_blocks ciphers (size / 16) key base buffer 0 1 enc in
      let blocks = length-encrypt_blocks (size / 16) base buffer 0 1 enc in
      elim (leb_cases (size % 16) 0) [
        | inl none_over ↦ rw (ge→ltb 0 (size % 16) none_over) blocks
        | inr over ↦ rw (lt→ltb 0 (size % 16) over) (
            length-xor_block after.3 buffer after.1
              (ciphers.aes_encrypt key (set after.0 15 (after.2 % 256))) (size % 16)
            ∙ blocks)
      ]

-- A code of four bytes is a number of 32 bits.
pub mic_of-fits :
    (code : List ℕ)
    → get_or code 0 0 < 256
    → get_or code 1 0 < 256
    → get_or code 2 0 < 256
    → get_or code 3 0 < 256
    → mic_of code < 2 ^ 32
unfolding mic_of
mic_of-fits code h0 h1 h2 h3 =
    let c0 = get_or code 0 0 in
    let c1 = get_or code 1 0 in
    let c2 = get_or code 2 0 in
    let c3 = get_or code 3 0 in
    let high : bit_or (c3 <<< 24) (c2 <<< 16) ≡ (c3 * 256 + c2) * 2 ^ 16 =
      bit_or-shifted 24 c3 (c2 <<< 16) (omega arith) ∙ omega arith in
    let middle : bit_or (bit_or (c3 <<< 24) (c2 <<< 16)) (c1 <<< 8)
        ≡ ((c3 * 256 + c2) * 256 + c1) * 2 ^ 8 =
      ap (λ t. bit_or t (c1 <<< 8)) high
      ∙ bit_or-shifted 16 (c3 * 256 + c2) (c1 <<< 8) (omega arith)
      ∙ omega arith in
    let low : mic_of code ≡ ((c3 * 256 + c2) * 256 + c1) * 2 ^ 8 + c0 =
      ap (λ t. bit_or t c0) middle
      ∙ bit_or-shifted 8 ((c3 * 256 + c2) * 256 + c1) c0 (omega arith) in
    omega (arith, low)

module _ (ciphers : Ciphers) where
  -- The code depends on the bytes that it is taken of.
  pub compute_mic_prefix :
      (block a b : List ℕ) (size : ℕ) (key : List ℕ) (address dir counter : ℕ)
      → size < 256
      → take size a ≡ take size b
      → (lora_mac_compute_mic ciphers block a size key address dir counter).1
        ≡ (lora_mac_compute_mic ciphers block b size key address dir counter).1
  unfolding lora_mac_compute_mic
  compute_mic_prefix block a b size key address dir counter small same =
      let whole : size % 256 ≡ size = omega arith in rw (whole, same) refl

  -- What the CMAC makes of a message with the key starts with four bytes.
  abbrev pub BytesOf : List ℕ → Type 0
  BytesOf key = (m : List ℕ) (i : ℕ) → i < 4 → get_or (ciphers.aes_cmac key m) i 0 < 256

  pub compute_mic-fits :
      (block b : List ℕ) (size : ℕ) (key : List ℕ) (address dir counter : ℕ)
      → BytesOf key
      → (lora_mac_compute_mic ciphers block b size key address dir counter).1 < 2 ^ 32
  unfolding lora_mac_compute_mic
  compute_mic-fits block b size key address dir counter bytes =
      let byte = λ (i : ℕ) (h : i < 4).
        bytes (set (set_fields block address dir counter) 15 (size % 256) ++ take (size % 256) b) i
          h in
      mic_of-fits _ (byte 0 (omega arith)) (byte 1 (omega arith)) (byte 2 (omega arith))
        (byte 3 (omega arith))

-- A block that was filled for one counter is filled for another as before: each place that the
-- fields take is written again, so the list is followed through its sixteen places.
mic_block_again :
    (block : List ℕ) (address dir counter counter' size : ℕ)
    → set
        (set_fields (set (set_fields block address dir counter) 15 size) address dir counter')
        15
        size
      ≡ set (set_fields block address dir counter') 15 size
unfolding set_fields
mic_block_again [] address dir counter counter' size = refl
mic_block_again (b0 ∷ []) address dir counter counter' size = refl
mic_block_again (b0 ∷ b1 ∷ []) address dir counter counter' size = refl
mic_block_again (b0 ∷ b1 ∷ b2 ∷ []) address dir counter counter' size = refl
mic_block_again (b0 ∷ b1 ∷ b2 ∷ b3 ∷ []) address dir counter counter' size = refl
mic_block_again (b0 ∷ b1 ∷ b2 ∷ b3 ∷ b4 ∷ []) address dir counter counter' size = refl
mic_block_again (b0 ∷ b1 ∷ b2 ∷ b3 ∷ b4 ∷ b5 ∷ []) address dir counter counter' size = refl
mic_block_again (b0 ∷ b1 ∷ b2 ∷ b3 ∷ b4 ∷ b5 ∷ b6 ∷ []) address dir counter counter' size = refl
mic_block_again (b0 ∷ b1 ∷ b2 ∷ b3 ∷ b4 ∷ b5 ∷ b6 ∷ b7 ∷ []) address dir counter counter' size =
    refl
mic_block_again (b0 ∷ b1 ∷ b2 ∷ b3 ∷ b4 ∷ b5 ∷ b6 ∷ b7 ∷ b8 ∷ []) address dir counter counter'
      size =
    refl
mic_block_again (b0 ∷ b1 ∷ b2 ∷ b3 ∷ b4 ∷ b5 ∷ b6 ∷ b7 ∷ b8 ∷ b9 ∷ []) address dir counter counter'
      size =
    refl
mic_block_again (b0 ∷ b1 ∷ b2 ∷ b3 ∷ b4 ∷ b5 ∷ b6 ∷ b7 ∷ b8 ∷ b9 ∷ b10 ∷ []) address dir counter
      counter' size =
    refl
mic_block_again (b0 ∷ b1 ∷ b2 ∷ b3 ∷ b4 ∷ b5 ∷ b6 ∷ b7 ∷ b8 ∷ b9 ∷ b10 ∷ b11 ∷ []) address dir
      counter counter' size =
    refl
mic_block_again (b0 ∷ b1 ∷ b2 ∷ b3 ∷ b4 ∷ b5 ∷ b6 ∷ b7 ∷ b8 ∷ b9 ∷ b10 ∷ b11 ∷ b12 ∷ []) address dir
      counter counter' size =
    refl
mic_block_again (b0 ∷ b1 ∷ b2 ∷ b3 ∷ b4 ∷ b5 ∷ b6 ∷ b7 ∷ b8 ∷ b9 ∷ b10 ∷ b11 ∷ b12 ∷ b13 ∷ [])
      address dir counter counter' size =
    refl
mic_block_again (b0 ∷ b1 ∷ b2 ∷ b3 ∷ b4 ∷ b5 ∷ b6 ∷ b7 ∷ b8 ∷ b9 ∷ b10 ∷ b11 ∷ b12 ∷ b13 ∷ b14 ∷ [])
      address dir counter counter' size =
    refl
mic_block_again
      (b0 ∷ b1 ∷ b2 ∷ b3 ∷ b4 ∷ b5 ∷ b6 ∷ b7 ∷ b8 ∷ b9 ∷ b10 ∷ b11 ∷ b12 ∷ b13 ∷ b14 ∷ b15 ∷ rest)
      address dir counter counter' size =
    refl

module _ (ciphers : Ciphers) where
  -- The block that a computation leaves serves the next one as well as the block before it.
  pub compute_mic-again :
      (block b : List ℕ) (size : ℕ) (key : List ℕ) (address dir counter counter' : ℕ)
      → (lora_mac_compute_mic ciphers
          (lora_mac_compute_mic ciphers block b size key address dir counter).0
          b
          size
          key
          address
          dir
          counter').1
        ≡ (lora_mac_compute_mic ciphers block b size key address dir counter').1
  unfolding lora_mac_compute_mic
  compute_mic-again block b size key address dir counter counter' =
      rw (mic_block_again block address dir counter counter' (size % 256)) refl
