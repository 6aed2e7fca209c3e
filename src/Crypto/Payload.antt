-- ===== src/Crypto/Payload.antt =====
-- Encryption and decryption of a payload.
use dragino_fwd_src_lps8_mqt.Base.{
  ℕ, ◌+◌, ◌*◌, ◌/◌, ◌%◌, ◌<◌, ◌≤◌, ◌≡◌, inl, inr, refl, ap, ◌∙◌, List, length, set, get_or, bit_xor,
  arith, leb_cases, lt→ltb,
}
use dragino_fwd_src_lps8_mqt.Base.Bits.{bit_xor_cancel}
use dragino_fwd_src_lps8_mqt.Crypto.{
  Ciphers, set_fields, encrypt_blocks, xor_block, lora_mac_payload_encrypt,
  lora_mac_payload_decrypt,
}
use dragino_fwd_src_lps8_mqt.Crypto.Stream.{
  Encrypted, block_at, stream, encrypt_blocks_lem, xor_stream, xor_block_outside,
}

module _ (ciphers : Ciphers) (key : List ℕ)
    (blocks_long : (block : List ℕ) → length (ciphers.aes_encrypt key block) ≡ 16) where
  module _ (block buffer enc : List ℕ) (size address dir counter : ℕ) where
    whole_blocks :
        size % 16 ≡ 0
        → (lora_mac_payload_encrypt ciphers block buffer size key address dir counter enc).1
          ≡ (encrypt_blocks ciphers
              (size / 16)
              key
              (set_fields block address dir counter)
              buffer
              0
              1
              enc).3
    unfolding lora_mac_payload_encrypt
    whole_blocks h = rw h refl

    part_block :
        0 < size % 16
        → (lora_mac_payload_encrypt ciphers block buffer size key address dir counter enc).1 ≡ (
            let after =
              encrypt_blocks ciphers
                (size / 16)
                key
                (set_fields block address dir counter)
                buffer
                0
                1
                enc in
            xor_block after.3 buffer after.1
              (ciphers.aes_encrypt key (set after.0 15 (after.2 % 256)))
              (size % 16))
    unfolding lora_mac_payload_encrypt
    part_block h = rw (lt→ltb 0 (size % 16) h) refl

  -- The last block, that is not full, on what the full blocks have left.
  part_stream :
      (base buffer enc : List ℕ) (size : ℕ) (after : List ℕ × ℕ × ℕ × List ℕ)
      → Encrypted ciphers key base (size / 16) 0 buffer enc after
      → size ≤ length enc
      → (i : ℕ)
      → let out =
          xor_block after.3 buffer after.1
            (ciphers.aes_encrypt key (set after.0 15 (after.2 % 256)))
            (size % 16) in
        ((i < size) → get_or out i 0 ≡ bit_xor (get_or buffer i 0) (stream ciphers key base i))
        × ((size ≤ i) → get_or out i 0 ≡ get_or enc i 0)
  part_stream base buffer enc size after (same, at, ctr, len, inside, outside) room i =
      let q = size / 16 in
      let s = ciphers.aes_encrypt key (set after.0 15 (after.2 % 256)) in
      let count : after.2 ≡ q + 1 = ctr ∙ omega arith in
      let e : s ≡ block_at ciphers key base q =
        ap (ciphers.aes_encrypt key)
          (same (after.2 % 256) ∙ ap (λ c. set base 15 (c % 256)) count) in
      let at' : after.1 ≡ q * 16 = at ∙ omega arith in
      rw at' (
        (λ lo. elim (leb_cases (q * 16) i) [
          | inl above ↦
              xor_stream ciphers key base blocks_long q i (size % 16) s buffer after.3 e
                (omega arith) (omega (arith, len)) above (omega arith)
          | inr below ↦
              xor_block_outside after.3 buffer (q * 16) s (size % 16) i (inl below)
              ∙ inside i (omega arith) (omega arith)
        ]),
        (λ hi.
            xor_block_outside after.3 buffer (q * 16) s (size % 16) i (inr (omega arith))
            ∙ outside i (inr (omega arith))),
      )

  pub payload_encrypt_stream :
      (block buffer enc : List ℕ) (size address dir counter i : ℕ)
      → size ≤ 255
      → size ≤ length enc
      → ((i < size)
          → get_or
              (lora_mac_payload_encrypt ciphers block buffer size key address dir counter enc).1
              i
              0
            ≡ bit_xor
                (get_or buffer i 0)
                (stream ciphers key (set_fields block address dir counter) i))
        × ((size ≤ i)
            → get_or
                (lora_mac_payload_encrypt ciphers block buffer size key address dir counter enc).1
                i
                0
              ≡ get_or enc i 0)
  payload_encrypt_stream block buffer enc size address dir counter i small room =
      let base = set_fields block address dir counter in
      let run =
        encrypt_blocks_lem ciphers key base blocks_long (size / 16) 0 base buffer enc (λ v. refl)
          (omega arith) (omega arith) in
      elim (leb_cases (size % 16) 0) [
        | inl whole ↦
            let (_, _, _, _, inside, outside) = run in
            rw (whole_blocks block buffer enc size address dir counter (omega arith))
              ((λ lo. inside i (omega arith) (omega arith)), (λ hi. outside i (inr (omega arith))))
        | inr part ↦ rw (part_block block buffer enc size address dir counter part) (
            part_stream base buffer enc size
              (encrypt_blocks ciphers (size / 16) key base buffer 0 1 enc) run room i)
      ]

-- Decryption is encryption.
pub decrypt-encrypt :
    (ciphers : Ciphers) → lora_mac_payload_decrypt ciphers ≡ lora_mac_payload_encrypt ciphers
unfolding lora_mac_payload_decrypt
decrypt-encrypt ciphers = refl

-- For a cipher with blocks of 16 bytes: what LoRaMacPayloadEncrypt makes of at most 255 bytes, LoRaMacPayloadDecrypt with the same key, address, direction and counter turns back, and it leaves what lies behind them in its buffer; the two start from the same static block.
pub payload_round_trip :
    (ciphers : Ciphers) (key block buffer enc dec : List ℕ) (size address dir counter i : ℕ)
    → ((b : List ℕ) → length (ciphers.aes_encrypt key b) ≡ 16)
    → size ≤ 255
    → size ≤ length enc
    → size ≤ length dec
    → let coded =
        (lora_mac_payload_encrypt ciphers block buffer size key address dir counter enc).1 in
      let plain =
        (lora_mac_payload_decrypt ciphers block coded size key address dir counter dec).1 in
      ((i < size) → get_or plain i 0 ≡ get_or buffer i 0)
      × ((size ≤ i) → get_or plain i 0 ≡ get_or dec i 0)
unfolding lora_mac_payload_decrypt
payload_round_trip ciphers key block buffer enc dec size address dir counter i long small room
      room' =
    let coded =
      (lora_mac_payload_encrypt ciphers block buffer size key address dir counter enc).1 in
    let out =
      payload_encrypt_stream ciphers key long block buffer enc size address dir counter i small
        room in
    let back =
      payload_encrypt_stream ciphers key long block coded dec size address dir counter i small
        room' in
    let k = stream ciphers key (set_fields block address dir counter) i in
    (
      (λ lo. back.0 lo ∙ ap (λ t. bit_xor t k) (out.0 lo) ∙ bit_xor_cancel (get_or buffer i 0) k),
      back.1,
    )
