-- ===== src/Crypto/Tests.antt =====
-- The round trip with a cipher that stands in for AES: sixteen times the last byte of the block.
use dragino_fwd_src_lps8_mqt.Base.{
  ℕ, ◌+◌, ◌<◌, ◌≤◌, ◌≡◌, refl, List, [], ◌∷◌, replicate, get_or, arith,
}
use dragino_fwd_src_lps8_mqt.Crypto.{Ciphers, lora_mac_payload_encrypt, lora_mac_payload_decrypt}
use dragino_fwd_src_lps8_mqt.Crypto.Payload.{payload_round_trip}

abbrev toy : Ciphers
toy = record {
  aes_encrypt = λ key block. replicate 16 (get_or block 15 0 + get_or key 0 0);
  aes_decrypt = λ key block. block;
  aes_cmac = λ key message. key;
}

abbrev a_block : List ℕ
a_block = 1 ∷ replicate 15 0

-- Twenty bytes: one full block and four bytes.
payload_round_trip_example :
    let coded =
      (lora_mac_payload_encrypt toy a_block
        (replicate 20 7)
        20
        (9 ∷ [])
        0x26011bda
        0
        5
        (replicate 20 0)).1 in
    let plain =
      (lora_mac_payload_decrypt toy a_block coded 20 (9 ∷ []) 0x26011bda 0 5 (replicate 32 0)).1 in
    ((17 < 20) → get_or plain 17 0 ≡ get_or (replicate 20 7) 17 0)
    × ((20 ≤ 17) → get_or plain 17 0 ≡ get_or (replicate 32 0) 17 0)
payload_round_trip_example =
    payload_round_trip toy (9 ∷ []) a_block (replicate 20 7) (replicate 20 0) (replicate 32 0) 20
      0x26011bda 0 5 17 (λ b. refl) (omega arith) (omega arith) (omega arith)
