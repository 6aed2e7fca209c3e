-- ===== src/Crypto.antt =====
-- Encryption and integrity codes of frames, src/fwd/src/loramac-crypto.c.
-- The block cipher and the CMAC are the libraries of aes.c and cmac.c: parameters here. The static
-- block `aBlock` is state that the functions take and leave.
pub mod Stream
pub mod Payload
pub mod Sizes
mod Tests
use dragino_fwd_src_lps8_mqt.Base.{
  ℕ, zero, suc, ◌+◌, ◌-◌, ◌*◌, ◌/◌, ◌%◌, ◌^◌, List, [], ◌∷◌, ◌++◌, leb, ltb, ◌==◌, if◌then◌else◌,
  set, get_or, take, drop, replicate, u8, u16, bit_xor, bit_or, ◌<<<◌, ◌>>>◌,
}
use dragino_fwd_src_lps8_mqt.Util.{lgw_memset, lgw_memcpy}

-- What the sources of the cipher and of the CMAC compute from a key.
pub record Ciphers : Type 0 where
  pub aes_encrypt : List ℕ → List ℕ → List ℕ
  pub aes_decrypt : List ℕ → List ℕ → List ℕ
  pub aes_cmac : List ℕ → List ℕ → List ℕ

-- `aBlock` and `MicBlockB0` have the same places for the direction, the address and the counter.
pub set_fields : List ℕ → (address dir counter : ℕ) → List ℕ
set_fields block address dir counter =
    let b5 = set block 5 dir in
    let b6 = set b5 6 (address % 256) in
    let b7 = set b6 7 ((address >>> 8) % 256) in
    let b8 = set b7 8 ((address >>> 16) % 256) in
    let b9 = set b8 9 ((address >>> 24) % 256) in
    let b10 = set b9 10 (counter % 256) in
    let b11 = set b10 11 ((counter >>> 8) % 256) in
    let b12 = set b11 12 ((counter >>> 16) % 256) in set b12 13 ((counter >>> 24) % 256)

-- The first four bytes of the code, as a number.
pub mic_of : List ℕ → ℕ
mic_of code =
    bit_or
      (bit_or (bit_or (get_or code 3 0 <<< 24) (get_or code 2 0 <<< 16)) (get_or code 1 0 <<< 8))
      (get_or code 0 0)

-- `buffer` at `at` xor the block `s`, `n` bytes of it, into `enc`.
pub xor_block : (enc buffer : List ℕ) → ℕ → List ℕ → ℕ → List ℕ
xor_block enc buffer at s zero = enc
xor_block enc buffer at [] (suc n) = enc
xor_block enc buffer at (k ∷ s) (suc n) =
    xor_block (set enc at (bit_xor (get_or buffer at 0) k)) buffer (at + 1) s n

-- With BIGENDIAN the lower byte of `devNonce` is its second one.
pub session_nonce : ℕ → List ℕ → ℕ → List ℕ
session_nonce first app_nonce dev_nonce =
    let nonce = set (lgw_memset (replicate 16 0) 0 16) 0 first in
    let nonce' = take 1 nonce ++ lgw_memcpy (drop 1 nonce) app_nonce 6 in
    set (set nonce' 7 (dev_nonce % 256)) 8 (dev_nonce / 256)

module _ (ciphers : Ciphers) where
  open ciphers use {aes_encrypt, aes_decrypt, aes_cmac}

  -- `MicBlockB0` and the code.
  pub lora_mac_compute_mic :
      (block buffer : List ℕ) (size : ℕ) (key : List ℕ) (address dir counter : ℕ) → List ℕ × ℕ
  unfolding set_fields
  lora_mac_compute_mic block buffer size key address dir counter =
      let block' = set (set_fields block address dir counter) 15 (size % 256) in
      (block', mic_of (aes_cmac key (block' ++ take (size % 256) buffer)))

  -- The loop over full blocks, `n` of them, with `bufferIndex` at `at`: the block, the index, the
  -- counter and the output after it.
  pub encrypt_blocks :
      ℕ → (key block buffer : List ℕ) → (at ctr : ℕ) → List ℕ → List ℕ × ℕ × ℕ × List ℕ
  encrypt_blocks zero key block buffer at ctr enc = (block, at, ctr, enc)
  encrypt_blocks (suc n) key block buffer at ctr enc =
      let block' = set block 15 (ctr % 256) in
      encrypt_blocks n key block' buffer (u8 (at + 16)) (u16 (ctr + 1))
        (xor_block enc buffer at (aes_encrypt key block') 16)

  -- `aBlock` and `encBuffer` after the call.
  pub lora_mac_payload_encrypt :
      (block buffer : List ℕ) (size : ℕ) (key : List ℕ) (address dir counter : ℕ)
      → List ℕ
      → List ℕ × List ℕ
  unfolding set_fields encrypt_blocks
  lora_mac_payload_encrypt block buffer size key address dir counter enc =
      let after =
        encrypt_blocks (size / 16) key (set_fields block address dir counter) buffer 0 1 enc in
      let block' = set after.0 15 (after.2 % 256) in
      if ltb 0 (size % 16)
      then (block', xor_block after.3 buffer after.1 (aes_encrypt key block') (size % 16))
      else (after.0, after.3)

  pub lora_mac_payload_decrypt :
      (block buffer : List ℕ) (size : ℕ) (key : List ℕ) (address dir counter : ℕ)
      → List ℕ
      → List ℕ × List ℕ
  lora_mac_payload_decrypt = lora_mac_payload_encrypt

  -- The two session keys, for the network and for the application.
  pub lora_mac_join_compute_s_keys : (key app_nonce : List ℕ) → ℕ → List ℕ × List ℕ
  unfolding session_nonce
  lora_mac_join_compute_s_keys key app_nonce dev_nonce = (
    aes_encrypt key (session_nonce 0x01 app_nonce dev_nonce),
    aes_encrypt key (session_nonce 0x02 app_nonce dev_nonce),
  )

  pub lora_mac_join_compute_mic : (buffer : List ℕ) (size : ℕ) (key : List ℕ) → ℕ
  lora_mac_join_compute_mic buffer size key = mic_of (aes_cmac key (take (size % 256) buffer))

  pub lora_mac_join_decrypt : (buffer : List ℕ) (size : ℕ) (key dec : List ℕ) → List ℕ
  lora_mac_join_decrypt buffer size key dec =
      let dec' = aes_decrypt key (take 16 buffer) ++ drop 16 dec in
      if leb 16 size
      then take 16 dec' ++ (aes_decrypt key (take 16 (drop 16 buffer)) ++ drop 32 dec')
      else dec'

  pub lora_mac_join_encrypt : (buffer : List ℕ) (size : ℕ) (key enc : List ℕ) → List ℕ
  unfolding lora_mac_join_decrypt
  lora_mac_join_encrypt buffer size key enc = lora_mac_join_decrypt buffer size key enc
