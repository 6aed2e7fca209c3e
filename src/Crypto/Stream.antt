-- ===== src/Crypto/Stream.antt =====
-- The output of one block and of the loop over full blocks, byte by byte.
use dragino_fwd_src_lps8_mqt.Base.{
  ℕ, zero, suc, ◌+◌, ◌-◌, ◌*◌, ◌/◌, ◌%◌, ◌<◌, ◌≤◌, ◌≡◌, ◌≢◌, ◌⊎◌, inl, inr, refl, sym, ap, ◌∙◌,
  List, [], ◌∷◌, length, set, get_or, bit_xor, arith, get_or-set, get_or-set_other, set-set,
  length-set, leb_cases, u8, u16,
}
use mathlib.Core.Path.{subst}
use dragino_fwd_src_lps8_mqt.Crypto.{Ciphers, xor_block, encrypt_blocks}

pub length-xor_block :
    (enc buffer : List ℕ) (at : ℕ) (s : List ℕ) (n : ℕ)
    → length (xor_block enc buffer at s n) ≡ length enc
unfolding xor_block
length-xor_block enc buffer at s zero = refl
length-xor_block enc buffer at [] (suc n) = refl
length-xor_block enc buffer at (k ∷ s) (suc n) =
    length-xor_block (set enc at (bit_xor (get_or buffer at 0) k)) buffer (at + 1) s n
    ∙ length-set enc at (bit_xor (get_or buffer at 0) k)

pub xor_block_outside :
    (enc buffer : List ℕ) (at : ℕ) (s : List ℕ) (n i : ℕ)
    → (i < at) ⊎ (at + n ≤ i)
    → get_or (xor_block enc buffer at s n) i 0 ≡ get_or enc i 0
unfolding xor_block
xor_block_outside enc buffer at s zero i h = refl
xor_block_outside enc buffer at [] (suc n) i h = refl
xor_block_outside enc buffer at (k ∷ s) (suc n) i h =
    let out : (i < at + 1) ⊎ (at + 1 + n ≤ i) = elim h [
      | inl t ↦ inl (omega arith)
      | inr t ↦ inr (omega arith)
    ] in
    let apart : at ≢ i =
      λ e. elim h [ inl t ↦ omega (arith, e, t) | inr t ↦ omega (arith, e, t) ] in
    xor_block_outside (set enc at (bit_xor (get_or buffer at 0) k)) buffer (at + 1) s n i out
    ∙ get_or-set_other enc at i (bit_xor (get_or buffer at 0) k) 0 apart

pub xor_block_inside :
    (enc buffer : List ℕ) (at : ℕ) (s : List ℕ) (n i : ℕ)
    → n ≤ length s
    → at + n ≤ length enc
    → at ≤ i
    → i < at + n
    → get_or (xor_block enc buffer at s n) i 0 ≡ bit_xor (get_or buffer i 0) (get_or s (i - at) 0)
unfolding xor_block
xor_block_inside enc buffer at s zero i hs he lo hi = absurd (omega arith)
xor_block_inside enc buffer at [] (suc n) i hs he lo hi = absurd (omega arith)
xor_block_inside enc buffer at (k ∷ s) (suc n) i hs he lo hi =
    let enc' = set enc at (bit_xor (get_or buffer at 0) k) in
    elim (leb_cases i at) [
      | inl here ↦
          let e : i ≡ at = omega arith in
          let z : at - at ≡ 0 = omega arith in
          rw (e, z)
            (xor_block_outside enc' buffer (at + 1) s n at (inl (omega arith))
              ∙ get_or-set enc at (bit_xor (get_or buffer at 0) k) 0 (omega arith))
      | inr above ↦
          let z : i - at ≡ suc (i - (at + 1)) = omega arith in
          rw z (
            xor_block_inside enc' buffer (at + 1) s n i (omega arith)
              (omega (arith, length-set enc at (bit_xor (get_or buffer at 0) k))) (omega arith)
              (omega arith))
    ]

encrypt_blocks-suc :
    (ciphers : Ciphers) (n at at' ctr ctr' : ℕ) (key block buffer enc : List ℕ)
    → u8 (at + 16) ≡ at'
    → u16 (ctr + 1) ≡ ctr'
    → encrypt_blocks ciphers (suc n) key block buffer at ctr enc
      ≡ encrypt_blocks ciphers n key
          (set block 15 (ctr % 256))
          buffer
          at'
          ctr'
          (xor_block enc buffer at (ciphers.aes_encrypt key (set block 15 (ctr % 256))) 16)
unfolding encrypt_blocks
encrypt_blocks-suc ciphers n at at' ctr ctr' key block buffer enc h k = rw (h, k) refl

-- The byte of the key stream at `i`: block number `i / 16`, counted from 1.
module _ (ciphers : Ciphers) (key base : List ℕ) where
  open ciphers use {aes_encrypt}

  abbrev pub block_at : ℕ → List ℕ
  block_at q = aes_encrypt key (set base 15 ((q + 1) % 256))

  abbrev pub stream : ℕ → ℕ
  stream i = get_or (block_at (i / 16)) (i % 16) 0

  -- What `n` blocks from block `q` on leave: the last block, the index, the counter, the output.
  abbrev pub Encrypted : (n q : ℕ) (buffer enc : List ℕ) (after : List ℕ × ℕ × ℕ × List ℕ) → Type 0
  Encrypted n q buffer enc after =
      ((v : ℕ) → set after.0 15 v ≡ set base 15 v)
      × (after.1 ≡ (q + n) * 16)
      × (after.2 ≡ q + n + 1)
      × (length after.3 ≡ length enc)
      × ((i : ℕ)
          → q * 16 ≤ i
          → i < (q + n) * 16
          → get_or after.3 i 0 ≡ bit_xor (get_or buffer i 0) (stream i))
      × ((i : ℕ) → (i < q * 16) ⊎ ((q + n) * 16 ≤ i) → get_or after.3 i 0 ≡ get_or enc i 0)

  module _ (blocks_long : (block : List ℕ) → length (aes_encrypt key block) ≡ 16) where
    pub xor_stream :
        (q i n : ℕ) (s buffer enc : List ℕ)
        → s ≡ block_at q
        → n ≤ 16
        → q * 16 + n ≤ length enc
        → q * 16 ≤ i
        → i < q * 16 + n
        → get_or (xor_block enc buffer (q * 16) s n) i 0 ≡ bit_xor (get_or buffer i 0) (stream i)
    xor_stream q i n s buffer enc e few room lo hi =
        let long : length s ≡ 16 = ap length e ∙ blocks_long (set base 15 ((q + 1) % 256)) in
        let block : i / 16 ≡ q = omega arith in
        let place : i % 16 ≡ i - q * 16 = omega arith in
        rw (block, place, sym e)
          (xor_block_inside enc buffer (q * 16) s n i (omega arith) room lo hi)

    one_more :
        (n q : ℕ) (buffer enc s : List ℕ) (after : List ℕ × ℕ × ℕ × List ℕ)
        → s ≡ block_at q
        → (q + suc n) * 16 ≤ length enc
        → Encrypted n (suc q) buffer (xor_block enc buffer (q * 16) s 16) after
        → Encrypted (suc n) q buffer enc after
    one_more n q buffer enc s after e room (same, at, ctr, len, inside, outside) = (
      same,
      at ∙ omega arith,
      ctr ∙ omega arith,
      len ∙ length-xor_block enc buffer (q * 16) s 16,
      (λ i lo hi. elim (leb_cases (suc q * 16) i) [
        | inl above ↦ inside i above (omega arith)
        | inr below ↦
            outside i (inl below)
            ∙ xor_stream q i 16 s buffer enc e (omega arith) (omega arith) lo (omega arith)
      ]),
      (λ i h. elim h [
        | inl t ↦
            outside i (inl (omega arith)) ∙ xor_block_outside enc buffer (q * 16) s 16 i (inl t)
        | inr t ↦
            outside i (inr (omega arith))
            ∙ xor_block_outside enc buffer (q * 16) s 16 i (inr (omega arith))
      ]),
    )

    -- A loop that starts at block `q` with a block that differs from `base` in the last byte only.
    pub encrypt_blocks_lem :
        (n q : ℕ) (block buffer enc : List ℕ)
        → ((v : ℕ) → set block 15 v ≡ set base 15 v)
        → (q + n) * 16 ≤ 255
        → (q + n) * 16 ≤ length enc
        → Encrypted n q buffer enc (encrypt_blocks ciphers n key block buffer (q * 16) (q + 1) enc)
    unfolding encrypt_blocks
    encrypt_blocks_lem zero q block buffer enc same small room =
        (same, omega arith, omega arith, refl, (λ i lo hi. absurd (omega arith)), (λ i h. refl))
    encrypt_blocks_lem (suc n) q block buffer enc same small room =
        let c = (q + 1) % 256 in
        let block' = set block 15 c in
        let s = aes_encrypt key block' in
        let enc' = xor_block enc buffer (q * 16) s 16 in
        let at : u8 (q * 16 + 16) ≡ suc q * 16 = omega arith in
        let ctr : u16 (q + 1 + 1) ≡ suc q + 1 = omega arith in
        let rest =
          encrypt_blocks_lem n (suc q) block' buffer enc' (λ v. set-set block 15 c v ∙ same v)
            (omega arith) (omega (arith, length-xor_block enc buffer (q * 16) s 16)) in
        subst (Encrypted (suc n) q buffer enc)
          (sym (
            encrypt_blocks-suc ciphers n (q * 16) (suc q * 16) (q + 1) (suc q + 1) key block buffer
              enc at ctr))
          (one_more n q buffer enc s
            (encrypt_blocks ciphers n key block' buffer (suc q * 16) (suc q + 1) enc')
            (ap (aes_encrypt key) (same c)) room rest)
