-- ===== src/Packet/Uplink.antt =====
-- The search for the full counter of an uplink in `thread_pkt_deal_up`.
use dragino_fwd_src_lps8_mqt.Base.{
  ℕ, zero, suc, ◌+◌, ◌-◌, ◌*◌, List, Option, none, some, if◌then◌else◌, ◌==◌, u32, bit_or,
}
use dragino_fwd_src_lps8_mqt.Crypto.{Ciphers, lora_mac_compute_mic}
use dragino_fwd_src_lps8_mqt.Packet.{up}

module _ (ciphers : Ciphers) where
  -- The loop over `j`, `n` values of it from `j` on; the static block is left changed each time.
  unfoldable pub search_fcnt :
      ℕ
      → (j : ℕ) → (mic_block payload : List ℕ) → (size : ℕ) → (key : List ℕ)
      → (devaddr f_cnt mic : ℕ) → Option ℕ
  search_fcnt zero j block payload size key devaddr f_cnt mic = none
  search_fcnt (suc n) j block payload size key devaddr f_cnt mic =
      let fcnt = bit_or f_cnt (u32 (j * 0x10000)) in
      let (block', code) =
        lora_mac_compute_mic ciphers block payload (size - 4) key devaddr up fcnt in
      let rest = search_fcnt n (j + 1) block' payload size key devaddr f_cnt mic in
      if code == mic then some fcnt else rest

  -- `fcnt` after `if (!fcnt_valid)`.
  unfoldable pub uplink_fcnt :
      (fcnt_gap : ℕ)
      → (mic_block payload : List ℕ) → (size : ℕ) → (key : List ℕ) → (devaddr f_cnt mic : ℕ) → ℕ
  unfolding search_fcnt
  uplink_fcnt fcnt_gap block payload size key devaddr f_cnt mic =
      elim (search_fcnt fcnt_gap 0 block payload size key devaddr f_cnt mic) [
        | none ↦ f_cnt
        | some fcnt ↦ fcnt
      ]
