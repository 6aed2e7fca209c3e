-- ===== src/Packet/Counters.antt =====
-- The counters of downlinks, and the full counter of an uplink.
use dragino_fwd_src_lps8_mqt.Base.{
  ℕ, zero, suc, ◌+◌, ◌-◌, ◌*◌, ◌^◌, ◌<◌, ◌≤◌, ◌≡◌, ◌≢◌, refl, sym, ap, ◌∙◌, List, Option, none,
  some, arith, max, u32, bit_or, ==_refl, ==_false,
}
use dragino_fwd_src_lps8_mqt.Base.Bits.{bit_or-above}
use dragino_fwd_src_lps8_mqt.Crypto.{Ciphers, lora_mac_compute_mic}
use dragino_fwd_src_lps8_mqt.Crypto.Sizes.{compute_mic-again}
use dragino_fwd_src_lps8_mqt.Packet.{take_fcnt, up}
use dragino_fwd_src_lps8_mqt.Packet.Uplink.{search_fcnt, uplink_fcnt}

-- What the database holds after so many downlinks to a device.
abbrev pub stored_after : ℕ → Option ℕ
stored_after zero = none
stored_after (suc k) = (take_fcnt (stored_after k)).1

-- The database counts the downlinks.
pub stored_after_lem : (k : ℕ) → suc k < 2 ^ 32 → stored_after (suc k) ≡ some (suc k)
unfolding take_fcnt
stored_after_lem zero h = refl
stored_after_lem (suc k) h =
    let low : u32 (u32 (suc k) + 1) ≡ suc (suc k) = omega arith in
    ap (λ o. (take_fcnt o).1) (stored_after_lem k (omega arith)) ∙ ap some low

-- The downlink that follows k others to a device has the counter k, but the first one has the counter 1, which the second one has again.
pub take_fcnt_nth : (k : ℕ) → k < 2 ^ 32 → (take_fcnt (stored_after k)).0 ≡ max 1 k
unfolding take_fcnt
take_fcnt_nth zero h = refl
take_fcnt_nth (suc k) h =
    let low : u32 (suc k) ≡ max 1 (suc k) = omega arith in
    ap (λ o. (take_fcnt o).0) (stored_after_lem k h) ∙ low

module _ (ciphers : Ciphers) (mic_block payload : List ℕ) (size : ℕ) (key : List ℕ)
    (devaddr f_cnt mic : ℕ) where
  -- The code of the uplink for a counter.
  abbrev pub code_for : ℕ → ℕ
  code_for c = (lora_mac_compute_mic ciphers mic_block payload (size - 4) key devaddr up c).1

  abbrev candidate : ℕ → ℕ
  candidate j = bit_or f_cnt (u32 (j * 0x10000))

  -- The blocks that give these codes.
  abbrev Serves : List ℕ → Type 0
  Serves block =
      (c : ℕ)
      → (lora_mac_compute_mic ciphers block payload (size - 4) key devaddr up c).1 ≡ code_for c

  Serves-next :
      (block : List ℕ) (c : ℕ)
      → Serves block
      → Serves (lora_mac_compute_mic ciphers block payload (size - 4) key devaddr up c).0
  Serves-next block c s d =
      compute_mic-again ciphers block payload (size - 4) key devaddr up c d ∙ s d

  search_fcnt-found :
      (n j k : ℕ) (block : List ℕ)
      → Serves block
      → k < n
      → ((i : ℕ) → i < k → code_for (candidate (j + i)) ≢ mic)
      → code_for (candidate (j + k)) ≡ mic
      → search_fcnt ciphers n j block payload size key devaddr f_cnt mic ≡ some (candidate (j + k))
  unfolding search_fcnt
  search_fcnt-found zero j k block s h less hit = absurd (omega arith)
  search_fcnt-found (suc n) j zero block s h less hit =
      let here : j + 0 ≡ j = omega arith in
      let now : code_for (candidate j) ≡ mic = ap (λ i. code_for (candidate i)) (sym here) ∙ hit in
      rw (s (candidate j), now, ==_refl mic) (ap (λ i. some (candidate i)) (sym here))
  search_fcnt-found (suc n) j (suc k) block s h less hit =
      let here : j ≡ j + 0 = omega arith in
      let miss : code_for (candidate j) ≢ mic =
        λ e. less 0 (omega arith) (ap (λ i. code_for (candidate i)) (sym here) ∙ e) in
      let on : j + 1 + k ≡ j + suc k = omega arith in
      let next : (i : ℕ) → i < k → code_for (candidate (j + 1 + i)) ≢ mic = λ i below e.
        let at : j + suc i ≡ j + 1 + i = omega arith in
        less (suc i) (omega arith) (ap (λ t. code_for (candidate t)) at ∙ e) in
      rw (s (candidate j), ==_false (code_for (candidate j)) mic miss)
        (search_fcnt-found n (j + 1) k
            (lora_mac_compute_mic ciphers block payload (size - 4) key devaddr up (candidate j)).0
            (Serves-next block (candidate j) s) (omega arith) next
            (ap (λ t. code_for (candidate t)) on ∙ hit)
          ∙ ap (λ t. some (candidate t)) on)

  search_fcnt-none :
      (n j : ℕ) (block : List ℕ)
      → Serves block
      → ((i : ℕ) → i < n → code_for (candidate (j + i)) ≢ mic)
      → search_fcnt ciphers n j block payload size key devaddr f_cnt mic ≡ none
  unfolding search_fcnt
  search_fcnt-none zero j block s less = refl
  search_fcnt-none (suc n) j block s less =
      let here : j ≡ j + 0 = omega arith in
      let miss : code_for (candidate j) ≢ mic =
        λ e. less 0 (omega arith) (ap (λ i. code_for (candidate i)) (sym here) ∙ e) in
      let next : (i : ℕ) → i < n → code_for (candidate (j + 1 + i)) ≢ mic = λ i below e.
        let at : j + suc i ≡ j + 1 + i = omega arith in
        less (suc i) (omega arith) (ap (λ t. code_for (candidate t)) at ∙ e) in
      rw (s (candidate j), ==_false (code_for (candidate j)) mic miss)
        (search_fcnt-none n (j + 1)
          (lora_mac_compute_mic ciphers block payload (size - 4) key devaddr up (candidate j)).0
          (Serves-next block (candidate j) s) next)

  candidate_lem : (j : ℕ) → f_cnt < 2 ^ 16 → j < 2 ^ 16 → candidate j ≡ j * 2 ^ 16 + f_cnt
  candidate_lem j h k =
      let low : u32 (j * 0x10000) ≡ j * 2 ^ 16 = omega arith in
      ap (bit_or f_cnt) low ∙ bit_or-above 16 j f_cnt h

  -- The counter that thread_pkt_deal_up goes on with is the least of the counters j * 2^16 + FCnt, j below the gap, whose code is the code of the uplink; it is FCnt when none of them is.
  pub uplink_fcnt_least :
      (fcnt_gap : ℕ)
      → f_cnt < 2 ^ 16
      → fcnt_gap ≤ 2 ^ 16
      → ((k : ℕ)
          → k < fcnt_gap
          → ((i : ℕ) → i < k → code_for (i * 2 ^ 16 + f_cnt) ≢ mic)
          → code_for (k * 2 ^ 16 + f_cnt) ≡ mic
          → uplink_fcnt ciphers fcnt_gap mic_block payload size key devaddr f_cnt mic
            ≡ k * 2 ^ 16 + f_cnt)
        × (((i : ℕ) → i < fcnt_gap → code_for (i * 2 ^ 16 + f_cnt) ≢ mic)
            → uplink_fcnt ciphers fcnt_gap mic_block payload size key devaddr f_cnt mic ≡ f_cnt)
  unfolding uplink_fcnt
  uplink_fcnt_least fcnt_gap fits small =
      let accept : Option ℕ → ℕ = λ o. elim o [ none ↦ f_cnt | some fcnt ↦ fcnt ] in
      let start : (i : ℕ) → candidate (0 + i) ≡ candidate i =
        λ i. let same : 0 + i ≡ i = omega arith in ap (λ t. candidate t) same in
      let cand = λ (i : ℕ) (h : i < 2 ^ 16). ap code_for (start i ∙ candidate_lem i fits h) in
      (
        (λ k below less hit.
            let found =
              search_fcnt-found fcnt_gap 0 k mic_block (λ c. refl) below
                (λ i h e. less i h (sym (cand i (omega arith)) ∙ e)) (cand k (omega arith) ∙ hit) in
            ap accept found ∙ start k ∙ candidate_lem k fits (omega arith)),
        (λ less. ap accept (
            search_fcnt-none fcnt_gap 0 mic_block (λ c. refl)
              (λ i h e. less i h (sym (cand i (omega arith)) ∙ e)))),
      )
