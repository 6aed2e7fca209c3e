-- ===== src/Mac/Report/Text.antt =====
-- The texts of the traffic records: their buffers, and the channel list.
use dragino_fwd_src_lps8_mqt.Base.{
  ℕ, zero, suc, ◌+◌, ◌<◌, ◌≤◌, ◌≡◌, ◌≢◌, ◌↔◌, ◌⊎◌, inl, inr, refl, List, ◌++◌, length,
  length-append, arith, leb_cases,
}
use dragino_fwd_src_lps8_mqt.Jit.Types.{TxPkt}
use dragino_fwd_src_lps8_mqt.Mac.{MessageData, lora_mac_parser_join_accept, parse_join}
use dragino_fwd_src_lps8_mqt.Mac.Report.{
  rate_text, sf_text, bw_text, cr_text, payload_hex, join_message, join_report, down_report,
}

sf_long : (d : ℕ) → 10 ≤ d → d ≤ 12 → length (sf_text d) ≡ 5
unfolding sf_text
sf_long d h k = ground arith

sf_short : (d : ℕ) → (d < 10) ⊎ (12 < d) → length (sf_text d) ≤ 4
unfolding sf_text
sf_short d (inl h) = ground arith
sf_short d (inr h) = ground arith

sf_at_most : (d : ℕ) → length (sf_text d) ≤ 5
unfolding sf_text
sf_at_most d = ground arith

bw_known : (b : ℕ) → 4 ≤ b → b ≤ 6 → length (bw_text b) ≡ 9
unfolding bw_text
bw_known b h k = ground arith

bw_unknown : (b : ℕ) → (b < 4) ⊎ (6 < b) → length (bw_text b) ≡ 0
unfolding bw_text
bw_unknown b (inl h) = ground arith
bw_unknown b (inr h) = ground arith

bw_at_most : (b : ℕ) → length (bw_text b) ≤ 9
unfolding bw_text
bw_at_most b = ground arith

cr_known : (c : ℕ) → c ≢ 0 → length (cr_text c) ≤ 5
unfolding cr_text
cr_known c h = ground (arith, h)

cr_at_most : (c : ℕ) → length (cr_text c) ≤ 6
unfolding cr_text
cr_at_most c = ground arith

cr_off : (c : ℕ) → c ≡ 0 → length (cr_text c) ≡ 6
unfolding cr_text
cr_off c h = ground arith

Nat-cases : (c : ℕ) → (c ≡ 0) ⊎ (c ≢ 0)
Nat-cases zero = inl refl
Nat-cases (suc c) = inr (λ e. omega (arith, e))

module _ (d b c : ℕ) where
  length-rate_text :
      length (rate_text d b c) ≡ length (sf_text d) + (length (bw_text b) + length (cr_text c))
  unfolding rate_text
  length-rate_text = omega (
    arith,
    length-append (sf_text d) (bw_text b ++ cr_text c),
    length-append (bw_text b) (cr_text c),
  )

  -- The text of the data rate and its terminator are longer than the 20 characters of `dr` exactly for spreading factors 10 to 12 with a known bandwidth and coding rate 0.
  pub rate_text_overflow_iff :
      (20 < length (rate_text d b c) + 1) ↔ ((10 ≤ d) × (d ≤ 12) × (4 ≤ b) × (b ≤ 6) × (c ≡ 0))
  rate_text_overflow_iff = (
    (λ long. elim (Nat-cases c) [
      | inl off ↦ (
        (elim (leb_cases 10 d) [
          | inl t ↦ t
          | inr t ↦ absurd (
              omega (arith, length-rate_text, long, sf_short d (inl t), bw_at_most b, cr_at_most c))
        ]),
        (elim (leb_cases d 12) [
          | inl t ↦ t
          | inr t ↦ absurd (
              omega (arith, length-rate_text, long, sf_short d (inr t), bw_at_most b, cr_at_most c))
        ]),
        (elim (leb_cases 4 b) [
          | inl t ↦ t
          | inr t ↦ absurd (
              omega
                (arith, length-rate_text, long, bw_unknown b (inl t), sf_at_most d, cr_at_most c))
        ]),
        (elim (leb_cases b 6) [
          | inl t ↦ t
          | inr t ↦ absurd (
              omega
                (arith, length-rate_text, long, bw_unknown b (inr t), sf_at_most d, cr_at_most c))
        ]),
        off,
      )
      | inr on ↦
          absurd (omega (arith, length-rate_text, long, sf_at_most d, bw_at_most b, cr_known c on))
    ]),
    (λ h.
        let (d1, d2, b1, b2, off) = h in
        omega (arith, length-rate_text, sf_long d d1 d2, bw_known b b1 b2, cr_off c off)),
  )

-- The report of a join accept never holds the list of channels: decode_mac_pkt_down looks for it in
-- frames of 32 bytes, and LoRaMacParserJoinAccept takes it from frames of 33 and refuses those of 32.
pub cf_list_unreported :
    (F : Type 0) (b : List ℕ) (msg : MessageData) (p : TxPkt)
    → (down_report {F = F} b msg p).2 ≡ payload_hex b msg
unfolding down_report join_report join_message lora_mac_parser_join_accept parse_join
cf_list_unreported F b msg p = ground arith
