-- ===== src/Mac/Tests.antt =====
-- The theorems on frames at a concrete uplink and a concrete join accept.
use dragino_fwd_src_lps8_mqt.Base.{
  ℕ, ◌+◌, ◌<◌, ◌≤◌, ◌≡◌, ◌↔◌, refl, true, false, List, [], ◌∷◌, ◌++◌, some, length, take, drop,
  get_or, replicate, arith,
}
use dragino_fwd_src_lps8_mqt.Jit.Types.{TxPkt}
use dragino_fwd_src_lps8_mqt.Mac.{MessageData, success, lora_mac_parser_data, f_opts_len}
use dragino_fwd_src_lps8_mqt.Mac.Frames.{frame, parser_frame, parser_short_options}
use dragino_fwd_src_lps8_mqt.Mac.Report.{rate_text}
use dragino_fwd_src_lps8_mqt.Mac.Report.Text.{rate_text_overflow_iff}

abbrev bytes : List ℕ
bytes = frame 0x40 0x26011bda 0x81 7 (2 ∷ []) 1 (0xa ∷ 0xb ∷ []) 0x01020304 (replicate 8 0)

abbrev message : List ℕ → ℕ → MessageData
message b size = record {
  buffer = some b;
  buf_size = size;
  mhdr = 0;
  dev_addr = 0;
  f_ctrl = 0;
  f_cnt = 0;
  f_opts = replicate 15 0;
  f_port = 0;
  frm_payload = 0;
  frm_payload_size = 0;
  mic = 0;
}

parser_frame_example :
    (lora_mac_parser_data (message bytes 16) ≡ (
      success,
      record (message bytes 16) {
        mhdr = 0x40;
        dev_addr = 0x26011bda;
        f_ctrl = 0x81;
        f_cnt = 7;
        f_opts = (2 ∷ []) ++ drop 1 (replicate 15 0);
        f_port = 1;
        frm_payload = 10;
        frm_payload_size = 2;
        mic = 0x01020304;
      },
    ))
    × (take 2 (drop 10 bytes) ≡ 0xa ∷ 0xb ∷ [])
parser_frame_example =
    parser_frame 0x40 0x26011bda 0x81 7 1 0x01020304 (2 ∷ []) (0xa ∷ 0xb ∷ []) (replicate 8 0)
      (message bytes 16) (λ e. omega (arith, e)) (λ e. omega (arith, e)) (omega arith) (omega arith)
      (omega arith) (omega arith) (omega arith) (omega arith) refl refl

-- A frame of 13 bytes that announces 15 bytes of options.
abbrev cut : List ℕ
cut = 0x40 ∷ 1 ∷ 2 ∷ 3 ∷ 4 ∷ 0x0f ∷ replicate 250 7

parser_short_options_example :
    ((lora_mac_parser_data (message cut 13)).0 ≡ success)
    × (13 < 13 + f_opts_len (get_or cut 5 0)
        → (lora_mac_parser_data (message cut 13)).1.frm_payload_size ≡ 0)
parser_short_options_example = parser_short_options cut (message cut 13) refl (omega arith)

rate_text_overflow_iff_example :
    (20 < length (rate_text 12 4 0) + 1)
    ↔ ((10 ≤ 12) × (12 ≤ 12) × (4 ≤ 4) × (4 ≤ 6) × (◌≡◌ {A = ℕ} 0 0))
rate_text_overflow_iff_example = rate_text_overflow_iff 12 4 0

abbrev downlink : TxPkt
downlink = record {
  freq_hz = 923300000;
  tx_mode = 1;
  count_us = 0;
  rf_chain = 0;
  rf_power = 20;
  modulation = 0x10;
  freq_offset = 0;
  bandwidth = 6;
  datarate = 10;
  coderate = 1;
  invert_pol = true;
  f_dev = 0;
  preamble = 8;
  no_crc = true;
  no_header = false;
  size = 33;
  payload = 0x20 ∷ replicate 255 1;
}
