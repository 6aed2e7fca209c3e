-- ===== src/Packet/Tests.antt =====
-- The theorems on downlinks and counters at a downlink with two options and three bytes of payload.
use dragino_fwd_src_lps8_mqt.Base.{
  ℕ, zero, suc, ◌+◌, ◌-◌, ◌*◌, ◌^◌, ◌<◌, ◌≡◌, ◌≢◌, inl, refl, List, [], ◌∷◌, ◌++◌, some, length,
  drop, get_or, replicate, arith, Bool, true, false, ◌&&◌, ◌==◌, ==_iff, ap₂, map, ltb,
  if◌then◌else◌,
}
use dragino_fwd_src_lps8_mqt.Packet.DnList.{DnList, Texts, insert_dn, search_dn_list}
use dragino_fwd_src_lps8_mqt.Crypto.{Ciphers, lora_mac_compute_mic, lora_mac_payload_decrypt}
use dragino_fwd_src_lps8_mqt.Mac.{MessageData, success, lora_mac_parser_data}
use dragino_fwd_src_lps8_mqt.Packet.{
  DnPkt, DevInfo, down, options, header_value, control_value, prepare_frame,
}
use dragino_fwd_src_lps8_mqt.Packet.Frame.{opts, session_key}
use dragino_fwd_src_lps8_mqt.Packet.Receive.{
  IsSendable, prepare_frame-parsed, prepare_frame-decrypted,
}
use dragino_fwd_src_lps8_mqt.Packet.Counters.{stored_after, code_for, uplink_fcnt_least}
use dragino_fwd_src_lps8_mqt.Packet.Uplink.{uplink_fcnt}
use dragino_fwd_src_lps8_mqt.Packet.Downlink.{rx2_window, eu, custom_rx2dn}
use dragino_fwd_src_lps8_mqt.Packet.Accepted.{framed, Offered, custom_rx2dn_effect}
use dragino_fwd_src_lps8_mqt.Jit.Queue.{jit_queue_init}
use dragino_fwd_src_lps8_mqt.Jit.Enqueue.{packet_post_delay}
use dragino_fwd_src_lps8_mqt.Jit.Invariant.{IsValid, init-IsValid}
use dragino_fwd_src_lps8_mqt.Jit.Sorter.{board}

-- Stand-ins for AES and CMAC; the code depends on the counter of the frame.
abbrev toy : Ciphers
toy = record {
  aes_encrypt = λ key block. replicate 16 (get_or block 15 0 + get_or key 0 0);
  aes_decrypt = λ key block. block;
  aes_cmac = λ key message. 1 ∷ 2 ∷ 3 ∷ 4 ∷ [];
}

abbrev three_bytes : DnPkt
three_bytes = record {
  devaddr = [];
  relay = 0;
  payload = 7 ∷ 8 ∷ 9 ∷ [];
  txfreq = 0;
  fopt = some (2 ∷ 6 ∷ []);
  ftype = 3;
  mode = 0;
  psize = 3;
  txdr = 0;
  txbw = 0;
  txpw = 0;
  rxwindow = 1;
  txport = 2;
  optlen = 2;
}

abbrev device : DevInfo
device = record { devaddr = 0x26011bda; appskey = 5 ∷ []; nwkskey = 6 ∷ [] }

abbrev block : List ℕ
block = replicate 16 0

abbrev heap : List ℕ
heap = 0 ∷ 0 ∷ 0 ∷ []

abbrev zeros : List ℕ
zeros = replicate 256 0

three_bytes-IsSendable : IsSendable three_bytes device heap zeros
unfolding options header_value
three_bytes-IsSendable = record {
  fit = (omega arith, omega arith, omega arith);
  small = omega arith;
  fresh_long = refl;
  whole = refl;
  address_fits = omega arith;
  no_join_req = λ e. omega (arith, e);
  no_join_accept = λ e. omega (arith, e);
}

toy_bytes : (m : List ℕ) (i : ℕ) → i < 4 → get_or (toy.aes_cmac (6 ∷ []) m) i 0 < 256
toy_bytes m zero h = omega arith
toy_bytes m (suc zero) h = omega arith
toy_bytes m (suc (suc zero)) h = omega arith
toy_bytes m (suc (suc (suc zero))) h = omega arith
toy_bytes m (suc (suc (suc (suc i)))) h = absurd (omega arith)

abbrev sent : List ℕ × ℕ
sent = prepare_frame toy block block three_bytes device 70000 heap zeros

abbrev msg : MessageData
msg = record {
  buffer = some sent.0;
  buf_size = sent.1;
  mhdr = 0;
  dev_addr = 0;
  f_ctrl = 0;
  f_cnt = 0;
  f_opts = replicate 15 0;
  f_port = 0;
  frm_payload = 0;
  frm_payload_size = 0;
  mic = 0;
}

prepare_frame-parsed_example : lora_mac_parser_data msg ≡ (
  success,
  record msg {
    mhdr = header_value three_bytes;
    dev_addr = 0x26011bda;
    f_ctrl = control_value three_bytes;
    f_cnt = 4464;
    f_opts = opts three_bytes ++ drop (length (opts three_bytes)) (replicate 15 0);
    f_port = 2;
    frm_payload = 8 + length (opts three_bytes) + 1;
    frm_payload_size = 3;
    mic = (lora_mac_compute_mic toy block sent.0 (sent.1 - 4) (6 ∷ []) 0x26011bda down 70000).1;
  },
)
prepare_frame-parsed_example =
    prepare_frame-parsed toy block block three_bytes device 70000 heap zeros three_bytes-IsSendable
      msg toy_bytes refl refl refl

prepare_frame-decrypted_example :
    get_or
      (lora_mac_payload_decrypt toy block
        (drop (8 + length (opts three_bytes) + 1) sent.0)
        3
        (session_key three_bytes device)
        0x26011bda
        down
        70000
        (replicate 8 0)).1
      1
      0
    ≡ 8
prepare_frame-decrypted_example =
    prepare_frame-decrypted toy block block three_bytes device 70000 heap zeros
      three_bytes-IsSendable (replicate 8 0) 1 (λ b. refl) (omega arith) (omega arith)

-- The stand-in for the CMAC gives the code 0x04030201.
abbrev codes : ℕ → ℕ
codes = code_for toy block zeros 20 (6 ∷ []) 0x26011bda 5 0x04030201

uplink_fcnt_least_example :
    ((k : ℕ)
      → k < 10
      → ((i : ℕ) → i < k → codes (i * 2 ^ 16 + 5) ≢ 0x04030201)
      → codes (k * 2 ^ 16 + 5) ≡ 0x04030201
      → uplink_fcnt toy 10 block zeros 20 (6 ∷ []) 0x26011bda 5 0x04030201 ≡ k * 2 ^ 16 + 5)
    × (((i : ℕ) → i < 10 → codes (i * 2 ^ 16 + 5) ≢ 0x04030201)
        → uplink_fcnt toy 10 block zeros 20 (6 ∷ []) 0x26011bda 5 0x04030201 ≡ 5)
uplink_fcnt_least_example =
    uplink_fcnt_least toy block zeros 20 (6 ∷ []) 0x26011bda 5 0x04030201 10 (omega arith)
      (omega arith)

-- The ninth downlink to the device.
custom_rx2dn_effect_example :
    let (answer, queue', stored') =
      custom_rx2dn board toy block block heap
        (rx2_window eu)
        (stored_after 8)
        three_bytes
        device
        1000000
        1
        1100000
        jit_queue_init in
    (stored' ≡ some 9)
    × IsValid queue'
    × Offered board toy block block heap
        (rx2_window eu)
        three_bytes
        device
        1000000
        1100000
        jit_queue_init
        (framed board toy block block heap
          (rx2_window eu)
          three_bytes
          device
          1000000
          1100000
          jit_queue_init
          8
          1000000)
        answer
        queue'
unfolding packet_post_delay
custom_rx2dn_effect_example =
    custom_rx2dn_effect board toy block block heap (rx2_window eu) three_bytes device 1000000
      1100000 jit_queue_init 8 1000000 (omega arith) (inl (omega arith, refl)) refl init-IsValid
      (omega arith)

-- Texts as lists of characters; capitals are turned into small letters for `strcasecmp`.
abbrev text_eq : List ℕ → List ℕ → Bool
text_eq [] [] = true
text_eq [] (c ∷ b) = false
text_eq (c ∷ a) [] = false
text_eq (c ∷ a) (d ∷ b) = (c == d) && text_eq a b

text_eq_exact : (a b : List ℕ) → text_eq a b ≡ true → a ≡ b
text_eq_exact [] [] h = refl
text_eq_exact [] (c ∷ b) h = absurd (ground arith)
text_eq_exact (c ∷ a) [] h = absurd (ground arith)
text_eq_exact (c ∷ a) (d ∷ b) h =
    let both : ((c == d) ≡ true) × (text_eq a b ≡ true) = ground arith in
    ap₂ (λ x xs. x ∷ xs) ((==_iff c d).0 both.0) (text_eq_exact a b both.1)

abbrev small_letter : ℕ → ℕ
small_letter c = if ltb 64 c && ltb c 91 then c + 32 else c

abbrev letters : Texts
letters = record {
  same_text = text_eq;
  same_letters = λ a b. text_eq (map small_letter a) (map small_letter b);
}

abbrev for_a : DnPkt
for_a = record three_bytes { devaddr = b'A' ∷ b'1' ∷ [] }

abbrev for_b : DnPkt
for_b = record three_bytes { devaddr = b'B' ∷ b'2' ∷ [] }

abbrev waiting : DnList
waiting = record { entries = for_a ∷ for_b ∷ []; size = 2 }

abbrev newer : DnPkt
newer = record for_a { txport = 9 }

newer_found :
    search_dn_list letters (b'A' ∷ b'1' ∷ []) (insert_dn letters newer waiting).entries ≡ some newer
unfolding insert_dn search_dn_list
newer_found = refl
