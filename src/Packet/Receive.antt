-- ===== src/Packet/Receive.antt =====
-- What a device makes of the frame: the parser, the check of the code and the decryption.
use dragino_fwd_src_lps8_mqt.Base.{
  ℕ, ◌+◌, ◌-◌, ◌/◌, ◌%◌, ◌^◌, ◌<◌, ◌≤◌, ◌≡◌, ◌≢◌, sym, ap, ap₂, ◌∙◌, List, [], ◌∷◌, ◌++◌, length,
  take, drop, get_or, arith, length-take, append_assoc, take-take, take-append-drop, take-append,
  take-length, length-append, some, bit_xor, get_or-take,
}
use dragino_fwd_src_lps8_mqt.Base.Bits.{bit_xor_cancel}
use dragino_fwd_src_lps8_mqt.Crypto.{
  Ciphers, lora_mac_compute_mic, lora_mac_payload_encrypt, lora_mac_payload_decrypt, set_fields,
}
use dragino_fwd_src_lps8_mqt.Crypto.Sizes.{
  length-payload_encrypt, compute_mic_prefix, BytesOf, compute_mic-fits,
}
use dragino_fwd_src_lps8_mqt.Crypto.Stream.{stream}
use dragino_fwd_src_lps8_mqt.Crypto.Payload.{payload_encrypt_stream, decrypt-encrypt}
use dragino_fwd_src_lps8_mqt.Mac.{
  MessageData, success, lora_mac_parser_data, m_type, join_req, join_accept,
}
use dragino_fwd_src_lps8_mqt.Mac.Frames.{frame, le2, le4, parser_frame, frame_payload}
use dragino_fwd_src_lps8_mqt.Packet.{
  DnPkt, DevInfo, down, options, header_value, control_value, prepare_frame,
}
use dragino_fwd_src_lps8_mqt.Packet.Frame.{
  OptionsFit, opts, body, session_key, encrypted, frame_mic, prepare_frame-Written,
  control_value-f_opts_len,
}

le2_low : (cnt : ℕ) → le2 cnt ≡ le2 (cnt % 2 ^ 16)
le2_low cnt =
    let low : cnt % 256 ≡ cnt % 2 ^ 16 % 256 = omega arith in
    let high : cnt / 256 % 256 ≡ cnt % 2 ^ 16 / 256 % 256 = omega arith in
    ap₂ (λ a b. a ∷ b ∷ []) low high

regroup :
    (head options enc mic rest : List ℕ) (port : ℕ)
    → ((head ++ (options ++ (port ∷ enc))) ++ mic) ++ rest
      ≡ head ++ (options ++ (port ∷ enc ++ (mic ++ rest)))
regroup head options enc mic rest port =
    append_assoc (head ++ (options ++ (port ∷ enc))) mic rest
    ∙ append_assoc head (options ++ (port ∷ enc)) (mic ++ rest)
    ∙ ap (λ t. head ++ t) (append_assoc options (port ∷ enc) (mic ++ rest))

length-body :
    (dn : DnPkt) (dev : DevInfo) (cnt : ℕ) (enc : List ℕ)
    → length (body dn dev cnt enc) ≡ 9 + length (opts dn) + length enc
length-body dn dev cnt enc = omega (arith, length-append (opts dn) (dn.txport % 256 ∷ enc))

-- The downlink fits in a frame: a type that is no join, options of at most 15 bytes, and at most
-- 255 bytes in all; the numbers fit their fields.
pub record IsSendable (dn : DnPkt) (dev : DevInfo) (fresh f : List ℕ) : Type 0 where
  pub fit : OptionsFit (options dn) dn.optlen
  pub small : 13 + length (opts dn) + dn.psize ≤ 255
  pub fresh_long : length fresh ≡ dn.psize
  pub whole : length f ≡ 256
  pub address_fits : dev.devaddr < 2 ^ 32
  pub no_join_req : m_type (header_value dn) ≢ join_req
  pub no_join_accept : m_type (header_value dn) ≢ join_accept

module _ (ciphers : Ciphers) (payload_block mic_block : List ℕ) (dn : DnPkt) (dev : DevInfo)
    (cnt : ℕ) (fresh f : List ℕ) (ok : IsSendable dn dev fresh f) where
  open ok use {fit, small, fresh_long, whole, address_fits, no_join_req, no_join_accept}

  abbrev sent : List ℕ × ℕ
  sent = prepare_frame ciphers payload_block mic_block dn dev cnt fresh f

  abbrev code : ℕ
  code = frame_mic ciphers payload_block mic_block dn dev cnt fresh f

  abbrev cipher_text : List ℕ
  cipher_text = encrypted ciphers payload_block mic_block dn dev cnt fresh f

  sent-frame :
      sent.0
      ≡ frame
          (header_value dn)
          dev.devaddr
          (control_value dn)
          (cnt % 2 ^ 16)
          (opts dn)
          (dn.txport % 256)
          cipher_text
          code
          (drop (13 + length (opts dn) + dn.psize) sent.0)
  sent-frame =
      let n = 13 + length (opts dn) + dn.psize in
      let (size, w) =
        prepare_frame-Written ciphers payload_block mic_block dn dev cnt fresh f fit small
          fresh_long whole in
      let rest = drop n sent.0 in
      let head = λ (c : List ℕ). header_value dn ∷ le4 dev.devaddr ++ (control_value dn ∷ c) in
      sym (take-append-drop n sent.0)
      ∙ ap (λ b. b ++ rest) w.prefix
      ∙ regroup (head (le2 cnt)) (opts dn) cipher_text (le4 code) rest (dn.txport % 256)
      ∙ ap (λ c. head c ++ (opts dn ++ (dn.txport % 256 ∷ cipher_text ++ (le4 code ++ rest))))
          (le2_low cnt)

  cipher_text_long : length cipher_text ≡ dn.psize
  cipher_text_long =
      let whole_code =
        (lora_mac_payload_encrypt ciphers payload_block dn.payload dn.psize (session_key dn dev)
          dev.devaddr down cnt fresh).1 in
      omega (
        arith,
        length-take dn.psize whole_code,
        fresh_long,
        length-payload_encrypt ciphers (session_key dn dev) payload_block dn.payload dn.psize
            dev.devaddr down cnt fresh,
      )

  code-fits : BytesOf ciphers dev.nwkskey → code < 2 ^ 32
  code-fits bytes =
      compute_mic-fits ciphers mic_block (body dn dev cnt cipher_text)
        (9 + length (opts dn) + dn.psize) dev.nwkskey dev.devaddr down cnt bytes

  -- The received bytes have the code that was put behind them.
  sent-code :
      (lora_mac_compute_mic ciphers mic_block sent.0
        (9 + length (opts dn) + dn.psize)
        dev.nwkskey
        dev.devaddr
        down
        cnt).1
      ≡ code
  sent-code =
      let n = 9 + length (opts dn) + dn.psize in
      let bytes = body dn dev cnt cipher_text in
      let (size, w) =
        prepare_frame-Written ciphers payload_block mic_block dn dev cnt fresh f fit small
          fresh_long whole in
      let head_size : length bytes ≡ n =
        omega (arith, cipher_text_long, length-body dn dev cnt cipher_text) in
      let same : take n sent.0 ≡ take n bytes =
        sym (take-take n (13 + length (opts dn) + dn.psize) sent.0 (omega arith))
        ∙ ap (take n) w.prefix
        ∙ take-append n bytes (le4 code) head_size
        ∙ sym (take-length bytes)
        ∙ ap (λ (k : ℕ). take k bytes) head_size in
      compute_mic_prefix ciphers mic_block sent.0 bytes n dev.nwkskey dev.devaddr down cnt
        (omega arith) same

  -- A downlink that fits in a frame is parsed as it was composed: LoRaMacParserData succeeds on the frame of prepare_frame and gives back the address, the control byte, the lower half of the counter, the options, the port, the size of the payload, and a code that is the code of the received bytes.
  pub prepare_frame-parsed :
      (msg : MessageData)
      → BytesOf ciphers dev.nwkskey
      → length msg.f_opts ≡ 15
      → msg.buffer ≡ some sent.0
      → msg.buf_size ≡ sent.1
      → (lora_mac_parser_data msg ≡ (
        success,
        record msg {
          mhdr = header_value dn;
          dev_addr = dev.devaddr;
          f_ctrl = control_value dn;
          f_cnt = cnt % 2 ^ 16;
          f_opts = opts dn ++ drop (length (opts dn)) msg.f_opts;
          f_port = dn.txport % 256;
          frm_payload = 8 + length (opts dn) + 1;
          frm_payload_size = dn.psize;
          mic =
              (lora_mac_compute_mic ciphers mic_block sent.0
                (msg.buf_size - 4)
                dev.nwkskey
                dev.devaddr
                down
                cnt).1;
        },
      ))
  prepare_frame-parsed msg bytes room at_buffer at_size =
      let (size, w) =
        prepare_frame-Written ciphers payload_block mic_block dn dev cnt fresh f fit small
          fresh_long whole in
      let m = length (opts dn) in
      let text_size = cipher_text_long in
      let end : msg.buf_size - 4 ≡ 9 + m + dn.psize = omega (arith, at_size, size) in
      let parsed =
        parser_frame (header_value dn) dev.devaddr (control_value dn) (cnt % 2 ^ 16)
          (dn.txport % 256) code (opts dn) cipher_text (drop (13 + m + dn.psize) sent.0) msg
          no_join_req no_join_accept address_fits (omega arith) (code-fits bytes)
          (control_value-f_opts_len dn fit) (omega (arith, text_size)) room
          (at_buffer ∙ ap some sent-frame) (omega (arith, at_size, size, text_size)) in
      rw (end, sent-code)
        (parsed.0
          ∙ ap
              (λ (k : ℕ). (
                success,
                record msg {
                  mhdr = header_value dn;
                  dev_addr = dev.devaddr;
                  f_ctrl = control_value dn;
                  f_cnt = cnt % 2 ^ 16;
                  f_opts = opts dn ++ drop m msg.f_opts;
                  f_port = dn.txport % 256;
                  frm_payload = 8 + m + 1;
                  frm_payload_size = k;
                  mic = code;
                },
              ))
              text_size)

  -- What stands in the frame at the index that the parser reports is the encrypted payload.
  sent-payload : take dn.psize (drop (8 + length (opts dn) + 1) sent.0) ≡ cipher_text
  sent-payload =
      let m = length (opts dn) in
      let rest = drop (13 + m + dn.psize) sent.0 in
      let stands =
        frame_payload (header_value dn) dev.devaddr (control_value dn) (cnt % 2 ^ 16)
          (dn.txport % 256) code (opts dn) cipher_text rest in
      ap (λ b. take dn.psize (drop (8 + m + 1) b)) sent-frame
      ∙ ap
          (λ (k : ℕ). take k (
            drop (8 + m + 1) (
              frame (header_value dn) dev.devaddr (control_value dn) (cnt % 2 ^ 16) (opts dn)
                (dn.txport % 256) cipher_text code rest)))
          (sym cipher_text_long)
      ∙ stands

  -- A device that decrypts what the parser reports of a downlink that fits in a frame, with the key of the port, the address and the full counter, finds the payload of the downlink in its buffer.
  pub prepare_frame-decrypted :
      (dec : List ℕ) (i : ℕ)
      → ((b : List ℕ) → length (ciphers.aes_encrypt (session_key dn dev) b) ≡ 16)
      → dn.psize ≤ length dec
      → i < dn.psize
      → get_or
          (lora_mac_payload_decrypt ciphers payload_block
            (drop (8 + length (opts dn) + 1) sent.0)
            dn.psize
            (session_key dn dev)
            dev.devaddr
            down
            cnt
            dec).1
          i
          0
        ≡ get_or dn.payload i 0
  prepare_frame-decrypted dec i long room h =
      let key = session_key dn dev in
      let received = drop (8 + length (opts dn) + 1) sent.0 in
      let coded =
        (lora_mac_payload_encrypt ciphers payload_block dn.payload dn.psize key dev.devaddr down cnt
          fresh).1 in
      let out =
        payload_encrypt_stream ciphers key long payload_block dn.payload fresh dn.psize dev.devaddr
          down cnt i (omega arith) (omega arith) in
      let back =
        payload_encrypt_stream ciphers key long payload_block received dec dn.psize dev.devaddr down
          cnt i (omega arith) room in
      let k = stream ciphers key (set_fields payload_block dev.devaddr down cnt) i in
      let text : get_or received i 0 ≡ get_or coded i 0 =
        sym (get_or-take dn.psize i received 0 h)
        ∙ ap (λ t. get_or t i 0) sent-payload
        ∙ get_or-take dn.psize i coded 0 h in
      rw (decrypt-encrypt ciphers) (back.0 h)
      ∙ ap (λ t. bit_xor t k) (text ∙ out.0 h)
      ∙ bit_xor_cancel (get_or dn.payload i 0) k
