-- ===== src/Mac/Frames.antt =====
-- The parser on frames that are composed field by field.
use dragino_fwd_src_lps8_mqt.Base.{
  ℕ, ◌+◌, ◌-◌, ◌*◌, ◌/◌, ◌%◌, ◌^◌, ◌<◌, ◌≤◌, ◌≡◌, ◌≢◌, refl, ap, ◌∙◌, List, [], ◌∷◌, ◌++◌, some,
  get_or, drop, take, bit_or, length, length-append, arith, get_or-skip, drop-skip, take-append,
  ==_false, lt→ltb, ge→ltb, le→leb,
}
use dragino_fwd_src_lps8_mqt.Base.Bits.{bit_or-above}
use dragino_fwd_src_lps8_mqt.Util.{lgw_memcpy}
use dragino_fwd_src_lps8_mqt.Util.Memory.{lgw_memcpy_lem}
use dragino_fwd_src_lps8_mqt.Mac.{
  MessageData, success, le16, le32, parse_payload, parse_mic, parse_options, parse_frame,
  lora_mac_parser_data, f_opts_len, m_type, join_req, join_accept,
}

abbrev pub le2 : ℕ → List ℕ
le2 n = n % 256 ∷ n / 256 % 256 ∷ []

abbrev pub le4 : ℕ → List ℕ
le4 n = n % 256 ∷ n / 256 % 256 ∷ n / 65536 % 256 ∷ n / 16777216 % 256 ∷ []

le32-skip : (xs ys : List ℕ) (n m : ℕ) → n ≡ length xs + m → le32 (xs ++ ys) n ≡ le32 ys m
unfolding le32
le32-skip xs ys n m h =
    rw
      (
        get_or-skip xs ys n m 0 h,
        get_or-skip xs ys (n + 1) (m + 1) 0 (omega arith),
        get_or-skip xs ys (n + 2) (m + 2) 0 (omega arith),
        get_or-skip xs ys (n + 3) (m + 3) 0 (omega arith),
      )
      refl

le32-le4 : (n : ℕ) (rest : List ℕ) → n < 2 ^ 32 → le32 (le4 n ++ rest) 0 ≡ n
unfolding le32
le32-le4 n rest h =
    let a0 = n % 256 in
    let a1 = n / 256 % 256 in
    let a2 = n / 65536 % 256 in
    let a3 = n / 16777216 % 256 in
    omega (
      arith,
      ap (λ t. bit_or (bit_or t (a2 * 2 ^ 16)) (a3 * 2 ^ 24)) (bit_or-above 8 a1 a0 (omega arith)),
      ap (λ t. bit_or t (a3 * 2 ^ 24)) (bit_or-above 16 a2 (a1 * 2 ^ 8 + a0) (omega arith)),
      bit_or-above 24 a3 (a2 * 2 ^ 16 + (a1 * 2 ^ 8 + a0)) (omega arith),
    )

le16-le2 : (n : ℕ) (rest : List ℕ) → n < 2 ^ 16 → le16 (le2 n ++ rest) 0 ≡ n
unfolding le16
le16-le2 n rest h = omega (arith, bit_or-above 8 (n / 256 % 256) (n % 256) (omega arith))

-- A data frame in a buffer: the header, the options, the port and the payload, the code, and what
-- the buffer holds behind it.
abbrev pub frame : (mhdr addr ctrl cnt : ℕ) → List ℕ → ℕ → List ℕ → ℕ → List ℕ → List ℕ
frame mhdr addr ctrl cnt opts port payload mic rest =
    (mhdr ∷ le4 addr ++ (ctrl ∷ le2 cnt)) ++ (opts ++ (port ∷ payload ++ (le4 mic ++ rest)))

-- The payload behind the options and the port.
pub frame_payload :
    (mhdr addr ctrl cnt port mic : ℕ) (opts payload rest : List ℕ)
    → take
        (length payload)
        (drop (8 + length opts + 1) (frame mhdr addr ctrl cnt opts port payload mic rest))
      ≡ payload
frame_payload mhdr addr ctrl cnt port mic opts payload rest =
    let skip =
      drop-skip (mhdr ∷ le4 addr ++ (ctrl ∷ le2 cnt))
        (opts ++ (port ∷ payload ++ (le4 mic ++ rest))) (8 + length opts + 1) (length opts + 1)
        (omega arith) in
    rw (skip, drop-skip opts (port ∷ payload ++ (le4 mic ++ rest)) (length opts + 1) 1 refl)
      (take-append (length payload) payload (le4 mic ++ rest) refl)

module _ (mhdr addr ctrl cnt port mic : ℕ) (opts payload rest : List ℕ) (addr_fits : addr < 2 ^ 32)
    (cnt_fits : cnt < 2 ^ 16) (mic_fits : mic < 2 ^ 32) (len : f_opts_len ctrl ≡ length opts) where
  frame_addr : le32 (frame mhdr addr ctrl cnt opts port payload mic rest) 1 ≡ addr
  unfolding le32
  frame_addr = le32-le4 addr [] addr_fits

  frame_cnt : le16 (frame mhdr addr ctrl cnt opts port payload mic rest) 6 ≡ cnt
  unfolding le16
  frame_cnt = le16-le2 cnt [] cnt_fits

  frame_mic :
      le32
        (frame mhdr addr ctrl cnt opts port payload mic rest)
        (13 + length opts + length payload - 4)
      ≡ mic
  frame_mic =
      le32-skip (mhdr ∷ le4 addr ++ (ctrl ∷ le2 cnt))
        (opts ++ (port ∷ payload ++ (le4 mic ++ rest))) (13 + length opts + length payload - 4)
        (length opts + (1 + length payload)) (omega arith)
      ∙ le32-skip opts (port ∷ payload ++ (le4 mic ++ rest)) (length opts + (1 + length payload))
          (1 + length payload) refl
      ∙ le32-skip (port ∷ payload) (le4 mic ++ rest) (1 + length payload) 0 (omega arith)
      ∙ le32-le4 mic rest mic_fits

  frame_port :
      get_or (frame mhdr addr ctrl cnt opts port payload mic rest) (8 + length opts) 0 ≡ port
  frame_port =
      get_or-skip (mhdr ∷ le4 addr ++ (ctrl ∷ le2 cnt))
        (opts ++ (port ∷ payload ++ (le4 mic ++ rest))) (8 + length opts) (length opts) 0 refl
      ∙ get_or-skip opts (port ∷ payload ++ (le4 mic ++ rest)) (length opts) 0 0 (omega arith)

  -- What the options field holds after the copy.
  frame-opts :
      (old : List ℕ)
      → length opts ≤ length old
      → lgw_memcpy old (drop 8 (frame mhdr addr ctrl cnt opts port payload mic rest)) (length opts)
        ≡ opts ++ drop (length opts) old
  frame-opts old room =
      let tail = port ∷ payload ++ (le4 mic ++ rest) in
      lgw_memcpy_lem old (opts ++ tail) (length opts) room (omega (arith, length-append opts tail))
      ∙ ap (λ t. t ++ drop (length opts) old) (take-append (length opts) opts tail refl)

size_back : (m n : ℕ) → 13 + m + n ≤ 255 → (13 + m + n + 256 - (8 + m + 1) - 4) % 2 ^ 8 ≡ n
size_back m n h = omega arith

-- LoRaMacParserData takes a data frame with a port and at most 255 bytes: it succeeds, the
-- fields of the message are the fields that the frame was composed of, and the payload stands in the buffer at the index and with the size that it reports.
pub parser_frame :
    (mhdr addr ctrl cnt port mic : ℕ) (opts payload rest : List ℕ) (msg : MessageData)
    → m_type mhdr ≢ join_req
    → m_type mhdr ≢ join_accept
    → addr < 2 ^ 32
    → cnt < 2 ^ 16
    → mic < 2 ^ 32
    → f_opts_len ctrl ≡ length opts
    → 13 + length opts + length payload ≤ 255
    → length msg.f_opts ≡ 15
    → msg.buffer ≡ some (frame mhdr addr ctrl cnt opts port payload mic rest)
    → msg.buf_size ≡ 13 + length opts + length payload
    → (lora_mac_parser_data msg ≡ (
      success,
      record msg {
        mhdr = mhdr;
        dev_addr = addr;
        f_ctrl = ctrl;
        f_cnt = cnt;
        f_opts = opts ++ drop (length opts) msg.f_opts;
        f_port = port;
        frm_payload = 8 + length opts + 1;
        frm_payload_size = length payload;
        mic = mic;
      },
    ))
      × (take
            (length payload)
            (drop (8 + length opts + 1) (frame mhdr addr ctrl cnt opts port payload mic rest))
          ≡ payload)
unfolding lora_mac_parser_data parse_frame parse_options parse_payload parse_mic
parser_frame mhdr addr ctrl cnt port mic opts payload rest msg not_req not_acc addr_fits cnt_fits
      mic_fits len fits room at_buffer at_size =
    (
      rw
          (
            at_buffer,
            at_size,
            ge→ltb (13 + length opts + length payload) 13 (omega arith),
            ==_false (m_type mhdr) join_accept not_acc,
            ==_false (m_type mhdr) join_req not_req,
            len,
            le→leb (length opts) 15 (omega arith),
            lt→ltb (8 + length opts + 4) (13 + length opts + length payload) (omega arith),
          )
          (rw
            (
              frame_addr mhdr addr ctrl cnt port mic opts payload rest addr_fits cnt_fits mic_fits
                  len,
              frame_cnt mhdr addr ctrl cnt port mic opts payload rest addr_fits cnt_fits mic_fits
                  len,
              frame_mic mhdr addr ctrl cnt port mic opts payload rest addr_fits cnt_fits mic_fits
                  len,
              frame_port mhdr addr ctrl cnt port mic opts payload rest addr_fits cnt_fits mic_fits
                  len,
              frame-opts mhdr addr ctrl cnt port mic opts payload rest addr_fits cnt_fits mic_fits
                  len msg.f_opts (omega arith),
              size_back (length opts) (length payload) (omega arith),
            )
            refl),
      frame_payload mhdr addr ctrl cnt port mic opts payload rest,
    )

-- With a buffer and at least 13 bytes the parser succeeds, and a data frame of fewer than 13 bytes and its options has no payload: options that reach behind the frame are not refused.
pub parser_short_options :
    (b : List ℕ) (msg : MessageData)
    → msg.buffer ≡ some b
    → 13 ≤ msg.buf_size
    → ((lora_mac_parser_data msg).0 ≡ success)
      × (msg.buf_size < 13 + f_opts_len (get_or b 5 0)
          → (lora_mac_parser_data msg).1.frm_payload_size ≡ 0)
unfolding lora_mac_parser_data parse_frame parse_options parse_payload parse_mic
parser_short_options b msg at_buffer big = (ground arith, λ short. ground arith)
