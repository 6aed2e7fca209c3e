-- ===== src/Mac.antt =====
-- The headers of a LoRaWAN frame, src/fwd/src/mac-header-decode.c, built with BIGENDIAN.
-- `Buffer` is the packet's `payload[256]`, of which the first `BufSize` bytes are the frame: what
-- the parser reads behind them is what an earlier frame left there.
-- The pointer to the message itself is never null where the parsers are called.
pub mod Frames
pub mod Report
mod Tests
use dragino_fwd_src_lps8_mqt.Base.{
  ℕ, ◌+◌, ◌-◌, ◌*◌, ◌/◌, ◌%◌, ◌<◌, ◌≡◌, Bool, ◌||◌, List, [], ◌∷◌, ◌++◌, Option, none, some, ltb,
  leb, ◌==◌, if◌then◌else◌, get_or, drop, take, bit_or, ◌<<<◌, u8,
}
use dragino_fwd_src_lps8_mqt.Util.{lgw_memcpy}

abbrev pub mic_field_size : ℕ
mic_field_size = 4

abbrev pub cf_list_field_size : ℕ
cf_list_field_size = 16

-- The bit fields of the unions over MHDR, FCtrl and DLSettings.
abbrev pub m_type : ℕ → ℕ
m_type value = value / 32

abbrev pub adr : ℕ → ℕ
adr value = value / 128 % 2

abbrev pub ack : ℕ → ℕ
ack value = value / 32 % 2

abbrev pub f_pending : ℕ → ℕ
f_pending value = value / 16 % 2

abbrev pub f_opts_len : ℕ → ℕ
f_opts_len value = value % 16

abbrev pub rx1_dr_offset : ℕ → ℕ
rx1_dr_offset value = value / 16 % 8

abbrev pub rx2_data_rate : ℕ → ℕ
rx2_data_rate value = value % 16

abbrev pub join_req : ℕ
join_req = 0

abbrev pub join_accept : ℕ
join_accept = 1

abbrev pub data_unconfirmed_up : ℕ
data_unconfirmed_up = 2

abbrev pub data_unconfirmed_down : ℕ
data_unconfirmed_down = 3

abbrev pub data_confirmed_up : ℕ
data_confirmed_up = 4

abbrev pub data_confirmed_down : ℕ
data_confirmed_down = 5

-- `none` is a null `Buffer`. `frm_payload` is the index in it where the payload starts.
pub record MessageData : Type 0 where
  pub buffer : Option (List ℕ)
  pub buf_size : ℕ
  pub mhdr : ℕ
  pub dev_addr : ℕ
  pub f_ctrl : ℕ
  pub f_cnt : ℕ
  pub f_opts : List ℕ
  pub f_port : ℕ
  pub frm_payload : ℕ
  pub frm_payload_size : ℕ
  pub mic : ℕ

pub record MessageJoinAccept : Type 0 where
  pub buffer : Option (List ℕ)
  pub buf_size : ℕ
  pub mhdr : ℕ
  pub join_nonce : List ℕ
  pub net_id : List ℕ
  pub dev_addr : ℕ
  pub dl_settings : ℕ
  pub rx_delay : ℕ
  pub cf_list : List ℕ
  pub mic : ℕ

pub data ParserStatus : Type 0 where
  success fail error_npe error : ParserStatus

pub le16 : List ℕ → ℕ → ℕ
le16 b i = bit_or (get_or b i 0) (get_or b (i + 1) 0 <<< 8)

pub le32 : List ℕ → ℕ → ℕ
le32 b i =
    bit_or (bit_or (bit_or (get_or b i 0) (get_or b (i + 1) 0 <<< 8)) (get_or b (i + 2) 0 <<< 16))
      (get_or b (i + 3) 0 <<< 24)

-- From the options on: `it`, at most 23, is the index after them. The size is cut to uint8_t.
pub parse_payload : List ℕ → MessageData → ℕ → MessageData
parse_payload b msg it =
    if ltb (it + mic_field_size) msg.buf_size
    then (record msg {
      f_port = get_or b it 0;
      frm_payload_size = u8 (msg.buf_size + 256 - (it + 1) - mic_field_size);
      frm_payload = it + 1;
    })
    else msg

pub parse_mic : List ℕ → MessageData → MessageData
parse_mic b msg = record msg { mic = le32 b (msg.buf_size - mic_field_size) }

pub parse_options : List ℕ → MessageData → ParserStatus × MessageData
unfolding parse_payload parse_mic
parse_options b msg =
    let len = f_opts_len msg.f_ctrl in
    if leb len 15
    then (let msg' = record msg { f_opts = lgw_memcpy msg.f_opts (drop 8 b) len } in
        (success, parse_mic b (parse_payload b msg' (8 + len))))
    else (fail, msg)

pub parse_frame : List ℕ → MessageData → ParserStatus × MessageData
unfolding parse_options
parse_frame b msg =
    let msg' = record msg { f_port = 0; frm_payload_size = 0; mhdr = get_or b 0 0 } in
    if m_type msg'.mhdr == join_accept || m_type msg'.mhdr == join_req
    then (success, msg')
    else parse_options b
        (record msg' { dev_addr = le32 b 1; f_ctrl = get_or b 5 0; f_cnt = le16 b 6 })

unfoldable pub lora_mac_parser_data : MessageData → ParserStatus × MessageData
unfolding parse_frame
lora_mac_parser_data msg = elim (msg.buffer) [
  | none ↦ (error_npe, msg)
  | some b ↦ if ltb msg.buf_size 13 then (error_npe, msg) else parse_frame b msg
]

pub parse_join : List ℕ → MessageJoinAccept → ParserStatus × MessageJoinAccept
parse_join b msg =
    let head = record msg {
      mhdr = get_or b 0 0;
      join_nonce = get_or b 1 0 ∷ get_or b 2 0 ∷ get_or b 3 0 ∷ [];
      net_id = get_or b 4 0 ∷ get_or b 5 0 ∷ get_or b 6 0 ∷ [];
      dev_addr = le32 b 7;
      dl_settings = get_or b 11 0;
      rx_delay = get_or b 12 0;
    } in
    if msg.buf_size == 13 + cf_list_field_size + mic_field_size
    then (
      success,
      record head {
        cf_list = lgw_memcpy msg.cf_list (drop 13 b) cf_list_field_size;
        mic = le32 b (13 + cf_list_field_size);
      },
    )
    else if ltb (13 + mic_field_size) msg.buf_size
    then (fail, head)
    else (success, record head { mic = le32 b 13 })

pub lora_mac_parser_join_accept : MessageJoinAccept → ParserStatus × MessageJoinAccept
unfolding parse_join
lora_mac_parser_join_accept msg = elim (msg.buffer) [
  | none ↦ (error_npe, msg)
  | some b ↦ parse_join b msg
]
