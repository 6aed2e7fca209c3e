-- ===== src/Mac/Report.antt =====
-- The traffic records of `decode_mac_pkt_up` and `decode_mac_pkt_down`.
-- A record holds what the functions hand to `lgw_db_putpkt`; the format strings of `content` and
-- the frequency in MHz are not written out. `F` is `float`.
-- The numbers of the data rates and bandwidths are those of src/sx1302hal (SX1302MOD).
pub mod Text
use dragino_fwd_src_lps8_mqt.Base.{
  ℕ, zero, suc, ◌+◌, ◌-◌, ◌*◌, ◌/◌, ◌%◌, Bool, true, false, List, [], ◌∷◌, ◌++◌, Option, none, some,
  ltb, ◌==◌, if◌then◌else◌, get_or, drop, take, replicate,
}
use dragino_fwd_src_lps8_mqt.Jit.Types.{TxPkt}
use dragino_fwd_src_lps8_mqt.Mac.{
  MessageData, MessageJoinAccept, ParserStatus, success, fail, error_npe, error,
  lora_mac_parser_join_accept, m_type, adr, ack, f_pending, f_opts_len, rx1_dr_offset,
  rx2_data_rate, join_req, join_accept, data_unconfirmed_up, data_unconfirmed_down,
  data_confirmed_up, data_confirmed_down, mic_field_size, cf_list_field_size,
}

-- What is read of `struct lgw_pkt_rx_s`.
pub record RxPkt (F : Type 0) : Type 0 where
  pub freq_hz : ℕ
  pub bandwidth : ℕ
  pub datarate : ℕ
  pub coderate : ℕ
  pub rssic : F
  pub snr : F
  pub size : ℕ
  pub payload : List ℕ

pub data PdType : Type 0 where
  no_type data_conf_up data_unconf_up join_req_up data_conf_down data_unconf_down join_accept_down :
      PdType

-- The arguments of the formats that data frames share.
pub record DataFields : Type 0 where
  pub addr : ℕ
  pub adr : ℕ
  pub ack : ℕ
  pub f_pending : ℕ
  pub f_opts_len : ℕ
  pub f_cnt : ℕ
  pub f_port : ℕ
  pub mic : ℕ

pub data Content (F : Type 0) : Type 0 where
  no_content : Content F
  up_content : Bool → ℕ → F → F → DataFields → Content F
  join_req_content : ℕ → F → F → List ℕ → List ℕ → Content F
  down_content : Bool → ℕ → Bool → DataFields → Content F
  join_accept_content : ℕ → List ℕ → ℕ → ℕ → ℕ → Content F

pub record DbPkt (F : Type 0) : Type 0 where
  pub pdtype : PdType
  pub freq_hz : ℕ
  pub dr : List ℕ
  pub f_cnt : ℕ
  pub content : Content F
  pub payloadhex : List ℕ

-- `dr`, as strcpy and strcat put it together, without the terminator.
pub sf_text : ℕ → List ℕ
sf_text datarate =
    if datarate == 5
    then b'S' ∷ b'F' ∷ b'5' ∷ b' ' ∷ []
    else if datarate == 6
    then b'S' ∷ b'F' ∷ b'6' ∷ b' ' ∷ []
    else if datarate == 7
    then b'S' ∷ b'F' ∷ b'7' ∷ b' ' ∷ []
    else if datarate == 8
    then b'S' ∷ b'F' ∷ b'8' ∷ b' ' ∷ []
    else if datarate == 9
    then b'S' ∷ b'F' ∷ b'9' ∷ b' ' ∷ []
    else if datarate == 10
    then b'S' ∷ b'F' ∷ b'1' ∷ b'0' ∷ b' ' ∷ []
    else if datarate == 11
    then b'S' ∷ b'F' ∷ b'1' ∷ b'1' ∷ b' ' ∷ []
    else if datarate == 12
    then b'S' ∷ b'F' ∷ b'1' ∷ b'2' ∷ b' ' ∷ []
    else []

pub bw_text : ℕ → List ℕ
bw_text bandwidth =
    if bandwidth == 4
    then b'B' ∷ b'W' ∷ b'1' ∷ b'2' ∷ b'5' ∷ b'K' ∷ b'H' ∷ b'z' ∷ b' ' ∷ []
    else if bandwidth == 5
    then b'B' ∷ b'W' ∷ b'2' ∷ b'5' ∷ b'0' ∷ b'K' ∷ b'H' ∷ b'z' ∷ b' ' ∷ []
    else if bandwidth == 6
    then b'B' ∷ b'W' ∷ b'5' ∷ b'0' ∷ b'0' ∷ b'K' ∷ b'H' ∷ b'z' ∷ b' ' ∷ []
    else []

pub cr_text : ℕ → List ℕ
cr_text coderate =
    if coderate == 1
    then b'C' ∷ b'R' ∷ b'4' ∷ b'/' ∷ b'5' ∷ []
    else if coderate == 2
    then b'C' ∷ b'R' ∷ b'4' ∷ b'/' ∷ b'6' ∷ []
    else if coderate == 3
    then b'C' ∷ b'R' ∷ b'4' ∷ b'/' ∷ b'7' ∷ []
    else if coderate == 4
    then b'C' ∷ b'R' ∷ b'4' ∷ b'/' ∷ b'8' ∷ []
    else if coderate == 0
    then b'C' ∷ b'R' ∷ b' ' ∷ b'o' ∷ b'f' ∷ b'f' ∷ []
    else []

pub rate_text : ℕ → ℕ → ℕ → List ℕ
rate_text datarate bandwidth coderate = sf_text datarate ++ (bw_text bandwidth ++ cr_text coderate)

-- `%02X` of each byte.
pub upper_hex : ℕ → ℕ
upper_hex a = if ltb a 10 then b'0' + a else b'A' + (a - 10)

pub hex_text : List ℕ → List ℕ
hex_text [] = []
hex_text (x ∷ xs) = upper_hex (x / 16) ∷ upper_hex (x % 16) ∷ hex_text xs

pub payload_hex : List ℕ → MessageData → List ℕ
payload_hex b msg = hex_text (take msg.frm_payload_size (drop msg.frm_payload b))

pub data_fields : MessageData → DataFields
data_fields msg = record {
  addr = msg.dev_addr;
  adr = adr msg.f_ctrl;
  ack = ack msg.f_ctrl;
  f_pending = f_pending msg.f_ctrl;
  f_opts_len = f_opts_len msg.f_ctrl;
  f_cnt = msg.f_cnt;
  f_port = msg.f_port;
  mic = msg.mic;
}

-- The bytes at `from`, `from - 1`, .., down to the one behind `from - n`.
pub bytes_down : List ℕ → ℕ → ℕ → List ℕ
bytes_down b from zero = []
bytes_down b from (suc n) = get_or b from 0 ∷ bytes_down b (from - 1) n

module _ {F : Type 0} where
  pub up_report : List ℕ → MessageData → RxPkt F → PdType × Content F × List ℕ
  unfolding payload_hex
  up_report b msg p =
      let text = payload_hex b msg in
      let t = m_type msg.mhdr in
      if t == data_confirmed_up
      then (data_conf_up, up_content true p.size p.rssic p.snr (data_fields msg), text)
      else if t == data_unconfirmed_up
      then (data_unconf_up, up_content false p.size p.rssic p.snr (data_fields msg), text)
      else if t == join_req
      then (
        join_req_up,
        join_req_content p.size p.rssic p.snr (hex_text (bytes_down b 8 8))
            (hex_text (bytes_down b 16 8)),
        text ++ hex_text (take p.size p.payload),
      )
      else (no_type, no_content, text)

  -- `none` when nothing is recorded. The buffer is not null here: the parser has read it.
  pub decode_mac_pkt_up : List ℕ → MessageData → RxPkt F → Option (DbPkt F)
  decode_mac_pkt_up b msg p =
      let r = up_report b msg p in
      if ltb msg.buf_size 13
      then none
      else some (record {
        pdtype = r.0;
        freq_hz = p.freq_hz;
        dr = rate_text p.datarate p.bandwidth p.coderate;
        f_cnt = msg.f_cnt;
        content = r.1;
        payloadhex = r.2;
      })

-- The message of a join accept, all zero but for the buffer.
pub join_message : List ℕ → MessageData → MessageJoinAccept
join_message b msg = record {
  buffer = some b;
  buf_size = msg.buf_size;
  mhdr = 0;
  join_nonce = replicate 3 0;
  net_id = replicate 3 0;
  dev_addr = 0;
  dl_settings = 0;
  rx_delay = 0;
  cf_list = replicate 16 0;
  mic = 0;
}

abbrev pub cflist_text : List ℕ
cflist_text = b'C' ∷ b'F' ∷ b'L' ∷ b'I' ∷ b'S' ∷ b'T' ∷ b':' ∷ []

module _ {F : Type 0} where
  -- With what the parser of the join accept answered.
  pub join_report :
      MessageData → TxPkt → List ℕ → ParserStatus × MessageJoinAccept → PdType × Content F × List ℕ
  join_report msg p text (success, join) = (
    join_accept_down,
    join_accept_content p.size join.net_id join.dev_addr (rx1_dr_offset join.dl_settings)
        (rx2_data_rate join.dl_settings),
    if msg.buf_size == cf_list_field_size + 12 + mic_field_size
        then cflist_text ++ hex_text join.cf_list
        else text,
  )
  join_report msg p text (_, join) = (no_type, no_content, text)

  pub down_report : List ℕ → MessageData → TxPkt → PdType × Content F × List ℕ
  unfolding payload_hex join_message join_report
  down_report b msg p =
      let text = payload_hex b msg in
      let t = m_type msg.mhdr in
      if t == data_confirmed_down
      then (data_conf_down, down_content true p.size p.invert_pol (data_fields msg), text)
      else if t == data_unconfirmed_down
      then (data_unconf_down, down_content false p.size p.invert_pol (data_fields msg), text)
      else if t == join_accept
      then join_report msg p text (lora_mac_parser_join_accept (join_message b msg))
      else (no_type, no_content, text)

  pub decode_mac_pkt_down : List ℕ → MessageData → TxPkt → Option (DbPkt F)
  decode_mac_pkt_down b msg p =
      let r = down_report b msg p in
      if ltb msg.buf_size 13
      then none
      else some (record {
        pdtype = r.0;
        freq_hz = p.freq_hz;
        dr = rate_text p.datarate p.bandwidth p.coderate;
        f_cnt = msg.f_cnt;
        content = r.1;
        payloadhex = r.2;
      })
