-- ===== src/Semtech/Uplink.antt =====
-- Which uplinks `thread_push_up` forwards: the relay's header, the filters and the counters.
use dragino_fwd_src_lps8_mqt.Base.{
  ℕ, ◌+◌, ◌-◌, Bool, true, false, ◌&&◌, ◌||◌, List, Option, none, some, ◌==◌, if◌then◌else◌, drop,
  replicate, get_or, u8, u16, u32, bit_and, bit_or, ◌<<<◌,
}
use dragino_fwd_src_lps8_mqt.Util.{lgw_memcpy}
use dragino_fwd_src_lps8_mqt.Mac.{
  MessageData, ParserStatus, success, fail, error_npe, error, lora_mac_parser_data,
}
use dragino_fwd_src_lps8_mqt.Service.{
  FilterLevel, no_filter, include, exclude, Key, pkt_basic_filter,
}
use dragino_fwd_src_lps8_mqt.Semtech.{LgwPktRx, StatUp, Serv}

abbrev pub relay_dn : ℕ
relay_dn = 1

abbrev pub stat_no_crc : ℕ
stat_no_crc = 0x01

abbrev pub stat_crc_bad : ℕ
stat_crc_bad = 0x11

abbrev pub stat_crc_ok : ℕ
stat_crc_ok = 0x10

-- A packet that came from the relay: its time stands in front of its payload. `tmp` is
-- `tmp_payload` before.
unfoldable pub from_relay : {F : Type 0} → List ℕ → LgwPktRx F → LgwPktRx F
from_relay tmp p =
    let b = λ (i : ℕ). get_or p.payload i 0 in
    let size = u16 (p.size + 65536 - 5) in
    record p {
      count_us = bit_or (bit_or (bit_or (b 1) (b 2 <<< 8)) (b 3 <<< 16)) (b 4 <<< 24);
      size = size;
      payload = lgw_memcpy (replicate 256 0) (drop 5 (lgw_memcpy tmp p.payload p.size)) size;
    }

-- `none` where the packet is skipped before it is counted.
unfoldable pub unwrapped : {F : Type 0} → Serv → List ℕ → LgwPktRx F → Option (LgwPktRx F)
unfolding from_relay
unwrapped serv tmp p =
    if p.if_chain == 8 && (serv.as_relay || serv.has_relay)
    then (if serv.as_relay
        then none
        else if bit_and (get_or p.payload 0 0) relay_dn == relay_dn
        then none
        else some (from_relay tmp p))
    else some p

-- `macmsg` before the parser.
unfoldable pub macmsg : {F : Type 0} → LgwPktRx F → MessageData
macmsg p = record {
  buffer = some p.payload;
  buf_size = u8 p.size;
  mhdr = 0;
  dev_addr = 0;
  f_ctrl = 0;
  f_cnt = 0;
  f_opts = replicate 15 0;
  f_port = 0;
  frm_payload = 0;
  frm_payload_size = 0;
  mic = 0;
}

-- `macmsg` behind it.
abbrev pub parsed_message : ParserStatus × MessageData → MessageData
parsed_message (success, msg) = msg
parsed_message (fail, msg) = record msg { buf_size = 0 }
parsed_message (error_npe, msg) = record msg { buf_size = 0 }
parsed_message (error, msg) = record msg { buf_size = 0 }

unfoldable pub parsed : {F : Type 0} → LgwPktRx F → MessageData
unfolding macmsg
parsed p = parsed_message (lora_mac_parser_data (macmsg p))

abbrev pub is_active : FilterLevel → Bool
is_active no_filter = false
is_active include = true
is_active exclude = true

-- Does the filter take the packet out?
unfoldable pub filtered_out : {F : Type 0} → (Key → Bool) → Serv → LgwPktRx F → Bool
unfolding parsed
filtered_out lgw_db_key_exist serv p =
    let msg = parsed p in
    let l = serv.levels in
    if msg.buf_size == 0
    then false
    else if is_active l.fport || (is_active l.devaddr || is_active l.nwkid)
    then pkt_basic_filter lgw_db_key_exist serv.name l msg.dev_addr msg.f_port
    else false

-- Is the status one that the service forwards?
unfoldable pub wants : Serv → ℕ → Bool
wants serv status =
    if status == stat_crc_ok
    then serv.fwd_valid_pkt
    else if status == stat_crc_bad
    then serv.fwd_error_pkt
    else if status == stat_no_crc
    then serv.fwd_nocrc_pkt
    else false

-- The counter of the status.
unfoldable pub count_status : ℕ → StatUp → StatUp
count_status status s =
    if status == stat_crc_ok
    then (record s { meas_nb_rx_ok = u32 (s.meas_nb_rx_ok + 1) })
    else if status == stat_crc_bad
    then (record s { meas_nb_rx_bad = u32 (s.meas_nb_rx_bad + 1) })
    else if status == stat_no_crc
    then (record s { meas_nb_rx_nocrc = u32 (s.meas_nb_rx_nocrc + 1) })
    else s

unfoldable pub count_received : ℕ → StatUp → StatUp
unfolding count_status
count_received status s =
    count_status status (record s { meas_nb_rx_rcv = u32 (s.meas_nb_rx_rcv + 1) })

unfoldable pub count_forwarded : ℕ → StatUp → StatUp
count_forwarded size s = record s {
  meas_up_pkt_fwd = u32 (s.meas_up_pkt_fwd + 1);
  meas_up_payload_byte = u32 (s.meas_up_payload_byte + size);
}
