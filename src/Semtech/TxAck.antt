-- ===== src/Semtech/TxAck.antt =====
-- The answer to a downlink, `send_tx_ack` of src/fwd/src/fwd.c.
use dragino_fwd_src_lps8_mqt.Base.{ℕ, ◌+◌, List, [], ◌++◌, u32}
use dragino_fwd_src_lps8_mqt.Base.Text.{codes}
use dragino_fwd_src_lps8_mqt.Jit.Types.{
  JitError, ok, too_late, too_early, full, empty, collision_packet, collision_beacon, tx_freq,
  tx_power, gps_unlocked, invalid,
}
use dragino_fwd_src_lps8_mqt.Semtech.{header, pkt_tx_ack}

-- `stat_dw_s`
pub record StatDown : Type 0 where
  pub meas_nb_tx_ok : ℕ
  pub meas_nb_tx_requested : ℕ
  pub meas_nb_tx_rejected_collision_packet : ℕ
  pub meas_nb_tx_rejected_collision_beacon : ℕ
  pub meas_nb_tx_rejected_too_late : ℕ
  pub meas_nb_tx_rejected_too_early : ℕ
  pub meas_dw_pull_sent : ℕ
  pub meas_dw_ack_rcv : ℕ
  pub meas_dw_dgram_rcv : ℕ
  pub meas_dw_network_byte : ℕ
  pub meas_dw_payload_byte : ℕ

unfoldable pub ack_key : JitError → List ℕ
ack_key tx_power = codes "\"warn\":"
ack_key error = codes "\"error\":"

unfoldable pub ack_name : JitError → List ℕ
ack_name full = codes "\"COLLISION_PACKET\""
ack_name collision_packet = codes "\"COLLISION_PACKET\""
ack_name too_late = codes "\"TOO_LATE\""
ack_name too_early = codes "\"TOO_EARLY\""
ack_name collision_beacon = codes "\"COLLISION_BEACON\""
ack_name tx_freq = codes "\"TX_FREQ\""
ack_name tx_power = codes "\"TX_POWER\""
ack_name gps_unlocked = codes "\"GPS_UNLOCKED\""
ack_name ok = codes "\"UNKNOWN\""
ack_name empty = codes "\"UNKNOWN\""
ack_name invalid = codes "\"UNKNOWN\""

-- The counter of the answer; `ok` is not counted.
unfoldable pub count_ack : JitError → StatDown → StatDown
count_ack full s = record s {
  meas_nb_tx_rejected_collision_packet = u32 (s.meas_nb_tx_rejected_collision_packet + 1);
}
count_ack collision_packet s = record s {
  meas_nb_tx_rejected_collision_packet = u32 (s.meas_nb_tx_rejected_collision_packet + 1);
}
count_ack too_late s = record s {
  meas_nb_tx_rejected_too_late = u32 (s.meas_nb_tx_rejected_too_late + 1);
}
count_ack too_early s = record s {
  meas_nb_tx_rejected_too_early = u32 (s.meas_nb_tx_rejected_too_early + 1);
}
count_ack collision_beacon s = record s {
  meas_nb_tx_rejected_collision_beacon = u32 (s.meas_nb_tx_rejected_collision_beacon + 1);
}
count_ack ok s = s
count_ack empty s = s
count_ack tx_freq s = s
count_ack tx_power s = s
count_ack gps_unlocked s = s
count_ack invalid s = s

module _ (print_value : ℕ → List ℕ) where
  unfoldable pub ack_value : JitError → ℕ → List ℕ
  ack_value tx_power error_value = print_value error_value
  ack_value error error_value = []

  unfoldable pub ack_text : JitError → ℕ → List ℕ
  unfolding ack_key ack_name ack_value
  ack_text ok error_value = []
  ack_text error error_value =
      codes "{\"txpk_ack\":{"
      ++ (ack_key error ++ (ack_name error ++ (ack_value error error_value ++ codes "}}")))

  -- The datagram, and the counters. `print_value` is `snprintf` of ",\"value\":%d" with the bit
  -- pattern of an `int32_t`; it gives nothing where the result is not positive.
  unfoldable pub send_tx_ack :
      (token_h token_l mac_h mac_l : ℕ) → JitError → ℕ → StatDown → List ℕ × StatDown
  unfolding ack_text count_ack
  send_tx_ack token_h token_l mac_h mac_l error error_value s = (
    header pkt_tx_ack token_h token_l mac_h mac_l ++ ack_text error error_value,
    count_ack error s,
  )
