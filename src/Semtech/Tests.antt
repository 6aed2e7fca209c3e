-- ===== src/Semtech/Tests.antt =====
-- The theorems on the Semtech service at two uplinks, a downlink and two rounds.
use dragino_fwd_src_lps8_mqt.Base.{
  ℕ, ◌+◌, ◌≡◌, refl, ◌⊎◌, inl, Bool, true, false, List, [], ◌∷◌, ◌++◌, none, some, arith, length,
}
use dragino_fwd_src_lps8_mqt.Base.Text.{codes}
use dragino_fwd_src_lps8_mqt.Base64.{
  done, b64_to_bin, bin_to_b64, pad, bin_to_b64_nopad, encode_blocks, code_to_char, pack_bytes,
  sextet, last_chars,
}
use dragino_fwd_src_lps8_mqt.Mac.{lora_mac_parser_data}
use dragino_fwd_src_lps8_mqt.Service.{no_filter, Key}
use dragino_fwd_src_lps8_mqt.Semtech.{LgwPktRx, StatUp, Serv, header, pkt_push_data}
use dragino_fwd_src_lps8_mqt.Semtech.Uplink.{unwrapped}
use dragino_fwd_src_lps8_mqt.Semtech.Fields.{Format, object, goes, data_text}
use dragino_fwd_src_lps8_mqt.Semtech.Datagram.{Composed, compose_rxpk, opened, forwards}
use dragino_fwd_src_lps8_mqt.Semtech.Compose.{kept, Writes}
use dragino_fwd_src_lps8_mqt.Semtech.Push.{Network, Pushed, timeout, received}
use dragino_fwd_src_lps8_mqt.Semtech.Object.{
  IsSerializable, IsLora, IsFsk, fields, lora_fields, fsk_fields, Prints, object-fields,
}
use dragino_fwd_src_lps8_mqt.Semtech.Broken.{IsUnknown, Forwarded, compose_rxpk-unknown}

-- Each format writes one letter.
abbrev toy : Format ℕ ℕ
toy = record { snprintf = λ piece. b'x' ∷ []; roundf = λ f. f; gps_time = none }

abbrev nothing_stored : Key → Bool
nothing_stored key = false

abbrev serv : Serv
serv = record {
  name = [];
  levels = record { fport = no_filter; devaddr = no_filter; nwkid = no_filter };
  fwd_valid_pkt = true;
  fwd_error_pkt = false;
  fwd_nocrc_pkt = false;
  as_relay = false;
  has_relay = false;
}

abbrev uplink : LgwPktRx ℕ
uplink = record {
  freq_hz = 868100000;
  freq_offset = 0;
  if_chain = 0;
  status = 0x10;
  count_us = 5000;
  rf_chain = 0;
  modem_id = 1;
  modulation = 0x10;
  bandwidth = 4;
  datarate = 7;
  coderate = 1;
  rssic = 60;
  rssis = 61;
  snr = 9;
  size = 3;
  payload = 1 ∷ 2 ∷ 3 ∷ [];
}

abbrev zero_stat : StatUp
zero_stat = record {
  meas_nb_rx_rcv = 0;
  meas_nb_rx_ok = 0;
  meas_nb_rx_bad = 0;
  meas_nb_rx_nocrc = 0;
  meas_up_pkt_fwd = 0;
  meas_up_network_byte = 0;
  meas_up_payload_byte = 0;
  meas_up_dgram_sent = 0;
  meas_up_ack_rcv = 0;
}

abbrev text : List ℕ
text =
    codes
      "{xxxx,\"stat\":1,\"modu\":\"LORA\",\"datr\":\"SF7BW125\",\"codr\":\"4/5\"xxxx,\"data\":\"AQID\"}"

uplink-object : object toy uplink 0 ≡ goes text
unfolding object data_text bin_to_b64 pad bin_to_b64_nopad encode_blocks code_to_char pack_bytes
    sextet last_chars
uplink-object = refl

abbrev network : Network
network = record {
  has_socket = true;
  sends = true;
  recvs = timeout ∷ received (2 ∷ 7 ∷ 9 ∷ 1 ∷ []) ∷ [];
}

uplink_is_kept : kept toy nothing_stored serv [] ((uplink, 0) ∷ []) ≡ (uplink, 0) ∷ []
unfolding unwrapped forwards lora_mac_parser_data
uplink_is_kept = refl

uplink-Writes :
    Writes toy nothing_stored serv []
      (kept toy nothing_stored serv [] ((uplink, 0) ∷ []))
      (text ∷ [])
unfolding unwrapped forwards lora_mac_parser_data
uplink-Writes = (uplink-object, tt)

toy_prints : Prints toy
toy_prints piece e = cc e

uplink-IsSerializable : IsSerializable uplink
uplink-IsSerializable = record {
  known_modulation = inl (refl, omega arith, omega arith, omega arith, omega arith, omega arith);
  known_status = inl refl;
  small = omega arith;
  bytes = (omega arith, (omega arith, (omega arith, tt)));
}

object-fields_example :
    (code : List ℕ) × ((IsLora uplink
        × (object toy uplink 0 ≡ goes (fields toy uplink 0 (lora_fields toy uplink) code)))
      ⊎ (IsFsk uplink
          × (object toy uplink 0 ≡ goes (fields toy uplink 0 (fsk_fields toy uplink) code))))
    × (b64_to_bin code 256 ≡ done 3 (1 ∷ 2 ∷ 3 ∷ []))
object-fields_example = object-fields toy toy_prints uplink 0 uplink-IsSerializable

-- A packet with a modulation of 0.
abbrev odd : LgwPktRx ℕ
odd = record uplink { modulation = 0 }

odd-IsUnknown : IsUnknown odd
odd-IsUnknown = record {
  known_status = inl refl;
  no_lora = λ e. omega (arith, e);
  no_fsk = λ e. omega (arith, e);
}

odd-Forwarded : Forwarded toy toy_prints nothing_stored serv [] odd odd
unfolding unwrapped forwards lora_mac_parser_data
odd-Forwarded = (refl, refl)

uplink-Forwarded : Forwarded toy toy_prints nothing_stored serv [] uplink uplink
unfolding unwrapped forwards lora_mac_parser_data
uplink-Forwarded = (refl, refl)

compose_rxpk-unknown_example :
    (c : Composed) × (compose_rxpk toy nothing_stored serv []
        (((uplink, 0) ∷ []) ++ ((odd, 1) ∷ (uplink, 0) ∷ []))
        (opened 7 9 1 2 zero_stat)
      ≡ some c)
    × (c.buff ≡ header pkt_push_data 7 9 1 2 ++ (codes "{\"rxpk\":[" ++ (codes "," ++ text)))
    × (c.pkt_in_dgram ≡ length (text ∷ []) + 1)
compose_rxpk-unknown_example =
    compose_rxpk-unknown toy toy_prints nothing_stored serv [] ((uplink, 0) ∷ []) text [] odd odd
      uplink uplink 1 0 text 7 9 1 2 zero_stat uplink-Writes odd-Forwarded odd-IsUnknown
      uplink-Forwarded uplink-object

abbrev one_composed : Composed
one_composed = record {
  buff = (2 ∷ 7 ∷ 9 ∷ 0 ∷ 0 ∷ 0 ∷ 0 ∷ 1 ∷ 0 ∷ 0 ∷ 0 ∷ 2 ∷ []) ++ (codes "{\"rxpk\":[" ++ text);
  pkt_in_dgram = 1;
  stat_up = record zero_stat {
    meas_nb_rx_rcv = 1;
    meas_nb_rx_ok = 1;
    meas_up_pkt_fwd = 1;
    meas_up_payload_byte = 3;
  };
  highest = length (header pkt_push_data 7 9 1 2 ++ (codes "{\"rxpk\":[" ++ text));
}
