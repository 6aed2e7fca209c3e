-- ===== src/Semtech/DownTests.antt =====
-- The theorems on downlinks and polling at one downlink and its answers.
use dragino_fwd_src_lps8_mqt.Base.{
  ℕ, ◌≡◌, refl, true, false, List, [], ◌∷◌, Option, none, some, arith, replicate,
}
use dragino_fwd_src_lps8_mqt.Base.Text.{codes}
use dragino_fwd_src_lps8_mqt.Jit.Types.{TxPkt, downlink_class_a, zero_pkt}
use dragino_fwd_src_lps8_mqt.Jit.Queue.{jit_queue_init}
use dragino_fwd_src_lps8_mqt.Jit.Sorter.{board}
use dragino_fwd_src_lps8_mqt.Base64.{b64_to_bin, b64_to_bin_nopad}
use dragino_fwd_src_lps8_mqt.Semtech.TxAck.{StatDown}
use dragino_fwd_src_lps8_mqt.Semtech.Txpk.{Txpk, Readers, ready, read_txpk}
use dragino_fwd_src_lps8_mqt.Semtech.Checked.{PreambleFits, IsRequested, read_txpk-IsRequested}
use dragino_fwd_src_lps8_mqt.Semtech.Downlink.{TxLimits, Downstream, bad_write}
use dragino_fwd_src_lps8_mqt.Semtech.Pull.{Link, Round, poll, rounds, link_init}
use dragino_fwd_src_lps8_mqt.Semtech.KeepAlive.{any_answer, Continues, poll-Continues}
use dragino_fwd_src_lps8_mqt.Semtech.Rounds.{IsMatched, init-IsMatched, rounds-IsMatched}

abbrev zero_counts : StatDown
zero_counts = record {
  meas_nb_tx_ok = 0;
  meas_nb_tx_requested = 0;
  meas_nb_tx_rejected_collision_packet = 0;
  meas_nb_tx_rejected_collision_beacon = 0;
  meas_nb_tx_rejected_too_late = 0;
  meas_nb_tx_rejected_too_early = 0;
  meas_dw_pull_sent = 0;
  meas_dw_ack_rcv = 0;
  meas_dw_dgram_rcv = 0;
  meas_dw_network_byte = 0;
  meas_dw_payload_byte = 0;
}

abbrev limits : TxLimits
limits = record {
  tx_freq_min = λ c. 863000000;
  tx_freq_max = λ c. 870000000;
  txlut = λ c. 10 ∷ 14 ∷ 20 ∷ [];
}

abbrev idle : Downstream
idle = record {
  jit_queue = λ c. jit_queue_init;
  lbt = record { lbt_tty_enabled = true; lbt_stat = [] };
  stat_down = zero_counts;
  beacon_period = 128;
  meas_nb_beacon_queued = 0;
  meas_nb_beacon_rejected = 0;
}

abbrev window : TxPkt
window = record zero_pkt { freq_hz = 868100000; count_us = 6000000; rf_power = 14; tx_mode = 1 }

abbrev readers : Readers ℕ
readers = record {
  gps2cnt = none;
  scan_datr = λ str. some (9, 125);
  antenna_gain = 0;
  td_enabled = false;
  time_diff = [];
}

abbrev request : Txpk ℕ
request = record {
  imme = false;
  tmst = some 6000000;
  tmms = none;
  ncrc = none;
  freq = some 868100000;
  rfch = some 0;
  powe = some 14;
  modu = some (codes "LORA");
  datr = some (codes "SF9BW125");
  bitrate = none;
  codr = some (codes "4/5");
  ipol = some true;
  prea = some 8;
  fdev = none;
  size = some 0;
  encoded = some [];
}

abbrev asked : TxPkt
asked = record zero_pkt {
  count_us = 6000000;
  freq_hz = 868100000;
  rf_power = 14;
  modulation = 0x10;
  datarate = 9;
  bandwidth = 4;
  coderate = 1;
  invert_pol = true;
  preamble = 8;
  tx_mode = 1;
}

read_request : read_txpk readers request ≡ ready (asked, downlink_class_a)
unfolding read_txpk b64_to_bin b64_to_bin_nopad zero_pkt
read_request = refl

request-PreambleFits : PreambleFits (some 8)
request-PreambleFits i e = let same : 8 ≡ i = cc e in omega (arith, same)

read_txpk-IsRequested_example : IsRequested readers request asked downlink_class_a
read_txpk-IsRequested_example =
    read_txpk-IsRequested readers request request-PreambleFits asked downlink_class_a read_request

abbrev linked : Link
linked = record {
  pull_send = 3;
  pull_ack = 3;
  autoquit_cnt = 0;
  retry = 0;
  online = true;
  network_status = true;
  sock_down = true;
  sock_up = true;
  stop_sig = false;
}

abbrev heard_round : Round
heard_round = record {
  opens_down = true;
  opens_up = true;
  token_h = 7;
  token_l = 9;
  sends = true;
  events =
      record {
        beacons =
            record {
              current_concentrator_time = 4999000;
              beacon_pkt = record zero_pkt { count_us = 90000000 };
            }
            ∷ [];
        now = 5000000;
        datagram = some (2 ∷ 7 ∷ 9 ∷ 4 ∷ []);
      }
      ∷ [];
}

abbrev no_text : List ℕ → Option (Txpk ℕ)
no_text d = none

poll-Continues_example :
    Continues true true
      (any_answer 7 9 heard_round.events)
      (poll board limits readers no_text heard_round linked idle).1
unfolding poll
poll-Continues_example =
    poll-Continues board limits readers no_text heard_round linked idle true true
      (record { matched = refl; fits = omega arith; down = refl; up = refl }) refl

rounds-IsMatched_example :
    IsMatched
      (rounds board limits readers no_text 5
        (heard_round ∷ heard_round ∷ [])
        (link_init true true)
        idle).0
rounds-IsMatched_example =
    rounds-IsMatched board limits readers no_text 5 (heard_round ∷ heard_round ∷ [])
      (link_init true true) idle (init-IsMatched true true)

-- A datagram that fills the buffer ends the round: the PULL_ACK behind it is not read.
abbrev filling_round : Round
filling_round = record heard_round {
  events =
      record { beacons = []; now = 5000000; datagram = some (2 ∷ 0 ∷ 0 ∷ 3 ∷ replicate 996 32) }
      ∷ heard_round.events;
}

filled_poll :
    let (outcomes, k, s) = poll board limits readers no_text filling_round linked idle in
    (outcomes ≡ bad_write ∷ []) × (k.pull_ack ≡ linked.pull_ack)
unfolding poll
filled_poll = (refl, refl)
