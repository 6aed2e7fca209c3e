-- ===== src/Semtech/Downlink.antt =====
-- A downlink of the server on its way to the queue, in `semtech_pull_down`, up to the answer. What
-- follows it, the copy for the relay and the log of the header, is left out.
use dragino_fwd_src_lps8_mqt.Base.{
  ℕ, ◌+◌, ◌-◌, ◌^◌, not, ◌||◌, List, Option, none, some, ◌==◌, ltb, leb, if◌then◌else◌, get_or, u32,
}
use dragino_fwd_src_lps8_mqt.Jit.Types.{
  TxPkt, PktType, JitError, ok, tx_freq, tx_power, gps_unlocked, JitQueue,
}
use dragino_fwd_src_lps8_mqt.Jit.Platform.{Platform}
use dragino_fwd_src_lps8_mqt.Jit.Enqueue.{jit_enqueue}
use dragino_fwd_src_lps8_mqt.Transmit.{Lbt}
use dragino_fwd_src_lps8_mqt.Transmit.Scan.{lbt_enqueue}
use dragino_fwd_src_lps8_mqt.Semtech.Power.{get_tx_gain_lut_index}
use dragino_fwd_src_lps8_mqt.Semtech.TxAck.{StatDown, count_ack}
use dragino_fwd_src_lps8_mqt.Semtech.Txpk.{
  Txpk, Readers, Read, aborted, unlocked, exited, undefined, ready, read_txpk,
}

-- `GW.tx` without the queues: for each chain the limits of the frequency, and the powers of the
-- gain table.
pub record TxLimits : Type 0 where
  pub tx_freq_min : ℕ → ℕ
  pub tx_freq_max : ℕ → ℕ
  pub txlut : ℕ → List ℕ

-- `GW.tx.jit_queue`, by chain, `GW.lbt`, `GW.beacon.beacon_period` and the counters.
pub record Downstream : Type 0 where
  pub jit_queue : ℕ → JitQueue
  pub lbt : Lbt
  pub stat_down : StatDown
  pub beacon_period : ℕ
  pub meas_nb_beacon_queued : ℕ
  pub meas_nb_beacon_rejected : ℕ

-- No answer; the arguments of `send_tx_ack`; the end of the process; a write outside of `payload`.
pub data Outcome : Type 0 where
  silent process_ends bad_write : Outcome
  answers : JitError → ℕ → Outcome

-- `LGW_RF_CHAIN_NB`
abbrev pub rf_chain_nb : ℕ
rf_chain_nb = 2

-- An `int8_t` as the bit pattern of an `int32_t`.
abbrev pub widened : ℕ → ℕ
widened power = if ltb power 128 then power else power + (2 ^ 32 - 256)

-- `warning_result`, `warning_value` and the packet with the power that is used.
unfoldable pub check_power : List ℕ → TxPkt → JitError × ℕ × TxPkt
check_power lut p =
    let (is_found, tx_lut_idx) = get_tx_gain_lut_index lut p.rf_power in
    let rf_power = get_or lut tx_lut_idx 0 in
    if not is_found || not (rf_power == p.rf_power)
    then (tx_power, widened rf_power, record p { rf_power = rf_power })
    else (ok, 0, p)

abbrev pub put_queue : (ℕ → JitQueue) → ℕ → JitQueue → ℕ → JitQueue
put_queue queues chain q c = if c == chain then q else queues c

abbrev pub or_warning : JitError → JitError → JitError
or_warning warning ok = warning
or_warning warning error = error

unfoldable pub watch : TxPkt → ℕ → Lbt → Lbt
watch p now lbt =
    if lbt.lbt_tty_enabled
    then (record lbt { lbt_stat = (lbt_enqueue p now lbt.lbt_stat).1 })
    else lbt

unfoldable pub count_request : StatDown → StatDown
count_request s = record s {
  meas_nb_tx_requested = u32 (s.meas_nb_tx_requested + 1);
  meas_nb_tx_ok = u32 (s.meas_nb_tx_ok + 1);
}

unfoldable pub count_dgram : (msg_len size : ℕ) → StatDown → StatDown
count_dgram msg_len size s = record s {
  meas_dw_dgram_rcv = u32 (s.meas_dw_dgram_rcv + 1);
  meas_dw_network_byte = u32 (s.meas_dw_network_byte + msg_len);
  meas_dw_payload_byte = u32 (s.meas_dw_payload_byte + size);
}

abbrev pub answer : JitError → ℕ → Downstream → Outcome × Downstream
answer error value s = (answers error value, record s { stat_down = count_ack error s.stat_down })

module _ (platform : Platform) (limits : TxLimits) where
  open limits use {tx_freq_min, tx_freq_max, txlut}

  -- From the check of the power on, at the time `now` of the concentrator.
  unfoldable pub enqueue_downlink : ℕ → TxPkt → PktType → Downstream → Outcome × Downstream
  unfolding check_power watch count_request count_ack
  enqueue_downlink now p downlink_type s =
      let (warning_result, warning_value, p') = check_power (txlut p.rf_chain) p in
      let queue = s.jit_queue p.rf_chain in
      let (jit_result, queue', stamped) = jit_enqueue platform queue now p' downlink_type in
      answer (or_warning warning_result jit_result) warning_value (record s {
        jit_queue = put_queue s.jit_queue p.rf_chain queue';
        lbt = watch p' now s.lbt;
        stat_down = count_request s.stat_down;
      })

  -- From the counters on.
  unfoldable pub submit : (now msg_len : ℕ) → TxPkt → PktType → Downstream → Outcome × Downstream
  unfolding count_dgram enqueue_downlink
  submit now msg_len p downlink_type s =
      let s' = record s { stat_down = count_dgram msg_len p.size s.stat_down } in
      if leb rf_chain_nb p.rf_chain
      then (silent, s')
      else if ltb p.freq_hz (tx_freq_min p.rf_chain) || ltb (tx_freq_max p.rf_chain) p.freq_hz
      then answer tx_freq 0 s'
      else enqueue_downlink now p downlink_type s'

  abbrev pub handle_read :
      (now msg_len : ℕ) → Read (TxPkt × PktType) → Downstream → Outcome × Downstream
  handle_read now msg_len aborted s = (silent, s)
  handle_read now msg_len unlocked s = answer gps_unlocked 0 s
  handle_read now msg_len exited s = (process_ends, s)
  handle_read now msg_len undefined s = (bad_write, s)
  handle_read now msg_len (ready (p, downlink_type)) s = submit now msg_len p downlink_type s

  -- A PULL_RESP of `msg_len` bytes with the object `txpk` of its text; `none` is text without one.
  unfoldable pub pull_resp :
      {M : Type 0}
      → Readers M
      → (now msg_len : ℕ) → Option (Txpk M)
      → Downstream
      → Outcome × Downstream
  unfolding read_txpk submit
  pull_resp readers now msg_len none s = (silent, s)
  pull_resp readers now msg_len (some txpk) s = handle_read now msg_len (read_txpk readers txpk) s
