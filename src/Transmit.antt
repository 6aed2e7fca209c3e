-- ===== src/Transmit.antt =====
-- The thread that sends the packets of a queue at their time, `thread_jit` of src/fwd/src/fwd.c,
-- built with SX1302MOD: its turn for one RF chain.
pub mod Earliest
pub mod Scan
pub mod Registered
mod Tests
use dragino_fwd_src_lps8_mqt.Base.{
  ℕ, ◌+◌, Bool, true, false, List, [], ◌∷◌, Option, none, some, if◌then◌else◌, ◌==◌, u32,
}
use dragino_fwd_src_lps8_mqt.Jit.Types.{TxPkt, PktType, is_beacon, JitError, ok, JitQueue}
use dragino_fwd_src_lps8_mqt.Jit.Platform.{Platform}
use dragino_fwd_src_lps8_mqt.Jit.Queue.{jit_dequeue}
use dragino_fwd_src_lps8_mqt.Jit.Peek.{PeekResult, returns, bad_read, out_of_fuel, jit_peek}

-- What `lgw_send` returns: `LGW_HAL_ERROR`, `LGW_LBT_ISSUE`, or anything else.
pub data SendResult : Type 0 where
  hal_error lbt_issue success : SendResult

-- The concentrator: `none` is an error of `lgw_status`, `correct` the product with `xtal_correct`
-- cast to `uint32_t`.
pub record Concentrator : Type 0 where
  pub lgw_status : TxPkt → Option ℕ
  pub lgw_send : TxPkt → SendResult
  pub correct : ℕ → ℕ

-- `TX_EMITTING`
abbrev pub tx_emitting : ℕ
tx_emitting = 4

-- An entry of `lbt_stat`.
pub record LbtStat : Type 0 where
  pub freq_hz : ℕ
  pub count_us : ℕ
  pub chan_is_free : Bool

-- `GW.lbt`; of the array `lbt_stat` the first `NB_LBT_QUEUE` entries, which are searched.
pub record Lbt : Type 0 where
  pub lbt_tty_enabled : Bool
  pub lbt_stat : List LbtStat

-- The queue of the chain, the variable `chanisfree` and the counters of the report.
pub record State : Type 0 where
  pub queue : JitQueue
  pub chanisfree : Bool
  pub meas_nb_beacon_sent : ℕ
  pub meas_nb_tx_fail : ℕ
  pub meas_nb_tx_ok : ℕ

-- What became of the turn: no packet; a packet dropped while the chain emits, held back by LBT,
-- refused or taken by `lgw_send`; a failed dequeue or peek; the read before the array.
pub data Attempt : Type 0 where
  idle dequeue_failed peek_failed undefined : Attempt
  dropped held failed sent : TxPkt → Attempt

-- The first entry with the time of the packet.
unfoldable pub matching : ℕ → List LbtStat → Option Bool
matching count [] = none
matching count (s ∷ stats) =
    let rest = matching count stats in if count == s.count_us then some s.chan_is_free else rest

unfoldable pub or_busy : Option Bool → Bool
or_busy none = false
or_busy (some free) = free

unfoldable pub channel_free : Lbt → ℕ → Bool → Bool
unfolding matching or_busy
channel_free lbt count before =
    if lbt.lbt_tty_enabled then or_busy (matching count lbt.lbt_stat) else before

unfoldable pub corrected : Concentrator → TxPkt → PktType → TxPkt
corrected concentrator pkt type =
    if is_beacon type then record pkt { freq_hz = concentrator.correct pkt.freq_hz } else pkt

unfoldable pub count_beacon : PktType → State → State
count_beacon type s =
    if is_beacon type then record s { meas_nb_beacon_sent = u32 (s.meas_nb_beacon_sent + 1) } else s

abbrev pub is_emitting : Option ℕ → Bool
is_emitting none = false
is_emitting (some tx_status) = tx_status == tx_emitting

-- The results of sending, with the counters.
unfoldable pub count_sent : SendResult → TxPkt → State → Attempt × State
count_sent hal_error pkt s =
    (failed pkt, record s { meas_nb_tx_fail = u32 (s.meas_nb_tx_fail + 1) })
count_sent lbt_issue pkt s = (held pkt, record s { meas_nb_tx_fail = u32 (s.meas_nb_tx_fail + 1) })
count_sent success pkt s = (sent pkt, record s { meas_nb_tx_ok = u32 (s.meas_nb_tx_ok + 1) })

module _ (platform : Platform) (concentrator : Concentrator) (lbt : Lbt) where
  -- What follows a dequeue.
  unfoldable pub transmit : TxPkt → PktType → State → Attempt × State
  unfolding corrected count_beacon channel_free count_sent
  transmit pkt type s =
      let pkt' = corrected concentrator pkt type in
      let s' = count_beacon type s in
      let free = channel_free lbt pkt'.count_us s'.chanisfree in
      let result = if free then concentrator.lgw_send pkt' else lbt_issue in
      if is_emitting (concentrator.lgw_status pkt')
      then (dropped pkt', s')
      else count_sent result pkt' (record s' { chanisfree = free })

  unfoldable pub dequeued : State → JitError × Option (TxPkt × PktType) × JitQueue → Attempt × State
  unfolding transmit
  dequeued s (ok, some (pkt, type), q) = transmit pkt type (record s { queue = q })
  dequeued s (ok, none, q) = (dequeue_failed, record s { queue = q })
  dequeued s (status, out, q) = (dequeue_failed, record s { queue = q })

  unfoldable pub peeked : State → PeekResult → Attempt × State
  unfolding dequeued
  peeked s (returns ok (some index) q) =
      dequeued (record s { queue = q }) (jit_dequeue platform q (some index))
  peeked s (returns ok none q) = (idle, record s { queue = q })
  peeked s (returns JitError.empty index q) = (idle, record s { queue = q })
  peeked s (returns status index q) = (peek_failed, record s { queue = q })
  peeked s (bad_read q) = (undefined, record s { queue = q })
  peeked s out_of_fuel = (undefined, s)

  unfoldable pub thread_jit : ℕ → State → Attempt × State
  unfolding peeked
  thread_jit cur_hal_time s = peeked s (jit_peek platform s.queue cur_hal_time)
