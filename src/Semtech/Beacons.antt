-- ===== src/Semtech/Beacons.antt =====
-- The beacons that `semtech_pull_down` puts into the queue of chain 0 whenever it listens.
-- What GPS gives, the time of a beacon and the packet that is composed for it, is an input.
use dragino_fwd_src_lps8_mqt.Base.{ℕ, suc, ◌+◌, ◌-◌, List, [], ◌∷◌, ◌==◌, if◌then◌else◌, u8, u32}
use dragino_fwd_src_lps8_mqt.Jit.Types.{TxPkt, JitError, ok, collision_beacon, beacon}
use dragino_fwd_src_lps8_mqt.Jit.Platform.{Platform}
use dragino_fwd_src_lps8_mqt.Jit.Enqueue.{jit_enqueue}
use dragino_fwd_src_lps8_mqt.Semtech.Downlink.{Downstream, put_queue}

-- `JIT_NUM_BEACON_IN_QUEUE`
abbrev pub jit_num_beacon_in_queue : ℕ
jit_num_beacon_in_queue = 3

-- A turn in which GPS is ready: the time of the concentrator and `beacon_pkt`.
pub record BeaconTry : Type 0 where
  pub current_concentrator_time : ℕ
  pub beacon_pkt : TxPkt

unfoldable pub count_queued_beacon : JitError → Downstream → Downstream
count_queued_beacon ok s = record s { meas_nb_beacon_queued = u32 (s.meas_nb_beacon_queued + 1) }
count_queued_beacon collision_beacon s = s
count_queued_beacon error s = record s {
  meas_nb_beacon_rejected = u32 (s.meas_nb_beacon_rejected + 1);
}

abbrev pub left_to_queue : JitError → ℕ → ℕ
left_to_queue ok beacon_loop = beacon_loop - 1
left_to_queue error beacon_loop = beacon_loop

abbrev pub periods_ahead : JitError → ℕ → ℕ
periods_ahead ok retry = 0
periods_ahead error retry = suc retry

module _ (platform : Platform) where
  -- The turns; behind the last one GPS is not ready. The result is `retry` and the state.
  unfoldable pub queue_beacons :
      List BeaconTry → (beacon_loop retry : ℕ) → Downstream → ℕ × Downstream
  unfolding count_queued_beacon
  queue_beacons [] beacon_loop retry s = (retry, s)
  queue_beacons (t ∷ ts) beacon_loop retry s =
      let (jit_result, queue', stamped) =
        jit_enqueue platform (s.jit_queue 0) t.current_concentrator_time t.beacon_pkt beacon in
      let rest =
        queue_beacons ts (left_to_queue jit_result beacon_loop) (periods_ahead jit_result retry)
          (record (count_queued_beacon jit_result s) {
            jit_queue = put_queue s.jit_queue 0 queue';
          }) in
      if beacon_loop == 0 then (retry, s) else rest

  unfoldable pub allocate_beacons : List BeaconTry → Downstream → ℕ × Downstream
  unfolding queue_beacons
  allocate_beacons tries s =
      let beacon_loop = u8 (jit_num_beacon_in_queue + 256 - (s.jit_queue 0).num_beacon) in
      if s.beacon_period == 0 then (0, s) else queue_beacons tries beacon_loop 0 s
