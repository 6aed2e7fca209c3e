-- ===== src/Packet/Accepted.antt =====
-- A downlink of the gateway in the queue.
use dragino_fwd_src_lps8_mqt.Base.{
  ℕ, suc, ◌+◌, ◌^◌, ◌≤◌, ◌<◌, ◌≡◌, ◌≢◌, ◌⊎◌, inl, inr, sym, List, ◌∷◌, some, replicate, u32, max,
  arith, lt→ltb, ge→ltb,
}
use mathlib.Core.List.{Permᴰ}
use dragino_fwd_src_lps8_mqt.Crypto.{Ciphers}
use dragino_fwd_src_lps8_mqt.Packet.{DnPkt, DevInfo, prepare_frame}
use dragino_fwd_src_lps8_mqt.Packet.Counters.{stored_after, stored_after_lem, take_fcnt_nth}
use dragino_fwd_src_lps8_mqt.Packet.Downlink.{Rx2, fill_txpkt, compose, custom_rx2dn, window_delay}
use dragino_fwd_src_lps8_mqt.Jit.Types.{TxPkt, JitQueue, JitError, ok, downlink_class_a, live}
use dragino_fwd_src_lps8_mqt.Jit.Platform.{Platform}
use dragino_fwd_src_lps8_mqt.Jit.Enqueue.{new_node, packet_post_delay, stamp_packet}
use dragino_fwd_src_lps8_mqt.Jit.Invariant.{IsValid}
use dragino_fwd_src_lps8_mqt.Jit.Outcome.{jit_enqueue_effect, jit_enqueue-IsValid}
use dragino_fwd_src_lps8_mqt.Util.{lgw_memcpy}

-- The delay after the uplink for a receive window.
abbrev pub OpensAfter : (rxwindow delay : ℕ) → Type 0
OpensAfter rxwindow delay =
    ((rxwindow ≤ 1) × (delay ≡ 1000000)) ⊎ ((2 ≤ rxwindow) × (delay ≡ 2000000))

window_delay_lem : (rxwindow delay : ℕ) → OpensAfter rxwindow delay → window_delay rxwindow ≡ delay
window_delay_lem rxwindow delay (inl (first, e)) = rw (ge→ltb 1 rxwindow first) (sym e)
window_delay_lem rxwindow delay (inr (second, e)) = rw (lt→ltb 1 rxwindow second) (sym e)

module _ (platform : Platform) (ciphers : Ciphers) (payload_block mic_block fresh : List ℕ)
    (rx2 : Rx2) (dn : DnPkt) (dev : DevInfo) (at_us now : ℕ) (queue : JitQueue) where
  -- The packet with the frame for a counter, so long after the uplink that ended at `at_us`.
  abbrev pub framed : (counter delay : ℕ) → TxPkt
  framed counter delay =
      let base = fill_txpkt rx2 dn 1 in
      let (frame, size) =
        prepare_frame ciphers payload_block mic_block dn dev counter fresh (replicate 256 0) in
      record base {
        count_us = u32 (at_us + delay);
        payload = lgw_memcpy base.payload frame size;
        size = size;
      }

  -- What the queue answers, and what it holds then.
  abbrev pub Offered : TxPkt → JitError → JitQueue → Type 0
  Offered p answer queue' =
      ((answer ≡ ok)
        × Permᴰ (live queue') (
            new_node p downlink_class_a (packet_post_delay platform downlink_class_a p)
            ∷ live queue))
      ⊎ ((answer ≢ ok) × (queue' ≡ queue))

  -- For a well-formed queue, a packet that takes less than 2^31 microseconds on air, and k + 1 below 2^32: the downlink that follows k others to a device, for a receive window and not relayed, uses up a counter whether or not it finds a place: the database then holds k + 1. When it is accepted, the queue holds besides what it held the frame of prepare_frame for the counter k (1 for the first downlink), to be sent one second after the uplink, or two for the second window; when it is refused, the queue is as before. The queue stays well formed.
  pub custom_rx2dn_effect :
      (k delay : ℕ)
      → suc k < 2 ^ 32
      → OpensAfter dn.rxwindow delay
      → dn.relay ≡ 0
      → IsValid queue
      → packet_post_delay platform downlink_class_a (framed (max 1 k) delay) < 2 ^ 31
      → (let (answer, queue', stored') =
            custom_rx2dn platform ciphers payload_block mic_block fresh rx2
              (stored_after k)
              dn
              dev
              at_us
              1
              now
              queue in
          (stored' ≡ some (suc k))
          × IsValid queue'
          × Offered (framed (max 1 k) delay) answer queue')
  unfolding custom_rx2dn compose stamp_packet
  custom_rx2dn_effect k delay fits opens direct v short =
      let p = framed (max 1 k) delay in
      rw (direct, window_delay_lem dn.rxwindow delay opens, take_fcnt_nth k (omega arith))
        (
          stored_after_lem k fits,
          jit_enqueue-IsValid platform queue now p downlink_class_a short v,
          jit_enqueue_effect platform queue now p downlink_class_a v.storage v.fits,
        )
