-- ===== src/Jit/Slot.antt =====
-- The time that a class C downlink is given.
use dragino_fwd_src_lps8_mqt.Base.{
  ℕ, ◌+◌, ◌^◌, ◌≤◌, ◌<◌, ◌≡◌, refl, ◌≢◌, false, List, [], ◌∷◌, All, arith, ap,
}
use dragino_fwd_src_lps8_mqt.Jit.Types.{
  PktType, downlink_class_c, ok, TxPkt, Node, JitQueue, live, timestamped,
}
use dragino_fwd_src_lps8_mqt.Jit.Platform.{Platform}
use dragino_fwd_src_lps8_mqt.Jit.Queue.{jit_collision_test}
use dragino_fwd_src_lps8_mqt.Jit.Enqueue.{
  target_pre_delay, packet_pre_delay, packet_post_delay, any_collides, collides, stamp_packet,
  asap_count, is_class_a_or_b, jit_enqueue,
}
use dragino_fwd_src_lps8_mqt.Jit.Invariant.{DelaysFit, IsValid}
use dragino_fwd_src_lps8_mqt.Jit.Admission.{Apart, Passes, target-le}
use dragino_fwd_src_lps8_mqt.Jit.Outcome.{enqueue_accepts}

-- A smaller pre-delay of the second packet keeps the two apart.
collision_mono_second :
    (p1 pre1 post1 p2 pre2 pre' post2 : ℕ)
    → pre' ≤ pre2
    → pre2 ≤ 3031500
    → post1 < 2 ^ 31
    → jit_collision_test p1 pre1 post1 p2 pre2 post2 ≡ false
    → jit_collision_test p1 pre1 post1 p2 pre' post2 ≡ false
unfolding jit_collision_test
collision_mono_second p1 pre1 post1 p2 pre2 pre' post2 h k l e = ground arith

-- An instant that the search finds free passes criterion 3.
free-Apart :
    (t : PktType) (count pre post : ℕ) (ns : List Node)
    → post < 2 ^ 31
    → All DelaysFit ns
    → any_collides count pre post ns ≡ false
    → All (Apart t count pre post) ns
unfolding any_collides collides
free-Apart t count pre post [] h ds e = tt
free-Apart t count pre post (n ∷ ns) h ds e = (
  collision_mono_second count pre post n.pkt.count_us n.pre_delay (target_pre_delay t n)
      n.post_delay (target-le t n ds.0.pre_min) ds.0.pre_max h (ground arith),
  free-Apart t count pre post ns h ds.1 (ground arith),
)

module _ (platform : Platform) (q : JitQueue) (time_us : ℕ) (p : TxPkt) where
  stamped_asap :
      time_us + 1000000 < 2 ^ 32
      → any_collides
          (time_us + 1000000)
          31500
          (packet_post_delay platform downlink_class_c p)
          (live q)
        ≡ false
      → stamp_packet platform q time_us p downlink_class_c
        ≡ record p { tx_mode = timestamped; count_us = time_us + 1000000 }
  unfolding stamp_packet asap_count packet_pre_delay
  stamped_asap small free =
      rw (platform.double_to_u32_exact (time_us + 1000000) small, free)
        (ap (λ (c : ℕ). record p { tx_mode = timestamped; count_us = c }) (ground arith))

  -- A class C downlink is accepted for one second from now, as a timestamped packet, if the queue
  -- is well formed and has room, the packet takes less than 2^31 microseconds on air, the counter does not roll over within that second, and no entry in use collides
  -- with that instant.
  pub class_c_asap :
      IsValid q
      → q.num_pkt ≢ 32
      → time_us + 1000000 < 2 ^ 32
      → packet_post_delay platform downlink_class_c p < 2 ^ 31
      → any_collides
          (time_us + 1000000)
          31500
          (packet_post_delay platform downlink_class_c p)
          (live q)
        ≡ false
      → ((jit_enqueue platform q time_us p downlink_class_c).0 ≡ ok)
        × ((jit_enqueue platform q time_us p downlink_class_c).2
            ≡ record p { tx_mode = timestamped; count_us = time_us + 1000000 })
  unfolding is_class_a_or_b packet_pre_delay
  class_c_asap v room small short free =
      rw
        (enqueue_accepts platform q time_us p downlink_class_c room passes, stamped_asap small free)
        (refl, refl)
    where
      passes :
          Passes q time_us
            (stamp_packet platform q time_us p downlink_class_c)
            downlink_class_c
            (packet_post_delay platform downlink_class_c p)
      passes = rw (stamped_asap small free) (
        omega arith,
        λ ab. cc,
        free-Apart downlink_class_c (time_us + 1000000) 31500
            (packet_post_delay platform downlink_class_c p) (live q) short v.delays free,
      )
