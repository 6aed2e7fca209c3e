-- ===== src/Jit/Tests.antt =====
-- Runs of the queue on small inputs, and the theorems of its modules at concrete inputs.
use dragino_fwd_src_lps8_mqt.Base.{
  ℕ, zero, suc, ◌+◌, ◌%◌, ◌-◌, ◌^◌, ◌<◌, ◌≤◌, ◌≡◌, refl, ◌≢◌, ◌⊎◌, ◌↔◌, inl, false, List, ◌∷◌, ◌++◌,
  replicate, some, none, arith, All,
}
use mathlib.Core.List.{Permᴰ}
use dragino_fwd_src_lps8_mqt.Jit.Types.{
  downlink_class_a, downlink_class_c, ok, TxPkt, Node, JitQueue, zero_pkt, zero_node, live,
  timestamped,
}
use dragino_fwd_src_lps8_mqt.Jit.Queue.{
  jit_collision_test, jit_sort_queue, remove_node, compare, jit_queue_is_empty, jit_queue_is_full,
  jit_queue_init,
}
use dragino_fwd_src_lps8_mqt.Jit.Enqueue.{
  jit_enqueue, new_node, target_pre_delay, any_collides, collides, packet_post_delay,
  packet_pre_delay, stamp_packet, admit, first_collision, append_node, place_last, is_class_a_or_b,
}
use dragino_fwd_src_lps8_mqt.Jit.Peek.{jit_peek, returns, bad_read, ahead, scan, select, better}
use dragino_fwd_src_lps8_mqt.Jit.Invariant.{IsValid}
use dragino_fwd_src_lps8_mqt.Jit.Admission.{Passes}
use dragino_fwd_src_lps8_mqt.Jit.Outcome.{jit_enqueue_ok_iff, jit_enqueue-IsValid, stamped, post}
use dragino_fwd_src_lps8_mqt.Jit.Rollover.{jit_collision_test_real_time}
use dragino_fwd_src_lps8_mqt.Jit.Slot.{class_c_asap}
use dragino_fwd_src_lps8_mqt.Jit.PeekLoop.{Outdated}
use dragino_fwd_src_lps8_mqt.Jit.Peeked.{jit_peek_ends, jit_peek_bad_read, jit_peek_earliest}
use dragino_fwd_src_lps8_mqt.Jit.Sorter.{board, sort}

abbrev packet_at : ℕ → TxPkt
packet_at count = record zero_pkt { count_us = count }

abbrev node_at : ℕ → Node
node_at count = record {
  pkt = packet_at count;
  pkt_type = downlink_class_a;
  pre_delay = 31500;
  post_delay = 60000;
}

-- Two class A packets, 2 and 4 seconds after zero, in the wrong order.
abbrev two_packets : JitQueue
two_packets = record {
  num_pkt = 2;
  num_beacon = 0;
  nodes = node_at 4000000 ∷ node_at 2000000 ∷ replicate 30 zero_node;
}

abbrev one_packet : JitQueue
one_packet = record {
  num_pkt = 1;
  num_beacon = 0;
  nodes = node_at 2000000 ∷ replicate 31 zero_node;
}

two_packets-IsValid : IsValid two_packets
unfolding jit_collision_test target_pre_delay
two_packets-IsValid = record {
  storage = refl;
  fits = omega arith;
  beacons = refl;
  delays = (omega arith, (omega arith, tt));
  spaced = ((refl, tt), (tt, tt));
}

one_packet-IsValid : IsValid one_packet
one_packet-IsValid = record {
  storage = refl;
  fits = omega arith;
  beacons = refl;
  delays = (omega arith, tt);
  spaced = (tt, tt);
}

jit_enqueue_ok_iff_example :
    ((jit_enqueue board one_packet 1000000 (packet_at 3000000) downlink_class_a).0 ≡ ok) ↔ (
      (one_packet.num_pkt ≢ 32)
      × Passes one_packet 1000000
          (stamped board one_packet 1000000 (packet_at 3000000) downlink_class_a)
          downlink_class_a
          (post board one_packet 1000000 (packet_at 3000000) downlink_class_a))
jit_enqueue_ok_iff_example =
    jit_enqueue_ok_iff board one_packet 1000000 (packet_at 3000000) downlink_class_a

jit_enqueue-IsValid_example :
    IsValid (jit_enqueue board one_packet 1000000 (packet_at 3000000) downlink_class_a).1
unfolding packet_post_delay
jit_enqueue-IsValid_example =
    jit_enqueue-IsValid board one_packet 1000000 (packet_at 3000000) downlink_class_a (omega arith)
      one_packet-IsValid

-- The counter rolls over between the two.
jit_collision_test_real_time_example :
    (jit_collision_test
        ((2 ^ 32 - 1000) % 2 ^ 32)
        31500
        60000
        ((2 ^ 32 + 99000) % 2 ^ 32)
        31500
        60000
      ≡ false)
    ↔ (2 ^ 32 - 1000 + 60000 + 1000 + 31500 < 2 ^ 32 + 99000)
jit_collision_test_real_time_example =
    jit_collision_test_real_time (2 ^ 32 - 1000) 31500 60000 (2 ^ 32 + 99000) 31500 60000
      (omega arith) (omega arith) (omega arith) (omega arith)

class_c_asap_example :
    ((jit_enqueue board one_packet 5000000 (packet_at 0) downlink_class_c).0 ≡ ok)
    × ((jit_enqueue board one_packet 5000000 (packet_at 0) downlink_class_c).2
        ≡ record zero_pkt { tx_mode = timestamped; count_us = 6000000 })
unfolding any_collides collides jit_collision_test packet_post_delay
class_c_asap_example =
    class_c_asap board one_packet 5000000 (packet_at 0) one_packet-IsValid (omega arith)
      (omega arith) (omega arith) refl

jit_peek_ends_example :
    (after : JitQueue) × (dropped : List Node) × IsValid after
    × Permᴰ (dropped ++ live after) (live two_packets)
    × All (Outdated 3000000) dropped
    × ((jit_peek board two_packets 3000000 ≡ bad_read after)
        ⊎ (jit_peek board two_packets 3000000 ≡ returns ok none after)
        ⊎ ((i : ℕ) × (jit_peek board two_packets 3000000 ≡ returns ok (some i) after)
            × (ahead after 3000000 i < 30000)))
jit_peek_ends_example = jit_peek_ends board 3000000 two_packets two_packets-IsValid (omega arith)

jit_peek_bad_read_example :
    jit_peek board one_packet 3000000 ≡ bad_read (remove_node board one_packet 0)
jit_peek_bad_read_example =
    jit_peek_bad_read board 3000000 one_packet one_packet-IsValid (inl refl) (omega arith)

two_packets_fresh : (j : ℕ) → j < 2 → ahead two_packets 1980000 j < 512000000
two_packets_fresh zero h = omega arith
two_packets_fresh (suc zero) h = omega arith
two_packets_fresh (suc (suc j)) h = absurd (omega arith)

jit_peek_earliest_example :
    ((i : ℕ) × (jit_peek board two_packets 1980000 ≡ returns ok (some i) two_packets)
      × (i < 2)
      × (ahead two_packets 1980000 i < 30000)
      × ((j : ℕ) → j < 2 → ahead two_packets 1980000 i ≤ ahead two_packets 1980000 j))
    ⊎ ((jit_peek board two_packets 1980000 ≡ returns ok none two_packets)
        × ((j : ℕ) → j < 2 → 30000 ≤ ahead two_packets 1980000 j))
jit_peek_earliest_example =
    jit_peek_earliest board 1980000 two_packets (omega arith) (omega arith) two_packets_fresh

-- Both packets go in, the earlier one stands first, and is found when it is due.
enqueue_then_peek :
    jit_peek board
      (jit_enqueue board
        (jit_enqueue board jit_queue_init 1000000 (packet_at 4000000) downlink_class_a).1
        1000000
        (packet_at 2000000)
        downlink_class_a).1
      1980000
    ≡ returns ok
        (some 0)
        (jit_enqueue board
          (jit_enqueue board jit_queue_init 1000000 (packet_at 4000000) downlink_class_a).1
          1000000
          (packet_at 2000000)
          downlink_class_a).1
unfolding jit_peek scan select better jit_queue_is_empty jit_enqueue jit_queue_is_full stamp_packet
    admit first_collision target_pre_delay jit_collision_test append_node place_last jit_sort_queue
    compare sort new_node packet_pre_delay packet_post_delay jit_queue_init zero_pkt zero_node
    is_class_a_or_b
enqueue_then_peek = refl
