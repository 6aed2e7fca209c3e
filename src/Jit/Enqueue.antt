-- ===== src/Jit/Enqueue.antt =====
-- `jit_enqueue`: the delays of a packet, the ASAP slot of a class C downlink, the three criteria.
-- The packet pointer is valid; the code reads `packet->count_us` before it tests for NULL.
use dragino_fwd_src_lps8_mqt.Base.{
  ℕ, ◌+◌, ◌*◌, Bool, true, false, ◌&&◌, List, [], ◌∷◌, ◌==◌, leb, ltb, if◌then◌else◌, u8, u32,
  sub32, set, Option, none, some,
}
use dragino_fwd_src_lps8_mqt.Jit.Types.{
  PktType, downlink_class_a, downlink_class_b, downlink_class_c, beacon, JitError, ok, too_late,
  too_early, full, collision_packet, collision_beacon, TxPkt, Node, JitQueue, tx_start_delay,
  tx_margin_delay, tx_jit_delay, tx_max_advance_delay, beacon_guard, beacon_reserved, timestamped,
  is_beacon, is_class_c, live,
}
use dragino_fwd_src_lps8_mqt.Jit.Platform.{Platform}
use dragino_fwd_src_lps8_mqt.Jit.Queue.{jit_queue_is_full, jit_collision_test, jit_sort_queue}

-- The pre-delay of an enqueued node as criterion 3 reads it: class A and C ignore the guard of
-- a beacon.
unfoldable pub target_pre_delay : PktType → Node → ℕ
target_pre_delay downlink_class_a n = if is_beacon n.pkt_type then tx_start_delay else n.pre_delay
target_pre_delay downlink_class_c n = if is_beacon n.pkt_type then tx_start_delay else n.pre_delay
target_pre_delay downlink_class_b n = n.pre_delay
target_pre_delay beacon n = n.pre_delay

unfoldable pub packet_pre_delay : PktType → ℕ
packet_pre_delay downlink_class_a = tx_start_delay + tx_jit_delay
packet_pre_delay downlink_class_b = tx_start_delay + tx_jit_delay
packet_pre_delay downlink_class_c = tx_start_delay + tx_jit_delay
packet_pre_delay beacon = tx_start_delay + beacon_guard + tx_jit_delay

-- Does a packet at `count` collide with a node as it stands (the loops of the ASAP search)?
unfoldable pub collides : (count pre post : ℕ) → Node → Bool
collides count pre post n =
    jit_collision_test count pre post n.pkt.count_us n.pre_delay n.post_delay

unfoldable pub any_collides : (count pre post : ℕ) → List Node → Bool
any_collides count pre post [] = false
any_collides count pre post (n ∷ ns) =
    let rest = any_collides count pre post ns in if collides count pre post n then true else rest

-- The first slot behind a node that is free of the next one, or the slot behind the last node.
-- An empty list keeps the time that was tried before.
unfoldable pub best_slot : (asap pre post : ℕ) → List Node → ℕ
best_slot asap pre post [] = asap
best_slot asap pre post (n ∷ []) =
    u32 (n.pkt.count_us + n.post_delay + pre + tx_jit_delay + tx_margin_delay)
best_slot asap pre post (n ∷ m ∷ ns) =
    let slot = u32 (n.pkt.count_us + n.post_delay + pre + tx_jit_delay + tx_margin_delay) in
    let rest = best_slot slot pre post (m ∷ ns) in if collides slot pre post m then rest else slot

-- Criterion 3: the error for the first node that the packet collides with.
unfoldable pub first_collision : PktType → (count pre post : ℕ) → List Node → Option JitError
first_collision t count pre post [] = none
first_collision t count pre post (n ∷ ns) =
    let rest = first_collision t count pre post ns in
    if jit_collision_test count pre post n.pkt.count_us (target_pre_delay t n) n.post_delay
    then some (if is_beacon n.pkt_type then collision_beacon else collision_packet)
    else rest

unfoldable pub is_class_a_or_b : PktType → Bool
is_class_a_or_b downlink_class_a = true
is_class_a_or_b downlink_class_b = true
is_class_a_or_b downlink_class_c = false
is_class_a_or_b beacon = false

unfoldable pub new_node : TxPkt → PktType → ℕ → Node
new_node p t post = record {
  pkt = p;
  pkt_type = t;
  pre_delay = packet_pre_delay t;
  post_delay = post;
}

-- "Finally enqueue it": the node goes behind the last one; `append_node` then sorts the queue.
unfoldable pub place_last : JitQueue → Node → JitQueue
place_last q n = record {
  num_pkt = u8 (q.num_pkt + 1);
  num_beacon = if is_beacon n.pkt_type then u8 (q.num_beacon + 1) else q.num_beacon;
  nodes = set q.nodes q.num_pkt n;
}

module _ (platform : Platform) where
  open platform use {time_on_air, double_to_u32}

  unfoldable pub packet_post_delay : PktType → TxPkt → ℕ
  packet_post_delay downlink_class_a p = u32 (time_on_air p * 1000)
  packet_post_delay downlink_class_b p = u32 (time_on_air p * 1000)
  packet_post_delay downlink_class_c p = u32 (time_on_air p * 1000)
  packet_post_delay beacon p = beacon_reserved

  -- `asap_count_us` of an immediate downlink; the sum with 1E6 is made in double.
  unfoldable pub asap_count : JitQueue → (time_us pre post : ℕ) → ℕ
  asap_count q time_us pre post =
      let asap = double_to_u32 (time_us + 1000000) in
      if q.num_pkt == 0
      then asap
      else if any_collides asap pre post (live q)
      then best_slot asap pre post (live q)
      else asap

  -- The packet as the checks see it: a class C downlink is given its time here.
  unfoldable pub stamp_packet : JitQueue → ℕ → TxPkt → PktType → TxPkt
  stamp_packet q time_us p t =
      if is_class_c t
      then (record p {
        tx_mode = timestamped;
        count_us = asap_count q time_us (packet_pre_delay t) (packet_post_delay t p);
      })
      else p

  unfoldable pub append_node : JitQueue → Node → JitQueue
  append_node q n = jit_sort_queue platform (place_last q n)

  -- The checks on a stamped packet, in their order, and the insertion.
  unfoldable pub admit : JitQueue → ℕ → TxPkt → PktType → ℕ → JitError × JitQueue
  admit q time_us p t post =
      if leb (sub32 p.count_us time_us) (tx_start_delay + tx_margin_delay + tx_jit_delay)
      then (too_late, q)
      else if is_class_a_or_b t && ltb tx_max_advance_delay (sub32 p.count_us time_us)
      then (too_early, q)
      else elim (first_collision t p.count_us (packet_pre_delay t) post (live q)) [
        | some e ↦ (e, q)
        | none ↦ (ok, append_node q (new_node p t post))
      ]

  -- The status, the queue, and the packet, which the caller sees changed.
  unfoldable pub jit_enqueue : JitQueue → ℕ → TxPkt → PktType → JitError × JitQueue × TxPkt
  jit_enqueue q time_us p t =
      if jit_queue_is_full q
      then (full, q, p)
      else let stamped = stamp_packet q time_us p t in
        let r = admit q time_us stamped t (packet_post_delay t p) in (r.0, r.1, stamped)
