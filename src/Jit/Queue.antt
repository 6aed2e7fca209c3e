-- ===== src/Jit/Queue.antt =====
-- The small functions of jitqueue.c, sorting, the collision test and `jit_dequeue`.
-- The mutex is taken inside each function, so a call is one step of the queue. Log lines are left out.
use dragino_fwd_src_lps8_mqt.Base.{
  ℕ, ◌+◌, Bool, ◌||◌, ◌++◌, ◌==◌, leb, if◌then◌else◌, u8, sub32, u32, get_or, set, take, drop,
  replicate, Option, none, some,
}
use dragino_fwd_src_lps8_mqt.Jit.Types.{
  PktType, JitError, ok, empty, invalid, TxPkt, Node, JitQueue, jit_queue_max, tx_margin_delay,
  zero_node, is_beacon,
}
use dragino_fwd_src_lps8_mqt.Jit.Platform.{Platform}

unfoldable pub jit_queue_is_full : JitQueue → Bool
jit_queue_is_full q = q.num_pkt == jit_queue_max

unfoldable pub jit_queue_is_empty : JitQueue → Bool
jit_queue_is_empty q = q.num_pkt == 0

unfoldable pub jit_queue_init : JitQueue
jit_queue_init = record { num_pkt = 0; num_beacon = 0; nodes = replicate jit_queue_max zero_node }

-- The result is the bit pattern of an `int`. C leaves a signed overflow of the difference
-- undefined; here it wraps, as the compilers of the gateway's boards make it.
unfoldable pub compare : Node → Node → ℕ
compare p q = sub32 p.pkt.count_us q.pkt.count_us

unfoldable pub jit_collision_test : (p1 pre1 post1 p2 pre2 post2 : ℕ) → Bool
jit_collision_test p1 pre1 post1 p2 pre2 post2 =
    leb (sub32 p1 p2) (u32 (pre1 + post2 + tx_margin_delay))
    || leb (sub32 p2 p1) (u32 (pre2 + post1 + tx_margin_delay))

-- One packet less: the last node takes the place of the one at `index`, and its own place is
-- cleared. `jit_dequeue` and `jit_peek` share these lines.
unfoldable pub swap_out : JitQueue → ℕ → JitQueue
swap_out q index =
    let node = get_or q.nodes index zero_node in
    let num_pkt = u8 (q.num_pkt + 255) in
    let num_beacon = if is_beacon node.pkt_type then u8 (q.num_beacon + 255) else q.num_beacon in
    let moved = set q.nodes index (get_or q.nodes num_pkt zero_node) in
    record { num_pkt = num_pkt; num_beacon = num_beacon; nodes = set moved num_pkt zero_node }

module _ (platform : Platform) where
  open platform use {qsort_r}

  unfoldable pub jit_sort_queue : JitQueue → JitQueue
  jit_sort_queue q =
      if q.num_pkt == 0
      then q
      else (record q { nodes = qsort_r compare (take q.num_pkt q.nodes) ++ drop q.num_pkt q.nodes })

  -- They sort the queue at once.
  unfoldable pub remove_node : JitQueue → ℕ → JitQueue
  remove_node q index = jit_sort_queue (swap_out q index)

  -- `none` is a negative index. What goes out through `packet` and `pkt_type` is the option.
  unfoldable pub jit_dequeue : JitQueue → Option ℕ → JitError × Option (TxPkt × PktType) × JitQueue
  jit_dequeue q none = (invalid, none, q)
  jit_dequeue q (some index) =
      if leb jit_queue_max index
      then (invalid, none, q)
      else if jit_queue_is_empty q
      then (empty, none, q)
      else (
        ok,
        some ((get_or q.nodes index zero_node).pkt, (get_or q.nodes index zero_node).pkt_type),
        remove_node q index,
      )
