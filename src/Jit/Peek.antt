-- ===== src/Jit/Peek.antt =====
-- `jit_peek`.
use dragino_fwd_src_lps8_mqt.Base.{
  ℕ, zero, suc, ◌+◌, leb, ltb, if◌then◌else◌, sub32, get_or, Option, none, some,
}
use dragino_fwd_src_lps8_mqt.Jit.Types.{
  JitError, ok, empty, JitQueue, tx_jit_delay, tx_max_advance_delay, zero_node,
}
use dragino_fwd_src_lps8_mqt.Jit.Platform.{Platform}
use dragino_fwd_src_lps8_mqt.Jit.Queue.{jit_queue_is_empty, remove_node}

-- `none` for the index is -1. `bad_read` is the read of `nodes[-1]`, which C leaves undefined;
-- `out_of_fuel` is no outcome of the code, and `Peeked` shows that it does not occur.
pub data PeekResult : Type 0 where
  returns : JitError → Option ℕ → JitQueue → PeekResult
  bad_read : JitQueue → PeekResult
  out_of_fuel : PeekResult

-- Microseconds from `time_us` to the node, round the counter.
abbrev pub ahead : JitQueue → ℕ → ℕ → ℕ
ahead q time_us i = sub32 (get_or q.nodes i zero_node).pkt.count_us time_us

-- `idx_highest_priority` after looking at node `i`.
unfoldable pub better : JitQueue → ℕ → ℕ → Option ℕ → Option ℕ
better q time_us i none = some i
better q time_us i (some best) =
    if ltb (ahead q time_us i) (ahead q time_us best) then some i else some best

-- What follows the loop.
unfoldable pub select : ℕ → JitQueue × Option ℕ → PeekResult
select time_us (q, none) = bad_read q
select time_us (q, some best) =
    if ltb (ahead q time_us best) tx_jit_delay then returns ok (some best) q else returns ok none q

abbrev pub scan_fuel : ℕ
scan_fuel = 2000

module _ (platform : Platform) where
  -- The `for` loop. After a drop the code sets `i = 0` and continues, so the next index is 1.
  unfoldable pub scan : ℕ → JitQueue → ℕ → ℕ → Option ℕ → Option (JitQueue × Option ℕ)
  scan zero q time_us i best = none
  scan (suc fuel) q time_us i best =
      let dropped = scan fuel (remove_node platform q i) time_us 1 best in
      let next = scan fuel q time_us (i + 1) (better q time_us i best) in
      if leb q.num_pkt i
      then some (q, best)
      else if leb tx_max_advance_delay (ahead q time_us i)
      then dropped
      else next

  -- `pkt_idx` is a valid pointer; on an empty queue it is left as it was, which is `none` here.
  unfoldable pub jit_peek : JitQueue → ℕ → PeekResult
  jit_peek q time_us =
      if jit_queue_is_empty q
      then returns empty none q
      else elim (scan scan_fuel q time_us 0 none) [ none ↦ out_of_fuel | some r ↦ select time_us r ]
