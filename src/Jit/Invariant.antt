-- ===== src/Jit/Invariant.antt =====
-- When a queue is well formed. The packets in use keep apart from one another.
use dragino_fwd_src_lps8_mqt.Base.{
  ◌^◌, ◌≤◌, ◌<◌, ◌≡◌, refl, false, length, List, [], ◌∷◌, All, arith,
}
use dragino_fwd_src_lps8_mqt.Base.Perms.{total, Pairs}
use dragino_fwd_src_lps8_mqt.Jit.Types.{Node, JitQueue, jit_queue_max, live, beacon_weight}
use dragino_fwd_src_lps8_mqt.Jit.Queue.{jit_collision_test, jit_queue_init}
use dragino_fwd_src_lps8_mqt.Jit.Enqueue.{target_pre_delay}

-- The delays are small enough for the sums of the collision test.
pub record DelaysFit (n : Node) : Type 0 where
  pub pre_min : 1500 ≤ n.pre_delay
  pub pre_max : n.pre_delay ≤ 3031500
  pub post_max : n.post_delay < 2 ^ 31

-- Two nodes do not collide, each with the pre-delay that counts for the other.
abbrev pub Clear : Node → Node → Type 0
Clear a b =
    jit_collision_test a.pkt.count_us (target_pre_delay b.pkt_type a) a.post_delay b.pkt.count_us
      (target_pre_delay a.pkt_type b) b.post_delay
    ≡ false

pub record IsValid (q : JitQueue) : Type 0 where
  pub storage : length q.nodes ≡ jit_queue_max
  pub fits : q.num_pkt ≤ jit_queue_max
  pub beacons : q.num_beacon ≡ total beacon_weight (live q)
  pub delays : All DelaysFit (live q)
  pub spaced : Pairs Clear (live q)

pub Clear-symm : (a b : Node) → Clear a b → Clear b a
unfolding jit_collision_test
Clear-symm a b h = ground arith

-- `jit_queue_init` makes a well-formed queue.
pub init-IsValid : IsValid jit_queue_init
unfolding jit_queue_init
init-IsValid = record {
  storage = refl;
  fits = omega arith;
  beacons = refl;
  delays = tt;
  spaced = tt;
}

-- There are no more beacons than entries.
pub total-beacon-le : (ns : List Node) → total beacon_weight ns ≤ length ns
total-beacon-le [] = omega arith
total-beacon-le (n ∷ ns) = ground (arith, total-beacon-le ns)
