-- ===== src/Jit/Order.antt =====
-- The order of the queue: ascending in time, also where the counter rolls over.
use dragino_fwd_src_lps8_mqt.Base.{
  ℕ, ◌^◌, ◌≤◌, ◌<◌, ◌≡◌, true, arith, ◌↔◌, sub32, List, [], ◌∷◌, All, ◌==◌, Bool-cases, inl, inr,
  length, take, drop, take-append, length-take, ◌∙◌, sym, ==_iff,
}
use mathlib.Core.Path.{subst}
use dragino_fwd_src_lps8_mqt.Base.Perms.{length-perm}
use dragino_fwd_src_lps8_mqt.Jit.Types.{Node, JitQueue, live}
use dragino_fwd_src_lps8_mqt.Jit.Platform.{Platform, not_after, Ascending}
use dragino_fwd_src_lps8_mqt.Jit.Queue.{compare, jit_sort_queue}

-- Microseconds from `base` to a node.
abbrev pub since : ℕ → Node → ℕ
since base n = sub32 n.pkt.count_us base

-- `compare` orders two nodes of one half period as their times are ordered.
compare_iff :
    (base : ℕ) (a b : Node)
    → since base a < 2 ^ 31
    → since base b < 2 ^ 31
    → (not_after compare a b ≡ true) ↔ (since base a ≤ since base b)
unfolding compare
compare_iff base a b h k = (λ e. ground arith, λ e. ground arith)

All-compare :
    (base : ℕ) (a : Node) (ns : List Node)
    → since base a < 2 ^ 31
    → All (λ n. since base n < 2 ^ 31) ns
    → All (λ b. (not_after compare a b ≡ true) ↔ (since base a ≤ since base b)) ns
All-compare base a [] h k = tt
All-compare base a (n ∷ ns) h k = (compare_iff base a n h k.0, All-compare base a ns h k.1)

compare-OrdersBy :
    (base : ℕ) (ns ms : List Node)
    → All (λ n. since base n < 2 ^ 31) ms
    → All (λ n. since base n < 2 ^ 31) ns
    → All (λ a. All (λ b. (not_after compare a b ≡ true) ↔ (since base a ≤ since base b)) ms) ns
compare-OrdersBy base [] ms k h = tt
compare-OrdersBy base (n ∷ ns) ms k h =
    (All-compare base n ms h.0 k, compare-OrdersBy base ns ms k h.1)

-- `jit_sort_queue` puts the entries in use in the order of their times, if they all lie within
-- half a period after some instant, wherever the counter rolls over.
pub jit_sort_queue-Ascending :
    (platform : Platform) (q : JitQueue) (base : ℕ)
    → q.num_pkt ≤ length q.nodes
    → All (λ n. since base n < 2 ^ 31) (live q)
    → Ascending (since base) (live (jit_sort_queue platform q))
unfolding jit_sort_queue
jit_sort_queue-Ascending platform q base room near = elim (Bool-cases (q.num_pkt == 0)) [
  | inl e ↦
      rw e
        (subst (λ n. Ascending (since base) (take n q.nodes)) (sym ((==_iff q.num_pkt 0).0 e)) tt)
  | inr e ↦
      rw
        (
          e,
          take-append q.num_pkt (platform.qsort_r compare (live q)) (drop q.num_pkt q.nodes) (
              length-perm (platform.qsort_r_perm compare (live q))
              ∙ length-take q.num_pkt q.nodes
              ∙ omega arith),
        )
        (platform.qsort_r_sorted (since base) compare (live q)
          (compare-OrdersBy base (live q) (live q) near near))
]
