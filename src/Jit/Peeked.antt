-- ===== src/Jit/Peeked.antt =====
-- What `jit_peek` returns, and where it reads before the array.
use dragino_fwd_src_lps8_mqt.Base.{
  ℕ, zero, suc, ◌+◌, ◌-◌, ◌≤◌, ◌<◌, ◌≡◌, refl, ◌≢◌, false, List, ◌++◌, arith, get_or, All, some,
  none, Option, ◌⊎◌, inl, inr, Bool-cases, leb, ltb, ltb→lt, leb→le,
}
use mathlib.Core.List.{Permᴰ}
use mathlib.Core.Path.{subst}
use native.Mathlib.Nat.{le_refl, le_trans, le_of_lt}
use native.Mathlib.Decide.{dec_lt}
use dragino_fwd_src_lps8_mqt.Jit.Types.{ok, Node, JitQueue, live, zero_node}
use dragino_fwd_src_lps8_mqt.Jit.Platform.{Platform}
use dragino_fwd_src_lps8_mqt.Jit.Queue.{jit_queue_is_empty, remove_node}
use dragino_fwd_src_lps8_mqt.Jit.Peek.{returns, bad_read, ahead, better, scan, select, jit_peek}
use dragino_fwd_src_lps8_mqt.Jit.Invariant.{IsValid}
use dragino_fwd_src_lps8_mqt.Jit.Removal.{remove_fields}
use dragino_fwd_src_lps8_mqt.Jit.PeekLoop.{Outdated, scan-Scanned, scan_end, scan_drop, scan_next}

ltb_false→le : (a b : ℕ) → ltb a b ≡ false → b ≤ a
ltb_false→le a b h = ground arith

select_outcome :
    (time_us : ℕ) (after : JitQueue) (best : Option ℕ)
    → (select time_us (after, best) ≡ bad_read after)
      ⊎ (select time_us (after, best) ≡ returns ok none after)
      ⊎ ((i : ℕ) × (select time_us (after, best) ≡ returns ok (some i) after)
          × (ahead after time_us i < 30000))
unfolding select
select_outcome time_us after none = inl refl
select_outcome time_us after (some i) = elim (Bool-cases (ltb (ahead after time_us i) 30000)) [
  | inl e ↦ inr (inr (i, rw e, ltb→lt _ _ e))
  | inr e ↦ inr (inl (rw e))
]

module _ (platform : Platform) (time_us : ℕ) (q : JitQueue) where
  peek_runs :
      {r : Option (JitQueue × Option ℕ)} {after : JitQueue × Option ℕ}
      → q.num_pkt ≢ 0
      → scan platform 2000 q time_us 0 none ≡ r
      → r ≡ some after
      → jit_peek platform q time_us ≡ select time_us after
  unfolding jit_peek jit_queue_is_empty
  peek_runs h e f = ground arith

  -- On a well-formed queue `jit_peek` ends. The queue that it leaves is well formed, and the
  -- packets that are gone from it were all outdated. If it reports an index, the packet there is
  -- due within 30 milliseconds.
  pub jit_peek_ends :
      IsValid q
      → q.num_pkt ≢ 0
      → (after : JitQueue) × (dropped : List Node) × IsValid after
        × Permᴰ (dropped ++ live after) (live q)
        × All (Outdated time_us) dropped
        × ((jit_peek platform q time_us ≡ bad_read after)
            ⊎ (jit_peek platform q time_us ≡ returns ok none after)
            ⊎ ((i : ℕ) × (jit_peek platform q time_us ≡ returns ok (some i) after)
                × (ahead after time_us i < 30000)))
  jit_peek_ends v h =
      let s = scan-Scanned platform time_us 2000 q 0 none v (omega (arith, v.fits)) in
      (
        s.after,
        s.dropped,
        s.valid,
        s.rearranged,
        s.outdated,
        rw (peek_runs h refl s.ends) (select_outcome time_us s.after s.best),
      )

  -- A queue of one or two packets whose first is outdated makes `jit_peek` read before the array.
  pub jit_peek_bad_read :
      IsValid q
      → (q.num_pkt ≡ 1) ⊎ (q.num_pkt ≡ 2)
      → Outdated time_us (get_or q.nodes 0 zero_node)
      → jit_peek platform q time_us ≡ bad_read (remove_node platform q 0)
  unfolding select
  jit_peek_bad_read v h late =
      peek_runs (ground arith) (scan_drop platform time_us 1999 q 0 none (ground arith) late) (
        scan_end platform time_us 1998 (remove_node platform q 0) 1 none
          (ground (arith, remove_fields platform q 0, v.fits)))

  -- While no packet in use is outdated: the best of the first `i` entries.
  abbrev Earliest : ℕ → Option ℕ → Type 0
  Earliest i none = i ≡ 0
  Earliest i (some b) = (b < i) × ((j : ℕ) → j < i → ahead q time_us b ≤ ahead q time_us j)

  -- The entry at `c` is the best of one entry more.
  extend :
      (i c b : ℕ)
      → Earliest i (some b)
      → ahead q time_us c ≤ ahead q time_us b
      → ahead q time_us c ≤ ahead q time_us i
      → (j : ℕ) → j < i + 1
      → ahead q time_us c ≤ ahead q time_us j
  extend i c b h below last j k = elim (dec_lt j i) [
    | yes lt ↦ le_trans below (h.1 j lt)
    | no ge ↦ let e : j ≡ i = omega arith in rw e last
  ]

  better-Earliest :
      (i : ℕ) (best : Option ℕ) → Earliest i best → Earliest (i + 1) (better q time_us i best)
  unfolding better
  better-Earliest i none h =
      (omega arith, λ j k. let e : j ≡ i = omega arith in rw e (le_refl (ahead q time_us i)))
  better-Earliest i (some b) h = elim (Bool-cases (ltb (ahead q time_us i) (ahead q time_us b))) [
    | inl e ↦
        rw e (omega arith, extend i i b h (le_of_lt (ltb→lt _ _ e)) (le_refl (ahead q time_us i)))
    | inr e ↦ rw e (
      omega arith,
      extend i b b h (le_refl (ahead q time_us b))
          (ltb_false→le (ahead q time_us i) (ahead q time_us b) e),
    )
  ]

  scan_fresh :
      (fuel i : ℕ) (best : Option ℕ)
      → ((j : ℕ) → j < q.num_pkt → ahead q time_us j < 512000000)
      → i ≤ q.num_pkt
      → q.num_pkt - i < fuel
      → Earliest i best
      → (b : Option ℕ) × (scan platform fuel q time_us i best ≡ some (q, b)) × Earliest q.num_pkt b
  scan_fresh zero i best fresh h k e = absurd (omega arith)
  scan_fresh (suc fuel) i best fresh h k e = elim (Bool-cases (leb q.num_pkt i)) [
    | inl done ↦ (
      best,
      scan_end platform time_us fuel q i best (leb→le _ _ done),
      subst (λ n. Earliest n best) {x = i} (omega (arith, leb→le q.num_pkt i done)) e,
    )
    | inr more ↦
        let below : i < q.num_pkt = ground arith in
        rw (scan_next platform time_us fuel q i best below (fresh i below)) (
          scan_fresh fuel (i + 1) (better q time_us i best) fresh (omega arith) (omega arith)
            (better-Earliest i best e))
  ]

  -- While no packet in use is outdated, `jit_peek` leaves the queue alone. It returns the index of
  -- an entry in use that no other precedes, if that one is due within 30 milliseconds; it returns
  -- no index exactly when no entry is due within 30 milliseconds.
  pub jit_peek_earliest :
      q.num_pkt ≢ 0
      → q.num_pkt ≤ 32
      → ((j : ℕ) → j < q.num_pkt → ahead q time_us j < 512000000)
      → ((i : ℕ) × (jit_peek platform q time_us ≡ returns ok (some i) q)
          × (i < q.num_pkt)
          × (ahead q time_us i < 30000)
          × ((j : ℕ) → j < q.num_pkt → ahead q time_us i ≤ ahead q time_us j))
        ⊎ ((jit_peek platform q time_us ≡ returns ok none q)
            × ((j : ℕ) → j < q.num_pkt → 30000 ≤ ahead q time_us j))
  unfolding select
  jit_peek_earliest h few fresh = found s.0 (peek_runs h refl s.1) s.2
    where
      s :
          (b : Option ℕ) × (scan platform 2000 q time_us 0 none ≡ some (q, b))
          × Earliest q.num_pkt b
      s = scan_fresh 2000 0 none fresh (omega arith) (omega arith) refl

      found :
          (b : Option ℕ)
          → jit_peek platform q time_us ≡ select time_us (q, b)
          → Earliest q.num_pkt b
          → ((i : ℕ) × (jit_peek platform q time_us ≡ returns ok (some i) q)
              × (i < q.num_pkt)
              × (ahead q time_us i < 30000)
              × ((j : ℕ) → j < q.num_pkt → ahead q time_us i ≤ ahead q time_us j))
            ⊎ ((jit_peek platform q time_us ≡ returns ok none q)
                × ((j : ℕ) → j < q.num_pkt → 30000 ≤ ahead q time_us j))
      found none e f = absurd (h f)
      found (some b) e f = elim (Bool-cases (ltb (ahead q time_us b) 30000)) [
        | inl due ↦ inl (b, rw (e, due), f.0, ltb→lt _ _ due, f.1)
        | inr later ↦ inr (
          rw (e, later),
          λ j k. le_trans (ltb_false→le (ahead q time_us b) 30000 later) (f.1 j k),
        )
      ]
