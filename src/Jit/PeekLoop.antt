-- ===== src/Jit/PeekLoop.antt =====
-- The contract of `jit_peek`: it ends, what it drops, and which packet it finds.
use dragino_fwd_src_lps8_mqt.Base.{
  ℕ, zero, suc, ◌+◌, ◌-◌, ◌*◌, ◌≤◌, ◌<◌, ◌≡◌, refl, List, [], ◌∷◌, ◌++◌, arith, get_or, All, some,
  Option, inl, inr, Bool-cases, leb, leb→le, gt→leb, le→leb,
}
use dragino_fwd_src_lps8_mqt.Base.Perms.{perm_refl}
use mathlib.Core.List.{Permᴰ}
use dragino_fwd_src_lps8_mqt.Jit.Types.{Node, JitQueue, live, zero_node}
use dragino_fwd_src_lps8_mqt.Jit.Platform.{Platform}
use dragino_fwd_src_lps8_mqt.Jit.Queue.{remove_node}
use dragino_fwd_src_lps8_mqt.Jit.Peek.{ahead, better, scan}
use dragino_fwd_src_lps8_mqt.Jit.Invariant.{IsValid}
use dragino_fwd_src_lps8_mqt.Jit.Order.{since}
use dragino_fwd_src_lps8_mqt.Jit.Removal.{remove-perm, remove-IsValid, remove_fields}

-- A packet that `jit_peek` takes for one that was missed.
abbrev pub Outdated : ℕ → Node → Type 0
Outdated time_us n = 512000000 ≤ since time_us n

-- What the loop has done when it ends: it kept the queue well formed, and dropped outdated
-- packets only.
pub record Scanned (time_us : ℕ) (q : JitQueue) (r : Option (JitQueue × Option ℕ)) : Type 0 where
  pub after : JitQueue
  pub best : Option ℕ
  pub ends : r ≡ some (after, best)
  pub valid : IsValid after
  pub dropped : List Node
  pub rearranged : Permᴰ (dropped ++ live after) (live q)
  pub outdated : All (Outdated time_us) dropped

module _ (platform : Platform) (time_us : ℕ) where
  -- The loop's three branches.
  pub scan_end :
      (fuel : ℕ) (q : JitQueue) (i : ℕ) (best : Option ℕ)
      → q.num_pkt ≤ i
      → scan platform (suc fuel) q time_us i best ≡ some (q, best)
  unfolding scan
  scan_end fuel q i best h = rw (le→leb q.num_pkt i h)

  pub scan_drop :
      (fuel : ℕ) (q : JitQueue) (i : ℕ) (best : Option ℕ)
      → i < q.num_pkt
      → 512000000 ≤ ahead q time_us i
      → scan platform (suc fuel) q time_us i best
        ≡ scan platform fuel (remove_node platform q i) time_us 1 best
  unfolding scan
  scan_drop fuel q i best h k = rw (gt→leb q.num_pkt i h, le→leb 512000000 (ahead q time_us i) k)

  pub scan_next :
      (fuel : ℕ) (q : JitQueue) (i : ℕ) (best : Option ℕ)
      → i < q.num_pkt
      → ahead q time_us i < 512000000
      → scan platform (suc fuel) q time_us i best
        ≡ scan platform fuel q time_us (i + 1) (better q time_us i best)
  unfolding scan
  scan_next fuel q i best h k = rw (gt→leb q.num_pkt i h, gt→leb 512000000 (ahead q time_us i) k)

  Scanned-drop :
      {q : JitQueue} {i : ℕ} {r : Option (JitQueue × Option ℕ)}
      → i < q.num_pkt
      → IsValid q
      → 512000000 ≤ ahead q time_us i
      → Scanned time_us (remove_node platform q i) r
      → Scanned time_us q r
  Scanned-drop {q} {i} h v late s = record {
    after = s.after;
    best = s.best;
    ends = s.ends;
    valid = s.valid;
    dropped = get_or q.nodes i zero_node ∷ s.dropped;
    rearranged =
        Permᴰ.trans (Permᴰ.cons refl s.rearranged)
          (remove-perm platform q i h v.fits (omega (arith, v.storage, v.fits)));
    outdated = (late, s.outdated);
  }

  pub scan-Scanned :
      (fuel : ℕ) (q : JitQueue) (i : ℕ) (best : Option ℕ)
      → IsValid q
      → q.num_pkt * 33 + (33 - i) < fuel
      → Scanned time_us q (scan platform fuel q time_us i best)
  scan-Scanned zero q i best v h = absurd (omega arith)
  scan-Scanned (suc fuel) q i best v h = elim (Bool-cases (leb q.num_pkt i)) [
    | inl e ↦ record {
      after = q;
      best = best;
      ends = scan_end fuel q i best (leb→le q.num_pkt i e);
      valid = v;
      dropped = [];
      rearranged = perm_refl (live q);
      outdated = tt;
    }
    | inr e ↦
        let below : i < q.num_pkt = ground arith in
        elim (Bool-cases (leb 512000000 (ahead q time_us i))) [
          | inl late ↦
              let old : 512000000 ≤ ahead q time_us i = leb→le _ _ late in
              rw (scan_drop fuel q i best below old) (
                Scanned-drop below v old (
                  scan-Scanned fuel (remove_node platform q i) 1 best
                    (remove-IsValid platform q i below v)
                    (omega (arith, v.fits, remove_fields platform q i (omega arith) v.fits))))
          | inr fresh ↦
              rw (scan_next fuel q i best below (ground arith))
                (scan-Scanned fuel q (i + 1) (better q time_us i best) v (omega (arith, v.fits)))
        ]
  ]
