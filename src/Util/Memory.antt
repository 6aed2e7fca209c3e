-- ===== src/Util/Memory.antt =====
-- Copying, copying backwards, filling; the random numbers.
use dragino_fwd_src_lps8_mqt.Base.{
  ℕ, zero, suc, ◌+◌, ◌-◌, ◌≤◌, ◌≡◌, refl, ap, ◌∙◌, List, [], ◌∷◌, ◌++◌, length, set, take, drop,
  replicate, length-set, drop-set, append_assoc, reverse, arith,
}
use native.Mathlib.Nat.{mod-lt}
use dragino_fwd_src_lps8_mqt.Util.{lgw_rand, lgw_randr, lgw_memcpy, lgw_memcpyr, lgw_memset}

pub lgw_memcpy_lem :
    (dst src : List ℕ) (size : ℕ)
    → size ≤ length dst
    → size ≤ length src
    → lgw_memcpy dst src size ≡ take size src ++ drop size dst
unfolding lgw_memcpy
lgw_memcpy_lem dst src zero h k = refl
lgw_memcpy_lem [] src (suc size) h k = absurd (omega arith)
lgw_memcpy_lem (d ∷ dst) [] (suc size) h k = absurd (omega arith)
lgw_memcpy_lem (d ∷ dst) (s ∷ src) (suc size) h k =
    ap (◌∷◌ s) (lgw_memcpy_lem dst src size (omega arith) (omega arith))

-- lgw_memcpyr writes the first bytes of the source in reverse order and leaves the bytes after them, if both places are long enough.
pub lgw_memcpyr_reverses :
    (dst src : List ℕ) (size : ℕ)
    → size ≤ length dst
    → size ≤ length src
    → lgw_memcpyr dst src size ≡ reverse (take size src) ++ drop size dst
unfolding lgw_memcpyr
lgw_memcpyr_reverses dst src zero h k = refl
lgw_memcpyr_reverses dst [] (suc size) h k = absurd (omega arith)
lgw_memcpyr_reverses dst (s ∷ src) (suc size) h k =
    lgw_memcpyr_reverses (set dst size s) src size (omega (arith, length-set dst size s))
      (omega arith)
    ∙ rw
        (
          drop-set dst size s (omega arith),
          append_assoc (reverse (take size src)) (s ∷ []) (drop (suc size) dst),
        )
        refl

pub lgw_memset_lem :
    (dst : List ℕ) (value size : ℕ)
    → size ≤ length dst
    → lgw_memset dst value size ≡ replicate size value ++ drop size dst
unfolding lgw_memset
lgw_memset_lem dst value zero h = refl
lgw_memset_lem [] value (suc size) h = absurd (omega arith)
lgw_memset_lem (d ∷ dst) value (suc size) h =
    ap (◌∷◌ value) (lgw_memset_lem dst value size (omega arith))

-- lgw_randr answers a number between its limits, both included, whatever the state is, for limits that are not negative.
pub lgw_randr-within :
    (next low high : ℕ)
    → low ≤ high
    → (low ≤ (lgw_randr next low high).1) × ((lgw_randr next low high).1 ≤ high)
unfolding lgw_randr
lgw_randr-within next low high h =
    (omega arith, omega (arith, mod-lt ((lgw_rand next).1) {m = high + 1 - low} (omega arith)))
