-- ===== src/Forward/Pending.antt =====
-- The entries that a service has yet to take, read off the stamps.
use dragino_fwd_src_lps8_mqt.Base.{
  ℕ, zero, suc, ◌^◌, ◌<◌, ◌≡◌, ◌≢◌, refl, inl, inr, List, [], ◌∷◌, ◌++◌, if◌then◌else◌, ◌==◌,
  ==_false, bit_and, take, arith,
}
use dragino_fwd_src_lps8_mqt.Base.Flags.{
  flag, flag_pow, flag_pow_other, flag-bit_or, flag-le, flag-cases, masked_iff,
}
use dragino_fwd_src_lps8_mqt.Forward.{RxPkts, stamp_of, has_stamp, mark}

stamp_of_lem : (i : ℕ) → i < 7 → stamp_of i ≡ 2 ^ suc i
unfolding stamp_of
stamp_of_lem zero h = refl
stamp_of_lem (suc zero) h = refl
stamp_of_lem (suc (suc zero)) h = refl
stamp_of_lem (suc (suc (suc zero))) h = refl
stamp_of_lem (suc (suc (suc (suc zero)))) h = refl
stamp_of_lem (suc (suc (suc (suc (suc zero))))) h = refl
stamp_of_lem (suc (suc (suc (suc (suc (suc zero)))))) h = refl
stamp_of_lem (suc (suc (suc (suc (suc (suc (suc i))))))) h = absurd (omega arith)

module _ {ℓ} {P : Type ℓ} where
  -- 1 when the service `i` took the entry.
  abbrev pub taken : ℕ → RxPkts P → ℕ
  taken i e = flag (suc i) e.stamps

  abbrev pub content : RxPkts P → List P
  content e = take e.nb_pkt e.rxpkt

  pub has_stamp-taken : (i : ℕ) (e : RxPkts P) → i < 7 → has_stamp (stamp_of i) e ≡ (taken i e == 1)
  unfolding has_stamp
  has_stamp-taken i e h =
      let same = masked_iff (suc i) e.stamps in
      rw (stamp_of_lem i h) (elim (flag-cases (suc i) e.stamps) [
        | inl off ↦ rw off (
            ==_false (2 ^ suc i) (bit_and (2 ^ suc i) e.stamps)
              (λ m. absurd (omega (arith, off, same.0 m))))
        | inr on ↦ rw on (ground (arith, same.1 on))
      ])

  pub taken-mark : (i : ℕ) (e : RxPkts P) → i < 7 → taken i (mark (stamp_of i) e) ≡ 1
  unfolding mark
  taken-mark i e h = rw (stamp_of_lem i h) (
      omega (
        arith,
        flag-bit_or (suc i) e.stamps (2 ^ suc i),
        flag_pow (suc i),
        flag-le (suc i) e.stamps,
      ))

  pub taken-mark_other :
      (i j : ℕ) (e : RxPkts P) → i < 7 → j ≢ i → taken j (mark (stamp_of i) e) ≡ taken j e
  unfolding mark
  taken-mark_other i j e h other = rw (stamp_of_lem i h) (
      omega (
        arith,
        flag-bit_or (suc j) e.stamps (2 ^ suc i),
        flag_pow_other (suc j) (suc i) (λ m. other (omega arith)),
      ))

  -- The packets of the entries that the service `i` has not taken, the oldest first.
  unfoldable pub pending : ℕ → List (RxPkts P) → List (List P)
  pending i [] = []
  pending i (e ∷ es) = let rest = pending i es in if taken i e == 1 then rest else content e ∷ rest

  pub pending-taken :
      (i : ℕ) (e : RxPkts P) (es : List (RxPkts P))
      → taken i e ≡ 1
      → pending i (e ∷ es) ≡ pending i es
  unfolding pending
  pending-taken i e es on = rw on refl

  pub pending_waiting :
      (i : ℕ) (e : RxPkts P) (es : List (RxPkts P))
      → taken i e ≡ 0
      → pending i (e ∷ es) ≡ content e ∷ pending i es
  unfolding pending
  pending_waiting i e es off = rw off refl

  -- Two entries with the same packets and the same stamp of `i` are alike for `i`.
  pub pending-cons :
      (i : ℕ) (d e : RxPkts P) (ds es : List (RxPkts P))
      → taken i d ≡ taken i e
      → content d ≡ content e
      → pending i ds ≡ pending i es
      → pending i (d ∷ ds) ≡ pending i (e ∷ es)
  unfolding pending
  pending-cons i d e ds es t c r = rw (t, c, r) refl

  pub pending-append :
      (i : ℕ) (ds es : List (RxPkts P)) → pending i (ds ++ es) ≡ pending i ds ++ pending i es
  unfolding pending
  pending-append i [] es = refl
  pending-append i (d ∷ ds) es = elim (flag-cases (suc i) d.stamps) [
    | inl off ↦
        rw (pending_waiting i d (ds ++ es) off, pending_waiting i d ds off, pending-append i ds es)
          refl
    | inr on ↦
        rw (pending-taken i d (ds ++ es) on, pending-taken i d ds on, pending-append i ds es) refl
  ]
