-- ===== src/Forward/Steps.antt =====
-- The bookkeeping of the entries: what the counters hold, and what each operation keeps of it.
use dragino_fwd_src_lps8_mqt.Base.{
  ℕ, zero, suc, ◌+◌, ◌<◌, ◌≤◌, ◌≡◌, ◌≢◌, refl, sym, ap, ◌∙◌, inl, inr, List, [], ◌∷◌, length,
  length-append, arith, All, All-append, leb_cases,
}
use dragino_fwd_src_lps8_mqt.Base.Flags.{flag-cases, flag-le, flag_zero}
use dragino_fwd_src_lps8_mqt.Forward.{
  RxPkts, RxPktsList, stamp_of, mark, take_first, get_rxpkt, insert_tail, new_entry,
}
use dragino_fwd_src_lps8_mqt.Forward.Pending.{taken, taken-mark, taken-mark_other}
use dragino_fwd_src_lps8_mqt.Forward.Deliver.{IsCounted, first_taken, first_waiting}
use dragino_fwd_src_lps8_mqt.Forward.Recycle.{IsSized}

module _ {ℓ} {P : Type ℓ} where
  -- How many of the services 0 … n - 1 took the entry.
  abbrev pub delivered : ℕ → RxPkts P → ℕ
  delivered zero e = 0
  delivered (suc n) e = delivered n e + taken n e

  -- `bind` counts the services that have yet to take the entry.
  abbrev pub IsGood : ℕ → RxPkts P → Type 0
  IsGood n e = IsCounted e × (1 ≤ e.nb_pkt) × (e.bind + delivered n e ≡ n)

  abbrev pub IsValid : ℕ → RxPktsList P → Type 0
  IsValid n l = IsSized l × All (IsGood n) l.entries

  delivered-new : (n now m : ℕ) (pkts : List P) → delivered n (new_entry now m pkts) ≡ 0
  unfolding new_entry
  delivered-new zero now m pkts = refl
  delivered-new (suc n) now m pkts = omega (arith, delivered-new n now m pkts, flag_zero (suc n))

  pub insert_tail-IsValid :
      (n now : ℕ) (pkts : List P) (l : RxPktsList P)
      → 1 ≤ length pkts
      → length pkts ≤ 32
      → IsValid n l
      → IsValid n (insert_tail l (new_entry now n pkts))
  unfolding insert_tail new_entry
  insert_tail-IsValid n now pkts l some few (size, good) = (
    omega (arith, length-append l.entries (new_entry now n pkts ∷ [])),
    All-append (IsGood n) l.entries (new_entry now n pkts ∷ []) good
        ((omega arith, omega arith, omega (arith, delivered-new n now n pkts)), tt),
  )

  delivered-mark_above :
      (i n : ℕ) (e : RxPkts P) → i < 7 → n ≤ i → delivered n (mark (stamp_of i) e) ≡ delivered n e
  delivered-mark_above i zero e h above = refl
  delivered-mark_above i (suc n) e h above =
      let other : n ≢ i = λ m. omega arith in
      omega (arith, delivered-mark_above i n e h (omega arith), taken-mark_other i n e h other)

  delivered-mark :
      (i n : ℕ) (e : RxPkts P)
      → i < 7
      → i < n
      → taken i e ≡ 0
      → delivered n (mark (stamp_of i) e) ≡ suc (delivered n e)
  delivered-mark i zero e h below off = absurd (omega arith)
  delivered-mark i (suc n) e h below off = elim (leb_cases n i) [
    | inl last ↦
        let same : n ≡ i = omega arith in
        let before = delivered-mark_above i n e h last in
        let now : taken n (mark (stamp_of i) e) ≡ 1 =
          ap (λ j. taken j (mark (stamp_of i) e)) same ∙ taken-mark i e h in
        let was : taken n e ≡ 0 = ap (λ j. taken j e) same ∙ off in omega (arith, before, now, was)
    | inr first ↦
        let other : n ≢ i = λ m. omega arith in
        omega (arith, delivered-mark i n e h first off, taken-mark_other i n e h other)
  ]

  delivered-le : (n : ℕ) (e : RxPkts P) → delivered n e ≤ n
  delivered-le zero e = omega arith
  delivered-le (suc n) e = omega (arith, delivered-le n e, flag-le (suc n) e.stamps)

  delivered_room : (i n : ℕ) (e : RxPkts P) → i < n → taken i e ≡ 0 → delivered n e < n
  delivered_room i zero e below off = absurd (omega arith)
  delivered_room i (suc n) e below off = elim (leb_cases n i) [
    | inl last ↦
        let same : n ≡ i = omega arith in
        let was : taken n e ≡ 0 = ap (λ j. taken j e) same ∙ off in
        omega (arith, was, delivered-le n e)
    | inr first ↦ omega (arith, delivered_room i n e first off, flag-le (suc n) e.stamps)
  ]

  mark-IsGood :
      (i n : ℕ) (e : RxPkts P)
      → i < 7
      → i < n
      → n ≤ 7
      → taken i e ≡ 0
      → IsGood n e
      → IsGood n (mark (stamp_of i) e)
  unfolding mark
  mark-IsGood i n e h below most off (counted, some, bound) =
      let room = delivered_room i n e below off in
      let more = delivered-mark i n e h below off in (counted, some, omega arith)

  take_first-IsGood :
      (i n : ℕ) (buffer : List P) (es : List (RxPkts P))
      → i < 7
      → i < n
      → n ≤ 7
      → All (IsGood n) es
      → All (IsGood n) (take_first (stamp_of i) buffer es).2
        × (length (take_first (stamp_of i) buffer es).2 ≡ length es)
  unfolding take_first
  take_first-IsGood i n buffer [] h below most good = (tt, refl)
  take_first-IsGood i n buffer (e ∷ es) h below most (g, good) =
      elim (flag-cases (suc i) e.stamps) [
        | inl off ↦
            rw (first_waiting i h buffer e es off)
              ((mark-IsGood i n e h below most off g, good), refl)
        | inr on ↦
            let (a, b) = take_first-IsGood i n buffer es h below most good in
            rw (first_taken i h buffer e es on) ((g, a), ap suc b)
      ]

  pub get_rxpkt-IsValid :
      (i n : ℕ) (buffer : List P) (l : RxPktsList P)
      → i < n
      → n ≤ 7
      → IsValid n l
      → IsValid n (get_rxpkt (stamp_of i) buffer l).2
  unfolding get_rxpkt
  get_rxpkt-IsValid i n buffer l below most (size, good) =
      let (a, b) = take_first-IsGood i n buffer l.entries (omega arith) below most good in
      (size ∙ sym b, a)

  pub all_delivered : (n : ℕ) (e : RxPkts P) → delivered n e ≡ n → (i : ℕ) → i < n → taken i e ≡ 1
  all_delivered zero e full i below = absurd (omega arith)
  all_delivered (suc n) e full i below = elim (leb_cases n i) [
    | inl last ↦
        let same : i ≡ n = omega arith in
        let was : taken i e ≡ taken n e = ap (λ j. taken j e) same in
        omega (arith, was, delivered-le n e, flag-le (suc n) e.stamps)
    | inr first ↦
        all_delivered n e (omega (arith, delivered-le n e, flag-le (suc n) e.stamps)) i first
  ]
