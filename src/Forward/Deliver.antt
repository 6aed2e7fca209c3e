-- ===== src/Forward/Deliver.antt =====
-- `get_rxpkt` takes entries off one queue per service.
use dragino_fwd_src_lps8_mqt.Base.{
  ℕ, suc, ◌<◌, ◌≡◌, ◌≢◌, refl, ◌∙◌, inl, inr, List, [], ◌∷◌, ◌++◌, length, drop, arith, All,
  length-take,
}
use dragino_fwd_src_lps8_mqt.Base.Flags.{flag-cases}
use dragino_fwd_src_lps8_mqt.Forward.{
  RxPkts, RxPktsList, stamp_of, mark, copy_packets, take_first, get_rxpkt,
}
use dragino_fwd_src_lps8_mqt.Forward.Pending.{
  taken, content, pending, has_stamp-taken, taken-mark, taken-mark_other, pending-taken,
  pending_waiting, pending-cons,
}

module _ {ℓ} {P : Type ℓ} where
  -- The counter of the packets of an entry is their number.
  abbrev pub IsCounted : RxPkts P → Type 0
  IsCounted e = e.nb_pkt ≡ length e.rxpkt

  -- The result of a call for a service whose queue is as given.
  abbrev pub Serves :
      ℕ → List P → List (RxPkts P) → List (List P) → ℕ × List P × List (RxPkts P) → Type ℓ
  Serves i buffer es [] r = r ≡ (0, buffer, es)
  Serves i buffer es (p ∷ ps) (ret, filled, rest) =
      (ret ≡ length p) × (filled ≡ p ++ drop (length p) buffer) × (pending i rest ≡ ps)

  module _ (i : ℕ) (h : i < 7) (buffer : List P) where
    pub first_taken :
        (e : RxPkts P) (es : List (RxPkts P))
        → taken i e ≡ 1
        → take_first (stamp_of i) buffer (e ∷ es)
          ≡ (let (ret, filled, rest) = take_first (stamp_of i) buffer es in (ret, filled, e ∷ rest))
    unfolding take_first
    first_taken e es on = rw (has_stamp-taken i e h, on) refl

    pub first_waiting :
        (e : RxPkts P) (es : List (RxPkts P))
        → taken i e ≡ 0
        → take_first (stamp_of i) buffer (e ∷ es)
          ≡ (e.nb_pkt, copy_packets e buffer, mark (stamp_of i) e ∷ es)
    unfolding take_first
    first_waiting e es off = rw (has_stamp-taken i e h, off) refl

    Serves-cons :
        (e : RxPkts P) (es : List (RxPkts P)) (queue : List (List P))
        (r : ℕ × List P × List (RxPkts P))
        → taken i e ≡ 1
        → Serves i buffer es queue r
        → Serves i buffer (e ∷ es) queue (let (ret, filled, rest) = r in (ret, filled, e ∷ rest))
    Serves-cons e es [] r on s = rw s refl
    Serves-cons e es (p ∷ ps) (ret, filled, rest) on (a, b, c) =
        (a, b, pending-taken i e rest on ∙ c)

    take_first-Serves :
        (es : List (RxPkts P))
        → All IsCounted es
        → Serves i buffer es (pending i es) (take_first (stamp_of i) buffer es)
    unfolding mark take_first pending
    take_first-Serves [] v = refl
    take_first-Serves (e ∷ es) (c, v) = elim (flag-cases (suc i) e.stamps) [
      | inl off ↦
          let size : length (content e) ≡ e.nb_pkt =
            omega (arith, length-take e.nb_pkt e.rxpkt, c) in
          rw (pending_waiting i e es off, first_waiting e es off, size)
            (refl, refl, pending-taken i (mark (stamp_of i) e) es (taken-mark i e h))
      | inr on ↦
          rw (pending-taken i e es on, first_taken e es on)
            (Serves-cons e es (pending i es) _ on (take_first-Serves es v))
    ]

    take_first-other :
        (j : ℕ) (es : List (RxPkts P))
        → j ≢ i
        → pending j (take_first (stamp_of i) buffer es).2 ≡ pending j es
    unfolding take_first mark
    take_first-other j [] d = refl
    take_first-other j (e ∷ es) d = elim (flag-cases (suc i) e.stamps) [
      | inl off ↦
          rw (first_waiting e es off)
            (pending-cons j (mark (stamp_of i) e) e es es (taken-mark_other i j e h d) refl refl)
      | inr on ↦
          rw (first_taken e es on) (pending-cons j e e _ es refl refl (take_first-other j es d))
    ]

  -- Every service i with an index below 7 sees the list of packets as a queue of its own: a call of get_rxpkt on a list whose entries count their packets returns 0 and changes nothing when the queue of the service is empty, and otherwise returns the number of the packets of the oldest entry that the service has not taken, copies exactly them to the start of its buffer, removes that entry from its queue, and leaves the queue of each other service as it was.
  pub get_rxpkt-Serves :
      (i : ℕ) (buffer : List P) (l : RxPktsList P)
      → i < 7
      → All IsCounted l.entries
      → (let (ret, filled, l') = get_rxpkt (stamp_of i) buffer l in
          Serves i buffer l.entries (pending i l.entries) (ret, filled, l'.entries)
          × (l'.size ≡ l.size)
          × ((j : ℕ) → j ≢ i → pending j l'.entries ≡ pending j l.entries))
  unfolding get_rxpkt
  get_rxpkt-Serves i buffer l h v = (
    take_first-Serves i h buffer l.entries v,
    refl,
    (λ j. take_first-other i h buffer j l.entries),
  )
