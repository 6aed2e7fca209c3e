-- ===== src/Forward/Order.antt =====
-- The order in which the services get what arrived.
use dragino_fwd_src_lps8_mqt.Base.{
  ℕ, zero, suc, ◌%◌, ◌^◌, ◌<◌, ◌≤◌, ◌≡◌, ◌≢◌, refl, sym, ap, ◌∙◌, inl, inr, List, [], ◌∷◌, ◌++◌,
  length, take, arith, All, eq_cases, ==_refl, ==_false, length-take, take-append, take-length,
  drop, append_assoc,
}
use mathlib.Core.Path.{subst}
use dragino_fwd_src_lps8_mqt.Base.Flags.{flag-cases, flag_zero}
use dragino_fwd_src_lps8_mqt.Base.Sublists.{
  Sublist, none_left, both, skip, Sublist-trans, Sublist-append, Sublist-behind,
}
use dragino_fwd_src_lps8_mqt.Forward.{
  RxPkts, RxPktsList, stamp_of, get_rxpkt, insert_tail, new_entry,
}
use dragino_fwd_src_lps8_mqt.Forward.Pending.{
  content, pending, pending-taken, pending_waiting, pending-append,
}
use dragino_fwd_src_lps8_mqt.Forward.Deliver.{Serves, IsCounted, get_rxpkt-Serves}
use dragino_fwd_src_lps8_mqt.Forward.Recycle.{
  Thinned, done, keep, drop_spent, thread_rxpkt_recycle-Thinned,
}
use dragino_fwd_src_lps8_mqt.Forward.Steps.{IsGood}
use dragino_fwd_src_lps8_mqt.Forward.Runs.{note, Run, start, arrive, serve, recycle, Run-IsValid}

module _ {ℓ} {P : Type ℓ} where
  pending-Thinned :
      (i : ℕ) {Q : RxPkts P → Type 0} {es ds : List (RxPkts P)}
      → Thinned Q es ds
      → Sublist (pending i ds) (pending i es)
  unfolding pending
  pending-Thinned i done = none_left
  pending-Thinned i (keep e {es} {ds} s) = elim (flag-cases (suc i) e.stamps) [
    | inl off ↦
        rw (pending_waiting i e es off, pending_waiting i e ds off)
          (both (content e) (pending-Thinned i s))
    | inr on ↦ rw (pending-taken i e es on, pending-taken i e ds on) (pending-Thinned i s)
  ]
  pending-Thinned i (drop_spent e {es} q s) = elim (flag-cases (suc i) e.stamps) [
    | inl off ↦ rw (pending_waiting i e es off) (skip (content e) (pending-Thinned i s))
    | inr on ↦ rw (pending-taken i e es on) (pending-Thinned i s)
  ]

  log_same :
      (i ret : ℕ) (filled : List P) (log : ℕ → List (List P))
      → 1 ≤ ret
      → note i ret filled log i ≡ log i ++ (take ret filled ∷ [])
  log_same i zero filled log h = absurd (omega arith)
  log_same i (suc ret) filled log h = rw (==_refl i) refl

  log_other :
      (i j ret : ℕ) (filled : List P) (log : ℕ → List (List P))
      → j ≢ i
      → note i ret filled log j ≡ log j
  log_other i j zero filled log other = refl
  log_other i j (suc ret) filled log other = rw (==_false j i other) refl

  arrived :
      (i n now : ℕ) (pkts : List P) (l : RxPktsList P)
      → length pkts ≤ 32
      → pending i (insert_tail l (new_entry now n pkts)).entries
        ≡ pending i l.entries ++ (pkts ∷ [])
  unfolding insert_tail new_entry pending
  arrived i n now pkts l few =
      let e = new_entry now n pkts in
      let small : length pkts % 2 ^ 8 ≡ length pkts = omega arith in
      let whole : content e ≡ pkts = ap (λ m. take m pkts) small ∙ take-length pkts in
      pending-append i l.entries (e ∷ [])
      ∙ ap (λ q. pending i l.entries ++ q)
          (pending_waiting i e [] (flag_zero (suc i)) ∙ ap (λ c. c ∷ []) whole)

  -- The result of a call with the entries after it, and what the service then has and awaits.
  abbrev pub got : ℕ → List P → RxPktsList P → ℕ × List P × List (RxPkts P)
  got i buffer l =
      let (ret, filled, l') = get_rxpkt (stamp_of i) buffer l in (ret, filled, l'.entries)

  abbrev served : ℕ → List P → RxPktsList P → (ℕ → List (List P)) → ℕ → List (List P)
  served i buffer l log j =
      let (ret, filled, rest) = got i buffer l in note i ret filled log j ++ pending j rest

  IsCounted-All : (n : ℕ) (es : List (RxPkts P)) → All (IsGood n) es → All IsCounted es
  IsCounted-All n [] good = tt
  IsCounted-All n (e ∷ es) (g, good) = (g.0, IsCounted-All n es good)

  -- The batches in the queue of a service are not empty.
  pending_some :
      (i n : ℕ) (es : List (RxPkts P)) → All (IsGood n) es → All (λ p. 1 ≤ length p) (pending i es)
  unfolding pending
  pending_some i n [] good = tt
  pending_some i n (e ∷ es) ((counted, some, bound), good) = elim (flag-cases (suc i) e.stamps) [
    | inl off ↦
        rw (pending_waiting i e es off)
          (omega (arith, length-take e.nb_pkt e.rxpkt, counted, some), pending_some i n es good)
    | inr on ↦ rw (pending-taken i e es on) (pending_some i n es good)
  ]

  -- A call for the service moves the first batch of its queue to its log, or changes neither.
  moved :
      (i : ℕ) (buffer : List P) (es : List (RxPkts P)) (queue : List (List P))
      (log : ℕ → List (List P)) (r : ℕ × List P × List (RxPkts P))
      → pending i es ≡ queue
      → All (λ p. 1 ≤ length p) queue
      → Serves i buffer es queue r
      → note i r.0 r.1 log i ++ pending i r.2 ≡ log i ++ queue
  moved i buffer es [] log r q some s = rw (s, q) refl
  moved i buffer es (p ∷ ps) log (ret, filled, rest) q (some, _) (a, b, c) =
      rw
        (
          a,
          log_same i (length p) filled log some,
          b,
          take-append (length p) p (drop (length p) buffer) refl,
          c,
        )
        (append_assoc (log i) (p ∷ []) ps)

module _ {ℓ} {P : Type ℓ} (n : ℕ) (most : n ≤ 7) where
  -- In each run with at most seven services, what a service with an index below 7 was given and what it still has in its queue are, in this order, among the batches that arrived, in the order of their arrival and none of them twice.
  pub Run-order :
      {batches : List (List P)} {log : ℕ → List (List P)} {l : RxPktsList P}
      → Run n batches log l
      → (i : ℕ) → i < 7
      → Sublist (log i ++ pending i l.entries) batches
  unfolding pending
  Run-order start i h = none_left
  Run-order (arrive {batches} {log} {l} r cfg now received ghost delayed pkts some few step) i h =
      rw (arrived i n now pkts l few, sym (append_assoc (log i) (pending i l.entries) (pkts ∷ [])))
        (Sublist-append pkts (Run-order r i h))
  Run-order (serve {batches} {log} {l} r j buffer below) i h =
      let (size, good) = Run-IsValid n most r in
      let (serves, _, others) =
        get_rxpkt-Serves j buffer l (omega arith) (IsCounted-All n l.entries good) in
      elim (eq_cases i j) [
        | inl same ↦
            subst (λ k. Sublist (served j buffer l log k) batches) (sym same)
              (rw
                (moved j buffer l.entries (pending j l.entries) log (got j buffer l) refl
                  (pending_some j n l.entries good) serves)
                (Run-order r j (omega arith)))
        | inr other ↦
            rw (log_other j i (got j buffer l).0 (got j buffer l).1 log other, others i other)
              (Run-order r i h)
      ]
  Run-order (recycle {batches} {log} {l} r now now') i h = Sublist-trans (Run-order r i h) (
      Sublist-behind (log i)
        (pending-Thinned i (thread_rxpkt_recycle-Thinned now now' l (Run-IsValid n most r).0).0))
