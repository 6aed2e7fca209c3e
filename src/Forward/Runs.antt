-- ===== src/Forward/Runs.antt =====
-- Runs of the threads on the shared list: arrivals, calls of the services, and recycling turns in
-- any order.
use dragino_fwd_src_lps8_mqt.Base.{
  ℕ, zero, suc, ◌<◌, ◌≤◌, ◌≡◌, refl, ◌⊎◌, inl, inr, true, List, [], ◌∷◌, ◌++◌, if◌then◌else◌,
  length, take, arith, sub32, ◌==◌,
}
use dragino_fwd_src_lps8_mqt.Forward.{
  RxPkts, RxPktsList, Streams, Received, stored, thread_up, stamp_of, get_rxpkt, insert_tail,
  new_entry, thread_rxpkt_recycle,
}
use dragino_fwd_src_lps8_mqt.Forward.Pending.{taken}
use dragino_fwd_src_lps8_mqt.Forward.Recycle.{
  Thinned, Thinned-All, Thinned-within, Spent, thread_rxpkt_recycle-Thinned,
}
use dragino_fwd_src_lps8_mqt.Forward.Steps.{
  IsGood, IsValid, all_delivered, insert_tail-IsValid, get_rxpkt-IsValid,
}

module _ {ℓ} {P : Type ℓ} where
  -- What a recycling turn may remove.
  abbrev pub Removable : (n now now' : ℕ) → RxPkts P → Type 0
  Removable n now now' e =
      ((i : ℕ) → i < n → taken i e ≡ 1)
      ⊎ ((16000000 < sub32 now e.entry_us) ⊎ (12000000 < sub32 now' e.entry_us))

  removable :
      (n now now' : ℕ) (e : RxPkts P)
      → IsGood n e
      → Spent 16000000 now e ⊎ Spent 12000000 now' e
      → Removable n now now' e
  removable n now now' e (counted, some, bound) (inl (inl unbound)) =
      inl (all_delivered n e (omega arith))
  removable n now now' e (counted, some, bound) (inl (inr old)) = inr (inl old)
  removable n now now' e (counted, some, bound) (inr (inl unbound)) =
      inl (all_delivered n e (omega arith))
  removable n now now' e (counted, some, bound) (inr (inr old)) = inr (inr old)

  -- The log of the batches that each service got, after a call of the service `i`.
  abbrev pub note : ℕ → ℕ → List P → (ℕ → List (List P)) → ℕ → List (List P)
  note i zero filled log j = log j
  note i (suc ret) filled log j = if j == i then log j ++ (take (suc ret) filled ∷ []) else log j

-- A run with `n` services: the batches that arrived, what each service got, and the list.
pub data Run {ℓ} {P : Type ℓ} (n : ℕ)
    : List (List P) → (ℕ → List (List P)) → RxPktsList P → Type ℓ where
  start : Run n [] (λ i. []) (record { entries = []; size = 0 })
  arrive :
      {batches : List (List P)} {log : ℕ → List (List P)} {l : RxPktsList P}
      → Run n batches log l
      → (cfg : Streams) (now : ℕ) (received : Received P) (ghost : List P) (delayed : ℕ → List P)
      → (pkts : List P) → 1 ≤ length pkts
      → length pkts ≤ 32
      → thread_up cfg true now n received ghost delayed l
        ≡ stored (insert_tail l (new_entry now n pkts))
      → Run n (batches ++ (pkts ∷ [])) log (insert_tail l (new_entry now n pkts))
  serve :
      {batches : List (List P)} {log : ℕ → List (List P)} {l : RxPktsList P}
      → Run n batches log l
      → (i : ℕ) (buffer : List P) → i < n
      → Run n batches
          (note i (get_rxpkt (stamp_of i) buffer l).0 (get_rxpkt (stamp_of i) buffer l).1 log)
          (get_rxpkt (stamp_of i) buffer l).2
  recycle :
      {batches : List (List P)} {log : ℕ → List (List P)} {l : RxPktsList P}
      → Run n batches log l
      → (now now' : ℕ) → Run n batches log (thread_rxpkt_recycle now now' l)

module _ {ℓ} {P : Type ℓ} (n : ℕ) (most : n ≤ 7) where
  -- In each run with at most seven services the counter of the list is right, and each entry has at least one packet, counts its packets, and keeps in bind the number of the services that have yet to take it.
  pub Run-IsValid :
      {batches : List (List P)} {log : ℕ → List (List P)} {l : RxPktsList P}
      → Run n batches log l
      → IsValid n l
  Run-IsValid start = (refl, tt)
  Run-IsValid (arrive r cfg now received ghost delayed pkts some few step) =
      insert_tail-IsValid n now pkts _ some few (Run-IsValid r)
  Run-IsValid (serve r i buffer below) = get_rxpkt-IsValid i n buffer _ below most (Run-IsValid r)
  Run-IsValid (recycle r now now') =
      let (size, good) = Run-IsValid r in
      let (thin, size') = thread_rxpkt_recycle-Thinned now now' _ size in
      (size', Thinned-All (IsGood n) thin good)

  -- A recycling turn after any run with at most seven services removes an entry only when all services took it, when it is older than 16 s at the first pass, or when it is older than 12 s at the second; the others keep their order.
  pub Run-recycle :
      {batches : List (List P)} {log : ℕ → List (List P)} {l : RxPktsList P}
      → Run n batches log l
      → (now now' : ℕ)
      → Thinned (Removable n now now') l.entries (thread_rxpkt_recycle now now' l).entries
  Run-recycle {l = l} r now now' =
      let (size, good) = Run-IsValid r in
      let (thin, size') = thread_rxpkt_recycle-Thinned now now' l size in
      Thinned-within (Removable n now now') (removable n now now') thin good
