-- ===== src/Semtech/Fetch.antt =====
-- The thread that hands the packets of the shared list on, `semtech_push_up`: what it does each
-- time the semaphore wakes it.
-- Nobody else is taken to change the list in between.
use dragino_fwd_src_lps8_mqt.Base.{
  ℕ, zero, suc, ◌<◌, ◌≤◌, ◌≡◌, ◌≢◌, refl, ◌∙◌, ap, inl, inr, Bool, true, false, not, ◌&&◌, List, [],
  ◌∷◌, ◌++◌, Option, none, some, ◌==◌, ==_false, ltb, lt→ltb, if◌then◌else◌, length, drop, arith,
  All,
}
use mathlib.Core.Path.{subst}
use dragino_fwd_src_lps8_mqt.Base.Flags.{flag-cases}
use dragino_fwd_src_lps8_mqt.Forward.{RxPkts, RxPktsList, stamp_of, mark, take_first, get_rxpkt}
use dragino_fwd_src_lps8_mqt.Forward.Pending.{pending}
use dragino_fwd_src_lps8_mqt.Forward.Deliver.{
  IsCounted, Serves, first_taken, first_waiting, get_rxpkt-Serves,
}

-- What a turn of the loop meets, by the number of the turns that may follow it: the flags
-- `report_ready` and `stop_sig`, the success of `lgw_pthread_create`, and what `lgw_malloc` left
-- in the array of packets of the new structure.
pub record Turns {ℓ} (P : Type ℓ) : Type ℓ where
  pub report_ready : ℕ → Bool
  pub stop_sig : ℕ → Bool
  pub creates : ℕ → Bool
  pub memory : ℕ → List P

-- The threads that are started, with the number of their packets and the array, and the list.
abbrev pub Fetched {ℓ} : Type ℓ → Type ℓ
Fetched P = Option (List (ℕ × List P) × RxPktsList P)

module _ {ℓ} {P : Type ℓ} where
  -- A thread is started with the number of its packets and their array, or the structure is freed.
  unfoldable pub start_push : Bool → ℕ × List P → Fetched P → Fetched P
  start_push created job none = none
  start_push created job (some (jobs, l)) = some (if created then job ∷ jobs else jobs, l)

  -- The inner loop, on fuel: the threads that are started, and the list behind it.
  unfoldable pub semtech_push_up : ℕ → (stamp : ℕ) → Turns P → RxPktsList P → Fetched P
  unfolding start_push
  semtech_push_up zero stamp turns l = none
  semtech_push_up (suc n) stamp turns l =
      let (nb_pkt, rxpkt, l') = get_rxpkt stamp (turns.memory n) l in
      let rest = semtech_push_up n stamp turns l' in
      let goes_on = ltb 1 l'.size && not (turns.stop_sig n) in
      if (nb_pkt == 0) && not (turns.report_ready n)
      then some ([], l')
      else start_push (turns.creates n) (nb_pkt, rxpkt)
          (if not (nb_pkt == 0) && goes_on then rest else some ([], l'))

  -- The threads for the queue of a service, when every one of them can be started: one for each
  -- entry, with its packets at the start of the array, and a last one if a report is to be sent.
  unfoldable pub jobs_of : Turns P → List (List P) → List (ℕ × List P)
  jobs_of turns [] = if turns.report_ready 0 then (0, turns.memory 0) ∷ [] else []
  jobs_of turns (p ∷ ps) =
      (length p, p ++ drop (length p) (turns.memory (suc (length ps)))) ∷ jobs_of turns ps

  abbrev pub IsFilled : List P → Type 0
  IsFilled p = 1 ≤ length p

  abbrev answer : (i : ℕ) → List P → RxPktsList P → ℕ × List P × List (RxPkts P)
  answer i buffer l =
      let (ret, filled, l') = get_rxpkt (stamp_of i) buffer l in (ret, filled, l'.entries)

  take_first-IsCounted :
      (i : ℕ) (h : i < 7) (buffer : List P) (es : List (RxPkts P))
      → All IsCounted es
      → All IsCounted (take_first (stamp_of i) buffer es).2
  unfolding take_first mark
  take_first-IsCounted i h buffer [] v = v
  take_first-IsCounted i h buffer (e ∷ es) (c, v) = elim (flag-cases (suc i) e.stamps) [
    | inl off ↦ rw (first_waiting i h buffer e es off) (c, v)
    | inr on ↦ rw (first_taken i h buffer e es on) (c, take_first-IsCounted i h buffer es v)
  ]

  get_rxpkt-IsCounted :
      (i : ℕ) (h : i < 7) (buffer : List P) (l : RxPktsList P)
      → All IsCounted l.entries
      → All IsCounted (get_rxpkt (stamp_of i) buffer l).2.entries
  unfolding get_rxpkt
  get_rxpkt-IsCounted i h buffer l v = take_first-IsCounted i h buffer l.entries v

  -- What is left of the list: the queue of the service is empty, the others are as they were.
  pub record Drained (i : ℕ) (l l' : RxPktsList P) : Type ℓ where
    pub emptied : pending i l'.entries ≡ []
    pub same_size : l'.size ≡ l.size
    pub others : (j : ℕ) → j ≢ i → pending j l'.entries ≡ pending j l.entries

  -- A turn that took packets and is not the last one.
  turn_taken :
      (n stamp : ℕ) (turns : Turns P) (l : RxPktsList P) {k : ℕ}
      → (get_rxpkt stamp (turns.memory n) l).0 ≡ k
      → turns.creates n ≡ true
      → turns.stop_sig n ≡ false
      → 1 ≤ k
      → 1 < (get_rxpkt stamp (turns.memory n) l).2.size
      → semtech_push_up (suc n) stamp turns l
        ≡ start_push true
            (k, (get_rxpkt stamp (turns.memory n) l).1)
            (semtech_push_up n stamp turns (get_rxpkt stamp (turns.memory n) l).2)
  unfolding semtech_push_up
  turn_taken n stamp turns l {k} count created runs f s =
      rw
        (
          count,
          created,
          runs,
          ==_false k 0 (λ m. absurd (omega (arith, m, f))),
          lt→ltb 1 (get_rxpkt stamp (turns.memory n) l).2.size s,
        )
        refl

  last_turn :
      (ready : Bool) (jobs : List (ℕ × List P)) (l : RxPktsList P)
      → if◌then◌else◌ {A = Fetched P} (not ready) (some ([], l)) (some (jobs, l))
        ≡ some (if ready then jobs else [], l)
  last_turn true jobs l = refl
  last_turn false jobs l = refl

  -- A call for a queue.
  abbrev pub Drains : ℕ → Turns P → RxPktsList P → List (List P) → Type ℓ
  Drains i turns l queue =
      (l' : RxPktsList P) × (semtech_push_up (suc (length queue)) (stamp_of i) turns l
        ≡ some (jobs_of turns queue, l'))
      × Drained i l l'

  module _ (i : ℕ) (h : i < 7) (turns : Turns P) (creates : (n : ℕ) → turns.creates n ≡ true)
      (runs : (n : ℕ) → turns.stop_sig n ≡ false) where
    drains :
        (queue : List (List P)) (l : RxPktsList P)
        → pending i l.entries ≡ queue
        → All IsCounted l.entries
        → All IsFilled queue
        → 1 < l.size
        → Drains i turns l queue
    unfolding semtech_push_up start_push jobs_of
    drains [] l e v f s =
        let (served, size, others) = get_rxpkt-Serves i (turns.memory 0) l h v in
        let got =
          subst (λ q. Serves i (turns.memory 0) l.entries q (answer i (turns.memory 0) l)) e
            served in
        let none_left : (get_rxpkt (stamp_of i) (turns.memory 0) l).0 ≡ 0 = ap (λ r. r.0) got in
        let same : (get_rxpkt (stamp_of i) (turns.memory 0) l).1 ≡ turns.memory 0 =
          ap (λ r. r.1) got in
        (
          (get_rxpkt (stamp_of i) (turns.memory 0) l).2,
          rw (none_left, same, creates 0) (last_turn (turns.report_ready 0) _ _),
          record { emptied = ap (λ r. pending i r.2) got ∙ e; same_size = size; others = others },
        )
    drains (p ∷ ps) l e v f s =
        let buffer = turns.memory (suc (length ps)) in
        let (served, size, others) = get_rxpkt-Serves i buffer l h v in
        let (count, filled, rest) =
          subst (λ q. Serves i buffer l.entries q (answer i buffer l)) e served in
        let l1 = (get_rxpkt (stamp_of i) buffer l).2 in
        let (l2, result, drained) =
          drains ps l1 rest (get_rxpkt-IsCounted i h buffer l v) f.1 (omega (arith, size, s)) in
        (
          l2,
          turn_taken (suc (length ps)) (stamp_of i) turns l count (creates _) (runs _) f.0
                (omega (arith, size, s))
              ∙ rw (filled, result) refl,
          record {
            emptied = drained.emptied;
            same_size = drained.same_size ∙ size;
            others = (λ j d. drained.others j d ∙ others j d);
          },
        )

  -- When a service with an index below 7 is woken and the list has more than one entry, all entries count their packets and none of those that the service has not taken is empty, threads can be created, the service is not stopped and nobody else changes the list, then the loop of semtech_push_up ends within one turn more than there are such entries: it has started one thread for each of them, the oldest first, with exactly its packets at the start of its array, and one more without packets just when a report is ready at the end; the queue of the service is empty, and the size of the list and the queues of the other services are as before.
  pub semtech_push_up-Drains :
      (i : ℕ) (turns : Turns P) (l : RxPktsList P)
      → i < 7
      → ((n : ℕ) → turns.creates n ≡ true)
      → ((n : ℕ) → turns.stop_sig n ≡ false)
      → All IsCounted l.entries
      → All IsFilled (pending i l.entries)
      → 1 < l.size
      → Drains i turns l (pending i l.entries)
  semtech_push_up-Drains i turns l h creates runs v f s =
      drains i h turns creates runs (pending i l.entries) l refl v f s
