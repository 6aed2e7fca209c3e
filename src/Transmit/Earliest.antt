-- ===== src/Transmit/Earliest.antt =====
-- A turn of the thread sends the earliest packet that is due.
use dragino_fwd_src_lps8_mqt.Base.{
  ℕ, ◌+◌, ◌<◌, ◌≤◌, ◌≡◌, ◌≢◌, ◌⊎◌, inl, inr, refl, sym, ap, ap₂, ◌∙◌, Bool, true, false, ◌∷◌,
  Option, none, some, if◌then◌else◌, u32, get_or, arith, Bool-cases,
}
use mathlib.Core.Path.{subst}
use mathlib.Core.List.{Permᴰ}
use dragino_fwd_src_lps8_mqt.Jit.Types.{TxPkt, PktType, is_beacon, ok, JitQueue, zero_node, live}
use dragino_fwd_src_lps8_mqt.Jit.Platform.{Platform}
use dragino_fwd_src_lps8_mqt.Jit.Queue.{jit_dequeue}
use dragino_fwd_src_lps8_mqt.Jit.Peek.{jit_peek, ahead, returns}
use dragino_fwd_src_lps8_mqt.Jit.Invariant.{IsValid}
use dragino_fwd_src_lps8_mqt.Jit.Peeked.{jit_peek_earliest}
use dragino_fwd_src_lps8_mqt.Jit.Dequeue.{jit_dequeue_in_use}
use dragino_fwd_src_lps8_mqt.Transmit.{
  Concentrator, Lbt, State, Attempt, idle, dropped, held, failed, sent, SendResult, hal_error,
  lbt_issue, success, matching, or_busy, channel_free, corrected, count_beacon, count_sent,
  is_emitting, transmit, dequeued, peeked, thread_jit,
}

-- What becomes of a packet that left the queue, and how it is counted.
abbrev pub Accounted : Lbt → State → TxPkt → Attempt × State → Type 0
Accounted lbt s p (attempt, s') =
    ((attempt ≡ dropped p)
      × (s'.meas_nb_tx_fail ≡ s.meas_nb_tx_fail)
      × (s'.meas_nb_tx_ok ≡ s.meas_nb_tx_ok))
    ⊎ ((((attempt ≡ failed p) ⊎ (attempt ≡ held p))
          × (s'.meas_nb_tx_fail ≡ u32 (s.meas_nb_tx_fail + 1))
          × (s'.meas_nb_tx_ok ≡ s.meas_nb_tx_ok))
        ⊎ ((attempt ≡ sent p)
            × (s'.meas_nb_tx_fail ≡ s.meas_nb_tx_fail)
            × (s'.meas_nb_tx_ok ≡ u32 (s.meas_nb_tx_ok + 1))
            × (lbt.lbt_tty_enabled ≡ true → matching p.count_us lbt.lbt_stat ≡ some true)))

or_busy-some : (o : Option Bool) → or_busy o ≡ true → o ≡ some true
unfolding or_busy
or_busy-some none h = absurd (ground arith)
or_busy-some (some true) h = refl
or_busy-some (some false) h = absurd (ground arith)

channel_free-matching :
    (lbt : Lbt) (count : ℕ) (before : Bool)
    → channel_free lbt count before ≡ true
    → lbt.lbt_tty_enabled ≡ true
    → matching count lbt.lbt_stat ≡ some true
unfolding channel_free
channel_free-matching lbt count before free on =
    or_busy-some (matching count lbt.lbt_stat) (rw on at free)

count_sent-Accounted :
    (lbt : Lbt) (s : State) (p : TxPkt) (s' : State) (free : Bool) (r : SendResult)
    → s'.meas_nb_tx_fail ≡ s.meas_nb_tx_fail
    → s'.meas_nb_tx_ok ≡ s.meas_nb_tx_ok
    → (free ≡ true → lbt.lbt_tty_enabled ≡ true → matching p.count_us lbt.lbt_stat ≡ some true)
    → Accounted lbt s p
        (count_sent (if free then r else lbt_issue) p (record s' { chanisfree = free }))
unfolding count_sent
count_sent-Accounted lbt s p s' true hal_error f o m =
    inr (inl (inl refl, ap (λ n. u32 (n + 1)) f, o))
count_sent-Accounted lbt s p s' true lbt_issue f o m =
    inr (inl (inr refl, ap (λ n. u32 (n + 1)) f, o))
count_sent-Accounted lbt s p s' true success f o m =
    inr (inr (refl, f, ap (λ n. u32 (n + 1)) o, m refl))
count_sent-Accounted lbt s p s' false r f o m = inr (inl (inr refl, ap (λ n. u32 (n + 1)) f, o))

count_beacon-fields :
    (type : PktType) (s : State)
    → ((count_beacon type s).queue ≡ s.queue)
      × ((count_beacon type s).meas_nb_tx_fail ≡ s.meas_nb_tx_fail)
      × ((count_beacon type s).meas_nb_tx_ok ≡ s.meas_nb_tx_ok)
unfolding count_beacon
count_beacon-fields type s =
    elim (is_beacon type)
      as (λ b.
        (let s' =
            if b then record s { meas_nb_beacon_sent = u32 (s.meas_nb_beacon_sent + 1) } else s in
          (s'.queue ≡ s.queue)
          × (s'.meas_nb_tx_fail ≡ s.meas_nb_tx_fail)
          × (s'.meas_nb_tx_ok ≡ s.meas_nb_tx_ok))) [
            | true ↦ (refl, refl, refl)
            | false ↦ (refl, refl, refl)
          ]

count_sent-queue : (r : SendResult) (p : TxPkt) (s : State) → (count_sent r p s).1.queue ≡ s.queue
unfolding count_sent
count_sent-queue hal_error p s = refl
count_sent-queue lbt_issue p s = refl
count_sent-queue success p s = refl

module _ (platform : Platform) (concentrator : Concentrator) (lbt : Lbt) where
  transmit-Accounted :
      (pkt : TxPkt) (type : PktType) (s : State)
      → ((transmit platform concentrator lbt pkt type s).1.queue ≡ s.queue)
        × Accounted lbt s
            (corrected concentrator pkt type)
            (transmit platform concentrator lbt pkt type s)
  unfolding transmit
  transmit-Accounted pkt type s =
      let p = corrected concentrator pkt type in
      let s' = count_beacon type s in
      let (q, f, o) = count_beacon-fields type s in
      let free = channel_free lbt p.count_us s'.chanisfree in
      elim (Bool-cases (is_emitting (concentrator.lgw_status p))) [
        | inl busy ↦ rw busy (q, inl (refl, f, o))
        | inr clear ↦ rw clear (
          count_sent-queue (if free then concentrator.lgw_send p else lbt_issue) p
                (record s' { chanisfree = free })
              ∙ q,
          count_sent-Accounted lbt s p s' free (concentrator.lgw_send p) f o
              (channel_free-matching lbt p.count_us s'.chanisfree),
        )
      ]

  dequeued-transmit :
      (s : State) (pkt : TxPkt) (type : PktType) (q : JitQueue)
      → dequeued platform concentrator lbt s (ok, some (pkt, type), q)
        ≡ transmit platform concentrator lbt pkt type (record s { queue = q })
  unfolding dequeued
  dequeued-transmit s pkt type q = refl

  -- The turn when the queue gives out the packet at an index in use.
  sends :
      (now : ℕ) (s : State) (i : ℕ)
      → IsValid s.queue
      → i < s.queue.num_pkt
      → jit_peek platform s.queue now ≡ returns ok (some i) s.queue
      → let node = get_or s.queue.nodes i zero_node in
        let (attempt, s') = thread_jit platform concentrator lbt now s in
        Permᴰ (node ∷ live s'.queue) (live s.queue)
        × IsValid s'.queue
        × Accounted lbt s (corrected concentrator node.pkt node.pkt_type) (attempt, s')
  unfolding thread_jit peeked
  sends now s i v below peek =
      let node = get_or s.queue.nodes i zero_node in
      let (status, out, rest, valid) = jit_dequeue_in_use platform s.queue i v below in
      let q' = (jit_dequeue platform s.queue (some i)).2 in
      let result : jit_dequeue platform s.queue (some i)
          ≡ (ok, some (node.pkt, node.pkt_type), q') =
        ap₂ (λ a b. (a, b, q')) status out in
      let turn : thread_jit platform concentrator lbt now s
          ≡ transmit platform concentrator lbt node.pkt node.pkt_type (record s { queue = q' }) =
        ap (peeked platform concentrator lbt s) peek
        ∙ ap (dequeued platform concentrator lbt s) result
        ∙ dequeued-transmit s node.pkt node.pkt_type q' in
      let (q, counted) = transmit-Accounted node.pkt node.pkt_type (record s { queue = q' }) in
      subst
        (λ r.
          Permᴰ (node ∷ live r.1.queue) (live s.queue)
          × IsValid r.1.queue
          × Accounted lbt s (corrected concentrator node.pkt node.pkt_type) r)
        (sym turn) (rw q (rest, valid, counted))

  -- On a well-formed queue that is not empty and in which no packet is outdated, a turn of thread_jit takes out a packet that is due within 30 ms and that no other packet precedes, the others stay in the well-formed queue, and the packet (a beacon with its frequency corrected) is dropped uncounted, or counted once, as failed or as sent; with LBT it is sent only when the entry for its time says that the channel is free. If no packet is due within 30 ms, the turn changes nothing.
  pub thread_jit_earliest :
      (now : ℕ) (s : State)
      → IsValid s.queue
      → s.queue.num_pkt ≢ 0
      → ((j : ℕ) → j < s.queue.num_pkt → ahead s.queue now j < 512000000)
      → ((i : ℕ) × (i < s.queue.num_pkt)
          × (ahead s.queue now i < 30000)
          × ((j : ℕ) → j < s.queue.num_pkt → ahead s.queue now i ≤ ahead s.queue now j)
          × (let node = get_or s.queue.nodes i zero_node in
              let (attempt, s') = thread_jit platform concentrator lbt now s in
              Permᴰ (node ∷ live s'.queue) (live s.queue)
              × IsValid s'.queue
              × Accounted lbt s (corrected concentrator node.pkt node.pkt_type) (attempt, s')))
        ⊎ ((thread_jit platform concentrator lbt now s ≡ (idle, s))
            × ((j : ℕ) → j < s.queue.num_pkt → 30000 ≤ ahead s.queue now j))
  unfolding thread_jit peeked
  thread_jit_earliest now s v some_in fresh =
      elim (jit_peek_earliest platform now s.queue some_in v.fits fresh) [
        | inl (i, peek, below, due, first) ↦ inl (i, below, due, first, sends now s i v below peek)
        | inr (peek, later) ↦ inr (ap (peeked platform concentrator lbt s) peek, later)
      ]
