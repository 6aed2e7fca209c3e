-- ===== src/Transmit/Registered.antt =====
-- From `lbt_enqueue` over a pass of the scan to `thread_jit`: which downlinks LBT lets out.
use dragino_fwd_src_lps8_mqt.Base.{
  ℕ, suc, ◌≡◌, ◌≢◌, refl, sym, ◌∙◌, ◌⊎◌, inl, inr, Bool, true, false, List, [], ◌∷◌, Option, none,
  some, ◌==◌, ltb, if◌then◌else◌, sub32, Bool-cases, ==_iff,
}
use dragino_fwd_src_lps8_mqt.Jit.Types.{ok, TxPkt, PktType, is_beacon}
use dragino_fwd_src_lps8_mqt.Jit.Platform.{Platform}
use dragino_fwd_src_lps8_mqt.Transmit.{
  LbtStat, Lbt, Concentrator, State, sent, held, success, lbt_issue, matching, or_busy,
  channel_free, corrected, count_beacon, count_sent, is_emitting, transmit,
}
use dragino_fwd_src_lps8_mqt.Transmit.Scan.{
  lbt_enqueue, in_scan_window, scan_pass, first_answer, matching-scan_pass, IsNew,
}

module _ (chan : ℕ → ℕ → Bool) (packet : TxPkt) (time_us count : ℕ) where
  first_answer-IsNew :
      (i : ℕ) (stats : List LbtStat) → IsNew count stats → first_answer chan count i stats ≡ none
  first_answer-IsNew i [] h = refl
  first_answer-IsNew i (s ∷ stats) h = rw h.0 (first_answer-IsNew (suc i) stats h.1)

  -- Registered under another time, the packet is not found.
  first_answer-other :
      (i : ℕ) (stats : List LbtStat)
      → IsNew count stats
      → (count == packet.count_us) ≡ false
      → first_answer chan count i (lbt_enqueue packet time_us stats).1 ≡ none
  unfolding lbt_enqueue
  first_answer-other i [] h other = refl
  first_answer-other i (s ∷ stats) h other = elim (Bool-cases (ltb s.count_us time_us)) [
    | inl over ↦ rw (over, other) (first_answer-IsNew (suc i) stats h.1)
    | inr ahead ↦ rw (ahead, h.0) (first_answer-other (suc i) stats h.1 other)
  ]

  -- Registered under its own time, it is found with its frequency.
  first_answer-same :
      (i : ℕ) (stats : List LbtStat)
      → IsNew count stats
      → (count == packet.count_us) ≡ true
      → (lbt_enqueue packet time_us stats).0 ≡ ok
      → (j : ℕ) × (first_answer chan count i (lbt_enqueue packet time_us stats).1
          ≡ some (chan j packet.freq_hz))
  unfolding lbt_enqueue
  first_answer-same i [] h same room = absurd (cc room)
  first_answer-same i (s ∷ stats) h same room = elim (Bool-cases (ltb s.count_us time_us)) [
    | inl over ↦ rw (over, same) (i, refl)
    | inr ahead ↦ rw (ahead, h.0) (first_answer-same (suc i) stats h.1 same (rw ahead at room))
  ]

count_sent-sent :
    (free : Bool) (pkt : TxPkt) (s : State)
    → (count_sent (if free then success else lbt_issue) pkt s).0
      ≡ (if free then sent pkt else held pkt)
unfolding count_sent
count_sent-sent true pkt s = refl
count_sent-sent false pkt s = refl

-- With LBT enabled, a downlink that is no beacon, with the channel's answer in the list.
transmit-matching :
    (platform : Platform) (concentrator : Concentrator) (lbt : Lbt) (pkt : TxPkt) (type : PktType)
    (s : State) (o : Option Bool)
    → lbt.lbt_tty_enabled ≡ true
    → is_beacon type ≡ false
    → is_emitting (concentrator.lgw_status pkt) ≡ false
    → concentrator.lgw_send pkt ≡ success
    → matching pkt.count_us lbt.lbt_stat ≡ o
    → (transmit platform concentrator lbt pkt type s).0 ≡ (if or_busy o then sent pkt else held pkt)
unfolding transmit corrected count_beacon channel_free count_sent
transmit-matching platform concentrator lbt pkt type s o on plain clear sends found =
    rw (plain, clear, on, found, sends) (count_sent-sent (or_busy o) pkt _)

-- For a downlink that is no beacon, while the radio can send, and where LBT is enabled, has an entry to spare and none with the time of the downlink, which is not 0: when lbt_enqueue is called with a packet and a pass of the scan follows in more than 40 and less than 120 milliseconds before the downlink, thread_jit sends the downlink or holds it back as the radio answers for the frequency of that packet, if it had the time of the downlink; if it had another time, as an immediate downlink has before jit_enqueue sets its time, the downlink is held back whatever the radio answers.
pub lbt_enqueue-transmit :
    (platform : Platform) (concentrator : Concentrator) (chan : ℕ → ℕ → Bool) (lbt : Lbt)
    (packet pkt : TxPkt) (time_us now : ℕ) (type : PktType) (s : State)
    → lbt.lbt_tty_enabled ≡ true
    → is_beacon type ≡ false
    → is_emitting (concentrator.lgw_status pkt) ≡ false
    → concentrator.lgw_send pkt ≡ success
    → pkt.count_us ≢ 0
    → IsNew pkt.count_us lbt.lbt_stat
    → (lbt_enqueue packet time_us lbt.lbt_stat).0 ≡ ok
    → in_scan_window (sub32 pkt.count_us now) ≡ true
    → (let stats = scan_pass chan now 0 (lbt_enqueue packet time_us lbt.lbt_stat).1 in
        let attempt =
          (transmit platform concentrator (record lbt { lbt_stat = stats }) pkt type s).0 in
        ((packet.count_us ≡ pkt.count_us)
          × (j : ℕ) × (attempt ≡ (if chan j packet.freq_hz then sent pkt else held pkt)))
        ⊎ ((packet.count_us ≢ pkt.count_us) × (attempt ≡ held pkt)))
unfolding or_busy
lbt_enqueue-transmit platform concentrator chan lbt packet pkt time_us now type s on plain clear
      sends timed new room window =
    let stats = (lbt_enqueue packet time_us lbt.lbt_stat).1 in
    let scanned : matching pkt.count_us (scan_pass chan now 0 stats)
        ≡ first_answer chan pkt.count_us 0 stats =
      matching-scan_pass chan now 0 pkt.count_us stats timed ∙ rw window refl in
    let result = λ (o : Option Bool) (found : first_answer chan pkt.count_us 0 stats ≡ o).
      transmit-matching platform concentrator (record lbt { lbt_stat = scan_pass chan now 0 stats })
        pkt type s o on plain clear sends (scanned ∙ found) in
    elim (Bool-cases (pkt.count_us == packet.count_us)) [
      | inl same ↦
          let (j, found) =
            first_answer-same chan packet time_us pkt.count_us 0 lbt.lbt_stat new same room in
          inl (sym ((==_iff _ _).0 same), j, result _ found)
      | inr other ↦ inr (
        λ e. absurd (cc (other, (==_iff _ _).1 (sym e))),
        result none (first_answer-other chan packet time_us pkt.count_us 0 lbt.lbt_stat new other),
      )
    ]
