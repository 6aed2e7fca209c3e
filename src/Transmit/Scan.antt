-- ===== src/Transmit/Scan.antt =====
-- The list of the channels that LBT watches: `lbt_enqueue` of src/fwd/src/semtech_serv.c puts the
-- time and the frequency of a downlink into it, a pass of `thread_lbt_scan` of src/fwd/src/fwd.c
-- asks for the channels, and `thread_jit` looks a packet up by its time.
use dragino_fwd_src_lps8_mqt.Base.{
  ℕ, suc, ◌≡◌, refl, ◌≢◌, Bool, false, ◌&&◌, List, [], ◌∷◌, Option, none, some, ◌==◌, ltb,
  if◌then◌else◌, arith, sub32, All, Bool-cases, inl, inr,
}
use dragino_fwd_src_lps8_mqt.Jit.Types.{JitError, ok, full, TxPkt}
use dragino_fwd_src_lps8_mqt.Transmit.{LbtStat, matching}

-- The packet is not null where the function is called.
unfoldable pub lbt_enqueue : TxPkt → ℕ → List LbtStat → JitError × List LbtStat
lbt_enqueue packet time_us [] = (full, [])
lbt_enqueue packet time_us (s ∷ stats) =
    let rest = lbt_enqueue packet time_us stats in
    if ltb s.count_us time_us
    then (
      ok,
      record { freq_hz = packet.freq_hz; count_us = packet.count_us; chan_is_free = false } ∷ stats,
    )
    else (rest.0, s ∷ rest.1)

-- In the time before the packet in which its channel is asked for, and so far from it, before or
-- behind, that the entry is given up.
unfoldable pub in_scan_window : ℕ → Bool
in_scan_window diff_time = ltb 40000 diff_time && ltb diff_time 120000

unfoldable pub out_of_reach : ℕ → Bool
out_of_reach diff_time = ltb 10000000 diff_time

-- `chan` is the answer of `lbt_getchan_stat` for an entry by its index.
unfoldable pub scan_one : (chan : ℕ → ℕ → Bool) → (now i : ℕ) → LbtStat → LbtStat
unfolding in_scan_window out_of_reach
scan_one chan now i s =
    let diff_time = sub32 s.count_us now in
    let asked = if in_scan_window diff_time then chan i s.freq_hz else s.chan_is_free in
    record s { chan_is_free = asked; count_us = if out_of_reach diff_time then 0 else s.count_us }

unfoldable pub scan_pass : (chan : ℕ → ℕ → Bool) → (now i : ℕ) → List LbtStat → List LbtStat
unfolding scan_one
scan_pass chan now i [] = []
scan_pass chan now i (s ∷ stats) = scan_one chan now i s ∷ scan_pass chan now (suc i) stats

-- The answer for the first entry with the time `count`.
abbrev pub first_answer : (chan : ℕ → ℕ → Bool) → (count i : ℕ) → List LbtStat → Option Bool
first_answer chan count i [] = none
first_answer chan count i (s ∷ stats) =
    let rest = first_answer chan count (suc i) stats in
    if count == s.count_us then some (chan i s.freq_hz) else rest

-- A pass of the scan gives thread_jit, for the time of a packet other than 0, the answer of the radio for the first entry with that time when the packet is due in more than 40 and less than 120 milliseconds; the entry is given up when the time is more than 10 seconds away or over; else nothing changes for it.
pub matching-scan_pass :
    (chan : ℕ → ℕ → Bool) (now i count : ℕ) (stats : List LbtStat)
    → count ≢ 0
    → matching count (scan_pass chan now i stats) ≡ (
        if in_scan_window (sub32 count now)
        then first_answer chan count i stats
        else if out_of_reach (sub32 count now)
        then none
        else matching count stats)
unfolding scan_pass matching in_scan_window out_of_reach
matching-scan_pass chan now i count [] h = ground arith
matching-scan_pass chan now i count (s ∷ stats) h =
    let rest = matching-scan_pass chan now (suc i) count stats h in
    elim (Bool-cases (count == s.count_us)) [
      | inl same ↦ let e : s.count_us ≡ count = ground (arith, same) in rw e (ground (arith, rest))
      | inr other ↦ elim (Bool-cases (out_of_reach (sub32 s.count_us now))) [
        | inl far ↦ rw (other, far) (ground (arith, rest))
        | inr near ↦ rw (other, near, other) (ground (arith, rest))
      ]
    ]

-- An entry of a new packet: not found to be free yet, or none where the list was full.
abbrev pub registered : JitError → Option Bool
registered ok = some false
registered error = none

-- The time `count` is in no entry.
abbrev pub IsNew : ℕ → List LbtStat → Type 0
IsNew count stats = All (λ s. (count == s.count_us) ≡ false) stats

matching-IsNew :
    (count : ℕ) (stats : List LbtStat) → IsNew count stats → matching count stats ≡ none
unfolding matching
matching-IsNew count [] h = refl
matching-IsNew count (s ∷ stats) h = rw h.0 (matching-IsNew count stats h.1)

-- A time that is in no entry of LBT is found behind lbt_enqueue exactly when it is the time of the packet and the list had an entry whose time is over: the channel then counts as busy until it is asked for.
pub matching-lbt_enqueue :
    (packet : TxPkt) (time_us count : ℕ) (stats : List LbtStat)
    → IsNew count stats
    → matching count (lbt_enqueue packet time_us stats).1
      ≡ (if count == packet.count_us then registered (lbt_enqueue packet time_us stats).0 else none)
unfolding lbt_enqueue matching
matching-lbt_enqueue packet time_us count [] h = ground arith
matching-lbt_enqueue packet time_us count (s ∷ stats) h =
    let rest = matching-lbt_enqueue packet time_us count stats h.1 in
    elim (Bool-cases (ltb s.count_us time_us)) [
      | inl over ↦ rw (over, matching-IsNew count stats h.1) refl
      | inr ahead ↦ rw (ahead, h.0) rest
    ]
