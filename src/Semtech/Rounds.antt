-- ===== src/Semtech/Rounds.antt =====
-- The polling over any number of rounds.
use dragino_fwd_src_lps8_mqt.Base.{
  ℕ, ◌+◌, ◌%◌, ◌≡◌, refl, sym, ap, ◌⊎◌, inl, inr, Bool, true, false, not, ◌&&◌, ◌||◌, List, [], ◌∷◌,
  Option, ◌==◌, ltb, leb, if◌then◌else◌, arith, u16, Bool-cases,
}
use mathlib.Core.Path.{subst}
use dragino_fwd_src_lps8_mqt.Jit.Platform.{Platform}
use dragino_fwd_src_lps8_mqt.Semtech.Txpk.{Txpk, Readers}
use dragino_fwd_src_lps8_mqt.Semtech.Downlink.{TxLimits, Downstream}
use dragino_fwd_src_lps8_mqt.Semtech.Pull.{
  Link, Round, same_bool, reconnect, show_status, poll, all_go_on, round, rounds, link_init,
}
use dragino_fwd_src_lps8_mqt.Semtech.KeepAlive.{timeless, requested, heard, poll-Polled}

-- At most the last request has no answer; nothing has counted towards the auto-quit, which has not
-- happened.
pub record IsMatched (k : Link) : Type 0 where
  pub counts : (k.pull_ack ≡ k.pull_send) ⊎ (k.pull_send ≡ u16 (k.pull_ack + 1))
  pub no_count : k.autoquit_cnt ≡ 0
  pub running : k.stop_sig ≡ false

-- The same with equal counts.
abbrev IsEven : Link → Type 0
IsEven k = (k.pull_ack ≡ k.pull_send) × (k.autoquit_cnt ≡ 0) × (k.stop_sig ≡ false)

reconnect-IsEven : (a b : Bool) (k : Link) → IsMatched k → IsEven (reconnect a b k)
unfolding reconnect
reconnect-IsEven a b k h =
    elim (Bool-cases (not (k.pull_ack == k.pull_send) || (not k.sock_down || not k.sock_up))) [
      | inl anew ↦ rw anew (refl, h.no_count, h.running)
      | inr stays ↦ rw stays (ground arith, h.no_count, h.running)
    ]

show_status-IsEven : (k : Link) → IsEven k → IsEven (show_status k)
unfolding show_status
show_status-IsEven k h =
    elim (Bool-cases (not (same_bool k.online k.network_status) || (k.pull_send % 15 == 0))) [
      | inl shown ↦ rw shown h
      | inr kept ↦ rw kept h
    ]

heard-IsMatched :
    (answer : Bool) (k : Link) → IsEven k → IsMatched (heard false answer (timeless (requested k)))
heard-IsMatched true k (even, no_count, running) = record {
  counts = inl (ap (λ n. u16 (n + 1)) even);
  no_count = refl;
  running = running;
}
heard-IsMatched false k (even, no_count, running) = record {
  counts = inr (ap (λ n. u16 (n + 1)) (sym even));
  no_count = no_count;
  running = running;
}

timeless-IsMatched : (k : Link) → IsMatched (timeless k) → IsMatched k
timeless-IsMatched k h = record { counts = h.counts; no_count = h.no_count; running = h.running }

sent_or : (b : Bool) {k k' : Link} → IsMatched k → IsMatched k' → IsMatched (if b then k else k')
sent_or true h i = h
sent_or false h i = i

picked :
    (b : Bool) (k : Link) (s : Downstream) (x : Link × Downstream)
    → IsMatched k
    → IsMatched x.0
    → IsMatched (if b then (k, s) else x).0
picked true k s x h i = h
picked false k s x h i = i

picked_rest :
    (b : Bool) (x : Link × Downstream) (k : Link) (s : Downstream)
    → IsMatched x.0
    → IsMatched k
    → IsMatched (if b then x else (k, s)).0
picked_rest true x k s h i = h
picked_rest false x k s h i = i

module _ {M : Type 0} (platform : Platform) (limits : TxLimits) (readers : Readers M)
    (parse : List ℕ → Option (Txpk M)) (threshold : ℕ) where
  poll-IsMatched :
      (r : Round) (k : Link) (s : Downstream)
      → IsEven k
      → IsMatched (poll platform limits readers parse r k s).1
  poll-IsMatched r k s even =
      let (answer, link, all) = poll-Polled platform limits readers parse r k s in
      let k' = (poll platform limits readers parse r k s).1 in
      timeless-IsMatched k' (
        subst IsMatched (sym link)
          (sent_or r.sends (heard-IsMatched answer k even) (heard-IsMatched false k even)))

  round-IsMatched :
      (r : Round) (k : Link) (s : Downstream)
      → IsMatched k
      → IsMatched (round platform limits readers parse threshold r k s).1
  unfolding round
  round-IsMatched r k s h =
      let k' = show_status (reconnect r.opens_down r.opens_up k) in
      let even =
        show_status-IsEven (reconnect r.opens_down r.opens_up k)
          (reconnect-IsEven r.opens_down r.opens_up k h) in
      let quits : (ltb 0 threshold && leb threshold k.autoquit_cnt) ≡ false =
        ground (arith, h.no_count) in
      elim (Bool-cases (not k'.sock_down || not k'.sock_up)) [
        | inl missing ↦
            rw (quits, missing)
              (record { counts = inl even.0; no_count = even.1; running = even.2 })
        | inr there ↦ rw (quits, there) (poll-IsMatched r k' s even)
      ]

  -- From the start of the thread, or any such state, whatever the server, the sockets and GPS do and whatever the threshold for the auto-quit is: after any number of rounds, up to the end of the process or a write outside of an array, at most the last request has no answer and the count towards the auto-quit is 0, so the thread has not quit by itself.
  pub rounds-IsMatched :
      (rs : List Round) (k : Link) (s : Downstream)
      → IsMatched k
      → IsMatched (rounds platform limits readers parse threshold rs k s).0
  unfolding rounds
  rounds-IsMatched [] k s h = h
  rounds-IsMatched (r ∷ rs) k s h =
      let (outcomes, k', s') = round platform limits readers parse threshold r k s in
      let here = round-IsMatched r k s h in
      picked k.stop_sig k s _ h (
        picked_rest (all_go_on outcomes) (rounds platform limits readers parse threshold rs k' s')
          k' s' (rounds-IsMatched rs k' s' here) here)

-- The link at the start of the thread.
pub init-IsMatched : (sock_down sock_up : Bool) → IsMatched (link_init sock_down sock_up)
unfolding link_init
init-IsMatched sock_down sock_up = record { counts = inl refl; no_count = refl; running = refl }
