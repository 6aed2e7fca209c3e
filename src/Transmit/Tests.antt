-- ===== src/Transmit/Tests.antt =====
-- The theorems on the transmit thread at a queue with one packet, and on LBT at one downlink.
use dragino_fwd_src_lps8_mqt.Base.{
  ℕ, zero, suc, ◌<◌, ◌≤◌, ◌≡◌, ◌≢◌, ◌⊎◌, refl, true, false, if◌then◌else◌, [], ◌∷◌, some, replicate,
  get_or, arith,
}
use mathlib.Core.List.{Permᴰ}
use dragino_fwd_src_lps8_mqt.Jit.Types.{
  Node, TxPkt, downlink_class_a, downlink_class_c, zero_pkt, zero_node, live,
}
use dragino_fwd_src_lps8_mqt.Jit.Invariant.{IsValid}
use dragino_fwd_src_lps8_mqt.Jit.Peek.{ahead}
use dragino_fwd_src_lps8_mqt.Jit.Sorter.{board}
use dragino_fwd_src_lps8_mqt.Transmit.{
  Concentrator, Lbt, State, success, idle, sent, held, corrected, transmit, thread_jit,
}
use dragino_fwd_src_lps8_mqt.Transmit.Scan.{lbt_enqueue, in_scan_window, scan_pass}
use dragino_fwd_src_lps8_mqt.Transmit.Registered.{lbt_enqueue-transmit}
use dragino_fwd_src_lps8_mqt.Transmit.Earliest.{Accounted, thread_jit_earliest}

abbrev due : Node
due = record {
  pkt = record zero_pkt { count_us = 2000000 };
  pkt_type = downlink_class_a;
  pre_delay = 31500;
  post_delay = 60000;
}

abbrev chain : State
chain = record {
  queue = record { num_pkt = 1; num_beacon = 0; nodes = due ∷ replicate 31 zero_node };
  chanisfree = true;
  meas_nb_beacon_sent = 0;
  meas_nb_tx_fail = 0;
  meas_nb_tx_ok = 7;
}

chain-IsValid : IsValid chain.queue
chain-IsValid = record {
  storage = refl;
  fits = omega arith;
  beacons = refl;
  delays = (omega arith, tt);
  spaced = (tt, tt);
}

abbrev free_radio : Concentrator
free_radio = record { lgw_status = λ p. some 2; lgw_send = λ p. success; correct = λ f. f }

-- The channel was found free for the time of the packet.
abbrev listening : Lbt
listening = record {
  lbt_tty_enabled = true;
  lbt_stat = record { freq_hz = 868100000; count_us = 2000000; chan_is_free = true } ∷ [];
}

chain_fresh : (j : ℕ) → j < 1 → ahead chain.queue 1980000 j < 512000000
chain_fresh zero h = omega arith
chain_fresh (suc j) h = absurd (omega arith)

thread_jit_earliest_example :
    ((i : ℕ) × (i < 1)
      × (ahead chain.queue 1980000 i < 30000)
      × ((j : ℕ) → j < 1 → ahead chain.queue 1980000 i ≤ ahead chain.queue 1980000 j)
      × (let node = get_or chain.queue.nodes i zero_node in
          let (attempt, s') = thread_jit board free_radio listening 1980000 chain in
          Permᴰ (node ∷ live s'.queue) (live chain.queue)
          × IsValid s'.queue
          × Accounted listening chain (corrected free_radio node.pkt node.pkt_type) (attempt, s')))
    ⊎ ((thread_jit board free_radio listening 1980000 chain ≡ (idle, chain))
        × ((j : ℕ) → j < 1 → 30000 ≤ ahead chain.queue 1980000 j))
thread_jit_earliest_example =
    thread_jit_earliest board free_radio listening 1980000 chain chain-IsValid
      (λ e. omega (arith, e)) chain_fresh

-- The list has an entry whose time is over.
abbrev watching : Lbt
watching = record {
  lbt_tty_enabled = true;
  lbt_stat = record { freq_hz = 0; count_us = 0; chan_is_free = false } ∷ [];
}

abbrev timed : TxPkt
timed = record zero_pkt { count_us = 6000000 }

-- The time of `timed` is set behind `lbt_enqueue`.
lbt_enqueue-transmit_example :
    let stats =
      scan_pass (λ i f. true) 5900000 0 (lbt_enqueue zero_pkt 5000000 watching.lbt_stat).1 in
    let attempt =
      (transmit board free_radio
        (record watching { lbt_stat = stats })
        timed
        downlink_class_c
        chain).0 in
    ((zero_pkt.count_us ≡ timed.count_us)
      × (j : ℕ) × (attempt ≡ (if true then sent timed else held timed)))
    ⊎ ((zero_pkt.count_us ≢ timed.count_us) × (attempt ≡ held timed))
unfolding lbt_enqueue in_scan_window
lbt_enqueue-transmit_example =
    lbt_enqueue-transmit board free_radio (λ i f. true) watching zero_pkt timed 5000000 5900000
      downlink_class_c chain refl refl refl refl (λ e. omega (arith, e)) (refl, tt) refl refl
