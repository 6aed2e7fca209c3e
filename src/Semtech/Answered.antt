-- ===== src/Semtech/Answered.antt =====
-- What becomes of a downlink, and what the server is told.
use dragino_fwd_src_lps8_mqt.Base.{ℕ, ◌≤◌, ◌<◌, ◌≡◌, ◌≢◌, ◌⊎◌, ◌∷◌}
use mathlib.Core.List.{Permᴰ}
use dragino_fwd_src_lps8_mqt.Jit.Types.{TxPkt, PktType, JitError, ok, tx_freq, Node, JitQueue, live}
use dragino_fwd_src_lps8_mqt.Jit.Platform.{Platform}
use dragino_fwd_src_lps8_mqt.Jit.Enqueue.{new_node}
use dragino_fwd_src_lps8_mqt.Jit.Invariant.{IsValid}
use dragino_fwd_src_lps8_mqt.Jit.Outcome.{stamped, post}
use dragino_fwd_src_lps8_mqt.Semtech.Supported.{Powered}
use dragino_fwd_src_lps8_mqt.Semtech.Downlink.{
  TxLimits, Downstream, Outcome, silent, answers, check_power,
}

module _ (platform : Platform) (limits : TxLimits) (now : ℕ) (p : TxPkt) (t : PktType)
    (s : Downstream) where
  open limits use {tx_freq_min, tx_freq_max, txlut}

  -- The packet with the power that is used, and the queue of its chain.
  abbrev pub powered : TxPkt
  powered = (check_power (txlut p.rf_chain) p).2

  abbrev pub own_queue : JitQueue
  own_queue = s.jit_queue p.rf_chain

  -- The node that the queue gets.
  abbrev pub queued_node : Node
  queued_node =
      new_node (stamped platform own_queue now powered t) t (post platform own_queue now powered t)

  -- The packet entered its queue and the server gets the warning on its power, or `ok`; or the
  -- queue refused it, and the server gets the reason.
  abbrev pub Queued : Outcome × Downstream → Type 0
  Queued (out, s') =
      let (warning, value, p') = check_power (txlut p.rf_chain) p in
      Powered (txlut p.rf_chain) p (warning, value, p')
      × IsValid (s'.jit_queue p.rf_chain)
      × ((c : ℕ) → c ≢ p.rf_chain → s'.jit_queue c ≡ s.jit_queue c)
      × (((out ≡ answers warning value)
            × Permᴰ (live (s'.jit_queue p.rf_chain)) (queued_node ∷ live own_queue))
          ⊎ ((e : JitError) × (e ≢ ok)
              × (out ≡ answers e value)
              × (s'.jit_queue p.rf_chain ≡ own_queue)))

module _ (platform : Platform) (limits : TxLimits) (now msg_len : ℕ) (p : TxPkt) (t : PktType)
    (s : Downstream) where
  open limits use {tx_freq_min, tx_freq_max}

  -- What submit leads to, in each case.
  abbrev pub Submitted : Outcome × Downstream → Type 0
  Submitted r =
      ((2 ≤ p.rf_chain) × (r.0 ≡ silent) × (r.1.jit_queue ≡ s.jit_queue))
      ⊎ (((p.rf_chain < 2)
            × ((p.freq_hz < tx_freq_min p.rf_chain) ⊎ (tx_freq_max p.rf_chain < p.freq_hz))
            × (r.0 ≡ answers tx_freq 0)
            × (r.1.jit_queue ≡ s.jit_queue))
          ⊎ ((p.rf_chain < 2)
              × (tx_freq_min p.rf_chain ≤ p.freq_hz)
              × (p.freq_hz ≤ tx_freq_max p.rf_chain)
              × Queued platform limits now p t s r))
