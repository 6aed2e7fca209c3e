-- ===== src/Semtech/Counted.antt =====
-- The counters of the uplinks in a datagram.
use dragino_fwd_src_lps8_mqt.Base.{
  ℕ, ◌+◌, ◌≡◌, Bool, List, [], ◌∷◌, Option, none, some, ◌==◌, if◌then◌else◌, length, u32,
}
use dragino_fwd_src_lps8_mqt.Service.{Key}
use dragino_fwd_src_lps8_mqt.Semtech.{LgwPktRx, StatUp, Serv}
use dragino_fwd_src_lps8_mqt.Semtech.Uplink.{stat_crc_ok, stat_crc_bad, stat_no_crc, unwrapped}
use dragino_fwd_src_lps8_mqt.Semtech.Fields.{Format}
use dragino_fwd_src_lps8_mqt.Semtech.Datagram.{Composed}

abbrev pub total_size {ℓ} : {F : Type 0} {T : Type ℓ} → List (LgwPktRx F × T) → ℕ
total_size [] = 0
total_size (q ∷ qs) = q.0.size + total_size qs

abbrev pub is_one : (wanted status : ℕ) → ℕ
is_one wanted status = if status == wanted then 1 else 0

-- How many packets have a status.
abbrev pub with_status : {F : Type 0} → ℕ → List (LgwPktRx F) → ℕ
with_status wanted [] = 0
with_status wanted (p ∷ ps) = is_one wanted p.status + with_status wanted ps

-- Packets received, those of them with each status that has a counter, packets forwarded, and the
-- bytes of those.
pub record Gain : Type 0 where
  pub received : ℕ
  pub ok : ℕ
  pub bad : ℕ
  pub nocrc : ℕ
  pub forwarded : ℕ
  pub bytes : ℕ

-- The gain from the packets received and the packets forwarded.
abbrev pub gain_of : {F T : Type 0} → List (LgwPktRx F) → List (LgwPktRx F × T) → Gain
gain_of ps qs = record {
  received = length ps;
  ok = with_status stat_crc_ok ps;
  bad = with_status stat_crc_bad ps;
  nocrc = with_status stat_no_crc ps;
  forwarded = length qs;
  bytes = total_size qs;
}

abbrev plus : Gain → Gain → Gain
plus g h = record {
  received = g.received + h.received;
  ok = g.ok + h.ok;
  bad = g.bad + h.bad;
  nocrc = g.nocrc + h.nocrc;
  forwarded = g.forwarded + h.forwarded;
  bytes = g.bytes + h.bytes;
}

abbrev one_received : ℕ → Gain
one_received status = record {
  received = 1;
  ok = is_one stat_crc_ok status;
  bad = is_one stat_crc_bad status;
  nocrc = is_one stat_no_crc status;
  forwarded = 0;
  bytes = 0;
}

abbrev one_forwarded : ℕ → Gain
one_forwarded size = record {
  received = 0;
  ok = 0;
  bad = 0;
  nocrc = 0;
  forwarded = 1;
  bytes = size;
}

-- Each counter went up by its part of the gain, in the wrap-around of `uint32_t`.
pub record Grows (before after : StatUp) (g : Gain) : Type 0 where
  pub rx_rcv : u32 after.meas_nb_rx_rcv ≡ u32 (before.meas_nb_rx_rcv + g.received)
  pub rx_ok : u32 after.meas_nb_rx_ok ≡ u32 (before.meas_nb_rx_ok + g.ok)
  pub rx_bad : u32 after.meas_nb_rx_bad ≡ u32 (before.meas_nb_rx_bad + g.bad)
  pub rx_nocrc : u32 after.meas_nb_rx_nocrc ≡ u32 (before.meas_nb_rx_nocrc + g.nocrc)
  pub pkt_fwd : u32 after.meas_up_pkt_fwd ≡ u32 (before.meas_up_pkt_fwd + g.forwarded)
  pub payload_byte : u32 after.meas_up_payload_byte ≡ u32 (before.meas_up_payload_byte + g.bytes)

-- The counters of a result, if there is one.
abbrev stat_or : StatUp → Option Composed → StatUp
stat_or s none = s
stat_or s (some c) = c.stat_up

module _ {F T : Type 0} (format : Format F T) (lgw_db_key_exist : Key → Bool) (serv : Serv)
    (tmp : List ℕ) where
  -- The packets that are counted as received.
  abbrev pub reached_one : Option (LgwPktRx F) → List (LgwPktRx F) → List (LgwPktRx F)
  reached_one none rest = rest
  reached_one (some p) rest = p ∷ rest

  abbrev pub reached : List (LgwPktRx F × T) → List (LgwPktRx F)
  reached [] = []
  reached ((p, now) ∷ ps) = reached_one (unwrapped serv tmp p) (reached ps)

  abbrev Counted : (before after : StatUp) → List (LgwPktRx F) → List (LgwPktRx F × T) → Type 0
  Counted before after ps qs = Grows before after (gain_of ps qs)
