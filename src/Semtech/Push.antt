-- ===== src/Semtech/Push.antt =====
-- The way of a datagram of uplinks to the server, `thread_push_up`, and the acknowledgement.
use dragino_fwd_src_lps8_mqt.Base.{
  ℕ, zero, suc, ◌+◌, Bool, true, false, not, ◌&&◌, List, [], ◌∷◌, Option, none, some, ◌==◌, ltb,
  leb, if◌then◌else◌, length, get_or, u32,
}
use dragino_fwd_src_lps8_mqt.Service.{Key}
use dragino_fwd_src_lps8_mqt.Semtech.{LgwPktRx, StatUp, Serv, protocol_version, pkt_push_ack}
use dragino_fwd_src_lps8_mqt.Semtech.Fields.{Format}
use dragino_fwd_src_lps8_mqt.Semtech.Datagram.{Composed, tx_buff_size, compose_rxpk, opened, close}

-- A result of `recv`: nothing within the time (EAGAIN), another error, or a datagram.
pub data Recv : Type 0 where
  timeout failure : Recv
  received : List ℕ → Recv

-- Does the datagram acknowledge the one with this token?
unfoldable pub is_push_ack : (token_h token_l : ℕ) → List ℕ → Bool
is_push_ack token_h token_l d =
    not (ltb (length d) 4)
    && ((get_or d 0 0 == protocol_version)
        && ((get_or d 3 0 == pkt_push_ack)
            && ((get_or d 1 0 == token_h) && (get_or d 2 0 == token_l))))

-- The loop over `i`, with the results of its `recv`; what is not there is a time without one.
unfoldable pub await_ack : ℕ → (token_h token_l : ℕ) → List Recv → Bool
unfolding is_push_ack
await_ack zero token_h token_l rs = false
await_ack (suc n) token_h token_l [] = false
await_ack (suc n) token_h token_l (timeout ∷ rs) = await_ack n token_h token_l rs
await_ack (suc n) token_h token_l (failure ∷ rs) = false
await_ack (suc n) token_h token_l (received d ∷ rs) =
    let rest = await_ack n token_h token_l rs in
    if is_push_ack token_h token_l d then true else rest

unfoldable pub count_dgram_sent : ℕ → StatUp → StatUp
count_dgram_sent buff_index s = record s {
  meas_up_dgram_sent = u32 (s.meas_up_dgram_sent + 1);
  meas_up_network_byte = u32 (s.meas_up_network_byte + buff_index);
}

unfoldable pub count_push_ack : Bool → StatUp → StatUp
count_push_ack acked s =
    if acked then (record s { meas_up_ack_rcv = u32 (s.meas_up_ack_rcv + 1) }) else s

-- The datagram that was sent, `report_ready` and the counters after it.
pub record Pushed : Type 0 where
  pub datagram : Option (List ℕ)
  pub report_ready : Bool
  pub stat_up : StatUp

-- What the thread meets at the end: a socket, the success of `send`, and the results of `recv`.
pub record Network : Type 0 where
  pub has_socket : Bool
  pub sends : Bool
  pub recvs : List Recv

-- `d` is the datagram, and `report_ready` after it was composed.
unfoldable pub deliver : Network → (token_h token_l : ℕ) → List ℕ × Bool → StatUp → Pushed
unfolding await_ack count_dgram_sent count_push_ack
deliver net token_h token_l d stat_up =
    let acked = await_ack 2 token_h token_l net.recvs in
    if net.has_socket && net.sends
    then (record {
      datagram = some d.0;
      report_ready = d.1;
      stat_up = count_push_ack acked (count_dgram_sent (length d.0) stat_up);
    })
    else (record { datagram = none; report_ready = d.1; stat_up = stat_up })

abbrev pub closed : Network → (token_h token_l : ℕ) → Option (List ℕ × Bool) → StatUp → Pushed
closed net token_h token_l none stat_up = record {
  datagram = none;
  report_ready = false;
  stat_up = stat_up;
}
closed net token_h token_l (some d) stat_up = deliver net token_h token_l d stat_up

-- Room in `buff_up` for the datagram and its terminator.
abbrev pub has_room : Option (List ℕ × Bool) → Bool
has_room none = true
has_room (some d) = ltb (length d.0) tx_buff_size

abbrev pub finished :
    Network → (token_h token_l : ℕ) → Option (List ℕ) → Option Composed → Option Pushed
finished net token_h token_l report none = none
finished net token_h token_l report (some c) =
    if leb c.highest tx_buff_size && has_room (close report c)
    then some (closed net token_h token_l (close report c) c.stat_up)
    else none

-- `report` is the report of the gateway, if one is ready; `none` is the end of the process,
-- or a write behind the end of `buff_up`.
unfoldable pub thread_push_up :
    {F T : Type 0}
    → Format F T
    → (Key → Bool)
    → Serv
    → (tmp : List ℕ) → Network
    → (token_h token_l mac_h mac_l : ℕ) → (report : Option (List ℕ)) → List (LgwPktRx F × T)
    → StatUp
    → Option Pushed
unfolding deliver
thread_push_up format lgw_db_key_exist serv tmp net token_h token_l mac_h mac_l report ps stat_up =
    finished net token_h token_l report (
      compose_rxpk format lgw_db_key_exist serv tmp ps (opened token_h token_l mac_h mac_l stat_up))
