-- ===== src/Semtech/Pull.antt =====
-- The polling of the server, `semtech_pull_down`: its requests, the answers, and the connection.
use dragino_fwd_src_lps8_mqt.Base.{
  ℕ, ◌+◌, ◌*◌, ◌%◌, Bool, true, false, not, ◌&&◌, ◌||◌, List, [], ◌∷◌, Option, none, some, ◌==◌,
  ltb, leb, if◌then◌else◌, length, get_or, drop, u16, u32,
}
use dragino_fwd_src_lps8_mqt.Jit.Platform.{Platform}
use dragino_fwd_src_lps8_mqt.Semtech.{protocol_version, pkt_pull_resp, pkt_pull_ack}
use dragino_fwd_src_lps8_mqt.Semtech.TxAck.{StatDown}
use dragino_fwd_src_lps8_mqt.Semtech.Txpk.{Txpk, Readers}
use dragino_fwd_src_lps8_mqt.Semtech.Beacons.{BeaconTry, allocate_beacons}
use dragino_fwd_src_lps8_mqt.Semtech.Downlink.{
  TxLimits, Downstream, Outcome, silent, process_ends, bad_write, pull_resp,
}

-- The variables of the thread that outlive a round, and what it shows of itself: `online` is
-- `serv->state.connecting`. `sock_down` and `sock_up` tell whether there is a socket.
pub record Link : Type 0 where
  pub pull_send : ℕ
  pub pull_ack : ℕ
  pub autoquit_cnt : ℕ
  pub retry : ℕ
  pub online : Bool
  pub network_status : Bool
  pub sock_down : Bool
  pub sock_up : Bool
  pub stop_sig : Bool

-- `buff_down`
abbrev pub buff_down_size : ℕ
buff_down_size = 1000

-- What listening changes.
pub record Listening : Type 0 where
  pub link : Link
  pub req_ack : Bool
  pub downstream : Downstream

abbrev pub byte : List ℕ → ℕ → ℕ
byte datagram i = get_or datagram i 0

-- A datagram that is not ignored.
unfoldable pub respects_protocol : List ℕ → Bool
respects_protocol d =
    leb 4 (length d)
    && (byte d 0 == protocol_version)
    && ((byte d 3 == pkt_pull_resp) || (byte d 3 == pkt_pull_ack))

unfoldable pub count_pull_ack : StatDown → StatDown
count_pull_ack s = record s { meas_dw_ack_rcv = u32 (s.meas_dw_ack_rcv + 1) }

-- The first answer to the request of this round.
unfoldable pub acknowledge : Listening → Listening
unfolding count_pull_ack
acknowledge l = if l.req_ack then l else record l {
  req_ack = true;
  link = record l.link { pull_ack = u16 (l.link.pull_ack + 1); autoquit_cnt = 0; online = true };
  downstream = record l.downstream { stat_down = count_pull_ack l.downstream.stat_down };
}

-- Does the thread go on behind an outcome?
abbrev pub goes_on : Outcome → Bool
goes_on process_ends = false
goes_on bad_write = false
goes_on outcome = true

abbrev pub all_go_on : List Outcome → Bool
all_go_on [] = true
all_go_on (o ∷ os) = goes_on o && all_go_on os

abbrev pub same_bool : Bool → Bool → Bool
same_bool true b = b
same_bool false b = not b

-- A turn of listening: the beacons that GPS gives a packet for, the time of the concentrator, and
-- the datagram, at most `buff_down_size` bytes, if `recv` gave one.
pub record Event : Type 0 where
  pub beacons : List BeaconTry
  pub now : ℕ
  pub datagram : Option (List ℕ)

-- What a round meets: the sockets that `init_sock` opens if it is called, the random token, the
-- success of `send`, and the turns of listening.
pub record Round : Type 0 where
  pub opens_down : Bool
  pub opens_up : Bool
  pub token_h : ℕ
  pub token_l : ℕ
  pub sends : Bool
  pub events : List Event

-- Before the loop; `semtech_start` has opened the sockets.
unfoldable pub link_init : (sock_down sock_up : Bool) → Link
link_init sock_down sock_up = record {
  pull_send = 0;
  pull_ack = 0;
  autoquit_cnt = 0;
  retry = 1;
  online = false;
  network_status = false;
  sock_down = sock_down;
  sock_up = sock_up;
  stop_sig = false;
}

module _ {M : Type 0} (platform : Platform) (limits : TxLimits) (readers : Readers M)
    (parse : List ℕ → Option (Txpk M)) where
  -- A PULL_RESP: the terminator is written behind the datagram, then its text is parsed.
  unfoldable pub respond : (now : ℕ) → List ℕ → Listening → Outcome × Listening
  respond now d l =
      let (outcome, s) =
        pull_resp platform limits readers now (length d) (parse (drop 4 d)) l.downstream in
      if leb buff_down_size (length d)
      then (bad_write, l)
      else (outcome, record l { downstream = s })

  unfoldable pub on_datagram : (token_h token_l now : ℕ) → List ℕ → Listening → Outcome × Listening
  unfolding respects_protocol acknowledge respond
  on_datagram token_h token_l now d l =
      if not (respects_protocol d)
      then (silent, l)
      else if byte d 3 == pkt_pull_ack
      then (silent, if (byte d 1 == token_h) && (byte d 2 == token_l) then acknowledge l else l)
      else respond now d l

  abbrev pub on_recv : (token_h token_l now : ℕ) → Option (List ℕ) → Listening → Outcome × Listening
  on_recv token_h token_l now none l = (silent, l)
  on_recv token_h token_l now (some d) l = on_datagram token_h token_l now d l

  unfoldable pub on_event : (token_h token_l : ℕ) → Event → Listening → Outcome × Listening
  unfolding on_datagram allocate_beacons
  on_event token_h token_l e l =
      let (retry, s) = allocate_beacons platform e.beacons l.downstream in
      on_recv token_h token_l e.now e.datagram
        (record l { link = record l.link { retry = retry }; downstream = s })

  -- The turns in their order, up to one behind which there is nothing to say: the process has
  -- ended, or it has written outside of an array.
  unfoldable pub listen : (token_h token_l : ℕ) → List Event → Listening → List Outcome × Listening
  unfolding on_event
  listen token_h token_l [] l = ([], l)
  listen token_h token_l (e ∷ es) l =
      let (outcome, l') = on_event token_h token_l e l in
      let (outcomes, l'') = listen token_h token_l es l' in
      if goes_on outcome then (outcome ∷ outcomes, l'') else (outcome ∷ [], l')

-- Nothing is heard from the server, or a socket is missing: the connection is made anew.
unfoldable pub reconnect : (opens_down opens_up : Bool) → Link → Link
reconnect opens_down opens_up k =
    if not (k.pull_ack == k.pull_send) || (not k.sock_down || not k.sock_up)
    then (record k {
      pull_send = 0;
      pull_ack = 0;
      online = false;
      network_status = false;
      sock_down = opens_down;
      sock_up = opens_up;
    })
    else k

-- The status goes to the database when it changed, and every 15 requests.
unfoldable pub show_status : Link → Link
show_status k =
    if not (same_bool k.online k.network_status) || (k.pull_send % 15 == 0)
    then (record k { network_status = k.online })
    else k

-- The seconds that are slept where a socket is missing.
unfoldable pub pause : ℕ → ℕ
pause retry = if ltb 32 retry || ltb retry 1 then 1 else retry

unfoldable pub count_pull : StatDown → StatDown
count_pull s = record s { meas_dw_pull_sent = u32 (s.meas_dw_pull_sent + 1) }

unfoldable pub start_listening : Link → Downstream → Listening
unfolding count_pull
start_listening k s = record {
  link = k;
  req_ack = false;
  downstream = record s { stat_down = count_pull s.stat_down };
}

module _ {M : Type 0} (platform : Platform) (limits : TxLimits) (readers : Readers M)
    (parse : List ℕ → Option (Txpk M)) where
  -- The request is sent, or not, and the answers come in.
  unfoldable pub poll : Round → Link → Downstream → List Outcome × Link × Downstream
  unfolding listen start_listening
  poll r k s =
      let k' = record k { pull_send = u16 (k.pull_send + 1) } in
      let (outcomes, l) =
        listen platform limits readers parse r.token_h r.token_l r.events (start_listening k' s) in
      if r.sends then (outcomes, l.link, l.downstream) else ([], k', s)

  -- One turn of the outer loop; `threshold` is `autoquit_threshold`.
  unfoldable pub round :
      (threshold : ℕ) → Round → Link → Downstream → List Outcome × Link × Downstream
  unfolding reconnect show_status pause poll
  round threshold r k s =
      let k' = show_status (reconnect r.opens_down r.opens_up k) in
      let wait = pause k'.retry in
      if ltb 0 threshold && leb threshold k.autoquit_cnt
      then ([], record k { stop_sig = true }, s)
      else if not k'.sock_down || not k'.sock_up
      then ([], record k' { retry = 2 * wait }, s)
      else poll r k' s

  -- The outer loop, up to the end of the process or a write outside of an array.
  unfoldable pub rounds : (threshold : ℕ) → List Round → Link → Downstream → Link × Downstream
  unfolding round
  rounds threshold [] k s = (k, s)
  rounds threshold (r ∷ rs) k s =
      let (outcomes, k', s') = round threshold r k s in
      let rest = rounds threshold rs k' s' in
      if k.stop_sig then (k, s) else if all_go_on outcomes then rest else (k', s')
