-- ===== src/Semtech/Datagram.antt =====
-- The datagram of uplinks that `thread_push_up` composes.
-- What is written is kept as a list: `buff_index` is its length. The list does not end with
-- `buff_up`; instead `highest` tells how far the objects reached, and `thread_push_up` ends where
-- that is behind the array. The beginning of an object that is thrown away is not counted.
use dragino_fwd_src_lps8_mqt.Base.{
  ℕ, suc, ◌+◌, ◌*◌, ◌-◌, max, Bool, true, false, List, [], ◌∷◌, ◌++◌, Option, none, some, ◌==◌,
  if◌then◌else◌, length, take,
}
use dragino_fwd_src_lps8_mqt.Base.Text.{codes}
use dragino_fwd_src_lps8_mqt.Base64.{◌>>=◌}
use dragino_fwd_src_lps8_mqt.Service.{Key}
use dragino_fwd_src_lps8_mqt.Semtech.{LgwPktRx, StatUp, Serv, header, pkt_push_data}
use dragino_fwd_src_lps8_mqt.Semtech.Uplink.{
  count_forwarded, count_received, filtered_out, unwrapped, wants,
}
use dragino_fwd_src_lps8_mqt.Semtech.Fields.{Wrote, goes, leaves, resets, ends, Format, object}

-- What has been written, `pkt_in_dgram` (at most NB_PKT_MAX), and the counters.
pub record Composed : Type 0 where
  pub buff : List ℕ
  pub pkt_in_dgram : ℕ
  pub stat_up : StatUp
  pub highest : ℕ

-- `TX_BUFF_SIZE`
abbrev pub tx_buff_size : ℕ
tx_buff_size = 540 * 32 + 30 + 300

unfoldable pub separator : ℕ → List ℕ
separator pkt_in_dgram = if pkt_in_dgram == 0 then [] else codes ","

-- `none` is the end of the process.
unfoldable pub add_object : Wrote → Composed → Option Composed
unfolding separator
add_object (goes text) c = some (record c {
  buff = c.buff ++ (separator c.pkt_in_dgram ++ text);
  pkt_in_dgram = suc c.pkt_in_dgram;
  highest = max c.highest (length (c.buff ++ (separator c.pkt_in_dgram ++ text)));
})
add_object (leaves text) c = some (record c {
  buff = c.buff ++ (separator c.pkt_in_dgram ++ text);
  highest = max c.highest (length (c.buff ++ (separator c.pkt_in_dgram ++ text)));
})
add_object resets c = some (record c { buff = take 21 c.buff })
add_object ends c = none

module _ {F T : Type 0} (format : Format F T) (lgw_db_key_exist : Key → Bool) (serv : Serv)
    (tmp : List ℕ) where
  -- Is a packet that is counted also forwarded?
  unfoldable pub forwards : LgwPktRx F → Bool
  unfolding wants filtered_out
  forwards p =
      if wants serv p.status
      then (if filtered_out lgw_db_key_exist serv p then false else true)
      else false

  -- From the count on.
  unfoldable pub serialize : LgwPktRx F → T → Composed → Option Composed
  unfolding forwards count_received count_forwarded object add_object
  serialize p now c =
      let received = count_received p.status c.stat_up in
      if forwards p
      then add_object (object format p now) (record c { stat_up = count_forwarded p.size received })
      else some (record c { stat_up = received })

  unfoldable pub serve_unwrapped : Option (LgwPktRx F) → T → Composed → Option Composed
  unfolding serialize
  serve_unwrapped none now c = some c
  serve_unwrapped (some p) now c = serialize p now c

  -- The loop over `rxpkt`, each packet with the clock at its turn.
  unfoldable pub compose_rxpk : List (LgwPktRx F × T) → Composed → Option Composed
  unfolding unwrapped serve_unwrapped
  compose_rxpk [] c = some c
  compose_rxpk ((p, now) ∷ ps) c =
      serve_unwrapped (unwrapped serv tmp p) now c >>= (λ c'. compose_rxpk ps c')

-- Before the loop.
unfoldable pub opened : (token_h token_l mac_h mac_l : ℕ) → StatUp → Composed
opened token_h token_l mac_h mac_l stat_up = record {
  buff = header pkt_push_data token_h token_l mac_h mac_l ++ codes "{\"rxpk\":[";
  pkt_in_dgram = 0;
  stat_up = stat_up;
  highest = 21;
}

-- The end of the text: `none` where no report is ready, else the text of the report. A result of `snprintf` that is not positive takes back one character.
-- `none` where nothing is sent; else the datagram, and `report_ready` after it.
abbrev pub reported : List ℕ → List ℕ → List ℕ × Bool
reported buff [] = (take (length buff - 1) buff ++ codes "}", true)
reported buff (c ∷ report) = (buff ++ ((c ∷ report) ++ codes "}"), false)

unfoldable pub close : Option (List ℕ) → Composed → Option (List ℕ × Bool)
close none c = if c.pkt_in_dgram == 0 then none else some (c.buff ++ codes "]}", false)
close (some report) c =
    if c.pkt_in_dgram == 0
    then some (reported (take (length c.buff - 8) c.buff) report)
    else some (reported (c.buff ++ codes "],") report)
