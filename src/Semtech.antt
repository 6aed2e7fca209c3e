-- ===== src/Semtech.antt =====
-- The service that speaks the protocol of Semtech over UDP, src/fwd/src/semtech_serv.c, built with
-- SX1302MOD and BIGENDIAN, and the parts of src/fwd/src/fwd.c that it calls.
-- `F` is `float`, `T` the broken-up time with the fraction of a second.
-- Texts are lists of bytes; `snprintf` writes a text, and the empty one is a result that is not
-- positive.
pub mod Uplink
pub mod Fields
pub mod Datagram
pub mod Compose
pub mod Object
pub mod Counted
pub mod Push
pub mod Pushed
pub mod Broken
pub mod Fetch
pub mod Power
pub mod TxAck
pub mod Txpk
pub mod Checked
pub mod Downlink
pub mod Supported
pub mod Answered
pub mod Beacons
pub mod Pull
pub mod KeepAlive
pub mod Rounds
mod Tests
mod DownTests
mod FetchTests
use dragino_fwd_src_lps8_mqt.Base.{ℕ, ◌/◌, ◌%◌, Bool, List, [], ◌∷◌, ◌++◌}
use dragino_fwd_src_lps8_mqt.Service.{Filter}

-- What is read of `struct lgw_pkt_rx_s`; `freq_offset` is a bit pattern.
pub record LgwPktRx (F : Type 0) : Type 0 where
  pub freq_hz : ℕ
  pub freq_offset : ℕ
  pub if_chain : ℕ
  pub status : ℕ
  pub count_us : ℕ
  pub rf_chain : ℕ
  pub modem_id : ℕ
  pub modulation : ℕ
  pub bandwidth : ℕ
  pub datarate : ℕ
  pub coderate : ℕ
  pub rssic : F
  pub rssis : F
  pub snr : F
  pub size : ℕ
  pub payload : List ℕ

-- `stat_up_s`
pub record StatUp : Type 0 where
  pub meas_nb_rx_rcv : ℕ
  pub meas_nb_rx_ok : ℕ
  pub meas_nb_rx_bad : ℕ
  pub meas_nb_rx_nocrc : ℕ
  pub meas_up_pkt_fwd : ℕ
  pub meas_up_network_byte : ℕ
  pub meas_up_payload_byte : ℕ
  pub meas_up_dgram_sent : ℕ
  pub meas_up_ack_rcv : ℕ

-- The name and the filter of a service, and `GW.relay`.
pub record Serv : Type 0 where
  pub name : List ℕ
  pub levels : Filter
  pub fwd_valid_pkt : Bool
  pub fwd_error_pkt : Bool
  pub fwd_nocrc_pkt : Bool
  pub as_relay : Bool
  pub has_relay : Bool

abbrev pub protocol_version : ℕ
protocol_version = 2

abbrev pub pkt_push_data : ℕ
pkt_push_data = 0

abbrev pub pkt_push_ack : ℕ
pkt_push_ack = 1

abbrev pub pkt_pull_data : ℕ
pkt_pull_data = 2

abbrev pub pkt_pull_resp : ℕ
pkt_pull_resp = 3

abbrev pub pkt_pull_ack : ℕ
pkt_pull_ack = 4

abbrev pub pkt_tx_ack : ℕ
pkt_tx_ack = 5

-- `*(uint32_t *)(buff + i) = n` on a machine that stores the highest byte first, as BIGENDIAN says.
abbrev pub word : ℕ → List ℕ
word n = n / 16777216 % 256 ∷ n / 65536 % 256 ∷ n / 256 % 256 ∷ n % 256 ∷ []

-- The 12 bytes before the text, or all of a request.
unfoldable pub header : (id token_h token_l mac_h mac_l : ℕ) → List ℕ
header id token_h token_l mac_h mac_l =
    protocol_version ∷ token_h ∷ token_l ∷ id ∷ (word mac_h ++ word mac_l)
