-- ===== src/Jit/Types.antt =====
-- The data of jitqueue.h, its constants, and the transmit packet of the HAL's header.
use dragino_fwd_src_lps8_mqt.Base.{ℕ, Bool, true, false, List, replicate}
use dragino_fwd_src_lps8_mqt.Base.{if◌then◌else◌, take}

-- `enum jit_pkt_type_e`
pub data PktType : Type 0 where
  downlink_class_a downlink_class_b downlink_class_c beacon : PktType

-- `enum jit_error_e`
pub data JitError : Type 0 where
  ok too_late too_early full empty collision_packet collision_beacon : JitError
  tx_freq tx_power gps_unlocked invalid : JitError

pub JitError-discrete : Discrete JitError
JitError-discrete = hlevel

-- `struct lgw_pkt_tx_s`; a signed field is the bit pattern of its byte.
pub record TxPkt : Type 0 where
  pub freq_hz : ℕ
  pub tx_mode : ℕ
  pub count_us : ℕ
  pub rf_chain : ℕ
  pub rf_power : ℕ
  pub modulation : ℕ
  pub freq_offset : ℕ
  pub bandwidth : ℕ
  pub datarate : ℕ
  pub coderate : ℕ
  pub invert_pol : Bool
  pub f_dev : ℕ
  pub preamble : ℕ
  pub no_crc : Bool
  pub no_header : Bool
  pub size : ℕ
  pub payload : List ℕ

-- `struct jit_node_s`
pub record Node : Type 0 where
  pub pkt : TxPkt
  pub pkt_type : PktType
  pub pre_delay : ℕ
  pub post_delay : ℕ

-- `struct jit_queue_s`
pub record JitQueue : Type 0 where
  pub num_pkt : ℕ
  pub num_beacon : ℕ
  pub nodes : List Node

abbrev pub jit_queue_max : ℕ
jit_queue_max = 32

abbrev pub tx_start_delay : ℕ
tx_start_delay = 1500

abbrev pub tx_margin_delay : ℕ
tx_margin_delay = 1000

abbrev pub tx_jit_delay : ℕ
tx_jit_delay = 30000

abbrev pub tx_max_advance_delay : ℕ
tx_max_advance_delay = 512000000

abbrev pub beacon_guard : ℕ
beacon_guard = 3000000

abbrev pub beacon_reserved : ℕ
beacon_reserved = 2120000

-- TX_MODE of the HAL: 0 is IMMEDIATE.
abbrev pub timestamped : ℕ
timestamped = 1

-- What `memset(.., 0, ..)` leaves in a packet and in a node (type 0 is class A).
unfoldable pub zero_pkt : TxPkt
zero_pkt = record {
  freq_hz = 0;
  tx_mode = 0;
  count_us = 0;
  rf_chain = 0;
  rf_power = 0;
  modulation = 0;
  freq_offset = 0;
  bandwidth = 0;
  datarate = 0;
  coderate = 0;
  invert_pol = false;
  f_dev = 0;
  preamble = 0;
  no_crc = false;
  no_header = false;
  size = 0;
  payload = replicate 256 0;
}

unfoldable pub zero_node : Node
unfolding zero_pkt
zero_node = record { pkt = zero_pkt; pkt_type = downlink_class_a; pre_delay = 0; post_delay = 0 }

abbrev pub is_beacon : PktType → Bool
is_beacon beacon = true
is_beacon downlink_class_a = false
is_beacon downlink_class_b = false
is_beacon downlink_class_c = false

abbrev pub is_class_c : PktType → Bool
is_class_c downlink_class_c = true
is_class_c downlink_class_a = false
is_class_c downlink_class_b = false
is_class_c beacon = false

-- The entries in use, and how many of them are beacons.
abbrev pub live : JitQueue → List Node
live q = take q.num_pkt q.nodes

abbrev pub beacon_weight : Node → ℕ
beacon_weight n = if is_beacon n.pkt_type then 1 else 0
