-- ===== src/Service.antt =====
-- The services: the filter of uplinks, the dispatch of start and stop, and the checksum,
-- src/fwd/src/service.c, built with BIGENDIAN.
pub mod Uplinks
pub mod Dispatch
pub mod Crc
mod Tests
use dragino_fwd_src_lps8_mqt.Base.{
  ℕ, zero, suc, ◌+◌, ◌-◌, ◌*◌, ◌/◌, ◌%◌, Bool, true, false, not, ◌||◌, List, [], ◌∷◌, ◌++◌,
  if◌then◌else◌, leb, ◌<<<◌, ◌>>>◌, u8, u16, bit_xor,
}

pub data ServType : Type 0 where
  semtech ttn mqtt pkt relay delay gwtraf : ServType

pub data FilterLevel : Type 0 where
  no_filter include exclude : FilterLevel

pub record Filter : Type 0 where
  pub fport : FilterLevel
  pub devaddr : FilterLevel
  pub nwkid : FilterLevel

-- The keys that snprintf writes, each with the name of the service; a name that does not fit in the
-- buffers with the rest of the key is cut off in the source.
pub data Key : Type 0 where
  fport_key devaddr_key nwkid_key : List ℕ → ℕ → Key

pub nwk_id : ℕ → ℕ
nwk_id addr = u8 (addr >>> 25)

-- One `switch`: is the packet filtered out here?
pub drops : (Key → Bool) → FilterLevel → Key → Bool
drops lgw_db_key_exist no_filter key = false
drops lgw_db_key_exist include key = lgw_db_key_exist key
drops lgw_db_key_exist exclude key = not (lgw_db_key_exist key)

-- `lgw_db_key_exist` asks the database.
pub pkt_basic_filter : (Key → Bool) → List ℕ → Filter → (addr fport : ℕ) → Bool
unfolding drops
pkt_basic_filter lgw_db_key_exist name filter addr fport =
    if drops lgw_db_key_exist filter.fport (fport_key name fport)
    then true
    else if drops lgw_db_key_exist filter.devaddr (devaddr_key name addr)
    then true
    else drops lgw_db_key_exist filter.nwkid (nwkid_key name (nwk_id addr))

-- The functions that the dispatch calls, each with the index of its service.
pub data Call : Type 0 where
  starts stops : ServType → ℕ → Call

pub start_one : ServType → ℕ → List Call
start_one semtech i = starts semtech i ∷ []
start_one pkt i = starts pkt i ∷ []
start_one relay i = starts relay i ∷ []
start_one delay i = starts delay i ∷ []
start_one mqtt i = starts mqtt i ∷ []
start_one ttn i = []
start_one gwtraf i = []

pub stop_one : ServType → ℕ → List Call
stop_one semtech i = stops semtech i ∷ []
stop_one pkt i = stops pkt i ∷ []
stop_one relay i = stops relay i ∷ []
stop_one delay i = stops delay i ∷ []
stop_one mqtt i = stops mqtt i ∷ []
stop_one ttn i = stops semtech i ∷ []
stop_one gwtraf i = stops semtech i ∷ []

-- The list of the services from index `i` on.
pub service_start : List ServType → ℕ → List Call
service_start [] i = []
service_start (t ∷ ts) i = start_one t i ++ service_start ts (i + 1)

pub service_stop : List ServType → ℕ → List Call
service_stop [] i = []
service_stop (t ∷ ts) i = stop_one t i ++ service_stop ts (i + 1)

-- A byte goes into the upper half of the register, which is then shifted out bit by bit.
pub crc_shift : ℕ → ℕ
crc_shift x = if leb 0x8000 x then u16 (bit_xor (x <<< 1) 0x1021) else u16 (x <<< 1)

pub crc_bits : ℕ → ℕ → ℕ
unfolding crc_shift
crc_bits zero x = x
crc_bits (suc n) x = crc_bits n (crc_shift x)

pub crc_from : ℕ → List ℕ → ℕ
crc_from x [] = x
crc_from x (b ∷ bytes) = crc_from (crc_bits 8 (bit_xor x (u16 (b <<< 8)))) bytes

pub crc16 : List ℕ → ℕ
unfolding crc_from
crc16 bytes = crc_from 0 bytes
