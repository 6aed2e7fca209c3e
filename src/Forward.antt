-- ===== src/Forward.antt =====
-- The list of received packets that the services share: the threads that fill and recycle it and
-- the call by which a service takes its next entry, src/fwd/src/fwd.c, built with SX1302MOD.
pub mod Pending
pub mod Deliver
pub mod Recycle
pub mod Steps
pub mod Runs
pub mod Order
pub mod Gather
mod Tests
use dragino_fwd_src_lps8_mqt.Base.{
  ℕ, ◌+◌, ◌-◌, ◌^◌, Bool, true, false, ◌||◌, List, [], ◌∷◌, ◌++◌, if◌then◌else◌, leb, ltb, ◌==◌, u8,
  sub32, bit_and, bit_or, length, take, drop,
}

-- `rxpkts_s`. Of the array `rxpkt` only the entries that are written are kept.
pub record RxPkts {ℓ} (P : Type ℓ) : Type ℓ where
  pub entry_us : ℕ
  pub stamps : ℕ
  pub nb_pkt : ℕ
  pub bind : ℕ
  pub rxpkt : List P

-- `GW.rxpkts_list`, with the counter of its entries that the macros of linkedlists.h keep.
pub record RxPktsList {ℓ} (P : Type ℓ) : Type ℓ where
  pub entries : List (RxPkts P)
  pub size : ℕ

abbrev pub nb_pkt_max : ℕ
nb_pkt_max = 32

-- `DEFAULT_RXPKTS_LIST_SIZE` and `MAX_RXPKTS_LIST_SIZE`
abbrev pub default_rxpkts_list_size : ℕ
default_rxpkts_list_size = 32

abbrev pub max_rxpkts_list_size : ℕ
max_rxpkts_list_size = 128

-- The stamp of the service with the index `i` in the configuration.
unfoldable pub stamp_of : ℕ → ℕ
stamp_of i = u8 (2 ^ (i + 1))

module _ {ℓ} {P : Type ℓ} where
  -- `LGW_LIST_INSERT_TAIL`
  unfoldable pub insert_tail : RxPktsList P → RxPkts P → RxPktsList P
  insert_tail l e = record { entries = l.entries ++ (e ∷ []); size = l.size + 1 }

  unfoldable pub has_stamp : ℕ → RxPkts P → Bool
  has_stamp stamp e = stamp == bit_and stamp e.stamps

  -- The entry after a service took it. `bind` is a `uint8_t`, so 0 wraps round.
  unfoldable pub mark : ℕ → RxPkts P → RxPkts P
  mark stamp e = record e { stamps = bit_or e.stamps stamp; bind = u8 (e.bind + 255) }

  -- `memcpy` of `nb_pkt` packets to the start of the buffer of the service.
  abbrev pub copy_packets : RxPkts P → List P → List P
  copy_packets e buffer = take e.nb_pkt e.rxpkt ++ drop e.nb_pkt buffer

  -- The traversal: the result of the call, the buffer of the service and the entries.
  unfoldable pub take_first : ℕ → List P → List (RxPkts P) → ℕ × List P × List (RxPkts P)
  take_first stamp buffer [] = (0, buffer, [])
  take_first stamp buffer (e ∷ es) =
      let (ret, filled, rest) = take_first stamp buffer es in
      if has_stamp stamp e
      then (ret, filled, e ∷ rest)
      else (e.nb_pkt, copy_packets e buffer, mark stamp e ∷ es)

  unfoldable pub get_rxpkt : ℕ → List P → RxPktsList P → ℕ × List P × RxPktsList P
  get_rxpkt stamp buffer l =
      let (ret, filled, rest) = take_first stamp buffer l.entries in
      (ret, filled, record l { entries = rest })

  -- The condition of a recycling pass; `cur_hal_time` is taken to stand still during the pass.
  unfoldable pub is_spent : (limit now : ℕ) → RxPkts P → Bool
  is_spent limit now e = ltb limit (sub32 now e.entry_us) || ltb e.bind 1

  -- `LGW_LIST_TRAVERSE_SAFE_BEGIN` with `LGW_LIST_REMOVE_CURRENT` and `size--` on spent entries.
  unfoldable pub recycle_pass : (limit now : ℕ) → List (RxPkts P) → ℕ → RxPktsList P
  recycle_pass limit now [] size = record { entries = []; size = size }
  recycle_pass limit now (e ∷ es) size =
      let removed = recycle_pass limit now es (size - 1) in
      let kept = recycle_pass limit now es size in
      if is_spent limit now e then removed else record kept { entries = e ∷ kept.entries }

  abbrev pub pass_over : (bound limit now : ℕ) → RxPktsList P → RxPktsList P
  pass_over bound limit now l =
      if ltb bound l.size then recycle_pass limit now l.entries l.size else l

  -- One turn of `thread_rxpkt_recycle`, with the clock at its two passes.
  unfoldable pub thread_rxpkt_recycle : (now now' : ℕ) → RxPktsList P → RxPktsList P
  thread_rxpkt_recycle now now' l =
      pass_over max_rxpkts_list_size 12000000 now'
        (pass_over default_rxpkts_list_size 16000000 now l)

-- `GW.cfg`
pub record Streams : Type 0 where
  pub radiostream_enabled : Bool
  pub ghoststream_enabled : Bool
  pub delay_enabled : Bool

-- What `lgw_receive` returns: `LGW_HAL_ERROR`, which is -1, or that many packets in the array.
pub data Received {ℓ} (P : Type ℓ) : Type ℓ where
  hal_error : Received P
  packets : List P → Received P

-- The array of the thread with `nb_pkt`: -1, the number of its packets, or after a write outside.
pub data Buffer {ℓ} (P : Type ℓ) : Type ℓ where
  outside minus_one : Buffer P
  holds : List P → Buffer P

-- The ends of a turn: an access outside the array, no packet, no memory, or a new entry.
pub data Turn {ℓ} (P : Type ℓ) : Type ℓ where
  bad_access quiet no_memory : Turn P
  stored : RxPktsList P → Turn P

module _ {ℓ} {P : Type ℓ} where
  -- `source(max, &rxpkt[nb_pkt]) + nb_pkt` for a source that writes the packets `given`.
  unfoldable pub append_packets : Buffer P → List P → Buffer P
  append_packets outside given = outside
  append_packets minus_one [] = minus_one
  append_packets minus_one (p ∷ given) = outside
  append_packets (holds pkts) given =
      if leb (length pkts + length given) nb_pkt_max then holds (pkts ++ given) else outside

  -- `10 - nb_pkt`, where a negative value counts as 0.
  unfoldable pub delay_room : Buffer P → ℕ
  delay_room outside = 0
  delay_room minus_one = 11
  delay_room (holds pkts) = 10 - length pkts

  unfoldable pub receive : Received P → Buffer P
  receive hal_error = minus_one
  receive (packets pkts) = holds pkts

  -- `nb_pkt` is cast to the `uint8_t` field.
  unfoldable pub new_entry : (now service_count : ℕ) → List P → RxPkts P
  new_entry now service_count pkts = record {
    entry_us = now;
    stamps = 0;
    nb_pkt = u8 (length pkts);
    bind = service_count;
    rxpkt = pkts;
  }

  -- From the test of `nb_pkt` on. A copy of -1 packets has a size beyond the memory.
  unfoldable pub store : Bool → (now service_count : ℕ) → Buffer P → RxPktsList P → Turn P
  store allocated now service_count outside l = bad_access
  store allocated now service_count minus_one l = if allocated then bad_access else no_memory
  store allocated now service_count (holds []) l = quiet
  store allocated now service_count (holds (p ∷ pkts)) l =
      if allocated
      then stored (insert_tail l (new_entry now service_count (p ∷ pkts)))
      else no_memory

  abbrev pub from_ghost : Streams → List P → Buffer P → Buffer P
  from_ghost cfg ghost b = if cfg.ghoststream_enabled then append_packets b ghost else b

  abbrev pub from_delay : Streams → (ℕ → List P) → Buffer P → Buffer P
  from_delay cfg delayed b =
      if cfg.delay_enabled then append_packets b (delayed (delay_room b)) else b

  -- One turn of `thread_up`: the result of `lgw_receive`, the packets that `ghost_get` writes and
  -- those that `delay_pkt_get` writes when it is asked for at most so many.
  unfoldable pub thread_up :
      Streams
      → Bool
      → (now service_count : ℕ) → Received P
      → List P
      → (ℕ → List P)
      → RxPktsList P
      → Turn P
  thread_up cfg allocated now service_count received ghost delayed l =
      let fetched = if cfg.radiostream_enabled then receive received else holds [] in
      store allocated now service_count (from_delay cfg delayed (from_ghost cfg ghost fetched)) l
