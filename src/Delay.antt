-- ===== src/Delay.antt =====
-- The service that keeps uplinks while the network is down, src/fwd/src/delay_serv.c.
pub mod Queue
pub mod Listed
pub mod Stored
pub mod Outage
mod Tests
use dragino_fwd_src_lps8_mqt.Base.{
  ℕ, zero, suc, ◌+◌, ◌-◌, ◌<◌, ◌≤◌, ◌≡◌, Bool, true, false, not, ◌||◌, List, [], ◌∷◌, ◌++◌, map,
  if◌then◌else◌, leb, ltb, ◌==◌, u8, u32, length, take,
}
use dragino_fwd_src_lps8_mqt.Forward.{RxPktsList, get_rxpkt}

-- `delay_pkt_s`
pub record DelayPkt {ℓ} (P : Type ℓ) : Type ℓ where
  pub rxpkt : List P
  pub nb_pkt : ℕ

-- `delay_pkt_list`
pub record DelayPktList {ℓ} (P : Type ℓ) : Type ℓ where
  pub entries : List (DelayPkt P)
  pub size : ℕ

abbrev pub delay_pkts_max : ℕ
delay_pkts_max = 64

-- `GW.info.network_status` and `delay_service_status_alive`.
pub record Status : Type 0 where
  pub network_status : Bool
  pub alive : Bool

abbrev pub refuses : Status → ℕ → Bool
refuses status max_pkt = not status.network_status || not status.alive || ltb max_pkt 1

-- A row of the table `delay_pkts`; `size` is the number of packets of the blob.
pub record Row {ℓ} (P : Type ℓ) : Type ℓ where
  pub id : ℕ
  pub payload : List P
  pub size : ℕ

module _ {ℓ} {P : Type ℓ} where
  -- The traversal of `delay_pkt_get`, with `nb_pkt` so far: the packets that are written, `nb_pkt`
  -- at the end, and the list.
  unfoldable pub take_entries :
      (max_pkt nb_pkt : ℕ) → List (DelayPkt P) → ℕ → List P × ℕ × DelayPktList P
  take_entries max_pkt nb_pkt [] size = ([], nb_pkt, record { entries = []; size = size })
  take_entries max_pkt nb_pkt (e ∷ es) size =
      let (written, ret, l) = take_entries max_pkt (u8 (nb_pkt + e.nb_pkt)) es (size - 1) in
      if ltb max_pkt (nb_pkt + e.nb_pkt)
      then ([], nb_pkt, record { entries = e ∷ es; size = size })
      else (take e.nb_pkt e.rxpkt ++ written, ret, l)

  -- `delay_pkt_get` without a database.
  unfoldable pub delay_pkt_get : Status → ℕ → DelayPktList P → List P × ℕ × DelayPktList P
  unfolding take_entries
  delay_pkt_get status max_pkt l =
      if refuses status max_pkt
      then ([], 0, l)
      else if ltb l.size 1
      then ([], 0, l)
      else take_entries max_pkt 0 l.entries l.size

  unfoldable pub drop_head : List (DelayPkt P) → List (DelayPkt P)
  drop_head [] = []
  drop_head (e ∷ es) = es

  -- `LGW_LIST_INSERT_TAIL`, and when there are too many, `LGW_LIST_REMOVE_HEAD`.
  unfoldable pub delay_pkt_store : DelayPkt P → DelayPktList P → DelayPktList P
  unfolding drop_head
  delay_pkt_store e l =
      let entries' = l.entries ++ (e ∷ []) in
      if ltb delay_pkts_max (l.size + 1)
      then record { entries = drop_head entries'; size = l.size + 1 - 1 }
      else record { entries = entries'; size = l.size + 1 }

  -- The loop over the rows of the query: what is written, `nb_pkt`, and `id`.
  unfoldable pub take_rows : (max_pkt nb_pkt id : ℕ) → List (Row P) → List P × ℕ × ℕ
  take_rows max_pkt nb_pkt id [] = ([], nb_pkt, id)
  take_rows max_pkt nb_pkt id (r ∷ rs) =
      let (written, ret, last) = take_rows max_pkt (u8 (nb_pkt + r.size)) r.id rs in
      if leb max_pkt nb_pkt
      then ([], nb_pkt, id)
      else if ltb max_pkt (nb_pkt + r.size)
      then ([], nb_pkt, id)
      else (take r.size r.payload ++ written, ret, last)

-- The rows from an id on, and rows in the order of ids above a bound.
unfoldable pub from_id {ℓ} : {P : Type ℓ} → ℕ → List (Row P) → List (Row P)
from_id k [] = []
from_id k (r ∷ rs) = let rest = from_id k rs in if ltb r.id k then rest else r ∷ rest

abbrev pub Above {ℓ} : {P : Type ℓ} → ℕ → List (Row P) → Type 0
Above k [] = Unit
Above k (r ∷ rs) = (k < r.id) × Above r.id rs

-- What SQLite keeps and does: the table is read in the order of its ids, which start behind 0, and
-- `DELETE … WHERE id < k` leaves the rows from `k` on.
pub record Storage {ℓ} (P : Type ℓ) : Type (ℓ + 1) where
  pub Table : Type ℓ
  pub rows : Table → List (Row P)
  pub delete_below : ℕ → Table → Table
  pub rows_above : (t : Table) → Above 0 (rows t)
  pub rows_delete : (k : ℕ) (t : Table) → rows (delete_below k t) ≡ from_id k (rows t)

module _ {ℓ} {P : Type ℓ} (storage : Storage P) where
  open storage use {Table, rows, delete_below}

  -- `delay_pkt_get` with a database. The query is limited to `max_pkt` rows.
  unfoldable pub delay_pkt_get_db : Status → ℕ → Table → List P × ℕ × Table
  unfolding take_rows
  delay_pkt_get_db status max_pkt t =
      let (written, ret, id) = take_rows max_pkt 0 0 (take max_pkt (rows t)) in
      if refuses status max_pkt
      then ([], 0, t)
      else if length (rows t) == 0
      then ([], 0, t)
      else (written, ret, if ltb 0 id then delete_below (u32 (id + 1)) t else t)

module _ {ℓ} {P : Type ℓ} (set_if_delay : P → P) where
  -- One turn of the inner loop of `delay_package_thread` without a database; `set_if_delay` is
  -- the assignment `p->if_chain = IF_DELAY`.
  unfoldable pub delay_package_thread :
      Bool → (stamp : ℕ) → List P → RxPktsList P → DelayPktList P → RxPktsList P × DelayPktList P
  unfolding delay_pkt_store
  delay_package_thread network_status stamp buffer l delayed =
      let (nb_pkt, rxpkt, l') = get_rxpkt stamp buffer l in
      if network_status || (nb_pkt == 0) then (l', delayed) else (
        l',
        delay_pkt_store
            (record { rxpkt = map set_if_delay (take nb_pkt rxpkt); nb_pkt = u8 nb_pkt }) delayed,
      )
