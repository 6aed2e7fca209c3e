-- ===== src/Delay/Tests.antt =====
-- The theorems on delayed packets at lists and tables of three batches.
use dragino_fwd_src_lps8_mqt.Base.{
  ℕ, ◌+◌, ◌<◌, ◌≤◌, ◌≡◌, refl, true, false, List, [], ◌∷◌, ◌++◌, length, drop, replicate, arith,
  ltb, Bool-cases, inl, inr,
}
use dragino_fwd_src_lps8_mqt.Forward.{RxPktsList, Buffer, holds, delay_room, stamp_of}
use dragino_fwd_src_lps8_mqt.Forward.Pending.{pending}
use dragino_fwd_src_lps8_mqt.Delay.{
  DelayPktList, Status, refuses, Row, Storage, Above, from_id, delay_pkt_get, delay_pkt_get_db,
  delay_package_thread,
}
use dragino_fwd_src_lps8_mqt.Delay.Queue.{fits}
use dragino_fwd_src_lps8_mqt.Delay.Listed.{IsValid, batches, Gives, delay_pkt_get-Gives}
use dragino_fwd_src_lps8_mqt.Delay.Stored.{payloads, delay_pkt_get_db-fits}
use dragino_fwd_src_lps8_mqt.Delay.Outage.{delay_pkt_get_blocked, delay_package_thread_moves}

abbrev online : Status
online = record { network_status = true; alive = true }

abbrev three : DelayPktList ℕ
three = record {
  entries =
      record { rxpkt = 1 ∷ 2 ∷ []; nb_pkt = 2 }
      ∷ record { rxpkt = 3 ∷ []; nb_pkt = 1 }
      ∷ record { rxpkt = 4 ∷ 5 ∷ []; nb_pkt = 2 }
      ∷ [];
  size = 3;
}

-- Four packets are asked for, and the third batch does not fit.
three_given : (delay_pkt_get online 4 three).0 ≡ 1 ∷ 2 ∷ 3 ∷ []
unfolding delay_pkt_get
three_given = refl

delay_pkt_get-Gives_example :
    ((refuses online 4 ≡ true) → delay_pkt_get online 4 three ≡ ([], 0, three))
    × ((refuses online 4 ≡ false) → Gives 4 (batches three) (delay_pkt_get online 4 three))
delay_pkt_get-Gives_example =
    delay_pkt_get-Gives online 4 three (omega arith) (refl, (refl, (refl, (refl, tt))))

abbrev twelve : DelayPktList ℕ
twelve = record {
  entries =
      record { rxpkt = replicate 12 7; nb_pkt = 12 } ∷ record { rxpkt = 3 ∷ []; nb_pkt = 1 } ∷ [];
  size = 2;
}

abbrev array : Buffer ℕ
array = holds (1 ∷ [])

delay_pkt_get_blocked_example :
    let (written, ret, l') = delay_pkt_get online (delay_room array) twelve in
    (written ≡ []) × (ret ≡ 0) × (batches l' ≡ batches twelve)
delay_pkt_get_blocked_example =
    delay_pkt_get_blocked online array twelve (replicate 12 7) ((3 ∷ []) ∷ [])
      (refl, (refl, (refl, tt))) refl (omega arith)

-- A table as a list of rows in the order of their ids.
abbrev Ordered : Type 0
Ordered = (rs : List (Row ℕ)) × Above 0 rs

raise : (j k : ℕ) (rs : List (Row ℕ)) → j ≤ k → Above k rs → Above j rs
raise j k [] h a = tt
raise j k (r ∷ rs) h (lo, a) = (omega arith, a)

from_id-Above : (k j : ℕ) (rs : List (Row ℕ)) → Above j rs → Above j (from_id k rs)
unfolding from_id
from_id-Above k j [] a = tt
from_id-Above k j (r ∷ rs) (lo, a) = elim (Bool-cases (ltb r.id k)) [
  | inl t ↦ rw t (raise j r.id (from_id k rs) (omega arith) (from_id-Above k r.id rs a))
  | inr t ↦ rw t (lo, from_id-Above k r.id rs a)
]

abbrev listed : Storage ℕ
listed = record {
  Table = Ordered;
  rows = λ t. t.0;
  delete_below = λ k t. (from_id k t.0, from_id-Above k 0 t.0 t.1);
  rows_above = λ t. t.1;
  rows_delete = λ k t. refl;
}

abbrev table : Ordered
table = (
  record { id = 4; payload = 1 ∷ 2 ∷ []; size = 2 }
      ∷ record { id = 5; payload = 3 ∷ []; size = 1 }
      ∷ record { id = 9; payload = 4 ∷ 5 ∷ []; size = 2 }
      ∷ [],
  (omega arith, (omega arith, (omega arith, tt))),
)

delay_pkt_get_db-fits_example :
    ((refuses online 4 ≡ true) → delay_pkt_get_db listed online 4 table ≡ ([], 0, table))
    × ((refuses online 4 ≡ false)
        → (let (written, ret, t') = delay_pkt_get_db listed online 4 table in
            (written ≡ (fits 4 (payloads table.0)).0)
            × (ret ≡ length (fits 4 (payloads table.0)).0)
            × (payloads t'.0 ≡ (fits 4 (payloads table.0)).1)))
delay_pkt_get_db-fits_example = delay_pkt_get_db-fits listed online 4 table (omega arith) (
  (refl, omega arith, omega arith),
  ((refl, omega arith, omega arith), ((refl, omega arith, omega arith), tt)),
)

abbrev shared : RxPktsList ℕ
shared = record {
  entries = record { entry_us = 1000; stamps = 0; nb_pkt = 2; bind = 2; rxpkt = 5 ∷ 6 ∷ [] } ∷ [];
  size = 1;
}

abbrev marked : ℕ → ℕ
marked p = p + 100

waits : pending 1 shared.entries ≡ (5 ∷ 6 ∷ []) ∷ []
unfolding pending
waits = refl

delay_package_thread_moves_example :
    let (l', delayed') = delay_package_thread marked false (stamp_of 1) [] shared three in
    (pending 1 l'.entries ≡ [])
    × IsValid delayed'
    × (three.size < 64 → batches delayed' ≡ batches three ++ ((105 ∷ 106 ∷ []) ∷ []))
    × (64 ≤ three.size → batches delayed' ≡ drop 1 (batches three ++ ((105 ∷ 106 ∷ []) ∷ [])))
delay_package_thread_moves_example =
    delay_package_thread_moves marked 1 [] shared three (5 ∷ 6 ∷ []) [] (omega arith) (refl, tt)
      waits (omega arith) (omega arith) (refl, (refl, (refl, (refl, tt))))
