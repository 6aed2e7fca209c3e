-- ===== src/Forward/Tests.antt =====
-- The theorems on the shared list at a run with two services.
use dragino_fwd_src_lps8_mqt.Base.{
  ℕ, ◌<◌, ◌≡◌, ◌≢◌, refl, ◌+◌, true, List, [], ◌∷◌, ◌++◌, arith, length, replicate,
}
use dragino_fwd_src_lps8_mqt.Base.Sublists.{Sublist}
use dragino_fwd_src_lps8_mqt.Forward.{
  RxPkts, RxPktsList, Streams, packets, hal_error, thread_up, stored, bad_access, receive,
  append_packets, delay_room, store, insert_tail, new_entry, get_rxpkt, stamp_of,
  thread_rxpkt_recycle, take_first, has_stamp,
}
use dragino_fwd_src_lps8_mqt.Forward.Pending.{pending}
use dragino_fwd_src_lps8_mqt.Forward.Deliver.{Serves, get_rxpkt-Serves}
use dragino_fwd_src_lps8_mqt.Forward.Recycle.{Thinned}
use dragino_fwd_src_lps8_mqt.Forward.Gather.{
  gathered, Stores, thread_up-Stores, thread_up-bad_access,
}
use dragino_fwd_src_lps8_mqt.Forward.Steps.{IsValid}
use dragino_fwd_src_lps8_mqt.Forward.Runs.{
  Run, start, arrive, serve, note, Removable, Run-IsValid, Run-recycle,
}
use dragino_fwd_src_lps8_mqt.Forward.Order.{Run-order}

abbrev all_streams : Streams
all_streams = record {
  radiostream_enabled = true;
  ghoststream_enabled = true;
  delay_enabled = true;
}

abbrev no_rxpkts : RxPktsList ℕ
no_rxpkts = record { entries = []; size = 0 }

abbrev batch : List ℕ
batch = 5 ∷ 6 ∷ 7 ∷ []

abbrev arrived : RxPktsList ℕ
arrived = insert_tail no_rxpkts (new_entry 1000 2 batch)

first_turn :
    thread_up all_streams true 1000 2 (packets (5 ∷ 6 ∷ [])) (7 ∷ []) (λ m. []) no_rxpkts
    ≡ stored arrived
unfolding thread_up receive append_packets delay_room store
first_turn = refl

abbrev called : ℕ × List ℕ × RxPktsList ℕ
called = get_rxpkt (stamp_of 1) [] arrived

run : Run 2 (batch ∷ []) (note 1 called.0 called.1 (λ i. [])) called.2
run =
    serve
      (arrive start all_streams 1000 (packets (5 ∷ 6 ∷ [])) (7 ∷ []) (λ m. []) batch (omega arith)
        (omega arith) first_turn)
      1 [] (omega arith)

Run-IsValid_example : IsValid 2 called.2
Run-IsValid_example = Run-IsValid 2 (omega arith) run

Run-order_example :
    Sublist (note 1 called.0 called.1 (λ i. []) 1 ++ pending 1 called.2.entries) (batch ∷ [])
Run-order_example = Run-order 2 (omega arith) run 1 (omega arith)

Run-recycle_example :
    Thinned
      (Removable 2 20000000 20000000)
      called.2.entries
      (thread_rxpkt_recycle 20000000 20000000 called.2).entries
Run-recycle_example = Run-recycle 2 (omega arith) run 20000000 20000000

abbrev entry : RxPkts ℕ
entry = record { entry_us = 1000; stamps = 2; nb_pkt = 2; bind = 1; rxpkt = 5 ∷ 6 ∷ [] }

abbrev waiting : RxPktsList ℕ
waiting = record { entries = entry ∷ record entry { stamps = 0; bind = 2 } ∷ []; size = 2 }

get_rxpkt-Serves_example :
    let (ret, filled, l') = get_rxpkt (stamp_of 0) (8 ∷ 9 ∷ 10 ∷ []) waiting in
    Serves 0 (8 ∷ 9 ∷ 10 ∷ []) waiting.entries (pending 0 waiting.entries) (ret, filled, l'.entries)
    × (l'.size ≡ waiting.size)
    × ((j : ℕ) → j ≢ 0 → pending j l'.entries ≡ pending j waiting.entries)
get_rxpkt-Serves_example =
    get_rxpkt-Serves 0 (8 ∷ 9 ∷ 10 ∷ []) waiting (omega arith) (refl, (refl, tt))

-- Service 0 took the first entry already and gets the second.
second_served : (get_rxpkt (stamp_of 0) (8 ∷ 9 ∷ 10 ∷ []) waiting).1 ≡ 5 ∷ 6 ∷ 10 ∷ []
unfolding get_rxpkt stamp_of take_first has_stamp
second_served = refl

abbrev many : RxPktsList ℕ
many = record { entries = replicate 33 entry; size = 33 }

thread_up-Stores_example :
    Stores true 1000 2
      (gathered all_streams (5 ∷ 6 ∷ []) (7 ∷ []) (λ m. []))
      waiting
      (thread_up all_streams true 1000 2 (packets (5 ∷ 6 ∷ [])) (7 ∷ []) (λ m. []) waiting)
thread_up-Stores_example =
    thread_up-Stores all_streams true 1000 2 (5 ∷ 6 ∷ []) (7 ∷ []) (λ m. []) waiting (omega arith)
      (λ m h. omega arith)

thread_up-bad_access_example :
    (thread_up all_streams true 1000 2 hal_error (7 ∷ []) (λ m. []) waiting ≡ bad_access)
    × ((pkts : List ℕ)
        → true ≡ true
        → 32 < length pkts + 1
        → thread_up all_streams true 1000 2 (packets pkts) (7 ∷ []) (λ m. []) waiting ≡ bad_access)
thread_up-bad_access_example =
    thread_up-bad_access all_streams 1000 2 (7 ∷ []) (λ m. []) waiting refl
