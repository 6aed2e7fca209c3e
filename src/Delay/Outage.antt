-- ===== src/Delay/Outage.antt =====
-- The service together with the threads that fill and read its store.
use dragino_fwd_src_lps8_mqt.Base.{
  ℕ, suc, ◌+◌, ◌<◌, ◌≤◌, ◌≡◌, refl, sym, ap, ◌∙◌, inl, inr, Bool, false, List, [], ◌∷◌, ◌++◌, map,
  ==_false, u8, length, take, drop, take-append, arith, All, Bool-cases,
}
use dragino_fwd_src_lps8_mqt.Forward.Order.{got}
use mathlib.Core.Path.{subst}
use dragino_fwd_src_lps8_mqt.Forward.{
  RxPktsList, Streams, Buffer, outside, minus_one, holds, packets, delay_room, stamp_of, thread_up,
}
use dragino_fwd_src_lps8_mqt.Forward.Pending.{pending}
use dragino_fwd_src_lps8_mqt.Forward.Deliver.{IsCounted as IsCountedRx, Serves, get_rxpkt-Serves}
use dragino_fwd_src_lps8_mqt.Forward.Gather.{gathered, Stores, thread_up-Stores}
use dragino_fwd_src_lps8_mqt.Delay.{
  DelayPkt, DelayPktList, Status, refuses, delay_pkt_get, delay_package_thread,
}
use dragino_fwd_src_lps8_mqt.Delay.Queue.{fits, fits-stop, fits-within}
use dragino_fwd_src_lps8_mqt.Delay.Listed.{
  IsValid, batches, delay_pkt_get-Gives, delay_pkt_store_lem,
}

module _ {ℓ} {P : Type ℓ} where
  room_small : (b : Buffer P) → delay_room b ≤ 11
  unfolding delay_room
  room_small outside = omega arith
  room_small minus_one = omega arith
  room_small (holds pkts) = omega arith

  -- A batch of more than 11 packets at the head of the list is never taken: whatever the array of thread_up holds, delay_pkt_get with the number that thread_up asks for gives nothing and keeps the list as it was, whatever lies behind the batch.
  pub delay_pkt_get_blocked :
      (status : Status) (array : Buffer P) (l : DelayPktList P) (b : List P) (bs : List (List P))
      → IsValid l
      → batches l ≡ b ∷ bs
      → 11 < length b
      → (let (written, ret, l') = delay_pkt_get status (delay_room array) l in
          (written ≡ []) × (ret ≡ 0) × (batches l' ≡ batches l))
  delay_pkt_get_blocked status array l b bs v head large =
      let small = room_small array in
      let (refused, served) = delay_pkt_get-Gives status (delay_room array) l (omega arith) v in
      let none : fits (delay_room array) (batches l) ≡ ([], batches l) =
        ap (fits (delay_room array)) head
        ∙ fits-stop (delay_room array) b bs (omega arith)
        ∙ ap (λ q. ([], q)) (sym head) in
      elim (Bool-cases (refuses status (delay_room array))) [
        | inl refusal ↦ rw (refused refusal) (refl, refl, refl)
        | inr open_now ↦
            let (a, c, q, _) = served open_now in
            (a ∙ ap (λ r. r.0) none, c ∙ ap (λ r. length r.0) none, q ∙ ap (λ r. r.1) none)
      ]

  within :
      (status : Status) (m : ℕ) (l : DelayPktList P)
      → m ≤ 10
      → IsValid l
      → length (delay_pkt_get status m l).0 ≤ m
  within status m l small v =
      let (refused, served) = delay_pkt_get-Gives status m l (omega arith) v in
      elim (Bool-cases (refuses status m)) [
        | inl refusal ↦ rw (refused refusal) (omega arith)
        | inr open_now ↦ rw (served open_now).0 (fits-within m (batches l))
      ]

  -- With the list of the delay service as the third source, a turn of thread_up stays inside its array whenever the packets of lgw_receive and ghost_get fit in it, and appends the packets of the three sources in that order.
  pub thread_up_delayed :
      (cfg : Streams) (allocated : Bool) (now n : ℕ) (pkts ghost : List P) (status : Status)
      (delayed : DelayPktList P) (l : RxPktsList P)
      → length pkts + length ghost ≤ 32
      → IsValid delayed
      → (let source = λ (m : ℕ). (delay_pkt_get status m delayed).0 in
          Stores allocated now n
            (gathered cfg pkts ghost source)
            l
            (thread_up cfg allocated now n (packets pkts) ghost source l))
  thread_up_delayed cfg allocated now n pkts ghost status delayed l h v =
      thread_up-Stores cfg allocated now n pkts ghost (λ m. (delay_pkt_get status m delayed).0) l h
        (λ m small. within status m delayed small v)

module _ {ℓ} {P : Type ℓ} (set_if_delay : P → P) where
  length-set_if_delay : (ps : List P) → length (map set_if_delay ps) ≡ length ps
  length-set_if_delay [] = refl
  length-set_if_delay (p ∷ ps) = ap suc (length-set_if_delay ps)

  -- While the network is down, a turn of delay_package_thread moves the oldest batch that the service has not taken, of 1 to 255 packets, from the shared list to the end of its own, each packet marked with the channel of the service; the oldest batch of 64 goes for it. The well-formedness of its list is kept.
  pub delay_package_thread_moves :
      (i : ℕ) (buffer : List P) (l : RxPktsList P) (delayed : DelayPktList P) (p : List P)
      (ps : List (List P))
      → i < 7
      → All IsCountedRx l.entries
      → pending i l.entries ≡ p ∷ ps
      → 1 ≤ length p
      → length p ≤ 255
      → IsValid delayed
      → (let (l', delayed') =
            delay_package_thread set_if_delay false (stamp_of i) buffer l delayed in
          (pending i l'.entries ≡ ps)
          × IsValid delayed'
          × (delayed.size < 64 → batches delayed' ≡ batches delayed ++ (map set_if_delay p ∷ []))
          × (64 ≤ delayed.size
              → batches delayed' ≡ drop 1 (batches delayed ++ (map set_if_delay p ∷ []))))
  unfolding delay_package_thread
  delay_package_thread_moves i buffer l delayed p ps h counted queue some few v =
      let (serves, _, _) = get_rxpkt-Serves i buffer l h counted in
      let (ret, filled, rest) =
        subst (λ q. Serves i buffer l.entries q (got i buffer l)) queue serves in
      let low : u8 (length p) ≡ length p = omega arith in
      let whole : take (length p) (p ++ drop (length p) buffer) ≡ p =
        take-append (length p) p (drop (length p) buffer) refl in
      let e : DelayPkt P = record { rxpkt = map set_if_delay p; nb_pkt = length p } in
      let (kept, room, over) = delay_pkt_store_lem e delayed (sym (length-set_if_delay p)) v in
      rw (ret, ==_false (length p) 0 (λ z. omega (arith, z)), filled, whole, low)
        (rest, kept, room, over)
