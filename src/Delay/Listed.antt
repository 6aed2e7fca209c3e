-- ===== src/Delay/Listed.antt =====
-- The list of delayed packets as a queue.
use dragino_fwd_src_lps8_mqt.Base.{
  ℕ, ◌+◌, ◌-◌, ◌<◌, ◌≤◌, ◌≡◌, refl, ap, ◌∙◌, inl, inr, true, false, List, [], ◌∷◌, ◌++◌, map,
  lt→ltb, ge→ltb, le→leb, gt→leb, u8, length, length-append, take, drop, take-length, arith,
  leb_cases, All, All-append,
}
use dragino_fwd_src_lps8_mqt.Delay.{
  DelayPkt, DelayPktList, Status, refuses, take_entries, delay_pkt_get, delay_pkt_store, drop_head,
}
use dragino_fwd_src_lps8_mqt.Delay.Queue.{fits}

module _ {ℓ} {P : Type ℓ} where
  -- An entry counts its packets.
  abbrev pub IsCounted : DelayPkt P → Type 0
  IsCounted e = e.nb_pkt ≡ length e.rxpkt

  abbrev pub IsValid : DelayPktList P → Type 0
  IsValid l = (l.size ≡ length l.entries) × All IsCounted l.entries

  abbrev pub batches : DelayPktList P → List (List P)
  batches l = map (λ e. e.rxpkt) l.entries

  -- What a call leaves for a list that stands for the queue.
  abbrev pub Gives : ℕ → List (List P) → List P × ℕ × DelayPktList P → Type ℓ
  Gives room queue (written, ret, l) =
      (written ≡ (fits room queue).0)
      × (ret ≡ length (fits room queue).0)
      × (batches l ≡ (fits room queue).1)
      × IsValid l

  -- The same with packets that are there already.
  abbrev GivesMore : (room nb : ℕ) → List (List P) → List P × ℕ × DelayPktList P → Type ℓ
  GivesMore room nb queue (written, ret, l) =
      (written ≡ (fits room queue).0)
      × (ret ≡ nb + length (fits room queue).0)
      × (batches l ≡ (fits room queue).1)
      × IsValid l

  take_entries-GivesMore :
      (max_pkt nb room : ℕ) (es : List (DelayPkt P)) (size : ℕ)
      → max_pkt ≤ 255
      → nb + room ≡ max_pkt
      → size ≡ length es
      → All IsCounted es
      → GivesMore room nb (map (λ e. e.rxpkt) es) (take_entries max_pkt nb es size)
  unfolding take_entries fits
  take_entries-GivesMore max_pkt nb room [] size small sum at v =
      (refl, omega arith, refl, (at, tt))
  take_entries-GivesMore max_pkt nb room (e ∷ es) size small sum at (c, v) =
      elim (leb_cases (nb + e.nb_pkt) max_pkt) [
        | inl fit ↦
            let next : u8 (nb + e.nb_pkt) ≡ nb + length e.rxpkt = omega arith in
            let whole : take e.nb_pkt e.rxpkt ≡ e.rxpkt =
              ap (λ (m : ℕ). take m e.rxpkt) c ∙ take-length e.rxpkt in
            let left = room - length e.rxpkt in
            let (a, b, q, s) =
              take_entries-GivesMore max_pkt (nb + length e.rxpkt) left es (size - 1) small
                (omega arith) (omega arith) v in
            let given = (fits left (map (λ d. d.rxpkt) es)).0 in
            rw
              (
                ge→ltb max_pkt (nb + e.nb_pkt) fit,
                le→leb (length e.rxpkt) room (omega arith),
                next,
                whole,
              )
              (ap (λ t. e.rxpkt ++ t) a, omega (arith, b, length-append e.rxpkt given), q, s)
        | inr over ↦
            rw (lt→ltb max_pkt (nb + e.nb_pkt) over, gt→leb (length e.rxpkt) room (omega arith))
              (refl, omega arith, refl, (at, (c, v)))
      ]

  nothing : (es : List (DelayPkt P)) → length es ≡ 0 → map (λ e. e.rxpkt) es ≡ []
  nothing [] h = refl
  nothing (e ∷ es) h = absurd (omega arith)

  -- While the network is up and the service alive, delay_pkt_get of at most 255 packets takes from the list what the queue of its batches gives out, whole batches from the oldest on, up to the first that does not fit; it returns their number of packets and leaves the others in order. Otherwise it gives none and changes nothing.
  pub delay_pkt_get-Gives :
      (status : Status) (max_pkt : ℕ) (l : DelayPktList P)
      → max_pkt ≤ 255
      → IsValid l
      → ((refuses status max_pkt ≡ true) → delay_pkt_get status max_pkt l ≡ ([], 0, l))
        × ((refuses status max_pkt ≡ false)
            → Gives max_pkt (batches l) (delay_pkt_get status max_pkt l))
  unfolding delay_pkt_get fits
  delay_pkt_get-Gives status max_pkt l small (at, v) = (
    (λ no. rw no refl),
    (λ yes. elim (leb_cases l.size 0) [
      | inl empty ↦
          rw (yes, lt→ltb l.size 1 (omega arith), nothing l.entries (omega arith))
            (refl, refl, refl, (at, v))
      | inr more ↦
          let (a, b, q, s) =
            take_entries-GivesMore max_pkt 0 max_pkt l.entries l.size small (omega arith) at v in
          rw (yes, ge→ltb l.size 1 (omega arith)) (a, omega (arith, b), q, s)
    ]),
  )

  map-append :
      (ds es : List (DelayPkt P))
      → map (λ e. e.rxpkt) (ds ++ es) ≡ map (λ e. e.rxpkt) ds ++ map (λ e. e.rxpkt) es
  map-append [] es = refl
  map-append (d ∷ ds) es = ap (λ t. d.rxpkt ∷ t) (map-append ds es)

  drop_head-All : (es : List (DelayPkt P)) → All IsCounted es → All IsCounted (drop_head es)
  unfolding drop_head
  drop_head-All [] v = tt
  drop_head-All (e ∷ es) (c, v) = v

  length-drop_head : (es : List (DelayPkt P)) → length (drop_head es) ≡ length es - 1
  unfolding drop_head
  length-drop_head [] = refl
  length-drop_head (e ∷ es) = omega arith

  map-drop_head :
      (es : List (DelayPkt P)) → map (λ e. e.rxpkt) (drop_head es) ≡ drop 1 (map (λ e. e.rxpkt) es)
  unfolding drop_head
  map-drop_head [] = refl
  map-drop_head (e ∷ es) = refl

  -- A new entry comes last; the 65th makes the first one go.
  pub delay_pkt_store_lem :
      (e : DelayPkt P) (l : DelayPktList P)
      → IsCounted e
      → IsValid l
      → IsValid (delay_pkt_store e l)
        × (l.size < 64 → batches (delay_pkt_store e l) ≡ batches l ++ (e.rxpkt ∷ []))
        × (64 ≤ l.size → batches (delay_pkt_store e l) ≡ drop 1 (batches l ++ (e.rxpkt ∷ [])))
  unfolding delay_pkt_store
  delay_pkt_store_lem e l c (at, v) =
      let all = l.entries ++ (e ∷ []) in
      let good = All-append IsCounted l.entries (e ∷ []) v (c, tt) in
      let long = length-append l.entries (e ∷ []) in
      elim (leb_cases (l.size + 1) 64) [
        | inl room ↦ rw (ge→ltb 64 (l.size + 1) room) (
          (omega (arith, long), good),
          (λ h. map-append l.entries (e ∷ [])),
          (λ h. absurd (omega arith)),
        )
        | inr over ↦ rw (lt→ltb 64 (l.size + 1) over) (
          (omega (arith, long, length-drop_head all), drop_head-All all good),
          (λ h. absurd (omega arith)),
          (λ h. map-drop_head all ∙ ap (drop 1) (map-append l.entries (e ∷ []))),
        )
      ]
