-- ===== src/Delay/Stored.antt =====
-- The table of delayed packets as the same queue.
use dragino_fwd_src_lps8_mqt.Base.{
  ℕ, zero, suc, ◌+◌, ◌-◌, ◌^◌, ◌<◌, ◌≤◌, ◌≡◌, refl, sym, ap, ◌∙◌, inl, inr, true, false, List, [],
  ◌∷◌, ◌++◌, map, lt→ltb, ge→ltb, le→leb, gt→leb, ◌==◌, u8, u32, length, length-append, take,
  take-length, arith, leb_cases, All, ==_false,
}
use dragino_fwd_src_lps8_mqt.Delay.{
  Row, Storage, Status, refuses, take_rows, delay_pkt_get_db, from_id, Above,
}
use dragino_fwd_src_lps8_mqt.Delay.Queue.{fits, fits-nil, fits-take, fits-stop}

module _ {ℓ} {P : Type ℓ} where
  -- A row counts its packets, of which there is at least one, and its id is no negative `int`.
  abbrev pub IsCounted : Row P → Type 0
  IsCounted r = (r.size ≡ length r.payload) × (1 ≤ r.size) × (r.id < 2 ^ 31)

  abbrev pub payloads : List (Row P) → List (List P)
  payloads rs = map (λ r. r.payload) rs

  fits-none :
      (room : ℕ) (rs : List (Row P)) → length rs ≡ 0 → fits room (payloads rs) ≡ ([], payloads rs)
  fits-none room [] h = fits-nil room
  fits-none room (r ∷ rs) h = absurd (omega arith)

  Above-weaken : (j k : ℕ) (rs : List (Row P)) → j ≤ k → Above k rs → Above j rs
  Above-weaken j k [] h a = tt
  Above-weaken j k (r ∷ rs) h (lo, a) = (omega arith, a)

  from_id-all : (k : ℕ) (rs : List (Row P)) → Above k rs → from_id (suc k) rs ≡ rs
  unfolding from_id
  from_id-all k [] a = refl
  from_id-all k (r ∷ rs) (lo, a) =
      rw (ge→ltb r.id (suc k) (omega arith))
        (ap (λ t. r ∷ t) (from_id-all k rs (Above-weaken k r.id rs (omega arith) a)))

  from_id-skip :
      (k : ℕ) (r : Row P) (rs : List (Row P)) → r.id < k → from_id k (r ∷ rs) ≡ from_id k rs
  unfolding from_id
  from_id-skip k r rs h = rw (lt→ltb r.id k h) refl

  -- The loop over at most `limit` rows, with `nb` packets and the id `id` so far.
  abbrev GivesRows : (room nb id : ℕ) → List (Row P) → List P × ℕ × ℕ → Type ℓ
  GivesRows room nb id rs (written, ret, last) =
      (written ≡ (fits room (payloads rs)).0)
      × (ret ≡ nb + length (fits room (payloads rs)).0)
      × (payloads (from_id (suc last) rs) ≡ (fits room (payloads rs)).1)
      × (id ≤ last)
      × (last < 2 ^ 31)

  stops :
      (room nb id : ℕ) (rs : List (Row P))
      → Above id rs
      → id < 2 ^ 31
      → fits room (payloads rs) ≡ ([], payloads rs)
      → GivesRows room nb id rs ([], nb, id)
  stops room nb id rs above low none_fits =
      rw (none_fits, from_id-all id rs above) (refl, omega arith, refl, omega arith, low)

  take_rows-GivesRows :
      (max_pkt nb room id limit : ℕ) (rs : List (Row P))
      → max_pkt ≤ 255
      → nb + room ≡ max_pkt
      → room ≤ limit
      → Above id rs
      → id < 2 ^ 31
      → All IsCounted rs
      → GivesRows room nb id rs (take_rows max_pkt nb id (take limit rs))
  unfolding take_rows
  take_rows-GivesRows max_pkt nb room id zero [] small sum few above low v =
      stops room nb id [] above low (fits-nil room)
  take_rows-GivesRows max_pkt nb room id (suc limit) [] small sum few above low v =
      stops room nb id [] above low (fits-nil room)
  take_rows-GivesRows max_pkt nb room id zero (r ∷ rs) small sum few above low ((c, some, h), v) =
      stops room nb id (r ∷ rs) above low (fits-stop room r.payload (payloads rs) (omega arith))
  take_rows-GivesRows max_pkt nb room id (suc limit) (r ∷ rs) small sum few (lo, above) low
        ((c, some, h), v) =
      elim (leb_cases (nb + r.size) max_pkt) [
        | inl fit ↦
            let next : u8 (nb + r.size) ≡ nb + length r.payload = omega arith in
            let whole : take r.size r.payload ≡ r.payload =
              ap (λ (m : ℕ). take m r.payload) c ∙ take-length r.payload in
            let left = room - length r.payload in
            let (a, b, q, up, top) =
              take_rows-GivesRows max_pkt (nb + length r.payload) left r.id limit rs small
                (omega arith) (omega arith) above h v in
            let last = (take_rows max_pkt (nb + length r.payload) r.id (take limit rs)).2 in
            let given = (fits left (payloads rs)).0 in
            rw
              (
                gt→leb max_pkt nb (omega arith),
                ge→ltb max_pkt (nb + r.size) fit,
                next,
                whole,
                fits-take room r.payload (payloads rs) (omega arith),
              )
              (
                ap (λ t. r.payload ++ t) a,
                omega (arith, b, length-append r.payload given),
                ap payloads (from_id-skip (suc last) r rs (omega (arith, up))) ∙ q,
                omega (arith, up),
                top,
              )
        | inr over ↦
            let stay =
              stops room nb id (r ∷ rs) (lo, above) low
                (fits-stop room r.payload (payloads rs) (omega arith)) in
            elim (leb_cases max_pkt nb) [
              | inl full ↦ rw (le→leb max_pkt nb full) stay
              | inr free ↦ rw (gt→leb max_pkt nb free, lt→ltb max_pkt (nb + r.size) over) stay
            ]
      ]

module _ {ℓ} {P : Type ℓ} (storage : Storage P) where
  open storage use {Table, rows, rows_above, rows_delete}

  -- While the network is up and the service alive, delay_pkt_get with a database gives out of the rows, of at least one packet each, what the queue of their batches gives out, and deletes exactly the rows that it gave out; for at most 255 packets. Otherwise it gives none and changes nothing.
  pub delay_pkt_get_db-fits :
      (status : Status) (max_pkt : ℕ) (t : Table)
      → max_pkt ≤ 255
      → All IsCounted (rows t)
      → ((refuses status max_pkt ≡ true) → delay_pkt_get_db storage status max_pkt t ≡ ([], 0, t))
        × ((refuses status max_pkt ≡ false)
            → (let (written, ret, t') = delay_pkt_get_db storage status max_pkt t in
                (written ≡ (fits max_pkt (payloads (rows t))).0)
                × (ret ≡ length (fits max_pkt (payloads (rows t))).0)
                × (payloads (rows t') ≡ (fits max_pkt (payloads (rows t))).1)))
  unfolding delay_pkt_get_db
  delay_pkt_get_db-fits status max_pkt t small v =
      let (a, b, q, up, top) =
        take_rows-GivesRows max_pkt 0 max_pkt 0 max_pkt (rows t) small (omega arith) (omega arith)
          (rows_above t) (omega arith) v in
      let last = (take_rows max_pkt 0 0 (take max_pkt (rows t))).2 in
      (
        (λ no. rw no refl),
        (λ yes. elim (leb_cases (length (rows t)) 0) [
          | inl empty ↦
              let none_there : (length (rows t) == 0) ≡ true = ground (arith, empty) in
              rw (yes, none_there, fits-none max_pkt (rows t) (omega arith)) (refl, refl, refl)
          | inr more ↦ elim (leb_cases last 0) [
            | inl none_taken ↦
                let zero_last : 0 ≡ last = omega arith in
                let same : rows t ≡ from_id (suc last) (rows t) =
                  sym (from_id-all 0 (rows t) (rows_above t))
                  ∙ ap (λ (k : ℕ). from_id (suc k) (rows t)) zero_last in
                rw
                  (
                    yes,
                    ==_false (length (rows t)) 0 (λ e. omega (arith, e)),
                    ge→ltb 0 last none_taken,
                  )
                  (a, omega (arith, b), ap payloads same ∙ q)
            | inr some_taken ↦
                let exact : u32 (last + 1) ≡ suc last = omega (arith, top) in
                rw
                  (
                    yes,
                    ==_false (length (rows t)) 0 (λ e. omega (arith, e)),
                    lt→ltb 0 last some_taken,
                    exact,
                  )
                  (a, omega (arith, b), ap payloads (rows_delete (suc last) t) ∙ q)
          ]
        ]),
      )
