-- ===== src/Delay/Queue.antt =====
-- The queue of batches that both stores stand for.
use dragino_fwd_src_lps8_mqt.Base.{
  ℕ, ◌-◌, ◌<◌, ◌≤◌, ◌≡◌, refl, inl, inr, List, [], ◌∷◌, ◌++◌, if◌then◌else◌, leb, le→leb, gt→leb,
  length, length-append, arith, leb_cases,
}

module _ {ℓ} {P : Type ℓ} where
  -- What is given out for at most so many packets, and what stays: whole batches from the head, up
  -- to the first that does not fit.
  unfoldable pub fits : ℕ → List (List P) → List P × List (List P)
  fits room [] = ([], [])
  fits room (b ∷ bs) =
      let (given, rest) = fits (room - length b) bs in
      if leb (length b) room then (b ++ given, rest) else ([], b ∷ bs)

  pub fits-nil : (room : ℕ) → fits room [] ≡ ([], [])
  unfolding fits
  fits-nil room = refl

  pub fits-take :
      (room : ℕ) (b : List P) (bs : List (List P))
      → length b ≤ room
      → fits room (b ∷ bs) ≡ (b ++ (fits (room - length b) bs).0, (fits (room - length b) bs).1)
  unfolding fits
  fits-take room b bs h = rw (le→leb (length b) room h) refl

  pub fits-stop :
      (room : ℕ) (b : List P) (bs : List (List P))
      → room < length b
      → fits room (b ∷ bs) ≡ ([], b ∷ bs)
  unfolding fits
  fits-stop room b bs h = rw (gt→leb (length b) room h) refl

  pub fits-within : (room : ℕ) (bs : List (List P)) → length (fits room bs).0 ≤ room
  unfolding fits
  fits-within room [] = omega arith
  fits-within room (b ∷ bs) = elim (leb_cases (length b) room) [
    | inl small ↦ rw (le→leb (length b) room small) (
        omega
          (arith, length-append b (fits (room - length b) bs).0, fits-within (room - length b) bs))
    | inr large ↦ rw (gt→leb (length b) room large) (omega arith)
  ]
