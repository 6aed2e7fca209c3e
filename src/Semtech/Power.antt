-- ===== src/Semtech/Power.antt =====
-- The row of the gain table for a transmit power, `get_tx_gain_lut_index`.
-- A power is the bit pattern of an `int8_t`; a table is the list of its powers.
use dragino_fwd_src_lps8_mqt.Base.{
  ℕ, suc, ◌+◌, ◌-◌, ◌≤◌, ◌<◌, ◌≡◌, refl, sym, ap, ◌∙◌, ◌⊎◌, inl, inr, Bool, true, false, List, [],
  ◌∷◌, Option, none, some, ltb, if◌then◌else◌, arith, length, get_or, u8, Bool-cases, ltb→lt,
}
use mathlib.Core.Path.{subst}

-- The order of the signed values.
abbrev pub level : ℕ → ℕ
level power = u8 (power + 128)

-- `current_best_index` (-1 is `none`) with `current_best_match`. The difference of two `int8_t` that
-- is not negative fits in the `uint8_t`.
abbrev Best : Type 0
Best = Option (ℕ × ℕ)

abbrev nearer : Best → ℕ → Bool
nearer none diff = true
nearer (some (index, gap)) diff = ltb diff gap

unfoldable pub improve : (rf_power pow_index power : ℕ) → Option (ℕ × ℕ) → Option (ℕ × ℕ)
improve rf_power pow_index power best =
    let diff = level rf_power - level power in
    if ltb (level rf_power) (level power)
    then best
    else if nearer best diff
    then some (pow_index, diff)
    else best

unfoldable pub search_lut : (rf_power pow_index : ℕ) → List ℕ → Option (ℕ × ℕ) → Option (ℕ × ℕ)
unfolding improve
search_lut rf_power pow_index [] best = best
search_lut rf_power pow_index (power ∷ lut) best =
    search_lut rf_power (suc pow_index) lut (improve rf_power pow_index power best)

abbrev found : Option (ℕ × ℕ) → Bool × ℕ
found none = (false, 0)
found (some (index, gap)) = (true, index)

-- Whether 0 is returned, and `*lut_index`.
unfoldable pub get_tx_gain_lut_index : List ℕ → ℕ → Bool × ℕ
unfolding search_lut
get_tx_gain_lut_index lut rf_power = found (search_lut rf_power 0 lut none)

-- The best of the first rows: its power is the highest one that is not above the wanted one.
abbrev IsBest : (rf_power : ℕ) → (row : ℕ → ℕ) → (n : ℕ) → Best → Type 0
IsBest rf_power row n none = (j : ℕ) → j < n → level rf_power < level (row j)
IsBest rf_power row n (some (i, gap)) =
    (i < n)
    × (level (row i) ≤ level rf_power)
    × (gap ≡ level rf_power - level (row i))
    × ((j : ℕ) → j < n → level (row j) ≤ level rf_power → level (row j) ≤ level (row i))

last_or : (j n : ℕ) → j < suc n → (j < n) ⊎ (j ≡ n)
last_or j n h = omega arith

module _ (rf_power : ℕ) (row : ℕ → ℕ) where
  improve-IsBest :
      (n : ℕ) (best : Best)
      → IsBest rf_power row n best
      → IsBest rf_power row (suc n) (improve rf_power n (row n) best)
  unfolding improve
  improve-IsBest n none h = elim (Bool-cases (ltb (level rf_power) (level (row n)))) [
    | inl high ↦
        rw high λ j below. elim (last_or j n below) [
          | inl old ↦ h j old
          | inr new ↦ rw new (ground arith)
        ]
    | inr low ↦ rw low (
      omega arith,
      ground arith,
      refl,
      λ j below fits. elim (last_or j n below) [
        | inl old ↦ absurd (omega (arith, h j old))
        | inr new ↦ rw new (omega arith)
      ],
    )
  ]
  improve-IsBest n (some (i, gap)) (known, fit, is_gap, top) =
      elim (Bool-cases (ltb (level rf_power) (level (row n)))) [
        | inl high ↦ rw high (
          omega (arith, known),
          fit,
          is_gap,
          λ j below fits. elim (last_or j n below) [
            | inl old ↦ top j old fits
            | inr new ↦ absurd (ground (arith, new))
          ],
        )
        | inr low ↦ elim (Bool-cases (ltb (level rf_power - level (row n)) gap)) [
          | inl near ↦
              rw (low, near)
                (
                  omega arith,
                  ground arith,
                  refl,
                  λ j below fits. elim (last_or j n below) [
                    | inl old ↦
                        (let l = top j old fits in omega (arith, l, is_gap, ltb→lt _ _ near))
                    | inr new ↦ rw new (omega arith)
                  ],
                )
          | inr far ↦
              rw (low, far)
                (
                  omega (arith, known),
                  fit,
                  is_gap,
                  λ j below fits. elim (last_or j n below) [
                    | inl old ↦ top j old fits
                    | inr new ↦ rw new (ground (arith, far, is_gap))
                  ],
                )
        ]
      ]

  search_lut-IsBest :
      (n : ℕ) (rest : List ℕ) (best : Best)
      → ((k : ℕ) → k < length rest → get_or rest k 0 ≡ row (n + k))
      → IsBest rf_power row n best
      → IsBest rf_power row (n + length rest) (search_lut rf_power n rest best)
  unfolding search_lut
  search_lut-IsBest n [] best rows h = subst (λ (m : ℕ). IsBest rf_power row m best) (omega arith) h
  search_lut-IsBest n (x ∷ rest) best rows h =
      let here : x ≡ row n = rows 0 (omega arith) ∙ ap row (omega arith) in
      let first =
        subst (λ v. IsBest rf_power row (suc n) (improve rf_power n v best)) (sym here)
          (improve-IsBest n best h) in
      subst
        (λ (m : ℕ).
          IsBest rf_power row m (search_lut rf_power (suc n) rest (improve rf_power n x best)))
        (omega arith)
        (search_lut-IsBest (suc n) rest (improve rf_power n x best)
          (λ k below. rows (suc k) (omega arith) ∙ ap row (omega arith)) first)

-- The answer names a best row, or every row is too high.
abbrev pub Answers : List ℕ → ℕ → Bool × ℕ → Type 0
Answers lut rf_power answer =
    ((i : ℕ) × (answer ≡ (true, i))
      × (i < length lut)
      × (level (get_or lut i 0) ≤ level rf_power)
      × ((j : ℕ)
          → j < length lut
          → level (get_or lut j 0) ≤ level rf_power
          → level (get_or lut j 0) ≤ level (get_or lut i 0)))
    ⊎ ((answer ≡ (false, 0)) × ((j : ℕ) → j < length lut → level rf_power < level (get_or lut j 0)))

found-Answers :
    (lut : List ℕ) (rf_power : ℕ) (best : Best)
    → IsBest rf_power (λ j. get_or lut j 0) (0 + length lut) best
    → Answers lut rf_power (found best)
found-Answers lut rf_power none h = inr (refl, λ j below. h j (omega arith))
found-Answers lut rf_power (some (i, gap)) (known, fit, is_gap, top) =
    inl (i, refl, omega arith, fit, λ j below. top j (omega arith))

-- get_tx_gain_lut_index succeeds with the row of the highest power that is not above the wanted one, in the order of signed bytes; when every row is above it, it fails with row 0.
pub get_tx_gain_lut_index_best :
    (lut : List ℕ) (rf_power : ℕ) → Answers lut rf_power (get_tx_gain_lut_index lut rf_power)
unfolding get_tx_gain_lut_index
get_tx_gain_lut_index_best lut rf_power =
    found-Answers lut rf_power (search_lut rf_power 0 lut none) (
      search_lut-IsBest rf_power (λ (j : ℕ). get_or lut j 0) 0 lut none
        (λ k below. ap (λ (j : ℕ). get_or lut j 0) (omega arith)) (λ j below. absurd (omega arith)))
