-- ===== src/Semtech/Supported.antt =====
-- The power that a downlink is sent with, against the rows of the gain table.
use dragino_fwd_src_lps8_mqt.Base.{
  ℕ, ◌≤◌, ◌<◌, ◌≡◌, refl, ◌≢◌, ◌⊎◌, inl, inr, List, ◌==◌, ==_iff, length, get_or, Bool-cases,
}
use mathlib.Core.Path.{subst}
use dragino_fwd_src_lps8_mqt.Jit.Types.{TxPkt, JitError, ok, tx_power}
use dragino_fwd_src_lps8_mqt.Semtech.Power.{level, get_tx_gain_lut_index_best}
use dragino_fwd_src_lps8_mqt.Semtech.Downlink.{widened, check_power}

-- A power of the table that is not above the wanted one, and the highest such one.
abbrev pub Closest : List ℕ → (wanted power : ℕ) → Type 0
Closest lut wanted power =
    (i : ℕ) × (i < length lut)
    × (get_or lut i 0 ≡ power)
    × (level power ≤ level wanted)
    × ((j : ℕ)
        → j < length lut
        → level (get_or lut j 0) ≤ level wanted
        → level (get_or lut j 0) ≤ level power)

-- The power is not the wanted one: a lower one is the closest, or all are too high and it is the
-- one of the first row.
abbrev pub Replaces : List ℕ → (wanted power : ℕ) → Type 0
Replaces lut wanted power =
    (Closest lut wanted power × (power ≢ wanted))
    ⊎ (((j : ℕ) → j < length lut → level wanted < level (get_or lut j 0))
        × (power ≡ get_or lut 0 0))

-- The warning with its value, and the packet with its power.
abbrev pub Powered : List ℕ → TxPkt → JitError × ℕ × TxPkt → Type 0
Powered lut p (warning, value, p') =
    (Closest lut p.rf_power p.rf_power × (warning ≡ ok) × (value ≡ 0) × (p' ≡ p))
    ⊎ ((power : ℕ) × Replaces lut p.rf_power power
        × (warning ≡ tx_power)
        × (value ≡ widened power)
        × (p' ≡ record p { rf_power = power }))

-- A downlink whose power the table has goes out with it and without a warning; for any other the power is the highest one below it, or the one of the first row when all are above it, and the warning names that power.
pub check_power-Powered : (lut : List ℕ) (p : TxPkt) → Powered lut p (check_power lut p)
unfolding check_power
check_power-Powered lut p = elim (get_tx_gain_lut_index_best lut p.rf_power) [
  | inr (failed, high) ↦ rw (failed) (inr (get_or lut 0 0, inr (high, refl), refl, refl, refl))
  | inl (i, found, known, fits, top) ↦ elim (Bool-cases (get_or lut i 0 == p.rf_power)) [
    | inl same ↦
        let e : get_or lut i 0 ≡ p.rf_power = (==_iff _ _).0 same in
        rw (found, same)
          (inl (subst (Closest lut p.rf_power) e (i, known, refl, fits, top), refl, refl, refl))
    | inr other ↦
        rw (found, other)
          (inr (
            get_or lut i 0,
            inl ((i, known, refl, fits, top), λ q. absurd (cc (other, (==_iff _ _).1 q))),
            refl,
            refl,
            refl,
          ))
  ]
]
