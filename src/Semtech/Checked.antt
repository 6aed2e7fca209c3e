-- ===== src/Semtech/Checked.antt =====
-- What a downlink is that passes the reading of `txpk`.
use dragino_fwd_src_lps8_mqt.Base.{
  ℕ, ◌+◌, ◌++◌, drop, sym, ◌∙◌, ap, ◌^◌, ◌≤◌, ◌<◌, ◌≡◌, refl, ◌⊎◌, inl, inr, Bool, true, false,
  List, Option, none, some, ltb, if◌then◌else◌, arith, u16, Bool-cases,
}
use mathlib.Core.Path.{subst}
use dragino_fwd_src_lps8_mqt.Base.Text.{codes, same_text}
use dragino_fwd_src_lps8_mqt.Base64.{Coded, done, fails, exits, b64_to_bin}
use dragino_fwd_src_lps8_mqt.Jit.Types.{
  TxPkt, PktType, downlink_class_a, downlink_class_b, downlink_class_c,
}
use dragino_fwd_src_lps8_mqt.Semtech.Txpk.{
  Txpk, Readers, Read, aborted, unlocked, exited, undefined, ready, ◌>>=◌, required, preamble_of,
  spreading_factor, bandwidth_of, coderate_of, gps_count, timed, read_time, read_lora, read_fsk,
  read_modulation, append_time_diff, put_payload, read_payload, mode_of, base_pkt, read_txpk,
}

-- A property of the result, where there is one.
abbrev Holds {ℓ} : {A : Type ℓ} → (A → Type 0) → Read A → Type 0
Holds P aborted = Unit
Holds P unlocked = Unit
Holds P exited = Unit
Holds P undefined = Unit
Holds P (ready a) = P a

>>=-Holds {ℓ κ} :
    {A : Type ℓ} {B : Type κ} (P : A → Type 0) (Q : B → Type 0) (m : Read A) (f : A → Read B)
    → Holds P m
    → ((a : A) → P a → Holds Q (f a))
    → Holds Q (m >>= f)
>>=-Holds P Q aborted f h k = tt
>>=-Holds P Q unlocked f h k = tt
>>=-Holds P Q exited f h k = tt
>>=-Holds P Q undefined f h k = tt
>>=-Holds P Q (ready a) f h k = k a h

Holds-weaken {ℓ} :
    {A : Type ℓ} (P Q : A → Type 0) (m : Read A) → Holds P m → ((a : A) → P a → Q a) → Holds Q m
Holds-weaken P Q aborted h k = tt
Holds-weaken P Q unlocked h k = tt
Holds-weaken P Q exited h k = tt
Holds-weaken P Q undefined h k = tt
Holds-weaken P Q (ready a) h k = k a h

if-Holds {ℓ} :
    {A : Type ℓ} (P : A → Type 0) (b : Bool) (m n : Read A)
    → Holds P m
    → Holds P n
    → Holds P (if b then m else n)
if-Holds P true m n h k = h
if-Holds P false m n h k = k

required-Holds {ℓ κ} :
    {A : Type ℓ} {B : Type κ} (Q : B → Type 0) (o : Option A) (f : A → Read B)
    → ((a : A) → o ≡ some a → Holds Q (f a))
    → Holds Q (required o >>= f)
required-Holds Q none f k = tt
required-Holds Q (some a) f k = k a refl

-- The settings of the modulation are ones that the HAL knows, and the preamble is not too short.
abbrev pub IsTransmittable : TxPkt → Type 0
IsTransmittable p =
    ((p.modulation ≡ 0x10)
      × (5 ≤ p.datarate)
      × (p.datarate ≤ 12)
      × (4 ≤ p.bandwidth)
      × (p.bandwidth ≤ 6)
      × (1 ≤ p.coderate)
      × (p.coderate ≤ 4)
      × (6 ≤ p.preamble))
    ⊎ ((p.modulation ≡ 0x20) × (3 ≤ p.preamble))

spreading_factor-Holds : (x0 : ℕ) → Holds (λ d. (5 ≤ d) × (d ≤ 12)) (spreading_factor x0)
unfolding spreading_factor
spreading_factor-Holds x0 = ground arith

bandwidth_of-Holds : (x1 : ℕ) → Holds (λ b. (4 ≤ b) × (b ≤ 6)) (bandwidth_of x1)
unfolding bandwidth_of
bandwidth_of-Holds x1 = ground arith

coderate_of-Holds : (str : List ℕ) → Holds (λ c. (1 ≤ c) × (c ≤ 4)) (coderate_of str)
unfolding coderate_of
coderate_of-Holds str = ground arith

-- A preamble length in the JSON that the cast to `uint16_t` keeps.
abbrev pub PreambleFits : Option ℕ → Type 0
PreambleFits prea = (i : ℕ) → prea ≡ some i → i < 2 ^ 16

preamble-le :
    (least standard : ℕ) (prea : Option ℕ)
    → PreambleFits prea
    → least ≤ standard
    → least ≤ preamble_of least standard prea
unfolding preamble_of
preamble-le least standard none fits h = h
preamble-le least standard (some i) fits h = let small = fits i refl in ground arith

-- The time and the class of a downlink come from the first of "imme", "tmst" and "tmms" that is there.
abbrev pub IsTimed : {M : Type 0} → Readers M → Txpk M → ℕ → PktType → Type 0
IsTimed {M} readers txpk count_us t =
    ((txpk.imme ≡ true) × (t ≡ downlink_class_c))
    ⊎ ((txpk.imme ≡ false)
        × (((txpk.tmst ≡ some count_us) × (t ≡ downlink_class_a))
            ⊎ ((txpk.tmst ≡ none)
                × (t ≡ downlink_class_b)
                × (m : M) × (txpk.tmms ≡ some m)
                × (gps_count readers readers.gps2cnt m ≡ ready count_us))))

module _ {M : Type 0} (readers : Readers M) (txpk : Txpk M) where
  open readers use {gps2cnt, td_enabled}

  abbrev Timed : Option ℕ → Option M → ℕ × PktType → Type 0
  Timed tmst tmms c =
      ((tmst ≡ some c.0) × (c.1 ≡ downlink_class_a))
      ⊎ ((tmst ≡ none)
          × (c.1 ≡ downlink_class_b)
          × (m : M) × (tmms ≡ some m)
          × (gps_count readers gps2cnt m ≡ ready c.0))

  gps-Holds :
      (m : M) (r : Read ℕ)
      → gps_count readers gps2cnt m ≡ r
      → Holds (Timed none (some m)) (r >>= (λ count_us. ready (count_us, downlink_class_b)))
  gps-Holds m aborted e = tt
  gps-Holds m unlocked e = tt
  gps-Holds m exited e = tt
  gps-Holds m undefined e = tt
  gps-Holds m (ready a) e = inr (refl, refl, m, refl, e)

  timed-Holds :
      (tmst : Option ℕ) (tmms : Option M) → Holds (Timed tmst tmms) (timed readers tmst tmms)
  timed-Holds (some count_us) tmms = inl (refl, refl)
  timed-Holds none none = tt
  timed-Holds none (some m) = gps-Holds m (gps_count readers gps2cnt m) refl

  read_time-Holds :
      Holds (λ (c : ℕ × PktType). IsTimed readers txpk c.0 c.1) (read_time readers txpk)
  unfolding read_time
  read_time-Holds = elim (Bool-cases txpk.imme) [
    | inl now ↦ rw now (inl (refl, refl))
    | inr later ↦ rw later (
        Holds-weaken _ _ (timed readers txpk.tmst txpk.tmms) (timed-Holds txpk.tmst txpk.tmms)
          λ c known. inr (refl, known))
  ]

module _ {M : Type 0} (readers : Readers M) (txpk : Txpk M) (fits : PreambleFits txpk.prea)
    (count_us freq_hz rf_chain : ℕ) where
  -- What later steps do not change.
  abbrev Settled : TxPkt → Type 0
  Settled p = (p.count_us ≡ count_us) × (p.freq_hz ≡ freq_hz) × (p.rf_chain ≡ rf_chain)

  read_lora-Holds :
      (p : TxPkt)
      → Settled p
      → Holds (λ p'. IsTransmittable p' × Settled p') (read_lora readers txpk p)
  unfolding read_lora
  read_lora-Holds p settled = required-Holds _ txpk.datr _ λ str given.
      required-Holds _ (readers.scan_datr str) _ λ rates given.
        >>=-Holds _ _ (spreading_factor rates.0) _ (spreading_factor-Holds rates.0) λ datarate d.
          >>=-Holds _ _ (bandwidth_of rates.1) _ (bandwidth_of-Holds rates.1) λ bandwidth b.
            required-Holds _ txpk.codr _ λ rate given.
              >>=-Holds _ _ (coderate_of rate) _ (coderate_of-Holds rate) λ coderate c. (
                inl (
                  refl,
                  d.0,
                  d.1,
                  b.0,
                  b.1,
                  c.0,
                  c.1,
                  preamble-le 6 8 txpk.prea fits (omega arith),
                ),
                settled,
              )

  read_fsk-Holds :
      (p : TxPkt)
      → Settled p
      → Holds (λ p'. IsTransmittable p' × Settled p') (read_fsk readers txpk p)
  unfolding read_fsk
  read_fsk-Holds p settled = required-Holds _ txpk.bitrate _ λ datarate given.
      required-Holds _ txpk.fdev _
        λ f_dev given. (inr (refl, preamble-le 3 4 txpk.prea fits (omega arith)), settled)

  read_modulation-Holds :
      (p : TxPkt)
      → Settled p
      → Holds (λ p'. IsTransmittable p' × Settled p') (read_modulation readers txpk p)
  unfolding read_modulation
  read_modulation-Holds p settled = required-Holds _ txpk.modu _ λ str given.
      if-Holds _ (same_text str (codes "LORA")) _ _ (read_lora-Holds p settled)
        (if-Holds _ (same_text str (codes "FSK")) _ _ (read_fsk-Holds p settled) tt)

  append_time_diff-Holds :
      (i : ℕ) (p : TxPkt)
      → IsTransmittable p
      → Settled p
      → Holds (λ p'. IsTransmittable p' × Settled p') (append_time_diff readers i p)
  unfolding append_time_diff
  append_time_diff-Holds i p sendable settled =
      if-Holds _ (ltb 255 (u16 (p.size + 3))) _ _ tt (sendable, settled)

  put_payload-Holds :
      (coded : Coded) (p : TxPkt)
      → IsTransmittable p
      → Settled p
      → Holds (λ p'. IsTransmittable p' × Settled p') (put_payload readers coded p)
  put_payload-Holds (done i out) p sendable settled =
      if-Holds _ readers.td_enabled _ _
        (append_time_diff-Holds i (record p { payload = out ++ drop i p.payload }) sendable settled)
        (sendable, settled)
  put_payload-Holds fails p sendable settled =
      if-Holds _ readers.td_enabled _ _ tt (sendable, settled)
  put_payload-Holds exits p sendable settled = tt

  read_payload-Holds :
      (p : TxPkt)
      → IsTransmittable p
      → Settled p
      → Holds (λ p'. IsTransmittable p' × Settled p') (read_payload readers txpk p)
  unfolding read_payload
  read_payload-Holds p sendable settled = required-Holds _ txpk.size _ λ size given.
      required-Holds _ txpk.encoded _ λ str given.
        put_payload-Holds (b64_to_bin str 256) (record p { size = size }) sendable settled

module _ {M : Type 0} (readers : Readers M) (txpk : Txpk M) where
  -- What the reading promises of a packet and its class.
  abbrev pub IsRequested : TxPkt → PktType → Type 0
  IsRequested p t =
      IsTransmittable p
      × IsTimed readers txpk p.count_us t
      × (txpk.freq ≡ some p.freq_hz)
      × (txpk.rfch ≡ some p.rf_chain)
      × (p.tx_mode ≡ mode_of readers txpk.imme)

module _ {M : Type 0} (readers : Readers M) (txpk : Txpk M) (fits : PreambleFits txpk.prea) where
  read_txpk-Holds :
      Holds (λ (r : TxPkt × PktType). IsRequested readers txpk r.0 r.1) (read_txpk readers txpk)
  unfolding read_txpk
  read_txpk-Holds =
      >>=-Holds _ _ (read_time readers txpk) _ (read_time-Holds readers txpk) λ time timed.
        required-Holds _ txpk.freq _ λ freq_hz at_freq.
          required-Holds _ txpk.rfch _ λ rf_chain at_chain.
            >>=-Holds _ _
              (read_modulation readers txpk (base_pkt readers txpk time.0 freq_hz rf_chain)) _
              (read_modulation-Holds readers txpk fits time.0 freq_hz rf_chain
                (base_pkt readers txpk time.0 freq_hz rf_chain) (refl, refl, refl))
              λ p m.
                >>=-Holds _ _ (read_payload readers txpk p) _
                  (read_payload-Holds readers txpk fits time.0 freq_hz rf_chain p m.0 m.1)
                  λ p' m'.
                    let (sendable, (at, freq, chain)) = m' in
                    (
                      sendable,
                      subst (λ (n : ℕ). IsTimed readers txpk n time.1) (sym at) timed,
                      at_freq ∙ ap some (sym freq),
                      at_chain ∙ ap some (sym chain),
                      refl,
                    )

  -- A downlink that passes the reading, with a preamble length below 2^16, has a spreading factor from 5 to 12, a bandwidth and a coding rate of the HAL and a preamble of at least 6 symbols, or is FSK with a preamble of at least 3; its time and class come from "imme", else from "tmst", else from "tmms" by the GPS reference; its frequency and chain are the ones asked for, and only an "imme" downlink is sent in immediate mode.
  pub read_txpk-IsRequested :
      (p : TxPkt) (t : PktType)
      → read_txpk readers txpk ≡ ready (p, t)
      → IsRequested readers txpk p t
  read_txpk-IsRequested p t e =
      subst (Holds (λ (r : TxPkt × PktType). IsRequested readers txpk r.0 r.1)) e read_txpk-Holds
