-- ===== src/Semtech/Object.antt =====
-- The object of one packet in the datagram.
use dragino_fwd_src_lps8_mqt.Base.{
  ℕ, ◌+◌, ◌*◌, ◌/◌, ◌≤◌, ◌≡◌, refl, ap, ap₂, ◌∙◌, ◌≢◌, ◌⊎◌, inl, inr, List, [], ◌∷◌, ◌++◌, Option,
  none, some, ◌==◌, ltb, if◌then◌else◌, arith, length, take, All, take-append,
}
use dragino_fwd_src_lps8_mqt.Base.Text.{codes}
use dragino_fwd_src_lps8_mqt.Base64.{done, b64_to_bin}
use dragino_fwd_src_lps8_mqt.Base64.RoundTrip.{IsByte}
use dragino_fwd_src_lps8_mqt.Base64.Padding.{b64_round_trip}
use dragino_fwd_src_lps8_mqt.Semtech.{LgwPktRx}
use dragino_fwd_src_lps8_mqt.Semtech.Uplink.{stat_crc_ok, stat_crc_bad, stat_no_crc}
use dragino_fwd_src_lps8_mqt.Semtech.Fields.{
  Piece, jver, tmst, time, chan, rssis, lsnr, foff, bitrate, rssi_size, Wrote, goes, ◌>>◌, Format,
  printed, coded, datr_text, bandwidth_text, codr_text, stat_text, gps_text, time_text, lora_text,
  modulation_text, data_text, object, mod_lora, mod_fsk,
}

after : (a : List ℕ) {w : Wrote} {b : List ℕ} → w ≡ goes b → (goes a >> w) ≡ goes (a ++ b)
after a k = ap (λ x. goes a >> x) k

pub and_goes : {v w : Wrote} {a b : List ℕ} → v ≡ goes a → w ≡ goes b → (v >> w) ≡ goes (a ++ b)
and_goes h k = ap₂ (λ x y. x >> y) h k

printed_text : (t : List ℕ) → t ≢ [] → printed t ≡ goes t
printed_text [] h = absurd (h refl)
printed_text (c ∷ t) h = refl

-- Numbers below 20 in decimal.
abbrev pub small_decimal : ℕ → List ℕ
small_decimal n = if ltb n 10 then (48 + n) ∷ [] else b'1' ∷ (38 + n) ∷ []

-- The bandwidths 125 kHz, 250 kHz and 500 kHz.
abbrev pub kilohertz : ℕ → List ℕ
kilohertz bandwidth =
    if bandwidth == 4 then codes "125" else if bandwidth == 5 then codes "250" else codes "500"

abbrev pub coding_rate : ℕ → List ℕ
coding_rate coderate = if coderate == 0 then codes "OFF" else b'4' ∷ b'/' ∷ (52 + coderate) ∷ []

abbrev pub crc_mark : ℕ → List ℕ
crc_mark status =
    if status == stat_crc_ok
    then codes "1"
    else if status == stat_crc_bad
    then codes "-1"
    else codes "0"

datr_known :
    (n : ℕ) → 5 ≤ n → n ≤ 12 → datr_text n ≡ goes (codes ",\"datr\":\"SF" ++ small_decimal n)
unfolding datr_text
datr_known n h k = ground arith

bandwidth_known :
    (n : ℕ) → 4 ≤ n → n ≤ 6 → bandwidth_text n ≡ goes (codes "BW" ++ (kilohertz n ++ codes "\""))
unfolding bandwidth_text
bandwidth_known n h k = ground arith

codr_known :
    (n : ℕ) → n ≤ 4 → codr_text n ≡ goes (codes ",\"codr\":\"" ++ (coding_rate n ++ codes "\""))
unfolding codr_text
codr_known n h = ground arith

abbrev pub IsKnownStatus : ℕ → Type 0
IsKnownStatus status = (status ≡ stat_crc_ok) ⊎ ((status ≡ stat_crc_bad) ⊎ (status ≡ stat_no_crc))

pub stat_known : (n : ℕ) → IsKnownStatus n → stat_text n ≡ goes (codes ",\"stat\":" ++ crc_mark n)
unfolding stat_text
stat_known n (inl h) = rw h refl
stat_known n (inr (inl h)) = rw h refl
stat_known n (inr (inr h)) = rw h refl

-- A LoRa packet with a spreading factor, a bandwidth and a coding rate of the HAL, or an FSK packet.
abbrev pub IsLora : {F : Type 0} → LgwPktRx F → Type 0
IsLora p =
    (p.modulation ≡ mod_lora)
    × (5 ≤ p.datarate)
    × (p.datarate ≤ 12)
    × (4 ≤ p.bandwidth)
    × (p.bandwidth ≤ 6)
    × (p.coderate ≤ 4)

abbrev pub IsFsk : {F : Type 0} → LgwPktRx F → Type 0
IsFsk p = p.modulation ≡ mod_fsk

-- A packet as the HAL gives it.
pub record IsSerializable {F : Type 0} (p : LgwPktRx F) : Type 0 where
  pub known_modulation : IsLora p ⊎ IsFsk p
  pub known_status : IsKnownStatus p.status
  pub small : length (take p.size p.payload) ≤ 255
  pub bytes : All IsByte (take p.size p.payload)

module _ {F T : Type 0} (format : Format F T) where
  open format use {snprintf, roundf, gps_time}

  -- Every format has text besides its numbers, so `snprintf` always writes something.
  abbrev pub Prints : Type 0
  Prints = (piece : Piece F T) → snprintf piece ≢ []

  abbrev pub gps_fields : Option T → List ℕ
  gps_fields none = []
  gps_fields (some t) = snprintf (time t)

  abbrev pub time_from : Option (ℕ → Option T) → ℕ → T → List ℕ
  time_from none count_us now = snprintf (time now)
  time_from (some cnt2utc) count_us now = gps_fields (cnt2utc count_us)

  abbrev pub lora_fields : LgwPktRx F → List ℕ
  lora_fields p =
      codes ",\"modu\":\"LORA\""
      ++ ((codes ",\"datr\":\"SF" ++ small_decimal p.datarate)
          ++ ((codes "BW" ++ (kilohertz p.bandwidth ++ codes "\""))
              ++ ((codes ",\"codr\":\"" ++ (coding_rate p.coderate ++ codes "\""))
                  ++ (snprintf (rssis (roundf p.rssis))
                      ++ (snprintf (lsnr p.snr) ++ snprintf (foff p.freq_offset))))))

  abbrev pub fsk_fields : LgwPktRx F → List ℕ
  fsk_fields p = codes ",\"modu\":\"FSK\"" ++ snprintf (bitrate p.datarate)

  -- The fields in front of the payload; `modulated` are those of the modulation.
  abbrev pub fields : LgwPktRx F → T → (modulated text : List ℕ) → List ℕ
  fields p now modulated text =
      codes "{"
      ++ (snprintf (jver 1)
          ++ (snprintf (tmst p.count_us)
              ++ (time_from gps_time p.count_us now
                  ++ (snprintf (chan p.if_chain p.rf_chain p.freq_hz p.modem_id)
                      ++ ((codes ",\"stat\":" ++ crc_mark p.status)
                          ++ (modulated
                              ++ (snprintf (rssi_size (roundf p.rssic) p.size)
                                  ++ ((codes ",\"data\":\"" ++ text) ++ codes "\"}"))))))))

  module _ (prints : Prints) where
    pub wrote : (piece : Piece F T) → printed (snprintf piece) ≡ goes (snprintf piece)
    wrote piece = printed_text (snprintf piece) (prints piece)

    wrote_gps : (o : Option T) → gps_text format o ≡ goes (gps_fields o)
    wrote_gps none = refl
    wrote_gps (some t) = wrote (time t)

    pub wrote_time :
        (o : Option (ℕ → Option T)) (count_us : ℕ) (now : T)
        → time_text format o count_us now ≡ goes (time_from o count_us now)
    wrote_time none count_us now = wrote (time now)
    wrote_time (some cnt2utc) count_us now = wrote_gps (cnt2utc count_us)

    wrote_lora : (p : LgwPktRx F) → IsLora p → modulation_text format p ≡ goes (lora_fields p)
    unfolding modulation_text lora_text
    wrote_lora p (lora, a, b, c, d, e) = rw lora (
        after (codes ",\"modu\":\"LORA\"") (
          and_goes (datr_known p.datarate a b) (
            and_goes (bandwidth_known p.bandwidth c d) (
              and_goes (codr_known p.coderate e) (
                and_goes (wrote (rssis (roundf p.rssis)))
                  (and_goes (wrote (lsnr p.snr)) (wrote (foff p.freq_offset))))))))

    wrote_fsk : (p : LgwPktRx F) → IsFsk p → modulation_text format p ≡ goes (fsk_fields p)
    unfolding modulation_text
    wrote_fsk p fsk = rw fsk (after (codes ",\"modu\":\"FSK\"") (wrote (bitrate p.datarate)))

    wrote_data :
        (p : LgwPktRx F)
        → length (take p.size p.payload) ≤ 255
        → All IsByte (take p.size p.payload)
        → (text : List ℕ) × (data_text format p ≡ goes (codes ",\"data\":\"" ++ text))
          × (b64_to_bin text 256 ≡ done (length (take p.size p.payload)) (take p.size p.payload))
    unfolding data_text
    wrote_data p small bytes =
        let inp = take p.size p.payload in
        let (text, out, long, back) =
          b64_round_trip inp 341 256 bytes (omega arith) (omega arith) in
        (
          text,
          after (codes ",\"data\":\"") (
              ap coded out ∙ ap goes (take-append (4 * ((length inp + 2) / 3)) text (0 ∷ []) long)),
          back,
        )

    -- The object of a packet as the HAL gives it, with LoRa or FSK modulation, has the fields of the protocol in their order, with the spreading factor, the bandwidth, the coding rate and the status of the packet, and its last field is a text that b64_to_bin turns back into the payload.
    pub object-fields :
        (p : LgwPktRx F) (now : T)
        → IsSerializable p
        → (text : List ℕ) × ((IsLora p
              × (object format p now ≡ goes (fields p now (lora_fields p) text)))
            ⊎ (IsFsk p × (object format p now ≡ goes (fields p now (fsk_fields p) text))))
          × (b64_to_bin text 256 ≡ done (length (take p.size p.payload)) (take p.size p.payload))
    unfolding object
    object-fields p now h =
        let (text, data_field, back) = wrote_data p h.small h.bytes in
        let all : ((m : List ℕ)
            → modulation_text format p ≡ goes m
            → object format p now ≡ goes (fields p now m text)) =
          λ m modulation. after (codes "{") (
            and_goes (wrote (jver 1)) (
              and_goes (wrote (tmst p.count_us)) (
                and_goes (wrote_time gps_time p.count_us now) (
                  and_goes (wrote (chan p.if_chain p.rf_chain p.freq_hz p.modem_id)) (
                    and_goes (stat_known p.status h.known_status) (
                      and_goes modulation (
                        and_goes (wrote (rssi_size (roundf p.rssic) p.size))
                          (and_goes data_field refl)))))))) in
        (
          text,
          elim h.known_modulation [
            | inl lora ↦ inl (lora, all (lora_fields p) (wrote_lora p lora))
            | inr fsk ↦ inr (fsk, all (fsk_fields p) (wrote_fsk p fsk))
          ],
          back,
        )
