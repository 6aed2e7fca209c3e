-- ===== src/Semtech/Txpk.antt =====
-- The reading of the object `txpk` of a downlink in `semtech_pull_down`.
use dragino_fwd_src_lps8_mqt.Base.{
  ℕ, ◌+◌, ◌-◌, ◌^◌, Bool, false, ◌&&◌, List, [], ◌∷◌, ◌++◌, Option, none, some, ◌==◌, ltb, leb,
  if◌then◌else◌, length, take, drop, set, u8, u16,
}
use dragino_fwd_src_lps8_mqt.Base.Text.{codes, same_text}
use dragino_fwd_src_lps8_mqt.Base64.{Coded, done, fails, exits, b64_to_bin}
use dragino_fwd_src_lps8_mqt.Jit.Types.{
  TxPkt, PktType, downlink_class_a, downlink_class_b, downlink_class_c, zero_pkt, timestamped,
}

-- What parson gives for the fields: `none` is a field that is absent, or of the wrong type where
-- a string is asked for. Numbers are as the code casts them; `prea` is the bit pattern of an `int`,
-- `powe` of an `int8_t`. `M` is a time of GPS in milliseconds.
pub record Txpk (M : Type 0) : Type 0 where
  pub imme : Bool
  pub tmst : Option ℕ
  pub tmms : Option M
  pub ncrc : Option Bool
  pub freq : Option ℕ
  pub rfch : Option ℕ
  pub powe : Option ℕ
  pub modu : Option (List ℕ)
  pub datr : Option (List ℕ)
  pub bitrate : Option ℕ
  pub codr : Option (List ℕ)
  pub ipol : Option Bool
  pub prea : Option ℕ
  pub fdev : Option ℕ
  pub size : Option ℕ
  pub encoded : Option (List ℕ)

-- What the reading of the gateway's configuration and the C library gives. `gps2cnt` is `none`
-- without a valid reference, with its inner `none` for a failed conversion; `scan_datr` is the
-- `sscanf` of "SF%2hdBW%3hd" with `none` for a result other than 2, as bit patterns of `short`.
pub record Readers (M : Type 0) : Type 0 where
  pub gps2cnt : Option (M → Option ℕ)
  pub scan_datr : List ℕ → Option (ℕ × ℕ)
  pub antenna_gain : ℕ
  pub td_enabled : Bool
  pub time_diff : List ℕ

-- How the reading ends: the datagram is given up; the server is told that there is no GPS time;
-- `exit` in the decoder; a write outside of `payload`; or with a result.
pub data Read {ℓ} (A : Type ℓ) : Type ℓ where
  aborted unlocked exited undefined : Read A
  ready : A → Read A

infixl 5 ◌>>=◌
abbrev pub ◌>>=◌ {ℓ κ} : {A : Type ℓ} {B : Type κ} → Read A → (A → Read B) → Read B
aborted >>= f = aborted
unlocked >>= f = unlocked
exited >>= f = exited
undefined >>= f = undefined
ready a >>= f = f a

abbrev pub required {ℓ} : {A : Type ℓ} → Option A → Read A
required none = aborted
required (some a) = ready a

abbrev pub or_else {ℓ} : {A : Type ℓ} → A → Option A → A
or_else a none = a
or_else a (some b) = b

-- `TX_MODE`
abbrev pub immediate : ℕ
immediate = 0

-- `MIN_LORA_PREAMB`, `STD_LORA_PREAMB`, `MIN_FSK_PREAMB`, `STD_FSK_PREAMB`
abbrev pub min_lora_preamb : ℕ
min_lora_preamb = 6

abbrev pub std_lora_preamb : ℕ
std_lora_preamb = 8

abbrev pub min_fsk_preamb : ℕ
min_fsk_preamb = 3

abbrev pub std_fsk_preamb : ℕ
std_fsk_preamb = 4

-- An `int` from `least` on, cut to `uint16_t`.
unfoldable pub preamble_of : (least standard : ℕ) → Option ℕ → ℕ
preamble_of least standard none = standard
preamble_of least standard (some i) = if leb least i && ltb i (2 ^ 31) then u16 i else least

unfoldable pub spreading_factor : ℕ → Read ℕ
spreading_factor x0 = if leb 5 x0 && leb x0 12 then ready x0 else aborted

unfoldable pub bandwidth_of : ℕ → Read ℕ
bandwidth_of x1 =
    if x1 == 125
    then ready 4
    else if x1 == 250
    then ready 5
    else if x1 == 500
    then ready 6
    else aborted

unfoldable pub coderate_of : List ℕ → Read ℕ
coderate_of str =
    if same_text str (codes "4/5")
    then ready 1
    else if same_text str (codes "4/6")
    then ready 2
    else if same_text str (codes "2/3")
    then ready 2
    else if same_text str (codes "4/7")
    then ready 3
    else if same_text str (codes "4/8")
    then ready 4
    else if same_text str (codes "1/2")
    then ready 4
    else aborted

module _ {M : Type 0} (readers : Readers M) where
  open readers use {gps2cnt, scan_datr, antenna_gain, td_enabled, time_diff}

  abbrev pub gps_count : Option (M → Option ℕ) → M → Read ℕ
  gps_count none t = unlocked
  gps_count (some convert) t = required (convert t)

  abbrev pub without_tmst : Option M → Read (ℕ × PktType)
  without_tmst none = aborted
  without_tmst (some t) = do count_us ← gps_count gps2cnt t; ready (count_us, downlink_class_b)

  abbrev pub timed : Option ℕ → Option M → Read (ℕ × PktType)
  timed (some count_us) tmms = ready (count_us, downlink_class_a)
  timed none tmms = without_tmst tmms

  -- `count_us` and the class; 0 is what `memset` left.
  unfoldable pub read_time : Txpk M → Read (ℕ × PktType)
  read_time txpk = if txpk.imme then ready (0, downlink_class_c) else timed txpk.tmst txpk.tmms

  unfoldable pub read_lora : Txpk M → TxPkt → Read TxPkt
  unfolding spreading_factor bandwidth_of coderate_of preamble_of
  read_lora txpk p = do
    str ← required txpk.datr
    (x0, x1) ← required (scan_datr str)
    datarate ← spreading_factor x0
    bandwidth ← bandwidth_of x1
    rate ← required txpk.codr
    coderate ← coderate_of rate
    ready (record p {
      modulation = 0x10;
      datarate = datarate;
      bandwidth = bandwidth;
      coderate = coderate;
      invert_pol = or_else p.invert_pol txpk.ipol;
      preamble = preamble_of min_lora_preamb std_lora_preamb txpk.prea;
    })

  unfoldable pub read_fsk : Txpk M → TxPkt → Read TxPkt
  unfolding preamble_of
  read_fsk txpk p = do
    datarate ← required txpk.bitrate
    f_dev ← required txpk.fdev
    ready (record p {
      modulation = 0x20;
      datarate = datarate;
      f_dev = f_dev;
      preamble = preamble_of min_fsk_preamb std_fsk_preamb txpk.prea;
    })

  unfoldable pub read_modulation : Txpk M → TxPkt → Read TxPkt
  unfolding read_lora read_fsk
  read_modulation txpk p = do
    str ← required txpk.modu
    if same_text str (codes "LORA")
        then read_lora txpk p
        else if same_text str (codes "FSK")
        then read_fsk txpk p
        else aborted

  -- `snprintf(payload + i, 256 - i, "%s", time_diff)` and the three bytes more.
  unfoldable pub append_time_diff : ℕ → TxPkt → Read TxPkt
  append_time_diff i p =
      let text = if i == 256 then [] else take (255 - i) time_diff ++ (0 ∷ []) in
      let size = u16 (p.size + 3) in
      if ltb 255 size
      then undefined
      else ready (record p {
        size = size;
        payload = set (take i p.payload ++ (text ++ drop (i + length text) p.payload)) size 0;
      })

  -- A size that is not the one of the bytes is only logged; without bytes the payload stays zero.
  abbrev pub put_payload : Coded → TxPkt → Read TxPkt
  put_payload (done i out) p =
      let p' = record p { payload = out ++ drop i p.payload } in
      if td_enabled then append_time_diff i p' else ready p'
  put_payload fails p = if td_enabled then undefined else ready p
  put_payload exits p = exited

  unfoldable pub read_payload : Txpk M → TxPkt → Read TxPkt
  unfolding append_time_diff
  read_payload txpk p = do
    size ← required txpk.size
    str ← required txpk.encoded
    put_payload (b64_to_bin str 256) (record p { size = size })

  abbrev pub mode_of : Bool → ℕ
  mode_of sent_immediate = if sent_immediate then immediate else timestamped

  abbrev pub power_of : Option ℕ → ℕ
  power_of none = 0
  power_of (some powe) = u8 (powe + 256 - antenna_gain)

  -- The packet before its modulation is read.
  abbrev pub base_pkt : Txpk M → (count_us freq_hz rf_chain : ℕ) → TxPkt
  base_pkt txpk count_us freq_hz rf_chain = record zero_pkt {
    count_us = count_us;
    no_crc = or_else false txpk.ncrc;
    freq_hz = freq_hz;
    rf_chain = rf_chain;
    rf_power = power_of txpk.powe;
  }

  unfoldable pub read_txpk : Txpk M → Read (TxPkt × PktType)
  unfolding read_time read_modulation read_payload
  read_txpk txpk = do
    (count_us, downlink_type) ← read_time txpk
    freq_hz ← required txpk.freq
    rf_chain ← required txpk.rfch
    p ← read_modulation txpk (base_pkt txpk count_us freq_hz rf_chain)
    p' ← read_payload txpk p
    ready (record p' { tx_mode = mode_of txpk.imme }, downlink_type)
