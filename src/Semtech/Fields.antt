-- ===== src/Semtech/Fields.antt =====
-- The object of one uplink, as `thread_push_up` writes it.
use dragino_fwd_src_lps8_mqt.Base.{
  ℕ, List, [], ◌∷◌, ◌++◌, Option, none, some, ◌==◌, if◌then◌else◌, take,
}
use dragino_fwd_src_lps8_mqt.Base.Text.{codes}
use dragino_fwd_src_lps8_mqt.Base64.{Coded, done, fails, exits, bin_to_b64}
use dragino_fwd_src_lps8_mqt.Semtech.{LgwPktRx}
use dragino_fwd_src_lps8_mqt.Semtech.Uplink.{stat_crc_bad, stat_crc_ok, stat_no_crc}

abbrev pub mod_lora : ℕ
mod_lora = 0x10

abbrev pub mod_fsk : ℕ
mod_fsk = 0x20

-- The calls of `snprintf`, by what they print.
pub data Piece (F T : Type 0) : Type 0 where
  jver : ℕ → Piece F T
  tmst : ℕ → Piece F T
  time : T → Piece F T
  chan : (if_chain rf_chain freq_hz modem_id : ℕ) → Piece F T
  rssis lsnr : F → Piece F T
  foff : ℕ → Piece F T
  bitrate : ℕ → Piece F T
  rssi_size : F → ℕ → Piece F T

-- What a packet has added to the datagram when its turn ends: the whole object; a part of it, by a
-- `continue` that leaves `buff_index`; a jump back to index 21; or `exit` in the coder.
pub data Wrote : Type 0 where
  goes leaves : List ℕ → Wrote
  resets ends : Wrote

infixr 5 ◌>>◌
abbrev pub ◌>>◌ : Wrote → Wrote → Wrote
goes a >> goes b = goes (a ++ b)
goes a >> leaves b = leaves (a ++ b)
goes a >> resets = resets
goes a >> ends = ends
leaves a >> w = leaves a
resets >> w = resets
ends >> w = ends

unfoldable pub stat_text : ℕ → Wrote
stat_text status =
    if status == stat_crc_ok
    then goes (codes ",\"stat\":1")
    else if status == stat_crc_bad
    then goes (codes ",\"stat\":-1")
    else if status == stat_no_crc
    then goes (codes ",\"stat\":0")
    else leaves (codes ",\"stat\":?")

unfoldable pub datr_text : ℕ → Wrote
datr_text datarate =
    if datarate == 5
    then goes (codes ",\"datr\":\"SF5")
    else if datarate == 6
    then goes (codes ",\"datr\":\"SF6")
    else if datarate == 7
    then goes (codes ",\"datr\":\"SF7")
    else if datarate == 8
    then goes (codes ",\"datr\":\"SF8")
    else if datarate == 9
    then goes (codes ",\"datr\":\"SF9")
    else if datarate == 10
    then goes (codes ",\"datr\":\"SF10")
    else if datarate == 11
    then goes (codes ",\"datr\":\"SF11")
    else if datarate == 12
    then goes (codes ",\"datr\":\"SF12")
    else leaves (codes ",\"datr\":\"SF?")

unfoldable pub bandwidth_text : ℕ → Wrote
bandwidth_text bandwidth =
    if bandwidth == 4
    then goes (codes "BW125\"")
    else if bandwidth == 5
    then goes (codes "BW250\"")
    else if bandwidth == 6
    then goes (codes "BW500\"")
    else leaves (codes "BW?\"")

unfoldable pub codr_text : ℕ → Wrote
codr_text coderate =
    if coderate == 1
    then goes (codes ",\"codr\":\"4/5\"")
    else if coderate == 2
    then goes (codes ",\"codr\":\"4/6\"")
    else if coderate == 3
    then goes (codes ",\"codr\":\"4/7\"")
    else if coderate == 4
    then goes (codes ",\"codr\":\"4/8\"")
    else if coderate == 0
    then goes (codes ",\"codr\":\"OFF\"")
    else leaves (codes ",\"codr\":\"?\"")

abbrev pub printed : List ℕ → Wrote
printed [] = resets
printed (c ∷ text) = goes (c ∷ text)

-- The characters before the terminator, which the closing quote overwrites.
abbrev pub coded : Coded → Wrote
coded (done j out) = goes (take j out)
coded fails = resets
coded exits = ends

-- What the loop reads besides the packet: the formatting, and the time of a packet by the GPS
-- reference (`some` where `ref_ok` holds; the inner `none` is a failed conversion).
pub record Format (F T : Type 0) : Type 0 where
  pub snprintf : Piece F T → List ℕ
  pub roundf : F → F
  pub gps_time : Option (ℕ → Option T)

module _ {F T : Type 0} (format : Format F T) where
  open format use {snprintf, roundf, gps_time}

  abbrev pub print : Piece F T → Wrote
  print piece = printed (snprintf piece)

  abbrev pub gps_text : Option T → Wrote
  gps_text none = goes []
  gps_text (some t) = print (time t)

  -- By the reference, or by the clock at the turn of the packet.
  abbrev pub time_text : Option (ℕ → Option T) → ℕ → T → Wrote
  time_text none count_us now = print (time now)
  time_text (some cnt2utc) count_us now = gps_text (cnt2utc count_us)

  unfoldable pub lora_text : LgwPktRx F → Wrote
  unfolding datr_text bandwidth_text codr_text
  lora_text p =
      goes (codes ",\"modu\":\"LORA\"")
      >> datr_text p.datarate
      >> bandwidth_text p.bandwidth
      >> codr_text p.coderate
      >> print (rssis (roundf p.rssis))
      >> print (lsnr p.snr)
      >> print (foff p.freq_offset)

  unfoldable pub modulation_text : LgwPktRx F → Wrote
  unfolding lora_text
  modulation_text p =
      if p.modulation == mod_lora
      then lora_text p
      else if p.modulation == mod_fsk
      then goes (codes ",\"modu\":\"FSK\"") >> print (bitrate p.datarate)
      else resets

  unfoldable pub data_text : LgwPktRx F → Wrote
  data_text p = goes (codes ",\"data\":\"") >> coded (bin_to_b64 (take p.size p.payload) 341)

  -- From the brace on, without the separator.
  unfoldable pub object : LgwPktRx F → T → Wrote
  unfolding stat_text modulation_text data_text
  object p now =
      goes (codes "{")
      >> print (jver 1)
      >> print (tmst p.count_us)
      >> time_text gps_time p.count_us now
      >> print (chan p.if_chain p.rf_chain p.freq_hz p.modem_id)
      >> stat_text p.status
      >> modulation_text p
      >> print (rssi_size (roundf p.rssic) p.size)
      >> data_text p
      >> goes (codes "\"}")
