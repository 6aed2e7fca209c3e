-- ===== src/Packet.antt =====
-- Downlinks that the gateway itself composes: the frame, its transmit packet, the window of a
-- region, and the search for the counter of an uplink, src/fwd/src/pkt_serv.c.
pub mod Writer
pub mod Frame
pub mod Receive
pub mod Downlink
pub mod Uplink
pub mod Accepted
pub mod DnList
pub mod Waiting
pub mod Counters
mod Tests
use dragino_fwd_src_lps8_mqt.Base.{
  ℕ, zero, suc, ◌+◌, ◌-◌, ◌*◌, ◌/◌, ◌%◌, Bool, true, false, ◌&&◌, List, [], ◌∷◌, ◌++◌, Option, none,
  some, if◌then◌else◌, ◌==◌, ltb, set, take, drop, replicate, u8, u16, u32, bit_or, ◌>>>◌, ◌<<<◌,
}
use dragino_fwd_src_lps8_mqt.Util.{lgw_memcpy}
use dragino_fwd_src_lps8_mqt.Crypto.{Ciphers, lora_mac_compute_mic, lora_mac_payload_encrypt}
use dragino_fwd_src_lps8_mqt.Mac.{data_unconfirmed_down}
use dragino_fwd_src_lps8_mqt.Jit.Types.{
  TxPkt, PktType, downlink_class_a, downlink_class_c, JitError, JitQueue, zero_pkt,
}
use dragino_fwd_src_lps8_mqt.Jit.Platform.{Platform}
use dragino_fwd_src_lps8_mqt.Jit.Enqueue.{jit_enqueue}

-- `dn_pkt_s`. `none` for `fopt` is a null pointer.
pub record DnPkt : Type 0 where
  pub devaddr : List ℕ
  pub relay : ℕ
  pub payload : List ℕ
  pub txfreq : ℕ
  pub fopt : Option (List ℕ)
  pub ftype : ℕ
  pub mode : ℕ
  pub psize : ℕ
  pub txdr : ℕ
  pub txbw : ℕ
  pub txpw : ℕ
  pub rxwindow : ℕ
  pub txport : ℕ
  pub optlen : ℕ

-- The fields of `devinfo_s` that the frames use.
pub record DevInfo : Type 0 where
  pub devaddr : ℕ
  pub appskey : List ℕ
  pub nwkskey : List ℕ

abbrev pub down : ℕ
down = 1

abbrev pub up : ℕ
up = 0

-- `memcpy` to `frame + index`.
abbrev pub copy_at : List ℕ → ℕ → List ℕ → ℕ → List ℕ
copy_at frame index src size = take index frame ++ lgw_memcpy (drop index frame) src size

-- `optlen && (NULL != fopt)`: the options and their length.
unfoldable pub options : DnPkt → Option (List ℕ)
options dn = if dn.optlen == 0 then none else dn.fopt

-- `hdr.Value` and `fctrl.Value`: the type has three bits, the length of the options four.
unfoldable pub header_value : DnPkt → ℕ
header_value dn = dn.ftype % 8 * 32

abbrev pub options_length : Option (List ℕ) → ℕ → ℕ
options_length none optlen = 0
options_length (some fopt) optlen = optlen % 16

unfoldable pub control_value : DnPkt → ℕ
unfolding options
control_value dn =
    128
    + (if dn.ftype == data_unconfirmed_down then 32 else 0)
    + options_length (options dn) dn.optlen

-- MHDR, DevAddr, FCtrl and FCnt, at the indices 0 to 7.
unfoldable pub put_header : DnPkt → DevInfo → ℕ → List ℕ → List ℕ
unfolding header_value control_value
put_header dn dev downcnt frame =
    let f0 = set frame 0 (header_value dn) in
    let f1 = set f0 1 (dev.devaddr % 256) in
    let f2 = set f1 2 ((dev.devaddr >>> 8) % 256) in
    let f3 = set f2 3 ((dev.devaddr >>> 16) % 256) in
    let f4 = set f3 4 ((dev.devaddr >>> 24) % 256) in
    let f5 = set f4 5 (control_value dn) in
    let f6 = set f5 6 (downcnt % 256) in set f6 7 ((downcnt >>> 8) % 256)

-- FOpts: the frame and the index of the last byte written.
unfoldable pub put_options : Option (List ℕ) → ℕ → List ℕ → List ℕ × ℕ
put_options none optlen frame = (frame, 7)
put_options (some fopt) optlen frame = (copy_at frame 8 fopt optlen, u8 (8 + optlen - 1))

-- The code, from the index on. The result is `*frame_size`.
unfoldable pub put_mic : ℕ → ℕ → List ℕ → List ℕ × ℕ
put_mic index mic frame =
    let index1 = u8 (index + 1) in
    let index2 = u8 (index1 + 1) in
    let index3 = u8 (index2 + 1) in
    let f0 = set frame index (mic % 256) in
    let f1 = set f0 index1 ((mic >>> 8) % 256) in
    let f2 = set f1 index2 ((mic >>> 16) % 256) in (set f2 index3 ((mic >>> 24) % 256), index3 + 1)

module _ (ciphers : Ciphers) where
  -- The two blocks are the static ones of loramac-crypto.c, for the payload and for the code;
  -- `fresh` is the memory that `lgw_malloc` gives. The result is the frame and `*frame_size`.
  unfoldable pub prepare_frame :
      (payload_block mic_block : List ℕ) → DnPkt → DevInfo → ℕ → (fresh frame : List ℕ) → List ℕ × ℕ
  unfolding put_header put_options put_mic options
  prepare_frame payload_block mic_block dn dev downcnt fresh frame =
      let (with_options, index) =
        put_options (options dn) dn.optlen (put_header dn dev downcnt frame) in
      let index1 = u8 (index + 1) in
      let with_port = set with_options index1 (dn.txport % 256) in
      let key = if dn.txport == 0 then dev.nwkskey else dev.appskey in
      let encrypt_payload =
        (lora_mac_payload_encrypt ciphers payload_block dn.payload dn.psize key dev.devaddr down
          downcnt fresh).1 in
      let index2 = u8 (index1 + 1) in
      let with_payload = copy_at with_port index2 encrypt_payload dn.psize in
      let index3 = u8 (index2 + dn.psize) in
      let mic =
        (lora_mac_compute_mic ciphers mic_block with_payload index3 dev.nwkskey dev.devaddr down
          downcnt).1 in
      put_mic index3 mic with_payload

-- The counter of a downlink and what the database holds after it. The entry is the text of the
-- counter; there is none before the first downlink.
unfoldable pub take_fcnt : Option ℕ → ℕ × Option ℕ
take_fcnt none = (1, some 1)
take_fcnt (some stored) = (u32 stored, some (u32 (u32 stored + 1)))
