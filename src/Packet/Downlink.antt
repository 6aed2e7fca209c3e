-- ===== src/Packet/Downlink.antt =====
-- The transmit packet of a downlink of the gateway and its way to the queue, and the second receive
-- windows of the regions: `custom_rx2dn` and `pkt_start`.
use dragino_fwd_src_lps8_mqt.Base.{
  ℕ, ◌+◌, true, List, Option, if◌then◌else◌, ◌==◌, ltb, replicate, u32,
}
use dragino_fwd_src_lps8_mqt.Util.{lgw_memcpy}
use dragino_fwd_src_lps8_mqt.Crypto.{Ciphers}
use dragino_fwd_src_lps8_mqt.Jit.Types.{
  TxPkt, PktType, downlink_class_a, downlink_class_c, JitError, JitQueue, zero_pkt,
}
use dragino_fwd_src_lps8_mqt.Jit.Platform.{Platform}
use dragino_fwd_src_lps8_mqt.Jit.Enqueue.{jit_enqueue}
use dragino_fwd_src_lps8_mqt.Packet.{DnPkt, DevInfo, prepare_frame, take_fcnt}

-- `GW.cfg.region`; `unset` is every value without a case.
pub data Region : Type 0 where
  eu eu433 us cn470 cn779 au as1 as2 as3 kr india ru kz unset : Region

-- `rx2dr`, `rx2bw` and `rx2freq`.
pub record Rx2 : Type 0 where
  pub rx2dr : ℕ
  pub rx2bw : ℕ
  pub rx2freq : ℕ

abbrev pub bw_125khz : ℕ
bw_125khz = 4

abbrev pub bw_500khz : ℕ
bw_500khz = 6

unfoldable pub rx2_window : Region → Rx2
rx2_window eu = record { rx2dr = 12; rx2bw = bw_125khz; rx2freq = 869525000 }
rx2_window eu433 = record { rx2dr = 12; rx2bw = bw_125khz; rx2freq = 434665000 }
rx2_window us = record { rx2dr = 12; rx2bw = bw_500khz; rx2freq = 923300000 }
rx2_window cn470 = record { rx2dr = 12; rx2bw = bw_125khz; rx2freq = 505300000 }
rx2_window cn779 = record { rx2dr = 12; rx2bw = bw_125khz; rx2freq = 786000000 }
rx2_window au = record { rx2dr = 12; rx2bw = bw_500khz; rx2freq = 923300000 }
rx2_window as1 = record { rx2dr = 10; rx2bw = bw_125khz; rx2freq = 923200000 }
rx2_window as2 = record { rx2dr = 10; rx2bw = bw_125khz; rx2freq = 923020000 }
rx2_window as3 = record { rx2dr = 10; rx2bw = bw_125khz; rx2freq = 922540000 }
rx2_window kr = record { rx2dr = 12; rx2bw = bw_125khz; rx2freq = 921900000 }
rx2_window india = record { rx2dr = 10; rx2bw = bw_125khz; rx2freq = 866550000 }
rx2_window ru = record { rx2dr = 12; rx2bw = bw_125khz; rx2freq = 869100000 }
rx2_window kz = record { rx2dr = 12; rx2bw = bw_125khz; rx2freq = 866700000 }
rx2_window unset = record { rx2dr = 12; rx2bw = bw_125khz; rx2freq = 869525000 }

abbrev pub or_default : ℕ → ℕ → ℕ
or_default value default = if ltb 0 value then value else default

-- The transmit packet up to its time and its payload.
unfoldable pub fill_txpkt : Rx2 → DnPkt → ℕ → TxPkt
fill_txpkt rx2 dn txmode = record zero_pkt {
  modulation = or_default dn.mode 0x10;
  no_crc = true;
  freq_hz = or_default dn.txfreq rx2.rx2freq;
  rf_chain = 0;
  rf_power = or_default dn.txpw 20;
  datarate = or_default dn.txdr rx2.rx2dr;
  bandwidth = or_default dn.txbw rx2.rx2bw;
  coderate = 1;
  invert_pol = true;
  preamble = 8;
  tx_mode = txmode;
}

abbrev pub downlink_type : ℕ → PktType
downlink_type txmode = if txmode == 0 then downlink_class_c else downlink_class_a

abbrev pub window_delay : ℕ → ℕ
window_delay rxwindow = if ltb 1 rxwindow then 2000000 else 1000000

module _ (platform : Platform) (ciphers : Ciphers) where
  -- The packet and what the database holds after it.
  unfoldable pub compose :
      (payload_block mic_block fresh : List ℕ)
      → Rx2
      → Option ℕ
      → DnPkt
      → DevInfo
      → (at_us txmode : ℕ) → TxPkt × Option ℕ
  unfolding take_fcnt fill_txpkt prepare_frame
  compose payload_block mic_block fresh rx2 stored dn dev at_us txmode =
      let base = fill_txpkt rx2 dn txmode in
      let (dwfcnt, stored') = take_fcnt stored in
      let (payload_en, fsize) =
        prepare_frame ciphers payload_block mic_block dn dev dwfcnt fresh (replicate 256 0) in
      if dn.relay == 0
      then (
        record base {
          count_us = u32 (at_us + window_delay dn.rxwindow);
          payload = lgw_memcpy base.payload payload_en fsize;
          size = fsize;
        },
        stored',
      )
      else (
        record base {
          count_us = u32 (at_us + 1000000);
          payload = lgw_memcpy base.payload dn.payload dn.psize;
          size = dn.psize;
        },
        stored,
      )

  -- The answer of the queue of RF chain 0 at the time of the call, and the queue and the database
  -- after it.
  unfoldable pub custom_rx2dn :
      (payload_block mic_block fresh : List ℕ)
      → Rx2
      → Option ℕ
      → DnPkt
      → DevInfo
      → (at_us txmode now : ℕ) → JitQueue
      → JitError × JitQueue × Option ℕ
  unfolding compose
  custom_rx2dn payload_block mic_block fresh rx2 stored dn dev at_us txmode now queue =
      let (txpkt, stored') = compose payload_block mic_block fresh rx2 stored dn dev at_us txmode in
      let answer = jit_enqueue platform queue now txpkt (downlink_type txmode) in
      (answer.0, answer.1, stored')
