-- ===== src/Service/Tests.antt =====
-- The theorems on the services at concrete filters, services and bytes.
use dragino_fwd_src_lps8_mqt.Base.{◌/◌, ◌^◌, ◌≡◌, ◌↔◌, refl, Bool, false, [], ◌∷◌, arith, ◌==◌}
use dragino_fwd_src_lps8_mqt.Service.{
  no_filter, include, exclude, Filter, Key, fport_key, devaddr_key, nwkid_key, pkt_basic_filter,
  crc_shift, crc_bits, crc_from, crc16,
}
use dragino_fwd_src_lps8_mqt.Service.Uplinks.{Lets, pkt_basic_filter_iff}

-- A database with the network 0x13 and the port 2.
abbrev stored : Key → Bool
stored (fport_key name n) = n == 2
stored (devaddr_key name n) = false
stored (nwkid_key name n) = n == 0x13

abbrev levels : Filter
levels = record { fport = include; devaddr = no_filter; nwkid = exclude }

pkt_basic_filter_iff_example : (pkt_basic_filter stored [] levels 0x26011bda 1 ≡ false) ↔ (
    Lets stored include (fport_key [] 1)
    × Lets stored no_filter (devaddr_key [] 0x26011bda)
    × Lets stored exclude (nwkid_key [] (0x26011bda / 2 ^ 25)))
pkt_basic_filter_iff_example = pkt_basic_filter_iff stored [] levels 0x26011bda 1 (omega arith)

-- The digits 1 to 9, for which the polynomial's published check value is 0x31c3.
check_value : crc16 (b'1' ∷ b'2' ∷ b'3' ∷ b'4' ∷ b'5' ∷ b'6' ∷ b'7' ∷ b'8' ∷ b'9' ∷ []) ≡ 0x31c3
unfolding crc16 crc_from crc_bits crc_shift
check_value = refl
