-- ===== src/Base64/Tests.antt =====
-- The theorems on Base64 at concrete payloads.
use dragino_fwd_src_lps8_mqt.Base.{
  ℕ, ◌≤◌, ◌+◌, ◌*◌, ◌/◌, ◌≡◌, refl, List, [], ◌∷◌, ◌++◌, length, arith,
}
use dragino_fwd_src_lps8_mqt.Base64.{
  done, bin_to_b64, b64_to_bin, bin_to_b64_nopad, encode_blocks, code_to_char, sextet, pack_bytes,
  pad, last_chars,
}
use dragino_fwd_src_lps8_mqt.Base64.{
  b64_to_bin_nopad, decode_blocks, char_to_code, pack_codes, octet, last_bytes,
}
use dragino_fwd_src_lps8_mqt.Base64.Bounds.{b64_to_bin_in_buffer}
use dragino_fwd_src_lps8_mqt.Base64.Padding.{b64_round_trip}

abbrev payload : List ℕ
payload = 0x40 ∷ 0xff ∷ 0x01 ∷ 0x9c ∷ []

payload_coded :
    bin_to_b64 payload 20 ≡ done 8 (b'Q' ∷ b'P' ∷ b'8' ∷ b'B' ∷ b'n' ∷ b'A' ∷ b'=' ∷ b'=' ∷ 0 ∷ [])
unfolding bin_to_b64 bin_to_b64_nopad encode_blocks code_to_char sextet pack_bytes pad last_chars
payload_coded = refl

b64_round_trip_example :
    (text : List ℕ) × (bin_to_b64 payload 9
      ≡ done (4 * ((length payload + 2) / 3)) (text ++ (0 ∷ [])))
    × (length text ≡ 4 * ((length payload + 2) / 3))
    × (b64_to_bin text 4 ≡ done (length payload) payload)
b64_round_trip_example =
    b64_round_trip payload 9 4 (omega arith, (omega arith, (omega arith, (omega arith, tt))))
      (omega arith) (omega arith)

-- The text `QP8=`, which decodes to two bytes.
abbrev short_text : List ℕ
short_text = b'Q' ∷ b'P' ∷ b'8' ∷ b'=' ∷ []

abbrev two_bytes : List ℕ
two_bytes = 0x40 ∷ 0xff ∷ []

short_text_decoded : b64_to_bin short_text 2 ≡ done 2 two_bytes
unfolding b64_to_bin b64_to_bin_nopad decode_blocks char_to_code pack_codes octet last_bytes
short_text_decoded = refl

b64_to_bin_in_buffer_example : (length two_bytes ≡ 2) × (2 ≤ 2)
b64_to_bin_in_buffer_example = b64_to_bin_in_buffer short_text 2 2 two_bytes short_text_decoded
