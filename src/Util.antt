-- ===== src/Util.antt =====
-- The helpers of src/fwd/src/utilities.c, less `bin2hex`, which nothing calls.
-- A pointer is the list of the bytes from it on. What lies beyond the lists is not read or
-- written here: every property bounds the size by their lengths.
pub mod Memory
pub mod Hex
mod Tests
use dragino_fwd_src_lps8_mqt.Base.{
  ℕ, zero, suc, ◌+◌, ◌-◌, ◌*◌, ◌/◌, ◌%◌, List, [], ◌∷◌, ◌++◌, set, take, ltb, leb, ◌&&◌, u8, u32,
  if◌then◌else◌, bit_or, ◌<<<◌,
}

-- The state `next` after the call, and what is returned.
pub lgw_rand : ℕ → ℕ × ℕ
lgw_rand next = let next' = u32 (next * 1103515245 + 12345) in (next', next' % 2147483647)

pub lgw_srand : ℕ → ℕ → ℕ
lgw_srand next seed = seed

-- For limits that are not negative.
pub lgw_randr : ℕ → ℕ → ℕ → ℕ × ℕ
unfolding lgw_rand
lgw_randr next low high = let r = lgw_rand next in (r.0, r.1 % (high + 1 - low) + low)

pub lgw_memcpy : List ℕ → List ℕ → ℕ → List ℕ
lgw_memcpy dst src zero = dst
lgw_memcpy (d ∷ dst) (s ∷ src) (suc size) = s ∷ lgw_memcpy dst src size
lgw_memcpy [] src (suc size) = []
lgw_memcpy (d ∷ dst) [] (suc size) = d ∷ dst

-- From the last place down.
pub lgw_memcpyr : List ℕ → List ℕ → ℕ → List ℕ
lgw_memcpyr dst src zero = dst
lgw_memcpyr dst (s ∷ src) (suc size) = lgw_memcpyr (set dst size s) src size
lgw_memcpyr dst [] (suc size) = dst

pub lgw_memset : List ℕ → ℕ → ℕ → List ℕ
lgw_memset dst value zero = dst
lgw_memset (d ∷ dst) value (suc size) = value ∷ lgw_memset dst value size
lgw_memset [] value (suc size) = []

pub nibble2hexchar : ℕ → ℕ
nibble2hexchar a = if ltb a 10 then b'0' + a else if ltb a 16 then b'A' + (a - 10) else b'?'

-- A digit of `str2hex`: `toupper` is the C library's.
pub upper_digit : (ℕ → ℕ) → ℕ → ℕ
upper_digit toupper ch =
    let ui = u8 (u8 (toupper ch) + 256 - 0x30) in if ltb 9 ui then u8 (ui + 256 - 7) else ui

-- `len` bytes from twice as many characters.
pub str2hex : (ℕ → ℕ) → List ℕ → ℕ → List ℕ
str2hex toupper (ch1 ∷ ch2 ∷ src) (suc len) =
    u8 (upper_digit toupper ch1 * 16 + upper_digit toupper ch2) ∷ str2hex toupper src len
str2hex toupper src len = []

pub hex2int : ℕ → ℕ
hex2int c =
    if leb b'0' c && leb c b'9'
    then c - 0x30
    else if leb b'A' c && leb c b'F'
    then c - 0x37
    else if leb b'a' c && leb c b'f'
    then c - 0x57
    else 0

pub hex_pairs : List ℕ → List ℕ
hex_pairs (a ∷ b ∷ hex) = u8 (bit_or (hex2int a <<< 4) (hex2int b)) ∷ hex_pairs hex
hex_pairs hex = []

-- `len` is a `uint8_t`; `j < len - 1` leaves out a character without a partner.
pub hex2str : List ℕ → ℕ → List ℕ
hex2str hex len = hex_pairs (take (u8 len) hex)
