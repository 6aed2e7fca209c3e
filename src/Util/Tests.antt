-- ===== src/Util/Tests.antt =====
-- The theorems on the helpers at concrete bytes.
use dragino_fwd_src_lps8_mqt.Base.{ℕ, ◌-◌, ◌<◌, ◌≡◌, List, [], ◌∷◌, arith, if◌then◌else◌, leb, ◌&&◌}
use dragino_fwd_src_lps8_mqt.Util.{nibble2hexchar}

abbrev key : List ℕ
key = 0x2b ∷ 0xfe ∷ 0x00 ∷ []

-- The C library's function, in the C locale.
abbrev c_toupper : ℕ → ℕ
c_toupper c = if leb b'a' c && leb c b'z' then c - 32 else c

c_toupper_keeps : (a : ℕ) → a < 16 → c_toupper (nibble2hexchar a) ≡ nibble2hexchar a
unfolding nibble2hexchar
c_toupper_keeps a h = ground arith
