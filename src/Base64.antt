-- ===== src/Base64.antt =====
-- Base64 coding of payloads, src/fwd/src/base64.c.
-- Sizes are not negative and pointers not null, as in every call.
-- A buffer with its size is the list of its bytes; `out` is what has been written from its start.
pub mod Blocks
pub mod RoundTrip
pub mod Padding
pub mod Bounds
mod Tests
use dragino_fwd_src_lps8_mqt.Base.{
  ℕ, ◌+◌, ◌-◌, ◌*◌, ◌/◌, ◌%◌, Bool, ◌&&◌, List, [], ◌∷◌, ◌++◌, ◌==◌, leb, ltb, if◌then◌else◌,
  bit_and, bit_or, ◌<<<◌, ◌>>>◌, Option, none, some, length, take, get_or,
}

-- `done` is the value returned and what was written; `fails` is -1; `exits` is exit(EXIT_FAILURE).
pub data Coded : Type 0 where
  done : ℕ → List ℕ → Coded
  fails exits : Coded

abbrev pub code_pad : ℕ
code_pad = b'='

-- `none` is exit(EXIT_FAILURE).
unfoldable pub code_to_char : ℕ → Option ℕ
code_to_char x =
    if leb x 25
    then some (b'A' + x)
    else if leb 26 x && leb x 51
    then some (b'a' + (x - 26))
    else if leb 52 x && leb x 61
    then some (b'0' + (x - 52))
    else if x == 62
    then some b'+'
    else if x == 63
    then some b'/'
    else none

pub char_to_code : ℕ → Option ℕ
char_to_code x =
    if leb b'A' x && leb x b'Z'
    then some (x - b'A')
    else if leb b'a' x && leb x b'z'
    then some (x - b'a' + 26)
    else if leb b'0' x && leb x b'9'
    then some (x - b'0' + 52)
    else if x == b'+'
    then some 62
    else if x == b'/'
    then some 63
    else none

infixl 5 ◌>>=◌
abbrev pub ◌>>=◌ {ℓ κ} : {A : Type ℓ} {B : Type κ} → Option A → (A → Option B) → Option B
none >>= f = none
some a >>= f = f a

-- Three bytes in 24 bits, and six of the bits.
unfoldable pub pack_bytes : ℕ → ℕ → ℕ → ℕ
pack_bytes x y z = bit_or (bit_or (bit_and x 0xff <<< 16) (bit_and y 0xff <<< 8)) (bit_and z 0xff)

unfoldable pub sextet : ℕ → ℕ → ℕ
sextet b k = bit_and (b >>> k) 0x3f

-- Four codes in 24 bits, and eight of the bits.
pub pack_codes : ℕ → ℕ → ℕ → ℕ → ℕ
pack_codes x y z w =
    bit_or (bit_or (bit_or (bit_and x 0x3f <<< 18) (bit_and y 0x3f <<< 12)) (bit_and z 0x3f <<< 6))
      (bit_and w 0x3f)

pub octet : ℕ → ℕ → ℕ
octet b k = bit_and (b >>> k) 0xff

-- The full blocks and the partial one. A byte that is not there leaves its bits 0.
unfoldable pub encode_blocks : List ℕ → Option (List ℕ)
encode_blocks [] = some []
encode_blocks (x ∷ []) = do
  let b = pack_bytes x 0 0
  c ← code_to_char (sextet b 18)
  d ← code_to_char (sextet b 12)
  some (c ∷ d ∷ [])
encode_blocks (x ∷ y ∷ []) = do
  let b = pack_bytes x y 0
  c ← code_to_char (sextet b 18)
  d ← code_to_char (sextet b 12)
  e ← code_to_char (sextet b 6)
  some (c ∷ d ∷ e ∷ [])
encode_blocks (x ∷ y ∷ z ∷ rest) = do
  let b = pack_bytes x y z
  c ← code_to_char (sextet b 18)
  d ← code_to_char (sextet b 12)
  e ← code_to_char (sextet b 6)
  f ← code_to_char (sextet b 0)
  text ← encode_blocks rest
  some (c ∷ d ∷ e ∷ f ∷ text)

-- A single character does not get here.
pub decode_blocks : List ℕ → Option (List ℕ)
decode_blocks [] = some []
decode_blocks (c ∷ []) = some []
decode_blocks (c ∷ d ∷ []) = do
  x ← char_to_code c
  y ← char_to_code d
  let b = pack_codes x y 0 0
  some (octet b 16 ∷ [])
decode_blocks (c ∷ d ∷ e ∷ []) = do
  x ← char_to_code c
  y ← char_to_code d
  z ← char_to_code e
  let b = pack_codes x y z 0
  some (octet b 16 ∷ octet b 8 ∷ [])
decode_blocks (c ∷ d ∷ e ∷ f ∷ rest) = do
  x ← char_to_code c
  y ← char_to_code d
  z ← char_to_code e
  w ← char_to_code f
  let b = pack_codes x y z w
  bytes ← decode_blocks rest
  some (octet b 16 ∷ octet b 8 ∷ octet b 0 ∷ bytes)

abbrev pub finish : ℕ → (List ℕ → List ℕ) → Option (List ℕ) → Coded
finish ret end none = exits
finish ret end (some out) = done ret (end out)

-- `last_chars` by `last_bytes`, and back; one character left is an error.
unfoldable pub last_chars : ℕ → ℕ
last_chars r = if r == 0 then 0 else if r == 1 then 2 else 3

pub last_bytes : ℕ → ℕ
last_bytes r = if r == 0 then 0 else if r == 2 then 1 else 2

unfoldable pub bin_to_b64_nopad : List ℕ → ℕ → Coded
unfolding last_chars
bin_to_b64_nopad inp max_len =
    let size = length inp in
    let result_len = 4 * (size / 3) + last_chars (size % 3) in
    if size == 0
    then done 0 (0 ∷ [])
    else if ltb max_len (result_len + 1)
    then fails
    else finish result_len (λ text. text ++ (0 ∷ [])) (encode_blocks inp)

unfoldable pub b64_to_bin_nopad : List ℕ → ℕ → Coded
unfolding last_bytes
b64_to_bin_nopad inp max_len =
    let size = length inp in
    let result_len = 3 * (size / 4) + last_bytes (size % 4) in
    if size == 0
    then done 0 []
    else if size % 4 == 1
    then fails
    else if ltb max_len result_len
    then fails
    else finish result_len (λ bytes. bytes) (decode_blocks inp)

-- The padding, written over the terminator.
unfoldable pub pad : ℕ → ℕ → List ℕ → Coded
pad max_len ret out =
    if ret % 4 == 0
    then done ret out
    else if ret % 4 == 1
    then fails
    else if ret % 4 == 2
    then (if leb (ret + 2 + 1) max_len
        then done (ret + 2) (take ret out ++ (code_pad ∷ code_pad ∷ 0 ∷ []))
        else fails)
    else (if leb (ret + 1 + 1) max_len
        then done (ret + 1) (take ret out ++ (code_pad ∷ 0 ∷ []))
        else fails)

abbrev pub pad_result : ℕ → Coded → Coded
pad_result max_len (done ret out) = pad max_len ret out
pad_result max_len fails = fails
pad_result max_len exits = exits

unfoldable pub bin_to_b64 : List ℕ → ℕ → Coded
bin_to_b64 inp max_len = pad_result max_len (bin_to_b64_nopad inp max_len)

unfoldable pub b64_to_bin : List ℕ → ℕ → Coded
b64_to_bin inp max_len =
    let size = length inp in
    if size % 4 == 0 && leb 4 size
    then (if get_or inp (size - 2) 0 == code_pad
        then b64_to_bin_nopad (take (size - 2) inp) max_len
        else if get_or inp (size - 1) 0 == code_pad
        then b64_to_bin_nopad (take (size - 1) inp) max_len
        else b64_to_bin_nopad inp max_len)
    else b64_to_bin_nopad inp max_len
