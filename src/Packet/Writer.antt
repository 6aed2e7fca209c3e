-- ===== src/Packet/Writer.antt =====
-- Writes one after the other to a buffer of 256 bytes, read as what has been written so far.
use dragino_fwd_src_lps8_mqt.Base.{
  ℕ, suc, ◌+◌, ◌<◌, ◌≤◌, ◌≡◌, sym, ap, ◌∙◌, List, [], ◌∷◌, ◌++◌, length, take, drop, set, arith,
  length-set, length-append, length-take, length-drop, take-set, take-append, append_assoc,
}
use dragino_fwd_src_lps8_mqt.Util.Memory.{lgw_memcpy_lem}
use dragino_fwd_src_lps8_mqt.Packet.{copy_at}

-- The first `n` bytes of the buffer are these, and there are 256 bytes.
pub record Written (frame : List ℕ) (n : ℕ) (bytes : List ℕ) : Type 0 where
  pub prefix : take n frame ≡ bytes
  pub whole : length frame ≡ 256

pub Written-set :
    (frame : List ℕ) (n v : ℕ) (bytes : List ℕ)
    → Written frame n bytes
    → n < 256
    → Written (set frame n v) (suc n) (bytes ++ (v ∷ []))
Written-set frame n v bytes w h = record {
  prefix = take-set n frame v (omega (arith, w.whole)) ∙ ap (λ b. b ++ (v ∷ [])) w.prefix;
  whole = length-set frame n v ∙ w.whole;
}

pub Written-copy_at :
    (frame : List ℕ) (n : ℕ) (src : List ℕ) (size : ℕ) (bytes : List ℕ)
    → Written frame n bytes
    → n + size ≤ 256
    → size ≤ length src
    → Written (copy_at frame n src size) (n + size) (bytes ++ take size src)
Written-copy_at frame n src size bytes w h k =
    let room : size ≤ length (drop n frame) = omega (arith, length-drop n frame, w.whole) in
    let long : length (take n frame) ≡ n = omega (arith, length-take n frame, w.whole) in
    let copied = lgw_memcpy_lem (drop n frame) src size room k in
    let copied_long : length (take size src) ≡ size = omega (arith, length-take size src) in
    let both : length (take n frame ++ take size src) ≡ n + size =
      omega (arith, length-append (take n frame) (take size src)) in
    let shape : copy_at frame n src size
        ≡ (take n frame ++ take size src) ++ drop size (drop n frame) =
      ap (λ t. take n frame ++ t) copied
      ∙ sym (append_assoc (take n frame) (take size src) (drop size (drop n frame))) in
    record {
      prefix =
          ap (take (n + size)) shape
          ∙ take-append (n + size) (take n frame ++ take size src) (drop size (drop n frame)) both
          ∙ ap (λ b. b ++ take size src) w.prefix;
      whole =
          ap length shape
          ∙ length-append (take n frame ++ take size src) (drop size (drop n frame))
          ∙ omega (arith, both, length-drop size (drop n frame), length-drop n frame, w.whole);
    }
