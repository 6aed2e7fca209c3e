-- ===== src/Base64/Bounds.antt =====
-- The decoder stays in the buffer that it is given.
use dragino_fwd_src_lps8_mqt.Base.{
  ℕ, ◌-◌, ◌%◌, ◌≤◌, ◌≡◌, refl, ◌&&◌, inl, inr, List, arith, length, take, get_or, ltb, leb, ◌==◌,
  Bool-cases, Option-cases,
}
use mathlib.Core.Path.{subst}
use dragino_fwd_src_lps8_mqt.Base64.{
  Coded, done, fails, exits, code_pad, decode_blocks, b64_to_bin_nopad, b64_to_bin,
}
use dragino_fwd_src_lps8_mqt.Base64.RoundTrip.{bytes_len, length-decode_blocks}

-- What a successful run says of its output.
abbrev InBuffer : ℕ → Coded → Type 0
InBuffer max_len (done ret out) = (length out ≡ ret) × (ret ≤ max_len)
InBuffer max_len fails = Unit
InBuffer max_len exits = Unit

nopad-InBuffer : (inp : List ℕ) (max_len : ℕ) → InBuffer max_len (b64_to_bin_nopad inp max_len)
unfolding b64_to_bin_nopad
nopad-InBuffer inp max_len = elim (Bool-cases (length inp == 0)) [
  | inl z ↦ rw z (refl, omega arith)
  | inr z ↦ elim (Bool-cases (length inp % 4 == 1)) [
    | inl one ↦ rw (z, one) tt
    | inr one ↦ elim (Bool-cases (ltb max_len (bytes_len (length inp)))) [
      | inl small ↦ rw (z, one, small) tt
      | inr room ↦ elim (Option-cases (decode_blocks inp)) [
        | inl bad ↦ rw (z, one, room, bad) tt
        | inr (out, good) ↦
            rw (z, one, room, good)
              (
                length-decode_blocks inp out (λ e. ground (arith, one, e)) good,
                ground (arith, room),
              )
      ]
    ]
  ]
]

padded-InBuffer : (inp : List ℕ) (max_len : ℕ) → InBuffer max_len (b64_to_bin inp max_len)
unfolding b64_to_bin
padded-InBuffer inp max_len =
    let size = length inp in
    elim (Bool-cases (size % 4 == 0 && leb 4 size)) [
      | inl blocks ↦ elim (Bool-cases (get_or inp (size - 2) 0 == code_pad)) [
        | inl two ↦ rw (blocks, two) (nopad-InBuffer (take (size - 2) inp) max_len)
        | inr two ↦ elim (Bool-cases (get_or inp (size - 1) 0 == code_pad)) [
          | inl one ↦ rw (blocks, two, one) (nopad-InBuffer (take (size - 1) inp) max_len)
          | inr one ↦ rw (blocks, two, one) (nopad-InBuffer inp max_len)
        ]
      ]
      | inr blocks ↦ rw blocks (nopad-InBuffer inp max_len)
    ]

-- Where b64_to_bin returns a size, whatever the text and the size of the buffer, it has written that many bytes, and they fit in the buffer.
pub b64_to_bin_in_buffer :
    (inp : List ℕ) (max_len ret : ℕ) (out : List ℕ)
    → b64_to_bin inp max_len ≡ done ret out
    → (length out ≡ ret) × (ret ≤ max_len)
b64_to_bin_in_buffer inp max_len ret out e =
    subst (InBuffer max_len) e (padded-InBuffer inp max_len)
