-- ===== src/Ghost.antt =====
-- The buffer of ghost packets, src/fwd/src/ghost.c. A packet is what `fill_rx` makes of a datagram.
pub mod Buffered
mod Tests
use dragino_fwd_src_lps8_mqt.Base.{
  ℕ, ◌+◌, ◌-◌, Bool, List, [], ◌∷◌, Option, none, some, if◌then◌else◌, ◌==◌, ltb, u8, set, take,
}

abbrev pub ghst_nb_pkt : ℕ
ghst_nb_pkt = 12

-- The static array `rxpkt` of 12 packets and `cnt_ghost`.
pub record Ghost {ℓ} (P : Type ℓ) : Type ℓ where
  pub rxpkt : List P
  pub cnt_ghost : ℕ

-- What `memcpy` copies: packets of the array, or so many entries, which reach beyond it.
pub data Copied {ℓ} (P : Type ℓ) : Type ℓ where
  copies : List P → Copied P
  reads_beyond : ℕ → Copied P

module _ {ℓ} {P : Type ℓ} where
  -- A datagram arrives. `none` is the write before the array when `cnt_ghost` wraps round to 0.
  unfoldable pub thread_ghost : P → Ghost P → Option (Ghost P)
  thread_ghost pkt g =
      let cnt = u8 (g.cnt_ghost + 1) in
      if ltb ghst_nb_pkt cnt
      then some (record g { cnt_ghost = cnt })
      else if cnt == 0
      then none
      else some (record { rxpkt = set g.rxpkt (cnt - 1) pkt; cnt_ghost = cnt })

  -- What is copied, the result, and the buffer after it. `max_pkt` is not looked at.
  unfoldable pub ghost_get : (max_pkt : ℕ) → Ghost P → Copied P × ℕ × Ghost P
  ghost_get max_pkt g =
      let copied =
        if ltb ghst_nb_pkt g.cnt_ghost
        then reads_beyond g.cnt_ghost
        else copies (take g.cnt_ghost g.rxpkt) in
      if g.cnt_ghost == 0
      then (copies [], 0, g)
      else (copied, g.cnt_ghost, record g { cnt_ghost = 0 })
