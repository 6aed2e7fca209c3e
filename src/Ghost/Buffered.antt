-- ===== src/Ghost/Buffered.antt =====
-- What `ghost_get` gives after some datagrams.
use dragino_fwd_src_lps8_mqt.Base.{
  ℕ, suc, ◌+◌, ◌-◌, ◌<◌, ◌≤◌, ◌≡◌, refl, sym, ap, ◌∙◌, inl, inr, List, [], ◌∷◌, ◌++◌, Option, none,
  some, ==_false, lt→ltb, ge→ltb, u8, set, take, length, length-set, take-set, append_assoc,
  append-nil, arith, leb_cases,
}
use dragino_fwd_src_lps8_mqt.Ghost.{Ghost, copies, reads_beyond, thread_ghost, ghost_get}

module _ {ℓ} {P : Type ℓ} where
  -- Datagrams one after the other.
  abbrev pub arrivals : List P → Ghost P → Option (Ghost P)
  arrivals [] g = some g
  arrivals (p ∷ ps) g = elim (thread_ghost p g) [ none ↦ none | some g' ↦ arrivals ps g' ]

  -- What the buffer then is: all packets in their order while there is room, the count anyway.
  abbrev Arrived : List P → Ghost P → Ghost P → Type ℓ
  Arrived ps g g' =
      (g'.cnt_ghost ≡ g.cnt_ghost + length ps)
      × (length g'.rxpkt ≡ 12)
      × (g.cnt_ghost + length ps ≤ 12
          → take (g.cnt_ghost + length ps) g'.rxpkt ≡ take g.cnt_ghost g.rxpkt ++ ps)

  thread_ghost-full :
      (p : P) (g : Ghost P)
      → 12 ≤ g.cnt_ghost
      → g.cnt_ghost < 255
      → thread_ghost p g ≡ some (record g { cnt_ghost = suc g.cnt_ghost })
  unfolding thread_ghost
  thread_ghost-full p g full low =
      let next : u8 (g.cnt_ghost + 1) ≡ suc g.cnt_ghost = omega arith in
      rw (next, lt→ltb 12 (suc g.cnt_ghost) (omega arith)) refl

  thread_ghost-room :
      (p : P) (g : Ghost P)
      → g.cnt_ghost < 12
      → thread_ghost p g
        ≡ some (record { rxpkt = set g.rxpkt g.cnt_ghost p; cnt_ghost = suc g.cnt_ghost })
  unfolding thread_ghost
  thread_ghost-room p g room =
      let next : u8 (g.cnt_ghost + 1) ≡ suc g.cnt_ghost = omega arith in
      let back : suc g.cnt_ghost - 1 ≡ g.cnt_ghost = omega arith in
      rw
        (
          next,
          ge→ltb 12 (suc g.cnt_ghost) (omega arith),
          ==_false (suc g.cnt_ghost) 0 (λ e. omega (arith, e)),
          back,
        )
        refl

  arrivals-Arrived :
      (ps : List P) (g : Ghost P)
      → g.cnt_ghost + length ps ≤ 255
      → length g.rxpkt ≡ 12
      → (g' : Ghost P) × (arrivals ps g ≡ some g') × Arrived ps g g'
  arrivals-Arrived [] g few size = (
    g,
    refl,
    (
      omega arith,
      size,
      λ h.
          let same : g.cnt_ghost + 0 ≡ g.cnt_ghost = omega arith in
          ap (λ (n : ℕ). take n g.rxpkt) same ∙ sym (append-nil (take g.cnt_ghost g.rxpkt)),
    ),
  )
  arrivals-Arrived (p ∷ ps) g few size =
      let onward : Option (Ghost P) → Option (Ghost P) =
        λ o. elim o [ none ↦ none | some g' ↦ arrivals ps g' ] in
      elim (leb_cases 12 g.cnt_ghost) [
        | inl full ↦
            let (g', run, (count, size', order)) =
              arrivals-Arrived ps (record g { cnt_ghost = suc g.cnt_ghost }) (omega arith) size in
            (
              g',
              ap onward (thread_ghost-full p g full (omega arith)) ∙ run,
              (omega (arith, count), size', λ h. absurd (omega arith)),
            )
        | inr room ↦
            let next : Ghost P = record {
              rxpkt = set g.rxpkt g.cnt_ghost p;
              cnt_ghost = suc g.cnt_ghost;
            } in
            let (g', run, (count, size', order)) =
              arrivals-Arrived ps next (omega arith) (length-set g.rxpkt g.cnt_ghost p ∙ size) in
            let shift : g.cnt_ghost + suc (length ps) ≡ suc g.cnt_ghost + length ps = omega arith in
            (
              g',
              ap onward (thread_ghost-room p g room) ∙ run,
              (
                omega (arith, count),
                size',
                λ h.
                    ap (λ (n : ℕ). take n g'.rxpkt) shift
                    ∙ order (omega arith)
                    ∙ ap (λ b. b ++ ps) (take-set g.cnt_ghost g.rxpkt p (omega arith))
                    ∙ append_assoc (take g.cnt_ghost g.rxpkt) (p ∷ []) ps,
              ),
            )
      ]

  -- After at most 255 datagrams for an empty buffer, ghost_get returns their number, whatever it is asked for, and empties the buffer. It copies their packets in order if there are at most 12; if there are more, it copies that many entries from an array of 12.
  pub ghost_get_copies :
      (ps : List P) (slots : List P) (max_pkt : ℕ)
      → 1 ≤ length ps
      → length ps ≤ 255
      → length slots ≡ 12
      → (g : Ghost P) × (arrivals ps (record { rxpkt = slots; cnt_ghost = 0 }) ≡ some g)
        × ((ghost_get max_pkt g).1 ≡ length ps)
        × ((ghost_get max_pkt g).2.cnt_ghost ≡ 0)
        × (length ps ≤ 12 → (ghost_get max_pkt g).0 ≡ copies ps)
        × (12 < length ps → (ghost_get max_pkt g).0 ≡ reads_beyond (length ps))
  unfolding ghost_get
  ghost_get_copies ps slots max_pkt some_in few size =
      let start : Ghost P = record { rxpkt = slots; cnt_ghost = 0 } in
      let (g, run, (count, size', order)) = arrivals-Arrived ps start (omega arith) size in
      let n : g.cnt_ghost ≡ length ps = count ∙ omega arith in
      let busy = ==_false g.cnt_ghost 0 (λ e. omega (arith, e, n)) in
      let all : 0 + length ps ≡ g.cnt_ghost = omega (arith, n) in
      (
        g,
        run,
        rw busy n,
        rw busy refl,
        (λ h.
            rw (busy, ge→ltb 12 g.cnt_ghost (omega (arith, n)))
              (ap copies (ap (λ (k : ℕ). take k g.rxpkt) (sym all) ∙ order (omega arith)))),
        (λ h. rw (busy, lt→ltb 12 g.cnt_ghost (omega (arith, n))) (ap reads_beyond n)),
      )
