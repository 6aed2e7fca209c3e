-- ===== src/Packet/Waiting.antt =====
-- The list of waiting downlinks keeps the newest one for each device.
use dragino_fwd_src_lps8_mqt.Base.{
  ℕ, suc, ◌+◌, ◌-◌, ◌≤◌, ◌≡◌, refl, ap, ◌∙◌, inl, inr, true, false, List, [], ◌∷◌, ◌++◌, some,
  lt→ltb, ge→ltb, length, length-append, arith, leb_cases, Bool-cases, All,
}
use dragino_fwd_src_lps8_mqt.Packet.{DnPkt}
use dragino_fwd_src_lps8_mqt.Packet.DnList.{
  DnList, Texts, remove_head, remove_same, insert_dn, search_dn_list,
}

module _ (texts : Texts) where
  open texts use {same_text, same_letters}

  -- The addresses differ in more than the case of their letters, or not at all.
  abbrev pub OneSpelling : List ℕ → DnPkt → Type 0
  OneSpelling addr d = same_letters d.devaddr addr ≡ true → same_text d.devaddr addr ≡ true

  remove_same-size :
      (addr : List ℕ) (ds : List DnPkt) (size spare : ℕ)
      → size ≡ length ds + spare
      → (remove_same texts addr ds size).size
          ≡ length (remove_same texts addr ds size).entries + spare
        × length (remove_same texts addr ds size).entries ≤ length ds
  unfolding remove_same
  remove_same-size addr [] size spare h = (h, omega arith)
  remove_same-size addr (d ∷ ds) size spare h = elim (Bool-cases (same_text d.devaddr addr)) [
    | inl t ↦
        let (a, b) = remove_same-size addr ds (size - 1) spare (omega arith) in
        rw t (a, omega (arith, b))
    | inr t ↦
        let (a, b) = remove_same-size addr ds size (suc spare) (omega arith) in
        rw t (omega (arith, a), omega (arith, b))
  ]

  -- Without the downlinks for the address the search for it finds the one behind them.
  search-removed :
      (e : DnPkt) (ds : List DnPkt) (size : ℕ)
      → same_letters e.devaddr e.devaddr ≡ true
      → All (OneSpelling e.devaddr) ds
      → search_dn_list texts e.devaddr ((remove_same texts e.devaddr ds size).entries ++ (e ∷ []))
        ≡ some e
  unfolding remove_same search_dn_list
  search-removed e [] size own s = rw own refl
  search-removed e (d ∷ ds) size own (one, s) = elim (Bool-cases (same_text d.devaddr e.devaddr)) [
    | inl t ↦ rw t (search-removed e ds (size - 1) own s)
    | inr t ↦ elim (Bool-cases (same_letters d.devaddr e.devaddr)) [
      | inl l ↦ absurd (ground (arith, one l))
      | inr l ↦ rw (t, l) (search-removed e ds size own s)
    ]
  ]

  -- The search for another address.
  search-kept :
      (e : DnPkt) (addr : List ℕ) (ds : List DnPkt) (size : ℕ)
      → ((a b : List ℕ) → same_text a b ≡ true → a ≡ b)
      → same_letters e.devaddr addr ≡ false
      → search_dn_list texts addr ((remove_same texts e.devaddr ds size).entries ++ (e ∷ []))
        ≡ search_dn_list texts addr ds
  unfolding remove_same search_dn_list
  search-kept e addr [] size exact other = rw other refl
  search-kept e addr (d ∷ ds) size exact other = elim (Bool-cases (same_text d.devaddr e.devaddr)) [
    | inl t ↦
        let off : same_letters d.devaddr addr ≡ false =
          ap (λ a. same_letters a addr) (exact d.devaddr e.devaddr t) ∙ other in
        rw (t, off) (search-kept e addr ds (size - 1) exact other)
    | inr t ↦ elim (Bool-cases (same_letters d.devaddr addr)) [
      | inl l ↦ rw (t, l) refl
      | inr l ↦ rw (t, l) (search-kept e addr ds size exact other)
    ]
  ]

  heads :
      (ds : List DnPkt) (size : ℕ)
      → size ≡ length ds
      → (let l = remove_head (record { entries = ds; size = size }) in
          (l.size ≡ length l.entries) × (length l.entries ≡ length ds - 1))
  unfolding remove_head
  heads [] size h = (h, refl)
  heads (d ∷ ds) size h = (omega arith, omega arith)

  remove_head-size :
      (l : DnList)
      → l.size ≡ length l.entries
      → ((remove_head l).size ≡ length (remove_head l).entries)
        × (length (remove_head l).entries ≡ length l.entries - 1)
  unfolding remove_head
  remove_head-size l h = heads l.entries l.size h

  -- A new downlink keeps the counter of the list right and its length at 17 at most. While there are at most 16 downlinks, and none is for the same device under another spelling of its address, the search for the device finds the new one, and the search for another device finds what it found before.
  pub insert_dn_search :
      (e : DnPkt) (l : DnList)
      → ((a b : List ℕ) → same_text a b ≡ true → a ≡ b)
      → same_letters e.devaddr e.devaddr ≡ true
      → l.size ≡ length l.entries
      → l.size ≤ 17
      → ((insert_dn texts e l).size ≡ length (insert_dn texts e l).entries)
        × ((insert_dn texts e l).size ≤ 17)
        × (l.size ≤ 16
            → All (OneSpelling e.devaddr) l.entries
            → (search_dn_list texts e.devaddr (insert_dn texts e l).entries ≡ some e)
              × ((addr : List ℕ)
                  → same_letters e.devaddr addr ≡ false
                  → search_dn_list texts addr (insert_dn texts e l).entries
                    ≡ search_dn_list texts addr l.entries))
  unfolding insert_dn
  insert_dn_search e l exact own at few = elim (leb_cases l.size 16) [
    | inl room ↦
        let (a, b) = remove_same-size e.devaddr l.entries l.size 0 (omega (arith, at)) in
        let rest = (remove_same texts e.devaddr l.entries l.size).entries in
        rw (ge→ltb 16 l.size room) (
          omega (arith, a, length-append rest (e ∷ [])),
          omega (arith, a, b, at),
          (λ h spelled. (
            search-removed e l.entries l.size own spelled,
            (λ addr other. search-kept e addr l.entries l.size exact other),
          )),
        )
    | inr over ↦
        let (c, d) = remove_head-size l at in
        let t = remove_head l in
        let (a, b) = remove_same-size e.devaddr t.entries t.size 0 (omega (arith, c)) in
        let rest = (remove_same texts e.devaddr t.entries t.size).entries in
        rw (lt→ltb 16 l.size over) (
          omega (arith, a, length-append rest (e ∷ [])),
          omega (arith, a, b, d, at),
          (λ h. absurd (omega arith)),
        )
  ]
