-- ===== src/Packet/DnList.antt =====
-- The downlinks that wait for an uplink of their device, `dn_list`: how `pkt_prepare_downlink` adds
-- one, and `search_dn_list`.
use dragino_fwd_src_lps8_mqt.Base.{
  ℕ, ◌+◌, ◌-◌, Bool, List, [], ◌∷◌, ◌++◌, Option, none, some, if◌then◌else◌, ltb,
}
use dragino_fwd_src_lps8_mqt.Packet.{DnPkt}

pub record DnList : Type 0 where
  pub entries : List DnPkt
  pub size : ℕ

-- The tests of the C library for equal texts, with and without regard to case.
pub record Texts : Type 0 where
  pub same_text : List ℕ → List ℕ → Bool
  pub same_letters : List ℕ → List ℕ → Bool

-- `LGW_LIST_REMOVE_HEAD` and `size--`.
unfoldable pub remove_head : DnList → DnList
remove_head l = elim (l.entries) [ [] ↦ l | d ∷ ds ↦ record { entries = ds; size = l.size - 1 } ]

module _ (texts : Texts) where
  -- The traversal that removes the downlinks for the same address.
  unfoldable pub remove_same : List ℕ → List DnPkt → ℕ → DnList
  remove_same devaddr [] size = record { entries = []; size = size }
  remove_same devaddr (d ∷ ds) size =
      let removed = remove_same devaddr ds (size - 1) in
      let kept = remove_same devaddr ds size in
      if texts.same_text d.devaddr devaddr
      then removed
      else record kept { entries = d ∷ kept.entries }

  unfoldable pub insert_dn : DnPkt → DnList → DnList
  unfolding remove_head remove_same
  insert_dn entry l =
      let trimmed = if ltb 16 l.size then remove_head l else l in
      let others = remove_same entry.devaddr trimmed.entries trimmed.size in
      record { entries = others.entries ++ (entry ∷ []); size = others.size + 1 }

  unfoldable pub search_dn_list : List ℕ → List DnPkt → Option DnPkt
  search_dn_list addr [] = none
  search_dn_list addr (d ∷ ds) =
      let rest = search_dn_list addr ds in
      if texts.same_letters d.devaddr addr then some d else rest
