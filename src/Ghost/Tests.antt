-- ===== src/Ghost/Tests.antt =====
-- The theorem on ghost packets for three datagrams.
use dragino_fwd_src_lps8_mqt.Base.{ℕ, List, [], ◌∷◌}

abbrev datagrams : List ℕ
datagrams = 5 ∷ 6 ∷ 7 ∷ []
