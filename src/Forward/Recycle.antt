-- ===== src/Forward/Recycle.antt =====
-- What `thread_rxpkt_recycle` removes.
use dragino_fwd_src_lps8_mqt.Base.{
  ℕ, suc, ◌+◌, ◌-◌, ◌<◌, ◌≤◌, ◌≡◌, ◌⊎◌, inl, inr, true, false, List, [], ◌∷◌, ltb, lt→ltb, length,
  arith, All, sub32, Bool-cases,
}
use dragino_fwd_src_lps8_mqt.Forward.{
  RxPkts, RxPktsList, is_spent, recycle_pass, pass_over, thread_rxpkt_recycle,
  default_rxpkts_list_size, max_rxpkts_list_size,
}

module _ {ℓ} {P : Type ℓ} where
  -- The second list is the first one without some entries that have the property.
  pub data Thinned {κ} (Q : RxPkts P → Type κ)
      : List (RxPkts P) → List (RxPkts P) → Type (ℓ ⊔ κ) where
    done : Thinned Q [] []
    keep : (e : RxPkts P) {es ds : List (RxPkts P)} → Thinned Q es ds → Thinned Q (e ∷ es) (e ∷ ds)
    drop_spent :
        (e : RxPkts P) {es ds : List (RxPkts P)} → Q e → Thinned Q es ds → Thinned Q (e ∷ es) ds

  pub Thinned-refl {κ} : (Q : RxPkts P → Type κ) (es : List (RxPkts P)) → Thinned Q es es
  Thinned-refl Q [] = done
  Thinned-refl Q (e ∷ es) = keep e (Thinned-refl Q es)

  pub Thinned-trans {κ} :
      {Q : RxPkts P → Type κ} {a b c : List (RxPkts P)}
      → Thinned Q a b
      → Thinned Q b c
      → Thinned Q a c
  Thinned-trans done t = t
  Thinned-trans (keep e s) (keep d t) = keep e (Thinned-trans s t)
  Thinned-trans (keep e s) (drop_spent d q t) = drop_spent d q (Thinned-trans s t)
  Thinned-trans (drop_spent e q s) t = drop_spent e q (Thinned-trans s t)

  -- A weaker property, for lists whose members have one more.
  pub Thinned-within {κ μ ν} :
      {Q : RxPkts P → Type κ} {G : RxPkts P → Type ν} (R : RxPkts P → Type μ)
      {a b : List (RxPkts P)}
      → ((e : RxPkts P) → G e → Q e → R e)
      → Thinned Q a b
      → All G a
      → Thinned R a b
  Thinned-within R f done g = done
  Thinned-within R f (keep e s) (p, g) = keep e (Thinned-within R f s g)
  Thinned-within R f (drop_spent e q s) (p, g) = drop_spent e (f e p q) (Thinned-within R f s g)

  pub Thinned-map {κ μ} :
      {Q : RxPkts P → Type κ} {R : RxPkts P → Type μ} {a b : List (RxPkts P)}
      → ((e : RxPkts P) → Q e → R e)
      → Thinned Q a b
      → Thinned R a b
  Thinned-map f done = done
  Thinned-map f (keep e s) = keep e (Thinned-map f s)
  Thinned-map f (drop_spent e q s) = drop_spent e (f e q) (Thinned-map f s)

  pub Thinned-All {κ μ} :
      {Q : RxPkts P → Type κ} (R : RxPkts P → Type μ) {a b : List (RxPkts P)}
      → Thinned Q a b
      → All R a
      → All R b
  Thinned-All R done v = v
  Thinned-All R (keep e s) (p, v) = (p, Thinned-All R s v)
  Thinned-All R (drop_spent e q s) (p, v) = Thinned-All R s v

  Thinned-length {κ} :
      {Q : RxPkts P → Type κ} {a b : List (RxPkts P)} → Thinned Q a b → length b ≤ length a
  Thinned-length done = omega arith
  Thinned-length (keep e s) = omega (arith, Thinned-length s)
  Thinned-length (drop_spent e q s) = omega (arith, Thinned-length s)

  -- Spent: no service is left to take the entry, or it is older than the limit.
  abbrev pub Spent : (limit now : ℕ) → RxPkts P → Type 0
  Spent limit now e = (e.bind ≡ 0) ⊎ (limit < sub32 now e.entry_us)

  Spent-sound : (limit now : ℕ) (e : RxPkts P) → is_spent limit now e ≡ true → Spent limit now e
  unfolding is_spent
  Spent-sound limit now e h = ground arith

  Spent-complete :
      (limit now : ℕ) (e : RxPkts P) → is_spent limit now e ≡ false → ¬ Spent limit now e
  unfolding is_spent
  Spent-complete limit now e h s = ground arith

  -- One pass: what is removed, what stays, and the counter.
  abbrev pub Passed : (limit now : ℕ) → List (RxPkts P) → ℕ → RxPktsList P → Type ℓ
  Passed limit now es spare l =
      Thinned (Spent limit now) es l.entries
      × All (λ e. ¬ Spent limit now e) l.entries
      × (l.size ≡ length l.entries + spare)

  pub recycle_pass-Passed :
      (limit now : ℕ) (es : List (RxPkts P)) (size spare : ℕ)
      → size ≡ length es + spare
      → Passed limit now es spare (recycle_pass limit now es size)
  unfolding recycle_pass
  recycle_pass-Passed limit now [] size spare h = (done, tt, h)
  recycle_pass-Passed limit now (e ∷ es) size spare h = elim (Bool-cases (is_spent limit now e)) [
    | inl t ↦
        let (a, b, c) = recycle_pass-Passed limit now es (size - 1) spare (omega arith) in
        rw t (drop_spent e (Spent-sound limit now e t) a, b, c)
    | inr t ↦
        let (a, b, c) = recycle_pass-Passed limit now es size (suc spare) (omega arith) in
        rw t (keep e a, (Spent-complete limit now e t, b), omega arith)
  ]

  -- The counter of the list is right.
  abbrev pub IsSized : RxPktsList P → Type 0
  IsSized l = l.size ≡ length l.entries

  pub pass_over-Thinned :
      (bound limit now : ℕ) (l : RxPktsList P)
      → IsSized l
      → Thinned (Spent limit now) l.entries (pass_over bound limit now l).entries
        × IsSized (pass_over bound limit now l)
  pass_over-Thinned bound limit now l h = elim (Bool-cases (ltb bound l.size)) [
    | inl t ↦
        let (a, b, c) = recycle_pass-Passed limit now l.entries l.size 0 (omega arith) in
        rw t (a, omega arith)
    | inr t ↦ rw t (Thinned-refl (Spent limit now) l.entries, h)
  ]

  -- After a pass that the length calls for, nothing that is spent is left.
  pub pass_over-clean :
      (bound limit now : ℕ) (l : RxPktsList P)
      → IsSized l
      → bound < length l.entries
      → All (λ e. ¬ Spent limit now e) (pass_over bound limit now l).entries
  pass_over-clean bound limit now l h long =
      rw (lt→ltb bound l.size (omega arith))
        (recycle_pass-Passed limit now l.entries l.size 0 (omega arith)).1

  -- A turn on a list whose counter is right leaves the counter right and the order as it is, and removes an entry only when no service is left to take it, when it is older than 16 s, or when it is older than 12 s.
  pub thread_rxpkt_recycle-Thinned :
      (now now' : ℕ) (l : RxPktsList P)
      → IsSized l
      → Thinned
          (λ e. Spent 16000000 now e ⊎ Spent 12000000 now' e)
          l.entries
          (thread_rxpkt_recycle now now' l).entries
        × IsSized (thread_rxpkt_recycle now now' l)
  unfolding thread_rxpkt_recycle
  thread_rxpkt_recycle-Thinned now now' l h =
      let middle = pass_over default_rxpkts_list_size 16000000 now l in
      let (a, b) = pass_over-Thinned default_rxpkts_list_size 16000000 now l h in
      let (c, d) = pass_over-Thinned max_rxpkts_list_size 12000000 now' middle b in
      (Thinned-trans (Thinned-map (λ e. inl) a) (Thinned-map (λ e. inr) c), d)

  -- After a turn of thread_rxpkt_recycle on a list of more than 32 entries whose counter is right, each entry that is left has a service that did not take it and is at most 16 s old by the clock of the first pass; if more than 128 entries are left, each is at most 12 s old by the clock of the second pass.
  pub thread_rxpkt_recycle-clean :
      (now now' : ℕ) (l : RxPktsList P)
      → IsSized l
      → 32 < length l.entries
      → All (λ e. ¬ Spent 16000000 now e) (thread_rxpkt_recycle now now' l).entries
        × (128 < length (thread_rxpkt_recycle now now' l).entries
            → All (λ e. ¬ Spent 12000000 now' e) (thread_rxpkt_recycle now now' l).entries)
  unfolding thread_rxpkt_recycle
  thread_rxpkt_recycle-clean now now' l h long =
      let middle = pass_over default_rxpkts_list_size 16000000 now l in
      let first = pass_over-clean default_rxpkts_list_size 16000000 now l h long in
      let (a, b) = pass_over-Thinned default_rxpkts_list_size 16000000 now l h in
      let (c, d) = pass_over-Thinned max_rxpkts_list_size 12000000 now' middle b in
      (
        Thinned-All (λ e. ¬ Spent 16000000 now e) c first,
        (λ more.
            pass_over-clean max_rxpkts_list_size 12000000 now' middle b
              (omega (arith, more, Thinned-length c))),
      )
