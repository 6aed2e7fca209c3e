-- ===== src/Base/Perms.antt =====
-- Rearrangements of a list: what they keep, and removal from the middle of an array.
use Prim.Native.Nat.{ℕ, zero, suc, ◌+◌, ◌≤◌, ◌<◌}
use mathlib.Core.Path.{◌≡◌, refl, sym, subst, ◌∙◌, ap}
use mathlib.Core.List.{List, [], ◌∷◌, ◌++◌, Permᴰ}
use native.Mathlib.Omega.{arith}
use native.Mathlib.Decide.{dec_lt}
use native.Mathlib.Nat.{le_refl}
use dragino_fwd_src_lps8_mqt.Base.Lists.{length, get_or, set, take, All}
use dragino_fwd_src_lps8_mqt.Base.Lists.{length-take, take-set_of_le, get_or-take}

module _ {ℓ} {A : Type ℓ} where
  pub perm_refl : (xs : List A) → Permᴰ xs xs
  perm_refl [] = Permᴰ.nil
  perm_refl (x ∷ xs) = Permᴰ.cons refl (perm_refl xs)

  pub perm_symm : {xs ys : List A} → Permᴰ xs ys → Permᴰ ys xs
  perm_symm Permᴰ.nil = Permᴰ.nil
  perm_symm (Permᴰ.cons e d) = Permᴰ.cons (sym e) (perm_symm d)
  perm_symm (Permᴰ.swap e f) = Permᴰ.swap (sym f) (sym e)
  perm_symm (Permᴰ.trans d e) = Permᴰ.trans (perm_symm e) (perm_symm d)

  -- An element moved from the end to the front.
  pub perm_snoc : (x : A) (xs : List A) → Permᴰ (xs ++ (x ∷ [])) (x ∷ xs)
  perm_snoc x [] = perm_refl (x ∷ [])
  perm_snoc x (y ∷ xs) = Permᴰ.trans (Permᴰ.cons refl (perm_snoc x xs)) (Permᴰ.swap refl refl)

  pub length-perm : {xs ys : List A} → Permᴰ xs ys → length xs ≡ length ys
  length-perm Permᴰ.nil = refl
  length-perm (Permᴰ.cons e d) = ap suc (length-perm d)
  length-perm (Permᴰ.swap {l = l} e f) = refl
  length-perm (Permᴰ.trans d e) = length-perm d ∙ length-perm e

-- The sum of a weight over a list.
abbrev pub total {ℓ} : {A : Type ℓ} → (A → ℕ) → List A → ℕ
total w [] = 0
total w (x ∷ xs) = w x + total w xs

module _ {ℓ} {A : Type ℓ} (w : A → ℕ) where
  pub total-perm : {xs ys : List A} → Permᴰ xs ys → total w xs ≡ total w ys
  total-perm Permᴰ.nil = refl
  total-perm (Permᴰ.cons e d) = omega (arith, ap w e, total-perm d)
  total-perm (Permᴰ.swap e f) = omega (arith, ap w e, ap w f)
  total-perm (Permᴰ.trans d e) = total-perm d ∙ total-perm e

-- `R` between every two elements at different places.
abbrev pub Pairs {ℓ κ} : {A : Type ℓ} → (A → A → Type κ) → List A → Type κ
Pairs R [] = Unit
Pairs R (x ∷ xs) = All (R x) xs × Pairs R xs

module _ {ℓ κ} {A : Type ℓ} (P : A → Type κ) where
  pub All-perm : {xs ys : List A} → Permᴰ xs ys → All P xs → All P ys
  All-perm Permᴰ.nil h = h
  All-perm (Permᴰ.cons e d) h = (subst P e h.0, All-perm d h.1)
  All-perm (Permᴰ.swap e f) h = (subst P f h.1.0, (subst P e h.0, h.1.1))
  All-perm (Permᴰ.trans d e) h = All-perm e (All-perm d h)

  pub All-get_or : (xs : List A) (i : ℕ) (d : A) → i < length xs → All P xs → P (get_or xs i d)
  All-get_or [] i d h a = absurd (omega arith)
  All-get_or (x ∷ xs) zero d h a = a.0
  All-get_or (x ∷ xs) (suc i) d h a = All-get_or xs i d (omega arith) a.1

module _ {ℓ κ} {A : Type ℓ} (R : A → A → Type κ) (R-symm : (a b : A) → R a b → R b a) where
  All-subst : {a b : A} (xs : List A) → a ≡ b → All (R a) xs → All (R b) xs
  All-subst xs e = subst (λ a. All (R a) xs) e

  pub Pairs-perm : {xs ys : List A} → Permᴰ xs ys → Pairs R xs → Pairs R ys
  Pairs-perm Permᴰ.nil h = h
  Pairs-perm (Permᴰ.cons {l₁ = xs} {l₂ = ys} e d) h =
      (All-perm (R _) d (All-subst xs e h.0), Pairs-perm d h.1)
  Pairs-perm (Permᴰ.swap {a = a} {b = b} {a' = c} {b' = d} {l = xs} e f) h = (
    (subst (λ x. R c x) e (subst (λ x. R x a) f (R-symm a b h.0.0)), All-subst xs f h.1.0),
    (All-subst xs e h.0.1, h.1.1),
  )
  Pairs-perm (Permᴰ.trans d e) h = Pairs-perm e (Pairs-perm d h)

module _ {ℓ} {A : Type ℓ} where
  -- Overwriting an entry exchanges it for the new value.
  pub set-perm :
      (xs : List A) (i : ℕ) (v d : A) → i < length xs → Permᴰ (get_or xs i d ∷ set xs i v) (v ∷ xs)
  set-perm [] i v d h = absurd (omega arith)
  set-perm (x ∷ xs) zero v d h = Permᴰ.swap refl refl
  set-perm (x ∷ xs) (suc i) v d h =
      Permᴰ.trans (Permᴰ.swap refl refl)
        (Permᴰ.trans (Permᴰ.cons refl (set-perm xs i v d (omega arith))) (Permᴰ.swap refl refl))

  pub take_snoc :
      (n : ℕ) (xs : List A) (d : A)
      → n < length xs
      → take (suc n) xs ≡ take n xs ++ (get_or xs n d ∷ [])
  take_snoc n [] d h = absurd (omega arith)
  take_snoc zero (x ∷ xs) d h = refl
  take_snoc (suc n) (x ∷ xs) d h = ap (◌∷◌ x) (take_snoc n xs d (omega arith))

  pub take-set_of_lt :
      (n i : ℕ) (xs : List A) (v : A) → i < n → take n (set xs i v) ≡ set (take n xs) i v
  take-set_of_lt zero i xs v h = absurd (omega arith)
  take-set_of_lt (suc n) i [] v h = refl
  take-set_of_lt (suc n) zero (x ∷ xs) v h = refl
  take-set_of_lt (suc n) (suc i) (x ∷ xs) v h = ap (◌∷◌ x) (take-set_of_lt n i xs v (omega arith))

  -- An entry of the first `m + 1` is taken out: the last of them fills its place, and the place
  -- of the last is cleared. What is left of the first `m` are the other entries.
  pub swap_remove :
      (xs : List A) (i m : ℕ) (z d : A)
      → i ≤ m
      → m < length xs
      → Permᴰ (get_or xs i d ∷ take m (set (set xs i (get_or xs m d)) m z)) (take (suc m) xs)
  swap_remove xs i m z d h k = elim (dec_lt i m) [
    | yes lt ↦ rw (take-set_of_le m m (set xs i (get_or xs m d)) z (le_refl m)) (
        rw (take-set_of_lt m i xs (get_or xs m d) lt, take_snoc m xs d k)
          (Permᴰ.trans
            (rw (← get_or-take m i xs d lt)
              (set-perm (take m xs) i (get_or xs m d) d (omega (arith, length-take m xs))))
            (perm_symm (perm_snoc (get_or xs m d) (take m xs)))))
    | no ge ↦
        let e : i ≡ m = omega arith in
        rw
          (
            e,
            take-set_of_le m m (set xs m (get_or xs m d)) z (le_refl m),
            take-set_of_le m m xs (get_or xs m d) (le_refl m),
            take_snoc m xs d k,
          )
          (perm_symm (perm_snoc (get_or xs m d) (take m xs)))
  ]
