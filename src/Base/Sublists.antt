-- ===== src/Base/Sublists.antt =====
-- Lists without some of their members, in the same order.
use mathlib.Core.List.{List, [], ◌∷◌, ◌++◌}

-- The first list is the second one without some of its members.
pub data Sublist {ℓ} {A : Type ℓ} : List A → List A → Type ℓ where
  none_left : Sublist [] []
  both : (a : A) {xs ys : List A} → Sublist xs ys → Sublist (a ∷ xs) (a ∷ ys)
  skip : (a : A) {xs ys : List A} → Sublist xs ys → Sublist xs (a ∷ ys)

module _ {ℓ} {A : Type ℓ} where
  pub Sublist-refl : (xs : List A) → Sublist xs xs
  Sublist-refl [] = none_left
  Sublist-refl (x ∷ xs) = both x (Sublist-refl xs)

  pub Sublist-trans :
      {ys zs : List A} → Sublist ys zs → {xs : List A} → Sublist xs ys → Sublist xs zs
  Sublist-trans none_left s = s
  Sublist-trans (both b t) (both a s) = both a (Sublist-trans t s)
  Sublist-trans (both b t) (skip a s) = skip b (Sublist-trans t s)
  Sublist-trans (skip b t) s = skip b (Sublist-trans t s)

  pub Sublist-append :
      {xs ys : List A} (a : A) → Sublist xs ys → Sublist (xs ++ (a ∷ [])) (ys ++ (a ∷ []))
  Sublist-append a none_left = both a none_left
  Sublist-append a (both b s) = both b (Sublist-append a s)
  Sublist-append a (skip b s) = skip b (Sublist-append a s)

  pub Sublist-behind :
      (xs : List A) {ys zs : List A} → Sublist ys zs → Sublist (xs ++ ys) (xs ++ zs)
  Sublist-behind [] s = s
  Sublist-behind (x ∷ xs) s = both x (Sublist-behind xs s)
