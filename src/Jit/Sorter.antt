-- ===== src/Jit/Sorter.antt =====
-- A platform on which the library's assumptions hold: insertion sort, a minute on air at most.
use dragino_fwd_src_lps8_mqt.Base.{
  ℕ, ◌≤◌, ◌<◌, ◌^◌, ◌≡◌, refl, true, List, [], ◌∷◌, arith, All, if◌then◌else◌, Bool-cases, inl, inr,
  ◌↔◌, u32,
}
use dragino_fwd_src_lps8_mqt.Base.Perms.{perm_refl, perm_symm, All-perm}
use mathlib.Core.List.{Permᴰ}
use native.Mathlib.Nat.{le_trans}
use dragino_fwd_src_lps8_mqt.Jit.Types.{Node}
use dragino_fwd_src_lps8_mqt.Jit.Platform.{Platform, not_after, OrdersBy, Ascending}

module _ (cmp : Node → Node → ℕ) where
  unfoldable pub insert : Node → List Node → List Node
  insert x [] = x ∷ []
  insert x (y ∷ ys) = if not_after cmp x y then x ∷ y ∷ ys else y ∷ insert x ys

  unfoldable pub sort : List Node → List Node
  unfolding insert
  sort [] = []
  sort (x ∷ xs) = insert x (sort xs)

  insert-perm : (x : Node) (ys : List Node) → Permᴰ (insert x ys) (x ∷ ys)
  unfolding insert
  insert-perm x [] = perm_refl (x ∷ [])
  insert-perm x (y ∷ ys) = elim (Bool-cases (not_after cmp x y)) [
    | inl e ↦ rw e (perm_refl (x ∷ y ∷ ys))
    | inr e ↦ rw e (Permᴰ.trans (Permᴰ.cons refl (insert-perm x ys)) (Permᴰ.swap refl refl))
  ]

  pub sort-perm : (xs : List Node) → Permᴰ (sort xs) xs
  unfolding sort
  sort-perm [] = Permᴰ.nil
  sort-perm (x ∷ xs) = Permᴰ.trans (insert-perm x (sort xs)) (Permᴰ.cons refl (sort-perm xs))

  module _ (key : Node → ℕ) where
    abbrev Fits : Node → Node → Type 0
    Fits a b = (not_after cmp a b ≡ true) ↔ (key a ≤ key b)

    All-le : (a b : ℕ) (ys : List Node) → a ≤ b → All (λ y. b ≤ key y) ys → All (λ y. a ≤ key y) ys
    All-le a b [] h k = tt
    All-le a b (y ∷ ys) h k = (le_trans h k.0, All-le a b ys h k.1)

    insert-Ascending :
        (x : Node) (ys : List Node)
        → All (Fits x) ys
        → Ascending key ys
        → Ascending key (insert x ys)
    unfolding insert
    insert-Ascending x [] f a = (tt, tt)
    insert-Ascending x (y ∷ ys) f a = elim (Bool-cases (not_after cmp x y)) [
      | inl e ↦ let le : key x ≤ key y = f.0.0 e in rw e ((le, All-le (key x) (key y) ys le a.0), a)
      | inr e ↦
          let le : key y ≤ key x = ground (arith, f.0) in
          rw e (
            All-perm (λ z. key y ≤ key z) (perm_symm (insert-perm x ys)) (le, a.0),
            insert-Ascending x ys f.1 a.1,
          )
    ]

    All-tail :
        (x : Node) (xs ns : List Node)
        → All (λ a. All (Fits a) (x ∷ xs)) ns
        → All (λ a. All (Fits a) xs) ns
    All-tail x xs [] h = tt
    All-tail x xs (a ∷ ns) h = (h.0.1, All-tail x xs ns h.1)

    pub sort-Ascending : (xs : List Node) → OrdersBy key cmp xs → Ascending key (sort xs)
    unfolding sort
    sort-Ascending [] h = tt
    sort-Ascending (x ∷ xs) h =
        insert-Ascending x (sort xs) (All-perm (Fits x) (perm_symm (sort-perm xs)) h.0.1)
          (sort-Ascending xs (All-tail x xs xs h.1))

pub u32_exact : (n : ℕ) → n < 2 ^ 32 → u32 n ≡ n
u32_exact n h = omega arith

abbrev pub board : Platform
board = record {
  qsort_r = sort;
  qsort_r_perm = sort-perm;
  qsort_r_sorted = λ key cmp xs. sort-Ascending cmp key xs;
  time_on_air = λ p. 60;
  double_to_u32 = u32;
  double_to_u32_exact = u32_exact;
}
