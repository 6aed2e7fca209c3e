-- ===== src/Jit/Platform.antt =====
-- What jitqueue.c calls and does not implement: `qsort_r`, of the C library or of the copy in the
-- HAL; `lgw_time_on_air` of the HAL, of which nothing is assumed; and the conversion from double to
-- uint32_t.
use dragino_fwd_src_lps8_mqt.Base.{
  ℕ, ◌^◌, ◌≤◌, ◌<◌, ◌≡◌, ◌↔◌, Bool, true, List, [], ◌∷◌, ◌||◌, ◌==◌, leb, All,
}
use mathlib.Core.List.{Permᴰ}
use dragino_fwd_src_lps8_mqt.Jit.Types.{TxPkt, Node}

-- A comparator returns the bit pattern of an `int`; this says that it is not positive.
abbrev pub not_after : (Node → Node → ℕ) → Node → Node → Bool
not_after cmp a b = cmp a b == 0 || leb (2 ^ 31) (cmp a b)

-- On these nodes the comparator orders by a key.
abbrev pub OrdersBy : (Node → ℕ) → (Node → Node → ℕ) → List Node → Type 0
OrdersBy key cmp xs = All (λ a. All (λ b. (not_after cmp a b ≡ true) ↔ (key a ≤ key b)) xs) xs

abbrev pub Ascending : (Node → ℕ) → List Node → Type 0
Ascending key [] = Unit
Ascending key (x ∷ xs) = All (λ y. key x ≤ key y) xs × Ascending key xs

pub record Platform : Type 0 where
  pub qsort_r : (Node → Node → ℕ) → List Node → List Node
  -- It rearranges the array, whatever the comparator.
  pub qsort_r_perm : (cmp : Node → Node → ℕ) (xs : List Node) → Permᴰ (qsort_r cmp xs) xs
  -- It sorts where the comparator is an order.
  pub qsort_r_sorted :
      (key : Node → ℕ) (cmp : Node → Node → ℕ) (xs : List Node)
      → OrdersBy key cmp xs
      → Ascending key (qsort_r cmp xs)
  -- Milliseconds.
  pub time_on_air : TxPkt → ℕ
  -- Of a double with a whole value; C defines it below 2^32 only.
  pub double_to_u32 : ℕ → ℕ
  pub double_to_u32_exact : (n : ℕ) → n < 2 ^ 32 → double_to_u32 n ≡ n
