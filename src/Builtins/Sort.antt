-- ===== src/Builtins/Sort.antt =====
-- src/builtins.c: llListSort, an exchange sort of the first items of each stride.
pub mod Permutation
pub mod Reference
pub mod Agreement
pub mod Ordered
pub mod Randomize
use sakura_slemu.Base.{
  ℕ, zero, suc, ◌+◌, Bool, true, false, not, ◌&&◌, Option, none, some, List, [], ◌∷◌, ℤ, pos,
  pos_part, to_i32, eq_ℤ, ltb_ℤ, ltb, str_lt, if◌then◌else◌, length, get_elem?, set,
}
use sakura_slemu.Double.{Double}
use sakura_slemu.Value.{SValue, integer, float, string, key, list, nil, items, of_items}
use sakura_slemu.Builtins.Args.{ai}

module _ {A : Type 0} where
  abbrev pub exchange : List A → ℕ → ℕ → Option A → Option A → List A
  exchange xs i j (some x) (some y) = set (set xs i y) j x
  exchange xs i j _ _ = xs

  -- The items at two places change places, if both are there.
  unfoldable pub swap_at : ℕ → ℕ → List A → List A
  swap_at i j xs = exchange xs i j (get_elem? xs i) (get_elem? xs j)

  -- for (k = 0; k < stride && i + k < len && j + k < len; k++): `n` rounds are left.
  unfoldable pub swap_stride : ℕ → ℕ → ℕ → List A → List A
  unfolding swap_at
  swap_stride zero i j xs = xs
  swap_stride (suc n) i j xs =
      let rest : List A = swap_stride n (suc i) (suc j) (swap_at i j xs) in
      if ltb i (length xs) && ltb j (length xs) then rest else xs

  abbrev pub test_at : (A → A → Bool) → Option A → Option A → Bool
  test_at wrong (some x) (some y) = wrong x y
  test_at wrong _ _ = false

  -- One round of the inner loop.
  unfoldable pub compare_at : (A → A → Bool) → ℕ → ℕ → ℕ → List A → List A
  unfolding swap_stride
  compare_at wrong stride i j xs =
      if test_at wrong (get_elem? xs i) (get_elem? xs j) then swap_stride stride i j xs else xs

  -- for (j = …; j < len; j += stride), with a bound on the rounds.
  unfoldable pub inner_loop : ℕ → (A → A → Bool) → ℕ → ℕ → ℕ → List A → List A
  unfolding compare_at
  inner_loop zero wrong stride i j xs = xs
  inner_loop (suc n) wrong stride i j xs =
      let rest : List A =
        inner_loop n wrong stride i (j + stride) (compare_at wrong stride i j xs) in
      if ltb j (length xs) then rest else xs

  -- for (i = …; i < len; i += stride), with a bound on the rounds.
  unfoldable pub outer_loop : ℕ → (A → A → Bool) → ℕ → ℕ → List A → List A
  unfolding inner_loop
  outer_loop zero wrong stride i xs = xs
  outer_loop (suc n) wrong stride i xs =
      let rest : List A =
        outer_loop n wrong stride (i + stride)
          (inner_loop (length xs) wrong stride i (i + stride) xs) in
      if ltb i (length xs) then rest else xs

  -- Both loops take at most one round for each item.
  unfoldable pub sort_strides : (A → A → Bool) → ℕ → List A → List A
  unfolding outer_loop
  sort_strides wrong stride xs = outer_loop (length xs) wrong stride 0 xs

module _ {F : Type 0} (D : Double F) where
  -- The test for a swap.
  unfoldable pub out_of_order : Bool → SValue F → SValue F → Bool
  out_of_order asc (integer a) (integer b) = if asc then ltb_ℤ b a else ltb_ℤ a b
  out_of_order asc (integer a) (float b) = if asc then D.lt b (D.of_int a) else D.lt (D.of_int a) b
  out_of_order asc (float a) (integer b) = if asc then D.lt (D.of_int b) a else D.lt a (D.of_int b)
  out_of_order asc (float a) (float b) = if asc then D.lt b a else D.lt a b
  out_of_order asc (string a) (string b) = if asc then str_lt b a else str_lt a b
  out_of_order asc (string a) (key b) = if asc then str_lt b a else str_lt a b
  out_of_order asc (key a) (string b) = if asc then str_lt b a else str_lt a b
  out_of_order asc (key a) (key b) = if asc then str_lt b a else str_lt a b
  out_of_order asc _ _ = false

  -- if (stride < 1) stride = 1
  abbrev pub stride_of : ℤ → ℕ
  stride_of i = if ltb_ℤ i (pos 1) then 1 else pos_part i

  unfoldable pub bi_ll_list_sort : List (SValue F) → SValue F
  unfolding ai out_of_order sort_strides to_i32
  bi_ll_list_sort (list l ∷ more) =
      let a = list l ∷ more in
      let stride = stride_of (to_i32 (ai D a 1)) in
      let asc = not (eq_ℤ (to_i32 (ai D a 2)) (pos 0)) in
      list (of_items (sort_strides (out_of_order asc) stride (items l)))
  bi_ll_list_sort _ = list nil
