-- ===== src/Builtins/Sort/Permutation.antt =====
-- src/builtins.c: llListSort moves items, and neither makes nor loses one.
use sakura_slemu.Base.{
  ℕ, zero, suc, ◌+◌, ◌≡◌, refl, sym, subst, Bool, true, false, not, ◌&&◌, Option, none, some, List,
  [], ◌∷◌, pos, to_i32, eq_ℤ, ltb, if◌then◌else◌, length, get_elem?, set,
}
use mathlib.Core.List.{Perm}
use mathlib.Core.List.Perm
use sakura_slemu.Double.{Double}
use sakura_slemu.Value.{SValue, SValues, list, items, items-of_items, list_items}
use sakura_slemu.Builtins.Args.{ai}
use sakura_slemu.Builtins.Sort.{
  exchange, swap_at, swap_stride, test_at, compare_at, inner_loop, outer_loop, sort_strides,
  stride_of, out_of_order, bi_ll_list_sort,
}

module _ {A : Type 0} where
  set-Perm :
      (xs : List A) (j : ℕ) (x y : A) → get_elem? xs j ≡ some y → Perm (y ∷ set xs j x) (x ∷ xs)
  set-Perm [] j x y h = absurd cc
  set-Perm (z ∷ zs) zero x y h = let e : y ≡ z = cc in rw e (Perm.swap x z zs)
  set-Perm (z ∷ zs) (suc j) x y h =
      Perm.trans (Perm.swap z y (set zs j x))
        (Perm.trans (Perm.cons z (set-Perm zs j x y h)) (Perm.swap x z zs))

  set_set-Perm :
      (xs : List A) (i j : ℕ) (x y : A)
      → get_elem? xs i ≡ some x
      → get_elem? xs j ≡ some y
      → Perm (set (set xs i y) j x) xs
  set_set-Perm [] i j x y h k = absurd cc
  set_set-Perm (z ∷ zs) zero zero x y h k = let e : x ≡ z = cc in rw e (Perm.refl (z ∷ zs))
  set_set-Perm (z ∷ zs) zero (suc j) x y h k = let e : x ≡ z = cc in rw e (set-Perm zs j z y k)
  set_set-Perm (z ∷ zs) (suc i) zero x y h k = let e : y ≡ z = cc in rw e (set-Perm zs i z x h)
  set_set-Perm (z ∷ zs) (suc i) (suc j) x y h k = Perm.cons z (set_set-Perm zs i j x y h k)

  exchange-Perm :
      (xs : List A) (i j : ℕ) (o p : Option A)
      → get_elem? xs i ≡ o
      → get_elem? xs j ≡ p
      → Perm (exchange xs i j o p) xs
  exchange-Perm xs i j none p h k = Perm.refl xs
  exchange-Perm xs i j (some x) none h k = Perm.refl xs
  exchange-Perm xs i j (some x) (some y) h k = set_set-Perm xs i j x y h k

  pub if-Perm : (b : Bool) (ys xs : List A) → Perm ys xs → Perm (if b then ys else xs) xs
  if-Perm true ys xs h = h
  if-Perm false ys xs h = Perm.refl xs

  pub swap_stride-Perm : (n i j : ℕ) (xs : List A) → Perm (swap_stride n i j xs) xs
  unfolding swap_stride
  swap_stride-Perm zero i j xs = Perm.refl xs
  swap_stride-Perm (suc n) i j xs =
      if-Perm (ltb i (length xs) && ltb j (length xs))
        (swap_stride n (suc i) (suc j) (swap_at i j xs)) xs
        (Perm.trans (swap_stride-Perm n (suc i) (suc j) (swap_at i j xs))
          (exchange-Perm xs i j (get_elem? xs i) (get_elem? xs j) refl refl))

  module _ (wrong : A → A → Bool) (stride : ℕ) where
    compare_at-Perm : (i j : ℕ) (xs : List A) → Perm (compare_at wrong stride i j xs) xs
    unfolding compare_at
    compare_at-Perm i j xs =
        if-Perm (test_at wrong (get_elem? xs i) (get_elem? xs j)) (swap_stride stride i j xs) xs
          (swap_stride-Perm stride i j xs)

    inner_loop-Perm : (n i j : ℕ) (xs : List A) → Perm (inner_loop n wrong stride i j xs) xs
    unfolding inner_loop
    inner_loop-Perm zero i j xs = Perm.refl xs
    inner_loop-Perm (suc n) i j xs =
        if-Perm (ltb j (length xs))
          (inner_loop n wrong stride i (j + stride) (compare_at wrong stride i j xs)) xs
          (Perm.trans (inner_loop-Perm n i (j + stride) (compare_at wrong stride i j xs))
            (compare_at-Perm i j xs))

    outer_loop-Perm : (n i : ℕ) (xs : List A) → Perm (outer_loop n wrong stride i xs) xs
    unfolding outer_loop
    outer_loop-Perm zero i xs = Perm.refl xs
    outer_loop-Perm (suc n) i xs =
        let next : List A = inner_loop (length xs) wrong stride i (i + stride) xs in
        if-Perm (ltb i (length xs)) (outer_loop n wrong stride (i + stride) next) xs (
          Perm.trans (outer_loop-Perm n (i + stride) next)
            (inner_loop-Perm (length xs) i (i + stride) xs))

    pub sort_strides-Perm : (xs : List A) → Perm (sort_strides wrong stride xs) xs
    unfolding sort_strides
    sort_strides-Perm xs = outer_loop-Perm (length xs) 0 xs

module _ {F : Type 0} (D : Double F) where
  -- llListSort gives a permutation of the items of its list, whatever they are and in every order and
  -- stride.
  pub bi_ll_list_sort-Perm :
      (l : SValues F) (more : List (SValue F))
      → Perm (list_items (bi_ll_list_sort D (list l ∷ more))) (items l)
  unfolding bi_ll_list_sort
  bi_ll_list_sort-Perm l more =
      let stride : ℕ = stride_of D (to_i32 (ai D (list l ∷ more) 1)) in
      let asc : Bool = not (eq_ℤ (to_i32 (ai D (list l ∷ more) 2)) (pos 0)) in
      let sorted : List (SValue F) = sort_strides (out_of_order D asc) stride (items l) in
      subst (λ t. Perm t (items l)) (sym (items-of_items sorted))
        (sort_strides-Perm (out_of_order D asc) stride (items l))
