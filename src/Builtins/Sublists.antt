-- ===== src/Builtins/Sublists.antt =====
-- src/builtins.c: how the built-ins on parts of lists fit together.
use sakura_slemu.Base.{
  ℕ, zero, suc, ◌+◌, ◌-◌, ◌^◌, ◌≤◌, ◌<◌, ◌≡◌, refl, ap, ap₂, ◌∙◌, sym, subst, Bool, true, false,
  ◌||◌, some, none, List, [], ◌∷◌, ◌++◌, ℤ, pos, to_i32, IsI32, to_i32_fits, ◌+ℤ◌, ◌-ℤ◌, ltb_ℤ,
  leb_ℤ, if◌then◌else◌, length, take-append-drop, length-drop, length-append, length-take, take,
  drop, arith,
}
use native.Mathlib.Numerals.{unary_clauses}
use sakura_slemu.Double.{Double}
use sakura_slemu.Value.{
  SValue, SValues, integer, list, items, of_items, of_items-items, items-of_items,
}
use sakura_slemu.Builtins.Lists.{
  from_end, at_least, at_most, copied, around, spliced, as_list, kept_at, sublist, bi_ll_list2list,
  bi_ll_list_insert_list, bi_ll_list_replace_list, bi_ll_delete_sub_list,
}

abbrev outside : ℕ → ℕ → ℤ → Bool
outside st en i = ltb_ℤ i (pos st) || ltb_ℤ (pos en) i

outside_front : (st en k : ℕ) → k < st → outside st en (pos k) ≡ true
outside_front st en k h = ground arith

outside_back : (st en k : ℕ) → en < k → outside st en (pos k) ≡ true
outside_back st en k h = ground arith

outside_within : (st en k : ℕ) → st ≤ k → k ≤ en → outside st en (pos k) ≡ false
outside_within st en k h l = ground arith

module _ {A : Type 0} where
  copied_slice :
      (xs : List A) (lo hi : ℕ)
      → lo ≤ hi
      → hi ≤ length xs
      → copied xs (pos lo) (pos hi) ≡ some (take (hi - lo) (drop lo xs))
  unfolding copied
  copied_slice xs lo hi h k = ground arith

  kept_at_back : (xs : List A) (st en k : ℕ) → en < k → kept_at (outside st en) k xs ≡ xs
  kept_at_back [] st en k h = refl
  kept_at_back (x ∷ xs) st en k h =
      rw (outside_back st en k h, kept_at_back xs st en (suc k) (omega arith))

  kept_at_within :
      (xs : List A) (st en k m : ℕ)
      → st ≤ k
      → k + m ≡ suc en
      → kept_at (outside st en) k xs ≡ drop m xs
  kept_at_within xs st en k zero h e = kept_at_back xs st en k (omega arith)
  kept_at_within [] st en k (suc m) h e = refl
  kept_at_within (x ∷ xs) st en k (suc m) h e = rw (
    outside_within st en k h (omega arith),
    kept_at_within xs st en (suc k) m (omega arith) (omega arith),
  )

  kept_at_front :
      (xs : List A) (st en k m n : ℕ)
      → k + m ≡ st
      → k + n ≡ suc en
      → m ≤ n
      → kept_at (outside st en) k xs ≡ take m xs ++ drop n xs
  kept_at_front xs st en k zero n e f h = kept_at_within xs st en k n (omega arith) f
  kept_at_front [] st en k (suc m) zero e f h = refl
  kept_at_front [] st en k (suc m) (suc n) e f h = refl
  kept_at_front (x ∷ xs) st en k (suc m) zero e f h = absurd (omega arith)
  kept_at_front (x ∷ xs) st en k (suc m) (suc n) e f h = rw (
    outside_front st en k (omega arith),
    kept_at_front xs st en (suc k) m n (omega arith) (omega arith) (omega arith),
  )

  take_all : (n : ℕ) (xs : List A) → length xs ≤ n → take n xs ≡ xs
  take_all zero [] h = refl
  take_all zero (x ∷ xs) h = absurd (omega arith)
  take_all (suc n) [] h = refl
  take_all (suc n) (x ∷ xs) h = ap (λ l. x ∷ l) (take_all n xs (omega arith))

  take_nil : (n : ℕ) → take {A = A} n [] ≡ []
  take_nil zero = refl
  take_nil (suc n) = refl

  take_front : (i : ℕ) (xs ys : List A) → i ≤ length xs → take i (take i xs ++ ys) ≡ take i xs
  take_front zero xs ys h = refl
  take_front (suc i) [] ys h = absurd (omega arith)
  take_front (suc i) (x ∷ xs) ys h = ap (λ l. x ∷ l) (take_front i xs ys (omega arith))

  drop_front : (i : ℕ) (xs ys : List A) → i ≤ length xs → drop i (take i xs ++ ys) ≡ ys
  drop_front zero xs ys h = refl
  drop_front (suc i) [] ys h = absurd (omega arith)
  drop_front (suc i) (x ∷ xs) ys h = drop_front i xs ys (omega arith)

  -- The front, a slice and what is behind it.
  slices :
      (xs : List A) (i n : ℕ) → i ≤ n → take i xs ++ (take (n - i) (drop i xs) ++ drop n xs) ≡ xs
  slices xs zero n h = simp unary_clauses (take-append-drop n xs)
  slices [] (suc i) zero h = absurd (omega arith)
  slices [] (suc i) (suc n) h = rw (take_nil (suc n - suc i))
  slices (x ∷ xs) (suc i) zero h = absurd (omega arith)
  slices (x ∷ xs) (suc i) (suc n) h =
      simp unary_clauses (ap (λ l. x ∷ l) (slices xs i n (omega arith)))

start :
    (a : ℤ) (i n : ℕ)
    → IsI32 a
    → from_end a n ≡ pos i
    → at_least (pos 0) (from_end (to_i32 a) n) ≡ pos i
start a i n h e =
    let low : at_least (pos 0) (pos i) ≡ pos i = ground arith in rw (to_i32_fits a h, e) low

last :
    (b : ℤ) (j n : ℕ)
    → IsI32 b
    → from_end b n ≡ pos j
    → j < n
    → at_most (pos n -ℤ pos 1) (from_end (to_i32 b) n) ≡ pos j
unfolding ◌-ℤ◌
last b j n h e l =
    let high : at_most (pos n -ℤ pos 1) (pos j) ≡ pos j = ground arith in
    rw (to_i32_fits b h, e) high

place :
    (i n : ℕ)
    → IsI32 (pos i)
    → i ≤ n
    → at_most (pos n) (at_least (pos 0) (from_end (to_i32 (pos i)) n)) ≡ pos i
unfolding from_end
place i n h l =
    let there : at_most (pos n) (at_least (pos 0) (from_end (pos i) n)) ≡ pos i = ground arith in
    rw (to_i32_fits (pos i) h) there

after_last : (j : ℕ) → pos j +ℤ pos 1 ≡ pos (j + 1)
unfolding ◌+ℤ◌
after_last j = ground arith

module _ {A : Type 0} where
  sublist_slice :
      (xs : List A) (i j : ℕ)
      → i ≤ j
      → j < length xs
      → copied xs (pos i) (pos j +ℤ pos 1) ≡ some (take (j + 1 - i) (drop i xs))
  sublist_slice xs i j h k =
      rw (after_last j) (copied_slice xs i (j + 1) (omega arith) (omega arith))

  spliced_at :
      (xs ys : List A) (lo hi : ℕ)
      → lo ≤ length xs
      → hi ≤ length xs
      → spliced xs (pos lo) ys (pos hi) ≡ some (take lo xs ++ (ys ++ drop hi xs))
  spliced_at xs ys lo hi h k =
      let whole : lo - 0 ≡ lo = omega arith in
      ap₂ (around ys) (copied_slice xs 0 lo (omega arith) h ∙ ap (λ n. some (take n xs)) whole) (
        copied_slice xs hi (length xs) k (omega arith)
        ∙ ap some (take_all (length xs - hi) (drop hi xs) (omega (arith, length-drop hi xs))))

module _ {F : Type 0} (D : Double F) where
  list2list_slice :
      (l : SValues F) (a b : ℤ) (i j : ℕ)
      → IsI32 a
      → IsI32 b
      → from_end a (length (items l)) ≡ pos i
      → from_end b (length (items l)) ≡ pos j
      → i ≤ j
      → j < length (items l)
      → bi_ll_list2list D (list l ∷ integer a ∷ integer b ∷ [])
        ≡ some (list (of_items (take (j + 1 - i) (drop i (items l)))))
  unfolding bi_ll_list2list
  list2list_slice l a b i j ha hb ea eb h k =
      let n : ℕ = length (items l) in
      let in_order : leb_ℤ (pos i) (pos j) ≡ true = ground arith in
      ap₂ (λ x y. as_list D (sublist D (items l) x y)) (start a i n ha ea) (last b j n hb eb k)
      ∙ ap (λ t. as_list D (if t then copied (items l) (pos i) (pos j +ℤ pos 1) else some []))
          in_order
      ∙ ap (as_list D) (sublist_slice (items l) i j h k)

  the_slice :
      (l : SValues F) (a b : ℤ) (i j : ℕ) (v : SValue F)
      → IsI32 a
      → IsI32 b
      → from_end a (length (items l)) ≡ pos i
      → from_end b (length (items l)) ≡ pos j
      → i ≤ j
      → j < length (items l)
      → bi_ll_list2list D (list l ∷ integer a ∷ integer b ∷ []) ≡ some v
      → list (of_items (take (j + 1 - i) (drop i (items l)))) ≡ v
  the_slice l a b i j v ha hb ea eb h k e =
      ap (λ o. elim o [ none ↦ v | some w ↦ w ])
        (sym (list2list_slice l a b i j ha hb ea eb h k) ∙ e)

  -- The list that is put together around a slice.
  put_back :
      (l : SValues F) (i m : ℕ)
      → i ≤ m
      → as_list D (
          some (
            take i (items l)
            ++ (items (of_items (take (m - i) (drop i (items l)))) ++ drop m (items l))))
        ≡ some (list l)
  put_back l i m h =
      rw
        (items-of_items (take (m - i) (drop i (items l))), slices (items l) i m h, of_items-items l)

  -- llListReplaceList with a slice in its own place gives the list back: for each start and end, counted
  -- from the front or from the end, that stand in this order in the list.
  pub bi_ll_list_replace_list-list2list :
      (l : SValues F) (a b : ℤ) (i j : ℕ) (v : SValue F)
      → IsI32 a
      → IsI32 b
      → from_end a (length (items l)) ≡ pos i
      → from_end b (length (items l)) ≡ pos j
      → i ≤ j
      → j < length (items l)
      → bi_ll_list2list D (list l ∷ integer a ∷ integer b ∷ []) ≡ some v
      → bi_ll_list_replace_list D (list l ∷ v ∷ integer a ∷ integer b ∷ []) ≡ some (list l)
  unfolding bi_ll_list_replace_list
  bi_ll_list_replace_list-list2list l a b i j v ha hb ea eb h k e =
      let n : ℕ = length (items l) in
      let slice : List (SValue F) = take (j + 1 - i) (drop i (items l)) in
      subst
        (λ w. bi_ll_list_replace_list D (list l ∷ w ∷ integer a ∷ integer b ∷ []) ≡ some (list l))
        (the_slice l a b i j v ha hb ea eb h k e)
        (ap₂ (λ x y. as_list D (spliced (items l) x (items (of_items slice)) (y +ℤ pos 1)))
            (start a i n ha ea) (last b j n hb eb k)
          ∙ ap (λ y. as_list D (spliced (items l) (pos i) (items (of_items slice)) y))
              (after_last j)
          ∙ ap (as_list D)
              (spliced_at (items l) (items (of_items slice)) i (j + 1) (omega arith) (omega arith))
          ∙ put_back l i (j + 1) (omega arith))

  deleted :
      (l : SValues F) (a b : ℤ) (i j : ℕ)
      → IsI32 a
      → IsI32 b
      → from_end a (length (items l)) ≡ pos i
      → from_end b (length (items l)) ≡ pos j
      → i ≤ j
      → bi_ll_delete_sub_list D (list l ∷ integer a ∷ integer b ∷ [])
        ≡ list (of_items (take i (items l) ++ drop (j + 1) (items l)))
  unfolding bi_ll_delete_sub_list
  deleted l a b i j ha hb ea eb h =
      rw (to_i32_fits a ha, to_i32_fits b hb, ea, eb)
        (ap (λ xs. list (of_items xs))
          (kept_at_front (items l) i j 0 i (j + 1) (omega arith) (omega arith) (omega arith)))

  inserted :
      (xs ys : List (SValue F)) (i : ℕ)
      → IsI32 (pos i)
      → i ≤ length xs
      → bi_ll_list_insert_list D (list (of_items xs) ∷ list (of_items ys) ∷ integer (pos i) ∷ [])
        ≡ some (list (of_items (take i xs ++ (ys ++ drop i xs))))
  unfolding bi_ll_list_insert_list
  inserted xs ys i hi h =
      rw (items-of_items xs, items-of_items ys)
        (ap (λ x. as_list D (spliced xs x ys x)) (place i (length xs) hi h)
          ∙ ap (as_list D) (spliced_at xs ys i i h h))

  -- llListInsertList puts back what llDeleteSubList takes out: for each start and end, counted from the
  -- front or from the end, that stand in this order in the list, of fewer than 2 ^ 31 items, the part
  -- from llList2List inserted at the start gives the list back.
  pub bi_ll_list_insert_list-delete_sub_list :
      (l : SValues F) (a b : ℤ) (i j : ℕ) (v : SValue F)
      → IsI32 a
      → IsI32 b
      → from_end a (length (items l)) ≡ pos i
      → from_end b (length (items l)) ≡ pos j
      → i ≤ j
      → j < length (items l)
      → bi_ll_list2list D (list l ∷ integer a ∷ integer b ∷ []) ≡ some v
      → length (items l) < 2 ^ 31
      → bi_ll_list_insert_list D
          (bi_ll_delete_sub_list D (list l ∷ integer a ∷ integer b ∷ []) ∷ v ∷ integer (pos i) ∷ [])
        ≡ some (list l)
  bi_ll_list_insert_list-delete_sub_list l a b i j v ha hb ea eb h k e small =
      let xs : List (SValue F) = items l in
      let slice : List (SValue F) = take (j + 1 - i) (drop i xs) in
      let left : List (SValue F) = take i xs ++ drop (j + 1) xs in
      rw (deleted l a b i j ha hb ea eb h) (
        subst
          (λ w.
            bi_ll_list_insert_list D (list (of_items left) ∷ w ∷ integer (pos i) ∷ [])
            ≡ some (list l))
          (the_slice l a b i j v ha hb ea eb h k e)
          (inserted left slice i (omega arith, omega arith)
              (omega (arith, length-append (take i xs) (drop (j + 1) xs), length-take i xs))
            ∙ rw
                (
                  take_front i xs (drop (j + 1) xs) (omega arith),
                  drop_front i xs (drop (j + 1) xs) (omega arith),
                )
                (ap (λ t. some (list t))
                  (ap of_items (slices xs i (j + 1) (omega arith)) ∙ of_items-items l))))
