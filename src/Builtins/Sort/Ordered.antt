-- ===== src/Builtins/Sort/Ordered.antt =====
-- src/builtins.c: llListSort puts integers in order.
use sakura_slemu.Base.{
  ℕ, zero, suc, ◌≡◌, refl, ap, ap₂, ◌∙◌, Bool, true, false, not, List, [], ◌∷◌, map, ℤ, pos, IsI32,
  to_i32, to_i32_fits, eq_ℤ, ltb_ℤ, if◌then◌else◌, length, length-map, arith,
}
use sakura_slemu.Double.{Double}
use sakura_slemu.Value.{SValue, integer, list, of_items, items-of_items}
use sakura_slemu.Builtins.Args.{ai}
use sakura_slemu.Builtins.Sort.{sort_strides, out_of_order, bi_ll_list_sort}
use sakura_slemu.Builtins.Sort.Reference.{
  pass_front, pass_behind, exchange_sort, InOrder, exchange_sort-InOrder,
}
use sakura_slemu.Builtins.Sort.Agreement.{sort_strides-exchange_sort}

module _ {A B : Type 0} (wrong : B → B → Bool) (f : A → B) where
  abbrev before : A → A → Bool
  before a b = wrong (f a) (f b)

  choose_map : (b : Bool) (x y : A) → (if b then f x else f y) ≡ f (if b then x else y)
  choose_map true x y = refl
  choose_map false x y = refl

  pass_front-map :
      (x : A) (xs : List A) → pass_front wrong (f x) (map f xs) ≡ f (pass_front before x xs)
  unfolding pass_front
  pass_front-map x [] = refl
  pass_front-map x (y ∷ ys) =
      ap (λ c. pass_front wrong c (map f ys)) (choose_map (before x y) y x)
      ∙ pass_front-map (if before x y then y else x) ys

  pass_behind-map :
      (x : A) (xs : List A) → pass_behind wrong (f x) (map f xs) ≡ map f (pass_behind before x xs)
  unfolding pass_behind
  pass_behind-map x [] = refl
  pass_behind-map x (y ∷ ys) =
      ap₂ (λ o c. o ∷ pass_behind wrong c (map f ys)) (choose_map (before x y) x y)
        (choose_map (before x y) y x)
      ∙ ap (λ t. f (if before x y then x else y) ∷ t)
          (pass_behind-map (if before x y then y else x) ys)

  exchange_sort-map :
      (n : ℕ) (xs : List A) → exchange_sort wrong n (map f xs) ≡ map f (exchange_sort before n xs)
  unfolding exchange_sort
  exchange_sort-map zero xs = refl
  exchange_sort-map (suc n) [] = refl
  exchange_sort-map (suc n) (x ∷ xs) =
      ap₂ (λ m q. m ∷ exchange_sort wrong n q) (pass_front-map x xs) (pass_behind-map x xs)
      ∙ ap (λ t. f (pass_front before x xs) ∷ t) (exchange_sort-map n (pass_behind before x xs))

-- `a` may not stand before `b`: when sorting upwards, or else downwards.
abbrev pub wrong_ℤ : Bool → ℤ → ℤ → Bool
wrong_ℤ up a b = if up then ltb_ℤ b a else ltb_ℤ a b

wrong_ℤ_asym : (up : Bool) (a b : ℤ) → wrong_ℤ up a b ≡ true → wrong_ℤ up b a ≡ false
wrong_ℤ_asym true a b h = ground arith
wrong_ℤ_asym false a b h = ground arith

wrong_ℤ_trans :
    (up : Bool) (a b c : ℤ)
    → wrong_ℤ up a b ≡ false
    → wrong_ℤ up b c ≡ false
    → wrong_ℤ up a c ≡ false
wrong_ℤ_trans true a b c h k = ground arith
wrong_ℤ_trans false a b c h k = ground arith

module _ {F : Type 0} (D : Double F) where
  -- llListSort with stride 1 on a list of integers gives a list of integers in order: upwards if the
  -- third argument is not 0, or else downwards.
  pub bi_ll_list_sort-InOrder :
      (is : List ℤ) (up : ℤ)
      → IsI32 up
      → (js : List ℤ) × (bi_ll_list_sort D
            (list (of_items (map integer is)) ∷ integer (pos 1) ∷ integer up ∷ [])
          ≡ list (of_items (map integer js)))
        × InOrder (wrong_ℤ (not (eq_ℤ up (pos 0)))) js
  unfolding bi_ll_list_sort out_of_order ai to_i32
  bi_ll_list_sort-InOrder is up h =
      let asc : Bool = not (eq_ℤ up (pos 0)) in
      let vs : List (SValue F) = map integer is in
      (
        exchange_sort (wrong_ℤ asc) (length is) is,
        ap₂ (λ k xs. list (of_items (sort_strides (out_of_order D (not (eq_ℤ k (pos 0)))) 1 xs)))
              (to_i32_fits up h) (items-of_items vs)
            ∙ ap (λ t. list (of_items t))
                (sort_strides-exchange_sort (out_of_order D asc) vs
                  ∙ ap (λ n. exchange_sort (out_of_order D asc) n vs) (length-map is integer)
                  ∙ exchange_sort-map (out_of_order D asc) integer (length is) is),
        exchange_sort-InOrder (wrong_ℤ asc) (wrong_ℤ_asym asc) (wrong_ℤ_trans asc) (length is) is
            (omega arith),
      )
