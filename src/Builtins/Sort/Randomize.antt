-- ===== src/Builtins/Sort/Randomize.antt =====
-- src/builtins.c: llListRandomize. The numbers that rand() gives are a parameter.
use sakura_slemu.Base.{
  ℕ, zero, suc, ◌+◌, ◌*◌, ◌-◌, ◌%◌, ◌/◌, ◌==◌, Bool, List, ◌∷◌, to_i32, if◌then◌else◌, length, sym,
  subst,
}
use mathlib.Core.List.{Perm}
use mathlib.Core.List.Perm
use sakura_slemu.Double.{Double}
use sakura_slemu.Value.{SValue, SValues, list, nil, items, of_items, items-of_items, list_items}
use sakura_slemu.Builtins.Args.{ai}
use sakura_slemu.Builtins.Sort.{swap_stride, stride_of}
use sakura_slemu.Builtins.Sort.Permutation.{swap_stride-Perm}

module _ {A : Type 0} (rand : ℕ → ℕ) (stride : ℕ) where
  -- for (i = …; i > 0; i -= stride), with a bound on the rounds: `k` numbers are drawn. Below 0 and at 0
  -- the loop ends alike.
  unfoldable pub randomize_loop : ℕ → ℕ → ℕ → List A → List A
  unfolding swap_stride
  randomize_loop zero k i xs = xs
  randomize_loop (suc n) k i xs =
      let j = rand k % (i / stride + 1) * stride in
      let rest : List A = randomize_loop n (suc k) (i - stride) (swap_stride stride i j xs) in
      if i == 0 then xs else rest

  -- Each round takes at least 1 from the place, which is at most the length.
  unfoldable pub randomize : List A → List A
  unfolding randomize_loop
  randomize xs = randomize_loop (length xs) 0 (length xs - stride) xs

  if_not-Perm : (b : Bool) (ys xs : List A) → Perm ys xs → Perm (if b then xs else ys) xs
  if_not-Perm Bool.true ys xs h = Perm.refl xs
  if_not-Perm Bool.false ys xs h = h

  randomize_loop-Perm : (n k i : ℕ) (xs : List A) → Perm (randomize_loop n k i xs) xs
  unfolding randomize_loop
  randomize_loop-Perm zero k i xs = Perm.refl xs
  randomize_loop-Perm (suc n) k i xs =
      let j = rand k % (i / stride + 1) * stride in
      if_not-Perm (i == 0) _ xs (
        Perm.trans (randomize_loop-Perm n (suc k) (i - stride) (swap_stride stride i j xs))
          (swap_stride-Perm stride i j xs))

  pub randomize-Perm : (xs : List A) → Perm (randomize xs) xs
  unfolding randomize
  randomize-Perm xs = randomize_loop-Perm (length xs) 0 (length xs - stride) xs

module _ {F : Type 0} (D : Double F) (rand : ℕ → ℕ) where
  unfoldable pub bi_ll_list_randomize : List (SValue F) → SValue F
  unfolding ai randomize to_i32
  bi_ll_list_randomize (list l ∷ more) =
      list (of_items (randomize rand (stride_of D (to_i32 (ai D (list l ∷ more) 1))) (items l)))
  bi_ll_list_randomize _ = list nil

  -- llListRandomize gives a permutation of the items of its list, whatever numbers are drawn.
  pub bi_ll_list_randomize-Perm :
      (l : SValues F) (more : List (SValue F))
      → Perm (list_items (bi_ll_list_randomize (list l ∷ more))) (items l)
  unfolding bi_ll_list_randomize
  bi_ll_list_randomize-Perm l more =
      let mixed : List (SValue F) =
        randomize rand (stride_of D (to_i32 (ai D (list l ∷ more) 1))) (items l) in
      subst (λ t. Perm t (items l)) (sym (items-of_items mixed))
        (randomize-Perm rand (stride_of D (to_i32 (ai D (list l ∷ more) 1))) (items l))
