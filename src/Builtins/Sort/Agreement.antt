-- ===== src/Builtins/Sort/Agreement.antt =====
-- src/builtins.c: the loops of llListSort at stride 1 agree with the reference.
use sakura_slemu.Base.{
  ℕ, zero, suc, ◌+◌, ◌≡◌, ◌≤◌, refl, sym, ap, ◌∙◌, Bool, true, false, some, List, [], ◌∷◌, ◌++◌,
  ltb, lt→ltb, if◌then◌else◌, length, get_elem?, set, length-append, Bool-cases, inl, inr, arith,
}
use mathlib.Core.List.{append_assoc}
use sakura_slemu.Builtins.Sort.{
  swap_at, swap_stride, compare_at, inner_loop, outer_loop, sort_strides,
}
use sakura_slemu.Builtins.Sort.Reference.{
  pass_front, pass_behind, exchange_sort, length-pass_behind,
}

module _ {A : Type 0} where
  get_at :
      (f : List A) (x : A) (r : List A) (k : ℕ) → k ≡ length f → get_elem? (f ++ (x ∷ r)) k ≡ some x
  get_at [] x r zero e = refl
  get_at [] x r (suc k) e = absurd (omega arith)
  get_at (z ∷ f) x r zero e = absurd (omega arith)
  get_at (z ∷ f) x r (suc k) e = get_at f x r k (omega arith)

  set_at :
      (f : List A) (x y : A) (r : List A) (k : ℕ)
      → k ≡ length f
      → set (f ++ (x ∷ r)) k y ≡ f ++ (y ∷ r)
  set_at [] x y r zero e = refl
  set_at [] x y r (suc k) e = absurd (omega arith)
  set_at (z ∷ f) x y r zero e = absurd (omega arith)
  set_at (z ∷ f) x y r (suc k) e = ap (λ t. z ∷ t) (set_at f x y r k (omega arith))

  -- A list with two places marked.
  abbrev marked : List A → A → List A → A → List A → List A
  marked f x d y r = f ++ (x ∷ (d ++ (y ∷ r)))

  module _ (f d r : List A) (i j : ℕ) (ei : i ≡ length f) (ej : j ≡ length f + suc (length d)) where
    second : (x : A) → j ≡ length (f ++ (x ∷ d))
    second x = omega (arith, length-append f (x ∷ d))

    get_second : (x y : A) → get_elem? (marked f x d y r) j ≡ some y
    get_second x y =
        ap (λ t. get_elem? t j) (sym (append_assoc f (x ∷ d) (y ∷ r)))
        ∙ get_at (f ++ (x ∷ d)) y r j (second x)

    set_second : (x y z : A) → set (marked f x d y r) j z ≡ marked f x d z r
    set_second x y z =
        ap (λ t. set t j z) (sym (append_assoc f (x ∷ d) (y ∷ r)))
        ∙ set_at (f ++ (x ∷ d)) y z r j (second x)
        ∙ append_assoc f (x ∷ d) (z ∷ r)

    set-set-marked : (x y : A) → set (set (marked f x d y r) i y) j x ≡ marked f y d x r
    set-set-marked x y = ap (λ t. set t j x) (set_at f x y (d ++ (y ∷ r)) i ei) ∙ set_second y y x

    length-marked :
        (x y : A) → length (marked f x d y r) ≡ length f + suc (length d + suc (length r))
    length-marked x y = omega (arith, length-append f (x ∷ (d ++ (y ∷ r))), length-append d (y ∷ r))

    within :
        (x y : A)
        → (ltb i (length (marked f x d y r)) ≡ true) × (ltb j (length (marked f x d y r)) ≡ true)
    within x y = (
      lt→ltb i (length (marked f x d y r)) (omega (arith, length-marked x y)),
      lt→ltb j (length (marked f x d y r)) (omega (arith, length-marked x y)),
    )

    compare_at-marked :
        (wrong : A → A → Bool) (x y : A)
        → compare_at wrong 1 i j (marked f x d y r)
          ≡ marked f (if wrong x y then y else x) d (if wrong x y then x else y) r
    unfolding compare_at swap_stride swap_at
    compare_at-marked wrong x y = elim (Bool-cases (wrong x y)) [
      | inl e ↦
          rw (get_at f x (d ++ (y ∷ r)) i ei, get_second x y, e, (within x y).0, (within x y).1)
            (set-set-marked x y)
      | inr e ↦ rw (get_at f x (d ++ (y ∷ r)) i ei, get_second x y, e) refl
    ]

not_below : (a b : ℕ) → b ≤ a → ltb a b ≡ false
not_below a b h = ground arith

module _ {A : Type 0} (wrong : A → A → Bool) where
  at_end : (n i j : ℕ) (xs : List A) → length xs ≤ j → inner_loop n wrong 1 i j xs ≡ xs
  unfolding inner_loop
  at_end zero i j xs h = refl
  at_end (suc n) i j xs h = rw (not_below j (length xs) h) refl

  inner_loop-pass :
      (rest : List A) (n i j : ℕ) (f d : List A) (x : A)
      → length rest ≤ n
      → i ≡ length f
      → j ≡ length f + suc (length d)
      → inner_loop n wrong 1 i j (f ++ (x ∷ (d ++ rest)))
        ≡ f ++ (pass_front wrong x rest ∷ (d ++ pass_behind wrong x rest))
  unfolding inner_loop pass_front pass_behind
  inner_loop-pass [] n i j f d x h ei ej =
      at_end n i j (f ++ (x ∷ (d ++ [])))
        (omega (arith, length-append f (x ∷ (d ++ [])), length-append d []))
  inner_loop-pass (y ∷ ys) zero i j f d x h ei ej = absurd (omega arith)
  inner_loop-pass (y ∷ ys) (suc n) i j f d x h ei ej =
      let c : A = if wrong x y then y else x in
      let o : A = if wrong x y then x else y in
      ap
        (λ b.
          if b
          then inner_loop n wrong 1 i (j + 1) (compare_at wrong 1 i j (marked f x d y ys))
          else marked f x d y ys)
        ((within f d ys i j ei ej x y).1)
      ∙ (ap (inner_loop n wrong 1 i (j + 1)) (
            compare_at-marked f d ys i j ei ej wrong x y
            ∙ ap (λ t. f ++ (c ∷ t)) (sym (append_assoc d (o ∷ []) ys)))
          ∙ inner_loop-pass ys n i (j + 1) f (d ++ (o ∷ [])) c (omega arith) ei
              (omega (arith, length-append d (o ∷ [])))
          ∙ ap (λ t. f ++ (pass_front wrong c ys ∷ t))
              (append_assoc d (o ∷ []) (pass_behind wrong c ys)))

  outer_loop-exchange_sort :
      (n i : ℕ) (f xs : List A)
      → length xs ≤ n
      → i ≡ length f
      → outer_loop n wrong 1 i (f ++ xs) ≡ f ++ exchange_sort wrong n xs
  unfolding outer_loop exchange_sort
  outer_loop-exchange_sort zero i f xs h e = refl
  outer_loop-exchange_sort (suc n) i f [] h e =
      rw (not_below i (length (f ++ [])) (omega (arith, length-append f []))) refl
  outer_loop-exchange_sort (suc n) i f (x ∷ xs) h e =
      let m : A = pass_front wrong x xs in
      let q : List A = pass_behind wrong x xs in
      let next : List A = inner_loop (length (f ++ (x ∷ xs))) wrong 1 i (i + 1) (f ++ (x ∷ xs)) in
      ap (λ b. if b then outer_loop n wrong 1 (i + 1) next else f ++ (x ∷ xs))
        (lt→ltb i (length (f ++ (x ∷ xs))) (omega (arith, length-append f (x ∷ xs))))
      ∙ (ap (outer_loop n wrong 1 (i + 1)) (
            inner_loop-pass xs (length (f ++ (x ∷ xs))) i (i + 1) f [] x
              (omega (arith, length-append f (x ∷ xs))) e (omega arith)
            ∙ sym (append_assoc f (m ∷ []) q))
          ∙ outer_loop-exchange_sort n (i + 1) (f ++ (m ∷ [])) q
              (omega (arith, length-pass_behind wrong x xs))
              (omega (arith, length-append f (m ∷ [])))
          ∙ append_assoc f (m ∷ []) (exchange_sort wrong n q))

  -- The loops of llListSort, with stride 1 and any test for two items in the wrong order, give the
  -- list that the exchange sort gives, which puts the first item of each rest by one pass.
  pub sort_strides-exchange_sort :
      (xs : List A) → sort_strides wrong 1 xs ≡ exchange_sort wrong (length xs) xs
  unfolding sort_strides
  sort_strides-exchange_sort xs = outer_loop-exchange_sort (length xs) 0 [] xs (omega arith) refl
