-- ===== src/Builtins/Sort/Reference.antt =====
-- A reference for the exchange sort of src/builtins.c at stride 1: the least item is drawn to the
-- front, round by round. Its result is in order.
use sakura_slemu.Base.{
  ℕ, zero, suc, ◌≡◌, ◌≤◌, refl, ap, Bool, true, false, List, [], ◌∷◌, if◌then◌else◌, All,
  Bool-cases, inl, inr, length, arith,
}

module _ {A : Type 0} (wrong : A → A → Bool) where
  -- The item that a round leaves in front, and what it leaves behind.
  unfoldable pub pass_front : A → List A → A
  pass_front x [] = x
  pass_front x (y ∷ ys) = pass_front (if wrong x y then y else x) ys

  unfoldable pub pass_behind : A → List A → List A
  pass_behind x [] = []
  pass_behind x (y ∷ ys) =
      (if wrong x y then x else y) ∷ pass_behind (if wrong x y then y else x) ys

  unfoldable pub exchange_sort : ℕ → List A → List A
  unfolding pass_front pass_behind
  exchange_sort zero xs = xs
  exchange_sort (suc n) [] = []
  exchange_sort (suc n) (x ∷ xs) = pass_front x xs ∷ exchange_sort n (pass_behind x xs)

  -- No item is out of order with one behind it.
  abbrev pub InOrder : List A → Type 0
  InOrder [] = Unit {0}
  InOrder (x ∷ xs) = All (λ y. wrong x y ≡ false) xs × InOrder xs

  pub length-pass_behind : (x : A) (xs : List A) → length (pass_behind x xs) ≡ length xs
  unfolding pass_behind
  length-pass_behind x [] = refl
  length-pass_behind x (y ∷ ys) = ap suc (length-pass_behind (if wrong x y then y else x) ys)

  module _ (P : A → Type 0) where
    either_way : (b : Bool) (x y : A) → P x → P y → P (if b then x else y)
    either_way true x y p q = p
    either_way false x y p q = q

    pass-All :
        (x : A) (xs : List A) → P x → All P xs → P (pass_front x xs) × All P (pass_behind x xs)
    unfolding pass_front pass_behind
    pass-All x [] p h = (p, tt)
    pass-All x (y ∷ ys) p (q, h) =
        let (a, b) = pass-All (if wrong x y then y else x) ys (either_way (wrong x y) y x q p) h in
        (a, (either_way (wrong x y) x y p q, b))

    exchange_sort-All : (n : ℕ) (xs : List A) → All P xs → All P (exchange_sort n xs)
    unfolding exchange_sort
    exchange_sort-All zero xs h = h
    exchange_sort-All (suc n) [] h = tt
    exchange_sort-All (suc n) (x ∷ xs) (p, h) =
        let (a, b) = pass-All x xs p h in (a, exchange_sort-All n (pass_behind x xs) b)

  module _ (asym : (x y : A) → wrong x y ≡ true → wrong y x ≡ false)
      (trans : (x y z : A) → wrong x y ≡ false → wrong y z ≡ false → wrong x z ≡ false) where
    wrong_self : (x : A) → wrong x x ≡ false
    wrong_self x = elim (Bool-cases (wrong x x)) [ inl e ↦ asym x x e | inr e ↦ e ]

    chosen_first : (x y : A) → wrong (if wrong x y then y else x) x ≡ false
    chosen_first x y = elim (Bool-cases (wrong x y)) [
      | inl e ↦ rw e (asym x y e)
      | inr e ↦ rw e (wrong_self x)
    ]

    chosen_other :
        (x y : A) → wrong (if wrong x y then y else x) (if wrong x y then x else y) ≡ false
    chosen_other x y = elim (Bool-cases (wrong x y)) [ inl e ↦ rw e (asym x y e) | inr e ↦ rw e e ]

    pass_front-least : (x : A) (xs : List A) → wrong (pass_front x xs) x ≡ false
    unfolding pass_front
    pass_front-least x [] = wrong_self x
    pass_front-least x (y ∷ ys) =
        trans (pass_front (if wrong x y then y else x) ys) (if wrong x y then y else x) x
          (pass_front-least (if wrong x y then y else x) ys) (chosen_first x y)

    pass_front-pass_behind :
        (x : A) (xs : List A) → All (λ z. wrong (pass_front x xs) z ≡ false) (pass_behind x xs)
    unfolding pass_front pass_behind
    pass_front-pass_behind x [] = tt
    pass_front-pass_behind x (y ∷ ys) =
        let c : A = if wrong x y then y else x in
        (
          trans (pass_front c ys) c (if wrong x y then x else y) (pass_front-least c ys)
              (chosen_other x y),
          pass_front-pass_behind c ys,
        )

    pub exchange_sort-InOrder : (n : ℕ) (xs : List A) → length xs ≤ n → InOrder (exchange_sort n xs)
    unfolding exchange_sort
    exchange_sort-InOrder zero [] h = tt
    exchange_sort-InOrder zero (x ∷ xs) h = absurd (omega arith)
    exchange_sort-InOrder (suc n) [] h = tt
    exchange_sort-InOrder (suc n) (x ∷ xs) h = (
      exchange_sort-All (λ y. wrong (pass_front x xs) y ≡ false) n (pass_behind x xs)
          (pass_front-pass_behind x xs),
      exchange_sort-InOrder n (pass_behind x xs) (omega (arith, length-pass_behind x xs)),
    )
