-- ===== src/Builtins/Search.antt =====
-- src/builtins.c: llListFindList, and what it finds.
use sakura_slemu.Base.{
  ℕ, zero, suc, ◌+◌, ◌<◌, ◌≡◌, refl, ap, subst, Bool, true, false, ◌&&◌, List, [], ◌∷◌, ℤ, pos,
  negsuc, ltb, if◌then◌else◌, length, drop, length-drop, Bool-cases, inl, inr, arith,
}
use sakura_slemu.Double.{Double}
use sakura_slemu.Value.{SValue, SValues, integer, list, items, sv_equal}

module _ {F : Type 0} (D : Double F) where
  -- The second list stands at the front of the first one, by sv_equal.
  unfoldable pub starts : List (SValue F) → List (SValue F) → Bool
  unfolding sv_equal
  starts xs [] = true
  starts [] (y ∷ ys) = false
  starts (x ∷ xs) (y ∷ ys) = sv_equal D x y && starts xs ys

  -- The loop of llListFindList, from place `k` on.
  unfoldable pub search_from : ℕ → List (SValue F) → List (SValue F) → ℤ
  unfolding starts
  search_from k [] ys = negsuc 0
  search_from k (x ∷ xs) ys =
      let rest = search_from (suc k) xs ys in
      if ltb (length (x ∷ xs)) (length ys)
      then negsuc 0
      else if starts (x ∷ xs) ys
      then pos k
      else rest

  abbrev pub search_in : List (SValue F) → List (SValue F) → ℤ
  search_in xs [] = pos 0
  search_in xs (y ∷ ys) = search_from 0 xs (y ∷ ys)

  unfoldable pub bi_ll_list_find_list : List (SValue F) → SValue F
  unfolding search_from
  bi_ll_list_find_list (list l ∷ list m ∷ more) = integer (search_in (items l) (items m))
  bi_ll_list_find_list _ = integer (negsuc 0)

  -- Place `d` is the first one where `ys` stands in `xs`.
  pub record First (ys xs : List (SValue F)) (d : ℕ) : Type 0 where
    pub there : starts (drop d xs) ys ≡ true
    pub before : (j : ℕ) → j < d → starts (drop j xs) ys ≡ false

  pub record FoundAt (k : ℕ) (ys xs : List (SValue F)) (i : ℕ) : Type 0 where
    pub distance : ℕ
    pub place : i ≡ k + distance
    pub first : First ys xs distance

  abbrev pub Found : ℕ → List (SValue F) → List (SValue F) → ℤ → Type 0
  Found k ys xs (pos i) = FoundAt k ys xs i
  Found k ys xs (negsuc _) = (j : ℕ) → starts (drop j xs) ys ≡ false

  short_starts : (xs ys : List (SValue F)) → length xs < length ys → starts xs ys ≡ false
  unfolding starts
  short_starts xs [] h = absurd (omega arith)
  short_starts [] (y ∷ ys) h = refl
  short_starts (x ∷ xs) (y ∷ ys) h = elim (Bool-cases (sv_equal D x y)) [
    | inl e ↦ rw e (short_starts xs ys (omega arith))
    | inr e ↦ rw e
  ]

  none_before :
      (ys xs : List (SValue F)) (x : SValue F) (d : ℕ)
      → starts (x ∷ xs) ys ≡ false
      → ((j : ℕ) → j < d → starts (drop j xs) ys ≡ false)
      → (j : ℕ) → j < suc d
      → starts (drop j (x ∷ xs)) ys ≡ false
  none_before ys xs x d e f zero l = e
  none_before ys xs x d e f (suc j) l = f j (omega arith)

  none_at_all :
      (ys xs : List (SValue F)) (x : SValue F)
      → starts (x ∷ xs) ys ≡ false
      → ((j : ℕ) → starts (drop j xs) ys ≡ false)
      → (j : ℕ) → starts (drop j (x ∷ xs)) ys ≡ false
  none_at_all ys xs x e f zero = e
  none_at_all ys xs x e f (suc j) = f j

  later :
      (k : ℕ) (ys xs : List (SValue F)) (x : SValue F) (r : ℤ)
      → starts (x ∷ xs) ys ≡ false
      → Found (suc k) ys xs r
      → Found k ys (x ∷ xs) r
  later k ys xs x (pos i) e f = record {
    distance = suc f.distance;
    place = omega (arith, f.place);
    first = record {
      there = f.first.there;
      before = none_before ys xs x f.distance e f.first.before;
    };
  }
  later k ys xs x (negsuc n) e f = none_at_all ys xs x e f

  too_short :
      (xs ys : List (SValue F)) → length xs < length ys → (j : ℕ) → starts (drop j xs) ys ≡ false
  too_short xs ys h j = short_starts (drop j xs) ys (omega (arith, length-drop j xs))

  here : (k : ℕ) (ys xs : List (SValue F)) → starts xs ys ≡ true → FoundAt k ys xs k
  here k ys xs e = record {
    distance = 0;
    place = omega arith;
    first = record { there = e; before = λ j l. absurd (omega (arith, l)) };
  }

  by_tests :
      (k : ℕ) (ys xs : List (SValue F)) (x : SValue F) (short match : Bool) (r : ℤ)
      → ltb (length (x ∷ xs)) (length ys) ≡ short
      → starts (x ∷ xs) ys ≡ match
      → Found (suc k) ys xs r
      → Found k ys (x ∷ xs) (if short then negsuc 0 else if match then pos k else r)
  by_tests k ys xs x true match r e f h = too_short (x ∷ xs) ys (ground arith)
  by_tests k ys xs x false true r e f h = here k ys (x ∷ xs) f
  by_tests k ys xs x false false r e f h = later k ys xs x r f h

  search_from-Found :
      (k : ℕ) (xs : List (SValue F)) (y : SValue F) (ys : List (SValue F))
      → Found k (y ∷ ys) xs (search_from k xs (y ∷ ys))
  unfolding search_from
  search_from-Found k [] y ys = too_short [] (y ∷ ys) (omega arith)
  search_from-Found k (x ∷ xs) y ys =
      by_tests k (y ∷ ys) xs x (ltb (length (x ∷ xs)) (length (y ∷ ys))) (starts (x ∷ xs) (y ∷ ys))
        (search_from (suc k) xs (y ∷ ys)) refl refl (search_from-Found (suc k) xs y ys)

  search_in-Found : (xs ys : List (SValue F)) → Found 0 ys xs (search_in xs ys)
  unfolding starts
  search_in-Found xs [] = here 0 [] xs refl
  search_in-Found xs (y ∷ ys) = search_from-Found 0 xs y ys

  -- llListFindList finds the first place of the first list where the items of the second one stand, and
  -- answers -1 only if there is none.
  pub bi_ll_list_find_list-Found :
      (l m : SValues F) (answer : ℤ)
      → bi_ll_list_find_list (list l ∷ list m ∷ []) ≡ integer answer
      → Found 0 (items m) (items l) answer
  unfolding bi_ll_list_find_list
  bi_ll_list_find_list-Found l m answer e =
      subst (Found 0 (items m) (items l)) (ap (λ v. elim v [ integer i ↦ i | _ ↦ answer ]) e)
        (search_in-Found (items l) (items m))
