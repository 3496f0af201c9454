-- ===== src/Builtins/InBounds.antt =====
-- src/builtins.c: which built-ins on lists read only items that are there.
use sakura_slemu.Base.{
  ℕ, ◌≡◌, ◌≢◌, refl, Bool, true, false, Option, some, none, List, [], ◌∷◌, ℤ, pos, ◌-ℤ◌, ◌+ℤ◌,
  leb_ℤ, if◌then◌else◌, length, take, drop, pos_part, ◌-◌, ◌&&◌, arith,
}
use sakura_slemu.Double.{Double}
use sakura_slemu.Value.{SValue, list, nil, items}
use sakura_slemu.Builtins.Lists.{
  from_end, at_least, at_most, copied, around, spliced, sublist, as_list, int_arg, bi_ll_list2list,
  bi_ll_list_insert_list,
}

if_some :
    {A : Type 0} (b c : Bool) (x y : A)
    → c ≡ true
    → (if b then some x else if c then some y else none) ≢ none
if_some b c x y h e = ground arith

some_there : {A : Type 0} (x : A) → some x ≢ none
some_there x e = ground arith

if_split :
    {A : Type 0} (b : Bool) (o : Option A) (y : A) → o ≢ none → (if b then o else some y) ≢ none
if_split true o y h e = h e
if_split false o y h e = ground arith

module _ {A : Type 0} where
  copied_within :
      (xs : List A) (lo hi : ℤ)
      → leb_ℤ (pos 0) lo ≡ true
      → leb_ℤ hi (pos (length xs)) ≡ true
      → copied xs lo hi ≢ none
  unfolding copied
  copied_within xs lo hi h k =
      if_some (leb_ℤ hi lo) (leb_ℤ (pos 0) lo && leb_ℤ hi (pos (length xs))) []
        (take (pos_part hi - pos_part lo) (drop (pos_part lo) xs)) (rw (h, k))

  around_some : (ys : List A) (o p : Option (List A)) → o ≢ none → p ≢ none → around ys o p ≢ none
  around_some ys o p h k e = ground arith

low_end : (i : ℤ) → leb_ℤ (pos 0) (at_least (pos 0) i) ≡ true
low_end i = ground arith

high_end : (j : ℤ) (n : ℕ) → leb_ℤ (at_most (pos n -ℤ pos 1) j +ℤ pos 1) (pos n) ≡ true
unfolding ◌-ℤ◌ ◌+ℤ◌
high_end j n = ground arith

place_low : (i : ℤ) (n : ℕ) → leb_ℤ (pos 0) (at_most (pos n) (at_least (pos 0) i)) ≡ true
place_low i n = ground arith

place_high : (i : ℤ) (n : ℕ) → leb_ℤ (at_most (pos n) i) (pos n) ≡ true
place_high i n = ground arith

module _ {F : Type 0} (D : Double F) where
  as_list_some : (o : Option (List (SValue F))) → o ≢ none → as_list D o ≢ none
  as_list_some none h e = h refl
  as_list_some (some l) h e = ground arith

  sublist_within :
      (xs : List (SValue F)) (i j : ℤ)
      → leb_ℤ (pos 0) i ≡ true
      → leb_ℤ (j +ℤ pos 1) (pos (length xs)) ≡ true
      → sublist D xs i j ≢ none
  sublist_within xs i j h k =
      if_split (leb_ℤ i j) (copied xs i (j +ℤ pos 1)) [] (copied_within xs i (j +ℤ pos 1) h k)

  -- llList2List reads only items that the list has, whatever its arguments are.
  pub bi_ll_list2list-InBounds : (a : List (SValue F)) → bi_ll_list2list D a ≢ none
  unfolding bi_ll_list2list
  bi_ll_list2list-InBounds [] = some_there (list nil)
  bi_ll_list2list-InBounds (list l ∷ more) =
      let n : ℕ = length (items l) in
      let i : ℤ = from_end (int_arg D (list l ∷ more) 1) n in
      let j : ℤ = from_end (int_arg D (list l ∷ more) 2) n in
      as_list_some (sublist D (items l) (at_least (pos 0) i) (at_most (pos n -ℤ pos 1) j)) (
        sublist_within (items l) (at_least (pos 0) i) (at_most (pos n -ℤ pos 1) j) (low_end i)
          (high_end j n))
  bi_ll_list2list-InBounds (_ ∷ more) = some_there (list nil)

  -- llListInsertList reads only items that the list has, whatever its arguments are, if it has one.
  pub bi_ll_list_insert_list-InBounds :
      (v : SValue F) (more : List (SValue F)) → bi_ll_list_insert_list D (v ∷ more) ≢ none
  unfolding bi_ll_list_insert_list
  bi_ll_list_insert_list-InBounds (list l) (list m ∷ more) =
      let n : ℕ = length (items l) in
      let i : ℤ = from_end (int_arg D (list l ∷ list m ∷ more) 2) n in
      let p : ℤ = at_most (pos n) (at_least (pos 0) i) in
      as_list_some (spliced (items l) p (items m) p) (
        around_some (items m) (copied (items l) (pos 0) p) (copied (items l) p (pos n))
          (copied_within (items l) (pos 0) p (ground arith) (place_high (at_least (pos 0) i) n))
          (copied_within (items l) p (pos n) (place_low i n) (ground arith)))
  bi_ll_list_insert_list-InBounds (list l) [] = some_there (list l)
  bi_ll_list_insert_list-InBounds (list l) (_ ∷ more) = some_there (list l)
  bi_ll_list_insert_list-InBounds v more = some_there v
