-- ===== src/Builtins/Substrings.antt =====
-- src/builtins.c: how the built-ins on parts of texts fit together.
use sakura_slemu.Base.{
  ℕ, zero, suc, ◌+◌, ◌-◌, ◌^◌, ◌≤◌, ◌<◌, ◌≡◌, ◌↔◌, refl, sym, ap, ap₂, ◌∙◌, true, false, Option,
  none, some, [], ◌∷◌, ◌++◌, Str, ℤ, pos, to_i32, to_i32_fits, ltb, leb, length, take, drop,
  take-append-drop, leb→le, Bool-cases, inl, inr, ◌⊎◌, ◌≢◌, subst, length-append, length-take,
  length-drop, arith,
}
use mathlib.Core.Option
use sakura_slemu.Double.{Double}
use sakura_slemu.Value.{SValue, integer, string}
use sakura_slemu.Builtins.Lists.{from_end}
use sakura_slemu.Builtins.Strings.{
  norm_idx, get_sub_string, delete_sub_string, insert_string, bi_ll_get_sub_string,
  bi_ll_delete_sub_string, bi_ll_insert_string,
}

module _ (n len : ℕ) (small : n < 2 ^ 31) where
  norm_idx_inside : n ≤ len → norm_idx (to_i32 (pos n)) len ≡ n
  unfolding norm_idx from_end
  norm_idx_inside h =
      let there : norm_idx (pos n) len ≡ n = ground arith in
      ap (λ i. norm_idx i len) (to_i32_fits (pos n) (omega arith, omega arith)) ∙ there

  norm_idx_outside : len ≤ n → norm_idx (to_i32 (pos n)) len ≡ len
  unfolding norm_idx from_end
  norm_idx_outside h =
      let there : norm_idx (pos n) len ≡ len = ground arith in
      ap (λ i. norm_idx i len) (to_i32_fits (pos n) (omega arith, omega arith)) ∙ there

not_within : (a b : ℕ) → b < a → leb a b ≡ false
not_within a b h = ground arith

not_below : (a b : ℕ) → b ≤ a → ltb a b ≡ false
not_below a b h = ground arith

le_or_lt : (a b : ℕ) → (a ≤ b) ⊎ (b < a)
le_or_lt a b = elim (Bool-cases (leb a b)) [
  | inl e ↦ inl (leb→le a b e)
  | inr e ↦ inr (ground arith)
]

-- The front and the rest of a text in which another one was put.
take_inserted : (i : ℕ) (s t : Str) → i ≤ length s → take i (insert_string s i t) ≡ take i s
unfolding insert_string
take_inserted zero s t h = refl
take_inserted (suc i) [] t h = absurd (omega arith)
take_inserted (suc i) (c ∷ s) t h = ap (λ r. c ∷ r) (take_inserted i s t (omega arith))

drop_inserted : (i : ℕ) (s t : Str) → i ≤ length s → drop i (insert_string s i t) ≡ t ++ drop i s
unfolding insert_string
drop_inserted zero s t h = refl
drop_inserted (suc i) [] t h = absurd (omega arith)
drop_inserted (suc i) (c ∷ s) t h = drop_inserted i s t (omega arith)

drop-append : (t s : Str) → drop (length t) (t ++ s) ≡ s
drop-append [] s = refl
drop-append (c ∷ t) s = drop-append t s

take-append : (t s : Str) → take (length t) (t ++ s) ≡ t
take-append [] s = refl
take-append (c ∷ t) s = ap (λ r. c ∷ r) (take-append t s)

skip_inserted :
    (i : ℕ) (s t : Str) (k : ℕ)
    → i ≤ length s
    → k ≡ i + length t
    → drop k (insert_string s i t) ≡ drop i s
unfolding insert_string
skip_inserted zero s t k h e =
    let f : k ≡ length t = omega arith in ap (λ n. drop n (t ++ s)) f ∙ drop-append t s
skip_inserted (suc i) [] t k h e = absurd (omega arith)
skip_inserted (suc i) (c ∷ s) t zero h e = absurd (omega arith)
skip_inserted (suc i) (c ∷ s) t (suc k) h e = skip_inserted i s t k (omega arith) (omega arith)

length-insert_string :
    (i : ℕ) (s t : Str) → i ≤ length s → length (insert_string s i t) ≡ length s + length t
unfolding insert_string
length-insert_string i s t h = omega (
  arith,
  length-append (take i s) (t ++ drop i s),
  length-append t (drop i s),
  length-take i s,
  length-drop i s,
)

module _ (i : ℕ) (s t : Str) (h : i ≤ length s) (some_t : 0 < length t) where
  last_place : ℕ
  last_place = i + length t - 1

  delete_inserted : delete_sub_string (insert_string s i t) i last_place ≡ some s
  unfolding delete_sub_string last_place
  delete_inserted =
      let n : ℕ = i + length t - 1 in
      let inside : leb (length (insert_string s i t)) n ≡ false =
        not_within _ n (omega (arith, length-insert_string i s t h)) in
      let forwards : ltb n i ≡ false = not_below n i (omega arith) in
      rw (inside, forwards)
        (ap some (
          ap₂ (λ a b. a ++ b) (take_inserted i s t h) (skip_inserted i s t (suc n) h (omega arith))
          ∙ take-append-drop i s))

  get_inserted : get_sub_string (insert_string s i t) i last_place ≡ t
  unfolding get_sub_string last_place
  get_inserted =
      let n : ℕ = i + length t - 1 in
      let forwards : ltb n i ≡ false = not_below n i (omega arith) in
      let count : suc n - i ≡ length t = omega arith in
      rw (forwards, count) (ap (take (length t)) (drop_inserted i s t h) ∙ take-append t (drop i s))

module _ {F : Type 0} (D : Double F) (i : ℕ) (s t : Str) (h : i ≤ length s) (some_t : 0 < length t)
    (small : length s + length t < 2 ^ 31) where
  -- The text with the other one in it, and the place of its last byte.
  abbrev with_inserted : SValue F
  with_inserted = bi_ll_insert_string D (string s ∷ integer (pos i) ∷ string t ∷ [])

  inserted_lem : with_inserted ≡ string (insert_string s i t)
  unfolding bi_ll_insert_string
  inserted_lem =
      ap (λ k. string (insert_string s k t)) (norm_idx_inside i (length s) (omega arith) h)

  -- llDeleteSubString takes out what llInsertString put into a text, and llGetSubString gives it: for
  -- every place of the text, if what is put in is not empty and the result has fewer than 2 ^ 31 bytes.
  pub bi_ll_delete_sub_string-insert_string :
      (bi_ll_delete_sub_string D
          (with_inserted ∷ integer (pos i) ∷ integer (pos (i + length t - 1)) ∷ [])
        ≡ some (string s))
      × (bi_ll_get_sub_string D
            (with_inserted ∷ integer (pos i) ∷ integer (pos (i + length t - 1)) ∷ [])
          ≡ string t)
  unfolding bi_ll_delete_sub_string bi_ll_get_sub_string last_place
  bi_ll_delete_sub_string-insert_string =
      let n : ℕ = i + length t - 1 in
      let whole : Str = insert_string s i t in
      let e = length-insert_string i s t h in
      let first : norm_idx (to_i32 (pos i)) (length whole) ≡ i =
        norm_idx_inside i (length whole) (omega arith) (omega (arith, e)) in
      let last : norm_idx (to_i32 (pos n)) (length whole) ≡ n =
        norm_idx_inside n (length whole) (omega arith) (omega (arith, e)) in
      (
        ap (λ v. bi_ll_delete_sub_string D (v ∷ integer (pos i) ∷ integer (pos n) ∷ []))
              inserted_lem
            ∙ ap₂ (λ a b. Option.map string (delete_sub_string whole a b)) first last
            ∙ ap (Option.map string) (delete_inserted i s t h some_t),
        ap (λ v. bi_ll_get_sub_string D (v ∷ integer (pos i) ∷ integer (pos n) ∷ [])) inserted_lem
            ∙ ap₂ (λ a b. string (get_sub_string whole a b)) first last
            ∙ ap string (get_inserted i s t h some_t),
      )

module _ {F : Type 0} (D : Double F) (s : Str) (a : ℤ) (j : ℕ) (small : j < 2 ^ 31) where
  abbrev deleted : Option (SValue F)
  deleted = bi_ll_delete_sub_string D (string s ∷ integer a ∷ integer (pos j) ∷ [])

  fails_outside : length s ≤ j → deleted ≡ none
  unfolding bi_ll_delete_sub_string delete_sub_string
  fails_outside h =
      let end : norm_idx (to_i32 (pos j)) (length s) ≡ length s =
        norm_idx_outside j (length s) small h in
      let reached : leb (length s) (length s) ≡ true = ground arith in
      ap (λ k. Option.map string (delete_sub_string s (norm_idx (to_i32 a) (length s)) k)) end
      ∙ rw reached refl

  works_inside : j < length s → deleted ≢ none
  unfolding bi_ll_delete_sub_string delete_sub_string
  works_inside h =
      let same : norm_idx (to_i32 (pos j)) (length s) ≡ j =
        norm_idx_inside j (length s) small (omega arith) in
      let inside : leb (length s) j ≡ false = not_within (length s) j h in
      subst
        (λ k.
          Option.map {B = SValue F} string (delete_sub_string s (norm_idx (to_i32 a) (length s)) k)
          ≢ none)
        (sym same) (rw inside λ e. cc)

  -- llDeleteSubString copies a negative number of bytes exactly if its end, counted from the front, is
  -- not a place of the text, whatever the start is.
  pub bi_ll_delete_sub_string_fails : (deleted ≡ none) ↔ (length s ≤ j)
  bi_ll_delete_sub_string_fails = (
    λ e. elim (le_or_lt (length s) j) [ inl h ↦ h | inr h ↦ absurd (works_inside h e) ],
    fails_outside,
  )
