-- ===== src/Builtins/Splitting.antt =====
-- src/builtins.c: what llParseStringKeepNulls splits, llDumpList2String joins.
use sakura_slemu.Base.{
  ℕ, zero, suc, ◌≡◌, ◌≢◌, ◌≤◌, ◌<◌, refl, sym, ap, ◌∙◌, subst, true, false, none, some, List, [],
  ◌∷◌, ◌++◌, map, Str, is_empty, starts_with, Bool-cases, inl, inr, length, length-drop, drop,
  arith,
}
use mathlib.Core.List.{append_assoc, append-nil}
use sakura_slemu.Double.{Double}
use sakura_slemu.Value.{string, list, nil, cons, items-of_items, sv_to_string}
use sakura_slemu.Builtins.ListText.{
  join, first_match, parse_from, parse_string2list, bi_ll_dump_list2_string,
}

cut_front : (t s : Str) → starts_with s t ≡ true → t ++ drop (length t) s ≡ s
unfolding starts_with
cut_front [] s h = refl
cut_front (c ∷ t) [] h = absurd cc
cut_front (c ∷ t) (d ∷ s) h = ground (arith, cut_front t s)

positive : (s : Str) → is_empty s ≡ false → 0 < length s
positive [] h = cc
positive (c ∷ s) h = omega arith

module _ (sep : Str) (some_sep : is_empty sep ≡ false) where
  some_length : 0 < length sep
  some_length = positive sep some_sep

  one : (x : Str) → join sep (x ∷ []) ≡ x
  unfolding join
  one x = refl

  join-cons : (x : Str) (ts : List Str) → ts ≢ [] → join sep (x ∷ ts) ≡ x ++ (sep ++ join sep ts)
  unfolding join
  join-cons x [] h = absurd (h refl)
  join-cons x (t ∷ ts) h = refl

  nonempty_append : (x : Str) (ts : List Str) → x ∷ ts ≢ []
  nonempty_append x ts e = cc

  found : (s : Str) → starts_with s sep ≡ true → first_match (sep ∷ []) s ≡ some sep
  unfolding first_match
  found s h = rw (some_sep, h) refl

  not_found : (s : Str) → starts_with s sep ≡ false → first_match (sep ∷ []) s ≡ none
  unfolding first_match
  not_found s h = rw (some_sep, h) refl

  module _ (fuel : ℕ) (acc : Str) (c : ℕ) (s : Str) where
    parse_cut :
        starts_with (c ∷ s) sep ≡ true
        → parse_from (suc fuel) true (sep ∷ []) [] acc (c ∷ s)
          ≡ acc ∷ parse_from fuel true (sep ∷ []) [] [] (drop (length sep) (c ∷ s))
    unfolding parse_from
    parse_cut h = rw (found (c ∷ s) h, parse_from) refl

    parse_on :
        starts_with (c ∷ s) sep ≡ false
        → parse_from (suc fuel) true (sep ∷ []) [] acc (c ∷ s)
          ≡ parse_from fuel true (sep ∷ []) [] (acc ++ (c ∷ [])) s
    unfolding parse_from
    parse_on h = rw (not_found (c ∷ s) h, parse_from) refl

  parse_from_some :
      (fuel : ℕ) (acc s : Str) → length s ≤ fuel → parse_from fuel true (sep ∷ []) [] acc s ≢ []
  unfolding parse_from
  parse_from_some fuel acc [] l = nonempty_append acc []
  parse_from_some zero acc (c ∷ s) l = absurd (omega arith)
  parse_from_some (suc fuel) acc (c ∷ s) l = elim (Bool-cases (starts_with (c ∷ s) sep)) [
    | inl h ↦
        subst (λ t. t ≢ []) (sym (parse_cut fuel acc c s h))
          (nonempty_append acc (parse_from fuel true (sep ∷ []) [] [] (drop (length sep) (c ∷ s))))
    | inr h ↦
        subst (λ t. t ≢ []) (sym (parse_on fuel acc c s h))
          (parse_from_some fuel (acc ++ (c ∷ [])) s (omega arith))
  ]

  shorter : (fuel : ℕ) (s : Str) → length s ≤ suc fuel → length (drop (length sep) s) ≤ fuel
  shorter fuel s l = omega (arith, length-drop (length sep) s, some_length)

  join-parse_from :
      (fuel : ℕ) (acc s : Str)
      → length s ≤ fuel
      → join sep (parse_from fuel true (sep ∷ []) [] acc s) ≡ acc ++ s
  unfolding parse_from first_match
  join-parse_from fuel acc [] l = one acc ∙ sym (append-nil acc)
  join-parse_from zero acc (c ∷ s) l = absurd (omega arith)
  join-parse_from (suc fuel) acc (c ∷ s) l = elim (Bool-cases (starts_with (c ∷ s) sep)) [
    | inl h ↦
        let rest : Str = drop (length sep) (c ∷ s) in
        ap (join sep) (parse_cut fuel acc c s h)
        ∙ (join-cons acc (parse_from fuel true (sep ∷ []) [] [] rest)
              (parse_from_some fuel [] rest (shorter fuel (c ∷ s) l))
            ∙ ap (λ t. acc ++ (sep ++ t)) (join-parse_from fuel [] rest (shorter fuel (c ∷ s) l))
            ∙ ap (λ t. acc ++ t) (cut_front sep (c ∷ s) h))
    | inr h ↦
        ap (join sep) (parse_on fuel acc c s h)
        ∙ (join-parse_from fuel (acc ++ (c ∷ [])) s (omega arith) ∙ append_assoc acc (c ∷ []) s)
  ]

map-to_string :
    {F : Type 0} (D : Double F) (ts : List Str) → map (sv_to_string D) (map string ts) ≡ ts
unfolding sv_to_string
map-to_string D [] = refl
map-to_string D (t ∷ ts) = ap (λ l. t ∷ l) (map-to_string D ts)

module _ {F : Type 0} (D : Double F) where
  -- llDumpList2String joins again what llParseStringKeepNulls split at a separator, for every text and
  -- every separator that is not empty.
  pub bi_ll_dump_list2_string-parse_string2list :
      (s sep : Str)
      → is_empty sep ≡ false
      → bi_ll_dump_list2_string D (
          parse_string2list true (string s ∷ list (cons (string sep) nil) ∷ list nil ∷ [])
          ∷ string sep
          ∷ [])
        ≡ string s
  unfolding bi_ll_dump_list2_string parse_string2list
  bi_ll_dump_list2_string-parse_string2list s sep h =
      let pieces : List Str = parse_from (length s) true (sep ∷ []) [] [] s in
      ap (λ vs. string (join sep (map (sv_to_string D) vs))) (items-of_items (map string pieces))
      ∙ ap (λ ts. string (join sep ts)) (map-to_string D pieces)
      ∙ ap string (join-parse_from sep h (length s) [] s (omega arith))
