-- ===== src/Examples/Sublists.antt =====
-- The theorems on the built-ins on parts of lists, at a list of three items.
use sakura_slemu.Base.{
  ◌≡◌, ◌≢◌, refl, some, none, [], ◌∷◌, codes, ℤ, pos, negsuc, arith, ◌+ℤ◌, ◌-ℤ◌, str_eq,
}
use sakura_slemu.Value.{SValue, SValues, integer, string, list, nil, cons}
use sakura_slemu.Builtins.Lists.{
  bi_ll_list2list, bi_ll_list_insert_list, bi_ll_list_replace_list, bi_ll_delete_sub_list,
}
use sakura_slemu.Builtins.Sublists.{
  bi_ll_list_replace_list-list2list, bi_ll_list_insert_list-delete_sub_list,
}
use sakura_slemu.Builtins.InBounds.{bi_ll_list2list-InBounds, bi_ll_list_insert_list-InBounds}
use sakura_slemu.Builtins.Search.{Found, bi_ll_list_find_list, bi_ll_list_find_list-Found}
use sakura_slemu.Examples.Running.{int_double}

abbrev three : SValues ℤ
three = cons (string (codes "a")) (cons (integer (pos 7)) (cons (string (codes "b")) nil))

abbrev last_two : SValue ℤ
last_two = list (cons (integer (pos 7)) (cons (string (codes "b")) nil))

-- From -2 to 2.
bi_ll_list_replace_list-list2list_example :
    bi_ll_list_replace_list int_double
      (list three ∷ last_two ∷ integer (negsuc 1) ∷ integer (pos 2) ∷ [])
    ≡ some (list three)
unfolding bi_ll_list2list ◌+ℤ◌ ◌-ℤ◌
bi_ll_list_replace_list-list2list_example =
    bi_ll_list_replace_list-list2list int_double three (negsuc 1) (pos 2) 1 2 last_two
      (omega arith, omega arith) (omega arith, omega arith) refl refl (omega arith) (omega arith)
      refl

bi_ll_list_insert_list-delete_sub_list_example :
    bi_ll_list_insert_list int_double (
      bi_ll_delete_sub_list int_double (list three ∷ integer (negsuc 1) ∷ integer (pos 2) ∷ [])
      ∷ last_two
      ∷ integer (pos 1)
      ∷ [])
    ≡ some (list three)
unfolding bi_ll_list2list ◌+ℤ◌ ◌-ℤ◌
bi_ll_list_insert_list-delete_sub_list_example =
    bi_ll_list_insert_list-delete_sub_list int_double three (negsuc 1) (pos 2) 1 2 last_two
      (omega arith, omega arith) (omega arith, omega arith) refl refl (omega arith) (omega arith)
      refl (omega arith)

bi_ll_list2list-InBounds_example :
    bi_ll_list2list int_double (list three ∷ integer (negsuc 40) ∷ integer (pos 90) ∷ []) ≢ none
bi_ll_list2list-InBounds_example =
    bi_ll_list2list-InBounds int_double (list three ∷ integer (negsuc 40) ∷ integer (pos 90) ∷ [])

bi_ll_list_insert_list-InBounds_example :
    bi_ll_list_insert_list int_double (list three ∷ list three ∷ integer (pos 90) ∷ []) ≢ none
bi_ll_list_insert_list-InBounds_example =
    bi_ll_list_insert_list-InBounds int_double (list three) (list three ∷ integer (pos 90) ∷ [])

-- A replacement that starts behind the end, or ends before the front, reads what is not there.
replace_behind :
    bi_ll_list_replace_list int_double
      (list three ∷ list nil ∷ integer (pos 9) ∷ integer (pos 9) ∷ [])
    ≡ none
unfolding bi_ll_list_replace_list ◌+ℤ◌ ◌-ℤ◌
replace_behind = refl

replace_before :
    bi_ll_list_replace_list int_double
      (list three ∷ list nil ∷ integer (pos 0) ∷ integer (negsuc 8) ∷ [])
    ≡ none
unfolding bi_ll_list_replace_list ◌+ℤ◌ ◌-ℤ◌
replace_before = refl

bi_ll_list_find_list-Found_example :
    Found int_double 0
      (integer (pos 7) ∷ string (codes "b") ∷ [])
      (string (codes "a") ∷ integer (pos 7) ∷ string (codes "b") ∷ [])
      (pos 1)
unfolding bi_ll_list_find_list str_eq
bi_ll_list_find_list-Found_example =
    bi_ll_list_find_list-Found int_double three
      (cons (integer (pos 7)) (cons (string (codes "b")) nil)) (pos 1) refl
