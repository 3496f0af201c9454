-- ===== src/Examples/Texts.antt =====
-- The theorems on the built-ins for texts and lists at small values.
use sakura_slemu.Base.{
  ◌≡◌, refl, ◌≤◌, ◌↔◌, true, none, some, List, [], ◌∷◌, map, Str, codes, ℤ, pos, negsuc, All, arith,
  ltb,
}
use mathlib.Core.List.{Perm}
use sakura_slemu.Value.{SValue, integer, string, list, cons, nil, of_items, list_items}
use sakura_slemu.Builtins.Encoding.Bytes.{IsByte}
use sakura_slemu.Builtins.Encoding.Base64.{
  bi_ll_base64_to_string, bi_ll_string_to_base64, bi_ll_integer_to_base64,
}
use sakura_slemu.Builtins.Encoding.Decoding.{bi_ll_base64_to_string-string_to_base64}
use sakura_slemu.Builtins.Encoding.Integers.{bi_ll_integer_to_base64_small}
use sakura_slemu.Builtins.Encoding.Url.{
  bi_ll_unescape_url, bi_ll_escape_url, bi_ll_unescape_url-escape_url,
}
use sakura_slemu.Builtins.Sort.{sort_strides, bi_ll_list_sort}
use sakura_slemu.Builtins.Sort.Permutation.{bi_ll_list_sort-Perm}
use sakura_slemu.Builtins.Sort.Agreement.{sort_strides-exchange_sort}
use sakura_slemu.Builtins.Sort.Reference.{InOrder, exchange_sort}
use sakura_slemu.Builtins.Sort.Ordered.{wrong_ℤ, bi_ll_list_sort-InOrder}
use sakura_slemu.Builtins.ListText.{bi_ll_dump_list2_string, parse_string2list}
use sakura_slemu.Builtins.Splitting.{bi_ll_dump_list2_string-parse_string2list}
use sakura_slemu.Builtins.Strings.{
  bi_ll_delete_sub_string, bi_ll_get_sub_string, bi_ll_insert_string,
}
use sakura_slemu.Builtins.Substrings.{
  bi_ll_delete_sub_string-insert_string, bi_ll_delete_sub_string_fails,
}
use sakura_slemu.Examples.Running.{int_double}

abbrev hello : Str
hello = codes "a b/c"

hello-bytes : All IsByte hello
hello-bytes = ground arith

bi_ll_base64_to_string-string_to_base64_example :
    bi_ll_base64_to_string {F = ℤ} (bi_ll_string_to_base64 (string hello ∷ []) ∷ []) ≡ string hello
bi_ll_base64_to_string-string_to_base64_example =
    bi_ll_base64_to_string-string_to_base64 hello hello-bytes

bi_ll_unescape_url-escape_url_example :
    bi_ll_unescape_url {F = ℤ} (bi_ll_escape_url (string hello ∷ []) ∷ []) ≡ string hello
bi_ll_unescape_url-escape_url_example = bi_ll_unescape_url-escape_url hello hello-bytes

bi_ll_integer_to_base64_small_example :
    bi_ll_integer_to_base64 int_double (integer (pos 4321) ∷ []) ≡ string []
bi_ll_integer_to_base64_small_example = bi_ll_integer_to_base64_small int_double 4321 (omega arith)

abbrev deck : List (SValue ℤ)
deck = integer (pos 3) ∷ string (codes "x") ∷ integer (pos 1) ∷ string (codes "y") ∷ []

abbrev by_pairs : List (SValue ℤ)
by_pairs = integer (pos 2) ∷ integer (pos 1) ∷ []

bi_ll_list_sort-Perm_example :
    Perm (list_items (bi_ll_list_sort int_double (list (of_items deck) ∷ by_pairs))) deck
bi_ll_list_sort-Perm_example = bi_ll_list_sort-Perm int_double (of_items deck) by_pairs

sort_strides-exchange_sort_example :
    sort_strides (λ a b. ltb b a) 1 (3 ∷ 1 ∷ 2 ∷ []) ≡ 1 ∷ 2 ∷ 3 ∷ []
unfolding exchange_sort
sort_strides-exchange_sort_example = sort_strides-exchange_sort (λ a b. ltb b a) (3 ∷ 1 ∷ 2 ∷ [])

abbrev numbers : List ℤ
numbers = pos 3 ∷ negsuc 0 ∷ pos 2 ∷ []

bi_ll_list_sort-InOrder_example :
    (js : List ℤ) × (bi_ll_list_sort int_double
        (list (of_items (map integer numbers)) ∷ integer (pos 1) ∷ integer (pos 1) ∷ [])
      ≡ list (of_items (map integer js)))
    × InOrder (wrong_ℤ true) js
bi_ll_list_sort-InOrder_example = bi_ll_list_sort-InOrder int_double numbers (pos 1) (ground arith)

bi_ll_dump_list2_string-parse_string2list_example :
    bi_ll_dump_list2_string int_double (
      parse_string2list true (string hello ∷ list (cons (string (codes " ")) nil) ∷ list nil ∷ [])
      ∷ string (codes " ")
      ∷ [])
    ≡ string hello
bi_ll_dump_list2_string-parse_string2list_example =
    bi_ll_dump_list2_string-parse_string2list int_double hello (codes " ") refl

abbrev greeting : SValue ℤ
greeting =
    bi_ll_insert_string int_double (string hello ∷ integer (pos 1) ∷ string (codes "XY") ∷ [])

bi_ll_delete_sub_string-insert_string_example :
    (bi_ll_delete_sub_string int_double (greeting ∷ integer (pos 1) ∷ integer (pos 2) ∷ [])
      ≡ some (string hello))
    × (bi_ll_get_sub_string int_double (greeting ∷ integer (pos 1) ∷ integer (pos 2) ∷ [])
        ≡ string (codes "XY"))
bi_ll_delete_sub_string-insert_string_example =
    bi_ll_delete_sub_string-insert_string int_double 1 hello (codes "XY") (omega arith)
      (omega arith) (omega arith)

bi_ll_delete_sub_string_fails_example :
    (bi_ll_delete_sub_string int_double (string [] ∷ integer (pos 0) ∷ integer (pos 0) ∷ []) ≡ none)
    ↔ (0 ≤ 0)
bi_ll_delete_sub_string_fails_example =
    bi_ll_delete_sub_string_fails int_double [] (pos 0) 0 (omega arith)
