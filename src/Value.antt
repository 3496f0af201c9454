-- ===== src/Value.antt =====
-- src/value.c and the value type of src/slemu.h: LSL values, their truth, equality and text.
-- A value owns its payload, so copying (sv_copy) and freeing (sv_free) change nothing here.

use sakura_slemu.Base.{
  ℕ, suc, ◌≡◌, refl, ap, Bool, true, false, not, ◌&&◌, List, [], ◌∷◌, ◌++◌, Str, codes, str_eq,
  is_empty, ℤ, pos, eq_ℤ, print_ℤ, ltb, ◌==◌,
}
use sakura_slemu.Double.{Double}

-- The tags of SVType; a tag read from a file may be any byte.
abbrev pub sv_void : ℕ
sv_void = 0

abbrev pub sv_integer : ℕ
sv_integer = 1

abbrev pub sv_float : ℕ
sv_float = 2

abbrev pub sv_string : ℕ
sv_string = 3

abbrev pub sv_key : ℕ
sv_key = 4

abbrev pub sv_vector : ℕ
sv_vector = 5

abbrev pub sv_rotation : ℕ
sv_rotation = 6

abbrev pub sv_list : ℕ
sv_list = 7

mutual
  pub data SValue (F : Type 0) : Type 0 where
    void : SValue F
    integer : ℤ → SValue F
    float : F → SValue F
    string : Str → SValue F
    key : Str → SValue F
    vector : F → F → F → SValue F
    rotation : F → F → F → F → SValue F
    list : SValues F → SValue F

  pub data SValues (F : Type 0) : Type 0 where
    nil : SValues F
    cons : SValue F → SValues F → SValues F

abbrev pub null_key : Str
null_key = codes "00000000-0000-0000-0000-000000000000"

module _ {F : Type 0} where
  abbrev pub items : SValues F → List (SValue F)
  items nil = []
  items (cons v vs) = v ∷ items vs

  abbrev pub of_items : List (SValue F) → SValues F
  of_items [] = nil
  of_items (v ∷ vs) = cons v (of_items vs)

  pub of_items-items : (l : SValues F) → of_items (items l) ≡ l
  of_items-items nil = refl
  of_items-items (cons v l) = ap (cons v) (of_items-items l)

  pub items-of_items : (l : List (SValue F)) → items (of_items l) ≡ l
  items-of_items [] = refl
  items-of_items (v ∷ l) = ap (λ m. v ∷ m) (items-of_items l)

  -- The items of a value, if it is a list.
  abbrev pub list_items : SValue F → List (SValue F)
  list_items (list l) = items l
  list_items _ = []

  -- v.type
  abbrev pub type_of : SValue F → ℕ
  type_of void = sv_void
  type_of (integer _) = sv_integer
  type_of (float _) = sv_float
  type_of (string _) = sv_string
  type_of (key _) = sv_key
  type_of (vector _ _ _) = sv_vector
  type_of (rotation _ _ _ _) = sv_rotation
  type_of (list _) = sv_list

  abbrev pub sv_list_push : SValues F → SValue F → SValues F
  sv_list_push nil v = cons v nil
  sv_list_push (cons w ws) v = cons w (sv_list_push ws v)

  abbrev pub append : SValues F → SValues F → SValues F
  append nil ws = ws
  append (cons v vs) ws = cons v (append vs ws)

  abbrev pub count : SValues F → ℕ
  count nil = 0
  count (cons _ vs) = suc (count vs)

module _ {F : Type 0} where
  abbrev pub of_bool : Bool → SValue F
  of_bool true = integer (pos 1)
  of_bool false = integer (pos 0)

module _ {F : Type 0} (D : Double F) where
  abbrev pub f_zero : F
  f_zero = D.of_int (pos 0)

  abbrev pub f_one : F
  f_one = D.of_int (pos 1)

  unfoldable pub sv_truthy : SValue F → Bool
  sv_truthy void = false
  sv_truthy (integer i) = not (eq_ℤ i (pos 0))
  sv_truthy (float f) = not (D.eq f f_zero)
  sv_truthy (string s) = not (is_empty s)
  sv_truthy (key s) = not (str_eq s null_key)
  sv_truthy (vector x y z) = not (D.eq x f_zero && D.eq y f_zero && D.eq z f_zero)
  sv_truthy (rotation x y z s) =
      not (D.eq x f_zero && D.eq y f_zero && D.eq z f_zero && D.eq s f_one)
  sv_truthy (list l) = ltb 0 (count l)

  unfoldable pub sv_equal : SValue F → SValue F → Bool
  sv_equal (integer a) (integer b) = eq_ℤ a b
  sv_equal (float a) (float b) = D.eq a b
  sv_equal (integer a) (float b) = D.eq (D.of_int a) b
  sv_equal (float a) (integer b) = D.eq a (D.of_int b)
  sv_equal (string a) (string b) = str_eq a b
  sv_equal (string a) (key b) = str_eq a b
  sv_equal (key a) (string b) = str_eq a b
  sv_equal (key a) (key b) = str_eq a b
  sv_equal (vector x y z) (vector x' y' z') = D.eq x x' && D.eq y y' && D.eq z z'
  sv_equal (rotation x y z s) (rotation x' y' z' s') =
      D.eq x x' && D.eq y y' && D.eq z z' && D.eq s s'
  sv_equal (list a) (list b) = count a == count b
  sv_equal _ _ = false

  abbrev comma : Str
  comma = codes ", "

  unfoldable mutual
    pub sv_to_string : SValue F → Str
    sv_to_string void = []
    sv_to_string (integer i) = print_ℤ i
    sv_to_string (float f) = D.print6 f
    sv_to_string (string s) = s
    sv_to_string (key s) = s
    sv_to_string (vector x y z) =
        codes "<" ++ D.print5 x ++ comma ++ D.print5 y ++ comma ++ D.print5 z ++ codes ">"
    sv_to_string (rotation x y z s) =
        codes "<"
        ++ D.print5 x
        ++ comma
        ++ D.print5 y
        ++ comma
        ++ D.print5 z
        ++ comma
        ++ D.print5 s
        ++ codes ">"
    sv_to_string (list l) = list_to_string l

    pub list_to_string : SValues F → Str
    list_to_string nil = []
    list_to_string (cons v vs) = sv_to_string v ++ list_to_string vs
