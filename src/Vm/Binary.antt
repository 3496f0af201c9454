-- ===== src/Vm/Binary.antt =====
-- src/vm.c: coerce, eval_binary and do_cast. Where both operands are numbers, an `integer` counts
-- as a double if the other is one. `none` is the trap of the most negative `long long` divided by -1.
use sakura_slemu.Base.{
  ℕ, ◌-◌, ◌%◌, ◌^◌, Bool, true, false, not, ◌&&◌, ◌||◌, Option, none, some, ◌++◌, Str, str_lt, ℤ,
  pos, negsuc, add64, sub64, mul64, and64, or64, xor64, shl64, shr64, quotient, remainder, word,
  two64, eq_ℤ, ltb, leb, ◌==◌, if◌then◌else◌, strtoll0, get_or,
}
use sakura_slemu.Double.{Double}
use sakura_slemu.Value.{
  SValue, SValues, void, integer, float, string, key, vector, rotation, list, nil, cons, append,
  count, type_of, of_bool, sv_truthy, sv_equal, sv_to_string, f_zero, f_one, null_key, sv_integer,
  sv_float, sv_string, sv_key, sv_vector, sv_rotation, sv_list,
}

module _ {F : Type 0} (D : Double F) where
  unfoldable pub coerce : SValue F → ℕ → SValue F
  coerce (integer i) to = if to == sv_float then float (D.of_int i) else integer i
  coerce (string s) to = if to == sv_key then key s else string s
  coerce (key s) to = if to == sv_string then string s else key s
  coerce v to = v

  -- What a side of `+` adds to a list.
  abbrev as_items : SValue F → SValues F
  as_items (list l) = l
  as_items v = cons v nil

  unfoldable pub op_plus : SValue F → SValue F → SValue F
  op_plus (string a) (string b) = string (a ++ b)
  op_plus (string a) (key b) = string (a ++ b)
  op_plus (key a) (string b) = string (a ++ b)
  op_plus (key a) (key b) = string (a ++ b)
  op_plus (vector x y z) (vector x' y' z') = vector (D.add x x') (D.add y y') (D.add z z')
  op_plus (rotation x y z s) (rotation x' y' z' s') =
      rotation (D.add x x') (D.add y y') (D.add z z') (D.add s s')
  op_plus (list a) r = list (append a (as_items r))
  op_plus l (list b) = list (append (as_items l) b)
  op_plus (integer a) (integer b) = integer (add64 a b)
  op_plus (integer a) (float b) = float (D.add (D.of_int a) b)
  op_plus (float a) (integer b) = float (D.add a (D.of_int b))
  op_plus (float a) (float b) = float (D.add a b)
  op_plus _ _ = void

  unfoldable pub op_minus : SValue F → SValue F → SValue F
  op_minus (vector x y z) (vector x' y' z') = vector (D.sub x x') (D.sub y y') (D.sub z z')
  op_minus (rotation x y z s) (rotation x' y' z' s') =
      rotation (D.sub x x') (D.sub y y') (D.sub z z') (D.sub s s')
  op_minus (integer a) (integer b) = integer (sub64 a b)
  op_minus (integer a) (float b) = float (D.sub (D.of_int a) b)
  op_minus (float a) (integer b) = float (D.sub a (D.of_int b))
  op_minus (float a) (float b) = float (D.sub a b)
  op_minus _ _ = void

  abbrev scale : F → F → F → F → SValue F
  scale x y z k = vector (D.mul x k) (D.mul y k) (D.mul z k)

  abbrev add3 : F → F → F → F
  add3 a b c = D.add (D.add a b) c

  -- a*b + c*d + e*f - g*h, as the quaternion product adds them up
  abbrev product : F → F → F → F → F → F → F → F → F
  product a b c d e f g h = D.sub (add3 (D.mul a b) (D.mul c d) (D.mul e f)) (D.mul g h)

  unfoldable pub op_star : SValue F → SValue F → SValue F
  op_star (vector x y z) (vector x' y' z') = float (add3 (D.mul x x') (D.mul y y') (D.mul z z'))
  op_star (vector x y z) (integer k) = scale x y z (D.of_int k)
  op_star (vector x y z) (float k) = scale x y z k
  op_star (integer k) (vector x y z) = scale x y z (D.of_int k)
  op_star (float k) (vector x y z) = scale x y z k
  op_star (vector x y z) (rotation _ _ _ s) = scale x y z s
  op_star (rotation ax ay az aw) (rotation bx by bz bw) =
      rotation (product aw bx ax bw ay bz az by)
        (D.add (D.add (D.sub (D.mul aw by) (D.mul ax bz)) (D.mul ay bw)) (D.mul az bx))
        (D.add (D.sub (D.add (D.mul aw bz) (D.mul ax by)) (D.mul ay bx)) (D.mul az bw))
        (D.sub (D.sub (D.sub (D.mul aw bw) (D.mul ax bx)) (D.mul ay by)) (D.mul az bz))
  op_star (integer a) (integer b) = integer (mul64 a b)
  op_star (integer a) (float b) = float (D.mul (D.of_int a) b)
  op_star (float a) (integer b) = float (D.mul a (D.of_int b))
  op_star (float a) (float b) = float (D.mul a b)
  op_star _ _ = void

  -- The operands at which the machine's division traps.
  abbrev pub traps : ℤ → ℤ → Bool
  traps a b = eq_ℤ a (negsuc (2 ^ 63 - 1)) && eq_ℤ b (negsuc 0)

  abbrev div_float : F → F → SValue F
  div_float a b = if D.eq b (f_zero D) then float (f_zero D) else float (D.div a b)

  abbrev div_vector : F → F → F → F → SValue F
  div_vector x y z k =
      if D.eq k (f_zero D)
      then vector (f_zero D) (f_zero D) (f_zero D)
      else vector (D.div x k) (D.div y k) (D.div z k)

  unfoldable pub op_slash : SValue F → SValue F → Option (SValue F)
  op_slash (vector x y z) (integer k) = some (div_vector x y z (D.of_int k))
  op_slash (vector x y z) (float k) = some (div_vector x y z k)
  op_slash (integer a) (integer b) =
      if eq_ℤ b (pos 0)
      then some (div_float (D.of_int a) (D.of_int b))
      else if traps a b
      then none
      else some (integer (quotient a b))
  op_slash (integer a) (float b) = some (div_float (D.of_int a) b)
  op_slash (float a) (integer b) = some (div_float a (D.of_int b))
  op_slash (float a) (float b) = some (div_float a b)
  op_slash _ _ = some void

  unfoldable pub op_percent : SValue F → SValue F → Option (SValue F)
  op_percent (vector x y z) (vector x' y' z') = some (
      vector (D.sub (D.mul y z') (D.mul z y')) (D.sub (D.mul z x') (D.mul x z'))
        (D.sub (D.mul x y') (D.mul y x')))
  op_percent (integer a) (integer b) =
      if eq_ℤ b (pos 0)
      then some (integer (pos 0))
      else if traps a b
      then none
      else some (integer (remainder a b))
  op_percent _ _ = some (integer (pos 0))

  -- li and ri: the operands of the bit operations, 0 unless both sides are numbers.
  abbrev int_part : SValue F → ℤ
  int_part (integer i) = i
  int_part (float f) = D.to_int f
  int_part _ = pos 0

  abbrev is_num : SValue F → Bool
  is_num (integer _) = true
  is_num (float _) = true
  is_num _ = false

  unfoldable pub op_bits : (ℤ → ℤ → ℤ) → SValue F → SValue F → SValue F
  op_bits f l r =
      if is_num l && is_num r
      then integer (f (int_part l) (int_part r))
      else integer (f (pos 0) (pos 0))

  -- ri & 31
  abbrev shift_count : ℤ → ℕ
  shift_count b = word two64 b % 32

  -- A comparison of numbers as doubles, of lists by length, and of texts.
  unfoldable pub op_compare :
      (F → F → Bool) → (ℕ → ℕ → Bool) → (Str → Str → Bool) → SValue F → SValue F → SValue F
  op_compare f n s (integer a) (integer b) = of_bool (f (D.of_int a) (D.of_int b))
  op_compare f n s (integer a) (float b) = of_bool (f (D.of_int a) b)
  op_compare f n s (float a) (integer b) = of_bool (f a (D.of_int b))
  op_compare f n s (float a) (float b) = of_bool (f a b)
  op_compare f n s (list a) (list b) = of_bool (n (count a) (count b))
  op_compare f n s (string a) (string b) = of_bool (s a b)
  op_compare f n s (string a) (key b) = of_bool (s a b)
  op_compare f n s (key a) (string b) = of_bool (s a b)
  op_compare f n s (key a) (key b) = of_bool (s a b)
  op_compare f n s _ _ = of_bool false

  unfoldable pub eval_binary : ℕ → SValue F → SValue F → Option (SValue F)
  unfolding op_plus op_minus op_star op_slash op_percent op_bits op_compare sv_truthy sv_equal
  eval_binary op l r =
      if op == 42
      then some (op_plus l r)
      else if op == 43
      then some (op_minus l r)
      else if op == 44
      then some (op_star l r)
      else if op == 45
      then op_slash l r
      else if op == 46
      then op_percent l r
      else if op == 47
      then some (op_bits and64 l r)
      else if op == 48
      then some (op_bits or64 l r)
      else if op == 49
      then some (op_bits xor64 l r)
      else if op == 51
      then some (of_bool (sv_truthy D l && sv_truthy D r))
      else if op == 52
      then some (of_bool (sv_truthy D l || sv_truthy D r))
      else if op == 54
      then some (of_bool (sv_equal D l r))
      else if op == 55
      then some (of_bool (not (sv_equal D l r)))
      else if op == 56
      then some (op_compare D.le leb (λ _ _. false) l r)
      else if op == 57
      then some (op_compare (λ a b. D.le b a) (λ a b. leb b a) (λ _ _. false) l r)
      else if op == 58
      then some (op_compare D.lt ltb str_lt l r)
      else if op == 59
      then some (op_compare (λ a b. D.lt b a) (λ a b. ltb b a) (λ a b. str_lt b a) l r)
      else if op == 60
      then some (op_bits (λ a b. shl64 a (shift_count b)) l r)
      else if op == 61
      then some (op_bits (λ a b. shr64 a (shift_count b)) l r)
      else some void

  abbrev cast_integer : SValue F → SValue F
  cast_integer (float f) = integer (D.to_int f)
  cast_integer (string s) = integer (strtoll0 s)
  cast_integer (key s) = integer (strtoll0 s)
  cast_integer v = integer (pos 0)

  abbrev cast_float : SValue F → SValue F
  cast_float (integer i) = float (D.of_int i)
  cast_float (string s) = float (D.strtod s)
  cast_float (key s) = float (D.strtod s)
  cast_float v = float (f_zero D)

  abbrev cast_key : SValue F → SValue F
  cast_key (string s) = key s
  cast_key v = key null_key

  abbrev cast_vector : SValue F → SValue F
  cast_vector (string s) =
      let l = D.scan 3 s in
      vector (get_or l 0 (f_zero D)) (get_or l 1 (f_zero D)) (get_or l 2 (f_zero D))
  cast_vector v = vector (f_zero D) (f_zero D) (f_zero D)

  abbrev cast_rotation : SValue F → SValue F
  cast_rotation (string s) =
      let l = D.scan 4 s in
      rotation (get_or l 0 (f_zero D)) (get_or l 1 (f_zero D)) (get_or l 2 (f_zero D))
        (get_or l 3 (f_one D))
  cast_rotation v = rotation (f_zero D) (f_zero D) (f_zero D) (f_one D)

  unfoldable pub do_cast : SValue F → ℕ → SValue F
  unfolding sv_to_string
  do_cast v t =
      if type_of v == t
      then v
      else if t == sv_integer
      then cast_integer v
      else if t == sv_float
      then cast_float v
      else if t == sv_string
      then string (sv_to_string D v)
      else if t == sv_key
      then cast_key v
      else if t == sv_vector
      then cast_vector v
      else if t == sv_rotation
      then cast_rotation v
      else if t == sv_list
      then list (cons v nil)
      else v
