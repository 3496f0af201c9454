-- ===== src/Builtins/Args.antt =====
-- src/builtins.c: how a built-in reads its arguments.
use sakura_slemu.Base.{ℕ, none, some, List, [], ℤ, pos, get_elem?, strtoll0, Str}
use sakura_slemu.Double.{Double}
use sakura_slemu.Value.{SValue, integer, float, string, key, f_zero}

module _ {F : Type 0} (D : Double F) where
  abbrev pub int_of : SValue F → ℤ
  int_of (integer i) = i
  int_of (float f) = D.to_int f
  int_of (string s) = strtoll0 s
  int_of (key s) = strtoll0 s
  int_of _ = pos 0

  -- The argument at a place as an integer, 0 if there is none.
  unfoldable pub ai : List (SValue F) → ℕ → ℤ
  ai a i = elim (get_elem? a i) [ none ↦ pos 0 | some v ↦ int_of v ]

  abbrev pub float_of : SValue F → F
  float_of (float f) = f
  float_of (integer i) = D.of_int i
  float_of (string s) = D.strtod s
  float_of (key s) = D.strtod s
  float_of _ = f_zero D

  -- The argument at a place as a double, 0 if there is none.
  unfoldable pub af : List (SValue F) → ℕ → F
  af a i = elim (get_elem? a i) [ none ↦ f_zero D | some v ↦ float_of v ]

module _ {F : Type 0} where
  abbrev pub text_of : SValue F → Str
  text_of (string s) = s
  text_of (key s) = s
  text_of _ = []

  -- The argument at a place as a text, empty if there is none.
  unfoldable pub as_text : List (SValue F) → ℕ → Str
  as_text a i = elim (get_elem? a i) [ none ↦ [] | some v ↦ text_of v ]
