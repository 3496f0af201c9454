-- ===== src/Double.antt =====
-- The C type `double` and what the program uses of it: a parameter of the model, since the
-- theory has no floating point numbers.
use sakura_slemu.Base.{ℕ, Bool, Str, List, ℤ}

pub record Double (F : Type 0) : Type 0 where
  pub of_int : ℤ → F
  -- the conversion to `long long`
  pub to_int : F → ℤ
  pub add : F → F → F
  pub sub : F → F → F
  pub mul : F → F → F
  pub div : F → F → F
  pub neg : F → F
  -- the comparisons `==`, `<` and `<=`
  pub eq : F → F → Bool
  pub lt : F → F → Bool
  pub le : F → F → Bool
  -- "%.5f" and "%.6f"
  pub print5 : F → Str
  pub print6 : F → Str
  pub strtod : Str → F
  -- the double of a 64-bit pattern
  pub of_bits : ℕ → F
  -- the numbers that sscanf reads by `n` conversions " < %lf , … >", at most `n`
  pub scan : ℕ → Str → List F
