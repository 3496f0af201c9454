-- ===== src/Base/Text/Numerals.antt =====
-- strtoll reads back the number that "%lld" prints.
use Prim.Native.Nat.{ℕ, zero, suc, ◌≤◌, ◌<◌, ◌*◌, ◌+◌, ◌-◌, ◌^◌, ◌/◌, ◌%◌}
use mathlib.Core.Path.{◌≡◌, refl, ◌∙◌, ap}
use mathlib.Core.Logic.{◌≢◌, inl, inr}
use mathlib.Core.Bool.{true, false}
use mathlib.Core.List.{[], ◌∷◌}
use native.Mathlib.Omega.{arith}
use sakura_slemu.Base.Tests.{ltb, leb, ◌==◌, Bool-cases}
use sakura_slemu.Base.Lists.{All}
use sakura_slemu.Base.Int.{ℤ, pos, negsuc, IsI64}
use sakura_slemu.Base.Text.{
  Str, print_ℕ, print_ℤ, print_digits, digit_value, read_digits, is_space, skip_space, clamp64,
  signed_read, strtoll10,
}

abbrev pub Digit : ℕ → Type 0
Digit c = (48 ≤ c) × (c ≤ 57)

print_digits-Digit : (f n : ℕ) (acc : Str) → All Digit acc → All Digit (print_digits f n acc)
unfolding print_digits
print_digits-Digit zero n acc h = h
print_digits-Digit (suc f) n acc h =
    let d : Digit (48 + n % 10) = (omega arith, omega arith) in
    elim (Bool-cases (n / 10 == 0)) [
      | inl e ↦ rw e (d, h)
      | inr e ↦ rw e (print_digits-Digit f (n / 10) ((48 + n % 10) ∷ acc) (d, h))
    ]

digit_lem : (n : ℕ) → n < 10 → digit_value (48 + n) ≡ n
digit_lem n h = ground arith

read_one :
    (d : ℕ) (s : Str) (acc : ℕ)
    → d < 10
    → read_digits 10 ((48 + d) ∷ s) acc ≡ read_digits 10 s (acc * 10 + d)
unfolding read_digits
read_one d s acc h =
    let e = digit_lem d h in let small : ltb d 10 ≡ true = ground arith in rw e (rw small refl)

-- The digits are read to the number, and then what is behind them.
read_digits-print :
    (f n : ℕ) (s : Str) → n < f → read_digits 10 (print_digits f n s) 0 ≡ read_digits 10 s n
unfolding print_digits
read_digits-print zero n s h = absurd (omega arith)
read_digits-print (suc f) n s h = elim (Bool-cases (n / 10 == 0)) [
  | inl e ↦
      let small : n < 10 = ground arith in
      let same : 0 * 10 + n % 10 ≡ n = omega arith in
      rw e (read_one (n % 10) s 0 (omega arith) ∙ ap (λ k. read_digits 10 s k) same)
  | inr e ↦
      let back : n / 10 * 10 + n % 10 ≡ n = omega arith in
      let some_more : n / 10 ≢ 0 = ground arith in
      rw e (
        read_digits-print f (n / 10) ((48 + n % 10) ∷ s) (omega arith)
        ∙ read_one (n % 10) s (n / 10) (omega arith)
        ∙ ap (λ k. read_digits 10 s k) back)
]

print_digits-nonempty : (f n : ℕ) (acc : Str) → print_digits (suc f) n acc ≢ []
unfolding print_digits
print_digits-nonempty zero n acc = elim (Bool-cases (n / 10 == 0)) [
  | inl e ↦ rw e λ h. cc
  | inr e ↦ rw e λ h. cc
]
print_digits-nonempty (suc f) n acc = elim (Bool-cases (n / 10 == 0)) [
  | inl e ↦ rw e λ h. cc
  | inr e ↦ rw e (print_digits-nonempty f (n / 10) ((48 + n % 10) ∷ acc))
]

-- A text that starts with a digit has no blanks and no sign to skip.
read_unsigned :
    (f : Str → ℕ) (s : Str)
    → All Digit s
    → s ≢ []
    → signed_read f (skip_space s) ≡ clamp64 false (f s)
unfolding signed_read skip_space
read_unsigned f [] h ne = absurd (ne refl)
read_unsigned f (c ∷ s) ((low, high), hs) ne =
    let no_space : is_space c ≡ false = ground arith in
    let no_minus : (c == 45) ≡ false = ground arith in
    let no_plus : (c == 43) ≡ false = ground arith in rw no_space (rw no_minus (rw no_plus refl))

read_ℕ-print : (n : ℕ) → read_digits 10 (print_ℕ n) 0 ≡ n
unfolding print_ℕ read_digits
read_ℕ-print n = read_digits-print (suc n) n [] (omega arith)

-- strtoll gives back a number of 64 bits that was printed.
pub strtoll10-print_ℤ : (i : ℤ) → IsI64 i → strtoll10 (print_ℤ i) ≡ i
unfolding strtoll10 print_ℤ print_ℕ signed_read skip_space
strtoll10-print_ℤ (pos n) h =
    let fits : ltb n (2 ^ 63) ≡ true = ground arith in
    read_unsigned (λ t. read_digits 10 t 0) (print_ℕ n) (print_digits-Digit (suc n) n [] tt)
      (print_digits-nonempty n n [])
    ∙ ap (clamp64 false) (read_ℕ-print n)
    ∙ rw fits refl
strtoll10-print_ℤ (negsuc n) h =
    let fits : ltb (2 ^ 63) (suc n) ≡ false = ground arith in
    let some : leb (suc n) 0 ≡ false = ground arith in
    let same : suc n - 0 - 1 ≡ n = omega arith in
    ap (clamp64 true) (read_ℕ-print (suc n)) ∙ rw fits (rw some (ap negsuc same))

-- A printed number has signs and digits only.
abbrev pub Printed : ℕ → Type 0
Printed c = (44 < c) × (c ≤ 57)

digits-Printed : (s : Str) → All Digit s → All Printed s
digits-Printed [] h = tt
digits-Printed (c ∷ s) (d, h) = ((omega arith, omega arith), digits-Printed s h)

pub print_ℤ-Printed : (i : ℤ) → All Printed (print_ℤ i)
unfolding print_ℤ print_ℕ
print_ℤ-Printed (pos n) = digits-Printed _ (print_digits-Digit (suc n) n [] tt)
print_ℤ-Printed (negsuc n) =
    ((omega arith, omega arith), digits-Printed _ (print_digits-Digit (suc (suc n)) (suc n) [] tt))

pub print_ℤ-nonempty : (i : ℤ) → print_ℤ i ≢ []
unfolding print_ℤ print_ℕ
print_ℤ-nonempty (pos n) = print_digits-nonempty n n []
print_ℤ-nonempty (negsuc n) = λ h. cc
