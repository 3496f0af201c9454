-- ===== src/Base/Text.antt =====
-- C strings: the bytes before the terminating NUL. Comparison, search and the conversions of
-- numbers that the C library makes (strcmp, strstr, strtoll, "%lld").
pub mod Numerals
pub mod Search
use Prim.Native.Char.{code}
use Prim.Native.String.{String}
use sakura_slemu.Base.Tests.{ltb, leb, ◌==◌, if◌then◌else◌}
use sakura_slemu.Base.Int.{ℤ, pos, negsuc, sub_ℕ}
use Prim.Native.Nat.{ℕ, zero, suc, ◌+◌, ◌-◌, ◌*◌, ◌/◌, ◌%◌, ◌^◌}
use mathlib.Core.Path.{◌≡◌, refl}
use mathlib.Core.Logic.{◌↔◌}
use mathlib.Core.Bool.{Bool, true, false, ◌&&◌, ◌||◌}
use mathlib.Core.Option.{Option, none, some}
use mathlib.Core.List.{List, [], ◌∷◌}
use native.Mathlib.Omega.{arith}

abbrev pub Str : Type 0
Str = List ℕ

-- The bytes of an ASCII literal.
abbrev pub codes : String → Str
codes String.[] = []
codes (String.◌∷◌ c s) = code c ∷ codes s

-- strcmp(a, b) == 0
unfoldable pub str_eq : Str → Str → Bool
str_eq [] [] = true
str_eq [] (y ∷ ys) = false
str_eq (x ∷ xs) [] = false
str_eq (x ∷ xs) (y ∷ ys) = x == y && str_eq xs ys

pub str_eq→eq : (a b : Str) → str_eq a b ≡ true → a ≡ b
unfolding str_eq
str_eq→eq [] [] h = refl
str_eq→eq [] (y ∷ ys) h = ground arith
str_eq→eq (x ∷ xs) [] h = ground arith
str_eq→eq (x ∷ xs) (y ∷ ys) h = ground (arith, str_eq→eq xs ys)

pub str_eq_refl : (a : Str) → str_eq a a ≡ true
unfolding str_eq
str_eq_refl [] = refl
str_eq_refl (x ∷ xs) = ground (arith, str_eq_refl xs)

pub str_eq_iff : (a b : Str) → (str_eq a b ≡ true) ↔ (a ≡ b)
str_eq_iff a b = (str_eq→eq a b, λ e. rw e (str_eq_refl b))

-- strcmp(a, b) < 0, on unsigned bytes.
unfoldable pub str_lt : Str → Str → Bool
str_lt [] [] = false
str_lt [] (y ∷ ys) = true
str_lt (x ∷ xs) [] = false
str_lt (x ∷ xs) (y ∷ ys) = ltb x y || (x == y && str_lt xs ys)

abbrev pub is_empty : Str → Bool
is_empty [] = true
is_empty (_ ∷ _) = false

-- memcmp(s, p, strlen(p)) == 0, where s is long enough.
unfoldable pub starts_with : Str → Str → Bool
starts_with s [] = true
starts_with [] (p ∷ ps) = false
starts_with (x ∷ s) (p ∷ ps) = x == p && starts_with s ps

-- strstr(h, p): the offset of the first occurrence.
unfoldable pub strstr : Str → Str → Option ℕ
unfolding starts_with
strstr [] p = if is_empty p then some 0 else none
strstr (x ∷ h) p =
    let rest = strstr h p in
    if starts_with (x ∷ h) p then some 0 else elim rest [ none ↦ none | some k ↦ some (suc k) ]

abbrev pub contains : Str → Str → Bool
contains h p = elim (strstr h p) [ none ↦ false | some _ ↦ true ]

-- "%lld"
print_digits : ℕ → ℕ → Str → Str
print_digits zero n acc = acc
print_digits (suc f) n acc =
    let rest = print_digits f (n / 10) ((48 + n % 10) ∷ acc) in
    if n / 10 == 0 then (48 + n % 10) ∷ acc else rest

unfoldable pub print_ℕ : ℕ → Str
unfolding print_digits
print_ℕ n = print_digits (suc n) n []

unfoldable pub print_ℤ : ℤ → Str
unfolding print_ℕ
print_ℤ (pos n) = print_ℕ n
print_ℤ (negsuc n) = b'-' ∷ print_ℕ (suc n)

-- isspace, in the C locale.
abbrev pub is_space : ℕ → Bool
is_space c = c == 32 || (leb 9 c && leb c 13)

unfoldable pub skip_space : Str → Str
skip_space [] = []
skip_space (c ∷ s) = if is_space c then skip_space s else c ∷ s

-- The value of a digit in a base of at most 16, as strtoll reads it.
abbrev digit_value : ℕ → ℕ
digit_value c =
    if leb 48 c && leb c 57
    then c - 48
    else if leb 97 c && leb c 122
    then c - 87
    else if leb 65 c && leb c 90
    then c - 55
    else 99

read_digits : ℕ → Str → ℕ → ℕ
read_digits base [] acc = acc
read_digits base (c ∷ s) acc =
    let rest = read_digits base s (acc * base + digit_value c) in
    if ltb (digit_value c) base then rest else acc

-- Base 0 takes a prefix `0x` before a hexadecimal digit for 16, and `0` for 8.
read_prefixed : Str → ℕ
unfolding read_digits
read_prefixed (z ∷ x ∷ d ∷ s) =
    if z == 48 && (x == 120 || x == 88) && ltb (digit_value d) 16
    then read_digits 16 (d ∷ s) 0
    else if z == 48
    then read_digits 8 (x ∷ d ∷ s) 0
    else read_digits 10 (z ∷ x ∷ d ∷ s) 0
read_prefixed (z ∷ s) = if z == 48 then read_digits 8 s 0 else read_digits 10 (z ∷ s) 0
read_prefixed [] = 0

abbrev clamp64 : Bool → ℕ → ℤ
clamp64 true n = if ltb (2 ^ 63) n then negsuc (2 ^ 63 - 1) else sub_ℕ 0 n
clamp64 false n = if ltb n (2 ^ 63) then pos n else pos (2 ^ 63 - 1)

signed_read : (Str → ℕ) → Str → ℤ
signed_read f [] = pos 0
signed_read f (c ∷ s) =
    if c == b'-'
    then clamp64 true (f s)
    else if c == b'+'
    then clamp64 false (f s)
    else clamp64 false (f (c ∷ s))

-- strtoll(s, NULL, 0) and strtoll(s, NULL, 10): out of range values are clamped.
unfoldable pub strtoll0 : Str → ℤ
unfolding skip_space signed_read read_prefixed
strtoll0 s = signed_read read_prefixed (skip_space s)

unfoldable pub strtoll10 : Str → ℤ
unfolding skip_space signed_read read_digits
strtoll10 s = signed_read (λ t. read_digits 10 t 0) (skip_space s)

text_runs :
    (print_ℤ (negsuc 41) ≡ codes "-42")
    × (strtoll0 (codes "  0x1fz") ≡ pos 31)
    × (strtoll0 (codes "-017") ≡ negsuc 14)
    × (strtoll10 (codes "0123 ") ≡ pos 123)
    × (strstr (codes "hello") (codes "ll") ≡ some 2)
    × (strstr (codes "hello") (codes "lo!") ≡ none)
unfolding print_ℤ strtoll0 strtoll10 strstr
text_runs = (refl, refl, refl, refl, refl, refl)
