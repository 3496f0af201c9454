-- ===== src/Builtins/Encoding/Url.antt =====
-- src/builtins.c: llEscapeURL and llUnescapeURL, and the other way round.
use sakura_slemu.Base.{
  ℕ, ◌+◌, ◌-◌, ◌*◌, ◌/◌, ◌%◌, ◌<◌, ◌≡◌, refl, ap, ◌∙◌, Bool, true, false, ◌&&◌, ◌||◌, Option, none,
  some, List, [], ◌∷◌, Str, codes, leb, ◌==◌, if◌then◌else◌, get_or, All, passes_to, passes_to_at,
  arith, Bool-cases, inl, inr,
}
use sakura_slemu.Value.{SValue, string}
use sakura_slemu.Loader.Load.{c_str}
use sakura_slemu.Loader.RoundTripProgram.{c_str_lem}
use sakura_slemu.Builtins.Encoding.Bytes.{IsByte, bytes_below, bytes_above}
use sakura_slemu.Builtins.Args.{as_text}

-- isalnum, in the C locale.
abbrev pub is_alnum : ℕ → Bool
is_alnum c = (leb b'0' c && leb c b'9') || (leb b'A' c && leb c b'Z') || (leb b'a' c && leb c b'z')

unfoldable pub is_safe : ℕ → Bool
is_safe c = is_alnum c || c == b'-' || c == b'_' || c == b'.' || c == b'~'

-- H
unfoldable pub hex_upper : ℕ → ℕ
hex_upper n = get_or (codes "0123456789ABCDEF") n 0

-- The value of a hexadecimal digit; `none` is -1.
unfoldable pub hexd : ℕ → Option ℕ
hexd c =
    if leb b'0' c && leb c b'9'
    then some (c - b'0')
    else if leb b'a' c && leb c b'f'
    then some (c - b'a' + 10)
    else if leb b'A' c && leb c b'F'
    then some (c - b'A' + 10)
    else none

unfoldable pub escape_url : Str → Str
unfolding is_safe hex_upper
escape_url [] = []
escape_url (c ∷ s) =
    let rest = escape_url s in
    if is_safe c then c ∷ rest else b'%' ∷ hex_upper (c / 16) ∷ hex_upper (c % 16) ∷ rest

-- A byte from two hexadecimal digits, if both are.
abbrev pub hex_pair : Option ℕ → Option ℕ → Option ℕ
hex_pair (some hi) (some lo) = some (hi * 16 + lo)
hex_pair _ _ = none

unfoldable pub unescape_url : Str → Str
unfolding hexd
unescape_url [] = []
unescape_url (a ∷ []) = a ∷ []
unescape_url (a ∷ b ∷ []) = a ∷ b ∷ []
unescape_url (a ∷ b ∷ c ∷ s) =
    let taken = unescape_url s in
    let copied = unescape_url (b ∷ c ∷ s) in
    if a == b'%'
    then elim (hex_pair (hexd b) (hexd c)) [ none ↦ a ∷ copied | some v ↦ v ∷ taken ]
    else a ∷ copied

module _ {F : Type 0} where
  unfoldable pub bi_ll_escape_url : List (SValue F) → SValue F
  unfolding as_text escape_url
  bi_ll_escape_url a = string (escape_url (as_text a 0))

  unfoldable pub bi_ll_unescape_url : List (SValue F) → SValue F
  unfolding as_text unescape_url
  bi_ll_unescape_url a = string (c_str (unescape_url (as_text a 0)))

is_hex : Option ℕ → ℕ → Bool
is_hex none n = false
is_hex (some k) n = k == n

hexd_table : passes_to (λ n. is_hex (hexd (hex_upper n)) n) 16 ≡ true
unfolding passes_to is_hex hexd hex_upper
hexd_table = refl

is_hex→eq : (o : Option ℕ) (n : ℕ) → is_hex o n ≡ true → o ≡ some n
unfolding is_hex
is_hex→eq o n h = ground arith

hexd-hex_upper : (n : ℕ) → n < 16 → hexd (hex_upper n) ≡ some n
hexd-hex_upper n h =
    is_hex→eq _ n (passes_to_at (λ k. is_hex (hexd (hex_upper k)) k) 16 n h hexd_table)

safe_percent : (c : ℕ) → is_safe c ≡ true → (c == b'%') ≡ false
unfolding is_safe
safe_percent c h = ground arith

unescape_plain : (c : ℕ) (s : Str) → (c == b'%') ≡ false → unescape_url (c ∷ s) ≡ c ∷ unescape_url s
unfolding unescape_url
unescape_plain c [] h = refl
unescape_plain c (b ∷ []) h = refl
unescape_plain c (b ∷ d ∷ s) h = rw h refl

unescape_escaped :
    (c : ℕ) (s : Str)
    → c < 256
    → unescape_url (b'%' ∷ hex_upper (c / 16) ∷ hex_upper (c % 16) ∷ s) ≡ c ∷ unescape_url s
unfolding unescape_url
unescape_escaped c s h =
    let whole : c / 16 * 16 + c % 16 ≡ c = omega arith in
    rw (hexd-hex_upper (c / 16) (omega arith), hexd-hex_upper (c % 16) (omega arith), whole) refl

nothing : unescape_url [] ≡ []
unfolding unescape_url
nothing = refl

unescape_url-escape_url : (s : Str) → All (λ c. c < 256) s → unescape_url (escape_url s) ≡ s
unfolding escape_url
unescape_url-escape_url [] h = nothing
unescape_url-escape_url (c ∷ s) (small, h) = elim (Bool-cases (is_safe c)) [
  | inl e ↦ rw e (
      unescape_plain c (escape_url s) (safe_percent c e)
      ∙ ap (λ t. c ∷ t) (unescape_url-escape_url s h))
  | inr e ↦
      rw e (unescape_escaped c (escape_url s) small ∙ ap (λ t. c ∷ t) (unescape_url-escape_url s h))
]

module _ {F : Type 0} where
  -- llUnescapeURL gives back the text that llEscapeURL escaped, for every C string.
  pub bi_ll_unescape_url-escape_url :
      (s : Str)
      → All IsByte s
      → bi_ll_unescape_url {F = F} (bi_ll_escape_url (string s ∷ []) ∷ []) ≡ string s
  unfolding bi_ll_unescape_url bi_ll_escape_url
  bi_ll_unescape_url-escape_url s h =
      ap (λ t. string (c_str t)) (unescape_url-escape_url s (bytes_below s h))
      ∙ ap string (c_str_lem s (bytes_above s h))
