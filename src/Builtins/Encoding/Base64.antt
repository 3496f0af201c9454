-- ===== src/Builtins/Encoding/Base64.antt =====
-- src/builtins.c: Base64. A `|` of numbers that share no bit is written as a sum, and `int buf`
-- as its bit pattern.
use sakura_slemu.Base.{
  ℕ, ◌+◌, ◌-◌, ◌*◌, ◌/◌, ◌%◌, ◌^◌, none, some, List, [], ◌∷◌, Str, codes, ℤ, pos, negsuc, leb, ◌==◌,
  if◌then◌else◌, two32, word, get_or, find_index,
}
use sakura_slemu.Double.{Double}
use sakura_slemu.Value.{SValue, integer, string}
use sakura_slemu.Loader.Load.{c_str}
use sakura_slemu.Builtins.Args.{ai, as_text}

-- B64
abbrev pub alphabet : Str
alphabet = codes "ABCDEFGHIJKLMNOPQRSTUVWXYZabcdefghijklmnopqrstuvwxyz0123456789+/"

unfoldable pub b64_char : ℕ → ℕ
b64_char i = get_or alphabet i 0

-- The value of a character, -1 for `=` and -2 for any other.
unfoldable pub b64v : ℕ → ℤ
b64v c = elim (find_index (λ b. b == c) alphabet) [
  | none ↦ if c == b'=' then negsuc 0 else negsuc 1
  | some i ↦ pos i
]

abbrev pub sextet : ℕ → ℕ → ℕ
sextet v k = b64_char (v / 2 ^ k % 64)

unfoldable pub string_to_base64 : Str → Str
unfolding b64_char
string_to_base64 [] = []
string_to_base64 (a ∷ []) = let v = a * 2 ^ 16 in sextet v 18 ∷ sextet v 12 ∷ b'=' ∷ b'=' ∷ []
string_to_base64 (a ∷ b ∷ []) =
    let v = a * 2 ^ 16 + b * 2 ^ 8 in sextet v 18 ∷ sextet v 12 ∷ sextet v 6 ∷ b'=' ∷ []
string_to_base64 (a ∷ b ∷ c ∷ s) =
    let v = a * 2 ^ 16 + b * 2 ^ 8 + c in
    sextet v 18 ∷ sextet v 12 ∷ sextet v 6 ∷ sextet v 0 ∷ string_to_base64 s

-- The loop of llBase64ToString: the bits that wait in `buf`, and how many they are.
unfoldable pub decode : Str → ℕ → ℕ → Str
unfolding b64v
decode [] buf bits = []
decode (c ∷ s) buf bits = elim (b64v c) [
  | negsuc _ ↦ decode s buf bits
  | pos v ↦
      let buf' : ℕ = (buf * 64 + v) % two32 in
      let emit : Str = (buf' / 2 ^ (bits - 2) % 256) ∷ decode s buf' (bits - 2) in
      let wait : Str = decode s buf' (bits + 6) in if leb 8 (bits + 6) then emit else wait
]

-- The four bytes of a number, the highest first.
abbrev pub bytes_of : ℕ → Str
bytes_of w = (w / 2 ^ 24 % 256) ∷ (w / 2 ^ 16 % 256) ∷ (w / 2 ^ 8 % 256) ∷ (w % 256) ∷ []

-- The number of the first four bytes, 0 if there are fewer.
abbrev pub number_of : Str → ℕ
number_of (a ∷ b ∷ c ∷ d ∷ _) = a * 2 ^ 24 + b * 2 ^ 16 + c * 2 ^ 8 + d
number_of _ = 0

module _ {F : Type 0} where
  unfoldable pub bi_ll_string_to_base64 : List (SValue F) → SValue F
  unfolding as_text string_to_base64
  bi_ll_string_to_base64 a = string (string_to_base64 (as_text a 0))

  unfoldable pub bi_ll_base64_to_string : List (SValue F) → SValue F
  unfolding as_text decode c_str
  bi_ll_base64_to_string a = string (c_str (decode (as_text a 0) 0 0))

  unfoldable pub bi_ll_base64_to_integer : List (SValue F) → SValue F
  unfolding bi_ll_base64_to_string
  bi_ll_base64_to_integer a = integer (pos (number_of (c_str (decode (as_text a 0) 0 0))))

  unfoldable pub bi_ll_integer_to_base64 : Double F → List (SValue F) → SValue F
  unfolding ai bi_ll_string_to_base64 c_str
  bi_ll_integer_to_base64 D a =
      bi_ll_string_to_base64 (string (c_str (bytes_of (word two32 (ai D a 0)))) ∷ [])
