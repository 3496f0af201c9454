-- ===== src/Builtins/Encoding/Decoding.antt =====
-- src/builtins.c: what Base64 encodes, it decodes.
use sakura_slemu.Base.{
  ℕ, ◌+◌, ◌*◌, ◌/◌, ◌%◌, ◌^◌, ◌<◌, ◌≡◌, refl, ap, ◌∙◌, true, [], ◌∷◌, Str, pos, eq_ℤ, eq_ℤ→eq,
  two32, All, passes_to, passes_to_at, arith,
}
use sakura_slemu.Value.{string}
use sakura_slemu.Loader.Load.{c_str}
use sakura_slemu.Loader.RoundTripProgram.{c_str_lem}
use sakura_slemu.Builtins.Encoding.Bytes.{IsByte, bytes_below, bytes_above}
use sakura_slemu.Builtins.Encoding.Base64.{
  b64_char, b64v, string_to_base64, decode, bi_ll_string_to_base64, bi_ll_base64_to_string,
}

alphabet_table : passes_to (λ i. eq_ℤ (b64v (b64_char i)) (pos i)) 64 ≡ true
unfolding passes_to b64v b64_char
alphabet_table = refl

b64v-b64_char : (i : ℕ) → i < 64 → b64v (b64_char i) ≡ pos i
b64v-b64_char i h =
    eq_ℤ→eq _ _ (passes_to_at (λ k. eq_ℤ (b64v (b64_char k)) (pos k)) 64 i h alphabet_table)

abbrev shift_in : ℕ → ℕ → ℕ
shift_in buf v = (buf * 64 + v) % two32

module _ (v : ℕ) (small : v < 64) (s : Str) (buf : ℕ) where
  decode_0 : decode (b64_char v ∷ s) buf 0 ≡ decode s (shift_in buf v) 6
  unfolding decode
  decode_0 = rw (b64v-b64_char v small, decode)

  decode_2 :
      decode (b64_char v ∷ s) buf 2 ≡ (shift_in buf v / 1 % 256) ∷ decode s (shift_in buf v) 0
  unfolding decode
  decode_2 = rw (b64v-b64_char v small, decode)

  decode_4 :
      decode (b64_char v ∷ s) buf 4 ≡ (shift_in buf v / 4 % 256) ∷ decode s (shift_in buf v) 2
  unfolding decode
  decode_4 = rw (b64v-b64_char v small, decode)

  decode_6 :
      decode (b64_char v ∷ s) buf 6 ≡ (shift_in buf v / 16 % 256) ∷ decode s (shift_in buf v) 4
  unfolding decode
  decode_6 = rw (b64v-b64_char v small, decode)

decode_pad : (s : Str) (buf bits : ℕ) → decode (b'=' ∷ s) buf bits ≡ decode s buf bits
unfolding decode
decode_pad s buf bits = refl

first_byte :
    (buf v w : ℕ) → v < 64 → w < 64 → shift_in (shift_in buf v) w / 16 % 256 ≡ v * 4 + w / 16
first_byte buf v w h k = omega arith

second_byte :
    (buf v w : ℕ) → v < 64 → w < 64 → shift_in (shift_in buf v) w / 4 % 256 ≡ v % 16 * 16 + w / 4
second_byte buf v w h k = omega arith

third_byte :
    (buf v w : ℕ) → v < 64 → w < 64 → shift_in (shift_in buf v) w / 1 % 256 ≡ v % 4 * 64 + w
third_byte buf v w h k = omega arith

-- The number of three bytes, and its four parts.
abbrev packed : ℕ → ℕ → ℕ → ℕ
packed a b c = a * 2 ^ 16 + b * 2 ^ 8 + c

module _ (a b c : ℕ) (ha : a < 256) (hb : b < 256) (hc : c < 256) where
  part_1 : packed a b c / 2 ^ 18 % 64 ≡ a / 4
  part_1 = omega arith

  part_2 : packed a b c / 2 ^ 12 % 64 ≡ a % 4 * 16 + b / 16
  part_2 = omega arith

  part_3 : packed a b c / 2 ^ 6 % 64 ≡ b % 16 * 4 + c / 64
  part_3 = omega arith

  part_4 : packed a b c / 2 ^ 0 % 64 ≡ c % 64
  part_4 = omega arith

-- Two, three and four characters give one, two and three bytes.
module _ (v w : ℕ) (hv : v < 64) (hw : w < 64) where
  decode_two :
      (s : Str) (buf : ℕ)
      → decode (b64_char v ∷ b64_char w ∷ s) buf 0
        ≡ (v * 4 + w / 16) ∷ decode s (shift_in (shift_in buf v) w) 4
  decode_two s buf =
      decode_0 v hv (b64_char w ∷ s) buf
      ∙ decode_6 w hw s (shift_in buf v)
      ∙ ap (λ b. b ∷ decode s (shift_in (shift_in buf v) w) 4) (first_byte buf v w hv hw)

  module _ (x : ℕ) (hx : x < 64) where
    decode_three :
        (s : Str) (buf : ℕ)
        → decode (b64_char v ∷ b64_char w ∷ b64_char x ∷ s) buf 0
          ≡ (v * 4 + w / 16)
            ∷ (w % 16 * 16 + x / 4)
            ∷ decode s (shift_in (shift_in (shift_in buf v) w) x) 2
    decode_three s buf =
        let last : ℕ = shift_in (shift_in (shift_in buf v) w) x in
        decode_two (b64_char x ∷ s) buf
        ∙ ap (λ t. (v * 4 + w / 16) ∷ t)
            (decode_4 x hx s (shift_in (shift_in buf v) w)
              ∙ ap (λ b. b ∷ decode s last 2) (second_byte (shift_in buf v) w x hw hx))

    decode_four :
        (y : ℕ)
        → y < 64
        → (s : Str) (buf : ℕ)
        → decode (b64_char v ∷ b64_char w ∷ b64_char x ∷ b64_char y ∷ s) buf 0
          ≡ (v * 4 + w / 16)
            ∷ (w % 16 * 16 + x / 4)
            ∷ (x % 4 * 64 + y)
            ∷ decode s (shift_in (shift_in (shift_in (shift_in buf v) w) x) y) 0
    decode_four y hy s buf =
        let next : ℕ = shift_in (shift_in buf v) w in
        decode_three (b64_char y ∷ s) buf
        ∙ ap (λ t. (v * 4 + w / 16) ∷ (w % 16 * 16 + x / 4) ∷ t)
            (decode_2 y hy s (shift_in next x)
              ∙ ap (λ b. b ∷ decode s (shift_in (shift_in next x) y) 0) (third_byte next x y hx hy))

same_three :
    {a b c a' b' c' : ℕ} {s t : Str}
    → a ≡ a'
    → b ≡ b'
    → c ≡ c'
    → s ≡ t
    → a ∷ b ∷ c ∷ s ≡ a' ∷ b' ∷ c' ∷ t
same_three p q r e = cc

same_two : {a b a' b' : ℕ} {s t : Str} → a ≡ a' → b ≡ b' → s ≡ t → a ∷ b ∷ s ≡ a' ∷ b' ∷ t
same_two p q e = cc

same_one : {a a' : ℕ} {s t : Str} → a ≡ a' → s ≡ t → a ∷ s ≡ a' ∷ t
same_one p e = cc

pub decode-string_to_base64 :
    (s : Str) (buf : ℕ) → All (λ c. c < 256) s → decode (string_to_base64 s) buf 0 ≡ s
unfolding string_to_base64 decode
decode-string_to_base64 [] buf h = refl
decode-string_to_base64 (a ∷ []) buf (ha, h) =
    let w : ℕ = a * 2 ^ 16 in
    decode_two (w / 2 ^ 18 % 64) (w / 2 ^ 12 % 64) (omega arith) (omega arith) (b'=' ∷ b'=' ∷ [])
      buf
    ∙ same_one (omega arith) refl
decode-string_to_base64 (a ∷ b ∷ []) buf (ha, (hb, h)) =
    let w : ℕ = a * 2 ^ 16 + b * 2 ^ 8 in
    decode_three (w / 2 ^ 18 % 64) (w / 2 ^ 12 % 64) (omega arith) (omega arith) (w / 2 ^ 6 % 64)
      (omega arith) (b'=' ∷ []) buf
    ∙ same_two (omega arith) (omega arith) refl
decode-string_to_base64 (a ∷ b ∷ c ∷ s) buf (ha, (hb, (hc, h))) =
    let w : ℕ = packed a b c in
    decode_four (w / 2 ^ 18 % 64) (w / 2 ^ 12 % 64) (omega arith) (omega arith) (w / 2 ^ 6 % 64)
      (omega arith) (w / 2 ^ 0 % 64) (omega arith) (string_to_base64 s) buf
    ∙ same_three (omega arith) (omega arith) (omega arith) (decode-string_to_base64 s _ h)

module _ {F : Type 0} where
  -- llBase64ToString gives back the text that llStringToBase64 encoded, for every C string.
  pub bi_ll_base64_to_string-string_to_base64 :
      (s : Str)
      → All IsByte s
      → bi_ll_base64_to_string {F = F} (bi_ll_string_to_base64 (string s ∷ []) ∷ []) ≡ string s
  unfolding bi_ll_base64_to_string bi_ll_string_to_base64
  bi_ll_base64_to_string-string_to_base64 s h =
      ap (λ t. string (c_str t)) (decode-string_to_base64 s 0 (bytes_below s h))
      ∙ ap string (c_str_lem s (bytes_above s h))
