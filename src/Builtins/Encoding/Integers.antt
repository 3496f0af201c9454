-- ===== src/Builtins/Encoding/Integers.antt =====
-- src/builtins.c: numbers in Base64.
use sakura_slemu.Base.{
  ℕ, ◌/◌, ◌%◌, ◌^◌, ◌<◌, ◌≡◌, refl, ap, ◌∙◌, [], ◌∷◌, ℤ, pos, negsuc, two32, word, All, arith,
}
use sakura_slemu.Double.{Double}
use sakura_slemu.Value.{integer, string}
use sakura_slemu.Loader.Load.{c_str}
use sakura_slemu.Loader.RoundTripProgram.{c_str_lem}
use sakura_slemu.Builtins.Args.{ai, as_text}
use sakura_slemu.Builtins.Encoding.Bytes.{IsByte, bytes_below, bytes_above}
use sakura_slemu.Builtins.Encoding.Base64.{
  string_to_base64, decode, bytes_of, number_of, bi_ll_string_to_base64, bi_ll_base64_to_integer,
  bi_ll_integer_to_base64,
}
use sakura_slemu.Builtins.Encoding.Decoding.{decode-string_to_base64}

number_of-bytes_of : (w : ℕ) → w < two32 → number_of (bytes_of w) ≡ w
number_of-bytes_of w h = omega arith

word_small : (i : ℤ) → word two32 i < two32
word_small (pos n) = omega arith
word_small (negsuc n) = omega arith

module _ {F : Type 0} (D : Double F) where
  -- llBase64ToInteger gives back the low 32 bits of the number that llIntegerToBase64 encoded, if none
  -- of their four bytes is 0.
  pub bi_ll_base64_to_integer-integer_to_base64 :
      (i : ℤ)
      → All IsByte (bytes_of (word two32 i))
      → bi_ll_base64_to_integer {F = F} (bi_ll_integer_to_base64 D (integer i ∷ []) ∷ [])
        ≡ integer (pos (word two32 i))
  unfolding bi_ll_base64_to_integer bi_ll_integer_to_base64 bi_ll_string_to_base64 ai as_text
  bi_ll_base64_to_integer-integer_to_base64 i h =
      let w : ℕ = word two32 i in
      let whole : c_str (bytes_of w) ≡ bytes_of w =
        c_str_lem (bytes_of w) (bytes_above (bytes_of w) h) in
      ap (λ t. integer (pos (number_of (c_str (decode (string_to_base64 t) 0 0))))) whole
      ∙ ap (λ t. integer (pos (number_of (c_str t))))
          (decode-string_to_base64 (bytes_of w) 0 (bytes_below (bytes_of w) h))
      ∙ ap (λ t. integer (pos (number_of t))) whole
      ∙ ap (λ t. integer (pos t)) (number_of-bytes_of w (word_small i))

  -- llIntegerToBase64 gives the empty text for every number below 2 ^ 24, whose first byte is 0.
  pub bi_ll_integer_to_base64_small :
      (n : ℕ) → n < 2 ^ 24 → bi_ll_integer_to_base64 D (integer (pos n) ∷ []) ≡ string []
  unfolding bi_ll_integer_to_base64 bi_ll_string_to_base64
  bi_ll_integer_to_base64_small n h =
      let none_high : n % two32 / 2 ^ 24 % 256 ≡ 0 = omega arith in rw none_high refl
