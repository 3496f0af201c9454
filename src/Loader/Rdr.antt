-- ===== src/Loader/Rdr.antt =====
-- The byte reader of src/loader.c (Rdr, r_u8, r_u32, r_i64, r_bytes). The reader's state is the
-- list of the bytes that are left. The source goes on after a failed read with `err` set, and
-- discards the program at the end; here a failed read ends the load at once, with the same result.
use sakura_slemu.Base.{ℕ, zero, suc, ◌+◌, ◌*◌, ◌^◌, List, [], ◌∷◌, ℤ, signed, two64}

pub data Read (A : Type 0) : Type 0 where
  got : A → List ℕ → Read A
  fail : Read A
  -- undefined behaviour in the source
  fault : Read A
  no_fuel : Read A

abbrev pub Rd : Type 0 → Type 0
Rd A = List ℕ → Read A

module _ {A : Type 0} where
  abbrev pub pure : A → Rd A
  pure a bs = got a bs

  abbrev pub failed : Rd A
  failed bs = fail

module _ {A B : Type 0} where
  infixl 5 ◌>>=◌ ◌>>◌
  abbrev pub after : Read A → (A → Rd B) → Read B
  after (got a bs) f = f a bs
  after fail f = fail
  after fault f = fault
  after no_fuel f = no_fuel

  abbrev pub ◌>>=◌ : Rd A → (A → Rd B) → Rd B
  ◌>>=◌ m f bs = after (m bs) f

  abbrev pub ◌>>◌ : Rd A → Rd B → Rd B
  m >> k = m >>= λ _. k

unfoldable pub r_u8 : Rd ℕ
r_u8 [] = fail
r_u8 (b ∷ bs) = got b bs

-- The bytes of a word do not overlap, so `|` of the shifted bytes is their sum.
unfoldable pub r_u32 : Rd ℕ
r_u32 (a ∷ b ∷ c ∷ d ∷ bs) = got (a + b * 2 ^ 8 + c * 2 ^ 16 + d * 2 ^ 24) bs
r_u32 _ = fail

unfoldable pub r_u64 : Rd ℕ
unfolding r_u32
r_u64 = do lo ← r_u32; hi ← r_u32; pure (lo + hi * 2 ^ 32)

unfoldable pub r_i64 : Rd ℤ
r_i64 = do v ← r_u64; pure (signed two64 v)

unfoldable pub r_bytes : ℕ → Rd (List ℕ)
r_bytes zero bs = got [] bs
r_bytes (suc n) [] = fail
r_bytes (suc n) (b ∷ bs) = after (r_bytes n bs) (λ l rest. got (b ∷ l) rest)

-- for (i = 0; i < n; i++) items[i] = read(r);
unfoldable pub read_n : {A : Type 0} → Rd A → ℕ → Rd (List A)
read_n m zero = pure []
read_n m (suc n) = do x ← m; xs ← read_n m n; pure (x ∷ xs)
