-- ===== src/Builtins/Encoding/Bytes.antt =====
-- The bytes of C strings.
use sakura_slemu.Base.{ℕ, ◌<◌, [], ◌∷◌, Str, All}

-- A byte of a C string.
abbrev pub IsByte : ℕ → Type 0
IsByte c = (0 < c) × (c < 256)

pub bytes_below : (s : Str) → All IsByte s → All (λ c. c < 256) s
bytes_below [] h = tt
bytes_below (c ∷ s) (p, h) = (p.1, bytes_below s h)

pub bytes_above : (s : Str) → All IsByte s → All (λ c. 0 < c) s
bytes_above [] h = tt
bytes_above (c ∷ s) (p, h) = (p.0, bytes_above s h)
