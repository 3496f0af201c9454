-- ===== src/Volume/Files.antt =====
-- src/volume.c: what is read from the linkset data after a write or a removal.
use sakura_slemu.Base.{
  ℕ, ◌≤◌, ◌≡◌, ◌⊎◌, refl, true, false, ◌&&◌, arith, some, List, [], ◌∷◌, Str, str_eq, if◌then◌else◌,
  Bool-cases, inl, inr, str_eq_refl, str_eq→eq, subst,
}
use sakura_slemu.Region.State.{Volume}
use sakura_slemu.Volume.LinksetData.{
  is_safe, sanitise_key, write_file, read_named, volume_lsd_write, volume_lsd_read,
}

abbrev Files : Type 0
Files = List (Str × Str)

read-write_same : (fn val : Str) (fs : Files) → read_named fn (write_file fn val fs) ≡ some val
unfolding read_named write_file
read-write_same fn val [] = rw (str_eq_refl fn) refl
read-write_same fn val ((k, w) ∷ fs) = elim (Bool-cases (str_eq k fn)) [
  | inl e ↦ rw (e, e) refl
  | inr e ↦ rw (e, e) (read-write_same fn val fs)
]

read-write_other :
    (fn fn' val : Str) (fs : Files)
    → str_eq fn fn' ≡ false
    → read_named fn' (write_file fn val fs) ≡ read_named fn' fs
unfolding read_named write_file
read-write_other fn fn' val [] ne = rw ne refl
read-write_other fn fn' val ((k, w) ∷ fs) ne = elim (Bool-cases (str_eq k fn)) [
  | inl e ↦ let q : str_eq k fn' ≡ false = rw (str_eq→eq k fn e) ne in rw (e, q) refl
  | inr e ↦ elim (Bool-cases (str_eq k fn')) [
    | inl q ↦ rw (e, q) refl
    | inr q ↦ rw (e, q) (read-write_other fn fn' val fs ne)
  ]
]

-- The bytes that a file name keeps: letters, digits, and `_`, `-` and `.`.
abbrev pub Safe : ℕ → Type 0
Safe c =
    ((48 ≤ c) × (c ≤ 57))
    ⊎ ((65 ≤ c) × (c ≤ 90))
    ⊎ ((97 ≤ c) × (c ≤ 122))
    ⊎ (c ≡ 95)
    ⊎ (c ≡ 45)
    ⊎ (c ≡ 46)

-- The key and the name of its file, byte by byte: every byte that is not safe becomes `_`.
pub data FileNameOf : Str → Str → Type 0 where
  ended : FileNameOf [] []
  kept : (c : ℕ) (k fn : Str) → Safe c → FileNameOf k fn → FileNameOf (c ∷ k) (c ∷ fn)
  replaced : (c : ℕ) (k fn : Str) → ¬ Safe c → FileNameOf k fn → FileNameOf (c ∷ k) (95 ∷ fn)

byte_of_test : (c : ℕ) → is_safe c ≡ true → Safe c
byte_of_test c h = ground arith

byte_stays : (c : ℕ) → Safe c → is_safe c ≡ true
byte_stays c h = ground arith

sanitise_key-FileNameOf : (k : Str) → FileNameOf k (sanitise_key k)
unfolding sanitise_key
sanitise_key-FileNameOf [] = ended
sanitise_key-FileNameOf (c ∷ k) = elim (Bool-cases (is_safe c)) [
  | inl e ↦ rw e (kept c k _ (byte_of_test c e) (sanitise_key-FileNameOf k))
  | inr e ↦ rw e (replaced c k _ (λ h. let yes = byte_stays c h in cc) (sanitise_key-FileNameOf k))
]

written :
    (fn fn' val : Str) (fs : Files)
    → read_named fn' (write_file fn val fs)
      ≡ (if str_eq fn fn' then some val else read_named fn' fs)
written fn fn' val fs = elim (Bool-cases (str_eq fn fn')) [
  | inl e ↦ rw e (
      subst (λ f. read_named f (write_file fn val fs) ≡ some val) (str_eq→eq fn fn' e)
        (read-write_same fn val fs))
  | inr e ↦ rw e (read-write_other fn fn' val fs e)
]

-- A write of a key succeeds just where the file system opens the key's file for writing. After it, a
-- key that has the same file name reads the new value, every other key reads what it read before, and
-- after a failed write every key does. A key's file name is the key with every byte that is not a
-- letter, a digit, `_`, `-` or `.` replaced by `_`.
pub volume_lsd_read-write :
    (k val k' : Str) (v : Volume)
    → (fn : Str) × (fn' : Str) × FileNameOf k fn
      × FileNameOf k' fn'
      × ((volume_lsd_write k val v).0 ≡ v.writes fn)
      × (volume_lsd_read k' (volume_lsd_write k val v).1
          ≡ (if v.writes fn && str_eq fn fn' then some val else volume_lsd_read k' v))
unfolding volume_lsd_read volume_lsd_write
volume_lsd_read-write k val k' v = (
  sanitise_key k,
  sanitise_key k',
  sanitise_key-FileNameOf k,
  sanitise_key-FileNameOf k',
  elim (Bool-cases (v.writes (sanitise_key k))) [ inl e ↦ rw e refl | inr e ↦ rw e refl ],
  elim (Bool-cases (v.writes (sanitise_key k))) [
    | inl e ↦ rw e (written (sanitise_key k) (sanitise_key k') val v.lsd)
    | inr e ↦ rw e refl
  ],
)
