-- ===== src/Volume/Persistence.antt =====
-- src/volume.c: the balances that are saved are the ones that are loaded.
use sakura_slemu.Base.{
  ℕ, zero, suc, ◌+◌, ◌≡◌, ◌≢◌, ◌<◌, ◌≤◌, refl, sym, ap, ap₂, ◌∙◌, true, false, none, some, List, [],
  ◌∷◌, ◌++◌, map, Str, str_eq, str_eq→eq, IsI64, print_ℤ, Printed, print_ℤ-Printed,
  strtoll10-print_ℤ, All, All-append, ◌==◌, Bool-cases, inl, inr, arith,
}
use mathlib.Core.List.{append_assoc, append-nil}
use sakura_slemu.Region.State.{Avatar, Region, Volume}
use sakura_slemu.Region.Avatars.{avatar_index, region_add_avatar, add_or_update, or_name}
use sakura_slemu.Volume.Economy.{
  economy_line, economy_text, fgets, split_at, before, name_or_null, set_balance, load_split,
  load_fields, load_line, load_lines, load_text, text_size, volume_load_economy,
  volume_save_economy, save_to,
}

abbrev pub Without : ℕ → Str → Type 0
Without c s = All (λ x. x ≢ c) s

not_same : (x c : ℕ) → x ≢ c → (x == c) ≡ false
not_same x c h = ground arith

split_at-append : (c : ℕ) (s t : Str) → Without c s → split_at c (s ++ (c ∷ t)) ≡ some (s, t)
unfolding split_at
split_at-append c [] t h = let same : (c == c) ≡ true = ground arith in rw same refl
split_at-append c (x ∷ s) t (h, hs) = rw (not_same x c h) (rw (split_at-append c s t hs) refl)

before-append : (c : ℕ) (s t : Str) → Without c s → before c (s ++ (c ∷ t)) ≡ s
unfolding before
before-append c [] t h = let same : (c == c) ≡ true = ground arith in rw same refl
before-append c (x ∷ s) t (h, hs) = rw (not_same x c h) (rw (before-append c s t hs) refl)

fgets-append :
    (n : ℕ) (s t : Str)
    → Without 10 s
    → text_size s < n
    → fgets n (s ++ (10 ∷ t)) ≡ (s ++ (10 ∷ []), t)
unfolding fgets
fgets-append zero s t h l = absurd (omega arith)
fgets-append (suc n) [] t h l = refl
fgets-append (suc n) (x ∷ s) t (h, hs) l =
    rw (not_same x 10 h) (rw (fgets-append n s t hs (omega arith)) refl)

-- One line is read in one round.
load_lines-line :
    (fuel : ℕ) (s t : Str) (avs : List Avatar)
    → Without 10 s
    → text_size s < 511
    → load_lines (suc fuel) (s ++ (10 ∷ t)) avs ≡ load_lines fuel t (load_line (s ++ (10 ∷ [])) avs)
unfolding load_lines
load_lines-line fuel [] t avs h l =
    ap (λ p. load_lines fuel p.1 (load_line p.0 avs)) (fgets-append 511 [] t h l)
load_lines-line fuel (x ∷ s) t avs h l =
    ap (λ p. load_lines fuel p.1 (load_line p.0 avs)) (fgets-append 511 (x ∷ s) t h l)

-- A line, without the newline at its end.
abbrev written : Avatar → Str
written a = a.uuid ++ (9 ∷ print_ℤ a.balance ++ (9 ∷ a.name))

line-append :
    (u b n t : Str)
    → (u ++ (9 ∷ b ++ (9 ∷ n ++ (10 ∷ [])))) ++ t ≡ (u ++ (9 ∷ b ++ (9 ∷ n))) ++ (10 ∷ t)
line-append u b n t =
    append_assoc u _ t
    ∙ ap (λ x. u ++ (9 ∷ x)) (append_assoc b _ t)
    ∙ ap (λ x. u ++ (9 ∷ b ++ (9 ∷ x))) (append_assoc n (10 ∷ []) t)
    ∙ sym (append_assoc u _ (10 ∷ t) ∙ ap (λ x. u ++ (9 ∷ x)) (append_assoc b _ (10 ∷ t)))

-- A key without tabs and newlines, a name without newlines, a balance of 64 bits, and a line that fits
-- the buffer.
pub record Storable (a : Avatar) : Type 0 where
  pub key_tabs : Without 9 a.uuid
  pub key_lines : Without 10 a.uuid
  pub name_lines : Without 10 a.name
  pub in_range : IsI64 a.balance
  pub fits : text_size (written a) < 511

Printed-Without : (c : ℕ) (s : Str) → c ≤ 44 → All Printed s → Without c s
Printed-Without c [] l h = tt
Printed-Without c (x ∷ s) l ((low, high), h) = ((λ e. omega arith), Printed-Without c s l h)

abbrev put : Avatar → List Avatar → List Avatar
put a bvs = set_balance (avatar_index bvs a.uuid) a.uuid a.balance a.name bvs

-- What the line of an avatar does when it is read.
load_line-written :
    (a : Avatar) (bvs : List Avatar)
    → Storable a
    → load_line (written a ++ (10 ∷ [])) bvs ≡ put a bvs
unfolding load_line
load_line-written a bvs s =
    let b = print_ℤ a.balance in
    let line : written a ++ (10 ∷ []) ≡ a.uuid ++ (9 ∷ (b ++ (9 ∷ (a.name ++ (10 ∷ []))))) =
      append_assoc a.uuid _ (10 ∷ []) ∙ ap (λ x. a.uuid ++ (9 ∷ x)) (append_assoc b _ (10 ∷ [])) in
    ap (λ x. load_split (split_at 9 x) bvs) line
    ∙ ap (λ x. load_split x bvs) (split_at-append 9 a.uuid _ s.key_tabs)
    ∙ ap (λ x. load_fields a.uuid x (b ++ (9 ∷ (a.name ++ (10 ∷ [])))) bvs)
        (split_at-append 9 b _ (Printed-Without 9 b (omega arith) (print_ℤ-Printed a.balance)))
    ∙ ap₂ (λ x n. set_balance (avatar_index bvs a.uuid) a.uuid x n bvs)
        (strtoll10-print_ℤ a.balance s.in_range) (before-append 10 a.name [] s.name_lines)

written-Without : (a : Avatar) → Storable a → Without 10 (written a)
written-Without a s = All-append _ a.uuid _ s.key_lines (
  (λ e. omega arith),
  All-append _ (print_ℤ a.balance) _
      (Printed-Without 10 _ (omega arith) (print_ℤ-Printed a.balance))
      ((λ e. omega arith), s.name_lines),
)

put_all : List Avatar → List Avatar → List Avatar
put_all [] bvs = bvs
put_all (a ∷ avs) bvs = put_all avs (put a bvs)

text_size-append : (s t : Str) → text_size (s ++ t) ≡ text_size s + text_size t
text_size-append [] t = omega arith
text_size-append (x ∷ s) t = omega (arith, text_size-append s t)

line_of : (a : Avatar) (t : Str) → economy_line a ++ t ≡ written a ++ (10 ∷ t)
line_of a t = line-append a.uuid (print_ℤ a.balance) a.name t

longer : (a : Avatar) (t : Str) → text_size t < text_size (economy_line a ++ t)
longer a t =
    let size : text_size (economy_line a ++ t) ≡ text_size (written a) + text_size (10 ∷ t) =
      ap text_size (line_of a t) ∙ text_size-append (written a) (10 ∷ t) in
    omega (arith, size)

-- Reading the text takes the saved avatars one by one.
load_lines-economy_text :
    (fuel : ℕ) (avs bvs : List Avatar)
    → All Storable avs
    → text_size (economy_text avs) ≤ fuel
    → load_lines fuel (economy_text avs) bvs ≡ put_all avs bvs
unfolding economy_text load_lines put_all
load_lines-economy_text zero [] bvs h l = refl
load_lines-economy_text (suc fuel) [] bvs h l = refl
load_lines-economy_text zero (a ∷ avs) bvs h l =
    absurd (omega (arith, longer a (economy_text avs), l))
load_lines-economy_text (suc fuel) (a ∷ avs) bvs (s, h) l =
    ap (λ x. load_lines (suc fuel) x bvs) (line_of a (economy_text avs))
    ∙ load_lines-line fuel (written a) (economy_text avs) bvs (written-Without a s) s.fits
    ∙ ap (load_lines fuel (economy_text avs)) (load_line-written a bvs s)
    ∙ load_lines-economy_text fuel avs (put a bvs) h (omega (arith, longer a (economy_text avs), l))

-- Each key stands once.
abbrev pub DistinctKeys : List Avatar → Type 0
DistinctKeys [] = Unit
DistinctKeys (a ∷ avs) = All (λ b. b.uuid ≢ a.uuid) avs × DistinctKeys avs

-- The object that an avatar has attached is not saved.
abbrev pub detached : Avatar → Avatar
detached a = record a { attached_object = none }

unknown :
    (uuid : Str) (bvs : List Avatar) → All (λ b. b.uuid ≢ uuid) bvs → avatar_index bvs uuid ≡ none
unfolding avatar_index
unknown uuid [] h = refl
unknown uuid (b ∷ bvs) (ne, h) = elim (Bool-cases (str_eq b.uuid uuid)) [
  | inl e ↦ absurd (ne (str_eq→eq b.uuid uuid e))
  | inr e ↦ rw e (rw (unknown uuid bvs h) refl)
]

name_back : (n : Str) → or_name (name_or_null n) [] ≡ n
name_back [] = refl
name_back (c ∷ s) = refl

put_new :
    (a : Avatar) (bvs : List Avatar)
    → All (λ b. b.uuid ≢ a.uuid) bvs
    → put a bvs ≡ bvs ++ (detached a ∷ [])
unfolding region_add_avatar
put_new a bvs h =
    let e = unknown a.uuid bvs h in
    ap (λ i. set_balance i a.uuid a.balance a.name bvs) e
    ∙ ap (λ i. (add_or_update i bvs a.uuid a.balance (name_or_null a.name)).1) e
    ∙ ap
        (λ n.
          bvs
          ++ (record { uuid = a.uuid; name = n; balance = a.balance; attached_object = none } ∷ []))
        (name_back a.name)

abbrev Apart : List Avatar → List Avatar → Type 0
Apart avs bvs = All (λ a. All (λ b. b.uuid ≢ a.uuid) bvs) avs

Apart-more :
    (a : Avatar) (avs bvs : List Avatar)
    → Apart avs bvs
    → All (λ b. b.uuid ≢ a.uuid) avs
    → Apart avs (bvs ++ (detached a ∷ []))
Apart-more a [] bvs h k = tt
Apart-more a (c ∷ avs) bvs (h, hs) (k, ks) =
    (All-append _ bvs _ h ((λ e. k (sym e)), tt), Apart-more a avs bvs hs ks)

put_all-Apart :
    (avs bvs : List Avatar)
    → DistinctKeys avs
    → Apart avs bvs
    → put_all avs bvs ≡ bvs ++ map detached avs
unfolding put_all
put_all-Apart [] bvs d h = sym (append-nil bvs)
put_all-Apart (a ∷ avs) bvs (d, ds) (h, hs) =
    ap (put_all avs) (put_new a bvs h)
    ∙ put_all-Apart avs (bvs ++ (detached a ∷ [])) ds (Apart-more a avs bvs hs d)
    ∙ append_assoc bvs (detached a ∷ []) (map detached avs)

nothing-Apart : (avs : List Avatar) → Apart avs []
nothing-Apart [] = tt
nothing-Apart (a ∷ avs) = (tt, nothing-Apart avs)

module _ {F : Type 0} where
  -- volume_load_economy, in a region with the same volume and no avatars, gives back the avatars that
  -- volume_save_economy has written, but for the objects that are attached: if their keys are distinct
  -- and have no tabs and newlines, their names no newlines, their balances 64 bits, and the lines fit
  -- the buffer.
  pub volume_load_economy-save_economy :
      (r : Region F) (v : Volume)
      → r.volume ≡ some v
      → All Storable r.avatars
      → DistinctKeys r.avatars
      → (volume_load_economy (record (volume_save_economy r) { avatars = [] })).avatars
        ≡ map detached r.avatars
  unfolding volume_load_economy volume_save_economy load_text
  volume_load_economy-save_economy r v e h d =
      ap (λ w. (volume_load_economy (record (save_to w r) { avatars = [] })).avatars) e
      ∙ load_lines-economy_text (text_size (economy_text r.avatars)) r.avatars [] h (omega arith)
      ∙ put_all-Apart r.avatars [] d (nothing-Apart r.avatars)
