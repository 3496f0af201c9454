-- ===== src/Base/Text/Search.antt =====
-- strstr finds just the texts that stand in another one.
use Prim.Native.Nat.{ℕ, suc}
use mathlib.Core.Path.{◌≡◌, refl, ap, sym, ◌∙◌}
use mathlib.Core.Logic.{◌↔◌, inl, inr}
use mathlib.Core.Bool.{Bool, true, false}
use mathlib.Core.Option.{Option, none, some}
use mathlib.Core.List.{[], ◌∷◌, ◌++◌}
use native.Mathlib.Omega.{arith}
use sakura_slemu.Base.Tests.{Bool-cases, ◌==◌, ==_iff}
use sakura_slemu.Base.Text.{Str, starts_with, strstr, contains}

abbrev pub StandsIn : Str → Str → Type 0
StandsIn p s = (before : Str) × (behind : Str) × (s ≡ before ++ (p ++ behind))

starts_with-append : (p s : Str) → starts_with (p ++ s) p ≡ true
unfolding starts_with
starts_with-append [] s = refl
starts_with-append (c ∷ p) s =
    let same : (c == c) ≡ true = ground arith in rw same (starts_with-append p s)

starts_with-rest : (s p : Str) → starts_with s p ≡ true → (behind : Str) × (s ≡ p ++ behind)
unfolding starts_with
starts_with-rest s [] h = (s, refl)
starts_with-rest [] (c ∷ p) h = absurd cc
starts_with-rest (x ∷ s) (c ∷ p) h = elim (Bool-cases (x == c)) [
  | inr e ↦ absurd (let no : false ≡ true = rw e at h in cc)
  | inl e ↦
      let (behind, q) = starts_with-rest s p (rw e at h) in
      (behind, let same : x ≡ c = (==_iff x c).0 e in rw same (ap (λ t. c ∷ t) q))
]

-- In a longer text, either its front is what is looked for, or it stands behind the first byte.
contains-front : (x : ℕ) (s p : Str) → starts_with (x ∷ s) p ≡ true → contains (x ∷ s) p ≡ true
unfolding strstr
contains-front x s p h = rw (h, contains) refl

abbrev found : Option ℕ → Bool
found none = false
found (some _) = true

moved :
    (o : Option ℕ)
    → found (elim o as (λ _. Option ℕ) [ none ↦ none | some k ↦ some (suc k) ]) ≡ found o
moved none = refl
moved (some k) = refl

contains-later :
    (x : ℕ) (s p : Str) → starts_with (x ∷ s) p ≡ false → contains (x ∷ s) p ≡ contains s p
unfolding strstr
contains-later x s p h = rw (h, contains) (moved (strstr s p))

contains-StandsIn : (s p : Str) → contains s p ≡ true → StandsIn p s
unfolding strstr
contains-StandsIn [] [] h = ([], [], refl)
contains-StandsIn [] (c ∷ p) h = absurd cc
contains-StandsIn (x ∷ s) p h = elim (Bool-cases (starts_with (x ∷ s) p)) [
  | inl e ↦ let (behind, q) = starts_with-rest (x ∷ s) p e in ([], behind, q)
  | inr e ↦
      let (before, behind, q) = contains-StandsIn s p (sym (contains-later x s p e) ∙ h) in
      (x ∷ before, behind, ap (λ t. x ∷ t) q)
]

front-contains : (s p : Str) → starts_with s p ≡ true → contains s p ≡ true
unfolding strstr starts_with
front-contains [] [] h = refl
front-contains [] (c ∷ p) h = absurd cc
front-contains (x ∷ s) p h = contains-front x s p h

append-contains : (before p behind : Str) → contains (before ++ (p ++ behind)) p ≡ true
append-contains [] p behind = front-contains (p ++ behind) p (starts_with-append p behind)
append-contains (x ∷ before) p behind =
    elim (Bool-cases (starts_with (x ∷ before ++ (p ++ behind)) p)) [
      | inl e ↦ contains-front x (before ++ (p ++ behind)) p e
      | inr e ↦ contains-later x (before ++ (p ++ behind)) p e ∙ append-contains before p behind
    ]

pub contains_iff : (s p : Str) → (contains s p ≡ true) ↔ StandsIn p s
contains_iff s p = (
  contains-StandsIn s p,
  λ (before, behind, e). ap (λ t. contains t p) e ∙ append-contains before p behind,
)
