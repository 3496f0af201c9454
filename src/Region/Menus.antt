-- ===== src/Region/Menus.antt =====
-- src/dialog.c: a dialog is found from when it is opened until it is closed.
use sakura_slemu.Base.{
  ◌≡◌, ◌≢◌, refl, sym, ◌∙◌, true, false, none, List, [], ◌∷◌, Str, str_eq, if◌then◌else◌,
  Bool-cases, inl, inr, str_eq_refl, str_eq→eq, subst,
}
use sakura_slemu.Region.State.{OpenDialog}
use sakura_slemu.Region.Dialogs.{dialog_find, dialog_close}

find-kept :
    (d : OpenDialog) (ds : List OpenDialog) (avatar v : Str)
    → avatar ≢ v
    → dialog_find (dialog_close ds avatar) v ≡ dialog_find ds v
    → dialog_find (dialog_close (d ∷ ds) avatar) v ≡ dialog_find (d ∷ ds) v
unfolding dialog_find dialog_close
find-kept d ds avatar v ne h = elim (Bool-cases (str_eq d.to_avatar avatar)) [
  | inl e ↦ elim (Bool-cases (str_eq d.to_avatar v)) [
    | inl q ↦ absurd (ne (sym (str_eq→eq d.to_avatar avatar e) ∙ str_eq→eq d.to_avatar v q))
    | inr q ↦ rw (e, q) h
  ]
  | inr e ↦ elim (Bool-cases (str_eq d.to_avatar v)) [
    | inl q ↦ rw (e, q) refl
    | inr q ↦ rw (e, q) h
  ]
]

none-left :
    (ds : List OpenDialog) (avatar : Str) → dialog_find (dialog_close ds avatar) avatar ≡ none
unfolding dialog_find dialog_close
none-left [] avatar = refl
none-left (d ∷ ds) avatar = elim (Bool-cases (str_eq d.to_avatar avatar)) [
  | inl e ↦ rw e (none-left ds avatar)
  | inr e ↦ rw (e, e) (none-left ds avatar)
]

others-left :
    (ds : List OpenDialog) (avatar v : Str)
    → avatar ≢ v
    → dialog_find (dialog_close ds avatar) v ≡ dialog_find ds v
unfolding dialog_find dialog_close
others-left [] avatar v ne = refl
others-left (d ∷ ds) avatar v ne = find-kept d ds avatar v ne (others-left ds avatar v ne)

str_eq-false-ne : (a b : Str) → str_eq a b ≡ false → a ≢ b
str_eq-false-ne a b e q =
    let h : str_eq a b ≡ true = subst (λ w. str_eq a w ≡ true) q (str_eq_refl a) in cc

-- dialog_close leaves no dialog of the avatar, and for every other one finds the dialog that was found
-- before.
pub dialog_find-close :
    (ds : List OpenDialog) (avatar v : Str)
    → dialog_find (dialog_close ds avatar) v ≡ (if str_eq avatar v then none else dialog_find ds v)
dialog_find-close ds avatar v = elim (Bool-cases (str_eq avatar v)) [
  | inl e ↦ rw e (
      subst (λ w. dialog_find (dialog_close ds avatar) w ≡ none) (str_eq→eq avatar v e)
        (none-left ds avatar))
  | inr e ↦ rw e (others-left ds avatar v (str_eq-false-ne avatar v e))
]
