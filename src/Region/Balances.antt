-- ===== src/Region/Balances.antt =====
-- src/region.c: what adding avatars and setting the owner does to the balances.
use sakura_slemu.Base.{
  ℕ, zero, suc, ◌≡◌, ◌≢◌, refl, sym, ◌∙◌, Bool, true, false, Option, none, some, List, [], ◌∷◌,
  ◌++◌, Str, str_eq, is_empty, ℤ, pos, modify_at, if◌then◌else◌, Bool-cases, inl, inr, str_eq_refl,
  str_eq→eq, ap, subst,
}
use sakura_slemu.Region.State.{Avatar, Region}
use sakura_slemu.Region.Avatars.{
  is_avatar, avatar_index, find_avatar, region_add_avatar, add_or_update, update_avatar, new_avatar,
  own_or_add, named, region_set_owner,
}

-- The balance of the first avatar of a key; 0 for a key that has none.
abbrev pub balance_of : Option Avatar → ℤ
balance_of none = pos 0
balance_of (some a) = a.balance

pick-balance :
    (b b' : Bool) (x y : Avatar) (o o' : Option Avatar)
    → b ≡ b'
    → x.balance ≡ y.balance
    → balance_of o ≡ balance_of o'
    → balance_of (if b then some x else o) ≡ balance_of (if b' then some y else o')
pick-balance true true x y o o' e h k = h
pick-balance true false x y o o' e h k = absurd cc
pick-balance false true x y o o' e h k = absurd cc
pick-balance false false x y o o' e h k = k

-- A change that keeps keys and balances, anywhere, keeps all balances.
find_avatar-modify_at :
    (f : Avatar → Avatar) (i : ℕ) (avs : List Avatar) (v : Str)
    → ((a : Avatar) → (f a).uuid ≡ a.uuid)
    → ((a : Avatar) → (f a).balance ≡ a.balance)
    → balance_of (find_avatar (modify_at i f avs) v) ≡ balance_of (find_avatar avs v)
unfolding find_avatar
find_avatar-modify_at f i [] v hu hb = refl
find_avatar-modify_at f zero (a ∷ avs) v hu hb =
    pick-balance (is_avatar v (f a)) (is_avatar v a) (f a) a (find_avatar avs v) (find_avatar avs v)
      (ap (λ u. str_eq u v) (hu a)) (hb a) refl
find_avatar-modify_at f (suc i) (a ∷ avs) v hu hb =
    pick-balance (is_avatar v a) (is_avatar v a) a a (find_avatar (modify_at i f avs) v)
      (find_avatar avs v) refl refl (find_avatar-modify_at f i avs v hu hb)

-- A new avatar without money changes no balance.
find_avatar-append :
    (avs : List Avatar) (a : Avatar) (v : Str)
    → a.balance ≡ pos 0
    → balance_of (find_avatar (avs ++ (a ∷ [])) v) ≡ balance_of (find_avatar avs v)
unfolding find_avatar
find_avatar-append [] a v h = elim (Bool-cases (is_avatar v a)) [
  | inl e ↦ rw e h
  | inr e ↦ rw e refl
]
find_avatar-append (x ∷ avs) a v h =
    pick-balance (is_avatar v x) (is_avatar v x) x x (find_avatar (avs ++ (a ∷ [])) v)
      (find_avatar avs v) refl refl (find_avatar-append avs a v h)

named-uuid : (name : Option Str) (a : Avatar) → (named name a).uuid ≡ a.uuid
named-uuid none a = refl
named-uuid (some n) a = elim (Bool-cases (is_empty a.name)) [
  | inl e ↦ rw e refl
  | inr e ↦ rw e refl
]

named-balance : (name : Option Str) (a : Avatar) → (named name a).balance ≡ a.balance
named-balance none a = refl
named-balance (some n) a = elim (Bool-cases (is_empty a.name)) [
  | inl e ↦ rw e refl
  | inr e ↦ rw e refl
]

own_or_add-balance :
    (o : Option ℕ) (avs : List Avatar) (uuid : Str) (name : Option Str) (v : Str)
    → avatar_index avs uuid ≡ o
    → balance_of (find_avatar (own_or_add o avs uuid name) v) ≡ balance_of (find_avatar avs v)
unfolding region_add_avatar
own_or_add-balance (some i) avs uuid name v e =
    find_avatar-modify_at (named name) i avs v (named-uuid name) (named-balance name)
own_or_add-balance none avs uuid name v e =
    subst
      (λ o.
        balance_of (find_avatar (add_or_update o avs uuid (pos 0) name).1 v)
        ≡ balance_of (find_avatar avs v))
      (sym e) (find_avatar-append avs (new_avatar uuid (pos 0) name) v refl)

module _ {F : Type 0} where
  -- Setting the owner changes no balance: neither that of the owner, new or known, nor any other.
  pub region_set_owner-balance :
      (r : Region F) (uuid : Str) (name : Option Str) (v : Str)
      → balance_of (find_avatar (region_set_owner r uuid name).avatars v)
        ≡ balance_of (find_avatar r.avatars v)
  unfolding region_set_owner
  region_set_owner-balance r uuid name v =
      own_or_add-balance (avatar_index r.avatars uuid) r.avatars uuid name v refl

found-step :
    (b : Bool) (o : Option ℕ) (a : Avatar) (avs : List Avatar) (uuid : Str) (balance : ℤ)
    (name : Option Str)
    → is_avatar uuid a ≡ b
    → balance_of (find_avatar (add_or_update o avs uuid balance name).1 uuid) ≡ balance
    → balance_of (
        find_avatar
          (add_or_update
            (if b then some 0 else elim o [ none ↦ none | some i ↦ some (suc i) ])
            (a ∷ avs)
            uuid
            balance
            name).1
          uuid)
      ≡ balance
unfolding find_avatar
found-step true o a avs uuid balance name e h = rw e refl
found-step false none a avs uuid balance name e h = rw e h
found-step false (some i) a avs uuid balance name e h = rw e h

added-found :
    (avs : List Avatar) (uuid : Str) (balance : ℤ) (name : Option Str)
    → balance_of (find_avatar (add_or_update (avatar_index avs uuid) avs uuid balance name).1 uuid)
      ≡ balance
unfolding avatar_index find_avatar
added-found [] uuid balance name = rw (str_eq_refl uuid) refl
added-found (a ∷ avs) uuid balance name =
    found-step (is_avatar uuid a) (avatar_index avs uuid) a avs uuid balance name refl
      (added-found avs uuid balance name)

str_eq-ne : (a b : Str) → a ≢ b → str_eq a b ≡ false
str_eq-ne a b ne = elim (Bool-cases (str_eq a b)) [
  | inl e ↦ absurd (ne (str_eq→eq a b e))
  | inr e ↦ e
]

same_key-ne :
    (a : Avatar) (uuid v : Str) → uuid ≢ v → is_avatar uuid a ≡ true → is_avatar v a ≡ false
same_key-ne a uuid v ne e = str_eq-ne a.uuid v (λ q. ne (sym (str_eq→eq a.uuid uuid e) ∙ q))

other-step :
    (b : Bool) (o : Option ℕ) (a : Avatar) (avs : List Avatar) (uuid v : Str) (balance : ℤ)
    (name : Option Str)
    → uuid ≢ v
    → is_avatar uuid a ≡ b
    → balance_of (find_avatar (add_or_update o avs uuid balance name).1 v)
      ≡ balance_of (find_avatar avs v)
    → balance_of (
        find_avatar
          (add_or_update
            (if b then some 0 else elim o [ none ↦ none | some i ↦ some (suc i) ])
            (a ∷ avs)
            uuid
            balance
            name).1
          v)
      ≡ balance_of (find_avatar (a ∷ avs) v)
unfolding find_avatar
other-step true o a avs uuid v balance name ne e h =
    let q : is_avatar v a ≡ false = same_key-ne a uuid v ne e in rw q refl
other-step false none a avs uuid v balance name ne e h =
    pick-balance (is_avatar v a) (is_avatar v a) a a
      (find_avatar (avs ++ (new_avatar uuid balance name ∷ [])) v) (find_avatar avs v) refl refl h
other-step false (some i) a avs uuid v balance name ne e h =
    pick-balance (is_avatar v a) (is_avatar v a) a a
      (find_avatar (modify_at i (update_avatar balance name) avs) v) (find_avatar avs v) refl refl h

other-found :
    (avs : List Avatar) (uuid v : Str) (balance : ℤ) (name : Option Str)
    → uuid ≢ v
    → balance_of (find_avatar (add_or_update (avatar_index avs uuid) avs uuid balance name).1 v)
      ≡ balance_of (find_avatar avs v)
unfolding avatar_index find_avatar
other-found [] uuid v balance name ne = rw (str_eq-ne uuid v ne) refl
other-found (a ∷ avs) uuid v balance name ne =
    other-step (is_avatar uuid a) (avatar_index avs uuid) a avs uuid v balance name ne refl
      (other-found avs uuid v balance name ne)

false-ne_true : false ≢ true
false-ne_true e = cc

str_eq_self : (a b : Str) (x y : ℤ) → str_eq a b ≡ true → (if str_eq a b then x else y) ≡ x
str_eq_self a b x y e = rw e refl

-- region_add_avatar gives the avatar of the key the balance, whether it is new or known, and changes
-- the balance of no other key.
pub region_add_avatar-balance :
    (avs : List Avatar) (uuid : Str) (balance : ℤ) (name : Option Str) (v : Str)
    → balance_of (find_avatar (region_add_avatar avs uuid balance name).1 v)
      ≡ (if str_eq uuid v then balance else balance_of (find_avatar avs v))
unfolding region_add_avatar
region_add_avatar-balance avs uuid balance name v = elim (Bool-cases (str_eq uuid v)) [
  | inl e ↦
      subst
        (λ w.
          balance_of (find_avatar (add_or_update (avatar_index avs uuid) avs uuid balance name).1 w)
          ≡ balance)
        (str_eq→eq uuid v e) (added-found avs uuid balance name)
      ∙ sym (str_eq_self uuid v balance (balance_of (find_avatar avs v)) e)
  | inr e ↦ rw e (
      other-found avs uuid v balance name (λ q.
        absurd (false-ne_true (sym e ∙ subst (λ w. str_eq uuid w ≡ true) q (str_eq_refl uuid)))))
]
