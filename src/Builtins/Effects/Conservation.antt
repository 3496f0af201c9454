-- ===== src/Builtins/Effects/Conservation.antt =====
-- src/builtins.c: llGiveMoney and llTransferLindenDollars make and lose no money.
use sakura_slemu.Base.{
  ℕ, zero, suc, ◌≤◌, ◌<◌, ◌≡◌, ◌⊎◌, refl, sym, ap, ◌∙◌, Bool, true, false, Option, none, some, List,
  [], ◌∷◌, ◌++◌, Str, ℤ, pos, ◌+ℤ◌, ltb_ℤ, int_laws, modify_at, find_index, length, length-append,
  length-modify_at, All, All-append, Bool-cases, inl, inr, arith, if◌then◌else◌,
}
use sakura_slemu.Double.{Double}
use sakura_slemu.Value.{SValue}
use sakura_slemu.Region.State.{Script, Region, Avatar}
use sakura_slemu.Region.Avatars.{
  is_avatar, avatar_index, update_avatar, new_avatar, add_or_update, region_add_avatar,
}
use sakura_slemu.Region.Queue.{push_to}
use sakura_slemu.Commands.Money.{total, Small, total-paid, find_index-bound}
use sakura_slemu.Builtins.Args.{ai, as_text}
use sakura_slemu.Builtins.Effects.Objects.{owner_uuid}
use sakura_slemu.Builtins.Effects.Money.{
  last_or, last_index, or_new, balance_at, pay, give, may_debit, give_money, bi_ll_give_money,
  bi_ll_transfer_linden_dollars,
}

zero_add : (t : ℤ) → pos 0 +ℤ t ≡ t
zero_add t = omega int_laws

add_zero : (t : ℤ) → t +ℤ pos 0 ≡ t
add_zero t = omega int_laws

-- Who has the key has nothing.
abbrev Poor : Str → Avatar → Type 0
Poor uuid a = is_avatar uuid a ≡ true → a.balance ≡ pos 0

module _ (uuid : Str) where
  new : Avatar
  new = new_avatar uuid (pos 0) none

  total-new : (avs : List Avatar) → total (avs ++ (new_avatar uuid (pos 0) none ∷ [])) ≡ total avs
  unfolding total
  total-new [] = add_zero (pos 0)
  total-new (a ∷ avs) = ap (λ t. a.balance +ℤ t) (total-new avs)

  index_cases :
      (b : Bool) (o : Option ℕ) (i : ℕ)
      → (if b then some 0 else elim o [ none ↦ none | some k ↦ some (suc k) ]) ≡ some i
      → ((b ≡ true) × (i ≡ 0)) ⊎ ((k : ℕ) × (o ≡ some k) × (i ≡ suc k))
  index_cases true o i e = inl (refl, cc)
  index_cases false none i e = absurd cc
  index_cases false (some k) i e = inr (k, refl, cc)

  emptied :
      (avs : List Avatar) (i : ℕ)
      → find_index (is_avatar uuid) avs ≡ some i
      → All (Poor uuid) avs
      → total (modify_at i (update_avatar (pos 0) none) avs) ≡ total avs
  unfolding total
  emptied [] i e h = absurd cc
  emptied (a ∷ avs) i e (p, h) =
      elim (index_cases (is_avatar uuid a) (find_index (is_avatar uuid) avs) i e) [
        | inl (q, f) ↦ rw f (ap (λ b. b +ℤ total avs) (sym (p q)))
        | inr (k, q, f) ↦ rw f (ap (λ t. a.balance +ℤ t) (emptied avs k q h))
      ]

  emptied-Small :
      (avs : List Avatar) (i : ℕ)
      → All (λ a. Small a.balance) avs
      → All (λ a. Small a.balance) (modify_at i (update_avatar (pos 0) none) avs)
  emptied-Small [] i h = tt
  emptied-Small (a ∷ avs) zero (p, h) = ((omega arith, omega arith), h)
  emptied-Small (a ∷ avs) (suc i) (p, h) = (p, emptied-Small avs i h)

  -- What a place and a list of avatars keep of the list before.
  record Kept (avs : List Avatar) (r : ℕ × List Avatar) : Type 0 where
    same : total r.1 ≡ total avs
    small : All (λ a. Small a.balance) r.1
    place : r.0 < length r.1
    grown : length avs ≤ length r.1

  added :
      (o : Option ℕ) (avs : List Avatar)
      → find_index (is_avatar uuid) avs ≡ o
      → All (Poor uuid) avs
      → All (λ a. Small a.balance) avs
      → Kept avs (add_or_update o avs uuid (pos 0) none)
  added none avs e p h = record {
    same = total-new avs;
    small =
        All-append (λ a. Small a.balance) avs (new_avatar uuid (pos 0) none ∷ []) h
          ((omega arith, omega arith), tt);
    place = omega (arith, length-append avs (new_avatar uuid (pos 0) none ∷ []));
    grown = omega (arith, length-append avs (new_avatar uuid (pos 0) none ∷ []));
  }
  added (some i) avs e p h =
      let l = length-modify_at i (update_avatar (pos 0) none) avs in
      record {
        same = emptied avs i e p;
        small = emptied-Small avs i h;
        place = omega (arith, l, find_index-bound (is_avatar uuid) avs i e);
        grown = omega (arith, l);
      }

  -- No avatar has the key.
  abbrev Absent : Avatar → Type 0
  Absent a = is_avatar uuid a ≡ false

  absent_step : (o : Option ℕ) (b : Bool) → last_or o b ≡ none → (o ≡ none) × (b ≡ false)
  absent_step (some k) b e = absurd cc
  absent_step none true e = absurd cc
  absent_step none false e = (refl, refl)

  bound_step :
      (o : Option ℕ) (b : Bool) (i n : ℕ)
      → last_or o b ≡ some i
      → ((k : ℕ) → o ≡ some k → k < n)
      → i < suc n
  bound_step (some k) b i n e h =
      let l : k < n = h k refl in let q : suc k ≡ i = cc in omega (arith, q)
  bound_step none true i n e h = let q : 0 ≡ i = cc in omega (arith, q)
  bound_step none false i n e h = absurd cc

  last_index-Absent : (avs : List Avatar) → last_index avs uuid ≡ none → All Absent avs
  unfolding last_index
  last_index-Absent [] e = tt
  last_index-Absent (a ∷ avs) e =
      let (f, q) = absent_step (last_index avs uuid) (is_avatar uuid a) e in
      (q, last_index-Absent avs f)

  last_index-bound : (avs : List Avatar) (i : ℕ) → last_index avs uuid ≡ some i → i < length avs
  unfolding last_index
  last_index-bound [] i e = absurd cc
  last_index-bound (a ∷ avs) i e =
      bound_step (last_index avs uuid) (is_avatar uuid a) i (length avs) e (last_index-bound avs)

  Absent-Poor : (avs : List Avatar) → All Absent avs → All (Poor uuid) avs
  Absent-Poor [] h = tt
  Absent-Poor (a ∷ avs) (p, h) = ((λ q. absurd (cc (p, q))), Absent-Poor avs h)

  -- A place that was found, or the one of a new avatar.
  or_new-Kept :
      (o : Option ℕ) (avs : List Avatar)
      → ((i : ℕ) → o ≡ some i → i < length avs)
      → (o ≡ none → All (Poor uuid) avs)
      → All (λ a. Small a.balance) avs
      → Kept avs (or_new o avs uuid)
  unfolding region_add_avatar avatar_index
  or_new-Kept (some i) avs b p h = record {
    same = refl;
    small = h;
    place = b i refl;
    grown = omega arith;
  }
  or_new-Kept none avs b p h = added (find_index (is_avatar uuid) avs) avs refl (p refl) h

-- After the first step, who has the owner's key and had not before has nothing still.
module _ (dest owner : Str) where
  lacks_updated :
      (i : ℕ) (avs : List Avatar)
      → All (Poor owner) avs
      → All (Poor owner) (modify_at i (update_avatar (pos 0) none) avs)
  lacks_updated i [] h = tt
  lacks_updated zero (a ∷ avs) (p, h) = ((λ q. refl), h)
  lacks_updated (suc i) (a ∷ avs) (p, h) = (p, lacks_updated i avs h)

  lacks_added :
      (o : Option ℕ) (avs : List Avatar)
      → All (Poor owner) avs
      → All (Poor owner) (add_or_update o avs dest (pos 0) none).1
  lacks_added none avs h =
      All-append (Poor owner) avs (new_avatar dest (pos 0) none ∷ []) h ((λ q. refl), tt)
  lacks_added (some i) avs h = lacks_updated i avs h

  lacks :
      (o : Option ℕ) (avs : List Avatar)
      → All (Poor owner) avs
      → All (Poor owner) (or_new o avs dest).1
  unfolding region_add_avatar
  lacks (some i) avs h = h
  lacks none avs h = lacks_added (avatar_index avs dest) avs h

pay-total :
    (oi di : ℕ) (amt : ℤ) (avs : List Avatar)
    → All (λ a. Small a.balance) avs
    → Small amt
    → oi < length avs
    → di < length avs
    → total (pay oi di amt avs).0 ≡ total avs
pay-total oi di amt avs h hn l k = elim (Bool-cases (ltb_ℤ (balance_at avs oi) amt)) [
  | inl e ↦ rw e refl
  | inr e ↦ rw e (total-paid oi di amt avs h hn l k)
]

give-total :
    (owner dest : Str) (amt : ℤ) (avs : List Avatar)
    → All (λ a. Small a.balance) avs
    → Small amt
    → total (give owner dest amt avs).0 ≡ total avs
unfolding give
give-total owner dest amt avs h hn =
    let o : Option ℕ = last_index avs owner in
    let d : Option ℕ = last_index avs dest in
    let first : Kept dest avs (or_new d avs dest) =
      or_new-Kept dest d avs (last_index-bound dest avs)
        (λ e. Absent-Poor dest avs (last_index-Absent dest avs e)) h in
    let avs1 : List Avatar = (or_new d avs dest).1 in
    let second : Kept owner avs1 (or_new o avs1 owner) =
      or_new-Kept owner o avs1 (λ i e. omega (arith, last_index-bound owner avs i e, first.grown))
        (λ e. lacks dest owner d avs (Absent-Poor owner avs (last_index-Absent owner avs e)))
        first.small in
    pay-total (or_new o avs1 owner).0 (or_new d avs dest).0 amt (or_new o avs1 owner).1 second.small
      hn second.place (omega (arith, first.place, second.grown))
    ∙ second.same
    ∙ first.same

module _ {F : Type 0} (D : Double F) where
  give_money-total :
      (s : Script F) (a : List (SValue F)) (r : Region F)
      → All (λ v. Small v.balance) r.avatars
      → Small (ai D a 1)
      → total (give_money D s a r).0.avatars ≡ total r.avatars
  unfolding give_money
  give_money-total s a r h hn = elim (Bool-cases (may_debit D s)) [
    | inl e ↦ rw e (give-total (owner_uuid r) (as_text a 0) (ai D a 1) r.avatars h hn)
    | inr e ↦ rw e refl
  ]

  -- llGiveMoney and llTransferLindenDollars leave the sum of all balances as it was, whether the
  -- payment is made or not and whoever is known to the region, if the balances and the amount are less
  -- than 2 ^ 61 in size.
  pub bi_ll_give_money-total :
      (gen_uuid : ℕ → Str) (self : ℕ) (s : Script F) (a : List (SValue F)) (r : Region F)
      → All (λ v. Small v.balance) r.avatars
      → Small (ai D a 1)
      → (total (bi_ll_give_money D self s a r).0.avatars ≡ total r.avatars)
        × (total (bi_ll_transfer_linden_dollars D gen_uuid self s a r).0.avatars ≡ total r.avatars)
  unfolding bi_ll_give_money bi_ll_transfer_linden_dollars push_to
  bi_ll_give_money-total gen_uuid self s a r h hn =
      (give_money-total s a r h hn, give_money-total s a r h hn)
