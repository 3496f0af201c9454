-- ===== src/Builtins/Effects/Money.antt =====
-- src/builtins.c: the balance of the owner and payments.
use sakura_slemu.Base.{
  ℕ, suc, Bool, Option, none, some, List, [], ◌∷◌, Str, codes, ℤ, pos, and64, eq_ℤ, ltb_ℤ,
  modify_at, get_elem?, if◌then◌else◌,
}
use sakura_slemu.Double.{Double}
use sakura_slemu.Value.{SValue, integer, string, key}
use sakura_slemu.Region.State.{Script, Region, Avatar}
use sakura_slemu.Region.Avatars.{is_avatar, find_avatar, region_add_avatar}
use sakura_slemu.Region.Queue.{push_to}
use sakura_slemu.Commands.Actions.{debit, credit}
use sakura_slemu.Builtins.Args.{ai, as_text}
use sakura_slemu.Builtins.Effects.Effect.{Effect, reads}
use sakura_slemu.Builtins.Effects.Objects.{owner_uuid}

abbrev pub last_or : Option ℕ → Bool → Option ℕ
last_or (some i) b = some (suc i)
last_or none b = if b then some 0 else none

-- The place of the last avatar of a key.
unfoldable pub last_index : List Avatar → Str → Option ℕ
last_index [] uuid = none
last_index (a ∷ avs) uuid = last_or (last_index avs uuid) (is_avatar uuid a)

-- The place found before, or that of a new avatar with nothing.
abbrev pub or_new : Option ℕ → List Avatar → Str → ℕ × List Avatar
or_new (some i) avs uuid = (i, avs)
or_new none avs uuid = region_add_avatar avs uuid (pos 0) none

-- The balance is read at a place that is there.
abbrev pub balance_at : List Avatar → ℕ → ℤ
balance_at avs i = elim (get_elem? avs i) [ none ↦ pos 0 | some a ↦ a.balance ]

abbrev pub pay : ℕ → ℕ → ℤ → List Avatar → List Avatar × Bool
pay oi di amt avs =
    if ltb_ℤ (balance_at avs oi) amt
    then (avs, Bool.false)
    else (modify_at di (credit amt) (modify_at oi (debit amt) avs), Bool.true)

-- The avatars after a payment from the owner, and whether it was made.
unfoldable pub give : Str → Str → ℤ → List Avatar → List Avatar × Bool
unfolding last_index region_add_avatar
give owner dest amt avs =
    let (di, avs1) = or_new (last_index avs dest) avs dest in
    let (oi, avs2) = or_new (last_index avs owner) avs1 owner in pay oi di amt avs2

abbrev pub of_success : {F : Type 0} → Bool → SValue F
of_success b = integer (if b then pos 1 else pos 0)

module _ {F : Type 0} (D : Double F) where
  unfoldable pub bi_ll_get_my_account_balance : Effect F
  unfolding owner_uuid find_avatar
  bi_ll_get_my_account_balance = reads (λ s r a.
      integer (elim (find_avatar r.avatars (owner_uuid r)) [ none ↦ pos 0 | some v ↦ v.balance ]))

  -- PERMISSION_DEBIT
  abbrev pub may_debit : Script F → Bool
  may_debit s = if eq_ℤ (and64 s.perms (pos 2)) (pos 0) then Bool.false else Bool.true

  unfoldable pub give_money : Script F → List (SValue F) → Region F → Region F × Bool
  unfolding ai as_text give owner_uuid
  give_money s a r =
      let (avs, made) = give (owner_uuid r) (as_text a 0) (ai D a 1) r.avatars in
      if may_debit s then (record r { avatars = avs }, made) else (r, Bool.false)

  unfoldable pub bi_ll_give_money : Effect F
  unfolding give_money
  bi_ll_give_money self s a r = let (r', made) = give_money s a r in (r', of_success made)

  -- `gen_uuid` gives the key of the request.
  unfoldable pub bi_ll_transfer_linden_dollars : (ℕ → Str) → Effect F
  unfolding give_money push_to
  bi_ll_transfer_linden_dollars gen_uuid self s a r =
      let (r', made) = give_money s a r in
      let req = gen_uuid r'.n_uuids in
      (
        push_to self (codes "transaction_result")
            (key req
              ∷ of_success made
              ∷ string (if made then [] else codes "INSUFFICIENT_FUNDS")
              ∷ [])
            (record r' { n_uuids = suc r'.n_uuids }),
        key req,
      )
