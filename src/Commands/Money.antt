-- ===== src/Commands/Money.antt =====
-- src/commands.c: MONEY_FROM moves money between avatars, and makes and loses none.
use sakura_slemu.Base.{
  ℕ, zero, suc, ◌<◌, ◌^◌, ◌≡◌, refl, sym, ◌∙◌, ap, Bool, true, false, Option, none, some, List, [],
  ◌∷◌, Str, ℤ, pos, ◌+ℤ◌, ◌-ℤ◌, ltb_ℤ, add64, sub64, to_i64, to_i64_fits, pos_part, neg_part,
  int_laws, modify_at, find_index, length-modify_at, subst, if◌then◌else◌, Bool-cases, inl, inr,
  All, length, arith,
}
use sakura_slemu.Region.State.{Avatar, Region}
use sakura_slemu.Region.Avatars.{avatar_index, find_avatar}
use sakura_slemu.Region.Queue.{push_to}
use sakura_slemu.Commands.Actions.{debit, credit, pay_found, money_from}

-- The sum of all balances.
unfoldable pub total : List Avatar → ℤ
total [] = pos 0
total (a ∷ avs) = a.balance +ℤ total avs

-- Far from the ends of the range of `long long`.
abbrev pub Small : ℤ → Type 0
Small b = (pos_part b < 2 ^ 61) × (neg_part b < 2 ^ 61)

abbrev Middle : ℤ → Type 0
Middle b = (pos_part b < 2 ^ 62) × (neg_part b < 2 ^ 62)

to_i64_middle : (a : ℤ) → pos_part a < 2 ^ 63 → neg_part a < 2 ^ 63 → to_i64 a ≡ a
to_i64_middle a h k = to_i64_fits a (h, omega arith)

sub_parts : (a n : ℤ) → Small a → Small n → Middle (a -ℤ n)
unfolding ◌-ℤ◌
sub_parts a n ha hn = ground arith

sub64_exact : (a n : ℤ) → Small a → Small n → sub64 a n ≡ a -ℤ n
sub64_exact a n ha hn =
    let (h, k) = sub_parts a n ha hn in to_i64_middle (a -ℤ n) (omega arith) (omega arith)

add_parts :
    (a n : ℤ) → Middle a → Small n → (pos_part (a +ℤ n) < 2 ^ 63) × (neg_part (a +ℤ n) < 2 ^ 63)
unfolding ◌+ℤ◌
add_parts a n ha hn = ground arith

add64_exact : (a n : ℤ) → Middle a → Small n → add64 a n ≡ a +ℤ n
add64_exact a n ha hn = let (h, k) = add_parts a n ha hn in to_i64_middle (a +ℤ n) h k

swap_sub : (a t n : ℤ) → (a -ℤ n) +ℤ t ≡ (a +ℤ t) -ℤ n
swap_sub a t n = omega int_laws

swap_inner : (a t n : ℤ) → a +ℤ (t -ℤ n) ≡ (a +ℤ t) -ℤ n
swap_inner a t n = omega int_laws

swap_add : (a t n : ℤ) → (a +ℤ n) +ℤ t ≡ (a +ℤ t) +ℤ n
swap_add a t n = omega int_laws

add_assoc : (a t n : ℤ) → (a +ℤ t) +ℤ n ≡ a +ℤ (t +ℤ n)
add_assoc a t n = omega int_laws

sub_add : (t n : ℤ) → (t -ℤ n) +ℤ n ≡ t
sub_add t n = omega int_laws

total-debit :
    (i : ℕ) (n : ℤ) (avs : List Avatar)
    → All (λ a. Small a.balance) avs
    → Small n
    → i < length avs
    → total (modify_at i (debit n) avs) ≡ total avs -ℤ n
unfolding total
total-debit i n [] h hn l = absurd (omega arith)
total-debit zero n (a ∷ avs) (ha, h) hn l =
    ap (λ b. b +ℤ total avs) (sub64_exact a.balance n ha hn) ∙ swap_sub a.balance (total avs) n
total-debit (suc i) n (a ∷ avs) (ha, h) hn l =
    ap (λ t. a.balance +ℤ t) (total-debit i n avs h hn (omega arith))
    ∙ swap_inner a.balance (total avs) n

Small-Middle :
    (avs : List Avatar) → All (λ a. Small a.balance) avs → All (λ a. Middle a.balance) avs
Small-Middle [] h = tt
Small-Middle (a ∷ avs) (p, h) = ((omega (arith, p.0), omega (arith, p.1)), Small-Middle avs h)

debit-Middle :
    (i : ℕ) (n : ℤ) (avs : List Avatar)
    → All (λ a. Small a.balance) avs
    → Small n
    → All (λ a. Middle a.balance) (modify_at i (debit n) avs)
debit-Middle i n [] h hn = tt
debit-Middle zero n (a ∷ avs) (ha, h) hn = (
  subst Middle (sym (sub64_exact a.balance n ha hn)) (sub_parts a.balance n ha hn),
  Small-Middle avs h,
)
debit-Middle (suc i) n (a ∷ avs) (ha, h) hn =
    ((omega (arith, ha.0), omega (arith, ha.1)), debit-Middle i n avs h hn)

total-credit :
    (i : ℕ) (n : ℤ) (avs : List Avatar)
    → All (λ a. Middle a.balance) avs
    → Small n
    → i < length avs
    → total (modify_at i (credit n) avs) ≡ total avs +ℤ n
unfolding total
total-credit i n [] h hn l = absurd (omega arith)
total-credit zero n (a ∷ avs) (p, h) hn l =
    ap (λ b. b +ℤ total avs) (add64_exact a.balance n p hn) ∙ swap_add a.balance (total avs) n
total-credit (suc i) n (a ∷ avs) (p, h) hn l =
    ap (λ t. a.balance +ℤ t) (total-credit i n avs h hn (omega arith))
    ∙ sym (add_assoc a.balance (total avs) n)

-- Money that goes from one avatar to another, or the same one, is neither made nor lost.
pub total-paid :
    (i j : ℕ) (n : ℤ) (avs : List Avatar)
    → All (λ a. Small a.balance) avs
    → Small n
    → i < length avs
    → j < length avs
    → total (modify_at j (credit n) (modify_at i (debit n) avs)) ≡ total avs
total-paid i j n avs h hn l k =
    let e : length (modify_at i (debit n) avs) ≡ length avs = length-modify_at i (debit n) avs in
    total-credit j n (modify_at i (debit n) avs) (debit-Middle i n avs h hn) hn (omega (arith, e))
    ∙ ap (λ t. t +ℤ n) (total-debit i n avs h hn l)
    ∙ sub_add (total avs) n

index-bound :
    (b : Bool) (o : Option ℕ) (i n : ℕ)
    → ((k : ℕ) → o ≡ some k → k < n)
    → (if b then some 0 else elim o [ none ↦ none | some k ↦ some (suc k) ]) ≡ some i
    → i < suc n
index-bound true o i n h e = let q : 0 ≡ i = cc in omega (arith, q)
index-bound false none i n h e = absurd cc
index-bound false (some k) i n h e =
    let l : k < n = h k refl in let q : suc k ≡ i = cc in omega (arith, q)

pub find_index-bound :
    (f : Avatar → Bool) (avs : List Avatar) (i : ℕ) → find_index f avs ≡ some i → i < length avs
find_index-bound f [] i e = absurd cc
find_index-bound f (a ∷ avs) i e =
    index-bound (f a) (find_index f avs) i (length avs) (find_index-bound f avs) e

module _ {F : Type 0} where
  pay_found-total :
      (o : Option ℕ) (p : Option Avatar) (n : ℤ) (who : Str) (r : Region F)
      → All (λ a. Small a.balance) r.avatars
      → Small n
      → avatar_index r.avatars who ≡ o
      → total (pay_found o p n who r).avatars ≡ total r.avatars
  unfolding avatar_index push_to
  pay_found-total none p n who r h hn e = refl
  pay_found-total (some i) none n who r h hn e = refl
  pay_found-total (some i) (some a) n who r h hn e = elim (Bool-cases (ltb_ℤ a.balance n)) [
    | inl q ↦ rw q refl
    | inr q ↦
        let l : i < length r.avatars = find_index-bound _ r.avatars i e in
        rw q (total-paid i 0 n r.avatars h hn l (omega arith))
  ]

  -- A payment by the command MONEY_FROM leaves the sum of all balances as it was, whether it is made
  -- or not, if the balances and the amount are less than 2 ^ 61 in size.
  pub money_from-total :
      (who : Option Str) (n : ℤ) (r : Region F)
      → All (λ a. Small a.balance) r.avatars
      → Small n
      → total (money_from who n r).avatars ≡ total r.avatars
  unfolding money_from
  money_from-total none n r h hn = refl
  money_from-total (some who) n r h hn =
      pay_found-total (avatar_index r.avatars who) (find_avatar r.avatars who) n who r h hn refl
