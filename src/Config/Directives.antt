-- ===== src/Config/Directives.antt =====
-- src/config.c: the avatars of a configuration file are those that its AVATAR lines name.
use sakura_slemu.Base.{
  ℕ, ◌≡◌, ◌≢◌, refl, sym, ap, ap₂, ◌∙◌, Bool, false, some, List, [], ◌∷◌, ◌++◌, map, Str, codes,
  str_eq, is_empty, IsI64, print_ℤ, Printed, print_ℤ-Printed, print_ℤ-nonempty, strtoll10-print_ℤ,
  All, All-append, ◌==◌, if◌then◌else◌, arith,
}
use mathlib.Core.List.{append_assoc, append-nil}
use sakura_slemu.Commands.Lines.{
  is_blank, skip_blanks, split_tok, some_tok, next_tok, split_lines, trim_end, is_comment,
  command_lines, commands_load,
}
use sakura_slemu.Region.State.{Avatar, Region}
use sakura_slemu.Region.Avatars.{region_add_avatar}
use sakura_slemu.Config.{
  config_line, config_lines, config_load, avatar_line, add, add_named, name_or,
}

-- The line of an avatar, and the text of some.
abbrev pub avatar_directive : Avatar → Str
avatar_directive a = codes "AVATAR " ++ (a.uuid ++ (32 ∷ (print_ℤ a.balance ++ (32 ∷ a.name))))

unfoldable pub world_text : List Avatar → Str
world_text [] = []
world_text (a ∷ avs) = avatar_directive a ++ (10 ∷ world_text avs)

abbrev pub add_all : List Avatar → List Avatar → List Avatar
add_all [] bvs = bvs
add_all (a ∷ avs) bvs = add_all avs (region_add_avatar bvs a.uuid a.balance (some a.name)).1

-- Neither blanks nor the end of a line.
abbrev pub Solid : ℕ → Type 0
Solid c = (c ≢ 32) × (c ≢ 9) × (c ≢ 10)

-- The key is one word, the name starts and ends with no blank and stands on one line, and the balance
-- has 64 bits.
pub record Nameable (a : Avatar) : Type 0 where
  pub word : All Solid a.uuid
  pub some_word : a.uuid ≢ []
  pub one_line : All (λ c. c ≢ 10) a.name
  pub some_name : is_empty a.name ≡ false
  pub starts : skip_blanks a.name ≡ a.name
  pub ends : trim_end a.name ≡ a.name
  pub in_range : IsI64 a.balance

solid_lem : (c : ℕ) → Solid c → is_blank c ≡ false
solid_lem c (a, b, d) = ground arith

split_tok-word : (w t : Str) → All Solid w → split_tok (w ++ (32 ∷ t)) ≡ (w, t)
unfolding split_tok
split_tok-word [] t h = refl
split_tok-word (c ∷ w) t (h, hs) = rw (solid_lem c h) (rw (split_tok-word w t hs) refl)

-- A word with a blank behind it is the next one.
next_tok-word : (w t : Str) → All Solid w → w ≢ [] → next_tok (w ++ (32 ∷ t)) ≡ (some w, t)
unfolding next_tok skip_blanks
next_tok-word [] t h ne = absurd (ne refl)
next_tok-word (c ∷ w) t (h, hs) ne =
    let e = solid_lem c h in
    let no_skip : skip_blanks ((c ∷ w) ++ (32 ∷ t)) ≡ (c ∷ w) ++ (32 ∷ t) = rw e refl in
    ap some_tok no_skip ∙ ap (λ p. (some p.0, p.1)) (split_tok-word (c ∷ w) t (h, hs))

Printed-Solid : (s : Str) → All Printed s → All Solid s
Printed-Solid [] h = tt
Printed-Solid (c ∷ s) ((low, high), h) =
    (((λ e. omega arith), (λ e. omega arith), (λ e. omega arith)), Printed-Solid s h)

module _ {F : Type 0} where
  -- What a directive does, with its name cut off.
  avatar_line-directive :
      (a : Avatar) (r : Region F)
      → Nameable a
      → avatar_line (a.uuid ++ (32 ∷ (print_ℤ a.balance ++ (32 ∷ a.name)))) r
        ≡ add a.uuid a.balance a.name r
  unfolding avatar_line
  avatar_line-directive a r h =
      let named : name_or (skip_blanks a.name) (codes "Avatar") ≡ a.name =
        ap (λ n. name_or n (codes "Avatar")) h.starts ∙ (rw h.some_name refl) in
      ap (λ p. add_named p.0 (next_tok p.1) r)
        (next_tok-word a.uuid (print_ℤ a.balance ++ (32 ∷ a.name)) h.word h.some_word)
      ∙ ap (λ q. add_named (some a.uuid) q r)
          (next_tok-word (print_ℤ a.balance) a.name (Printed-Solid _ (print_ℤ-Printed a.balance))
            (print_ℤ-nonempty a.balance))
      ∙ ap₂ (λ i n. add a.uuid i n r) (strtoll10-print_ℤ a.balance h.in_range) named

  config_line-directive :
      (a : Avatar) (r : Region F) (fx : Bool)
      → Nameable a
      → config_line (avatar_directive a) (r, fx) ≡ (add a.uuid a.balance a.name r, fx)
  unfolding config_line next_tok skip_blanks split_tok str_eq
  config_line-directive a r fx h = ap (λ x. (x, fx)) (avatar_line-directive a r h)

split_lines-line :
    (acc l t : Str)
    → All (λ c. c ≢ 10) l
    → split_lines acc (l ++ (10 ∷ t)) ≡ (acc ++ l) ∷ split_lines [] t
unfolding split_lines
split_lines-line acc [] t h = ap (λ x. x ∷ split_lines [] t) (sym (append-nil acc))
split_lines-line acc (c ∷ l) t (h, hs) =
    let e : (c == 10) ≡ false = ground arith in
    rw e (
      split_lines-line (acc ++ (c ∷ [])) l t hs
      ∙ ap (λ x. x ∷ split_lines [] t) (append_assoc acc (c ∷ []) l))

nonempty_append : (s t : Str) → is_empty t ≡ false → is_empty (s ++ t) ≡ false
nonempty_append [] t h = h
nonempty_append (c ∷ s) t h = refl

trim_end-append : (s t : Str) → trim_end t ≡ t → is_empty t ≡ false → trim_end (s ++ t) ≡ s ++ t
unfolding trim_end
trim_end-append [] t e h = e
trim_end-append (c ∷ s) t e h =
    let some : is_empty (s ++ t) ≡ false = nonempty_append s t h in
    rw (trim_end-append s t e h) (rw some refl)

solid_line : (s : Str) → All Solid s → All (λ c. c ≢ 10) s
solid_line [] h = tt
solid_line (c ∷ s) ((a, b, d), h) = (d, solid_line s h)

directive_line : (a : Avatar) → Nameable a → All (λ c. c ≢ 10) (avatar_directive a)
directive_line a h =
    let ne : All (λ c. c ≢ 10) (codes "AVATAR ") = ground arith in
    All-append _ (codes "AVATAR ") _ ne (
      All-append _ a.uuid _ (solid_line a.uuid h.word) (
        (λ e. omega arith),
        All-append _ (print_ℤ a.balance) _
            (solid_line _ (Printed-Solid _ (print_ℤ-Printed a.balance)))
            ((λ e. omega arith), h.one_line),
      ))

prefix_of : Avatar → Str
prefix_of a = codes "AVATAR " ++ (a.uuid ++ (32 ∷ (print_ℤ a.balance ++ (32 ∷ []))))

directive_prefix : (a : Avatar) → avatar_directive a ≡ prefix_of a ++ a.name
unfolding prefix_of
directive_prefix a = sym (
    append_assoc (codes "AVATAR ") _ a.name
    ∙ ap (λ x. codes "AVATAR " ++ x)
        (append_assoc a.uuid _ a.name
          ∙ ap (λ x. a.uuid ++ (32 ∷ x)) (append_assoc (print_ℤ a.balance) _ a.name)))

trimmed : (a : Avatar) → Nameable a → trim_end (avatar_directive a) ≡ avatar_directive a
trimmed a h =
    ap trim_end (directive_prefix a)
    ∙ trim_end-append (prefix_of a) a.name h.ends h.some_name
    ∙ sym (directive_prefix a)

no_comment : (a : Avatar) → is_comment (skip_blanks (avatar_directive a)) ≡ false
unfolding skip_blanks
no_comment a = refl

command_lines-line :
    (l : Str) (ls : List Str)
    → trim_end l ≡ l
    → is_comment (skip_blanks l) ≡ false
    → command_lines (l ∷ ls) ≡ l ∷ command_lines ls
unfolding command_lines
command_lines-line l ls e c =
    ap (λ x. if is_comment (skip_blanks x) then command_lines ls else x ∷ command_lines ls) e
    ∙ ap (λ b. if b then command_lines ls else l ∷ command_lines ls) c

commands_load-world_text :
    (avs : List Avatar)
    → All Nameable avs
    → commands_load (world_text avs) ≡ map avatar_directive avs
unfolding commands_load world_text
commands_load-world_text [] h = refl
commands_load-world_text (a ∷ avs) (h, hs) =
    ap command_lines
      (split_lines-line [] (avatar_directive a) (world_text avs) (directive_line a h))
    ∙ command_lines-line (avatar_directive a) (split_lines [] (world_text avs)) (trimmed a h)
        (no_comment a)
    ∙ ap (λ xs. avatar_directive a ∷ xs) (commands_load-world_text avs hs)

module _ {F : Type 0} where
  config_lines-directives :
      (avs : List Avatar) (r : Region F) (fx : Bool)
      → All Nameable avs
      → config_lines (map avatar_directive avs) (r, fx)
        ≡ (record r { avatars = add_all avs r.avatars }, fx)
  unfolding config_lines
  config_lines-directives [] r fx h = refl
  config_lines-directives (a ∷ avs) r fx (h, hs) =
      ap (config_lines (map avatar_directive avs)) (config_line-directive a r fx h)
      ∙ config_lines-directives avs (add a.uuid a.balance a.name r) fx hs

  -- The configuration file that has one AVATAR line for each of some avatars adds these to the region,
  -- in their order, with their keys, balances and names, and changes nothing else: if each key is one
  -- word, each name stands on one line and begins and ends with no blank, and the balances have 64
  -- bits.
  pub config_load-world_text :
      (avs : List Avatar) (r : Region F)
      → All Nameable avs
      → config_load (world_text avs) r ≡ record r { avatars = add_all avs r.avatars }
  unfolding config_load
  config_load-world_text avs r h =
      ap (λ ls. (config_lines ls (r, false)).0) (commands_load-world_text avs h)
      ∙ ap (λ l. l.0) (config_lines-directives avs r false h)
