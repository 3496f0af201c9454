-- ===== src/Events/OneLine.antt =====
-- src/events.c: each call prints a line of JSON.
use sakura_slemu.Base.{
  ℕ, ◌≡◌, ◌≢◌, ◌⊎◌, inl, inr, Bool-cases, refl, sym, Bool, true, false, not, ◌&&◌, List, [], ◌∷◌,
  ◌++◌, Str, codes, Printed, print_ℤ-Printed, All, All-append, ◌==◌, arith,
}
use mathlib.Core.List.{append_assoc}
use sakura_slemu.Double.{Double}
use sakura_slemu.Region.State.{Script, Region}
use sakura_slemu.Events.{
  emit_char, emit_chars, j_emit_str, Field, str_field, int_field, dbl_field, strs_field, key_of,
  emit_strs, emit_value, emit_fields, SideEffect, json_event, j_body, prints, emit, evt_chat,
  evt_chat_to, evt_dialog, evt_loadurl, evt_hud_text, evt_money, evt_permission_request,
  evt_link_msg, evt_http_out, evt_state_change, evt_event_dispatch, evt_die, evt_reset, evt_info,
  evt_lsd_set, evt_prim_set, evt_agent_data_request, evt_rez, evt_assertion,
}

abbrev pub Single : Str → Type 0
Single s = All (λ c. c ≢ 10) s

-- The one call that prints nothing: the dispatch of an event, without --trace.
pub data Silent {F : Type 0} (r : Region F) : SideEffect F → Type 0 where
  untraced :
      (s : Script F) (name : Str) (n : ℕ) → r.trace ≡ false → Silent r (evt_event_dispatch s name n)

Silent→prints : {F : Type 0} (r : Region F) {e : SideEffect F} → Silent r e → prints r e ≡ false
Silent→prints r (untraced s name n h) = h

prints→Silent : {F : Type 0} (r : Region F) (e : SideEffect F) → prints r e ≡ false → Silent r e
prints→Silent r (evt_event_dispatch s name n) h = untraced s name n h
prints→Silent r _ h = absurd cc

emit_char-Single : (c : ℕ) → Single (emit_char c)
unfolding emit_char
emit_char-Single c = ground arith

emit_chars-Single : (s : Str) → Single (emit_chars s)
unfolding emit_chars
emit_chars-Single [] = tt
emit_chars-Single (c ∷ s) = All-append _ (emit_char c) _ (emit_char-Single c) (emit_chars-Single s)

j_emit_str-Single : (s : Str) → Single (j_emit_str s)
unfolding j_emit_str
j_emit_str-Single s = (
  (λ e. omega arith),
  All-append _ (emit_chars s) _ (emit_chars-Single s) ((λ e. omega arith), tt),
)

emit_strs-Single : (ts : List Str) → Single (emit_strs ts)
unfolding emit_strs
emit_strs-Single [] = tt
emit_strs-Single (t ∷ []) = j_emit_str-Single t
emit_strs-Single (t ∷ u ∷ ts) =
    All-append _ (j_emit_str t) _ (j_emit_str-Single t)
      ((λ e. omega arith), emit_strs-Single (u ∷ ts))

pub Printed-Single : (s : Str) → All Printed s → Single s
Printed-Single [] h = tt
Printed-Single (c ∷ s) ((low, high), h) = ((λ e. omega arith), Printed-Single s h)

-- A test for texts that the source writes out.
abbrev is_single : Str → Bool
is_single [] = true
is_single (c ∷ s) = not (c == 10) && is_single s

single_lem : (s : Str) → is_single s ≡ true → Single s
single_lem [] h = tt
single_lem (c ∷ s) h = ground (arith, single_lem s)

abbrev keys_single : {F : Type 0} → List (Field F) → Bool
keys_single [] = true
keys_single (f ∷ fs) = is_single (key_of f) && keys_single fs

both : (a b : Bool) → a && b ≡ true → (a ≡ true) × (b ≡ true)
both true b h = (refl, h)
both false b h = absurd cc

module _ {F : Type 0} (D : Double F) (print3 : F → Str) (plain6 : (f : F) → Single (D.print6 f))
    (plain3 : (f : F) → Single (print3 f)) where
  emit_value-Single : (f : Field F) → Single (emit_value D f)
  unfolding emit_value
  emit_value-Single (str_field k v) = j_emit_str-Single v
  emit_value-Single (int_field k v) = Printed-Single _ (print_ℤ-Printed v)
  emit_value-Single (dbl_field k v) = plain6 v
  emit_value-Single (strs_field k ts) = (
    (λ e. omega arith),
    All-append _ (emit_strs ts) _ (emit_strs-Single ts) ((λ e. omega arith), tt),
  )

  key-Single : (k : Str) → Single k → Single (44 ∷ 34 ∷ k ++ (34 ∷ 58 ∷ []))
  key-Single k h = (
    (λ e. omega arith),
    ((λ e. omega arith), All-append _ k _ h ((λ e. omega arith), ((λ e. omega arith), tt))),
  )

  emit_fields-Single : (fs : List (Field F)) → keys_single fs ≡ true → Single (emit_fields D fs)
  unfolding emit_fields
  emit_fields-Single [] h = tt
  emit_fields-Single (f ∷ fs) h =
      let (k, ks) = both (is_single (key_of f)) (keys_single fs) h in
      All-append _ (44 ∷ 34 ∷ key_of f ++ (34 ∷ 58 ∷ [])) _
        (key-Single (key_of f) (single_lem (key_of f) k))
        (All-append _ (emit_value D f) _ (emit_value-Single f) (emit_fields-Single fs ks))

  -- The words that the emitter itself writes are on one line.
  words_single :
      (e : SideEffect F) → is_single (json_event e).0 && keys_single (json_event e).1 ≡ true
  unfolding json_event
  words_single (evt_chat a b c d) = refl
  words_single (evt_chat_to a b c d) = refl
  words_single (evt_dialog s to msg buttons ch true) = refl
  words_single (evt_dialog s to msg buttons ch false) = refl
  words_single (evt_loadurl a b c d) = refl
  words_single (evt_hud_text a b c d e f) = refl
  words_single (evt_money a b c d) = refl
  words_single (evt_permission_request a b c) = refl
  words_single (evt_link_msg a b c d e) = refl
  words_single (evt_http_out a b c d e) = refl
  words_single (evt_state_change a b c) = refl
  words_single (evt_event_dispatch a b c) = refl
  words_single (evt_die a) = refl
  words_single (evt_reset a) = refl
  words_single (evt_info a) = refl
  words_single (evt_lsd_set a b c) = refl
  words_single (evt_prim_set a b) = refl
  words_single (evt_agent_data_request a b c) = refl
  words_single (evt_rez a b) = refl
  words_single (evt_assertion a b c) = refl

  body-Single :
      (r : Region F) (e : SideEffect F) → Single (j_body D print3 r (json_event e) ++ (125 ∷ []))
  unfolding j_body
  body-Single r e =
      let (t, ks) =
        both (is_single (json_event e).0) (keys_single (json_event e).1) (words_single e) in
      All-append _ (j_body D print3 r (json_event e)) _
        (All-append _ (123 ∷ 34 ∷ 116 ∷ 34 ∷ 58 ∷ print3 r.virtual_now) _
          (All-append _ (123 ∷ 34 ∷ 116 ∷ 34 ∷ 58 ∷ []) _
            (single_lem (123 ∷ 34 ∷ 116 ∷ 34 ∷ 58 ∷ []) refl) (plain3 r.virtual_now))
          (All-append _ (44 ∷ 34 ∷ codes "type" ++ (34 ∷ 58 ∷ 34 ∷ [])) _
            (single_lem (44 ∷ 34 ∷ codes "type" ++ (34 ∷ 58 ∷ 34 ∷ [])) refl)
            (All-append _ (json_event e).0 _ (single_lem (json_event e).0 t)
              ((λ x. omega arith), emit_fields-Single (json_event e).1 ks))))
        ((λ x. omega arith), tt)

  -- In the JSON format a call of an evt_ function prints one line: the newline at its end is the only
  -- one, whatever texts the script passes. Only evt_event_dispatch without --trace prints nothing.
  -- Condition: "%.6f" and "%.3f" print no newline.
  pub emit-Single :
      (r : Region F) (e : SideEffect F)
      → (¬ Silent r e × (line : Str) × (emit D print3 r e ≡ line ++ (10 ∷ [])) × Single line)
        ⊎ (Silent r e × (emit D print3 r e ≡ []))
  unfolding emit
  emit-Single r e = elim (Bool-cases (prints r e)) [
    | inl p ↦
        let body = j_body D print3 r (json_event e) in
        inl (
          (λ s. let no = Silent→prints r s in cc),
          body ++ (125 ∷ []),
          rw p (sym (append_assoc body (125 ∷ []) (10 ∷ []))),
          body-Single r e,
        )
    | inr p ↦ inr (prints→Silent r e p, rw p refl)
  ]
