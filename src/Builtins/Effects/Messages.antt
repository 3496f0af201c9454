-- ===== src/Builtins/Effects/Messages.antt =====
-- src/builtins.c: which scripts a link message reaches.
use sakura_slemu.Base.{
  ℕ, zero, suc, ◌+◌, ◌≤◌, ◌<◌, subst, ◌≡◌, ◌≢◌, refl, sym, ap, ap₂, ◌∙◌, Bool, true, false, Option,
  some, List, [], ◌∷◌, ◌++◌, Str, codes, ℤ, pos, negsuc, IsI32, to_i32, to_i32_fits, get_elem?,
  if◌then◌else◌, arith, ◌⊎◌, inl, inr, eq_ℤ, eq_ℤ→eq, eq_ℤ_refl, leb_ℤ, Bool-cases,
}
use mathlib.Core.List.{append-nil}
use mathlib.Core.Option
use sakura_slemu.Double.{Double}
use sakura_slemu.Value.{SValue, integer, string, key}
use sakura_slemu.Region.State.{Event, Script, Region}
use sakura_slemu.Region.Queue.{event, script_push_event}
use sakura_slemu.Builtins.Args.{ai, as_text}
use sakura_slemu.Builtins.Effects.Links.{reaches, deliver, bi_ll_message_linked}

-- A link number that stands for the prim of that number: all but -1 to -4.
abbrev pub Plain : ℤ → Type 0
Plain (pos n) = Unit
Plain (negsuc n) = 4 ≤ n

-- When a message for a link number from the script at `self` is for the script `t` at `place`:
-- LINK_SET, LINK_ALL_OTHERS, LINK_ALL_CHILDREN, LINK_THIS, and the number of a prim.
pub data Reaches {F : Type 0} (self place : ℕ) (t : Script F) : ℤ → Type 0 where
  link_set : Reaches self place t (negsuc 0)
  link_all_others : place ≢ self → Reaches self place t (negsuc 1)
  link_all_children : (n : ℕ) → t.link_num ≡ pos n → 2 ≤ n → Reaches self place t (negsuc 2)
  link_this : place ≡ self → Reaches self place t (negsuc 3)
  link_number : (link : ℤ) → Plain link → t.link_num ≡ link → Reaches self place t link

module _ {F : Type 0} (self place : ℕ) (t : Script F) where
  child : (l : ℤ) → leb_ℤ (pos 2) l ≡ true → (n : ℕ) × (l ≡ pos n) × (2 ≤ n)
  child (pos n) h = (n, refl, ground arith)
  child (negsuc n) h = absurd (ground arith)

  differs : (n : ℕ) (l : ℤ) → l ≢ negsuc n → eq_ℤ l (negsuc n) ≡ false
  differs n l ne = elim (Bool-cases (eq_ℤ l (negsuc n))) [
    | inl e ↦ absurd (ne (eq_ℤ→eq l (negsuc n) e))
    | inr e ↦ e
  ]

  other_than : (n : ℕ) (l : ℤ) → n < 4 → Plain l → l ≢ negsuc n
  other_than n l small h e = let h' : Plain (negsuc n) = subst Plain e h in omega arith

  by_number : (link : ℤ) → Plain link → reaches link self place t ≡ eq_ℤ link t.link_num
  unfolding reaches
  by_number l h =
      let a = differs 0 l (other_than 0 l (omega arith) h) in
      let b = differs 1 l (other_than 1 l (omega arith) h) in
      let c = differs 2 l (other_than 2 l (omega arith) h) in
      let d = differs 3 l (other_than 3 l (omega arith) h) in rw (a, b, c, d) refl

  number_of_prim : (link : ℤ) → Plain link → reaches link self place t ≡ true → t.link_num ≡ link
  number_of_prim l p h = sym (eq_ℤ→eq l t.link_num (sym (by_number l p) ∙ h))

  reaches→Reaches : (link : ℤ) → reaches link self place t ≡ true → Reaches self place t link
  unfolding reaches
  reaches→Reaches (pos n) h = link_number (pos n) tt (number_of_prim (pos n) tt h)
  reaches→Reaches (negsuc zero) h = link_set
  reaches→Reaches (negsuc (suc zero)) h = link_all_others (λ e. ground arith)
  reaches→Reaches (negsuc (suc (suc zero))) h =
      let (n, e, le) = child t.link_num h in link_all_children n e le
  reaches→Reaches (negsuc (suc (suc (suc zero)))) h = link_this (ground arith)
  reaches→Reaches (negsuc (suc (suc (suc (suc n))))) h =
      link_number _ (omega arith) (number_of_prim _ (omega arith) h)

  Reaches→reaches : {link : ℤ} → Reaches self place t link → reaches link self place t ≡ true
  unfolding reaches
  Reaches→reaches link_set = refl
  Reaches→reaches (link_all_others ne) = ground arith
  Reaches→reaches (link_all_children n e le) = rw e (ground arith)
  Reaches→reaches (link_this e) = ground arith
  Reaches→reaches (link_number link h e) = by_number link h ∙ rw e (eq_ℤ_refl link)

module _ {F : Type 0} where
  abbrev pub one_if : Bool → Event F → List (Event F)
  one_if true ev = ev ∷ []
  one_if false ev = []

  queue_of :
      (b : Bool) (args : List (SValue F)) (t : Script F)
      → (if b then script_push_event (codes "link_message") args t else t).evq
        ≡ t.evq ++ one_if b (event (codes "link_message") args)
  unfolding script_push_event
  queue_of true args t = refl
  queue_of false args t = sym (append-nil t.evq)

  deliver-get :
      (to : ℕ → Script F → Bool) (args : List (SValue F)) (k i : ℕ) (ts : List (Script F))
      (t : Script F)
      → get_elem? ts i ≡ some t
      → Option.map (λ u. u.evq) (get_elem? (deliver to args k ts) i)
        ≡ some (t.evq ++ one_if (to (k + i) t) (event (codes "link_message") args))
  unfolding deliver
  deliver-get to args k i [] t h = absurd cc
  deliver-get to args k zero (u ∷ ts) t h =
      let same : u ≡ t = cc in
      let here : k ≡ k + 0 = omega arith in
      ap some (
        queue_of (to k u) args u
        ∙ ap₂ (λ w n. w.evq ++ one_if (to n w) (event (codes "link_message") args)) same here)
  deliver-get to args k (suc i) (u ∷ ts) t h =
      let here : suc k + i ≡ k + suc i = omega arith in
      deliver-get to args (suc k) i ts t h
      ∙ ap (λ n. some (t.evq ++ one_if (to n t) (event (codes "link_message") args))) here

module _ {F : Type 0} (D : Double F) where
  told :
      (link : ℤ) (self i : ℕ) (t : Script F) (ev : Event F) (o : Option (List (Event F)))
      → o ≡ some (t.evq ++ one_if (reaches link self i t) ev)
      → (Reaches self i t link × (o ≡ some (t.evq ++ (ev ∷ []))))
        ⊎ (¬ Reaches self i t link × (o ≡ some t.evq))
  told link self i t ev o h = elim (Bool-cases (reaches link self i t)) [
    | inl e ↦ inl (reaches→Reaches self i t link e, rw e at h)
    | inr e ↦
        let q : o ≡ some (t.evq ++ []) = rw e at h in
        inr ((λ k. let yes = Reaches→reaches self i t k in cc), q ∙ ap some (append-nil t.evq))
  ]

  -- After llMessageLinked each script that the link number stands for has, behind the events that it
  -- had, one link_message with the caller's link number, the number, the text and the key, and every
  -- other script has the events that it had. -1 stands for all scripts, -2 for all but the caller, -3
  -- for those whose prim has a number of at least 2, -4 for the caller, and any other number for the
  -- scripts of the prim of that number. Condition: the link number fits 32 bits.
  pub bi_ll_message_linked-evq :
      (self : ℕ) (s t : Script F) (r : Region F) (link num : ℤ) (msg id : Str) (i : ℕ)
      → IsI32 link
      → get_elem? r.scripts i ≡ some t
      → (Reaches self i t link
          × (Option.map
                (λ u. u.evq)
                (get_elem?
                  (bi_ll_message_linked D self s
                    (integer link ∷ integer num ∷ string msg ∷ key id ∷ [])
                    r).0.scripts
                  i)
              ≡ some (
                  t.evq
                  ++ (event
                        (codes "link_message")
                        (integer s.link_num ∷ integer num ∷ string msg ∷ key id ∷ [])
                      ∷ []))))
        ⊎ (¬ Reaches self i t link
            × (Option.map
                  (λ u. u.evq)
                  (get_elem?
                    (bi_ll_message_linked D self s
                      (integer link ∷ integer num ∷ string msg ∷ key id ∷ [])
                      r).0.scripts
                    i)
                ≡ some t.evq))
  unfolding bi_ll_message_linked ai as_text
  bi_ll_message_linked-evq self s t r link num msg id i fits h =
      let args : List (SValue F) = integer s.link_num ∷ integer num ∷ string msg ∷ key id ∷ [] in
      let from_start : 0 + i ≡ i = omega arith in
      told link self i t (event (codes "link_message") args) _ (
        deliver-get (reaches (to_i32 link) self) args 0 i r.scripts t h
        ∙ ap₂
            (λ n l. some (t.evq ++ one_if (reaches l self n t) (event (codes "link_message") args)))
            from_start (to_i32_fits link fits))
