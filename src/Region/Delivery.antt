-- ===== src/Region/Delivery.antt =====
-- src/region.c, src/builtins.c and src/commands.c: a message reaches just the listens that hear it.
use sakura_slemu.Base.{
  ℕ, zero, suc, ◌≡◌, refl, sym, ◌∙◌, ap, Bool, true, false, ◌&&◌, ◌||◌, some, List, [], ◌∷◌, ◌++◌,
  map, Str, codes, ℤ, if◌then◌else◌, replicate, get_elem?, ◌⊎◌, ◌↔◌, inl, inr, str_eq, str_eq_iff,
  str_eq→eq, eq_ℤ, eq_ℤ→eq, eq_ℤ_refl, Bool-cases,
}
use sakura_slemu.Value.{SValue, integer, string, key, null_key}
use mathlib.Core.Option
use mathlib.Core.List.{append_assoc, append-nil}
use sakura_slemu.Region.State.{Script, Region, ListenEntry}
use sakura_slemu.Region.Queue.{
  event, script_push_event, push_all, passes, hears, hear, route_listen,
}

-- How many of the listens pass the test.
abbrev pub count_if : {A : Type 0} → (A → Bool) → List A → ℕ
count_if f [] = 0
count_if f (x ∷ xs) = if f x then suc (count_if f xs) else count_if f xs

-- What a listen must be to hear a message, apart from the code that tests it.
pub record Hears (channel : ℤ) (name id msg : Str) (le : ListenEntry) : Type 0 where
  pub switched_on : le.active ≡ true
  pub on_channel : le.channel ≡ channel
  pub by_name : (le.name_filter ≡ []) ⊎ (le.name_filter ≡ name)
  pub by_id : (le.id_filter ≡ []) ⊎ (le.id_filter ≡ null_key) ⊎ (le.id_filter ≡ id)
  pub by_msg : (le.msg_filter ≡ []) ⊎ (le.msg_filter ≡ msg)

-- Just `n` of the elements have the property.
pub data CountOf {A : Type 0} (P : A → Type 0) : List A → ℕ → Type 0 where
  none_left : CountOf P [] 0
  hit : (x : A) (xs : List A) (n : ℕ) → P x → CountOf P xs n → CountOf P (x ∷ xs) (suc n)
  miss : (x : A) (xs : List A) (n : ℕ) → ¬ P x → CountOf P xs n → CountOf P (x ∷ xs) n

passes→or : (f v : Str) → passes f v ≡ true → (f ≡ []) ⊎ (f ≡ v)
passes→or [] v h = inl refl
passes→or (c ∷ f) v h = inr (str_eq→eq (c ∷ f) v h)

or→passes : (f v : Str) → (f ≡ []) ⊎ (f ≡ v) → passes f v ≡ true
or→passes [] v h = refl
or→passes (c ∷ f) v (inl e) = absurd cc
or→passes (c ∷ f) v (inr e) = (str_eq_iff (c ∷ f) v).1 e

key→or : (f v : Str) → passes f v || str_eq f null_key ≡ true → (f ≡ []) ⊎ (f ≡ null_key) ⊎ (f ≡ v)
key→or f v h = elim (Bool-cases (str_eq f null_key)) [
  | inl e ↦ inr (inl (str_eq→eq f null_key e))
  | inr e ↦ elim (Bool-cases (passes f v)) [
    | inl q ↦ elim (passes→or f v q) [ inl u ↦ inl u | inr u ↦ inr (inr u) ]
    | inr q ↦ absurd (let no : false ≡ true = rw (q, e) at h in cc)
  ]
]

or→key : (f v : Str) → (f ≡ []) ⊎ (f ≡ null_key) ⊎ (f ≡ v) → passes f v || str_eq f null_key ≡ true
or→key f v (inl e) = rw (or→passes f v (inl e)) refl
or→key f v (inr (inl e)) =
    let q = (str_eq_iff f null_key).1 e in
    elim (Bool-cases (passes f v)) [ inl w ↦ rw w refl | inr w ↦ rw (w, q) refl ]
or→key f v (inr (inr e)) = rw (or→passes f v (inr e)) refl

five :
    (a b c d e : Bool)
    → a && b && c && d && e ≡ true
    → (a ≡ true) × (b ≡ true) × (c ≡ true) × (d ≡ true) × (e ≡ true)
five true true true true e h = (refl, refl, refl, refl, h)
five true true true false e h = absurd cc
five true true false d e h = absurd cc
five true false c d e h = absurd cc
five false b c d e h = absurd cc

hears→Hears :
    (channel : ℤ) (name id msg : Str) (le : ListenEntry)
    → hears channel name id msg le ≡ true
    → Hears channel name id msg le
unfolding hears
hears→Hears channel name id msg le h =
    let (on, ch, n, k, m) = five _ _ _ _ _ h in
    record {
      switched_on = on;
      on_channel = eq_ℤ→eq le.channel channel ch;
      by_name = passes→or le.name_filter name n;
      by_id = key→or le.id_filter id k;
      by_msg = passes→or le.msg_filter msg m;
    }

Hears→hears :
    (channel : ℤ) (name id msg : Str) (le : ListenEntry)
    → Hears channel name id msg le
    → hears channel name id msg le ≡ true
unfolding hears
Hears→hears channel name id msg le h =
    let ch : eq_ℤ le.channel channel ≡ true = rw h.on_channel (eq_ℤ_refl channel) in
    let n = or→passes le.name_filter name h.by_name in
    let k = or→key le.id_filter id h.by_id in
    let m = or→passes le.msg_filter msg h.by_msg in rw (h.switched_on, ch, n, k, m) refl

hears_iff :
    (channel : ℤ) (name id msg : Str) (le : ListenEntry)
    → (hears channel name id msg le ≡ true) ↔ Hears channel name id msg le
hears_iff channel name id msg le =
    (hears→Hears channel name id msg le, Hears→hears channel name id msg le)

counted :
    (P : ListenEntry → Type 0) (test : ListenEntry → Bool) (les : List ListenEntry)
    → ((le : ListenEntry) → (test le ≡ true) ↔ P le)
    → CountOf P les (count_if test les)
counted P test [] agree = none_left
counted P test (le ∷ les) agree = elim (Bool-cases (test le)) [
  | inl e ↦ rw e (hit le les _ ((agree le).0 e) (counted P test les agree))
  | inr e ↦ rw e (miss le les _ (λ q. let yes = (agree le).1 q in cc) (counted P test les agree))
]

module _ {F : Type 0} where
  pushed-evq :
      (b : Bool) (n : ℕ) (name : Str) (args : List (SValue F)) (f : Script F → Script F)
      (s : Script F)
      → ((t : Script F) → (f t).evq ≡ t.evq ++ replicate n (event name args))
      → (f (if b then script_push_event name args s else s)).evq
        ≡ s.evq ++ replicate (if b then suc n else n) (event name args)
  unfolding script_push_event
  pushed-evq true n name args f s h =
      h (script_push_event name args s)
      ∙ append_assoc s.evq (event name args ∷ []) (replicate n (event name args))
  pushed-evq false n name args f s h = h s

  pub push_all-evq :
      (name : Str) (args : List (SValue F)) (les : List ListenEntry) (test : ListenEntry → Bool)
      (s : Script F)
      → (push_all (event name args) les test s).evq
        ≡ s.evq ++ replicate (count_if test les) (event name args)
  push_all-evq name args [] test s = sym (append-nil s.evq)
  push_all-evq name args (le ∷ les) test s =
      pushed-evq (test le) (count_if test les) name args (push_all (event name args) les test) s
        (push_all-evq name args les test)

  map-get :
      (f : Script F → Script F) (ss : List (Script F)) (i : ℕ) (s : Script F)
      → get_elem? ss i ≡ some s
      → get_elem? (map f ss) i ≡ some (f s)
  map-get f [] i s h = absurd cc
  map-get f (t ∷ ss) zero s h = ap (Option.map f) h
  map-get f (t ∷ ss) (suc i) s h = map-get f ss i s h

  -- After route_listen the script at each place has, behind the events it had, as many copies of the
  -- listen event as it has listens that hear the message, and no other event. A listen hears it if it is
  -- switched on, has the message's channel, and each of its filters for the name, the key and the text is
  -- empty or equal to the message's; the key filter may also be the null key.
  pub route_listen-evq :
      (channel : ℤ) (name id msg : Str) (r : Region F) (i : ℕ) (s : Script F)
      → get_elem? r.scripts i ≡ some s
      → (n : ℕ) × CountOf (Hears channel name id msg) s.listens n
        × (Option.map (λ t. t.evq) (get_elem? (route_listen channel name id msg r).scripts i)
            ≡ some (
                s.evq
                ++ replicate n (
                    event
                      (codes "listen")
                      (integer channel ∷ string name ∷ key id ∷ string msg ∷ []))))
  unfolding route_listen hear
  route_listen-evq channel name id msg r i s h = (
    count_if (hears channel name id msg) s.listens,
    counted (Hears channel name id msg) (hears channel name id msg) s.listens
        (hears_iff channel name id msg),
    ap (Option.map (λ t. t.evq)) (map-get (hear channel name id msg) r.scripts i s h)
        ∙ ap some (push_all-evq _ _ s.listens (hears channel name id msg) s),
  )
