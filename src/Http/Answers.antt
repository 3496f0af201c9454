-- ===== src/Http/Answers.antt =====
-- src/http.c: a request is answered by the fixture whose pattern stands in the URL.
use sakura_slemu.Base.{
  ℕ, zero, suc, ◌≡◌, refl, ap, Bool, true, false, Option, none, some, List, [], ◌∷◌, ◌++◌, Str,
  codes, ℤ, pos, get_elem?, modify_at, StandsIn, contains, contains_iff, Bool-cases, inl, inr,
}
use mathlib.Core.Option
use sakura_slemu.Value.{SValue, integer, string, key, list, nil, SValues}
use sakura_slemu.Region.State.{Script, Region, HttpFixtureEntry}
use sakura_slemu.Region.Queue.{event, push_to, script_push_event}
use sakura_slemu.Builtins.Args.{as_text}
use sakura_slemu.Http.{entry_matches, http_fixture_match}
use sakura_slemu.Http.Request.{of_entry, answer, http_request, bi_ll_http_request}

-- The entry has a pattern, and it stands in the URL.
abbrev pub Matches : Str → HttpFixtureEntry → Type 0
Matches url e = (m : Str) × (e.match_url ≡ some m) × StandsIn m url

-- The status and the body that the fixtures, in the order of the list, give for a URL.
pub data Answer (url : Str) : List HttpFixtureEntry → ℤ → Str → Type 0 where
  no_match : Answer url [] (pos 0) (codes "(no fixture match)")
  with_body :
      (e : HttpFixtureEntry) (es : List HttpFixtureEntry) (b : Str)
      → Matches url e
      → e.body ≡ some b
      → Answer url (e ∷ es) e.status b
  bodyless :
      (e : HttpFixtureEntry) (es : List HttpFixtureEntry)
      → Matches url e
      → e.body ≡ none
      → Answer url (e ∷ es) e.status []
  later :
      (e : HttpFixtureEntry) (es : List HttpFixtureEntry) (status : ℤ) (text : Str)
      → ¬ Matches url e
      → Answer url es status text
      → Answer url (e ∷ es) status text

module _ (url : Str) where
  pattern_of :
      (o : Option Str)
      → (elim o as (λ _. Bool) [ none ↦ false | some m ↦ contains url m ]) ≡ true
      → (m : Str) × (o ≡ some m) × StandsIn m url
  pattern_of none h = absurd cc
  pattern_of (some m) h = (m, refl, (contains_iff url m).0 h)

  pattern_inside : (e : HttpFixtureEntry) → Matches url e → entry_matches url e ≡ true
  pattern_inside e (m, q, inside) = rw q ((contains_iff url m).1 inside)

  front_hit :
      (e : HttpFixtureEntry) (es : List HttpFixtureEntry) (body : Option Str)
      → Matches url e
      → e.body ≡ body
      → Answer url (e ∷ es) e.status (elim body [ none ↦ [] | some b ↦ b ])
  front_hit e es none h q = bodyless e es h q
  front_hit e es (some b) h q = with_body e es b h q

  fixtures_say :
      (es : List HttpFixtureEntry)
      → Answer url es
          (of_entry (http_fixture_match es url)).0
          (of_entry (http_fixture_match es url)).1
  unfolding http_fixture_match
  fixtures_say [] = no_match
  fixtures_say (e ∷ es) = elim (Bool-cases (entry_matches url e)) [
    | inl h ↦ rw h (front_hit e es e.body (pattern_of e.match_url h) refl)
    | inr h ↦ rw h (later e es _ _ (λ m. let hit = pattern_inside e m in cc) (fixtures_say es))
  ]

module _ {F : Type 0} where
  pushed-at :
      (name : Str) (args : List (SValue F)) (i : ℕ) (ss : List (Script F)) (s : Script F)
      → get_elem? ss i ≡ some s
      → Option.map (λ t. t.evq) (get_elem? (modify_at i (script_push_event name args) ss) i)
        ≡ some (s.evq ++ (event name args ∷ []))
  unfolding script_push_event
  pushed-at name args i [] s h = absurd cc
  pushed-at name args zero (t ∷ ss) s h = ap (Option.map (λ u. u.evq ++ (event name args ∷ []))) h
  pushed-at name args (suc i) (t ∷ ss) s h = pushed-at name args i ss s h

  -- After llHTTPRequest, without real requests, the script has one http_response behind the events that
  -- it had: with the status and the body of the first fixture of the list whose pattern stands in the
  -- URL as a substring, with an empty body if that fixture has none, or with 0 and a note if there is
  -- no such fixture.
  pub bi_ll_http_request-evq :
      (gen_uuid : ℕ → Str) (self : ℕ) (s : Script F) (url body : Str) (params : SValues F)
      (r : Region F)
      → get_elem? r.scripts self ≡ some s
      → (status : ℤ) × (text : Str) × Answer url r.http_fix status text
        × (Option.map
              (λ t. t.evq)
              (get_elem?
                (bi_ll_http_request none gen_uuid self s
                  (string url ∷ list params ∷ string body ∷ [])
                  r).0.scripts
                self)
            ≡ some (
                s.evq
                ++ (event
                      (codes "http_response")
                      (key (gen_uuid r.n_uuids) ∷ integer status ∷ list nil ∷ string text ∷ [])
                    ∷ [])))
  unfolding bi_ll_http_request http_request answer push_to as_text
  bi_ll_http_request-evq gen_uuid self s url body params r h =
      (_, _, fixtures_say url r.http_fix, pushed-at (codes "http_response") _ self r.scripts s h)
