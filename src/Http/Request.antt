-- ===== src/Http/Request.antt =====
-- src/http.c and src/builtins.c: a request of a script, which is answered at once.
use sakura_slemu.Base.{ℕ, suc, Option, none, some, List, [], ◌∷◌, Str, codes, ℤ, pos, get_elem?}
use sakura_slemu.Value.{SValue, integer, string, key, list, nil, list_items}
use sakura_slemu.Region.State.{Region, HttpFixtureEntry}
use sakura_slemu.Region.Queue.{push_to}
use sakura_slemu.Http.{http_fixture_match}
use sakura_slemu.Builtins.Args.{as_text}
use sakura_slemu.Builtins.Effects.Effect.{Effect}

abbrev pub of_entry : Option HttpFixtureEntry → ℤ × Str
of_entry none = (pos 0, codes "(no fixture match)")
of_entry (some e) = (e.status, elim e.body [ none ↦ [] | some b ↦ b ])

module _ {F : Type 0} where
  -- The status and the body: `real` makes the request by curl if the region has http_real set.
  unfoldable pub answer :
      Option (Str → List (SValue F) → Str → ℤ × Str)
      → Str
      → List (SValue F)
      → Str
      → Region F
      → ℤ × Str
  unfolding http_fixture_match
  answer none url params body r = of_entry (http_fixture_match r.http_fix url)
  answer (some real) url params body r = real url params body

  unfoldable pub http_request :
      Option (Str → List (SValue F) → Str → ℤ × Str)
      → Str
      → ℕ
      → Str
      → List (SValue F)
      → Str
      → Region F
      → Region F
  unfolding answer push_to
  http_request real id self url params body r =
      let (status, text) = answer real url params body r in
      push_to self (codes "http_response") (key id ∷ integer status ∷ list nil ∷ string text ∷ [])
        (record r { n_uuids = suc r.n_uuids })

  -- The parameters are those of a list in the second place.
  abbrev pub params_of : List (SValue F) → List (SValue F)
  params_of a = elim (get_elem? a 1) [ none ↦ [] | some v ↦ list_items v ]

  unfoldable pub bi_ll_http_request :
      Option (Str → List (SValue F) → Str → ℤ × Str) → (ℕ → Str) → Effect F
  unfolding as_text http_request
  bi_ll_http_request real gen_uuid self s a r =
      let id = gen_uuid r.n_uuids in
      (http_request real id self (as_text a 0) (params_of a) (as_text a 2) r, key id)
