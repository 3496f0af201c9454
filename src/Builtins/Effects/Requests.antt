-- ===== src/Builtins/Effects/Requests.antt =====
-- src/builtins.c, src/dialog.c and src/commands.c: a request at a granted URL reaches its script.
use sakura_slemu.Base.{
  ℕ, zero, suc, str_eq_refl, ◌≡◌, refl, ap, ◌∙◌, some, List, [], ◌∷◌, ◌++◌, Str, codes, get_elem?,
  modify_at,
}
use mathlib.Core.List.{append_assoc}
use mathlib.Core.Option
use sakura_slemu.Value.{SValue, string, key}
use sakura_slemu.Region.State.{Script, Region, InboundUrl}
use sakura_slemu.Region.Dialogs.{inbound_url, inbound_register, inbound_resolve}
use sakura_slemu.Region.Queue.{event, push_to, script_push_event}
use sakura_slemu.Commands.Actions.{http_in, http_to}
use sakura_slemu.Builtins.Effects.Web.{bi_ll_request_url}

-- The URL that was registered last leads to its script.
inbound_resolve-register :
    (us : List InboundUrl) (target : ℕ) (uuid req_key : Str)
    → inbound_resolve (inbound_register us target uuid req_key) (inbound_url uuid req_key)
      ≡ some target
unfolding inbound_resolve inbound_register
inbound_resolve-register us target uuid req_key =
    let same = str_eq_refl (inbound_url uuid req_key) in rw same refl

module _ {F : Type 0} where
  twice :
      (f g : Script F → Script F) (i : ℕ) (ss : List (Script F)) (s : Script F)
      → get_elem? ss i ≡ some s
      → get_elem? (modify_at i f (modify_at i g ss)) i ≡ some (f (g s))
  twice f g i [] s h = absurd cc
  twice f g zero (t ∷ ss) s h = ap (Option.map (λ u. f (g u))) h
  twice f g (suc i) (t ∷ ss) s h = twice f g i ss s h

  -- After llRequestURL or llRequestSecureURL the script has, behind the events it had, the grant of a
  -- URL, and a request that HTTP_IN makes at that URL comes next, with its method and its body.
  pub http_in-request_url :
      (gen_uuid : ℕ → Str) (self : ℕ) (s : Script F) (a : List (SValue F)) (r : Region F)
      (req_id method body : Str)
      → get_elem? r.scripts self ≡ some s
      → Option.map
          (λ t. t.evq)
          (get_elem?
            (http_in req_id
              (inbound_url s.uuid (gen_uuid r.n_uuids))
              method
              body
              (bi_ll_request_url gen_uuid self s a r).0).scripts
            self)
        ≡ some (
            s.evq
            ++ (event (codes "http_request") (
                  key (gen_uuid r.n_uuids)
                  ∷ string (codes "URL_REQUEST_GRANTED")
                  ∷ string (inbound_url s.uuid (gen_uuid r.n_uuids))
                  ∷ [])
                ∷ event (codes "http_request") (key req_id ∷ string method ∷ string body ∷ [])
                ∷ []))
  unfolding http_in bi_ll_request_url push_to script_push_event
  http_in-request_url gen_uuid self s a r req_id method body h =
      let id = gen_uuid r.n_uuids in
      ap
        (λ t.
          Option.map (λ u. u.evq)
            (get_elem?
              (http_to t req_id method body (bi_ll_request_url gen_uuid self s a r).0).scripts
              self))
        (inbound_resolve-register r.inbound self s.uuid id)
      ∙ ap (Option.map (λ t. t.evq)) (twice _ _ self r.scripts s h)
      ∙ ap some (append_assoc s.evq _ _)
