-- ===== src/Builtins/Effects/Web.antt =====
-- src/builtins.c: llRequestURL and llRequestSecureURL, which the emulator answers at once. The keys
-- are a parameter.
use sakura_slemu.Base.{ℕ, suc, [], ◌∷◌, Str, codes}
use sakura_slemu.Value.{string, key}
use sakura_slemu.Region.Dialogs.{inbound_url, inbound_register}
use sakura_slemu.Region.Queue.{push_to}
use sakura_slemu.Builtins.Effects.Effect.{Effect}

module _ {F : Type 0} (gen_uuid : ℕ → Str) where
  unfoldable pub bi_ll_request_url : Effect F
  unfolding inbound_register push_to
  bi_ll_request_url self s a r =
      let id = gen_uuid r.n_uuids in
      (
        push_to self (codes "http_request")
            (key id ∷ string (codes "URL_REQUEST_GRANTED") ∷ string (inbound_url s.uuid id) ∷ [])
            (record r {
              inbound = inbound_register r.inbound self s.uuid id;
              n_uuids = suc r.n_uuids;
            }),
        key id,
      )
