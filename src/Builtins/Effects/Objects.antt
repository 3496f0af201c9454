-- ===== src/Builtins/Effects/Objects.antt =====
-- src/builtins.c: the script's own names, timer and permissions, and time.
use sakura_slemu.Base.{none, some, [], ◌∷◌, Str, codes, to_i32, if◌then◌else◌, get_elem?}
use sakura_slemu.Double.{Double}
use sakura_slemu.Value.{void, integer, float, string, key, null_key, f_zero}
use sakura_slemu.Region.State.{Region}
use sakura_slemu.Region.Avatars.{find_avatar}
use sakura_slemu.Region.Queue.{script_push_event}
use sakura_slemu.Builtins.Args.{ai, af, as_text}
use sakura_slemu.Builtins.Effects.Effect.{Effect, own, reads}

-- The first avatar, or else the environment's owner.
unfoldable pub owner_uuid : {F : Type 0} → Region F → Str
owner_uuid r = elim (get_elem? r.avatars 0) [
  | some a ↦ a.uuid
  | none ↦ elim r.env_owner [ none ↦ codes "11111111-1111-1111-1111-111111111111" | some o ↦ o ]
]

module _ {F : Type 0} (D : Double F) where
  unfoldable pub bi_ll_get_key : Effect F
  bi_ll_get_key = reads (λ s r a. key s.uuid)

  -- Also llGetCreator and llGetCreatorKey.
  unfoldable pub bi_ll_get_owner : Effect F
  unfolding owner_uuid
  bi_ll_get_owner = reads (λ s r a. key (owner_uuid r))

  unfoldable pub bi_ll_get_object_name : Effect F
  bi_ll_get_object_name = reads (λ s r a. string s.name)

  unfoldable pub bi_ll_set_object_name : Effect F
  unfolding as_text
  bi_ll_set_object_name = own (λ r a t. record t { name = as_text a 0 })

  unfoldable pub bi_ll_get_object_desc : Effect F
  bi_ll_get_object_desc = reads (λ s r a. string s.desc)

  unfoldable pub bi_ll_set_object_desc : Effect F
  unfolding as_text
  bi_ll_set_object_desc = own (λ r a t. record t { desc = as_text a 0 })

  unfoldable pub bi_ll_die : Effect F
  bi_ll_die = own (λ r a t. record t { evq = []; timer_interval = f_zero D })

  unfoldable pub bi_ll_get_time : Effect F
  bi_ll_get_time = reads (λ s r a. float r.virtual_now)

  unfoldable pub bi_ll_sleep : Effect F
  unfolding af
  bi_ll_sleep self s a r = (record r { virtual_offset = D.add r.virtual_offset (af D a 0) }, void)

  unfoldable pub bi_ll_set_timer_event : Effect F
  unfolding af
  bi_ll_set_timer_event = own (λ r a t. record t {
    timer_interval = af D a 0;
    timer_due = if D.lt (f_zero D) (af D a 0) then D.add r.virtual_now (af D a 0) else f_zero D;
  })

  -- The permissions are granted at once.
  unfoldable pub bi_ll_request_permissions : Effect F
  unfolding ai as_text script_push_event to_i32
  bi_ll_request_permissions = own (λ r a t.
      let perms = to_i32 (ai D a 1) in
      script_push_event (codes "run_time_permissions") (integer perms ∷ [])
        (record t { perms = perms; perms_key = some (as_text a 0) }))

  unfoldable pub bi_ll_get_permissions : Effect F
  bi_ll_get_permissions = reads (λ s r a. integer s.perms)

  unfoldable pub bi_ll_get_permissions_key : Effect F
  bi_ll_get_permissions_key =
      reads (λ s r a. key (elim s.perms_key [ none ↦ null_key | some k ↦ k ]))

  -- Also llGetUsername and llGetDisplayName.
  unfoldable pub bi_ll_key2_name : Effect F
  unfolding as_text find_avatar
  bi_ll_key2_name =
      reads (λ s r a.
        string (elim (find_avatar r.avatars (as_text a 0)) [ none ↦ [] | some v ↦ v.name ]))
