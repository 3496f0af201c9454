-- ===== src/Builtins/Effects/Links.antt =====
-- src/builtins.c: listens, link messages and detected avatars.
use sakura_slemu.Base.{
  ℕ, suc, Bool, true, not, Option, none, some, List, [], ◌∷◌, codes, ℤ, pos, negsuc, pos_part, eq_ℤ,
  leb_ℤ, ltb_ℤ, to_i32, get_elem?, find, length, ◌==◌, if◌then◌else◌,
}
use sakura_slemu.Double.{Double}
use sakura_slemu.Value.{SValue, void, integer, string, key, null_key}
use sakura_slemu.Region.State.{Script, Region, Detected}
use sakura_slemu.Region.Dispatch.{at_script}
use sakura_slemu.Region.Queue.{script_push_event}
use sakura_slemu.Builtins.Args.{ai, as_text}
use sakura_slemu.Builtins.Listens.{bi_ll_listen, bi_ll_listen_remove, bi_ll_listen_control}
use sakura_slemu.Builtins.Effects.Effect.{Effect, own, reads}

module _ {F : Type 0} where
  -- Whether a message for `linknum` from the script at `self` reaches the script at `k`.
  unfoldable pub reaches : ℤ → ℕ → ℕ → Script F → Bool
  reaches linknum self k t =
      if eq_ℤ linknum (negsuc 0)
      then true
      else if eq_ℤ linknum (negsuc 1)
      then not (k == self)
      else if eq_ℤ linknum (negsuc 2)
      then leb_ℤ (pos 2) t.link_num
      else if eq_ℤ linknum (negsuc 3)
      then k == self
      else eq_ℤ linknum t.link_num

  -- The loop over the scripts, from place `k` on.
  unfoldable pub deliver :
      (ℕ → Script F → Bool) → List (SValue F) → ℕ → List (Script F) → List (Script F)
  unfolding script_push_event
  deliver to args k [] = []
  deliver to args k (t ∷ ts) =
      (if to k t then script_push_event (codes "link_message") args t else t)
      ∷ deliver to args (suc k) ts

module _ {F : Type 0} (D : Double F) where
  unfoldable pub listen : Effect F
  unfolding bi_ll_listen
  listen self s a r =
      let opened = bi_ll_listen D r.next_handle a s in
      (
        record (at_script self (λ t. (bi_ll_listen D r.next_handle a t).script) r) {
          next_handle = opened.next_handle;
        },
        opened.result,
      )

  unfoldable pub listen_remove : Effect F
  unfolding bi_ll_listen_remove
  listen_remove = own (λ r a. bi_ll_listen_remove D a)

  unfoldable pub listen_control : Effect F
  unfolding bi_ll_listen_control
  listen_control = own (λ r a. bi_ll_listen_control D a)

  unfoldable pub bi_ll_message_linked : Effect F
  unfolding ai as_text reaches deliver to_i32
  bi_ll_message_linked self s a r =
      let args =
        integer s.link_num ∷ integer (ai D a 1) ∷ string (as_text a 2) ∷ key (as_text a 3) ∷ [] in
      (record r { scripts = deliver (reaches (to_i32 (ai D a 0)) self) args 0 r.scripts }, void)

  abbrev pub linked : List (SValue F) → Region F → Option (Script F)
  linked a r = find (λ t. eq_ℤ t.link_num (to_i32 (ai D a 0))) r.scripts

  unfoldable pub bi_ll_get_link_number : Effect F
  bi_ll_get_link_number = reads (λ s r a. integer s.link_num)

  unfoldable pub bi_ll_get_link_name : Effect F
  unfolding ai to_i32
  bi_ll_get_link_name = reads (λ s r a. string (elim (linked a r) [ none ↦ [] | some t ↦ t.name ]))

  unfoldable pub bi_ll_get_link_key : Effect F
  unfolding ai to_i32
  bi_ll_get_link_key =
      reads (λ s r a. key (elim (linked a r) [ none ↦ null_key | some t ↦ t.uuid ]))

  unfoldable pub bi_ll_get_number_of_prims : Effect F
  bi_ll_get_number_of_prims = reads (λ s r a. integer (pos (length r.scripts)))

  -- s->detected[i], if there is one
  abbrev pub detected_at : Script F → List (SValue F) → Option Detected
  detected_at s a =
      let i = to_i32 (ai D a 0) in
      if ltb_ℤ i (pos 0) then none else get_elem? s.detected (pos_part i)

  -- One of the llDetected… functions: what it gives for an avatar, and without one.
  unfoldable pub bi_detected : (Detected → SValue F) → SValue F → Effect F
  unfolding ai to_i32
  bi_detected f d = reads (λ s r a. elim (detected_at s a) [ none ↦ d | some x ↦ f x ])
