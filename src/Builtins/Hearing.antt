-- ===== src/Builtins/Hearing.antt =====
-- src/builtins.c: what a script hears after its listens are opened, closed or switched.
use sakura_slemu.Base.{
  ◌≡◌, refl, ap, ◌∙◌, Bool, true, false, not, ◌&&◌, List, [], ◌∷◌, ◌++◌, map, Str, ℤ, pos, IsI32,
  to_i32_fits, eq_ℤ, eq_ℤ_refl, if◌then◌else◌, replicate,
}
use sakura_slemu.Double.{Double}
use sakura_slemu.Value.{SValue, integer}
use sakura_slemu.Region.State.{Script, ListenEntry}
use sakura_slemu.Region.Queue.{hears, hear, heard}
use sakura_slemu.Region.Delivery.{count_if, push_all-evq}
use sakura_slemu.Builtins.Listens.{switch, bi_ll_listen, bi_ll_listen_remove, bi_ll_listen_control}

abbrev pub still_hears : ℤ → Str → Str → Str → ℤ → ListenEntry → Bool
still_hears channel name id msg h e = not (eq_ℤ e.handle h) && hears channel name id msg e

hears_if_on :
    (channel : ℤ) (name id msg : Str) (off : Bool) (e : ListenEntry)
    → hears channel name id msg (if off then record e { active = false } else e)
      ≡ (not off && hears channel name id msg e)
unfolding hears
hears_if_on channel name id msg true e = refl
hears_if_on channel name id msg false e = refl

hears-switch :
    (channel : ℤ) (name id msg : Str) (h : ℤ) (e : ListenEntry)
    → hears channel name id msg (switch h (pos 0) e) ≡ still_hears channel name id msg h e
hears-switch channel name id msg h e = hears_if_on channel name id msg (eq_ℤ e.handle h) e

count_if-map :
    (f g : ListenEntry → Bool) (k : ListenEntry → ListenEntry) (es : List ListenEntry)
    → ((e : ListenEntry) → f (k e) ≡ g e)
    → count_if f (map k es) ≡ count_if g es
count_if-map f g k [] h = refl
count_if-map f g k (e ∷ es) h = rw (h e, count_if-map f g k es h)

module _ {F : Type 0} (D : Double F) where
  -- A listen that llListenControl switches off hears nothing: a message comes once for each other listen
  -- of the script that hears it.
  pub hear-listen_control :
      (channel : ℤ) (name id msg : Str) (h : ℤ) (s : Script F)
      → IsI32 h
      → (hear channel name id msg (bi_ll_listen_control D (integer h ∷ integer (pos 0) ∷ []) s)).evq
        ≡ s.evq
          ++ replicate
              (count_if (still_hears channel name id msg h) s.listens)
              (heard channel name id msg)
  unfolding hear bi_ll_listen_control
  hear-listen_control channel name id msg h s fits = rw (to_i32_fits h fits) (
      push_all-evq _ _ (map (switch h (pos 0)) s.listens) (hears channel name id msg)
        (record s { listens = map (switch h (pos 0)) s.listens })
      ∙ ap (λ n. s.evq ++ replicate n (heard channel name id msg))
          (count_if-map (hears channel name id msg) (still_hears channel name id msg h)
            (switch h (pos 0)) s.listens (hears-switch channel name id msg h)))

  -- Closing the listen that llListen has just opened, by the handle that it gave, leaves the script as it
  -- was before.
  pub bi_ll_listen_remove-listen :
      (next : ℤ) (a : List (SValue F)) (s : Script F)
      → IsI32 next
      → (let opened = bi_ll_listen D next a s in
          bi_ll_listen_remove D (opened.result ∷ []) opened.script)
        ≡ s
  unfolding bi_ll_listen bi_ll_listen_remove
  bi_ll_listen_remove-listen next a s fits = rw (to_i32_fits next fits, eq_ℤ_refl next)
