-- ===== src/Builtins/Effects/Linkset.antt =====
-- src/builtins.c: the linkset data of the project volume.
use sakura_slemu.Base.{Option, none, some, List, [], ◌∷◌, map, Str, pos, length, if◌then◌else◌}
use sakura_slemu.Value.{SValue, void, integer, string, list, nil, of_items}
use sakura_slemu.Region.State.{Region, Volume}
use sakura_slemu.Volume.LinksetData.{
  volume_lsd_read, volume_lsd_write, volume_lsd_delete, volume_lsd_list_keys,
}
use sakura_slemu.Builtins.Args.{as_text}
use sakura_slemu.Builtins.Effects.Effect.{Effect}

unfoldable pub delete_all : List Str → Volume → Volume
unfolding volume_lsd_delete
delete_all [] v = v
delete_all (k ∷ ks) v = delete_all ks (volume_lsd_delete k v).1

module _ {F : Type 0} where
  abbrev pub on_volume : (Volume → Volume × SValue F) → SValue F → Region F → Region F × SValue F
  on_volume f d r = elim r.volume [
    | none ↦ (r, d)
    | some v ↦ (record r { volume = some (f v).0 }, (f v).1)
  ]

  unfoldable pub bi_ll_linkset_data_write : Effect F
  unfolding as_text volume_lsd_write
  bi_ll_linkset_data_write self s a =
      on_volume
        (λ v.
          let (opened, v') = volume_lsd_write (as_text a 0) (as_text a 1) v in
          (v', integer (if opened then pos 0 else pos 1)))
        (integer (pos 0))

  abbrev pub text_or_empty : Option Str → SValue F
  text_or_empty none = string []
  text_or_empty (some t) = string t

  unfoldable pub bi_ll_linkset_data_read : Effect F
  unfolding as_text volume_lsd_read
  bi_ll_linkset_data_read self s a =
      on_volume (λ v. (v, text_or_empty (volume_lsd_read (as_text a 0) v))) (string [])

  unfoldable pub bi_ll_linkset_data_delete : Effect F
  unfolding as_text volume_lsd_delete
  bi_ll_linkset_data_delete self s a =
      on_volume
        (λ v.
          let (gone, v') = volume_lsd_delete (as_text a 0) v in
          (v', integer (if gone then pos 0 else pos 1)))
        (integer (pos 0))

  unfoldable pub bi_ll_linkset_data_reset : Effect F
  unfolding delete_all volume_lsd_list_keys
  bi_ll_linkset_data_reset self s a =
      on_volume (λ v. (delete_all (volume_lsd_list_keys v) v, void)) void

  unfoldable pub bi_ll_linkset_data_count_keys : Effect F
  unfolding volume_lsd_list_keys
  bi_ll_linkset_data_count_keys self s a =
      on_volume (λ v. (v, integer (pos (length (volume_lsd_list_keys v))))) (integer (pos 0))

  unfoldable pub bi_ll_linkset_data_list_keys : Effect F
  unfolding volume_lsd_list_keys
  bi_ll_linkset_data_list_keys self s a =
      on_volume (λ v. (v, list (of_items (map string (volume_lsd_list_keys v))))) (list nil)
