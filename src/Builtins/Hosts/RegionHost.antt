-- ===== src/Builtins/Hosts/RegionHost.antt =====
-- src/builtins.c and src/region.c: the interpreter and the main loop may rely on the built-ins.
use sakura_slemu.Base.{ℕ, refl, codes, Option, none, some, List, Str, All, All-append}
use sakura_slemu.Double.{Double}
use sakura_slemu.Vm.Eval.{Host}
use sakura_slemu.Vm.Fuel.{HostMonotone, BuiltinMonotone}
use sakura_slemu.Vm.Logic.Evaluation.{BuiltinHolds}
use sakura_slemu.Vm.Scopes.Actions.{keeps_logic}
use sakura_slemu.Vm.Scopes.Frames.{HostKeeps}
use sakura_slemu.Vm.World.{HostMoves, moves_logic}
use sakura_slemu.Region.Dispatch.{World}
use sakura_slemu.Region.Progress.Steps.{counting}
use sakura_slemu.Builtins.Table.{
  Builtin, builtins_table, builtins_lookup, or_other, region_host, chat_table, string_table,
  list_table, object_table, link_table, money_table, data_table, place_table, web_table, stub_table,
}
use sakura_slemu.Builtins.Effects.Chat
use sakura_slemu.Builtins.Effects.Links
use sakura_slemu.Builtins.Effects.Objects
use sakura_slemu.Builtins.Effects.Money
use sakura_slemu.Builtins.Effects.Linkset
use sakura_slemu.Builtins.Hosts.Counts.{
  still-StepsBut, reads-Counts, own-Counts, bi_say-Counts, bi_ll_region_say_to-Counts,
  bi_ll_message_linked-Counts, listen-Counts, bi_ll_request_url-Counts, bi_ll_give_money-Counts,
  bi_ll_transfer_linden_dollars-Counts, on_volume-StepsBut,
}
use sakura_slemu.Builtins.Hosts.Entries.{
  CountsOf, run-Post, run-Moved, run-Below, find-Counts, FoundCounts, values-Counts,
  all_plain-Counts, ◌⊗◌,
}

module _ {F : Type 0} (D : Double F) (gen_uuid : ℕ → Str) where
  abbrev AllCount : List (Str × Builtin F) → Type 0
  AllCount es = All (λ (e : Str × Builtin F). CountsOf e.1) es

  chat-AllCount : AllCount (chat_table D gen_uuid)
  unfolding chat_table Chat.bi_ll_owner_say Chat.bi_ll_instant_message Chat.bi_ll_set_text
      Chat.bi_ll_dialog Chat.bi_ll_text_box
  chat-AllCount =
      bi_say-Counts D (codes "say")
      ⊗ bi_say-Counts D (codes "whisper")
      ⊗ bi_say-Counts D (codes "shout")
      ⊗ (λ self s a r. still-StepsBut self r _ refl refl refl)
      ⊗ bi_say-Counts D (codes "region")
      ⊗ bi_ll_region_say_to-Counts D
      ⊗ (λ self s a r. still-StepsBut self r _ refl refl refl)
      ⊗ own-Counts _
      ⊗ (λ self s a r. still-StepsBut self r _ refl refl refl)
      ⊗ (λ self s a r. still-StepsBut self r _ refl refl refl)
      ⊗ tt
      ⊗ tt

  string-AllCount : AllCount (string_table D gen_uuid)
  unfolding string_table
  string-AllCount = all_plain-Counts (string_table D gen_uuid) refl

  list-AllCount : AllCount (list_table D gen_uuid)
  unfolding list_table
  list-AllCount = all_plain-Counts (list_table D gen_uuid) refl

  object-AllCount : AllCount (object_table D gen_uuid)
  unfolding object_table Objects.bi_ll_get_time Objects.bi_ll_sleep Objects.bi_ll_set_timer_event
      Objects.bi_ll_get_key Objects.bi_ll_get_owner Objects.bi_ll_get_object_name
      Objects.bi_ll_set_object_name Objects.bi_ll_get_object_desc Objects.bi_ll_set_object_desc
      Objects.bi_ll_die Objects.bi_ll_key2_name
  object-AllCount =
      reads-Counts
      ⊗ tt
      ⊗ (λ self s a r. still-StepsBut self r _ refl refl refl)
      ⊗ own-Counts _
      ⊗ tt
      ⊗ reads-Counts
      ⊗ reads-Counts
      ⊗ reads-Counts
      ⊗ reads-Counts
      ⊗ reads-Counts
      ⊗ own-Counts _
      ⊗ reads-Counts
      ⊗ own-Counts _
      ⊗ own-Counts _
      ⊗ reads-Counts
      ⊗ reads-Counts
      ⊗ reads-Counts
      ⊗ reads-Counts
      ⊗ tt
      ⊗ tt

  link-AllCount : AllCount (link_table D gen_uuid)
  unfolding link_table Links.listen_remove Links.listen_control Links.bi_ll_get_link_number
      Links.bi_ll_get_link_name Links.bi_ll_get_link_key Links.bi_ll_get_number_of_prims
      Links.bi_detected
  link-AllCount =
      listen-Counts D
      ⊗ own-Counts _
      ⊗ own-Counts _
      ⊗ bi_ll_message_linked-Counts D
      ⊗ reads-Counts
      ⊗ reads-Counts
      ⊗ reads-Counts
      ⊗ reads-Counts
      ⊗ reads-Counts
      ⊗ reads-Counts
      ⊗ reads-Counts
      ⊗ reads-Counts
      ⊗ reads-Counts
      ⊗ tt

  money-AllCount : AllCount (money_table D gen_uuid)
  unfolding money_table Objects.bi_ll_request_permissions Objects.bi_ll_get_permissions
      Objects.bi_ll_get_permissions_key Money.bi_ll_get_my_account_balance
  money-AllCount =
      own-Counts _
      ⊗ reads-Counts
      ⊗ reads-Counts
      ⊗ reads-Counts
      ⊗ bi_ll_give_money-Counts D
      ⊗ bi_ll_transfer_linden_dollars-Counts D gen_uuid
      ⊗ tt
      ⊗ tt
      ⊗ tt

  data-AllCount : AllCount (data_table D gen_uuid)
  unfolding data_table Linkset.bi_ll_linkset_data_write Linkset.bi_ll_linkset_data_read
      Linkset.bi_ll_linkset_data_delete Linkset.bi_ll_linkset_data_reset
      Linkset.bi_ll_linkset_data_count_keys Linkset.bi_ll_linkset_data_list_keys
  data-AllCount =
      (λ self s a r. on_volume-StepsBut _ _ self r)
      ⊗ (λ self s a r. on_volume-StepsBut _ _ self r)
      ⊗ (λ self s a r. on_volume-StepsBut _ _ self r)
      ⊗ (λ self s a r. on_volume-StepsBut _ _ self r)
      ⊗ (λ self s a r. on_volume-StepsBut _ _ self r)
      ⊗ (λ self s a r. on_volume-StepsBut _ _ self r)
      ⊗ tt
      ⊗ tt
      ⊗ tt
      ⊗ tt
      ⊗ tt
      ⊗ tt
      ⊗ tt
      ⊗ tt

  place-AllCount : AllCount (place_table D gen_uuid)
  unfolding place_table
  place-AllCount = all_plain-Counts (place_table D gen_uuid) refl

  web-AllCount : AllCount (web_table D gen_uuid)
  unfolding web_table
  web-AllCount =
      tt ⊗ tt ⊗ bi_ll_request_url-Counts gen_uuid ⊗ bi_ll_request_url-Counts gen_uuid ⊗ tt ⊗ tt ⊗ tt

  stub-AllCount : AllCount (stub_table D gen_uuid)
  unfolding stub_table
  stub-AllCount = values-Counts _

  table-AllCount : AllCount (builtins_table D gen_uuid)
  unfolding builtins_table
  table-AllCount = All-append _ _ _ chat-AllCount (
      All-append _ _ _ string-AllCount (
        All-append _ _ _ list-AllCount (
          All-append _ _ _ object-AllCount (
            All-append _ _ _ link-AllCount (
              All-append _ _ _ money-AllCount (
                All-append _ _ _ data-AllCount (
                  All-append _ _ _ place-AllCount
                    (All-append _ _ _ web-AllCount stub-AllCount))))))))

  module _ (others : Host F (World F)) where
    -- The built-ins of the table keep the frames of the interpreter, if the other built-ins do.
    region_host-HostKeeps : HostKeeps others → HostKeeps (region_host D gen_uuid others)
    unfolding region_host
    region_host-HostKeeps h name = entry (builtins_lookup D gen_uuid name)
      where
        entry :
            (o : Option (Builtin F))
            → BuiltinHolds keeps_logic (or_other D gen_uuid o (others.builtin name))
        entry none = h name
        entry (some b) = λ ev k args. record { at = record { at = λ vm sc. run-Post b ev args vm } }

    -- The built-ins of the table ask the interpreter for nothing but answers, if the other ones do so.
    region_host-HostMonotone : HostMonotone others → HostMonotone (region_host D gen_uuid others)
    unfolding region_host
    region_host-HostMonotone h name = entry (builtins_lookup D gen_uuid name)
      where
        entry :
            (o : Option (Builtin F)) → BuiltinMonotone (or_other D gen_uuid o (others.builtin name))
        entry none = h name
        entry (some b) = λ ev ev' k args. run-Below b ev ev' args

    -- They keep what the main loop needs, if the other ones do so.
    region_host-HostMoves :
        HostMoves counting others → HostMoves counting (region_host D gen_uuid others)
    unfolding region_host builtins_lookup
    region_host-HostMoves h name =
        entry (builtins_lookup D gen_uuid name)
          (find-Counts _ (builtins_table D gen_uuid) table-AllCount)
      where
        entry :
            (o : Option (Builtin F))
            → FoundCounts o
            → BuiltinHolds (moves_logic counting) (or_other D gen_uuid o (others.builtin name))
        entry none k = h name
        entry (some b) k =
            λ ev m args. record { at = record { at = λ vm. run-Moved b ev args vm k } }

    -- The interpreter and the main loop may rely on the built-ins of the table as they rely on the other
    -- ones: they keep the frames, ask the interpreter for nothing but answers, and do not change the
    -- limit of steps, lower their count or take the last event of another script, if the other built-ins
    -- do so.
    pub region_host_lem :
        HostKeeps others
        → HostMonotone others
        → HostMoves counting others
        → HostKeeps (region_host D gen_uuid others)
          × HostMonotone (region_host D gen_uuid others)
          × HostMoves counting (region_host D gen_uuid others)
    region_host_lem hk hm hc =
        (region_host-HostKeeps hk, region_host-HostMonotone hm, region_host-HostMoves hc)
