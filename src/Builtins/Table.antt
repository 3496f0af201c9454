-- ===== src/Builtins/Table.antt =====
-- src/builtins.c: the table of the built-ins, and how the interpreter calls one. The ones that need
-- libm, the clock, random numbers, HTTP, JSON or a hash are a parameter, `others`.
use sakura_slemu.Base.{
  ℕ, Option, none, some, List, [], ◌∷◌, ◌++◌, map, Str, codes, str_eq, find, get_elem?, pos, true,
  false, ℤ,
}
use mathlib.Core.Option
use sakura_slemu.Double.{Double}
use sakura_slemu.Syntax.{Expr}
use sakura_slemu.Value.{
  SValue, void, integer, string, key, list, null_key, sv_integer, sv_float, sv_string, sv_key,
  sv_vector, sv_rotation, SValues, rotation, vector, f_zero, f_one,
}
use sakura_slemu.Vm.Outcome.{Outcome, done, fault}
use sakura_slemu.Vm.State.{Vm, Run}
use sakura_slemu.Vm.Eval.{Host}
use sakura_slemu.Region.State.{Region}
use sakura_slemu.Region.Dispatch.{World}
use sakura_slemu.Builtins.Constants.{builtins_const}
use sakura_slemu.Builtins.Lists
use sakura_slemu.Builtins.ListText
use sakura_slemu.Builtins.Search
use sakura_slemu.Builtins.Sort
use sakura_slemu.Builtins.Strings
use sakura_slemu.Builtins.Stubs
use sakura_slemu.Builtins.Encoding.Base64
use sakura_slemu.Builtins.Encoding.Url
use sakura_slemu.Builtins.Effects.Effect.{Effect}
use sakura_slemu.Builtins.Effects.Chat
use sakura_slemu.Builtins.Effects.Links
use sakura_slemu.Builtins.Effects.Objects
use sakura_slemu.Builtins.Effects.Money
use sakura_slemu.Builtins.Effects.Linkset
use sakura_slemu.Builtins.Effects.Web

-- A function of the arguments, one that may read outside of them, or one on the region.
pub data Builtin (F : Type 0) : Type 0 where
  value : (List (SValue F) → SValue F) → Builtin F
  partial : (List (SValue F) → Option (SValue F)) → Builtin F
  effect : Effect F → Builtin F

module _ {F : Type 0} where
  abbrev pub or_fault : Option (SValue F) → Vm F (World F) → Outcome (Vm F (World F)) (SValue F)
  or_fault none vm = fault
  or_fault (some v) vm = done v vm

  abbrev pub in_region : Region F × SValue F → Vm F (World F) → Outcome (Vm F (World F)) (SValue F)
  in_region (r, v) vm = done v (record vm { world = record { region = r; self = vm.world.self } })

  abbrev pub run_effect : Effect F → List (SValue F) → Run F (World F) (SValue F)
  run_effect f args vm = elim (get_elem? vm.world.region.scripts vm.world.self) [
    | none ↦ fault
    | some s ↦ in_region (f vm.world.self s args vm.world.region) vm
  ]

  unfoldable pub run_builtin :
      Builtin F → (Expr → Run F (World F) (SValue F)) → List (SValue F) → Run F (World F) (SValue F)
  run_builtin (value f) eval args vm = done (f args) vm
  run_builtin (partial f) eval args vm = or_fault (f args) vm
  run_builtin (effect f) eval args vm = run_effect f args vm

abbrev of_ints : {F : Type 0} → Double F → ℤ → ℤ → ℤ → SValue F
of_ints D x y z = vector (D.of_int x) (D.of_int y) (D.of_int z)

module _ {F : Type 0} (D : Double F) (gen_uuid : ℕ → Str) where
  unfoldable pub chat_table : List (Str × Builtin F)
  chat_table =
      (codes "llSay", effect (Chat.bi_say D (codes "say")))
      ∷ (codes "llWhisper", effect (Chat.bi_say D (codes "whisper")))
      ∷ (codes "llShout", effect (Chat.bi_say D (codes "shout")))
      ∷ (codes "llOwnerSay", effect (Chat.bi_ll_owner_say D))
      ∷ (codes "llRegionSay", effect (Chat.bi_say D (codes "region")))
      ∷ (codes "llRegionSayTo", effect (Chat.bi_ll_region_say_to D))
      ∷ (codes "llInstantMessage", effect (Chat.bi_ll_instant_message D))
      ∷ (codes "llSetText", effect (Chat.bi_ll_set_text D))
      ∷ (codes "llDialog", effect (Chat.bi_ll_dialog D))
      ∷ (codes "llTextBox", effect (Chat.bi_ll_text_box D))
      ∷ (codes "llLoadURL", value (λ a. void))
      ∷ []

  unfoldable pub string_table : List (Str × Builtin F)
  string_table =
      (codes "llStringLength", value (Strings.bi_ll_string_length D))
      ∷ (codes "llSubStringIndex", value (Strings.bi_ll_sub_string_index D))
      ∷ (codes "llGetSubString", value (Strings.bi_ll_get_sub_string D))
      ∷ (codes "llDeleteSubString", partial (Strings.bi_ll_delete_sub_string D))
      ∷ (codes "llInsertString", value (Strings.bi_ll_insert_string D))
      ∷ (codes "llToLower", value (Strings.bi_ll_to_lower D))
      ∷ (codes "llToUpper", value (Strings.bi_ll_to_upper D))
      ∷ (codes "llStringTrim", value (Strings.bi_ll_string_trim D))
      ∷ (codes "llChar", value (Strings.bi_ll_char D))
      ∷ (codes "llOrd", value (Strings.bi_ll_ord D))
      ∷ []

  unfoldable pub list_table : List (Str × Builtin F)
  list_table =
      (codes "llGetListLength", value (ListText.bi_ll_get_list_length D))
      ∷ (codes "llList2String", value (ListText.list_at D sv_string))
      ∷ (codes "llList2Integer", value (ListText.list_at D sv_integer))
      ∷ (codes "llList2Float", value (ListText.list_at D sv_float))
      ∷ (codes "llList2Key", value (ListText.list_at D sv_key))
      ∷ (codes "llList2Vector", value (ListText.list_at D sv_vector))
      ∷ (codes "llList2Rot", value (ListText.list_at D sv_rotation))
      ∷ (codes "llList2List", partial (Lists.bi_ll_list2list D))
      ∷ (codes "llListFindList", value (Search.bi_ll_list_find_list D))
      ∷ (codes "llListInsertList", partial (Lists.bi_ll_list_insert_list D))
      ∷ (codes "llListReplaceList", partial (Lists.bi_ll_list_replace_list D))
      ∷ (codes "llDeleteSubList", value (Lists.bi_ll_delete_sub_list D))
      ∷ (codes "llListSort", value (Sort.bi_ll_list_sort D))
      ∷ (codes "llDumpList2String", value (ListText.bi_ll_dump_list2_string D))
      ∷ (codes "llList2CSV", value (ListText.bi_ll_list2_csv D))
      ∷ (codes "llCSV2List", value ListText.bi_ll_csv2_list)
      ∷ (codes "llParseString2List", value (ListText.parse_string2list false))
      ∷ (codes "llParseStringKeepNulls", value (ListText.parse_string2list true))
      ∷ []

  unfoldable pub object_table : List (Str × Builtin F)
  object_table =
      (codes "llGetTime", effect (Objects.bi_ll_get_time D))
      ∷ (codes "llResetTime", value (λ a. void))
      ∷ (codes "llSleep", effect (Objects.bi_ll_sleep D))
      ∷ (codes "llSetTimerEvent", effect (Objects.bi_ll_set_timer_event D))
      ∷ (codes "llMinEventDelay", value (λ a. void))
      ∷ (codes "llGetKey", effect (Objects.bi_ll_get_key D))
      ∷ (codes "llGetOwner", effect (Objects.bi_ll_get_owner D))
      ∷ (codes "llGetCreator", effect (Objects.bi_ll_get_owner D))
      ∷ (codes "llGetCreatorKey", effect (Objects.bi_ll_get_owner D))
      ∷ (codes "llGetObjectName", effect (Objects.bi_ll_get_object_name D))
      ∷ (codes "llSetObjectName", effect (Objects.bi_ll_set_object_name D))
      ∷ (codes "llGetObjectDesc", effect (Objects.bi_ll_get_object_desc D))
      ∷ (codes "llSetObjectDesc", effect (Objects.bi_ll_set_object_desc D))
      ∷ (codes "llDie", effect (Objects.bi_ll_die D))
      ∷ (codes "llGetScriptID", effect (Objects.bi_ll_get_key D))
      ∷ (codes "llKey2Name", effect (Objects.bi_ll_key2_name D))
      ∷ (codes "llGetUsername", effect (Objects.bi_ll_key2_name D))
      ∷ (codes "llGetDisplayName", effect (Objects.bi_ll_key2_name D))
      ∷ (codes "llGetAttached", value (λ a. integer (pos 0)))
      ∷ []

  -- What the emulator has no object for.
  unfoldable pub place_table : List (Str × Builtin F)
  place_table =
      (codes "llGetPos", value (λ a. of_ints D (pos 128) (pos 128) (pos 25)))
      ∷ (codes "llSetPos", value (λ a. void))
      ∷ (codes "llGetRot", value (λ a. rotation (f_zero D) (f_zero D) (f_zero D) (f_one D)))
      ∷ (codes "llSetRot", value (λ a. void))
      ∷ (codes "llGetScale", value (λ a. of_ints D (pos 1) (pos 1) (pos 1)))
      ∷ (codes "llSetScale", value (λ a. void))
      ∷ (codes "llGetUsedMemory", value (λ a. integer (pos 16384)))
      ∷ (codes "llGetFreeMemory", value (λ a. integer (pos 49152)))
      ∷ (codes "llGetMemoryLimit", value (λ a. integer (pos 65536)))
      ∷ (codes "llSetMemoryLimit", value (λ a. integer (pos 1)))
      ∷ []

  unfoldable pub web_table : List (Str × Builtin F)
  web_table =
      (codes "llHTTPResponse", value (λ a. void))
      ∷ (codes "llSetContentType", value (λ a. void))
      ∷ (codes "llRequestURL", effect (Web.bi_ll_request_url gen_uuid))
      ∷ (codes "llRequestSecureURL", effect (Web.bi_ll_request_url gen_uuid))
      ∷ (codes "llReleaseURL", value (λ a. void))
      ∷ (codes "llGetRegionName", value (λ a. string (codes "slemu-region")))
      ∷ []

  unfoldable pub link_table : List (Str × Builtin F)
  link_table =
      (codes "llListen", effect (Links.listen D))
      ∷ (codes "llListenRemove", effect (Links.listen_remove D))
      ∷ (codes "llListenControl", effect (Links.listen_control D))
      ∷ (codes "llMessageLinked", effect (Links.bi_ll_message_linked D))
      ∷ (codes "llGetLinkNumber", effect (Links.bi_ll_get_link_number D))
      ∷ (codes "llGetLinkName", effect (Links.bi_ll_get_link_name D))
      ∷ (codes "llGetLinkKey", effect (Links.bi_ll_get_link_key D))
      ∷ (codes "llGetNumberOfPrims", effect (Links.bi_ll_get_number_of_prims D))
      ∷ (codes "llDetectedKey", effect (Links.bi_detected D (λ d. key d.key) (key null_key)))
      ∷ (codes "llDetectedName", effect (Links.bi_detected D (λ d. string d.name) (string [])))
      ∷ (codes "llDetectedOwner", effect (Links.bi_detected D (λ d. key d.owner) (key null_key)))
      ∷ (
        codes "llDetectedType",
        effect (Links.bi_detected D (λ d. integer d.type) (integer (pos 0))),
      )
      ∷ (
        codes "llDetectedLinkNumber",
        effect (Links.bi_detected D (λ d. integer d.link_number) (integer (pos 0))),
      )
      ∷ []

  unfoldable pub money_table : List (Str × Builtin F)
  money_table =
      (codes "llRequestPermissions", effect (Objects.bi_ll_request_permissions D))
      ∷ (codes "llGetPermissions", effect (Objects.bi_ll_get_permissions D))
      ∷ (codes "llGetPermissionsKey", effect (Objects.bi_ll_get_permissions_key D))
      ∷ (codes "llGetMyAccountBalance", effect (Money.bi_ll_get_my_account_balance D))
      ∷ (codes "llGiveMoney", effect (Money.bi_ll_give_money D))
      ∷ (codes "llTransferLindenDollars", effect (Money.bi_ll_transfer_linden_dollars D gen_uuid))
      ∷ (codes "llSetPayPrice", value (λ a. void))
      ∷ (codes "llGetPayPrice", value (λ a. list SValues.nil))
      ∷ []

  unfoldable pub data_table : List (Str × Builtin F)
  data_table =
      (codes "llLinksetDataWrite", effect Linkset.bi_ll_linkset_data_write)
      ∷ (codes "llLinksetDataRead", effect Linkset.bi_ll_linkset_data_read)
      ∷ (codes "llLinksetDataDelete", effect Linkset.bi_ll_linkset_data_delete)
      ∷ (codes "llLinksetDataReset", effect Linkset.bi_ll_linkset_data_reset)
      ∷ (codes "llLinksetDataCountKeys", effect Linkset.bi_ll_linkset_data_count_keys)
      ∷ (codes "llLinksetDataListKeys", effect Linkset.bi_ll_linkset_data_list_keys)
      ∷ (codes "llLinksetDataAvailable", value (λ a. integer (pos 65536)))
      ∷ (codes "llStringToBase64", value Base64.bi_ll_string_to_base64)
      ∷ (codes "llBase64ToString", value Base64.bi_ll_base64_to_string)
      ∷ (codes "llIntegerToBase64", value (Base64.bi_ll_integer_to_base64 D))
      ∷ (codes "llBase64ToInteger", value Base64.bi_ll_base64_to_integer)
      ∷ (codes "llEscapeURL", value Url.bi_ll_escape_url)
      ∷ (codes "llUnescapeURL", value Url.bi_ll_unescape_url)
      ∷ []

  unfoldable pub stub_table : List (Str × Builtin F)
  stub_table =
      map (λ e. (e.0, value (λ a. e.1)))
        (Stubs.stubs_1 D
          ++ (Stubs.stubs_2 D
              ++ (Stubs.stubs_3 D
                  ++ (Stubs.stubs_4 D
                      ++ (Stubs.stubs_5 D
                          ++ (Stubs.stubs_6 D
                              ++ (Stubs.stubs_7 D ++ (Stubs.stubs_8 D ++ Stubs.stubs_9 D))))))))

  unfoldable pub builtins_table : List (Str × Builtin F)
  builtins_table =
      chat_table
      ++ (string_table
          ++ (list_table
              ++ (object_table
                  ++ (link_table
                      ++ (money_table
                          ++ (data_table ++ (place_table ++ (web_table ++ stub_table))))))))

  -- The first entry of the name.
  unfoldable pub builtins_lookup : Str → Option (Builtin F)
  builtins_lookup name = Option.map (λ e. e.1) (find (λ e. str_eq e.0 name) builtins_table)

  abbrev pub or_other :
      Option (Builtin F)
      → Option ((Expr → Run F (World F) (SValue F)) → List (SValue F) → Run F (World F) (SValue F))
      → Option ((Expr → Run F (World F) (SValue F)) → List (SValue F) → Run F (World F) (SValue F))
  or_other none o = o
  or_other (some b) o = some (run_builtin b)

  unfoldable pub region_host : Host F (World F) → Host F (World F)
  unfolding builtins_lookup builtins_const
  region_host others = record {
    builtin = λ name. or_other (builtins_lookup name) (others.builtin name);
    constant = builtins_const D;
  }
