-- ===== src/Examples/Calls.antt =====
-- The theorems on the built-ins that change the region, and on the table of built-ins.
use sakura_slemu.Base.{
  ℕ, ◌≡◌, ◌⊎◌, refl, some, none, List, [], ◌∷◌, Str, codes, ℤ, pos, negsuc, All, arith, get_elem?,
}
use mathlib.Core.Option
use sakura_slemu.Value.{SValue, integer, string, key, void}
use sakura_slemu.Vm.Eval.{Host}
use sakura_slemu.Vm.Fuel.{HostMonotone}
use sakura_slemu.Vm.Scopes.Frames.{HostKeeps}
use sakura_slemu.Vm.World.{HostMoves}
use sakura_slemu.Region.Queue.{event}
use sakura_slemu.Region.Dispatch.{World}
use sakura_slemu.Region.Progress.Steps.{counting}
use sakura_slemu.Commands.Money.{total, Small}
use sakura_slemu.Builtins.Args.{ai}
use sakura_slemu.Builtins.Effects.Links.{bi_ll_message_linked}
use sakura_slemu.Builtins.Effects.Messages.{Reaches, bi_ll_message_linked-evq}
use sakura_slemu.Builtins.Effects.Money.{bi_ll_give_money, bi_ll_transfer_linden_dollars}
use sakura_slemu.Builtins.Effects.Conservation.{bi_ll_give_money-total}
use sakura_slemu.Commands.Actions.{http_in}
use sakura_slemu.Builtins.Effects.Web.{bi_ll_request_url}
use sakura_slemu.Builtins.Effects.Requests.{http_in-request_url}
use sakura_slemu.Builtins.Table.{region_host}
use sakura_slemu.Builtins.Hosts.RegionHost.{region_host_lem}
use sakura_slemu.Examples.Running.{int_double}
use sakura_slemu.Examples.Places.{plaza, listener}

abbrev no_uuid : ℕ → Str
no_uuid n = []

-- No built-ins but those of the table.
abbrev bare : Host ℤ (World ℤ)
bare = record { builtin = λ name. none; constant = λ name. void }

bare_keeps : HostKeeps bare
bare_keeps name = tt

bare_counts : HostMoves counting bare
bare_counts name = tt

bare_monotone : HostMonotone bare
bare_monotone name = tt

region_host_lem_example :
    HostKeeps (region_host int_double no_uuid bare)
    × HostMonotone (region_host int_double no_uuid bare)
    × HostMoves counting (region_host int_double no_uuid bare)
region_host_lem_example =
    region_host_lem int_double no_uuid bare bare_keeps bare_monotone bare_counts

bi_ll_message_linked-evq_example :
    (Reaches 0 0 listener (negsuc 3)
      × (Option.map
            (λ u. u.evq)
            (get_elem?
              (bi_ll_message_linked int_double 0 listener
                (integer (negsuc 3) ∷ integer (pos 7) ∷ string (codes "go") ∷ key [] ∷ [])
                plaza).0.scripts
              0)
          ≡ some (
              event
                (codes "link_message")
                (integer (pos 1) ∷ integer (pos 7) ∷ string (codes "go") ∷ key [] ∷ [])
              ∷ [])))
    ⊎ (¬ Reaches 0 0 listener (negsuc 3)
        × (Option.map
              (λ u. u.evq)
              (get_elem?
                (bi_ll_message_linked int_double 0 listener
                  (integer (negsuc 3) ∷ integer (pos 7) ∷ string (codes "go") ∷ key [] ∷ [])
                  plaza).0.scripts
                0)
            ≡ some []))
bi_ll_message_linked-evq_example =
    bi_ll_message_linked-evq int_double 0 listener listener plaza (negsuc 3) (pos 7) (codes "go") []
      0 (ground arith) refl

plaza-Small : All (λ a. Small a.balance) plaza.avatars
plaza-Small = ground arith

abbrev to_bob : List (SValue ℤ)
to_bob = key (codes "bob") ∷ integer (pos 30) ∷ []

bi_ll_give_money-total_example :
    (total
        (bi_ll_give_money int_double 0 (record listener { perms = pos 2 }) to_bob plaza).0.avatars
      ≡ total plaza.avatars)
    × (total
          (bi_ll_transfer_linden_dollars int_double no_uuid 0
            (record listener { perms = pos 2 })
            to_bob
            plaza).0.avatars
        ≡ total plaza.avatars)
unfolding ai
bi_ll_give_money-total_example =
    bi_ll_give_money-total int_double no_uuid 0 (record listener { perms = pos 2 }) to_bob plaza
      plaza-Small (ground arith)

abbrev any_uuid : ℕ → Str
any_uuid n = codes "u"

http_in-request_url_example :
    Option.map
      (λ t. t.evq)
      (get_elem?
        (http_in
          (codes "q")
          (codes "http://slemu.local/prim/u")
          (codes "GET")
          (codes "hi")
          (bi_ll_request_url any_uuid 0 listener [] plaza).0).scripts
        0)
    ≡ some (
        event (codes "http_request") (
          key (codes "u")
          ∷ string (codes "URL_REQUEST_GRANTED")
          ∷ string (codes "http://slemu.local/prim/u")
          ∷ [])
        ∷ event
            (codes "http_request")
            (key (codes "q") ∷ string (codes "GET") ∷ string (codes "hi") ∷ [])
        ∷ [])
http_in-request_url_example =
    http_in-request_url any_uuid 0 listener [] plaza (codes "q") (codes "GET") (codes "hi") refl
