-- ===== src/Examples/Files.antt =====
-- The theorems on the files that the emulator reads and writes, and on requests.
use sakura_slemu.Base.{
  ℕ, ◌≡◌, ◌⊎◌, refl, none, some, [], ◌∷◌, ◌++◌, Str, codes, ℤ, pos, arith, get_elem?, print_ℤ,
  print_ℤ-Printed,
}
use mathlib.Core.Option
use sakura_slemu.Value.{integer, string, key, list, nil}
use sakura_slemu.Region.State.{Region, HttpFixtureEntry}
use sakura_slemu.Region.Queue.{event}
use sakura_slemu.Commands.Lines.{skip_blanks, trim_end}
use sakura_slemu.Volume.Economy.{volume_load_economy, volume_save_economy}
use sakura_slemu.Volume.Persistence.{Storable, volume_load_economy-save_economy}
use sakura_slemu.Config.{config_load}
use sakura_slemu.Config.Directives.{Nameable, world_text, add_all, config_load-world_text}
use sakura_slemu.Http.Request.{bi_ll_http_request}
use sakura_slemu.Http.Answers.{Answer, bi_ll_http_request-evq}
use sakura_slemu.Events.{SideEffect, evt_chat, emit}
use sakura_slemu.Events.OneLine.{Single, Silent, Printed-Single, emit-Single}
use sakura_slemu.Examples.Running.{int_double}
use sakura_slemu.Examples.Places.{plaza, listener, alice, bob, shelf}

abbrev stored_plaza : Region ℤ
stored_plaza = record plaza { volume = some shelf }

alice-Storable : Storable alice
unfolding print_ℤ
alice-Storable = record {
  key_tabs = ground arith;
  key_lines = ground arith;
  name_lines = ground arith;
  in_range = ground arith;
  fits = omega arith;
}

bob-Storable : Storable bob
unfolding print_ℤ
bob-Storable = record {
  key_tabs = ground arith;
  key_lines = ground arith;
  name_lines = ground arith;
  in_range = ground arith;
  fits = omega arith;
}

volume_load_economy-save_economy_example :
    (volume_load_economy (record (volume_save_economy stored_plaza) { avatars = [] })).avatars
    ≡ alice ∷ bob ∷ []
volume_load_economy-save_economy_example =
    volume_load_economy-save_economy stored_plaza shelf refl (alice-Storable, (bob-Storable, tt))
      (((λ e. cc), tt), (tt, tt))

alice-Nameable : Nameable alice
unfolding skip_blanks trim_end
alice-Nameable = record {
  word = ground arith;
  some_word = λ e. cc;
  one_line = ground arith;
  some_name = refl;
  starts = refl;
  ends = refl;
  in_range = ground arith;
}

config_load-world_text_example :
    config_load (world_text (alice ∷ [])) plaza
    ≡ record plaza { avatars = add_all (alice ∷ []) plaza.avatars }
config_load-world_text_example = config_load-world_text (alice ∷ []) plaza (alice-Nameable, tt)

abbrev api : HttpFixtureEntry
api = record { match_url = some (codes "/api"); status = pos 200; body = some (codes "ok") }

abbrev other : HttpFixtureEntry
other = record { match_url = some (codes "/x"); status = pos 404; body = none }

abbrev served_plaza : Region ℤ
served_plaza = record plaza { http_fix = other ∷ api ∷ [] }

abbrev no_key : ℕ → Str
no_key n = []

bi_ll_http_request-evq_example :
    (status : ℤ) × (text : Str) × Answer (codes "http://h/api/1") served_plaza.http_fix status text
    × (Option.map
          (λ t. t.evq)
          (get_elem?
            (bi_ll_http_request none no_key 0 listener
              (string (codes "http://h/api/1") ∷ list nil ∷ string [] ∷ [])
              served_plaza).0.scripts
            0)
        ≡ some (
            event (codes "http_response") (key [] ∷ integer status ∷ list nil ∷ string text ∷ [])
            ∷ []))
bi_ll_http_request-evq_example =
    bi_ll_http_request-evq no_key 0 listener (codes "http://h/api/1") [] nil served_plaza refl

abbrev noisy : SideEffect ℤ
noisy = evt_chat listener (codes "say") (pos 0) (97 ∷ 10 ∷ 98 ∷ [])

emit-Single_example :
    (¬ Silent plaza noisy
      × (line : Str) × (emit int_double print_ℤ plaza noisy ≡ line ++ (10 ∷ []))
      × Single line)
    ⊎ (Silent plaza noisy × (emit int_double print_ℤ plaza noisy ≡ []))
emit-Single_example =
    emit-Single int_double print_ℤ (λ f. Printed-Single _ (print_ℤ-Printed f))
      (λ f. Printed-Single _ (print_ℤ-Printed f)) plaza noisy
