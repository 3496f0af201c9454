-- ===== src/Region/Queue.antt =====
-- src/region.c: event queues, and which listens hear a message.
use sakura_slemu.Base.{
  ℕ, Bool, ◌&&◌, ◌||◌, List, [], ◌∷◌, ◌++◌, map, Str, codes, str_eq, is_empty, ℤ, eq_ℤ, modify_at,
  if◌then◌else◌,
}
use sakura_slemu.Value.{SValue, integer, string, key, null_key}
use sakura_slemu.Region.State.{Event, Script, Region, ListenEntry}

abbrev pub event : {F : Type 0} → Str → List (SValue F) → Event F
event name args = record { name = name; args = args }

module _ {F : Type 0} where
  unfoldable pub script_push_event : Str → List (SValue F) → Script F → Script F
  script_push_event name args s = record s { evq = s.evq ++ (event name args ∷ []) }

  unfoldable pub push_to : ℕ → Str → List (SValue F) → Region F → Region F
  unfolding script_push_event
  push_to i name args r = record r { scripts = modify_at i (script_push_event name args) r.scripts }

  unfoldable pub region_broadcast_event : Str → List (SValue F) → Region F → Region F
  unfolding script_push_event
  region_broadcast_event name args r = record r {
    scripts = map (script_push_event name args) r.scripts;
  }

-- An empty filter accepts everything.
abbrev pub passes : Str → Str → Bool
passes filter v = is_empty filter || str_eq filter v

-- The test of route_listen and of the command LISTEN.
unfoldable pub hears : ℤ → Str → Str → Str → ListenEntry → Bool
hears channel name id msg le =
    le.active
    && eq_ℤ le.channel channel
    && passes le.name_filter name
    && (passes le.id_filter id || str_eq le.id_filter null_key)
    && passes le.msg_filter msg

module _ {F : Type 0} where
  abbrev pub heard : ℤ → Str → Str → Str → Event F
  heard channel name id msg =
      event (codes "listen") (integer channel ∷ string name ∷ key id ∷ string msg ∷ [])

  abbrev pub push_all : Event F → List ListenEntry → (ListenEntry → Bool) → Script F → Script F
  push_all ev [] test s = s
  push_all ev (le ∷ les) test s =
      let next : Script F = if test le then script_push_event ev.name ev.args s else s in
      push_all ev les test next

  -- One event for each listen of a script that hears the message.
  unfoldable pub hear : ℤ → Str → Str → Str → Script F → Script F
  unfolding script_push_event hears
  hear channel name id msg s =
      push_all (heard channel name id msg) s.listens (hears channel name id msg) s

  unfoldable pub route_listen : ℤ → Str → Str → Str → Region F → Region F
  unfolding hear
  route_listen channel name id msg r = record r {
    scripts = map (hear channel name id msg) r.scripts;
  }
