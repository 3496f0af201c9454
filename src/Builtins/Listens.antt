-- ===== src/Builtins/Listens.antt =====
-- src/builtins.c: the built-ins that open, close and switch listens.
use sakura_slemu.Base.{true, not, List, [], ◌∷◌, map, ℤ, pos, eq_ℤ, to_i32, ◌+ℤ◌, if◌then◌else◌}
use sakura_slemu.Double.{Double}
use sakura_slemu.Value.{SValue, integer}
use sakura_slemu.Region.State.{Script, ListenEntry}
use sakura_slemu.Builtins.Args.{ai, as_text}

-- `next_handle` is the static counter of the source.
pub record Listened (F : Type 0) : Type 0 where
  pub next_handle : ℤ
  pub script : Script F
  pub result : SValue F

abbrev pub remove_handle : ℤ → List ListenEntry → List ListenEntry
remove_handle h [] = []
remove_handle h (e ∷ es) = let rest = remove_handle h es in if eq_ℤ e.handle h then es else e ∷ rest

abbrev pub switch : ℤ → ℤ → ListenEntry → ListenEntry
switch h on e = if eq_ℤ e.handle h then record e { active = not (eq_ℤ on (pos 0)) } else e

module _ {F : Type 0} (D : Double F) where
  unfoldable pub bi_ll_listen : ℤ → List (SValue F) → Script F → Listened F
  unfolding ai as_text to_i32 ◌+ℤ◌
  bi_ll_listen next a s = record {
    next_handle = next +ℤ pos 1;
    script = record s {
      listens =
          record {
            handle = next;
            channel = to_i32 (ai D a 0);
            name_filter = as_text a 1;
            id_filter = as_text a 2;
            msg_filter = as_text a 3;
            active = true;
          }
          ∷ s.listens;
    };
    result = integer next;
  }

  unfoldable pub bi_ll_listen_remove : List (SValue F) → Script F → Script F
  unfolding ai to_i32
  bi_ll_listen_remove a s = record s { listens = remove_handle (to_i32 (ai D a 0)) s.listens }

  unfoldable pub bi_ll_listen_control : List (SValue F) → Script F → Script F
  unfolding ai to_i32
  bi_ll_listen_control a s = record s {
    listens = map (switch (to_i32 (ai D a 0)) (to_i32 (ai D a 1))) s.listens;
  }
