-- ===== src/Server/Restart/Tests.antt =====
-- A restart from concrete files, and its theorems there.
use remerge.Prelude.{true, is_ok, ◌-◌, some, ◌≡◌, refl, nat_eq}
use remerge.Prelude.Dict.{get, insert, map_values, keys}
use remerge.Types.Samples.{order, config, host}
use remerge.Types.Workorder.{Workorder, pending, building}
use remerge.Types.Client.{main}
use remerge.Registry.{update}
use remerge.Prelude.Text.{codes}
use remerge.Server.State.{u64_mod}
use remerge.Server.Queue.{queue_turn}
use remerge.Server.Restart.{restart}
use remerge.Server.Restart.Recovery.{
  IsRecovered, restart-IsRecovered, restart-readmits, restart-queue_depth,
}
use remerge.Server.Samples.{toy, settings, open_auth, saved, client_of}

restart-IsRecovered_example :
    IsRecovered 9 1 (order 1 7 building) (restart settings open_auth 9 saved)
unfolding get
restart-IsRecovered_example =
    restart-IsRecovered settings open_auth 9 saved 1 (order 1 7 building) refl

restart-readmits_example :
    (is_ok
        (update toy 7 main (config (codes "q")) host 9 (restart settings open_auth 9 saved).clients)
      ≡ true)
    × ((v : Workorder) × (get 1 (restart settings open_auth 9 saved).workorders ≡ some v)
        × (v.status ≡ pending)
        × (v.client_id ≡ 7))
unfolding get
restart-readmits_example =
    restart-readmits settings open_auth 9 saved toy 7 (client_of 1) 1 (order 1 7 building)
      (config (codes "q")) host refl refl refl refl

abbrev reset : Workorder
reset = record (order 1 7 pending) { updated_at = 9 }

taken : (queue_turn 10 (restart settings open_auth 9 saved)).0 ≡ some reset
unfolding queue_turn restart get insert map_values keys
taken = refl

restart-queue_depth_example :
    (queue_turn 10 (restart settings open_auth 9 saved)).1.metrics.queue_depth ≡ u64_mod - 1
restart-queue_depth_example = restart-queue_depth settings open_auth 9 saved 10 reset taken
