-- ===== src/Server/Evict/Tests.antt =====
-- An eviction at a concrete state, and its theorem there.
use remerge.Prelude.{◌≡◌, refl, nat_eq}
use remerge.Prelude.Dict.{remove, pick}
use remerge.Types.Workorder.{Workorder}
use remerge.Server.Evict.{evict_workorders}
use remerge.Server.Samples.{crowded}

evicted : (evict_workorders 2 crowded).0 ≡ 2
unfolding evict_workorders remove pick
evicted = refl
