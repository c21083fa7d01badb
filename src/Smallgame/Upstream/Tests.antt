-- ===== src/Smallgame/Upstream/Tests.antt =====
-- Two halls, a choice between them, and one that is added again.
use gira.Prelude.{◌≡◌, refl, true, false, Option, some, [], ◌∷◌}
use gira.Prelude.Keys.{number_key}
use gira.Smallgame.Upstream.{
  HallStatus, Upstream, UpstreamMap, Peer, ok, max_build_time, min_player, select_peer,
}
use gira.Smallgame.Upstream.Selection.{IsSelection, approved, select_peer-IsSelection}

abbrev quiet : Upstream
quiet = record {
  id = 1;
  full_name = [];
  address = [];
  has_client = true;
  cancelled = false;
  player_count = 3;
  build_time = 20;
  status = ok;
}

abbrev busy : Upstream
busy = record quiet { id = 2; player_count = 9 }

abbrev old_build : Upstream
old_build = record quiet { id = 3; player_count = 0; build_time = 10 }

abbrev halls : UpstreamMap
halls = record { entries = (2, busy) ∷ (3, old_build) ∷ (1, quiet) ∷ []; loose = [] }

abbrev well : Upstream → Option HallStatus
well u = some ok

chosen : (select_peer well halls).1 ≡ some quiet
unfolding select_peer max_build_time min_player
chosen = refl

select_peer-IsSelection_example :
    (selected : Option Upstream) × IsSelection halls selected
    × ((select_peer well halls).1 ≡ approved well selected)
select_peer-IsSelection_example = select_peer-IsSelection well halls

abbrev again : Peer
again = record { id = 1; full_name = []; address = 97 ∷ [] }
