-- ===== src/Smallgame/Upstream/Peers.antt =====
-- A hall that is added again while it is known. (framework/smallgame/gateway/server/upstream.go)
use gira.Prelude.{ℕ, ◌≡◌, ◌≢◌, true, Option, some, List, [], ◌∷◌}
use gira.Prelude.Keys.{lookup, number_key}
use gira.Smallgame.Upstream.{
  Upstream, UpstreamMap, Peer, HallStatus, at_entry, connected, beaten, stream_ended, exited,
  on_peer_add, on_peer_delete, on_peer_update, select_peer,
}

-- What happens to the map: the registry's events, those of the goroutines of upstreams that stand in
-- it, and a selection.
pub data Event : Type 0 where
  adds deletes updates : Peer → Event
  connects : ℕ → ℕ → Event
  beats : ℕ → ℕ → HallStatus → Event
  ends exits : ℕ → Event
  selects : (Upstream → Option HallStatus) → Event

abbrev pub happens : Event → UpstreamMap → UpstreamMap
happens (adds peer) s = on_peer_add s peer
happens (deletes peer) s = on_peer_delete s peer
happens (updates peer) s = on_peer_update s peer
happens (connects id build_time) s = at_entry id (connected build_time) s
happens (beats id player_count status) s = at_entry id (beaten player_count status) s
happens (ends id) s = at_entry id stream_ended s
happens (exits id) s = at_entry id exited s
happens (selects answer) s = (select_peer answer s).0

abbrev pub run : List Event → UpstreamMap → UpstreamMap
run [] s = s
run (e ∷ es) s = run es (happens e s)

-- No deletion of the peer.
abbrev pub KeepsPeer : ℕ → List Event → Type 0
KeepsPeer id [] = Unit
KeepsPeer id (deletes peer ∷ es) = (peer.id ≢ id) × KeepsPeer id es
KeepsPeer id (e ∷ es) = KeepsPeer id es

-- The map has the peer, and its upstream is closed.
abbrev pub IsShut : ℕ → UpstreamMap → Type 0
IsShut id s = (u : Upstream) × (lookup id s.entries ≡ some u) × (u.cancelled ≡ true)
