-- ===== src/Smallgame/Upstream.antt =====
-- framework/smallgame/gateway/server/upstream.go: the halls that a gateway knows, and the one that a
-- new client gets. The map is ranged over in the order of the list, which is any order. Counts and
-- times are not negative. The calls of a hall over grpc are parameters or events.
pub mod Selection
pub mod Peers
mod Tests
use gira.Prelude.{
  ℕ, Bool, true, false, ◌&&◌, not, Option, none, some, List, [], ◌∷◌, ltb, eqb, if◌then◌else◌,
}
use gira.Prelude.Keys.{lookup, store, remove, number_key}

-- `other` stands for the numbers that the enum does not name, which grpc passes on.
pub data HallStatus : Type 0 where
  unavailable ok other : HallStatus

pub record Upstream : Type 0 where
  pub id : ℕ
  pub full_name : List ℕ
  pub address : List ℕ
  pub has_client : Bool
  pub cancelled : Bool
  pub player_count : ℕ
  pub build_time : ℕ
  pub status : HallStatus

-- `gira.Peer`
pub record Peer : Type 0 where
  pub id : ℕ
  pub full_name : List ℕ
  pub address : List ℕ

-- The map, and the upstreams that run without standing in it.
pub record UpstreamMap : Type 0 where
  pub entries : List (ℕ × Upstream)
  pub loose : List Upstream

unfoldable pub new_upstream : Peer → Upstream
new_upstream peer = record {
  id = peer.id;
  full_name = peer.full_name;
  address = peer.address;
  has_client = false;
  cancelled = false;
  player_count = 0;
  build_time = 0;
  status = unavailable;
}

abbrev pub close : Upstream → Upstream
close server = record server { cancelled = true }

-- `LoadOrStore` keeps the upstream that is there. The new one serves all the same.
unfoldable pub added : UpstreamMap → Peer → Option Upstream → UpstreamMap
unfolding new_upstream
added servers peer (some last) = record {
  entries = store peer.id (close last) servers.entries;
  loose = new_upstream peer ∷ servers.loose;
}
added servers peer none = record servers {
  entries = store peer.id (new_upstream peer) servers.entries;
}

unfoldable pub on_peer_add : UpstreamMap → Peer → UpstreamMap
unfolding added
on_peer_add servers peer = added servers peer (lookup peer.id servers.entries)

-- `LoadAndDelete`
abbrev pub deleted : UpstreamMap → Peer → Option Upstream → UpstreamMap
deleted servers peer (some last) = record {
  entries = remove peer.id servers.entries;
  loose = close last ∷ servers.loose;
}
deleted servers peer none = servers

unfoldable pub on_peer_delete : UpstreamMap → Peer → UpstreamMap
on_peer_delete servers peer = deleted servers peer (lookup peer.id servers.entries)

-- A change of an upstream that stands in the map.
abbrev pub changed : ℕ → (Upstream → Upstream) → UpstreamMap → Option Upstream → UpstreamMap
changed id change servers (some server) = record servers {
  entries = store id (change server) servers.entries;
}
changed id change servers none = servers

abbrev pub at_entry : ℕ → (Upstream → Upstream) → UpstreamMap → UpstreamMap
at_entry id change servers = changed id change servers (lookup id servers.entries)

unfoldable pub on_peer_update : UpstreamMap → Peer → UpstreamMap
on_peer_update servers peer =
    at_entry peer.id (λ last. record last { address = peer.address }) servers

-- What the goroutine of an upstream does to it: its client is there, a heartbeat is answered, the
-- stream ends, or the goroutine returns.
abbrev pub connected : ℕ → Upstream → Upstream
connected build_time server = record server { has_client = true; build_time = build_time }

abbrev pub beaten : ℕ → HallStatus → Upstream → Upstream
beaten player_count status server = record server { player_count = player_count; status = status }

abbrev pub stream_ended : Upstream → Upstream
stream_ended server = record server { status = unavailable }

abbrev pub exited : Upstream → Upstream
exited server = record server { has_client = false; cancelled = true }

abbrev pub newer : ℕ → Upstream → ℕ
newer most server =
    if server.has_client && ltb most server.build_time then server.build_time else most

-- The first pass of `SelectPeer`.
unfoldable pub max_build_time : ℕ → List (ℕ × Upstream) → ℕ
max_build_time most [] = most
max_build_time most ((k, server) ∷ peers) = max_build_time (newer most server) peers

-- 0xffffffff
abbrev pub min_player_count : Option Upstream → ℕ
min_player_count none = 4294967295
min_player_count (some server) = server.player_count

abbrev pub is_better : ℕ → Option Upstream → Upstream → Bool
is_better newest selected server =
    server.has_client
    && (eqb server.build_time newest
        && (ltb server.player_count (min_player_count selected) && not server.cancelled))

abbrev pub better : ℕ → Option Upstream → Upstream → Option Upstream
better newest selected server = if is_better newest selected server then some server else selected

-- The second pass.
unfoldable pub min_player : ℕ → Option Upstream → List (ℕ × Upstream) → Option Upstream
min_player newest selected [] = selected
min_player newest selected ((k, server) ∷ peers) =
    min_player newest (better newest selected server) peers

-- What a hall answers to `HealthCheck`, or `none` for an error.
abbrev pub is_ok : Option HallStatus → Bool
is_ok (some ok) = true
is_ok _ = false

-- `HealthCheck` with the answer of the hall: the status is kept, if there is one.
abbrev pub answered : Upstream → Option HallStatus → Upstream × Bool
answered server none = (server, false)
answered server (some status) = (record server { status = status }, is_ok (some status))

abbrev pub health_check : (Upstream → Option HallStatus) → Upstream → Upstream × Bool
health_check answer server =
    if server.has_client then answered server (answer server) else (server, false)

-- The end of `SelectPeer`. Only the status of the hall changes.
abbrev pub checked :
    (Upstream → Option HallStatus) → UpstreamMap → Option Upstream → UpstreamMap × Option Upstream
checked answer servers none = (servers, none)
checked answer servers (some server) =
    let (now, healthy) = health_check answer server in
    (
      at_entry server.id (λ last. record last { status = now.status }) servers,
      if healthy then some now else none,
    )

-- `SelectPeer`
unfoldable pub select_peer :
    (Upstream → Option HallStatus) → UpstreamMap → UpstreamMap × Option Upstream
unfolding max_build_time min_player
select_peer answer servers =
    checked answer servers (min_player (max_build_time 0 servers.entries) none servers.entries)
