-- ===== src/Relay/Run.antt =====
-- The calls that the relay makes on its channel manager, and runs of them.
use myqrlwallet_backend.Prelude.{String, Option, List, [], ◌∷◌}
use myqrlwallet_backend.Relay.Types.{ClientType, RelayPayload, ChannelManager, Setup, World}
use myqrlwallet_backend.Relay.Ledger.{release_direct_delivery}
use myqrlwallet_backend.Relay.Join.{join}
use myqrlwallet_backend.Relay.Lifecycle.{close, leave, cleanup}
use myqrlwallet_backend.Relay.Route.{route_message, advance_direct_delivery}

pub data Call : Type 0 where
  joins : String → String → ClientType → Option String → Option String → Call
  closes : String → Call
  leaves : String → String → Call
  routes : String → String → RelayPayload → String → Call
  releases advances : String → Call
  cleans : Call

unfoldable pub step : Setup → World × Call → ChannelManager → ChannelManager
step s (w, joins channel_id socket_id ct k ip) m = (join s w channel_id socket_id ct k ip m).0
step s (w, closes channel_id) m = (close w.now channel_id m).0
step s (w, leaves socket_id channel_id) m = (leave w.now socket_id channel_id m).0
step s (w, routes channel_id sender payload ip) m =
    (route_message s w channel_id sender payload ip m).0
step s (w, releases socket_id) m = release_direct_delivery socket_id m
step s (w, advances socket_id) m = (advance_direct_delivery socket_id m).0
step s (w, cleans) m = cleanup w.now m

unfoldable pub run : Setup → List (World × Call) → ChannelManager → ChannelManager
run s [] m = m
run s (c ∷ cs) m = run s cs (step s c m)
