-- ===== src/Server/Tests.antt =====
-- The relay server on small inputs, and each theorem applied to one.
use myqrlwallet_backend.Prelude.{
  ℕ, ◌≤◌, ◌*◌, ◌≡◌, String, true, false, none, some, List, [], ◌∷◌, All, Dict.Dict, arith,
}
use myqrlwallet_backend.Prelude.Dict
use myqrlwallet_backend.Value.{Value, field, no_fields}
use myqrlwallet_backend.Server.Limits.{Bucket, RateLimitEntry, limit_of}
use myqrlwallet_backend.Server.Limits.Windows.{LimitEvent, allowed, During, allowed_bound}
use myqrlwallet_backend.Relay.Types.{wallet}
use myqrlwallet_backend.Server.Types.{ServerConfig, Turn, Connection, entering, new_server}
use myqrlwallet_backend.Server.Joining.{resume_join, fail_join}
use myqrlwallet_backend.Server.Answers.{Proceeds, join-Proceeds}
use myqrlwallet_backend.Server.Run.{SocketEvent, ServerEvent, serve}
use myqrlwallet_backend.Server.Counters.{IsCounted}
use myqrlwallet_backend.Server.Counters.Serving.{serve-IsCounted}

abbrev burst : List LimitEvent
burst =
    LimitEvent.checks 5 "1.1.1.1" Bucket.by_join
    ∷ LimitEvent.tidies 6
    ∷ LimitEvent.checks 7 "1.1.1.1" Bucket.by_join
    ∷ []

no_limits-IsDistinct : Dict.IsDistinct {V = RateLimitEntry} []
no_limits-IsDistinct = tt

burst-During : All (During "1.1.1.1" Bucket.by_join 5) burst
burst-During = ground arith

allowed_bound_example :
    (allowed "1.1.1.1" Bucket.by_join burst [] ≤ 2 * limit_of Bucket.by_join)
    × (Dict.get {V = RateLimitEntry} "1.1.1.1" [] ≡ none
        → allowed "1.1.1.1" Bucket.by_join burst [] ≤ limit_of Bucket.by_join)
allowed_bound_example =
    allowed_bound "1.1.1.1" Bucket.by_join 5 burst [] no_limits-IsDistinct burst-During

abbrev server_config : ServerConfig
server_config = record {
  setup = record {
    max_channels_per_ip = some 3;
    max_bytes_per_channel = 1000;
    max_bytes_per_ip = 1500;
    max_bytes_global = 4000;
    decode_base64 = λ _. 1 ∷ 2 ∷ 3 ∷ [];
    encode_base64 = λ _. "AQID";
    serialized_size = λ _. some 100;
  };
  max_sockets_per_ip = 5;
  max_active_sockets = 100;
  max_active_channels = 10;
  message_size = λ _. some 100;
}

abbrev turn : ℕ → Turn
turn now = record {
  now = now;
  clients_count = 2;
  is_registered = λ _. true;
  is_connected = λ _. true;
  is_open = λ _. true;
  is_writable = λ _. true;
}

abbrev join_request : String → Value
join_request ct = Value.obj (
    field "channelId" (Value.str "c")
      (field "clientType" (Value.str ct) (field "publicKey" (Value.str "AQID") no_fields)))

abbrev message_request : Value
message_request = Value.obj (
    field "id" (Value.str "c")
      (field "message" (Value.str "sealed") (field "clientType" (Value.str "dapp") no_fields)))

-- A dApp and a wallet join a channel and a message goes from one to the other.
abbrev session : List (Turn × ServerEvent)
session =
    (turn 1, ServerEvent.connected "d" "1.1.1.1")
    ∷ (turn 2, ServerEvent.socket "d" (SocketEvent.join_channel (join_request "dapp")))
    ∷ (turn 3, ServerEvent.socket "d" SocketEvent.resumed)
    ∷ (turn 4, ServerEvent.connected "w" "2.2.2.2")
    ∷ (turn 5, ServerEvent.socket "w" (SocketEvent.join_channel (join_request "wallet")))
    ∷ (turn 6, ServerEvent.socket "w" SocketEvent.resumed)
    ∷ (turn 7, ServerEvent.socket "d" (SocketEvent.message message_request))
    ∷ (turn 8, ServerEvent.drained "w")
    ∷ (turn 9, ServerEvent.became_ready "w")
    ∷ []

serve-IsCounted_example :
    let srv = serve server_config session new_server in
    IsCounted server_config.max_sockets_per_ip srv.active_sockets_by_ip srv.connections
serve-IsCounted_example = serve-IsCounted server_config session

-- A wallet that waits for the room of its channel.
abbrev waiting : Connection
waiting = record {
  client_ip = "2.2.2.2";
  current_channel_id = none;
  released = false;
  stage =
      entering
        (record { channel_id = "c"; client_type = wallet; public_key = none; joined_room = true });
}

join-Proceeds_example :
    Proceeds "w" 3 (resume_join server_config (turn 6) "w" waiting new_server)
    × Proceeds "w" 3 (fail_join (turn 6) "w" waiting new_server)
join-Proceeds_example = join-Proceeds server_config (turn 6) "w" waiting new_server (omega arith)
