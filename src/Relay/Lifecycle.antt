-- ===== src/Relay/Lifecycle.antt =====
-- ChannelManager's close, leave, cleanup, destroy and its queries.
use myqrlwallet_backend.Prelude.{
  ℕ, ◌-◌, String, Bool, true, false, not, ◌&&◌, Option, none, some, List, [], ◌∷◌, ◌++◌, ltb, ◌==◌,
  if◌then◌else◌, keep_if, length, sum_by, Dict.Dict,
}
use myqrlwallet_backend.Prelude.Dict
use myqrlwallet_backend.Relay.Types.{
  Participant, BufferedMessage, Channel, ChannelManager, modify, channel_ttl_ms, buffer_ttl_ms,
  tombstone_ttl_ms, max_tombstones,
}
use myqrlwallet_backend.Relay.Ledger.{release_messages}
use myqrlwallet_backend.Relay.Join.{new_channel, remove_participant, set_buffer}

unfoldable pub new_manager : ChannelManager
new_manager = record {
  heap = λ _. new_channel 0 none;
  next_ref = 0;
  channels = [];
  terminated_order = [];
  total_buffered_bytes = 0;
  total_direct_inflight_bytes = 0;
  direct_deliveries = [];
  buffered_bytes_by_ip = [];
}

abbrev pub terminate : ℕ → Channel → Channel
terminate now c = record c { terminated = true; terminated_at = now; last_activity = now }

abbrev pub drop_heavy_state : Channel → Channel
drop_heavy_state c = record c {
  message_buffer = [];
  participants = [];
  seq_numbers = [];
  public_key = none;
}

abbrev pub is_tombstone : String → ChannelManager → Bool
is_tombstone channel_id m = elim (Dict.get channel_id m.channels) [
  | none ↦ false
  | some r ↦ (m.heap r).terminated
]

abbrev pub delete_channel : String → ChannelManager → ChannelManager
delete_channel channel_id m = record m { channels = Dict.delete channel_id m.channels }

-- The eviction loop of `close`: the oldest entries go until the queue is within its cap.
unfoldable pub evict_tombstones : List String → ChannelManager → ChannelManager
evict_tombstones [] m = record m { terminated_order = [] }
evict_tombstones (oldest ∷ order) m =
    let rest =
      evict_tombstones order (if is_tombstone oldest m then delete_channel oldest m else m) in
    if ltb max_tombstones (length (oldest ∷ order))
    then rest
    else record m { terminated_order = oldest ∷ order }

-- The change of the closed channel itself.
unfoldable pub bury : ℕ → ℕ → ChannelManager → ChannelManager
bury now r m =
    let marked = modify r (terminate now) m in
    modify r drop_heavy_state (release_messages r (marked.heap r).message_buffer marked)

unfoldable pub close : ℕ → String → ChannelManager → ChannelManager × Bool
close now channel_id m = elim (Dict.get channel_id m.channels) [
  | none ↦ (m, false)
  | some r ↦
      if (m.heap r).terminated
      then (m, false)
      else (evict_tombstones (m.terminated_order ++ channel_id ∷ []) (bury now r m), true)
]

abbrev pub depart : ℕ → String → Channel → Channel
depart now sid c = record (remove_participant sid c) { last_activity = now }

unfoldable pub leave : ℕ → String → String → ChannelManager → ChannelManager × Option Participant
leave now socket_id channel_id m = elim (Dict.get channel_id m.channels) [
  | none ↦ (m, none)
  | some r ↦ elim (Dict.get socket_id (m.heap r).participants) [
    | none ↦ (m, none)
    | some p ↦ (modify r (depart now socket_id) m, some p)
  ]
]

abbrev pub is_fresh : ℕ → BufferedMessage → Bool
is_fresh now msg = ltb (now - msg.timestamp) buffer_ttl_ms

-- The expiry of a channel's buffered messages.
unfoldable pub expire_messages : ℕ → ℕ → ChannelManager → ChannelManager
expire_messages now r m =
    let buffer = (m.heap r).message_buffer in
    let stale = keep_if (λ msg. not (is_fresh now msg)) buffer in
    modify r (set_buffer (keep_if (is_fresh now) buffer)) (release_messages r stale m)

abbrev pub is_expired : ℕ → Channel → Bool
is_expired now c =
    if c.terminated
    then ltb tombstone_ttl_ms (now - c.terminated_at)
    else length c.participants == 0 && ltb channel_ttl_ms (now - c.last_activity)

unfoldable pub cleanup_channel : ℕ → String → ℕ → ChannelManager → ChannelManager
unfolding expire_messages
cleanup_channel now channel_id r m =
    let m' = expire_messages now r m in
    if is_expired now (m'.heap r) then delete_channel channel_id m' else m'

unfoldable pub cleanup_channels : ℕ → Dict ℕ → ChannelManager → ChannelManager
cleanup_channels now [] m = m
cleanup_channels now ((channel_id, r) ∷ es) m =
    cleanup_channels now es (cleanup_channel now channel_id r m)

unfoldable pub cleanup : ℕ → ChannelManager → ChannelManager
cleanup now m =
    let m' = cleanup_channels now m.channels m in
    record m' { terminated_order = keep_if (λ id. Dict.has id m'.channels) m'.terminated_order }

unfoldable pub destroy : ChannelManager → ChannelManager
destroy m = record m {
  total_buffered_bytes = 0;
  total_direct_inflight_bytes = 0;
  direct_deliveries = [];
  buffered_bytes_by_ip = [];
}

pub record ChannelInfo : Type 0 where
  pub participant_count : ℕ
  pub buffered_messages : ℕ
  pub last_activity : ℕ
  pub age : ℕ

unfoldable pub get_channel_info : ℕ → String → ChannelManager → Option ChannelInfo
get_channel_info now channel_id m = elim (Dict.get channel_id m.channels) [
  | none ↦ none
  | some r ↦
      let c = m.heap r in
      some (record {
        participant_count = length c.participants;
        buffered_messages = length c.message_buffer;
        last_activity = c.last_activity;
        age = now - c.last_activity;
      })
]

find_in : String → ChannelManager → Dict ℕ → Option String
find_in socket_id m [] = none
find_in socket_id m ((channel_id, r) ∷ es) =
    if Dict.has socket_id (m.heap r).participants then some channel_id else find_in socket_id m es

unfoldable pub find_channel_by_socket : String → ChannelManager → Option String
unfolding find_in
find_channel_by_socket socket_id m = find_in socket_id m m.channels

pub record ChannelStats : Type 0 where
  pub active_channels : ℕ
  pub total_participants : ℕ
  pub total_buffered_messages : ℕ
  pub total_buffered_bytes : ℕ
  pub total_direct_inflight_bytes : ℕ

unfoldable pub get_stats : ChannelManager → ChannelStats
get_stats m = record {
  active_channels = length m.channels;
  total_participants = sum_by (λ (e : String × ℕ). length (m.heap e.1).participants) m.channels;
  total_buffered_messages =
      sum_by (λ (e : String × ℕ). length (m.heap e.1).message_buffer) m.channels;
  total_buffered_bytes = m.total_buffered_bytes;
  total_direct_inflight_bytes = m.total_direct_inflight_bytes;
}

unfoldable pub get_active_channel_count : ChannelManager → ℕ
get_active_channel_count m =
    length (keep_if (λ (e : String × ℕ). not (m.heap e.1).terminated) m.channels)
