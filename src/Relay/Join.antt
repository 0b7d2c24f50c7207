-- ===== src/Relay/Join.antt =====
-- ChannelManager.join.
use myqrlwallet_backend.Prelude.{
  ℕ, suc, String, Bool, true, false, not, ◌&&◌, ◌||◌, Option, none, some, List, [], ◌∷◌, map, ltb,
  leb, ◌==◌, str_eq, if◌then◌else◌, update, keep_if, length, is_some, Dict.Dict,
}
use Prim.Native.Char.{code}
use myqrlwallet_backend.Prelude.Dict
use myqrlwallet_backend.Relay.Types.{
  ClientType, dapp, same_type, Participant, RelayPayload, BufferedMessage, Channel, ChannelManager,
  Setup, World, JoinError, key_not_base64, key_empty, key_too_large, too_many_channels,
  key_required, type_changed, channel_full, key_mismatch, already_connected, JoinSuccess,
  JoinResult, success, failure, max_participants, max_public_key_bytes, modify,
}
use myqrlwallet_backend.Relay.Ledger.{release_messages, release_direct_delivery}

is_base64_char : ℕ → Bool
is_base64_char c =
    leb b'A' c && leb c b'Z'
    || leb b'a' c && leb c b'z'
    || leb b'0' c && leb c b'9'
    || c == b'+'
    || c == b'/'

-- What may stand behind the last character of the class: at most two `=`.
is_padding : String → Bool
is_padding s = str_eq s "" || str_eq s "=" || str_eq s "=="

-- `[A-Za-z0-9+/]*={0,2}$`
base64_rest : String → Bool
base64_rest String.[] = true
base64_rest (String.◌∷◌ c s) =
    let rest = base64_rest s in
    if is_base64_char (code c) then rest else is_padding (String.◌∷◌ c s)

-- `/^[A-Za-z0-9+/]+={0,2}$/`
unfoldable pub is_base64 : String → Bool
unfolding is_base64_char is_padding base64_rest
is_base64 String.[] = false
is_base64 (String.◌∷◌ c s) = is_base64_char (code c) && base64_rest s

pub data KeyResult : Type 0 where
  key : Option String → KeyResult
  refused : JoinError → KeyResult

decoded_key : Setup → List ℕ → KeyResult
decoded_key s bytes =
    if length bytes == 0
    then refused key_empty
    else if ltb max_public_key_bytes (length bytes)
    then refused key_too_large
    else key (some (s.encode_base64 bytes))

-- The key that a dApp presents, in canonical base64; `none` for a wallet or without a key.
unfoldable pub canonical_public_key : Setup → ClientType → Option String → KeyResult
unfolding decoded_key
canonical_public_key s dapp (some text) =
    if str_eq text ""
    then key none
    else if is_base64 text
    then decoded_key s (s.decode_base64 text)
    else refused key_not_base64
canonical_public_key s _ _ = key none

abbrev pub created_by : String → Channel → Bool
created_by ip c = not c.terminated && elim c.creator_ip [ none ↦ false | some jp ↦ str_eq jp ip ]

unfoldable pub count_live_channels_created_by : String → ChannelManager → ℕ
count_live_channels_created_by ip m =
    length (keep_if (λ (e : String × ℕ). created_by ip (m.heap e.1)) m.channels)

unfoldable pub over_channel_quota : Setup → Option String → ChannelManager → Bool
unfolding count_live_channels_created_by
over_channel_quota s none m = false
over_channel_quota s (some ip) m = elim s.max_channels_per_ip [
  | none ↦ false
  | some most ↦ leb most (count_live_channels_created_by ip m)
]

abbrev pub new_channel : ℕ → Option String → Channel
new_channel now ip = record {
  participants = [];
  last_activity = now;
  message_buffer = [];
  buffered_bytes = 0;
  direct_inflight_bytes = 0;
  seq_numbers = [];
  public_key = none;
  terminated = false;
  terminated_at = 0;
  creator_ip = ip;
}

unfoldable pub create_channel : String → ℕ → Option String → ChannelManager → ChannelManager
create_channel channel_id now ip m = record m {
  heap = update m.next_ref (new_channel now ip) m.heap;
  next_ref = suc m.next_ref;
  channels = Dict.put channel_id m.next_ref m.channels;
}

-- The first participant of the same type on another socket.
unfoldable pub find_rival : String → ClientType → Dict Participant → Option String
find_rival socket_id ct [] = none
find_rival socket_id ct ((sid, p) ∷ ps) =
    if same_type p.client_type ct && not (str_eq sid socket_id)
    then some sid
    else find_rival socket_id ct ps

abbrev pub remove_participant : String → Channel → Channel
remove_participant sid c = record c {
  participants = Dict.delete sid c.participants;
  seq_numbers = Dict.delete sid c.seq_numbers;
}

unfoldable pub evict_stale : ℕ → String → ChannelManager → ChannelManager
evict_stale r sid m = release_direct_delivery sid (modify r (remove_participant sid) m)

abbrev pub is_for : ClientType → BufferedMessage → Bool
is_for ct msg = same_type msg.target_client_type ct

abbrev pub admit_participant : ℕ → String → ClientType → Channel → Channel
admit_participant now socket_id ct c = record c {
  participants = Dict.put socket_id (record { client_type = ct; joined_at = now }) c.participants;
  last_activity = now;
}

abbrev pub set_buffer : List BufferedMessage → Channel → Channel
set_buffer msgs c = record c { message_buffer = msgs }

abbrev pub payloads : List BufferedMessage → List RelayPayload
payloads = map λ msg. msg.payload

abbrev pub not_self : String → String × Participant → Bool
not_self socket_id e = not (str_eq e.0 socket_id)

-- The types of the other participants.
unfoldable pub roster : String → Dict Participant → List ClientType
roster socket_id ps =
    map (λ (e : String × Participant). e.1.client_type) (keep_if (not_self socket_id) ps)

-- The participant is put in the channel, and its buffered messages are handed over.
unfoldable pub complete_join :
    World → ℕ → String → ClientType → ChannelManager → ChannelManager × JoinResult
unfolding roster
complete_join w r socket_id ct m =
    let joined = modify r (admit_participant w.now socket_id ct) m in
    let buffer = (joined.heap r).message_buffer in
    let mine = keep_if (is_for ct) buffer in
    let rest = keep_if (λ msg. not (is_for ct msg)) buffer in
    let m' = modify r (set_buffer rest) (release_messages r mine joined) in
    let c = m'.heap r in
    (
      m',
      success (record {
        buffered_messages = payloads mine;
        channel_public_key = c.public_key;
        participants = roster socket_id c.participants;
        terminated = c.terminated;
      }),
    )

abbrev pub set_public_key : Option String → Channel → Channel
set_public_key k c = record c { public_key = k }

-- The binding of the dApp's key: the first join sets it, a later one has to match.
unfoldable pub bind_key : Option String → ℕ → ChannelManager → Option ChannelManager
bind_key none r m = some m
bind_key (some k) r m = elim (m.heap r).public_key [
  | none ↦ some (modify r (set_public_key (some k)) m)
  | some bound ↦ if str_eq bound k then some m else none
]

unfoldable pub is_full : String → Channel → Bool
is_full socket_id c =
    not (Dict.has socket_id c.participants) && leb max_participants (length c.participants)

-- From the check for a full channel on.
unfoldable pub seat :
    World → ℕ → String → ClientType → Option String → ChannelManager → ChannelManager × JoinResult
seat w r socket_id ct k m =
    if is_full socket_id (m.heap r) then (m, failure channel_full) else elim (bind_key k r m) [
      | none ↦ (m, failure key_mismatch)
      | some m' ↦ complete_join w r socket_id ct m'
    ]

-- A participant of the same type on another socket is replaced only if that socket is dead.
unfoldable pub replace_stale :
    World → ℕ → String → ClientType → Option String → ChannelManager → ChannelManager × JoinResult
replace_stale w r socket_id ct k m = elim (find_rival socket_id ct (m.heap r).participants) [
  | none ↦ seat w r socket_id ct k m
  | some sid ↦
      if w.is_socket_active sid
      then (m, failure (already_connected ct))
      else seat w r socket_id ct k (evict_stale r sid m)
]

abbrev pub lacks_key : ClientType → Option String → Channel → Bool
lacks_key ct k c = same_type ct dapp && is_some c.public_key && not (is_some k)

abbrev pub changes_type : String → ClientType → Channel → Bool
changes_type socket_id ct c = elim (Dict.get socket_id c.participants) [
  | none ↦ false
  | some p ↦ not (same_type p.client_type ct)
]

-- The checks on a live channel, which are the same for a channel that this join has made.
unfoldable pub join_channel :
    World → ℕ → String → ClientType → Option String → ChannelManager → ChannelManager × JoinResult
join_channel w r socket_id ct k m =
    if lacks_key ct k (m.heap r)
    then (m, failure key_required)
    else if changes_type socket_id ct (m.heap r)
    then (m, failure type_changed)
    else replace_stale w r socket_id ct k m

abbrev pub tombstone_reply : JoinSuccess
tombstone_reply = record {
  buffered_messages = [];
  channel_public_key = none;
  participants = [];
  terminated = true;
}

-- From the lookup of the channel on.
unfoldable pub join_with_key :
    Setup
    → World
    → String
    → String
    → ClientType
    → Option String
    → Option String
    → ChannelManager
    → ChannelManager × JoinResult
join_with_key s w channel_id socket_id ct k ip m = elim (Dict.get channel_id m.channels) [
  | none ↦
      if over_channel_quota s ip m
      then (m, failure too_many_channels)
      else join_channel w m.next_ref socket_id ct k (create_channel channel_id w.now ip m)
  | some r ↦
      if (m.heap r).terminated
      then (m, success tombstone_reply)
      else join_channel w r socket_id ct k m
]

unfoldable pub join :
    Setup
    → World
    → String
    → String
    → ClientType
    → Option String
    → Option String
    → ChannelManager
    → ChannelManager × JoinResult
join s w channel_id socket_id ct public_key ip m = elim (canonical_public_key s ct public_key) [
  | refused e ↦ (m, failure e)
  | key k ↦ join_with_key s w channel_id socket_id ct k ip m
]
