-- ===== src/Relay/Route.antt =====
-- ChannelManager's routeMessage and advanceDirectDelivery.
use myqrlwallet_backend.Prelude.{
  ℕ, ◌+◌, ◌-◌, String, Bool, true, false, not, ◌&&◌, Option, none, some, List, [], ◌∷◌, ◌++◌, ltb,
  leb, str_eq, if◌then◌else◌, length, Dict.Dict,
}
use myqrlwallet_backend.Prelude.Dict
use myqrlwallet_backend.Relay.Types.{
  ClientType, same_type, other_type, Participant, RelayPayload, BufferedMessage, Channel,
  ChannelManager, Setup, World, RouteError, channel_not_found, channel_terminated,
  sender_not_in_channel, type_mismatch, replay_rejected, not_serializable, channel_capacity,
  ip_capacity, global_capacity, RouteResult, max_buffered_messages, modify,
}
use myqrlwallet_backend.Relay.Ledger.{
  ip_bytes, retain_buffered_bytes, release_buffered_bytes, reserve_direct_delivery,
  release_direct_delivery,
}
use myqrlwallet_backend.Relay.Join.{set_buffer, is_for}

abbrev pub refuse : Option String → RouteError → RouteResult
refuse slow e = record {
  target_socket_id = none;
  backpressured_socket_id = slow;
  buffered = false;
  error = some e;
}

abbrev pub direct_to : String → RouteResult
direct_to socket_id = record {
  target_socket_id = some socket_id;
  backpressured_socket_id = none;
  buffered = false;
  error = none;
}

abbrev pub buffered_for : Option String → RouteResult
buffered_for slow = record {
  target_socket_id = none;
  backpressured_socket_id = slow;
  buffered = true;
  error = none;
}

-- `seq <= (seqNumbers.get(sender) ?? -1)`
unfoldable pub is_replay : Option ℕ → Option ℕ → Bool
is_replay none last = false
is_replay (some seq) none = false
is_replay (some seq) (some last) = leb seq last

abbrev pub record_seq : String → Option ℕ → Channel → Channel
record_seq sender none c = c
record_seq sender (some seq) c = record c { seq_numbers = Dict.put sender seq c.seq_numbers }

-- The first participant other than the sender.
unfoldable pub counterparty : String → Dict Participant → Option String
counterparty sender [] = none
counterparty sender ((sid, p) ∷ ps) = if str_eq sid sender then counterparty sender ps else some sid

-- The three byte budgets of a direct delivery, none of which may be passed.
unfoldable pub fits_direct : Setup → ℕ → String → ℕ → ChannelManager → Bool
fits_direct s r source_ip size m =
    let c = m.heap r in
    leb (c.buffered_bytes + c.direct_inflight_bytes + size) s.max_bytes_per_channel
    && leb (ip_bytes source_ip m + size) s.max_bytes_per_ip
    && leb (m.total_buffered_bytes + m.total_direct_inflight_bytes + size) s.max_bytes_global

-- The entry that the message-count cap evicts.
unfoldable pub oldest_over_cap : List BufferedMessage → Option BufferedMessage
oldest_over_cap [] = none
oldest_over_cap (msg ∷ msgs) =
    if leb max_buffered_messages (length (msg ∷ msgs)) then some msg else none

abbrev pub shift : List BufferedMessage → List BufferedMessage
shift [] = []
shift (msg ∷ msgs) = msgs

abbrev pub oldest_size : Option BufferedMessage → ℕ
oldest_size none = 0
oldest_size (some msg) = msg.size_bytes

abbrev pub oldest_size_of : String → Option BufferedMessage → ℕ
oldest_size_of ip none = 0
oldest_size_of ip (some msg) = if str_eq msg.source_ip ip then msg.size_bytes else 0

-- `a - b + c` of the source is `a + c - b` here: no difference there is negative that passes.
unfoldable pub over_budget :
    Setup → ℕ → String → ℕ → Option BufferedMessage → ChannelManager → Option RouteError
over_budget s r source_ip size oldest m =
    let c = m.heap r in
    if ltb s.max_bytes_per_channel
      (c.buffered_bytes + c.direct_inflight_bytes + size - oldest_size oldest)
    then some channel_capacity
    else if ltb s.max_bytes_per_ip (ip_bytes source_ip m + size - oldest_size_of source_ip oldest)
    then some ip_capacity
    else if ltb s.max_bytes_global
        (m.total_buffered_bytes + m.total_direct_inflight_bytes + size - oldest_size oldest)
    then some global_capacity
    else none

unfoldable pub drop_oldest : ℕ → Option BufferedMessage → ChannelManager → ChannelManager
drop_oldest r none m = m
drop_oldest r (some msg) m =
    release_buffered_bytes r msg (modify r (λ c. set_buffer (shift c.message_buffer) c) m)

abbrev pub push : BufferedMessage → Channel → Channel
push msg c = record c { message_buffer = c.message_buffer ++ msg ∷ [] }

unfoldable pub buffer_message :
    World
    → ℕ
    → String
    → Option String
    → ClientType
    → RelayPayload
    → String
    → ℕ
    → Option BufferedMessage
    → ChannelManager
    → ChannelManager × RouteResult
buffer_message w r sender slow target payload source_ip size oldest m =
    let msg : BufferedMessage = record {
      payload = payload;
      target_client_type = target;
      timestamp = w.now;
      size_bytes = size;
      source_ip = source_ip;
    } in
    let pushed = retain_buffered_bytes r msg (modify r (push msg) (drop_oldest r oldest m)) in
    (modify r (record_seq sender payload.seq) pushed, buffered_for slow)

-- The offline path: the message is buffered under the budgets.
unfoldable pub route_to_buffer :
    Setup
    → World
    → ℕ
    → String
    → Option String
    → ClientType
    → RelayPayload
    → String
    → ℕ
    → ChannelManager
    → ChannelManager × RouteResult
route_to_buffer s w r sender slow target payload source_ip size m =
    let oldest = oldest_over_cap (m.heap r).message_buffer in
    elim (over_budget s r source_ip size oldest m) [
      | some e ↦ (m, refuse slow e)
      | none ↦ buffer_message w r sender slow target payload source_ip size oldest m
    ]

unfoldable pub deliver_directly :
    ℕ → String → String → RelayPayload → String → ℕ → ChannelManager → ChannelManager × RouteResult
deliver_directly r sender target payload source_ip size m =
    let reserved =
      reserve_direct_delivery target
        (record { channel = r; source_ip = source_ip; size_bytes = size }) m in
    (modify r (record_seq sender payload.seq) reserved, direct_to target)

unfoldable pub can_deliver : Setup → World → ℕ → String → String → ℕ → ChannelManager → Bool
unfolding fits_direct
can_deliver s w r target source_ip size m =
    w.can_socket_receive target
    && not (Dict.has target m.direct_deliveries)
    && fits_direct s r source_ip size m

-- From the size of the payload on.
unfoldable pub dispatch :
    Setup
    → World
    → ℕ
    → String
    → ClientType
    → RelayPayload
    → String
    → ℕ
    → ChannelManager
    → ChannelManager × RouteResult
dispatch s w r sender ct payload source_ip size m =
    elim (counterparty sender (m.heap r).participants) [
      | none ↦ route_to_buffer s w r sender none (other_type ct) payload source_ip size m
      | some target ↦
          if can_deliver s w r target source_ip size m
          then deliver_directly r sender target payload source_ip size m
          else route_to_buffer s w r sender (some target) (other_type ct) payload source_ip size m
    ]

abbrev pub touch : ℕ → Channel → Channel
touch now c = record c { last_activity = now }

-- From the replay check on; the channel's activity is noted first.
unfoldable pub route_accepted :
    Setup
    → World
    → ℕ
    → String
    → ClientType
    → RelayPayload
    → String
    → ChannelManager
    → ChannelManager × RouteResult
route_accepted s w r sender ct payload source_ip m =
    let touched = modify r (touch w.now) m in
    if is_replay payload.seq (Dict.get sender (m.heap r).seq_numbers)
    then (touched, refuse none replay_rejected)
    else elim (s.serialized_size payload) [
      | none ↦ (touched, refuse none not_serializable)
      | some size ↦ dispatch s w r sender ct payload source_ip size touched
    ]

unfoldable pub route_message :
    Setup
    → World
    → String
    → String
    → RelayPayload
    → String
    → ChannelManager
    → ChannelManager × RouteResult
route_message s w channel_id sender payload source_ip m = elim (Dict.get channel_id m.channels) [
  | none ↦ (m, refuse none channel_not_found)
  | some r ↦
      if (m.heap r).terminated
      then (m, refuse none channel_terminated)
      else elim (Dict.get sender (m.heap r).participants) [
        | none ↦ (m, refuse none sender_not_in_channel)
        | some p ↦
            if same_type payload.client_type p.client_type
            then route_accepted s w r sender p.client_type payload source_ip m
            else (m, refuse none type_mismatch)
      ]
]

-- `findIndex` and `splice`: the first message for a type, with the others.
unfoldable pub take_first :
    ClientType → List BufferedMessage → Option (BufferedMessage × List BufferedMessage)
take_first ct [] = none
take_first ct (msg ∷ msgs) =
    if is_for ct msg
    then some (msg, msgs)
    else elim (take_first ct msgs) [ none ↦ none | some (found, rest) ↦ some (found, msg ∷ rest) ]

-- The message moves from the buffer to the socket's reservation.
unfoldable pub promote :
    String → ℕ → BufferedMessage → List BufferedMessage → ChannelManager → ChannelManager
promote socket_id r next rest m =
    reserve_direct_delivery socket_id
      (record { channel = r; source_ip = next.source_ip; size_bytes = next.size_bytes })
      (release_buffered_bytes r next (modify r (set_buffer rest) m))

unfoldable pub advance_in :
    String → ℕ → Option Participant → ChannelManager → ChannelManager × Option RelayPayload
advance_in socket_id r none m = (m, none)
advance_in socket_id r (some p) m =
    if (m.heap r).terminated
    then (m, none)
    else elim (take_first p.client_type (m.heap r).message_buffer) [
      | none ↦ (m, none)
      | some (next, rest) ↦ (promote socket_id r next rest m, some next.payload)
    ]

unfoldable pub advance_direct_delivery :
    String → ChannelManager → ChannelManager × Option RelayPayload
advance_direct_delivery socket_id m = elim (Dict.get socket_id m.direct_deliveries) [
  | none ↦ (m, none)
  | some res ↦
      advance_in socket_id res.channel (Dict.get socket_id (m.heap res.channel).participants)
        (release_direct_delivery socket_id m)
]

abbrev pub has_direct_delivery : String → ChannelManager → Bool
has_direct_delivery socket_id m = Dict.has socket_id m.direct_deliveries
