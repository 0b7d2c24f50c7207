-- ===== src/Relay/Accounting/Runs.antt =====
-- routeMessage, advanceDirectDelivery and runs of calls keep the ledger.
use myqrlwallet_backend.Prelude.{
  ℕ, ◌<◌, ◌≡◌, refl, inl, inr, String, Option, none, some, List, [], ◌∷◌, if◌then◌else◌, sum_by,
  arith, Dict.Dict, Option-cases, Bool-cases,
}
use myqrlwallet_backend.Prelude.Dict
use myqrlwallet_backend.Relay.Types.{
  ClientType, same_type, Participant, BufferedMessage, RelayPayload, ChannelManager, Setup, World,
  RouteError, modify,
}
use myqrlwallet_backend.Relay.Ledger.{
  release_direct_delivery, finish_reservation, release_buffered_bytes,
}
use myqrlwallet_backend.Relay.Ledger.Laws.{bytes_of_ip, release_buffered_bytes-Releases}
use myqrlwallet_backend.Relay.Join.{set_buffer, is_for}
use myqrlwallet_backend.Relay.Route.{
  refuse, touch, route_accepted, route_message, take_first, promote, advance_in,
  advance_direct_delivery,
}
use myqrlwallet_backend.Relay.Accounting.{IsAccounted, modify-IsAccounted}
use myqrlwallet_backend.Relay.Accounting.Reservations.{
  release_direct-IsAccounted, reserve-IsAccounted,
}
use myqrlwallet_backend.Relay.Accounting.Buffers.{
  Splits, set_then_release_one, set_buffer-SetsBuffer,
}
use myqrlwallet_backend.Relay.Accounting.Joins.{get-lt-next_ref}
use myqrlwallet_backend.Relay.Lifecycle.{new_manager}
use myqrlwallet_backend.Relay.Run.{
  Call, joins, closes, leaves, routes, releases, advances, cleans, step, run,
}
use myqrlwallet_backend.Relay.Accounting.Joins.{join-IsAccounted, release_direct-next_ref}
use myqrlwallet_backend.Relay.Accounting.Closes.{
  close-IsAccounted, leave-IsAccounted, cleanup-IsAccounted, new_manager-IsAccounted,
}
use myqrlwallet_backend.Relay.Accounting.Routes.{dispatch-IsAccounted}

route_accepted-IsAccounted :
    (s : Setup) (w : World) (r : ℕ) (sender : String) (ct : ClientType) (payload : RelayPayload)
    (ip : String) (m : ChannelManager)
    → r < m.next_ref
    → IsAccounted m
    → IsAccounted (route_accepted s w r sender ct payload ip m).0
unfolding route_accepted
route_accepted-IsAccounted s w r sender ct payload ip m h a =
    let touched = modify r (touch w.now) m in
    let kept = modify-IsAccounted r (touch w.now) m (λ c. (refl, refl, refl)) h a in
    elim (Option-cases (s.serialized_size payload)) [
      | inl e ↦ ground (arith, e, kept)
      | inr (size, e) ↦
          ground
            (arith, e, kept, dispatch-IsAccounted s w r sender ct payload ip size touched h kept)
    ]

route_member-IsAccounted :
    (s : Setup) (w : World) (r : ℕ) (sender : String) (payload : RelayPayload) (ip : String)
    (m : ChannelManager) (p : Participant)
    → r < m.next_ref
    → IsAccounted m
    → IsAccounted
        (if same_type payload.client_type p.client_type
          then route_accepted s w r sender p.client_type payload ip m
          else (m, refuse none RouteError.type_mismatch)).0
route_member-IsAccounted s w r sender payload ip m p h a =
    ground (arith, route_accepted-IsAccounted s w r sender p.client_type payload ip m h a)

route_message-IsAccounted :
    (s : Setup) (w : World) (channel_id sender : String) (payload : RelayPayload) (ip : String)
    (m : ChannelManager)
    → IsAccounted m
    → IsAccounted (route_message s w channel_id sender payload ip m).0
unfolding route_message
route_message-IsAccounted s w channel_id sender payload ip m a =
    elim (Option-cases (Dict.get channel_id m.channels)) [
      | inl e ↦ rw (e, route_message) a
      | inr (r, e) ↦ elim (Option-cases (Dict.get sender (m.heap r).participants)) [
        | inl f ↦ ground (arith, e, f)
        | inr (p, f) ↦ ground (
          arith,
          e,
          f,
          route_member-IsAccounted s w r sender payload ip m p (get-lt-next_ref channel_id m a e) a,
        )
      ]
    ]

pub take_first-Splits :
    (ct : ClientType) (buffer rest : List BufferedMessage) (msg : BufferedMessage)
    → take_first ct buffer ≡ some (msg, rest)
    → Splits msg.size_bytes (λ ip. bytes_of_ip ip msg) buffer rest
unfolding take_first sum_by
take_first-Splits ct [] rest msg e = cc
take_first-Splits ct (first ∷ buffer) rest msg e = elim (Bool-cases (is_for ct first)) [
  | inl hit ↦ record { all = ground (arith, hit); each = λ ip. ground (arith, hit) }
  | inr miss ↦ elim (Option-cases (take_first ct buffer)) [
    | inl q ↦ ground (arith, miss, q)
    | inr (found, q) ↦
        let later = take_first-Splits ct buffer found.1 found.0 q in
        record {
          all = ground (arith, miss, q, later.all);
          each = λ ip. ground (arith, miss, q, later.each ip);
        }
  ]
]

promote-IsAccounted :
    (socket_id : String) (r : ℕ) (ct : ClientType) (next : BufferedMessage)
    (rest : List BufferedMessage) (m : ChannelManager)
    → take_first ct (m.heap r).message_buffer ≡ some (next, rest)
    → Dict.get socket_id m.direct_deliveries ≡ none
    → r < m.next_ref
    → IsAccounted m
    → IsAccounted (promote socket_id r next rest m)
unfolding promote
promote-IsAccounted socket_id r ct next rest m e free h a =
    let taken = modify r (set_buffer rest) m in
    let same = (release_buffered_bytes-Releases r next taken a.by_ip_distinct).elsewhere in
    reserve-IsAccounted socket_id
      (record { channel = r; source_ip = next.source_ip; size_bytes = next.size_bytes })
      (release_buffered_bytes r next taken) (rw same.direct_deliveries free) (rw same.next_ref h)
      (set_then_release_one r rest (set_buffer rest) m h (set_buffer-SetsBuffer rest) a next
        (take_first-Splits ct (m.heap r).message_buffer rest next e))

advance_in-IsAccounted :
    (socket_id : String) (r : ℕ) (p : Option Participant) (m : ChannelManager)
    → Dict.get socket_id m.direct_deliveries ≡ none
    → r < m.next_ref
    → IsAccounted m
    → IsAccounted (advance_in socket_id r p m).0
unfolding advance_in
advance_in-IsAccounted socket_id r none m free h a = a
advance_in-IsAccounted socket_id r (some p) m free h a =
    elim (Option-cases (take_first p.client_type (m.heap r).message_buffer)) [
      | inl e ↦ ground (arith, e)
      | inr (found, e) ↦
          ground
            (arith, e, promote-IsAccounted socket_id r p.client_type found.0 found.1 m e free h a)
    ]

-- A released socket has no reservation.
pub release_direct-free :
    (socket_id : String) (m : ChannelManager)
    → IsAccounted m
    → Dict.get socket_id (release_direct_delivery socket_id m).direct_deliveries ≡ none
unfolding release_direct_delivery finish_reservation
release_direct-free socket_id m a =
    ground (arith, Dict.get-delete_self socket_id m.direct_deliveries a.one_each)

advance-IsAccounted :
    (socket_id : String) (m : ChannelManager)
    → IsAccounted m
    → IsAccounted (advance_direct_delivery socket_id m).0
unfolding advance_direct_delivery
advance-IsAccounted socket_id m a = elim (Option-cases (Dict.get socket_id m.direct_deliveries)) [
  | inl e ↦ rw (e, advance_direct_delivery) a
  | inr (res, e) ↦ ground (
    arith,
    e,
    advance_in-IsAccounted socket_id res.channel
        (Dict.get socket_id (m.heap res.channel).participants) (release_direct_delivery socket_id m)
        (release_direct-free socket_id m a)
        (rw (release_direct-next_ref socket_id m)
          (Dict.All-get (λ d. d.channel < m.next_ref) socket_id m.direct_deliveries a.live e))
        (release_direct-IsAccounted socket_id m a),
  )
]

-- Every call of the relay on its channel manager keeps the ledger invariant.
pub step-IsAccounted :
    (s : Setup) (c : World × Call) (m : ChannelManager) → IsAccounted m → IsAccounted (step s c m)
unfolding step
step-IsAccounted s (w, joins channel_id socket_id ct k ip) m a =
    join-IsAccounted s w channel_id socket_id ct k ip m a
step-IsAccounted s (w, closes channel_id) m a = close-IsAccounted w.now channel_id m a
step-IsAccounted s (w, leaves socket_id channel_id) m a =
    leave-IsAccounted w.now socket_id channel_id m a
step-IsAccounted s (w, routes channel_id sender payload ip) m a =
    route_message-IsAccounted s w channel_id sender payload ip m a
step-IsAccounted s (w, releases socket_id) m a = release_direct-IsAccounted socket_id m a
step-IsAccounted s (w, advances socket_id) m a = advance-IsAccounted socket_id m a
step-IsAccounted s (w, cleans) m a = cleanup-IsAccounted w.now m a

pub run_from-IsAccounted :
    (s : Setup) (cs : List (World × Call)) (m : ChannelManager)
    → IsAccounted m
    → IsAccounted (run s cs m)
unfolding run
run_from-IsAccounted s [] m a = a
run_from-IsAccounted s (c ∷ cs) m a =
    run_from-IsAccounted s cs (step s c m) (step-IsAccounted s c m a)

-- After any sequence of calls on a new manager, at any times and with any sockets active or ready:
-- each channel's `bufferedBytes` is the bytes of its buffer and its `directInflightBytes` those of
-- its reservations; the two totals are the sums over all channels and over all reservations; and
-- the bytes held for an address are those of its buffered messages and its reservations.
pub run-IsAccounted : (s : Setup) (cs : List (World × Call)) → IsAccounted (run s cs new_manager)
run-IsAccounted s cs = run_from-IsAccounted s cs new_manager new_manager-IsAccounted
