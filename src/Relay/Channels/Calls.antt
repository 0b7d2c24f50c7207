-- ===== src/Relay/Channels/Calls.antt =====
-- Every call keeps a property of channels that the rule admits.
use myqrlwallet_backend.Prelude.{
  ℕ, ◌-◌, ◌≡◌, refl, inl, inr, String, false, Option, none, some, List, [], ◌∷◌, ◌==◌, arith,
  Dict.Dict, Option-cases, Bool-cases,
}
use myqrlwallet_backend.Prelude.Dict
use myqrlwallet_backend.Relay.Types.{
  ClientType, other_type, Channel, Participant, BufferedMessage, RelayPayload,
  DirectDeliveryReservation, ChannelManager, Setup, World, modify,
}
use myqrlwallet_backend.Relay.Ledger.{
  sub_buffered, release_buffered_bytes, retain_buffered_bytes, reserve_direct_delivery,
  release_direct_delivery,
}
use myqrlwallet_backend.Relay.Join.{set_buffer}
use myqrlwallet_backend.Relay.Lifecycle.{new_manager, cleanup}
use myqrlwallet_backend.Relay.Route.{
  record_seq, counterparty, oldest_over_cap, over_budget, drop_oldest, push, buffer_message,
  route_to_buffer, deliver_directly, dispatch, touch, route_accepted, route_message, take_first,
  promote, advance_in, advance_direct_delivery,
}
use myqrlwallet_backend.Relay.Run.{
  Call, joins, closes, leaves, routes, releases, advances, cleans, step, run,
}
use myqrlwallet_backend.Relay.Channels.{
  trim, Rule, Everywhere, modify-Everywhere, release_direct-Everywhere, reserve-Everywhere,
  release_buffered-Everywhere, retain_buffered-Everywhere,
}
use myqrlwallet_backend.Relay.Channels.Joining.{join-Everywhere, heap_here}
use myqrlwallet_backend.Relay.Channels.Closing.{
  close-Everywhere, leave-Everywhere, cleanup_channels-Everywhere,
}

drop_oldest-heap :
    (r : ℕ) (m : ChannelManager)
    → (n : ℕ) × ((drop_oldest r (oldest_over_cap (m.heap r).message_buffer) m).heap r
        ≡ sub_buffered n (set_buffer (trim (m.heap r).message_buffer) (m.heap r)))
unfolding drop_oldest release_buffered_bytes
drop_oldest-heap r m = elim (Option-cases (oldest_over_cap (m.heap r).message_buffer)) [
  | inl e ↦ (0, ground (arith, e))
  | inr (msg, e) ↦ (msg.size_bytes, ground (arith, e))
]

drop_oldest-others :
    (r : ℕ) (oldest : Option BufferedMessage) (m : ChannelManager) (k : ℕ)
    → ((k == r) ≡ false)
    → (drop_oldest r oldest m).heap k ≡ m.heap k
unfolding drop_oldest release_buffered_bytes
drop_oldest-others r none m k e = refl
drop_oldest-others r (some msg) m k e = ground (arith, e)

pushed-live :
    (r : ℕ) (msg : BufferedMessage) (m : ChannelManager)
    → (m.heap r).terminated ≡ false
    → ((retain_buffered_bytes r msg
          (modify r (push msg) (drop_oldest r (oldest_over_cap (m.heap r).message_buffer) m))).heap
        r).terminated
      ≡ false
unfolding retain_buffered_bytes
pushed-live r msg m live = ground (arith, (drop_oldest-heap r m).1)

reserved-live :
    (r : ℕ) (target : String) (res : DirectDeliveryReservation) (m : ChannelManager)
    → (m.heap r).terminated ≡ false
    → ((reserve_direct_delivery target res m).heap r).terminated ≡ false
unfolding reserve_direct_delivery
reserved-live r target res m live = ground arith

module _ (P : Channel → Type 0) (rule : Rule P) where
  record_seq-Everywhere :
      (r : ℕ) (sender : String) (seq : Option ℕ) (m : ChannelManager)
      → (m.heap r).terminated ≡ false
      → Everywhere P m
      → Everywhere P (modify r (record_seq sender seq) m)
  record_seq-Everywhere r sender none m live all =
      modify-Everywhere P rule r (record_seq sender none) m (all r) all
  record_seq-Everywhere r sender (some n) m live all =
      modify-Everywhere P rule r (record_seq sender (some n)) m
        (rule.seq sender n (m.heap r) (all r) live) all

  drop_oldest-Everywhere :
      (r : ℕ) (m : ChannelManager) (msg : BufferedMessage)
      → (m.heap r).terminated ≡ false
      → Everywhere P m
      → Everywhere P
          (modify r (push msg) (drop_oldest r (oldest_over_cap (m.heap r).message_buffer) m))
  drop_oldest-Everywhere r m msg live all k =
      let (n, heap) = drop_oldest-heap r m in
      let c = push msg (set_buffer (trim (m.heap r).message_buffer) (m.heap r)) in
      elim (Bool-cases (k == r)) [
        | inl e ↦
            rw (e, heap)
              (rule.counts ((m.heap r).buffered_bytes - n) (m.heap r).direct_inflight_bytes c
                (rule.pushed msg (m.heap r) (all r) live))
        | inr e ↦
            rw (e, drop_oldest-others r (oldest_over_cap (m.heap r).message_buffer) m k e) (all k)
      ]

  route_to_buffer-Everywhere :
      (s : Setup) (w : World) (r : ℕ) (sender : String) (slow : Option String) (target : ClientType)
      (payload : RelayPayload) (ip : String) (size : ℕ) (m : ChannelManager)
      → (m.heap r).terminated ≡ false
      → Everywhere P m
      → Everywhere P (route_to_buffer s w r sender slow target payload ip size m).0
  unfolding route_to_buffer buffer_message
  route_to_buffer-Everywhere s w r sender slow target payload ip size m live all =
      let oldest = oldest_over_cap (m.heap r).message_buffer in
      let msg : BufferedMessage = record {
        payload = payload;
        target_client_type = target;
        timestamp = w.now;
        size_bytes = size;
        source_ip = ip;
      } in
      let pushed = modify r (push msg) (drop_oldest r oldest m) in
      elim (Option-cases (over_budget s r ip size oldest m)) [
        | inl fits ↦
            rw (fits, route_to_buffer)
              (record_seq-Everywhere r sender payload.seq (retain_buffered_bytes r msg pushed)
                (pushed-live r msg m live)
                (retain_buffered-Everywhere P rule r msg pushed
                  (drop_oldest-Everywhere r m msg live all)))
        | inr (e, over) ↦ rw (over, route_to_buffer) all
      ]

  dispatch-Everywhere :
      (s : Setup) (w : World) (r : ℕ) (sender : String) (ct : ClientType) (payload : RelayPayload)
      (ip : String) (size : ℕ) (m : ChannelManager)
      → (m.heap r).terminated ≡ false
      → Everywhere P m
      → Everywhere P (dispatch s w r sender ct payload ip size m).0
  unfolding dispatch deliver_directly
  dispatch-Everywhere s w r sender ct payload ip size m live all =
      elim (Option-cases (counterparty sender (m.heap r).participants)) [
        | inl e ↦
            rw (e, dispatch)
              (route_to_buffer-Everywhere s w r sender none (other_type ct) payload ip size m live
                all)
        | inr (target, e) ↦
            let res : DirectDeliveryReservation = record {
              channel = r;
              source_ip = ip;
              size_bytes = size;
            } in
            ground (
              arith,
              e,
              route_to_buffer-Everywhere s w r sender (some target) (other_type ct) payload ip size
                  m live all,
              record_seq-Everywhere r sender payload.seq (reserve_direct_delivery target res m)
                  (reserved-live r target res m live) (reserve-Everywhere P rule target res m all),
            )
      ]

  route_accepted-Everywhere :
      (s : Setup) (w : World) (r : ℕ) (sender : String) (ct : ClientType) (payload : RelayPayload)
      (ip : String) (m : ChannelManager)
      → (m.heap r).terminated ≡ false
      → Everywhere P m
      → Everywhere P (route_accepted s w r sender ct payload ip m).0
  unfolding route_accepted
  route_accepted-Everywhere s w r sender ct payload ip m live all =
      let touched = modify r (touch w.now) m in
      let kept =
        modify-Everywhere P rule r (touch w.now) m (rule.activity w.now (m.heap r) (all r)) all in
      elim (Option-cases (s.serialized_size payload)) [
        | inl e ↦ ground (arith, e, kept)
        | inr (size, e) ↦ ground (
          arith,
          e,
          kept,
          dispatch-Everywhere s w r sender ct payload ip size touched
              (rw (heap_here r (touch w.now) m) live) kept,
        )
      ]

  route_message-Everywhere :
      (s : Setup) (w : World) (channel_id sender : String) (payload : RelayPayload) (ip : String)
      (m : ChannelManager)
      → Everywhere P m
      → Everywhere P (route_message s w channel_id sender payload ip m).0
  unfolding route_message
  route_message-Everywhere s w channel_id sender payload ip m all =
      elim (Option-cases (Dict.get channel_id m.channels)) [
        | inl e ↦ rw (e, route_message) all
        | inr (r, e) ↦ elim (Bool-cases (m.heap r).terminated) [
          | inl dead ↦ ground (arith, e, dead, all)
          | inr live ↦ elim (Option-cases (Dict.get sender (m.heap r).participants)) [
            | inl f ↦ ground (arith, e, live, f, all)
            | inr (p, f) ↦ ground (
              arith,
              e,
              live,
              f,
              all,
              route_accepted-Everywhere s w r sender p.client_type payload ip m live all,
            )
          ]
        ]
      ]

  promote-Everywhere :
      (socket_id : String) (r : ℕ) (ct : ClientType) (next : BufferedMessage)
      (rest : List BufferedMessage) (m : ChannelManager)
      → take_first ct (m.heap r).message_buffer ≡ some (next, rest)
      → Everywhere P m
      → Everywhere P (promote socket_id r next rest m)
  unfolding promote
  promote-Everywhere socket_id r ct next rest m e all =
      let taken = modify r (set_buffer rest) m in
      reserve-Everywhere P rule socket_id
        (record { channel = r; source_ip = next.source_ip; size_bytes = next.size_bytes })
        (release_buffered_bytes r next taken)
        (release_buffered-Everywhere P rule r next taken (
          modify-Everywhere P rule r (set_buffer rest) m
            (rule.spliced ct next rest (m.heap r) (all r) e) all))

  advance_in-Everywhere :
      (socket_id : String) (r : ℕ) (p : Option Participant) (m : ChannelManager)
      → Everywhere P m
      → Everywhere P (advance_in socket_id r p m).0
  unfolding advance_in
  advance_in-Everywhere socket_id r none m all = all
  advance_in-Everywhere socket_id r (some p) m all =
      elim (Option-cases (take_first p.client_type (m.heap r).message_buffer)) [
        | inl e ↦ ground (arith, e, all)
        | inr (found, e) ↦
            ground
              (arith, e, all, promote-Everywhere socket_id r p.client_type found.0 found.1 m e all)
      ]

  advance-Everywhere :
      (socket_id : String) (m : ChannelManager)
      → Everywhere P m
      → Everywhere P (advance_direct_delivery socket_id m).0
  unfolding advance_direct_delivery
  advance-Everywhere socket_id m all =
      elim (Option-cases (Dict.get socket_id m.direct_deliveries)) [
        | inl e ↦ rw (e, advance_direct_delivery) all
        | inr (res, e) ↦
            rw (e, advance_direct_delivery)
              (advance_in-Everywhere socket_id res.channel
                (Dict.get socket_id (m.heap res.channel).participants)
                (release_direct_delivery socket_id m)
                (release_direct-Everywhere P rule socket_id m all))
      ]

  -- One call keeps the property at every channel.
  pub step-Everywhere :
      (s : Setup) (c : World × Call) (m : ChannelManager)
      → Everywhere P m
      → Everywhere P (step s c m)
  unfolding step cleanup
  step-Everywhere s (w, joins channel_id socket_id ct k ip) m all =
      join-Everywhere P rule s w channel_id socket_id ct k ip m all
  step-Everywhere s (w, closes channel_id) m all = close-Everywhere P rule w.now channel_id m all
  step-Everywhere s (w, leaves socket_id channel_id) m all =
      leave-Everywhere P rule w.now socket_id channel_id m all
  step-Everywhere s (w, routes channel_id sender payload ip) m all =
      route_message-Everywhere s w channel_id sender payload ip m all
  step-Everywhere s (w, releases socket_id) m all = release_direct-Everywhere P rule socket_id m all
  step-Everywhere s (w, advances socket_id) m all = advance-Everywhere socket_id m all
  step-Everywhere s (w, cleans) m all = cleanup_channels-Everywhere P rule w.now m.channels m all

  new_manager-Everywhere : Everywhere P new_manager
  unfolding new_manager
  new_manager-Everywhere r = rule.fresh 0 none

  run_from-Everywhere :
      (s : Setup) (cs : List (World × Call)) (m : ChannelManager)
      → Everywhere P m
      → Everywhere P (run s cs m)
  unfolding run
  run_from-Everywhere s [] m all = all
  run_from-Everywhere s (c ∷ cs) m all =
      run_from-Everywhere s cs (step s c m) (step-Everywhere s c m all)

  pub run-Everywhere : (s : Setup) (cs : List (World × Call)) → Everywhere P (run s cs new_manager)
  run-Everywhere s cs = run_from-Everywhere s cs new_manager new_manager-Everywhere
