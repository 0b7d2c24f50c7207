-- ===== src/Relay/Messages/Outcomes.antt =====
-- The ways in which routeMessage handles a message, each with its cause and its change of state.
use myqrlwallet_backend.Prelude.{
  ℕ, ◌≡◌, refl, ap, ◌∙◌, subst, inl, inr, String, true, false, some, arith, Dict.Dict, Option-cases,
  Bool-cases,
}
use myqrlwallet_backend.Prelude.Dict
use myqrlwallet_backend.Relay.Types.{
  same_type, other_type, Channel, Participant, RelayPayload, ChannelManager, Setup, World,
  RouteResult, modify,
}
use myqrlwallet_backend.Relay.Route.{
  is_replay, counterparty, oldest_over_cap, over_budget, route_to_buffer, deliver_directly,
  can_deliver, dispatch, touch, route_accepted, route_message,
}
use myqrlwallet_backend.Relay.Messages.{
  is_replay-IsFresh, is_replay-old, Deliverable, can_deliver_iff, over_budget-IsOver,
  over_budget-Fits,
}
use myqrlwallet_backend.Relay.Messages.Effects.{
  buffer_message-result, deliver_directly-result, deliver_directly-Routed,
  deliver_directly-Reserved, buffer_message-Routed, buffer_message-Retained,
}
use myqrlwallet_backend.Relay.Messages.Cases.{
  Seated, Sound, Held, Outcome, missing, ended, stranger, mistyped, replayed, unserializable, over,
  direct, buffered,
}

module _ (s : Setup) (w : World) (channel_id sender : String) (payload : RelayPayload) (ip : String)
    (m : ChannelManager) (r : ℕ) (p : Participant)
    (seated : Seated channel_id sender payload m r p) where
  abbrev Out : ChannelManager × RouteResult → Type 0
  Out x = Outcome s w channel_id sender payload ip m x.0 x.1

  abbrev touched : ChannelManager
  touched = modify r (touch w.now) m

  same_channel : touched.heap r ≡ touch w.now (m.heap r)
  same_channel = ground arith

  same_counterparty :
      counterparty sender (touched.heap r).participants
      ≡ counterparty sender (m.heap r).participants
  same_counterparty = ap (λ (c : Channel). counterparty sender c.participants) same_channel

  route_to_buffer-Outcome :
      (size : ℕ)
      → Sound s channel_id sender payload m r p size
      → Held s w r sender ip size m
      → Out (
          route_to_buffer s w r sender
            (counterparty sender (m.heap r).participants)
            (other_type p.client_type)
            payload
            ip
            size
            touched)
  unfolding route_to_buffer
  route_to_buffer-Outcome size sound held =
      let slow = counterparty sender (m.heap r).participants in
      let target = other_type p.client_type in
      let oldest = oldest_over_cap (touched.heap r).message_buffer in
      elim (Option-cases (over_budget s r ip size oldest touched)) [
        | inl fits ↦
            rw (fits, route_to_buffer)
              (buffered r p size sound held (over_budget-Fits s r ip size w.now m fits)
                (buffer_message-result w r sender slow target payload ip size oldest touched)
                (buffer_message-Routed w r sender payload ip size m slow target)
                (buffer_message-Retained w r sender payload ip size m slow target))
        | inr (e, full) ↦
            rw (full, route_to_buffer)
              (over r p size e sound held (over_budget-IsOver s r ip size w.now m e full) refl refl)
      ]

  deliver_directly-Outcome :
      (target : String) (size : ℕ)
      → Sound s channel_id sender payload m r p size
      → counterparty sender (m.heap r).participants ≡ some target
      → can_deliver s w r target ip size touched ≡ true
      → Out (deliver_directly r sender target payload ip size touched)
  deliver_directly-Outcome target size sound e can =
      direct r p size target sound e ((can_deliver_iff s w r target ip size m).0 can)
        (deliver_directly-result r sender target payload ip size touched)
        (deliver_directly-Routed w r sender payload ip size m target)
        (deliver_directly-Reserved w r sender payload ip size m target)

  -- With another participant that cannot take the message.
  slow-Held :
      (target : String) (size : ℕ)
      → counterparty sender (m.heap r).participants ≡ some target
      → can_deliver s w r target ip size touched ≡ false
      → Held s w r sender ip size m
  slow-Held target size e slow other q d =
      let same : other ≡ target = cc in
      let can =
        (can_deliver_iff s w r target ip size m).1
          (subst (λ t. Deliverable s w r t ip size m) same d) in
      cc

  dispatch-Outcome :
      (size : ℕ)
      → Sound s channel_id sender payload m r p size
      → Out (dispatch s w r sender p.client_type payload ip size touched)
  unfolding dispatch
  dispatch-Outcome size sound = elim (Option-cases (counterparty sender (m.heap r).participants)) [
    | inl e ↦
        rw (same_counterparty ∙ e, dispatch)
          (subst
            (λ t.
              Out
                (route_to_buffer s w r sender t (other_type p.client_type) payload ip size touched))
            e (route_to_buffer-Outcome size sound (λ target q d. cc)))
    | inr (target, e) ↦
        rw (same_counterparty ∙ e, dispatch)
          (elim (Bool-cases (can_deliver s w r target ip size touched)) [
            | inl can ↦ rw can (deliver_directly-Outcome target size sound e can)
            | inr slow ↦ rw slow (
                subst
                  (λ t. Out (
                    route_to_buffer s w r sender t (other_type p.client_type) payload ip size
                      touched))
                  e (route_to_buffer-Outcome size sound (slow-Held target size e slow)))
          ])
  ]

  route_accepted-Outcome : Out (route_accepted s w r sender p.client_type payload ip m)
  unfolding route_accepted
  route_accepted-Outcome =
      let last = Dict.get sender (m.heap r).seq_numbers in
      elim (Bool-cases (is_replay payload.seq last)) [
        | inl old ↦
            let (seq, k, q, e, h) = is_replay-old payload.seq last old in
            rw (old, route_accepted) (replayed r p seq k seated q e h refl refl)
        | inr new ↦
            let fresh = is_replay-IsFresh payload.seq last new in
            elim (Option-cases (s.serialized_size payload)) [
              | inl q ↦ rw (new, q, route_accepted) (unserializable r p seated fresh q refl refl)
              | inr (size, q) ↦
                  rw (new, q, route_accepted)
                    (dispatch-Outcome size (record { seated = seated; fresh = fresh; sized = q }))
            ]
      ]

-- Every call of routeMessage ends in one of these ways. It is refused without any change for
-- a channel that does not exist or is terminated, a sender that has no seat in it, or another type
-- than that of the seat, in this order; and with the channel's time of activity changed only for a
-- sequence number that is not above the sender's last one, for a payload that has no JSON text, and
-- for the first budget that the message would pass in the buffer. It is handed to the first other
-- participant if that socket is ready, has no delivery in flight and all budgets allow it: then the
-- delivery is reserved with its bytes, and the buffer stays. Otherwise it is put at the end of the
-- buffer for the other type, after the oldest entry of a full buffer has gone, with its bytes. Both
-- note the sender's sequence number and leave the roster, the key, the other channels and the map of
-- channels as they are.
pub route_message-Outcome :
    (s : Setup) (w : World) (channel_id sender : String) (payload : RelayPayload) (ip : String)
    (m : ChannelManager)
    → let x = route_message s w channel_id sender payload ip m in
      Outcome s w channel_id sender payload ip m x.0 x.1
unfolding route_message
route_message-Outcome s w channel_id sender payload ip m =
    elim (Option-cases (Dict.get channel_id m.channels)) [
      | inl e ↦ rw (e, route_message) (missing e refl refl)
      | inr (r, e) ↦ elim (Bool-cases (m.heap r).terminated) [
        | inl dead ↦ rw (e, dead, route_message) (ended r e dead refl refl)
        | inr live ↦ elim (Option-cases (Dict.get sender (m.heap r).participants)) [
          | inl f ↦ rw (e, live, f, route_message) (stranger r e live f refl refl)
          | inr (p, f) ↦ elim (Bool-cases (same_type payload.client_type p.client_type)) [
            | inl same ↦
                rw (e, live, f, same, route_message)
                  (route_accepted-Outcome s w channel_id sender payload ip m r p
                    (record { found = e; live = live; member = f; typed = same }))
            | inr differs ↦
                rw (e, live, f, differs, route_message) (mistyped r p e live f differs refl refl)
          ]
        ]
      ]
    ]
