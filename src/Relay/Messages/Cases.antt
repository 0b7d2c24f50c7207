-- ===== src/Relay/Messages/Cases.antt =====
-- The ways in which routeMessage can handle a message.
use myqrlwallet_backend.Prelude.{
  ℕ, ◌≤◌, ◌≡◌, String, true, false, none, some, [], ◌∷◌, ◌++◌, Dict.Dict,
}
use myqrlwallet_backend.Prelude.Dict
use myqrlwallet_backend.Relay.Types.{
  same_type, other_type, Participant, RelayPayload, ChannelManager, Setup, World, RouteError,
  channel_not_found, channel_terminated, sender_not_in_channel, type_mismatch, replay_rejected,
  not_serializable, RouteResult, modify,
}
use myqrlwallet_backend.Relay.Route.{refuse, direct_to, buffered_for, counterparty, touch}
use myqrlwallet_backend.Relay.Channels.{trim}
use myqrlwallet_backend.Relay.Messages.{
  Routed, Reserved, Retained, message_of, IsFresh, Deliverable, IsOver, Fits,
}

-- The sender has a seat for its type in a channel that is not terminated.
pub record Seated (channel_id sender : String) (payload : RelayPayload) (m : ChannelManager) (r : ℕ)
    (p : Participant) : Type 0 where
  pub found : Dict.get channel_id m.channels ≡ some r
  pub live : (m.heap r).terminated ≡ false
  pub member : Dict.get sender (m.heap r).participants ≡ some p
  pub typed : same_type payload.client_type p.client_type ≡ true

-- A message from a seated sender that is no replay, with its size.
pub record Sound (s : Setup) (channel_id sender : String) (payload : RelayPayload)
    (m : ChannelManager) (r : ℕ) (p : Participant) (size : ℕ) : Type 0 where
  pub seated : Seated channel_id sender payload m r p
  pub fresh : IsFresh payload.seq (Dict.get sender (m.heap r).seq_numbers)
  pub sized : s.serialized_size payload ≡ some size

-- The message cannot be handed to the other participant now.
abbrev pub Held : Setup → World → ℕ → String → String → ℕ → ChannelManager → Type 0
Held s w r sender ip size m =
    (target : String)
    → counterparty sender (m.heap r).participants ≡ some target
    → Deliverable s w r target ip size m
    → ⊥

-- The ways in which a message is handled.
pub data Outcome (s : Setup) (w : World) (channel_id sender : String) (payload : RelayPayload)
    (ip : String) (m n : ChannelManager) (res : RouteResult) : Type 0 where
  missing :
      Dict.get channel_id m.channels ≡ none
      → res ≡ refuse none channel_not_found
      → n ≡ m
      → Outcome s w channel_id sender payload ip m n res
  ended :
      (r : ℕ)
      → Dict.get channel_id m.channels ≡ some r
      → (m.heap r).terminated ≡ true
      → res ≡ refuse none channel_terminated
      → n ≡ m
      → Outcome s w channel_id sender payload ip m n res
  stranger :
      (r : ℕ)
      → Dict.get channel_id m.channels ≡ some r
      → (m.heap r).terminated ≡ false
      → Dict.get sender (m.heap r).participants ≡ none
      → res ≡ refuse none sender_not_in_channel
      → n ≡ m
      → Outcome s w channel_id sender payload ip m n res
  mistyped :
      (r : ℕ) (p : Participant)
      → Dict.get channel_id m.channels ≡ some r
      → (m.heap r).terminated ≡ false
      → Dict.get sender (m.heap r).participants ≡ some p
      → same_type payload.client_type p.client_type ≡ false
      → res ≡ refuse none type_mismatch
      → n ≡ m
      → Outcome s w channel_id sender payload ip m n res
  replayed :
      (r : ℕ) (p : Participant) (seq last : ℕ)
      → Seated channel_id sender payload m r p
      → payload.seq ≡ some seq
      → Dict.get sender (m.heap r).seq_numbers ≡ some last
      → seq ≤ last
      → res ≡ refuse none replay_rejected
      → n ≡ modify r (touch w.now) m
      → Outcome s w channel_id sender payload ip m n res
  unserializable :
      (r : ℕ) (p : Participant)
      → Seated channel_id sender payload m r p
      → IsFresh payload.seq (Dict.get sender (m.heap r).seq_numbers)
      → s.serialized_size payload ≡ none
      → res ≡ refuse none not_serializable
      → n ≡ modify r (touch w.now) m
      → Outcome s w channel_id sender payload ip m n res
  over :
      (r : ℕ) (p : Participant) (size : ℕ) (e : RouteError)
      → Sound s channel_id sender payload m r p size
      → Held s w r sender ip size m
      → IsOver s r ip size m e
      → res ≡ refuse (counterparty sender (m.heap r).participants) e
      → n ≡ modify r (touch w.now) m
      → Outcome s w channel_id sender payload ip m n res
  direct :
      (r : ℕ) (p : Participant) (size : ℕ) (target : String)
      → Sound s channel_id sender payload m r p size
      → counterparty sender (m.heap r).participants ≡ some target
      → Deliverable s w r target ip size m
      → res ≡ direct_to target
      → Routed w.now r sender payload.seq (m.heap r).message_buffer m n
      → Reserved r target ip size m n
      → Outcome s w channel_id sender payload ip m n res
  buffered :
      (r : ℕ) (p : Participant) (size : ℕ)
      → Sound s channel_id sender payload m r p size
      → Held s w r sender ip size m
      → Fits s r ip size m
      → res ≡ buffered_for (counterparty sender (m.heap r).participants)
      → Routed w.now r sender payload.seq
          (trim (m.heap r).message_buffer
            ++ message_of w (other_type p.client_type) payload ip size ∷ [])
          m
          n
      → Retained r ip size m n
      → Outcome s w channel_id sender payload ip m n res
