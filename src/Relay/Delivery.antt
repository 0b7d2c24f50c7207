-- ===== src/Relay/Delivery.antt =====
-- advanceDirectDelivery: which message is promoted, and what is left where.
use myqrlwallet_backend.Prelude.{
  ℕ, ◌≡◌, ◌≢◌, ap, ◌∙◌, subst, inl, inr, String, true, false, Option, none, some, List, [], ◌∷◌,
  ◌++◌, arith, eq_refl, All, Dict.Dict, Option-cases, Bool-cases,
}
use myqrlwallet_backend.Prelude.Dict
use myqrlwallet_backend.Relay.Types.{
  ClientType, Participant, BufferedMessage, RelayPayload, DirectDeliveryReservation, ChannelManager,
}
use myqrlwallet_backend.Relay.Ledger.{
  release_buffered_bytes, reserve_direct_delivery, finish_reservation, release_direct_delivery,
}
use myqrlwallet_backend.Relay.Join.{is_for}
use myqrlwallet_backend.Relay.Route.{take_first, promote, advance_in, advance_direct_delivery}

abbrev pub NotFor : ClientType → BufferedMessage → Type 0
NotFor ct msg = is_for ct msg ≡ false

-- The oldest message for a type is cut out of the buffer.
pub record CutOut (ct : ClientType) (buffer rest : List BufferedMessage) (found : BufferedMessage)
    : Type 0 where
  pub before : List BufferedMessage
  pub behind : List BufferedMessage
  pub whole : buffer ≡ before ++ found ∷ behind
  pub others : rest ≡ before ++ behind
  pub skipped : All (NotFor ct) before
  pub wanted : is_for ct found ≡ true

take_first-CutOut :
    (ct : ClientType) (buffer rest : List BufferedMessage) (found : BufferedMessage)
    → take_first ct buffer ≡ some (found, rest)
    → CutOut ct buffer rest found
unfolding take_first
take_first-CutOut ct [] rest found e = cc
take_first-CutOut ct (msg ∷ buffer) rest found e = elim (Bool-cases (is_for ct msg)) [
  | inl hit ↦ record {
    before = [];
    behind = buffer;
    whole = ground (arith, hit);
    others = ground (arith, hit);
    skipped = tt;
    wanted = ground (arith, hit);
  }
  | inr miss ↦ elim (Option-cases (take_first ct buffer)) [
    | inl q ↦ ground (arith, miss, q)
    | inr (p, q) ↦
        let later = take_first-CutOut ct buffer p.1 p.0 q in
        record {
          before = msg ∷ later.before;
          behind = later.behind;
          whole = ground (arith, miss, q, later.whole);
          others = ground (arith, miss, q, later.others);
          skipped = (miss, later.skipped);
          wanted = ground (arith, miss, q, later.wanted);
        }
  ]
]

release_direct-heap :
    (socket_id : String) (m : ChannelManager) (k : ℕ)
    → (((release_direct_delivery socket_id m).heap k).message_buffer ≡ (m.heap k).message_buffer)
      × (((release_direct_delivery socket_id m).heap k).terminated ≡ (m.heap k).terminated)
unfolding release_direct_delivery finish_reservation
release_direct-heap socket_id m k = (ground arith, ground arith)

promote-kept :
    (socket_id : String) (r : ℕ) (next : BufferedMessage) (rest : List BufferedMessage)
    (m : ChannelManager)
    → (((promote socket_id r next rest m).heap r).message_buffer ≡ rest)
      × ((promote socket_id r next rest m).direct_deliveries
          ≡ Dict.put socket_id
              (record { channel = r; source_ip = next.source_ip; size_bytes = next.size_bytes })
              m.direct_deliveries)
unfolding promote reserve_direct_delivery release_buffered_bytes
promote-kept socket_id r next rest m = (ground arith, ground arith)

-- A message that was promoted, and the state after it.
pub record Promoted (socket_id : String) (m n : ChannelManager) (payload : RelayPayload)
    : Type 0 where
  pub done : DirectDeliveryReservation
  pub participant : Participant
  pub found : BufferedMessage
  pub held : Dict.get socket_id m.direct_deliveries ≡ some done
  pub member : Dict.get socket_id (m.heap done.channel).participants ≡ some participant
  pub sent : payload ≡ found.payload
  pub cut :
      CutOut participant.client_type
        (m.heap done.channel).message_buffer
        (n.heap done.channel).message_buffer
        found
  pub reserved :
      Dict.get socket_id n.direct_deliveries
      ≡ some (record {
        channel = done.channel;
        source_ip = found.source_ip;
        size_bytes = found.size_bytes;
      })

ne_some : (payload : RelayPayload) → ◌≢◌ {A = Option RelayPayload} none (some payload)
ne_some payload e = cc

module _ (socket_id : String) (m : ChannelManager) where
  free : ChannelManager
  free = release_direct_delivery socket_id m

  advance_in-Promoted :
      (done : DirectDeliveryReservation) (p : Participant) (payload : RelayPayload)
      → Dict.get socket_id m.direct_deliveries ≡ some done
      → Dict.get socket_id (m.heap done.channel).participants ≡ some p
      → (advance_in socket_id done.channel (some p) free).1 ≡ some payload
      → Promoted socket_id m (advance_in socket_id done.channel (some p) free).0 payload
  unfolding advance_in free
  advance_in-Promoted done p payload held member e =
      let r = done.channel in
      elim (Bool-cases (free.heap r).terminated) [
        | inl dead ↦ ground (arith, dead)
        | inr live ↦ elim (Option-cases (take_first p.client_type (free.heap r).message_buffer)) [
          | inl q ↦ ground (arith, live, q)
          | inr (found, q) ↦
              let kept = promote-kept socket_id r found.0 found.1 free in
              let next : DirectDeliveryReservation = record {
                channel = r;
                source_ip = found.0.source_ip;
                size_bytes = found.0.size_bytes;
              } in
              rw (live, q, advance_in)
                (record {
                  done = done;
                  participant = p;
                  found = found.0;
                  held = held;
                  member = member;
                  sent = ground (arith, live, q);
                  cut = rw kept.0 (
                      subst (λ b. CutOut p.client_type b found.1 found.0)
                        (release_direct-heap socket_id m r).0
                        (take_first-CutOut p.client_type (free.heap r).message_buffer found.1
                          found.0 q));
                  reserved =
                      ap (Dict.get socket_id) kept.1
                      ∙ Dict.get-put socket_id socket_id next free.direct_deliveries
                      ∙ ground (arith, eq_refl socket_id);
                })
        ]
      ]

  -- What `advanceDirectDelivery` sends is the oldest buffered message for the participant of the
  -- finished delivery's channel; that message alone leaves the buffer, and is the socket's delivery
  -- in flight.
  pub advance-Promoted :
      (payload : RelayPayload)
      → (advance_direct_delivery socket_id m).1 ≡ some payload
      → Promoted socket_id m (advance_direct_delivery socket_id m).0 payload
  unfolding advance_direct_delivery free advance_in
  advance-Promoted payload e = elim (Option-cases (Dict.get socket_id m.direct_deliveries)) [
    | inl q ↦ ground (arith, q)
    | inr (done, q) ↦ elim (Option-cases (Dict.get socket_id (m.heap done.channel).participants)) [
      | inl f ↦ absurd (ne_some payload (rw (q, f, advance_direct_delivery, advance_in) at e))
      | inr (p, f) ↦
          rw (q, f, advance_direct_delivery)
            (advance_in-Promoted done p payload q f (rw (q, f, advance_direct_delivery) at e))
    ]
  ]
