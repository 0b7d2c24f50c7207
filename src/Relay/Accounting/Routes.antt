-- ===== src/Relay/Accounting/Routes.antt =====
-- routeMessage and advanceDirectDelivery keep the ledger.
use myqrlwallet_backend.Prelude.{
  ℕ, ◌<◌, ◌≡◌, refl, inl, inr, String, true, Option, none, some, List, [], ◌∷◌, sum_by, arith,
  Dict.Dict, Option-cases, Bool-cases,
}
use myqrlwallet_backend.Prelude.Dict
use myqrlwallet_backend.Relay.Types.{
  ClientType, other_type, BufferedMessage, RelayPayload, DirectDeliveryReservation, ChannelManager,
  Setup, World, modify,
}
use myqrlwallet_backend.Relay.Ledger.{
  reserve_direct_delivery, release_buffered_bytes, retain_buffered_bytes,
}
use myqrlwallet_backend.Relay.Ledger.Laws.{bytes_of_ip}
use myqrlwallet_backend.Relay.Join.{set_buffer}
use myqrlwallet_backend.Relay.Route.{
  record_seq, counterparty, oldest_over_cap, shift, drop_oldest, push, buffer_message,
  route_to_buffer, deliver_directly, can_deliver, dispatch,
}
use myqrlwallet_backend.Relay.Accounting.{IsAccounted, KeepsBytes, modify-IsAccounted}
use myqrlwallet_backend.Relay.Accounting.Reservations.{reserve-IsAccounted}
use myqrlwallet_backend.Relay.Accounting.Buffers.{
  Splits, set_then_release_one, set_buffer-SetsBuffer, retain_pushed-IsAccounted,
}

pub reserve-next_ref :
    (socket_id : String) (res : DirectDeliveryReservation) (m : ChannelManager)
    → (reserve_direct_delivery socket_id res m).next_ref ≡ m.next_ref
unfolding reserve_direct_delivery
reserve-next_ref socket_id res m = refl

pub oldest-Splits :
    (buffer : List BufferedMessage) (msg : BufferedMessage)
    → oldest_over_cap buffer ≡ some msg
    → Splits msg.size_bytes (λ ip. bytes_of_ip ip msg) buffer (shift buffer)
unfolding oldest_over_cap sum_by
oldest-Splits [] msg e = cc
oldest-Splits (first ∷ buffer) msg e =
    let same : first ≡ msg = ground arith in
    record { all = rw same refl; each = λ ip. rw same refl }

drop_oldest-next_ref :
    (r : ℕ) (oldest : Option BufferedMessage) (m : ChannelManager)
    → (drop_oldest r oldest m).next_ref ≡ m.next_ref
unfolding drop_oldest release_buffered_bytes
drop_oldest-next_ref r none m = refl
drop_oldest-next_ref r (some msg) m = refl

drop_oldest-IsAccounted :
    (r : ℕ) (oldest : Option BufferedMessage) (m : ChannelManager)
    → oldest_over_cap (m.heap r).message_buffer ≡ oldest
    → r < m.next_ref
    → IsAccounted m
    → IsAccounted (drop_oldest r oldest m)
unfolding drop_oldest
drop_oldest-IsAccounted r none m e h a = a
drop_oldest-IsAccounted r (some msg) m e h a =
    let rest = shift (m.heap r).message_buffer in
    set_then_release_one r rest (set_buffer rest) m h (set_buffer-SetsBuffer rest) a msg
      (oldest-Splits (m.heap r).message_buffer msg e)

record_seq-KeepsBytes : (sender : String) (seq : Option ℕ) → KeepsBytes (record_seq sender seq)
record_seq-KeepsBytes sender none c = (refl, refl, refl)
record_seq-KeepsBytes sender (some n) c = (refl, refl, refl)

retain_pushed-next_ref :
    (r : ℕ) (msg : BufferedMessage) (m : ChannelManager)
    → (retain_buffered_bytes r msg (modify r (push msg) m)).next_ref ≡ m.next_ref
unfolding retain_buffered_bytes
retain_pushed-next_ref r msg m = refl

buffer_message-IsAccounted :
    (w : World) (r : ℕ) (sender : String) (slow : Option String) (target : ClientType)
    (payload : RelayPayload) (ip : String) (size : ℕ) (oldest : Option BufferedMessage)
    (m : ChannelManager)
    → oldest_over_cap (m.heap r).message_buffer ≡ oldest
    → r < m.next_ref
    → IsAccounted m
    → IsAccounted (buffer_message w r sender slow target payload ip size oldest m).0
unfolding buffer_message
buffer_message-IsAccounted w r sender slow target payload ip size oldest m e h a =
    let dropped = drop_oldest r oldest m in
    let bound : r < dropped.next_ref = rw (drop_oldest-next_ref r oldest m) h in
    modify-IsAccounted r (record_seq sender payload.seq) _
      (record_seq-KeepsBytes sender payload.seq) (rw (retain_pushed-next_ref r _ dropped) bound)
      (retain_pushed-IsAccounted r _ dropped bound (drop_oldest-IsAccounted r oldest m e h a))

route_to_buffer-IsAccounted :
    (s : Setup) (w : World) (r : ℕ) (sender : String) (slow : Option String) (target : ClientType)
    (payload : RelayPayload) (ip : String) (size : ℕ) (m : ChannelManager)
    → r < m.next_ref
    → IsAccounted m
    → IsAccounted (route_to_buffer s w r sender slow target payload ip size m).0
unfolding route_to_buffer
route_to_buffer-IsAccounted s w r sender slow target payload ip size m h a = ground (
  arith,
  buffer_message-IsAccounted w r sender slow target payload ip size
      (oldest_over_cap (m.heap r).message_buffer) m refl h a,
)

deliver_directly-IsAccounted :
    (r : ℕ) (sender target : String) (payload : RelayPayload) (ip : String) (size : ℕ)
    (m : ChannelManager)
    → Dict.get target m.direct_deliveries ≡ none
    → r < m.next_ref
    → IsAccounted m
    → IsAccounted (deliver_directly r sender target payload ip size m).0
unfolding deliver_directly
deliver_directly-IsAccounted r sender target payload ip size m free h a =
    modify-IsAccounted r (record_seq sender payload.seq) _
      (record_seq-KeepsBytes sender payload.seq) (rw (reserve-next_ref target _ m) h)
      (reserve-IsAccounted target (record { channel = r; source_ip = ip; size_bytes = size }) m free
        h a)

can_deliver-free :
    (s : Setup) (w : World) (r : ℕ) (target ip : String) (size : ℕ) (m : ChannelManager)
    → can_deliver s w r target ip size m ≡ true
    → Dict.get target m.direct_deliveries ≡ none
unfolding can_deliver
can_deliver-free s w r target ip size m e = ground arith

pub dispatch-IsAccounted :
    (s : Setup) (w : World) (r : ℕ) (sender : String) (ct : ClientType) (payload : RelayPayload)
    (ip : String) (size : ℕ) (m : ChannelManager)
    → r < m.next_ref
    → IsAccounted m
    → IsAccounted (dispatch s w r sender ct payload ip size m).0
unfolding dispatch
dispatch-IsAccounted s w r sender ct payload ip size m h a =
    elim (Option-cases (counterparty sender (m.heap r).participants)) [
      | inl e ↦
          rw (e, dispatch)
            (route_to_buffer-IsAccounted s w r sender none (other_type ct) payload ip size m h a)
      | inr (target, e) ↦
          rw (e, dispatch)
            (elim (Bool-cases (can_deliver s w r target ip size m)) [
              | inl direct ↦ rw direct (
                  deliver_directly-IsAccounted r sender target payload ip size m
                    (can_deliver-free s w r target ip size m direct) h a)
              | inr slow ↦ rw slow (
                  route_to_buffer-IsAccounted s w r sender (some target) (other_type ct) payload ip
                    size m h a)
            ])
    ]
