-- ===== src/Relay/Budgets/Routing.antt =====
-- routeMessage, advanceDirectDelivery and runs of calls stay within the byte budgets.
use myqrlwallet_backend.Prelude.{
  ℕ, ◌<◌, ◌≡◌, refl, inl, inr, String, true, Option, none, some, List, [], ◌∷◌, arith, eq_iff,
  Dict.Dict, Option-cases, Bool-cases,
}
use myqrlwallet_backend.Prelude.Dict
use myqrlwallet_backend.Relay.Types.{
  ClientType, other_type, Participant, BufferedMessage, RelayPayload, DirectDeliveryReservation,
  ChannelManager, Setup, World, modify,
}
use myqrlwallet_backend.Relay.Ledger.{release_direct_delivery, reserve_direct_delivery}
use myqrlwallet_backend.Relay.Ledger.Laws.{bytes_of_ip}
use myqrlwallet_backend.Relay.Lifecycle.{new_manager}
use myqrlwallet_backend.Relay.Route.{
  record_seq, counterparty, fits_direct, deliver_directly, can_deliver, dispatch, touch,
  route_accepted, route_message, take_first, promote, advance_in, advance_direct_delivery,
}
use myqrlwallet_backend.Relay.Run.{
  Call, joins, closes, leaves, routes, releases, advances, cleans, step, run,
}
use myqrlwallet_backend.Relay.Accounting.{IsAccounted, modify-IsAccounted}
use myqrlwallet_backend.Relay.Accounting.Closes.{new_manager-IsAccounted}
use myqrlwallet_backend.Relay.Accounting.Joins.{get-lt-next_ref, release_direct-next_ref}
use myqrlwallet_backend.Relay.Accounting.Reservations.{release_direct-IsAccounted}
use myqrlwallet_backend.Relay.Accounting.Runs.{step-IsAccounted, take_first-Splits}
use myqrlwallet_backend.Relay.Budgets.{IsWithinBudget}
use myqrlwallet_backend.Relay.Budgets.Lowering.{join-Lowers, release_direct-Lowers}
use myqrlwallet_backend.Relay.Budgets.Ending.{close-Lowers, leave-Lowers, cleanup-Lowers}
use myqrlwallet_backend.Relay.Budgets.Messages.{
  Lowers-IsWithinBudget, modify-IsWithinBudget, held-record_seq, reserve-ip, reserve-IsWithinBudget,
  take_message-Drops, Drops, route_to_buffer-IsWithinBudget,
}

deliver_directly-IsWithinBudget :
    (s : Setup) (r : ℕ) (sender target : String) (payload : RelayPayload) (ip : String) (size : ℕ)
    (m : ChannelManager)
    → fits_direct s r ip size m ≡ true
    → IsWithinBudget s m
    → IsWithinBudget s (deliver_directly r sender target payload ip size m).0
unfolding deliver_directly
deliver_directly-IsWithinBudget s r sender target payload ip size m fits b =
    modify-IsWithinBudget s r (record_seq sender payload.seq) _ (held-record_seq sender payload.seq)
      (reserve-IsWithinBudget s target (record { channel = r; source_ip = ip; size_bytes = size }) m
        fits b)

can_deliver-fits :
    (s : Setup) (w : World) (r : ℕ) (target ip : String) (size : ℕ) (m : ChannelManager)
    → can_deliver s w r target ip size m ≡ true
    → fits_direct s r ip size m ≡ true
unfolding can_deliver
can_deliver-fits s w r target ip size m e = ground arith

dispatch-IsWithinBudget :
    (s : Setup) (w : World) (r : ℕ) (sender : String) (ct : ClientType) (payload : RelayPayload)
    (ip : String) (size : ℕ) (m : ChannelManager)
    → r < m.next_ref
    → IsAccounted m
    → IsWithinBudget s m
    → IsWithinBudget s (dispatch s w r sender ct payload ip size m).0
unfolding dispatch
dispatch-IsWithinBudget s w r sender ct payload ip size m h a b =
    elim (Option-cases (counterparty sender (m.heap r).participants)) [
      | inl e ↦
          rw (e, dispatch)
            (route_to_buffer-IsWithinBudget s w r sender none (other_type ct) payload ip size m h a
              b)
      | inr (target, e) ↦
          rw (e, dispatch)
            (elim (Bool-cases (can_deliver s w r target ip size m)) [
              | inl direct ↦ rw direct (
                  deliver_directly-IsWithinBudget s r sender target payload ip size m
                    (can_deliver-fits s w r target ip size m direct) b)
              | inr slow ↦ rw slow (
                  route_to_buffer-IsWithinBudget s w r sender (some target) (other_type ct) payload
                    ip size m h a b)
            ])
    ]

route_accepted-IsWithinBudget :
    (s : Setup) (w : World) (r : ℕ) (sender : String) (ct : ClientType) (payload : RelayPayload)
    (ip : String) (m : ChannelManager)
    → r < m.next_ref
    → IsAccounted m
    → IsWithinBudget s m
    → IsWithinBudget s (route_accepted s w r sender ct payload ip m).0
unfolding route_accepted
route_accepted-IsWithinBudget s w r sender ct payload ip m h a b =
    let touched = modify r (touch w.now) m in
    let kept = modify-IsWithinBudget s r (touch w.now) m (λ c. refl) b in
    let sums = modify-IsAccounted r (touch w.now) m (λ c. (refl, refl, refl)) h a in
    elim (Option-cases (s.serialized_size payload)) [
      | inl e ↦ ground (arith, e, kept)
      | inr (size, e) ↦ ground (
        arith,
        e,
        kept,
        dispatch-IsWithinBudget s w r sender ct payload ip size touched h sums kept,
      )
    ]

route_message-IsWithinBudget :
    (s : Setup) (w : World) (channel_id sender : String) (payload : RelayPayload) (ip : String)
    (m : ChannelManager)
    → IsAccounted m
    → IsWithinBudget s m
    → IsWithinBudget s (route_message s w channel_id sender payload ip m).0
unfolding route_message
route_message-IsWithinBudget s w channel_id sender payload ip m a b =
    elim (Option-cases (Dict.get channel_id m.channels)) [
      | inl e ↦ rw (e, route_message) b
      | inr (r, e) ↦ elim (Option-cases (Dict.get sender (m.heap r).participants)) [
        | inl f ↦ ground (arith, e, f)
        | inr (p, f) ↦ ground (
          arith,
          e,
          f,
          route_accepted-IsWithinBudget s w r sender p.client_type payload ip m
              (get-lt-next_ref channel_id m a e) a b,
        )
      ]
    ]

-- A message that moves from the buffer to a reservation fills what it has left.
refill-IsWithinBudget :
    (s : Setup) (socket_id : String) (r : ℕ) (next : BufferedMessage) (m m' : ChannelManager)
    → Drops r next.size_bytes (λ ip. bytes_of_ip ip next) m m'
    → IsWithinBudget s m
    → IsWithinBudget s (
        reserve_direct_delivery socket_id
          (record { channel = r; source_ip = next.source_ip; size_bytes = next.size_bytes })
          m')
unfolding reserve_direct_delivery
refill-IsWithinBudget s socket_id r next m m' d b =
    let res : DirectDeliveryReservation = record {
      channel = r;
      source_ip = next.source_ip;
      size_bytes = next.size_bytes;
    } in
    record {
      channel = λ k. ground (arith, b.channel k, d.here, d.others k);
      ip = λ jp.
          ground
            (arith, b.ip jp, d.by_ip jp, reserve-ip socket_id res m' jp, eq_iff next.source_ip jp);
      global = ground (arith, d.total, b.global);
    }

advance_in-IsWithinBudget :
    (s : Setup) (socket_id : String) (r : ℕ) (p : Option Participant) (m : ChannelManager)
    → r < m.next_ref
    → IsAccounted m
    → IsWithinBudget s m
    → IsWithinBudget s (advance_in socket_id r p m).0
unfolding advance_in promote
advance_in-IsWithinBudget s socket_id r none m h a b = b
advance_in-IsWithinBudget s socket_id r (some p) m h a b =
    let buffer = (m.heap r).message_buffer in
    elim (Option-cases (take_first p.client_type buffer)) [
      | inl e ↦ ground (arith, e)
      | inr (found, e) ↦ ground (
        arith,
        e,
        refill-IsWithinBudget s socket_id r found.0 m _
            (take_message-Drops r found.0 found.1 m h a
              (take_first-Splits p.client_type buffer found.1 found.0 e))
            b,
      )
    ]

advance-IsWithinBudget :
    (s : Setup) (socket_id : String) (m : ChannelManager)
    → IsAccounted m
    → IsWithinBudget s m
    → IsWithinBudget s (advance_direct_delivery socket_id m).0
unfolding advance_direct_delivery
advance-IsWithinBudget s socket_id m a b =
    let free = release_direct_delivery socket_id m in
    elim (Option-cases (Dict.get socket_id m.direct_deliveries)) [
      | inl e ↦ rw (e, advance_direct_delivery) b
      | inr (res, e) ↦ ground (
        arith,
        e,
        advance_in-IsWithinBudget s socket_id res.channel
            (Dict.get socket_id (m.heap res.channel).participants) free
            (rw (release_direct-next_ref socket_id m)
              (Dict.All-get (λ d. d.channel < m.next_ref) socket_id m.direct_deliveries a.live e))
            (release_direct-IsAccounted socket_id m a)
            (Lowers-IsWithinBudget s m free (release_direct-Lowers socket_id m) a b),
      )
    ]

step-IsWithinBudget :
    (s : Setup) (c : World × Call) (m : ChannelManager)
    → IsAccounted m
    → IsWithinBudget s m
    → IsWithinBudget s (step s c m)
unfolding step
step-IsWithinBudget s (w, joins channel_id socket_id ct k ip) m a b =
    Lowers-IsWithinBudget s m _ (join-Lowers s w channel_id socket_id ct k ip m) a b
step-IsWithinBudget s (w, closes channel_id) m a b =
    Lowers-IsWithinBudget s m _ (close-Lowers w.now channel_id m) a b
step-IsWithinBudget s (w, leaves socket_id channel_id) m a b =
    Lowers-IsWithinBudget s m _ (leave-Lowers w.now socket_id channel_id m) a b
step-IsWithinBudget s (w, routes channel_id sender payload ip) m a b =
    route_message-IsWithinBudget s w channel_id sender payload ip m a b
step-IsWithinBudget s (w, releases socket_id) m a b =
    Lowers-IsWithinBudget s m _ (release_direct-Lowers socket_id m) a b
step-IsWithinBudget s (w, advances socket_id) m a b = advance-IsWithinBudget s socket_id m a b
step-IsWithinBudget s (w, cleans) m a b = Lowers-IsWithinBudget s m _ (cleanup-Lowers w.now m) a b

run_from-IsWithinBudget :
    (s : Setup) (cs : List (World × Call)) (m : ChannelManager)
    → IsAccounted m
    → IsWithinBudget s m
    → IsWithinBudget s (run s cs m)
unfolding run
run_from-IsWithinBudget s [] m a b = b
run_from-IsWithinBudget s (c ∷ cs) m a b =
    run_from-IsWithinBudget s cs (step s c m) (step-IsAccounted s c m a)
      (step-IsWithinBudget s c m a b)

new_manager-IsWithinBudget : (s : Setup) → IsWithinBudget s new_manager
unfolding new_manager Dict.get
new_manager-IsWithinBudget s = record {
  channel = λ r. omega arith;
  ip = λ jp. omega arith;
  global = omega arith;
}

-- After any sequence of calls on a new manager, the bytes buffered and in flight are at most the
-- configured budget for every channel, for every address, and for the relay as a whole.
pub run-IsWithinBudget :
    (s : Setup) (cs : List (World × Call)) → IsWithinBudget s (run s cs new_manager)
run-IsWithinBudget s cs =
    run_from-IsWithinBudget s cs new_manager new_manager-IsAccounted (new_manager-IsWithinBudget s)
