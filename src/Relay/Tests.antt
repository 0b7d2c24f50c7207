-- ===== src/Relay/Tests.antt =====
-- Runs of the channel manager on small inputs, and each theorem applied to one.
use myqrlwallet_backend.Prelude.{
  ℕ, ◌≤◌, ◌≡◌, ◌≢◌, ◌⊎◌, eq_iff, refl, String, true, false, Option, none, some, List, [], ◌∷◌,
  length, arith, keep_if, is_some, if◌then◌else◌, Dict.Dict,
}
use myqrlwallet_backend.Prelude.Dict
use myqrlwallet_backend.Value.{Value}
use myqrlwallet_backend.Relay.Types.{
  dapp, wallet, RelayPayload, ChannelManager, Setup, World, key_required, JoinSuccess, success,
  failure, replay_rejected, max_participants, max_buffered_messages, modify,
}
use myqrlwallet_backend.Relay.Ledger.{
  release_direct_delivery, finish_reservation, reserve_direct_delivery, release_buffered_bytes,
  retain_buffered_bytes, release_messages, retain_ip_bytes, release_ip_bytes,
}
use myqrlwallet_backend.Relay.Join.{
  key, canonical_public_key, join, join_with_key, is_base64, over_channel_quota,
  count_live_channels_created_by, create_channel, find_rival, evict_stale, roster, complete_join,
  bind_key, is_full, seat, replace_stale, join_channel,
}
use myqrlwallet_backend.Relay.Lifecycle.{
  new_manager, cleanup, is_fresh, close, bury, evict_tombstones,
}
use myqrlwallet_backend.Relay.Route.{
  refuse, touch, route_message, advance_direct_delivery, route_accepted, dispatch, route_to_buffer,
  deliver_directly, can_deliver, buffer_message, counterparty, is_replay, over_budget,
  oldest_over_cap, drop_oldest, fits_direct, take_first, promote, advance_in,
}
use myqrlwallet_backend.Relay.Run.{
  Call, joins, routes, releases, advances, leaves, closes, step, run,
}
use myqrlwallet_backend.Relay.Accounting.{IsAccounted}
use myqrlwallet_backend.Relay.Accounting.Runs.{run-IsAccounted}
use myqrlwallet_backend.Relay.Budgets.{IsWithinBudget}
use myqrlwallet_backend.Relay.Budgets.Routing.{run-IsWithinBudget}
use myqrlwallet_backend.Relay.Messages.Cases.{Outcome}
use myqrlwallet_backend.Relay.Messages.Outcomes.{route_message-Outcome}
use myqrlwallet_backend.Relay.Messages.Replay.{accepted_seq_not_replayed}
use myqrlwallet_backend.Relay.Admission.{SameChannels, join_failure}
use myqrlwallet_backend.Relay.Admission.Joined.{Joined, join-Joined}
use myqrlwallet_backend.Relay.Delivery.{Promoted, advance-Promoted}
use myqrlwallet_backend.Relay.Expiry.{is_listed, cleanup-buffer}
use myqrlwallet_backend.Relay.Channels.Seats.{run_bounds, tombstone_empty, count_type}

abbrev setup : Setup
setup = record {
  max_channels_per_ip = some 3;
  max_bytes_per_channel = 1000;
  max_bytes_per_ip = 1500;
  max_bytes_global = 4000;
  decode_base64 = λ _. 1 ∷ 2 ∷ 3 ∷ [];
  encode_base64 = λ _. "AQID";
  serialized_size = λ _. some 100;
}

abbrev at : ℕ → World
at t = record { now = t; is_socket_active = λ _. true; can_socket_receive = λ _. true }

abbrev note : ℕ → RelayPayload
note n = record { id = "c"; client_type = dapp; message = Value.null; seq = some n }

abbrev call_dapp : World × Call
call_dapp = (at 1, joins "c" "d" dapp (some "AQID") (some "1.1.1.1"))

abbrev call_wallet : World × Call
call_wallet = (at 2, joins "c" "w" wallet none (some "2.2.2.2"))

abbrev send : ℕ → World × Call
send n = (at 3, routes "c" "d" (note n) "1.1.1.1")

-- A message buffered for the wallet, the wallet joins, and two more messages: one in flight, one
-- buffered behind it.
abbrev script : List (World × Call)
script = call_dapp ∷ send 1 ∷ call_wallet ∷ send 2 ∷ send 3 ∷ []

unfoldable after : List (World × Call) → ChannelManager
after cs = run setup cs new_manager

script-buffer : length ((after script).heap 0).message_buffer ≡ 1
unfolding after run step new_manager join join_with_key canonical_public_key is_base64
    over_channel_quota count_live_channels_created_by keep_if join_channel create_channel
    replace_stale find_rival evict_stale seat is_full bind_key complete_join roster release_messages
    Dict.get Dict.put Dict.delete route_message route_accepted dispatch route_to_buffer
    deliver_directly can_deliver buffer_message counterparty is_replay reserve_direct_delivery
    retain_buffered_bytes retain_ip_bytes release_ip_bytes release_buffered_bytes
    release_direct_delivery finish_reservation over_budget oldest_over_cap drop_oldest fits_direct
script-buffer = refl

run-IsAccounted_example : IsAccounted (run setup script new_manager)
run-IsAccounted_example = run-IsAccounted setup script

run-IsWithinBudget_example : IsWithinBudget setup (run setup script new_manager)
run-IsWithinBudget_example = run-IsWithinBudget setup script

run_bounds_example :
    let c = (run setup script new_manager).heap 0 in
    (count_type dapp c.participants ≤ 1)
    × (count_type wallet c.participants ≤ 1)
    × (length c.participants ≤ max_participants)
    × Dict.IsDistinct c.participants
    × (length c.message_buffer ≤ max_buffered_messages)
run_bounds_example = run_bounds setup script 0

abbrev closing : List (World × Call)
closing = call_dapp ∷ send 1 ∷ (at 5, closes "c") ∷ []

closing-terminated : ((run setup closing new_manager).heap 0).terminated ≡ true
unfolding after run step new_manager join join_with_key canonical_public_key is_base64
    over_channel_quota count_live_channels_created_by keep_if join_channel create_channel
    replace_stale find_rival evict_stale seat is_full bind_key complete_join roster release_messages
    Dict.get Dict.put Dict.delete route_message route_accepted dispatch route_to_buffer
    deliver_directly can_deliver buffer_message counterparty is_replay reserve_direct_delivery
    retain_buffered_bytes retain_ip_bytes release_ip_bytes release_buffered_bytes
    release_direct_delivery finish_reservation over_budget oldest_over_cap drop_oldest fits_direct
    close bury evict_tombstones
closing-terminated = refl

tombstone_empty_example :
    let c = (run setup closing new_manager).heap 0 in
    (c.participants ≡ []) × (c.message_buffer ≡ []) × (c.public_key ≡ none)
tombstone_empty_example = tombstone_empty setup closing 0 closing-terminated

-- The dApp alone.
unfoldable opened : ChannelManager
opened = after (call_dapp ∷ [])

-- A message waits for the wallet.
unfoldable waiting : ChannelManager
waiting = after (call_dapp ∷ send 1 ∷ [])

route_message-Outcome_example :
    let x = route_message setup (at 3) "c" "d" (note 1) "1.1.1.1" opened in
    Outcome setup (at 3) "c" "d" (note 1) "1.1.1.1" opened x.0 x.1
route_message-Outcome_example = route_message-Outcome setup (at 3) "c" "d" (note 1) "1.1.1.1" opened

first_sent : (route_message setup (at 3) "c" "d" (note 5) "1.1.1.1" opened).1.error ≡ none
unfolding opened after run step new_manager join join_with_key canonical_public_key is_base64
    over_channel_quota count_live_channels_created_by keep_if join_channel create_channel
    replace_stale find_rival evict_stale seat is_full bind_key complete_join roster release_messages
    Dict.get Dict.put Dict.delete route_message route_accepted dispatch route_to_buffer
    deliver_directly can_deliver buffer_message counterparty is_replay reserve_direct_delivery
    retain_buffered_bytes retain_ip_bytes release_ip_bytes release_buffered_bytes
    release_direct_delivery finish_reservation over_budget oldest_over_cap drop_oldest fits_direct
first_sent = refl

-- The wallet answers on the channel, and a socket that is not there leaves.
abbrev traffic : List (World × Call)
traffic =
    (at 5, routes "c" "w" (note 1) "2.2.2.2")
    ∷ (at 6, releases "w")
    ∷ (at 7, advances "d")
    ∷ (at 8, leaves "w" "c")
    ∷ []

wallet_is_other : ◌≢◌ {A = String} "w" "d"
wallet_is_other e = ground (arith, eq_iff "w" "d", e)

accepted_seq_not_replayed_example :
    let m = run setup traffic (route_message setup (at 3) "c" "d" (note 5) "1.1.1.1" opened).0 in
    (r : ℕ) × (Dict.get "c" m.channels ≡ some r)
    × (route_message setup (at 9) "c" "d" (note 4) "3.3.3.3" m
        ≡ (modify r (touch 9) m, refuse none replay_rejected))
accepted_seq_not_replayed_example =
    accepted_seq_not_replayed setup (at 3) (at 9) "c" "d" (note 5) (note 4) "1.1.1.1" "3.3.3.3"
      opened traffic 5 4 first_sent refl (tt, (tt, (tt, (wallet_is_other, tt)))) refl (omega arith)
      refl

keyless_join :
    (join setup (at 4) "c" "e" dapp none (some "3.3.3.3") waiting).1 ≡ failure key_required
unfolding waiting after run step new_manager join join_with_key canonical_public_key is_base64
    over_channel_quota count_live_channels_created_by keep_if join_channel create_channel
    replace_stale find_rival evict_stale seat is_full bind_key complete_join roster release_messages
    Dict.get Dict.put Dict.delete route_message route_accepted dispatch route_to_buffer
    deliver_directly can_deliver buffer_message counterparty is_replay reserve_direct_delivery
    retain_buffered_bytes retain_ip_bytes release_ip_bytes release_buffered_bytes
    release_direct_delivery finish_reservation over_budget oldest_over_cap drop_oldest fits_direct
keyless_join = refl

join_failure_example :
    SameChannels waiting (join setup (at 4) "c" "e" dapp none (some "3.3.3.3") waiting).0
join_failure_example =
    join_failure setup (at 4) "c" "e" dapp none (some "3.3.3.3") waiting key_required keyless_join

abbrev wallet_reply : JoinSuccess
wallet_reply = record {
  buffered_messages = note 1 ∷ [];
  channel_public_key = some "AQID";
  participants = dapp ∷ [];
  terminated = false;
}

wallet_join :
    (Dict.get "c" waiting.channels ≡ some 0)
    × ((waiting.heap 0).terminated ≡ false)
    × ((join setup (at 4) "c" "w" wallet none none waiting).1 ≡ success wallet_reply)
unfolding waiting after run step new_manager join join_with_key canonical_public_key is_base64
    over_channel_quota count_live_channels_created_by keep_if join_channel create_channel
    replace_stale find_rival evict_stale seat is_full bind_key complete_join roster release_messages
    Dict.get Dict.put Dict.delete route_message route_accepted dispatch route_to_buffer
    deliver_directly can_deliver buffer_message counterparty is_replay reserve_direct_delivery
    retain_buffered_bytes retain_ip_bytes release_ip_bytes release_buffered_bytes
    release_direct_delivery finish_reservation over_budget oldest_over_cap drop_oldest fits_direct
wallet_join = (refl, refl, refl)

join-Joined_example :
    (k : Option String) × (canonical_public_key setup wallet none ≡ key k)
    × Joined
        (at 4)
        0
        "w"
        wallet
        k
        waiting
        (join setup (at 4) "c" "w" wallet none none waiting).0
        wallet_reply
    × ((wallet ≡ wallet) ⊎ ((waiting.heap 0).public_key ≡ none) ⊎ (is_some k ≡ true))
join-Joined_example =
    join-Joined setup (at 4) "c" "w" wallet none none waiting 0 wallet_reply wallet_join.0
      wallet_join.1 wallet_join.2

script-advance : (advance_direct_delivery "w" (after script)).1 ≡ some (note 3)
unfolding after run step new_manager join join_with_key canonical_public_key is_base64
    over_channel_quota count_live_channels_created_by keep_if join_channel create_channel
    replace_stale find_rival evict_stale seat is_full bind_key complete_join roster release_messages
    Dict.get Dict.put Dict.delete route_message route_accepted dispatch route_to_buffer
    deliver_directly can_deliver buffer_message counterparty is_replay reserve_direct_delivery
    retain_buffered_bytes retain_ip_bytes release_ip_bytes release_buffered_bytes
    release_direct_delivery finish_reservation over_budget oldest_over_cap drop_oldest fits_direct
    advance_direct_delivery advance_in take_first promote
script-advance = refl

advance-Promoted_example :
    Promoted "w" (after script) (advance_direct_delivery "w" (after script)).0 (note 3)
advance-Promoted_example = advance-Promoted "w" (after script) (note 3) script-advance

cleanup-buffer_example : ((cleanup 400000 waiting).heap 0).message_buffer ≡ (
    if is_listed 0 waiting.channels
    then keep_if (is_fresh 400000) (waiting.heap 0).message_buffer
    else (waiting.heap 0).message_buffer)
cleanup-buffer_example = cleanup-buffer 400000 waiting 0
