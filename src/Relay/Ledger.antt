-- ===== src/Relay/Ledger.antt =====
-- The byte accounting of channelManager.ts: retain and release, and the direct reservations.
pub mod Laws
use myqrlwallet_backend.Prelude.{
  ℕ, ◌+◌, ◌-◌, String, Bool, Option, none, some, List, [], ◌∷◌, ltb, if◌then◌else◌, update,
  get_or_else, Dict.Dict,
}
use myqrlwallet_backend.Prelude.Dict
use myqrlwallet_backend.Relay.Types.{
  Channel, BufferedMessage, DirectDeliveryReservation, ChannelManager, modify,
}

abbrev pub ip_bytes : String → ChannelManager → ℕ
ip_bytes ip m = get_or_else (Dict.get ip m.buffered_bytes_by_ip) 0

unfoldable pub retain_ip_bytes : String → ℕ → ChannelManager → ChannelManager
retain_ip_bytes ip n m = record m {
  buffered_bytes_by_ip = Dict.put ip (ip_bytes ip m + n) m.buffered_bytes_by_ip;
}

-- The difference stops at 0 here and is negative there: both delete the entry.
unfoldable pub release_ip_bytes : String → ℕ → ChannelManager → ChannelManager
release_ip_bytes ip n m = record m {
  buffered_bytes_by_ip =
      let left = ip_bytes ip m - n in
      if ltb 0 left
      then Dict.put ip left m.buffered_bytes_by_ip
      else Dict.delete ip m.buffered_bytes_by_ip;
}

abbrev pub add_buffered : ℕ → Channel → Channel
add_buffered n c = record c { buffered_bytes = c.buffered_bytes + n }

-- `Math.max(0, a - b)` is subtraction on ℕ.
abbrev pub sub_buffered : ℕ → Channel → Channel
sub_buffered n c = record c { buffered_bytes = c.buffered_bytes - n }

unfoldable pub retain_buffered_bytes : ℕ → BufferedMessage → ChannelManager → ChannelManager
unfolding retain_ip_bytes
retain_buffered_bytes r msg m =
    retain_ip_bytes msg.source_ip msg.size_bytes
      (record (modify r (add_buffered msg.size_bytes) m) {
        total_buffered_bytes = m.total_buffered_bytes + msg.size_bytes;
      })

unfoldable pub release_buffered_bytes : ℕ → BufferedMessage → ChannelManager → ChannelManager
unfolding release_ip_bytes
release_buffered_bytes r msg m =
    release_ip_bytes msg.source_ip msg.size_bytes
      (record (modify r (sub_buffered msg.size_bytes) m) {
        total_buffered_bytes = m.total_buffered_bytes - msg.size_bytes;
      })

-- The loops that release each message of a list.
unfoldable pub release_messages : ℕ → List BufferedMessage → ChannelManager → ChannelManager
release_messages r [] m = m
release_messages r (msg ∷ msgs) m = release_messages r msgs (release_buffered_bytes r msg m)

abbrev pub add_direct : ℕ → Channel → Channel
add_direct n c = record c { direct_inflight_bytes = c.direct_inflight_bytes + n }

abbrev pub sub_direct : ℕ → Channel → Channel
sub_direct n c = record c { direct_inflight_bytes = c.direct_inflight_bytes - n }

unfoldable pub reserve_direct_delivery :
    String → DirectDeliveryReservation → ChannelManager → ChannelManager
unfolding retain_ip_bytes
reserve_direct_delivery socket_id res m =
    retain_ip_bytes res.source_ip res.size_bytes
      (record (modify res.channel (add_direct res.size_bytes) m) {
        direct_deliveries = Dict.put socket_id res m.direct_deliveries;
        total_direct_inflight_bytes = m.total_direct_inflight_bytes + res.size_bytes;
      })

unfoldable pub finish_reservation :
    String → DirectDeliveryReservation → ChannelManager → ChannelManager
unfolding release_ip_bytes
finish_reservation socket_id res m =
    release_ip_bytes res.source_ip res.size_bytes
      (record (modify res.channel (sub_direct res.size_bytes) m) {
        direct_deliveries = Dict.delete socket_id m.direct_deliveries;
        total_direct_inflight_bytes = m.total_direct_inflight_bytes - res.size_bytes;
      })

unfoldable pub release_direct_delivery : String → ChannelManager → ChannelManager
release_direct_delivery socket_id m = elim (Dict.get socket_id m.direct_deliveries) [
  | none ↦ m
  | some res ↦ finish_reservation socket_id res m
]
