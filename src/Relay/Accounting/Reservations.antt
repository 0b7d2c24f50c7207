-- ===== src/Relay/Accounting/Reservations.antt =====
-- Making and finishing a direct-delivery reservation keeps the ledger.
use myqrlwallet_backend.Prelude.{
  ℕ, ◌+◌, ◌-◌, ◌<◌, ◌≡◌, ◌∙◌, inl, inr, String, none, some, sum_by, sum_to_ext, arith, Dict.Dict,
  Option-cases,
}
use myqrlwallet_backend.Prelude.Dict
use myqrlwallet_backend.Relay.Types.{DirectDeliveryReservation, ChannelManager}
use myqrlwallet_backend.Relay.Ledger.{
  ip_bytes, reserve_direct_delivery, finish_reservation, release_direct_delivery,
}
use myqrlwallet_backend.Relay.Ledger.Laws.{
  bytes_from, ip_bytes-retain, ip_bytes-release, retain_ip-IsDistinct, release_ip-IsDistinct,
}
use myqrlwallet_backend.Relay.Accounting.{
  Entry, reserved, reserved_in, reserved_from, IsLive, IsAccounted,
}

-- A new entry adds its part to a sum over the reservations.
sum_by-reserve :
    (f : Entry → ℕ) (s : String) (res : DirectDeliveryReservation)
    (ds : Dict DirectDeliveryReservation)
    → Dict.get s ds ≡ none
    → sum_by f (Dict.put s res ds) ≡ sum_by f ds + f (s, res)
sum_by-reserve f s res ds e = ground (arith, Dict.sum_by-put f s res ds)

sum_by-finish :
    (f : Entry → ℕ) (s : String) (res : DirectDeliveryReservation)
    (ds : Dict DirectDeliveryReservation)
    → Dict.get s ds ≡ some res
    → sum_by f (Dict.delete s ds) + f (s, res) ≡ sum_by f ds
sum_by-finish f s res ds e = ground (arith, Dict.sum_by-delete f s ds)

module _ (s : String) (res : DirectDeliveryReservation) (m : ChannelManager) where
  reserve-ip :
      (ip : String)
      → ip_bytes ip (reserve_direct_delivery s res m) ≡ ip_bytes ip m + reserved_from ip (s, res)
  unfolding reserve_direct_delivery
  reserve-ip ip = ip_bytes-retain res.source_ip ip res.size_bytes m

  finish-ip :
      Dict.IsDistinct m.buffered_bytes_by_ip
      → (ip : String)
      → ip_bytes ip (finish_reservation s res m) ≡ ip_bytes ip m - reserved_from ip (s, res)
  unfolding finish_reservation
  finish-ip d ip = ip_bytes-release res.source_ip ip res.size_bytes m d

  pub reserve-IsAccounted :
      Dict.get s m.direct_deliveries ≡ none
      → res.channel < m.next_ref
      → IsAccounted m
      → IsAccounted (reserve_direct_delivery s res m)
  unfolding reserve_direct_delivery
  reserve-IsAccounted free h a = record {
    buffered = λ k. ground (arith, a.buffered k);
    direct = λ k.
        ground (arith, a.direct k, sum_by-reserve (reserved_in k) s res m.direct_deliveries free);
    total = a.total ∙ sum_to_ext m.next_ref _ _ (λ k. ground arith);
    total_direct =
        omega (arith, a.total_direct, sum_by-reserve reserved s res m.direct_deliveries free);
    by_ip = λ ip. omega (
      arith,
      reserve-ip ip,
      a.by_ip ip,
      sum_by-reserve (reserved_from ip) s res m.direct_deliveries free,
      sum_to_ext m.next_ref (λ k. bytes_from ip (m.heap k).message_buffer)
          (λ k. bytes_from ip ((reserve_direct_delivery s res m).heap k).message_buffer)
          (λ k. ground arith),
    );
    live = Dict.All-put (IsLive m.next_ref) s res m.direct_deliveries h a.live;
    refs = a.refs;
    one_each = Dict.put-IsDistinct s res m.direct_deliveries a.one_each;
    by_ip_distinct = retain_ip-IsDistinct res.source_ip res.size_bytes m a.by_ip_distinct;
  }

  pub finish-IsAccounted :
      Dict.get s m.direct_deliveries ≡ some res
      → IsAccounted m
      → IsAccounted (finish_reservation s res m)
  unfolding finish_reservation
  finish-IsAccounted held a = record {
    buffered = λ k. ground (arith, a.buffered k);
    direct = λ k.
        ground (arith, a.direct k, sum_by-finish (reserved_in k) s res m.direct_deliveries held);
    total = a.total ∙ sum_to_ext m.next_ref _ _ (λ k. ground arith);
    total_direct =
        omega (arith, a.total_direct, sum_by-finish reserved s res m.direct_deliveries held);
    by_ip = λ ip. omega (
      arith,
      finish-ip a.by_ip_distinct ip,
      a.by_ip ip,
      sum_by-finish (reserved_from ip) s res m.direct_deliveries held,
      sum_to_ext m.next_ref (λ k. bytes_from ip (m.heap k).message_buffer)
          (λ k. bytes_from ip ((finish_reservation s res m).heap k).message_buffer)
          (λ k. ground arith),
    );
    live = Dict.All-delete (IsLive m.next_ref) s m.direct_deliveries a.live;
    refs = a.refs;
    one_each = Dict.delete-IsDistinct s m.direct_deliveries a.one_each;
    by_ip_distinct = release_ip-IsDistinct res.source_ip res.size_bytes m a.by_ip_distinct;
  }

pub release_direct-IsAccounted :
    (s : String) (m : ChannelManager) → IsAccounted m → IsAccounted (release_direct_delivery s m)
unfolding release_direct_delivery
release_direct-IsAccounted s m a = elim (Option-cases (Dict.get s m.direct_deliveries)) [
  | inl e ↦ rw (e, release_direct_delivery) a
  | inr (res, e) ↦ rw (e, release_direct_delivery) (finish-IsAccounted s res m e a)
]
