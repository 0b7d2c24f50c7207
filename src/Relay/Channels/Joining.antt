-- ===== src/Relay/Channels/Joining.antt =====
-- `join` keeps a property of channels that the rule admits.
use myqrlwallet_backend.Prelude.{
  ℕ, ◌-◌, ◌≡◌, ◌≢◌, refl, ap, ◌∙◌, inl, inr, String, false, not, Option, none, some, [], ◌∷◌, ◌==◌,
  keep_if, arith, eq_iff, Dict.Dict, Option-cases, Bool-cases,
}
use myqrlwallet_backend.Prelude.Dict
use myqrlwallet_backend.Relay.Types.{
  ClientType, Channel, Participant, ChannelManager, Setup, World, modify,
}
use myqrlwallet_backend.Relay.Ledger.{finish_reservation, release_direct_delivery}
use myqrlwallet_backend.Relay.Join.{
  remove_participant, evict_stale, admit_participant, changes_type, find_rival, set_buffer, is_for,
  set_public_key, complete_join, bind_key, seat, replace_stale, join_channel, create_channel,
  join_with_key, join, KeyResult, key, refused, canonical_public_key,
}
use myqrlwallet_backend.Relay.Channels.{
  IsVacant, Rule, Everywhere, modify-Everywhere, release_modify-Everywhere,
  release_direct-Everywhere,
}

-- A rival is another socket.
pub rival-ne :
    (sid : String) (ct : ClientType) (ps : Dict Participant) (rival : String)
    → find_rival sid ct ps ≡ some rival
    → rival ≢ sid
unfolding find_rival
rival-ne sid ct [] rival e = cc
rival-ne sid ct ((s, p) ∷ ps) rival e = ground (arith, eq_iff s sid, rival-ne sid ct ps rival)

pub heap_here :
    (r : ℕ) (f : Channel → Channel) (m : ChannelManager) → (modify r f m).heap r ≡ f (m.heap r)
heap_here r f m = ground arith

-- What the eviction of a rival leaves of the channel: all but its entries and the direct bytes.
pub evict_stale-heap :
    (r : ℕ) (rival : String) (m : ChannelManager)
    → ((evict_stale r rival m).heap r).participants ≡ Dict.delete rival (m.heap r).participants
unfolding evict_stale release_direct_delivery finish_reservation
evict_stale-heap r rival m = ground arith

pub evict_stale-terminated :
    (r : ℕ) (rival : String) (m : ChannelManager)
    → ((evict_stale r rival m).heap r).terminated ≡ (m.heap r).terminated
unfolding evict_stale release_direct_delivery finish_reservation
evict_stale-terminated r rival m = ground arith

changes_type-evict :
    (r : ℕ) (sid rival : String) (ct : ClientType) (m : ChannelManager)
    → rival ≢ sid
    → changes_type sid ct (m.heap r) ≡ false
    → changes_type sid ct ((evict_stale r rival m).heap r) ≡ false
changes_type-evict r sid rival ct m ne h = ground (
  arith,
  ap (Dict.get sid) (evict_stale-heap r rival m),
  Dict.get-delete_ne rival sid (m.heap r).participants ne,
)

created-live :
    (channel_id : String) (now : ℕ) (ip : Option String) (m : ChannelManager)
    → ((create_channel channel_id now ip m).heap m.next_ref).terminated ≡ false
unfolding create_channel
created-live channel_id now ip m = ground arith

module _ (P : Channel → Type 0) (rule : Rule P) where
  complete_join-Everywhere :
      (w : World) (r : ℕ) (sid : String) (ct : ClientType) (m : ChannelManager)
      → (m.heap r).terminated ≡ false
      → changes_type sid ct (m.heap r) ≡ false
      → IsVacant P sid ct (m.heap r)
      → Everywhere P m
      → Everywhere P (complete_join w r sid ct m).0
  unfolding complete_join
  complete_join-Everywhere w r sid ct m live same vacant all =
      let joined = modify r (admit_participant w.now sid ct) m in
      let buffer = (joined.heap r).message_buffer in
      let rest = keep_if (λ msg. not (is_for ct msg)) buffer in
      let here : P (joined.heap r) =
        rw (heap_here r (admit_participant w.now sid ct) m)
          (rule.admit w.now sid ct (m.heap r) (all r) live same vacant) in
      release_modify-Everywhere P rule r (keep_if (is_for ct) buffer) (set_buffer rest) joined
        (λ n.
          rule.counts ((joined.heap r).buffered_bytes - n) (joined.heap r).direct_inflight_bytes
            (set_buffer rest (joined.heap r))
            (rule.filter (λ msg. not (is_for ct msg)) (joined.heap r) here))
        (modify-Everywhere P rule r (admit_participant w.now sid ct) m
          (rule.admit w.now sid ct (m.heap r) (all r) live same vacant) all)

  seat-Everywhere :
      (w : World) (r : ℕ) (sid : String) (ct : ClientType) (k : Option String) (m : ChannelManager)
      → (m.heap r).terminated ≡ false
      → changes_type sid ct (m.heap r) ≡ false
      → IsVacant P sid ct (m.heap r)
      → Everywhere P m
      → Everywhere P (seat w r sid ct k m).0
  unfolding seat bind_key
  seat-Everywhere w r sid ct none m live same vacant all =
      ground (arith, all, complete_join-Everywhere w r sid ct m live same vacant all)
  seat-Everywhere w r sid ct (some k) m live same vacant all =
      elim (Option-cases (m.heap r).public_key) [
        | inl unbound ↦
            let bound = modify r (set_public_key (some k)) m in
            ground (
              arith,
              unbound,
              all,
              complete_join-Everywhere w r sid ct bound
                  (rw (heap_here r (set_public_key (some k)) m) live)
                  (rw (heap_here r (set_public_key (some k)) m) same)
                  (rw (heap_here r (set_public_key (some k)) m) vacant)
                  (modify-Everywhere P rule r (set_public_key (some k)) m
                    (rule.bind k (m.heap r) (all r) live unbound) all),
            )
        | inr (old, bound) ↦
            ground (arith, bound, all, complete_join-Everywhere w r sid ct m live same vacant all)
      ]

  evict_stale-Everywhere :
      (r : ℕ) (rival : String) (m : ChannelManager)
      → Everywhere P m
      → Everywhere P (evict_stale r rival m)
  unfolding evict_stale
  evict_stale-Everywhere r rival m all =
      release_direct-Everywhere P rule rival (modify r (remove_participant rival) m) (
        modify-Everywhere P rule r (remove_participant rival) m
          (rule.remove rival (m.heap r) (all r)) all)

  join_channel-Everywhere :
      (w : World) (r : ℕ) (sid : String) (ct : ClientType) (k : Option String) (m : ChannelManager)
      → (m.heap r).terminated ≡ false
      → Everywhere P m
      → Everywhere P (join_channel w r sid ct k m).0
  unfolding join_channel replace_stale
  join_channel-Everywhere w r sid ct k m live all =
      elim (Bool-cases (changes_type sid ct (m.heap r))) [
        | inl changed ↦ ground (arith, changed, all)
        | inr same ↦ elim (Option-cases (find_rival sid ct (m.heap r).participants)) [
          | inl e ↦
              ground (arith, same, e, all, seat-Everywhere w r sid ct k m live same (inl e) all)
          | inr (rival, e) ↦
              let m' = evict_stale r rival m in
              ground (
                arith,
                same,
                e,
                all,
                seat-Everywhere w r sid ct k m' (evict_stale-terminated r rival m ∙ live)
                    (changes_type-evict r sid rival ct m
                      (rival-ne sid ct (m.heap r).participants rival e) same)
                    (inr (rival, m.heap r, all r, e, evict_stale-heap r rival m))
                    (evict_stale-Everywhere r rival m all),
              )
        ]
      ]

  create_channel-Everywhere :
      (channel_id : String) (now : ℕ) (ip : Option String) (m : ChannelManager)
      → Everywhere P m
      → Everywhere P (create_channel channel_id now ip m)
  unfolding create_channel
  create_channel-Everywhere channel_id now ip m all k = elim (Bool-cases (k == m.next_ref)) [
    | inl e ↦ rw e (rule.fresh now ip)
    | inr e ↦ rw e (all k)
  ]

  join_with_key-Everywhere :
      (s : Setup) (w : World) (channel_id sid : String) (ct : ClientType) (k ip : Option String)
      (m : ChannelManager)
      → Everywhere P m
      → Everywhere P (join_with_key s w channel_id sid ct k ip m).0
  unfolding join_with_key
  join_with_key-Everywhere s w channel_id sid ct k ip m all =
      elim (Option-cases (Dict.get channel_id m.channels)) [
        | inl e ↦ ground (
          arith,
          e,
          all,
          join_channel-Everywhere w m.next_ref sid ct k (create_channel channel_id w.now ip m)
              (created-live channel_id w.now ip m)
              (create_channel-Everywhere channel_id w.now ip m all),
        )
        | inr (r, e) ↦ elim (Bool-cases (m.heap r).terminated) [
          | inl dead ↦ ground (arith, e, dead, all)
          | inr live ↦ ground (arith, e, live, join_channel-Everywhere w r sid ct k m live all)
        ]
      ]

  pub join-Everywhere :
      (s : Setup) (w : World) (channel_id sid : String) (ct : ClientType) (text ip : Option String)
      (m : ChannelManager)
      → Everywhere P m
      → Everywhere P (join s w channel_id sid ct text ip m).0
  unfolding join
  join-Everywhere s w channel_id sid ct text ip m all = by_key (canonical_public_key s ct text) refl
    where
      by_key :
          (k : KeyResult)
          → canonical_public_key s ct text ≡ k
          → Everywhere P (join s w channel_id sid ct text ip m).0
      by_key (refused e) q = rw (q, join) all
      by_key (key k) q = rw (q, join) (join_with_key-Everywhere s w channel_id sid ct k ip m all)
