-- ===== src/Relay/Admission/Joined.antt =====
-- What a successful `join` of a live channel leaves: messages, seats and the key.
use mathlib.Core.Bool.{false≢true}
use myqrlwallet_backend.Prelude.{
  ℕ, ◌-◌, ◌≡◌, ◌⊎◌, refl, sym, ap, ◌∙◌, inl, inr, String, true, false, not, Option, none, some,
  str_eq, keep_if, is_some, arith, eq_iff, eq_refl, Dict.Dict, Option-cases, Bool-cases,
}
use myqrlwallet_backend.Prelude.Dict
use myqrlwallet_backend.Relay.Types.{
  ClientType, dapp, wallet, Channel, Participant, ChannelManager, Setup, World, JoinSuccess,
  success, modify,
}
use myqrlwallet_backend.Relay.Ledger.{finish_reservation, release_direct_delivery}
use myqrlwallet_backend.Relay.Ledger.Laws.{bytes}
use myqrlwallet_backend.Relay.Join.{
  evict_stale, admit_participant, changes_type, find_rival, is_for, payloads, roster,
  set_public_key, complete_join, bind_key, is_full, seat, replace_stale, lacks_key, join_channel,
  join_with_key, join, KeyResult, key, refused, canonical_public_key,
}
use myqrlwallet_backend.Relay.Channels.{release_messages-heap}
use myqrlwallet_backend.Relay.Channels.Joining.{heap_here, evict_stale-heap}

-- A bound key, or else the one presented.
abbrev pub first : Option String → Option String → Option String
first none k = k
first (some j) k = some j

first-none : (o : Option String) → first o none ≡ o
first-none none = refl
first-none (some j) = refl

-- A participant has joined the channel at `r`, presenting a key or not.
pub record Joined (w : World) (r : ℕ) (sid : String) (ct : ClientType) (k : Option String)
    (m n : ChannelManager) (res : JoinSuccess) : Type 0 where
  pub delivered : res.buffered_messages ≡ payloads (keep_if (is_for ct) (m.heap r).message_buffer)
  pub left_over :
      (n.heap r).message_buffer ≡ keep_if (λ msg. not (is_for ct msg)) (m.heap r).message_buffer
  pub seat :
      Dict.get sid (n.heap r).participants ≡ some (record { client_type = ct; joined_at = w.now })
  pub roster_given : res.participants ≡ roster sid (n.heap r).participants
  pub key_given : res.channel_public_key ≡ (n.heap r).public_key
  pub key_final : (n.heap r).public_key ≡ first (m.heap r).public_key k
  pub active_stay :
      (other : String)
      → (other ≡ sid)
        ⊎ (w.is_socket_active other ≡ false)
        ⊎ (Dict.get other (n.heap r).participants ≡ Dict.get other (m.heap r).participants)

complete_join-heap :
    (w : World) (r : ℕ) (sid : String) (ct : ClientType) (m : ChannelManager)
    → (n : ℕ) × ((complete_join w r sid ct m).0.heap r
        ≡ record (admit_participant w.now sid ct (m.heap r)) {
          message_buffer = keep_if (λ msg. not (is_for ct msg)) (m.heap r).message_buffer;
          buffered_bytes = (m.heap r).buffered_bytes - n;
        })
unfolding complete_join
complete_join-heap w r sid ct m =
    let joined = modify r (admit_participant w.now sid ct) m in
    let mine = keep_if (is_for ct) (joined.heap r).message_buffer in
    (bytes mine, ground (arith, release_messages-heap r mine joined r))

complete_join-result :
    (w : World) (r : ℕ) (sid : String) (ct : ClientType) (m : ChannelManager)
    → (complete_join w r sid ct m).1 ≡ (
        let c = (complete_join w r sid ct m).0.heap r in
        success (record {
          buffered_messages = payloads (keep_if (is_for ct) (m.heap r).message_buffer);
          channel_public_key = c.public_key;
          participants = roster sid c.participants;
          terminated = c.terminated;
        }))
unfolding complete_join
complete_join-result w r sid ct m =
    let joined = modify r (admit_participant w.now sid ct) m in
    let same : joined.heap r ≡ admit_participant w.now sid ct (m.heap r) =
      heap_here r (admit_participant w.now sid ct) m in
    ground (arith, ap (λ (c : Channel). payloads (keep_if (is_for ct) c.message_buffer)) same)

success-injective : (a b : JoinSuccess) → success a ≡ success b → a ≡ b
success-injective a b e = cc

complete_join-Joined :
    (w : World) (r : ℕ) (sid : String) (ct : ClientType) (m : ChannelManager) (res : JoinSuccess)
    → (complete_join w r sid ct m).1 ≡ success res
    → Joined w r sid ct none m (complete_join w r sid ct m).0 res
complete_join-Joined w r sid ct m res e =
    let (n, here) = complete_join-heap w r sid ct m in
    let given = success-injective _ res (sym (complete_join-result w r sid ct m) ∙ e) in
    let p : Participant = record { client_type = ct; joined_at = w.now } in
    record {
      delivered = sym (ap (λ (x : JoinSuccess). x.buffered_messages) given);
      left_over = ap (λ (c : Channel). c.message_buffer) here;
      seat =
          ap (λ (c : Channel). Dict.get sid c.participants) here
          ∙ Dict.get-put sid sid p (m.heap r).participants
          ∙ ground (arith, eq_refl sid);
      roster_given = sym (ap (λ (x : JoinSuccess). x.participants) given);
      key_given = sym (ap (λ (x : JoinSuccess). x.channel_public_key) given);
      key_final = ap (λ (c : Channel). c.public_key) here ∙ sym (first-none (m.heap r).public_key);
      active_stay = λ other. elim (Bool-cases (str_eq sid other)) [
        | inl self ↦ inl (sym ((eq_iff sid other).0 self))
        | inr ne ↦ inr (
            inr (
              ap (λ (c : Channel). Dict.get other c.participants) here
              ∙ Dict.get-put sid other p (m.heap r).participants
              ∙ ground (arith, ne)))
      ];
    }

-- A join seen from an earlier state whose channel has the same messages and active participants.
Joined-earlier :
    (w : World) (r : ℕ) (sid : String) (ct : ClientType) (k l : Option String)
    (m m' n : ChannelManager) (res : JoinSuccess)
    → (m'.heap r).message_buffer ≡ (m.heap r).message_buffer
    → first (m'.heap r).public_key l ≡ first (m.heap r).public_key k
    → ((other : String)
        → (w.is_socket_active other ≡ false)
          ⊎ (Dict.get other (m'.heap r).participants ≡ Dict.get other (m.heap r).participants))
    → Joined w r sid ct l m' n res
    → Joined w r sid ct k m n res
Joined-earlier w r sid ct k l m m' n res buffer keys stay f = record {
  delivered = f.delivered ∙ ap (λ b. payloads (keep_if (is_for ct) b)) buffer;
  left_over = f.left_over ∙ ap (keep_if (λ msg. not (is_for ct msg))) buffer;
  seat = f.seat;
  roster_given = f.roster_given;
  key_given = f.key_given;
  key_final = f.key_final ∙ keys;
  active_stay = λ other. ground (arith, f.active_stay other, stay other);
}

seat-Joined :
    (w : World) (r : ℕ) (sid : String) (ct : ClientType) (k : Option String) (m : ChannelManager)
    (res : JoinSuccess)
    → (seat w r sid ct k m).1 ≡ success res
    → Joined w r sid ct k m (seat w r sid ct k m).0 res
unfolding seat bind_key
seat-Joined w r sid ct none m res e = elim (Bool-cases (is_full sid (m.heap r))) [
  | inl full ↦ ground (arith, full)
  | inr room ↦
      rw (room, seat, bind_key)
        (complete_join-Joined w r sid ct m res (rw (room, seat, bind_key) at e))
]
seat-Joined w r sid ct (some k) m res e = elim (Bool-cases (is_full sid (m.heap r))) [
  | inl full ↦ ground (arith, full)
  | inr room ↦ elim (Option-cases (m.heap r).public_key) [
    | inl unbound ↦
        let m' = modify r (set_public_key (some k)) m in
        let here = heap_here r (set_public_key (some k)) m in
        rw (room, unbound, seat, bind_key)
          (Joined-earlier w r sid ct (some k) none m m' (complete_join w r sid ct m').0 res
            (ap (λ (c : Channel). c.message_buffer) here)
            (ap (λ (c : Channel). first c.public_key none) here
              ∙ ap (λ o. first o (some k)) (sym unbound))
            (λ other. inr (ap (λ (c : Channel). Dict.get other c.participants) here))
            (complete_join-Joined w r sid ct m' res (rw (room, unbound, seat, bind_key) at e)))
    | inr (old, bound) ↦ elim (Bool-cases (str_eq old k)) [
      | inl same ↦
          rw (room, bound, same, seat, bind_key)
            (Joined-earlier w r sid ct (some k) none m m (complete_join w r sid ct m).0 res refl
              (ground (arith, bound)) (λ other. inr refl)
              (complete_join-Joined w r sid ct m res (rw (room, bound, same, seat, bind_key) at e)))
      | inr other ↦ ground (arith, room, bound, other)
    ]
  ]
]

evict_stale-kept :
    (r : ℕ) (rival : String) (m : ChannelManager)
    → (((evict_stale r rival m).heap r).message_buffer ≡ (m.heap r).message_buffer)
      × (((evict_stale r rival m).heap r).public_key ≡ (m.heap r).public_key)
unfolding evict_stale release_direct_delivery finish_reservation
evict_stale-kept r rival m = (ground arith, ground arith)

join_channel-Joined :
    (w : World) (r : ℕ) (sid : String) (ct : ClientType) (k : Option String) (m : ChannelManager)
    (res : JoinSuccess)
    → (join_channel w r sid ct k m).1 ≡ success res
    → Joined w r sid ct k m (join_channel w r sid ct k m).0 res
      × (lacks_key ct k (m.heap r) ≡ false)
unfolding join_channel replace_stale
join_channel-Joined w r sid ct k m res e = elim (Bool-cases (lacks_key ct k (m.heap r))) [
  | inl lacks ↦ ground (arith, lacks)
  | inr has ↦ elim (Bool-cases (changes_type sid ct (m.heap r))) [
    | inl changed ↦ ground (arith, has, changed)
    | inr same ↦ elim (Option-cases (find_rival sid ct (m.heap r).participants)) [
      | inl f ↦ (
        rw (has, same, f, join_channel, replace_stale)
            (seat-Joined w r sid ct k m res (rw (has, same, f, join_channel, replace_stale) at e)),
        has,
      )
      | inr (rival, f) ↦ elim (Bool-cases (w.is_socket_active rival)) [
        | inl on ↦ ground (arith, has, same, f, on)
        | inr off ↦
            let m' = evict_stale r rival m in
            let kept = evict_stale-kept r rival m in
            (
              rw (has, same, f, off, join_channel, replace_stale)
                  (Joined-earlier w r sid ct k k m m' (seat w r sid ct k m').0 res kept.0
                    (ap (λ o. first o k) kept.1)
                    (λ other. elim (Bool-cases (str_eq rival other)) [
                      | inl q ↦ inl (sym (ap w.is_socket_active ((eq_iff rival other).0 q)) ∙ off)
                      | inr q ↦ inr (
                          ap (Dict.get other) (evict_stale-heap r rival m)
                          ∙ Dict.get-delete_ne rival other (m.heap r).participants
                              (λ x. false≢true (sym q ∙ (eq_iff rival other).1 x)))
                    ])
                    (seat-Joined w r sid ct k m' res
                      (rw (has, same, f, off, join_channel, replace_stale) at e))),
              has,
            )
      ]
    ]
  ]
]

-- A dApp presents the key that is bound, if one is: then it is the one bound after the join too.
dapp-key :
    (ct : ClientType) (k : Option String) (c : Channel)
    → lacks_key ct k c ≡ false
    → (ct ≡ wallet) ⊎ (c.public_key ≡ none) ⊎ (is_some k ≡ true)
dapp-key dapp none c e = ground arith
dapp-key dapp (some j) c e = inr (inr refl)
dapp-key wallet k c e = inl refl

-- A join of a live channel that succeeds hands over the buffered messages for its client type, in
-- the order of the buffer, and leaves the others there in theirs; the socket has its seat, and the
-- reply names the types of the other participants and the channel's key. A key that was bound stays,
-- and otherwise the key that the join presents is bound; a dApp has to present one where one was
-- bound. Every other participant whose socket is active stays as it was.
pub join-Joined :
    (s : Setup) (w : World) (channel_id sid : String) (ct : ClientType) (text ip : Option String)
    (m : ChannelManager) (r : ℕ) (res : JoinSuccess)
    → Dict.get channel_id m.channels ≡ some r
    → (m.heap r).terminated ≡ false
    → (join s w channel_id sid ct text ip m).1 ≡ success res
    → (k : Option String) × (canonical_public_key s ct text ≡ key k)
      × Joined w r sid ct k m (join s w channel_id sid ct text ip m).0 res
      × ((ct ≡ wallet) ⊎ ((m.heap r).public_key ≡ none) ⊎ (is_some k ≡ true))
unfolding join join_with_key
join-Joined s w channel_id sid ct text ip m r res found live e =
    by_key (canonical_public_key s ct text) refl
  where
    by_key :
        (x : KeyResult)
        → canonical_public_key s ct text ≡ x
        → (k : Option String) × (canonical_public_key s ct text ≡ key k)
          × Joined w r sid ct k m (join s w channel_id sid ct text ip m).0 res
          × ((ct ≡ wallet) ⊎ ((m.heap r).public_key ≡ none) ⊎ (is_some k ≡ true))
    by_key (refused x) p = ground (arith, p)
    by_key (key k) p =
        let (f, has) =
          join_channel-Joined w r sid ct k m res (rw (p, found, live, join, join_with_key) at e) in
        (k, p, rw (p, found, live, join, join_with_key) f, dapp-key ct k (m.heap r) has)
