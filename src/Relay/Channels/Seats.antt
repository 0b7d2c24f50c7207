-- ===== src/Relay/Channels/Seats.antt =====
-- Participants and buffers: one dApp, one wallet, the message-count cap, and empty tombstones.
use myqrlwallet_backend.Prelude.{
  ℕ, ◌+◌, ◌<◌, ◌≤◌, ◌≡◌, ◌≢◌, refl, ap, inl, inr, String, Bool, true, none, some, List, [], ◌∷◌,
  if◌then◌else◌, keep_if, length, length-append, length-keep_if, sum_by, arith, eq_iff, Dict.Dict,
  Option-cases, Bool-cases,
}
use myqrlwallet_backend.Prelude.Dict
use myqrlwallet_backend.Relay.Types.{
  ClientType, dapp, wallet, same_type, Channel, Participant, BufferedMessage, Setup, World,
  max_buffered_messages, max_participants,
}
use myqrlwallet_backend.Relay.Join.{find_rival, is_for}
use myqrlwallet_backend.Relay.Lifecycle.{new_manager}
use myqrlwallet_backend.Relay.Route.{oldest_over_cap, take_first}
use myqrlwallet_backend.Relay.Run.{Call, run}
use myqrlwallet_backend.Relay.Channels.{IsVacant, Rule, trim}
use myqrlwallet_backend.Relay.Channels.Calls.{run-Everywhere}

abbrev pub seat_of : ClientType → String × Participant → ℕ
seat_of ct e = if same_type e.1.client_type ct then 1 else 0

-- How many participants of a type there are.
abbrev pub count_type : ClientType → Dict Participant → ℕ
count_type ct = sum_by (seat_of ct)

no_rival-count :
    (sid : String) (ct : ClientType) (ps : Dict Participant)
    → Dict.IsDistinct ps
    → find_rival sid ct ps ≡ none
    → count_type ct ps ≤ Dict.share (seat_of ct) sid ps
unfolding find_rival sum_by Dict.get
no_rival-count sid ct [] d e = omega arith
no_rival-count sid ct ((s, p) ∷ ps) d e = ground (arith, eq_iff s sid, no_rival-count sid ct ps d.1)

rival-share :
    (sid : String) (ct : ClientType) (ps : Dict Participant) (rival : String)
    → Dict.IsDistinct ps
    → find_rival sid ct ps ≡ some rival
    → Dict.share (seat_of ct) rival ps ≡ 1
unfolding find_rival Dict.get
rival-share sid ct [] rival d e = cc
rival-share sid ct ((s, p) ∷ ps) rival d e =
    ground (arith, eq_iff s sid, eq_iff s rival, rival-share sid ct ps rival d.1)

-- Once a rival is gone no participant of its type is left.
evicted-count :
    (sid : String) (ct : ClientType) (ps : Dict Participant) (rival : String)
    → Dict.IsDistinct ps
    → count_type ct ps ≤ 1
    → find_rival sid ct ps ≡ some rival
    → count_type ct (Dict.delete rival ps) ≡ 0
evicted-count sid ct ps rival d one e =
    omega (arith, rival-share sid ct ps rival d e, Dict.sum_by-delete (seat_of ct) rival ps)

delete-count-le :
    (ct : ClientType) (sid : String) (ps : Dict Participant)
    → count_type ct (Dict.delete sid ps) ≤ count_type ct ps
delete-count-le ct sid ps = omega (arith, Dict.sum_by-delete (seat_of ct) sid ps)

-- At most one dApp and one wallet, at most 50 messages, and nothing in a tombstone.
pub record IsSound (c : Channel) : Type 0 where
  pub distinct : Dict.IsDistinct c.participants
  pub one_each : (ct : ClientType) → count_type ct c.participants ≤ 1
  pub capped : length c.message_buffer ≤ max_buffered_messages
  pub dead :
      c.terminated ≡ true → (c.participants ≡ []) × (c.message_buffer ≡ []) × (c.public_key ≡ none)

abbrev seated : ℕ → ClientType → Participant
seated now ct = record { client_type = ct; joined_at = now }

module _ (now : ℕ) (sid : String) (ct : ClientType) (c : Channel) (h : IsSound c)
    (vacant : IsVacant IsSound sid ct c) where
  -- The seats of the type that are taken by others are none.
  others_of_type : count_type ct c.participants ≤ Dict.share (seat_of ct) sid c.participants
  others_of_type = by_rival vacant
    where
      by_rival :
          IsVacant IsSound sid ct c
          → count_type ct c.participants ≤ Dict.share (seat_of ct) sid c.participants
      by_rival (inl e) = no_rival-count sid ct c.participants h.distinct e
      by_rival (inr (rival, old, good, e, same)) = omega (
        arith,
        ap (count_type ct) same,
        evicted-count sid ct old.participants rival good.distinct (good.one_each ct) e,
      )

  admit-one_each :
      (dt : ClientType) → count_type dt (Dict.put sid (seated now ct) c.participants) ≤ 1
  admit-one_each dt = ground (
    arith,
    others_of_type,
    h.one_each dt,
    Dict.sum_by-put (seat_of dt) sid (seated now ct) c.participants,
  )

length-take_first :
    (ct : ClientType) (buffer rest : List BufferedMessage) (found : BufferedMessage)
    → take_first ct buffer ≡ some (found, rest)
    → length buffer ≡ length rest + 1
unfolding take_first
length-take_first ct [] rest found e = cc
length-take_first ct (msg ∷ buffer) rest found e = elim (Bool-cases (is_for ct msg)) [
  | inl hit ↦ ground (arith, hit)
  | inr miss ↦ elim (Option-cases (take_first ct buffer)) [
    | inl q ↦ ground (arith, miss, q)
    | inr (p, q) ↦ ground (arith, miss, q, length-take_first ct buffer p.1 p.0 q)
  ]
]

length-trim :
    (buffer : List BufferedMessage)
    → length buffer ≤ max_buffered_messages
    → length (trim buffer) < max_buffered_messages
unfolding oldest_over_cap
length-trim [] h = omega arith
length-trim (msg ∷ buffer) h = ground arith

take_first-nil :
    (ct : ClientType) (buffer rest : List BufferedMessage) (found : BufferedMessage)
    → take_first ct buffer ≡ some (found, rest)
    → buffer ≢ []
take_first-nil ct buffer rest found e nil =
    absurd (omega (arith, length-take_first ct buffer rest found e, ap length nil))

keep_if-nil :
    (p : BufferedMessage → Bool) (buffer : List BufferedMessage)
    → buffer ≡ []
    → keep_if p buffer ≡ []
unfolding keep_if
keep_if-nil p [] e = refl
keep_if-nil p (msg ∷ buffer) e = cc

delete-nil : (sid : String) (ps : Dict Participant) → ps ≡ [] → Dict.delete sid ps ≡ []
unfolding Dict.delete
delete-nil sid [] e = refl
delete-nil sid (p ∷ ps) e = cc

zero_seats : (ct : ClientType) → count_type ct [] ≤ 1
unfolding sum_by
zero_seats ct = omega arith

IsSound-rule : Rule IsSound
IsSound-rule = record {
  fresh = λ now ip. record {
    distinct = tt;
    one_each = λ ct. zero_seats ct;
    capped = omega arith;
    dead = λ e. cc;
  };
  counts = λ b d c h. record {
    distinct = h.distinct;
    one_each = h.one_each;
    capped = h.capped;
    dead = h.dead;
  };
  remove = λ sid c h. record {
    distinct = Dict.delete-IsDistinct sid c.participants h.distinct;
    one_each = λ ct. omega (arith, delete-count-le ct sid c.participants, h.one_each ct);
    capped = h.capped;
    dead = λ e. (delete-nil sid c.participants (h.dead e).0, (h.dead e).1, (h.dead e).2);
  };
  admit = λ now sid ct c h live same vacant. record {
    distinct = Dict.put-IsDistinct sid _ c.participants h.distinct;
    one_each = admit-one_each now sid ct c h vacant;
    capped = h.capped;
    dead = λ e. cc;
  };
  filter = λ p c h. record {
    distinct = h.distinct;
    one_each = h.one_each;
    capped = omega (arith, length-keep_if p c.message_buffer, h.capped);
    dead = λ e. ((h.dead e).0, keep_if-nil p c.message_buffer (h.dead e).1, (h.dead e).2);
  };
  bind = λ k c h live unbound. record {
    distinct = h.distinct;
    one_each = h.one_each;
    capped = h.capped;
    dead = λ e. cc;
  };
  bury = λ now c h. record {
    distinct = tt;
    one_each = λ ct. zero_seats ct;
    capped = omega arith;
    dead = λ e. (refl, refl, refl);
  };
  activity = λ now c h. record {
    distinct = h.distinct;
    one_each = h.one_each;
    capped = h.capped;
    dead = h.dead;
  };
  seq = λ sender n c h live. record {
    distinct = h.distinct;
    one_each = h.one_each;
    capped = h.capped;
    dead = h.dead;
  };
  pushed = λ msg c h live. record {
    distinct = h.distinct;
    one_each = h.one_each;
    capped = omega (
      arith,
      length-append (trim c.message_buffer) (msg ∷ []),
      length-trim c.message_buffer h.capped,
    );
    dead = λ e. cc;
  };
  spliced = λ ct found rest c h taken. record {
    distinct = h.distinct;
    one_each = h.one_each;
    capped = omega (arith, length-take_first ct c.message_buffer rest found taken, h.capped);
    dead = λ e. absurd (take_first-nil ct c.message_buffer rest found taken (h.dead e).1);
  };
}

run-IsSound :
    (s : Setup) (cs : List (World × Call)) (r : ℕ) → IsSound ((run s cs new_manager).heap r)
run-IsSound s cs = run-Everywhere IsSound IsSound-rule s cs

length-types : (ps : Dict Participant) → length ps ≡ count_type dapp ps + count_type wallet ps
unfolding sum_by
length-types [] = omega arith
length-types ((sid, p) ∷ ps) = ground (arith, length-types ps)

-- After any sequence of calls a channel has at most one dApp and at most one wallet, and so at most
-- two participants, each on its own socket; and its buffer holds at most 50 messages.
pub run_bounds :
    (s : Setup) (cs : List (World × Call)) (r : ℕ)
    → let c = (run s cs new_manager).heap r in
      (count_type dapp c.participants ≤ 1)
      × (count_type wallet c.participants ≤ 1)
      × (length c.participants ≤ max_participants)
      × Dict.IsDistinct c.participants
      × (length c.message_buffer ≤ max_buffered_messages)
run_bounds s cs r =
    let h = run-IsSound s cs r in
    let c = (run s cs new_manager).heap r in
    (
      h.one_each dapp,
      h.one_each wallet,
      omega (arith, length-types c.participants, h.one_each dapp, h.one_each wallet),
      h.distinct,
      h.capped,
    )

-- After any sequence of calls a channel that is terminated holds no participants, no messages and
-- no key.
pub tombstone_empty :
    (s : Setup) (cs : List (World × Call)) (r : ℕ)
    → ((run s cs new_manager).heap r).terminated ≡ true
    → let c = (run s cs new_manager).heap r in
      (c.participants ≡ []) × (c.message_buffer ≡ []) × (c.public_key ≡ none)
tombstone_empty s cs r dead = (run-IsSound s cs r).dead dead
