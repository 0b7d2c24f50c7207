-- ===== src/Server/Counters.antt =====
-- relayServer.ts: the counters of active sockets are those of the sockets that are connected.
pub mod Sockets
pub mod Joins
pub mod Failures
pub mod Events
pub mod Drains
pub mod Serving
use myqrlwallet_backend.Prelude.{
  ℕ, suc, ◌+◌, ◌-◌, ◌≤◌, ◌≡◌, ◌≢◌, refl, ap, sym, ◌∙◌, inl, inr, String, Bool, true, false, not,
  Option, none, some, List, [], ◌∷◌, ltb, leb, if◌then◌else◌, str_eq, get_or_else, sum_by, arith,
  eq_iff, if_either, Bool-cases, Option-cases, Dict.Dict,
}
use myqrlwallet_backend.Prelude.Dict
use myqrlwallet_backend.Server.Types.{
  ServerConfig, Turn, PresenceEvent, Connection, no_join, RelayServer, Effect, set_manager,
  set_connection, count_for, count_up, count_down,
}
use myqrlwallet_backend.Server.Transport.{release_delivery}
use myqrlwallet_backend.Server.Limits.{by_connect}
use myqrlwallet_backend.Server.Sockets.{
  check_bucket, count_back, set_active, new_connection, on_connection, release_socket_counter,
  leave_and_tell, on_disconnect, disconnect_socket,
}

-- Whether a socket counts for an address.
abbrev pub counts_for : String → String × Connection → ℕ
counts_for ip e = if e.1.released then 0 else if str_eq e.1.client_ip ip then 1 else 0

-- For every address, the counter is the number of its sockets whose handlers are installed and that
-- have not disconnected, and it is within the cap.
pub record IsCounted (cap : ℕ) (counts : Dict ℕ) (connections : Dict Connection) : Type 0 where
  pub distinct : Dict.IsDistinct counts
  pub exact : (ip : String) → count_for ip counts ≡ sum_by (counts_for ip) connections
  pub capped : (ip : String) → count_for ip counts ≤ cap

abbrev one_if : Bool → ℕ
one_if b = if b then 1 else 0

-- The counters after one goes up, or down.
count_for-put :
    (ip k : String) (n : ℕ) (counts : Dict ℕ)
    → count_for k (Dict.put ip n counts) ≡ (if str_eq ip k then n else count_for k counts)
count_for-put ip k n counts = ground (arith, Dict.get-put ip k n counts)

count_for-delete :
    (ip k : String) (counts : Dict ℕ)
    → Dict.IsDistinct counts
    → count_for k (Dict.delete ip counts) ≡ (if str_eq ip k then 0 else count_for k counts)
count_for-delete ip k counts d = elim (Bool-cases (str_eq ip k)) [
  | inl hit ↦
      let same = ap (λ x. Dict.get k (Dict.delete x counts)) ((eq_iff ip k).0 hit) in
      ground (arith, hit, same, Dict.get-delete_self k counts d)
  | inr miss ↦
      let ne : ip ≢ k = λ same. ground (arith, (eq_iff ip k).1 same, miss) in
      ground (arith, miss, Dict.get-delete_ne ip k counts ne)
]

count_down-count_for :
    (ip k : String) (counts : Dict ℕ)
    → Dict.IsDistinct counts
    → count_for k (count_down ip counts) ≡ count_for k counts - one_if (str_eq ip k)
unfolding count_down
count_down-count_for ip k counts d =
    let same = λ (e : str_eq ip k ≡ true). ap (λ x. count_for x counts) ((eq_iff ip k).0 e) in
    let gone = count_for-delete ip k counts d in
    let less = count_for-put ip k (count_for ip counts - 1) counts in
    if_either (λ m. count_for k m ≡ count_for k counts - one_if (str_eq ip k))
      (leb (count_for ip counts) 1) _ _
      (λ h. elim (Bool-cases (str_eq ip k)) [
        | inl e ↦ let at = same e in ground (arith, h, gone, e, at)
        | inr e ↦ ground (arith, gone, e)
      ])
      (λ h. elim (Bool-cases (str_eq ip k)) [
        | inl e ↦ let at = same e in ground (arith, h, less, e, at)
        | inr e ↦ ground (arith, less, e)
      ])

count_down-IsDistinct :
    (ip : String) (counts : Dict ℕ)
    → Dict.IsDistinct counts
    → Dict.IsDistinct (count_down ip counts)
unfolding count_down
count_down-IsDistinct ip counts d =
    if_either Dict.IsDistinct (leb (count_for ip counts) 1) _ _
      (λ h. Dict.delete-IsDistinct ip counts d)
      (λ h. Dict.put-IsDistinct ip (count_for ip counts - 1) counts d)

-- Another connection in the place of one.
sum_by-set :
    (ip sid : String) (c c' : Connection) (connections : Dict Connection)
    → Dict.get sid connections ≡ some c
    → sum_by (counts_for ip) (Dict.put sid c' connections) + counts_for ip (sid, c)
      ≡ sum_by (counts_for ip) connections + counts_for ip (sid, c')
sum_by-set ip sid c c' connections seen =
    let total = Dict.sum_by-put (counts_for ip) sid c' connections in
    let was : Dict.share (counts_for ip) sid connections ≡ counts_for ip (sid, c) = rw seen refl in
    ap (λ n. sum_by (counts_for ip) (Dict.put sid c' connections) + n) (sym was) ∙ total

-- The connection of a socket changes, but neither its address nor whether it counts.
pub set_connection-IsCounted :
    (cap : ℕ) (counts : Dict ℕ) (connections : Dict Connection) (sid : String) (c c' : Connection)
    → Dict.get sid connections ≡ some c
    → c'.client_ip ≡ c.client_ip
    → c'.released ≡ c.released
    → IsCounted cap counts connections
    → IsCounted cap counts (Dict.put sid c' connections)
set_connection-IsCounted cap counts connections sid c c' seen same_ip same_end h = record {
  distinct = h.distinct;
  exact = λ ip.
      let moved = sum_by-set ip sid c c' connections seen in
      let alike : counts_for ip (sid, c') ≡ counts_for ip (sid, c) = rw (same_ip, same_end) refl in
      omega (arith, moved, alike, h.exact ip);
  capped = h.capped;
}

-- A socket that counts ends.
pub release-IsCounted :
    (cap : ℕ) (counts : Dict ℕ) (connections : Dict Connection) (sid : String) (c : Connection)
    → Dict.get sid connections ≡ some c
    → c.released ≡ false
    → IsCounted cap counts connections
    → IsCounted cap
        (count_down c.client_ip counts)
        (Dict.put sid (record c { released = true }) connections)
release-IsCounted cap counts connections sid c seen live h = record {
  distinct = count_down-IsDistinct c.client_ip counts h.distinct;
  exact = λ ip.
      let moved = sum_by-set ip sid c (record c { released = true }) connections seen in
      let was : counts_for ip (sid, c) ≡ one_if (str_eq c.client_ip ip) = rw live refl in
      let down = count_down-count_for c.client_ip ip counts h.distinct in
      omega (arith, moved, was, down, h.exact ip);
  capped = λ ip.
      let down = count_down-count_for c.client_ip ip counts h.distinct in
      omega (arith, down, h.capped ip);
}

-- A socket that is not known counts from now on.
pub connect-IsCounted :
    (cap : ℕ) (counts : Dict ℕ) (connections : Dict Connection) (sid ip : String)
    → Dict.get sid connections ≡ none
    → count_for ip counts + 1 ≤ cap
    → IsCounted cap counts connections
    → IsCounted cap
        (Dict.put ip (count_for ip counts + 1) counts)
        (Dict.put sid (new_connection ip) connections)
connect-IsCounted cap counts connections sid ip new room h = record {
  distinct = Dict.put-IsDistinct ip (count_for ip counts + 1) counts h.distinct;
  exact = λ k.
      let total = Dict.sum_by-put (counts_for k) sid (new_connection ip) connections in
      let was : Dict.share (counts_for k) sid connections ≡ 0 = rw new refl in
      let up = count_for-put ip k (count_for ip counts + 1) counts in
      elim (Bool-cases (str_eq ip k)) [
        | inl e ↦
            let at = ap (λ x. count_for x counts) ((eq_iff ip k).0 e) in
            ground (arith, total, was, up, e, at, h.exact k)
        | inr e ↦ ground (arith, total, was, up, e, h.exact k)
      ];
  capped = λ k.
      let up = count_for-put ip k (count_for ip counts + 1) counts in
      ground (arith, up, room, h.capped k);
}

-- A socket that is refused after it has been counted.
pub count_back-IsCounted :
    (cap : ℕ) (counts : Dict ℕ) (connections : Dict Connection) (ip : String)
    → IsCounted cap counts connections
    → IsCounted cap (count_back ip (Dict.put ip (count_for ip counts + 1) counts)) connections
unfolding count_back
count_back-IsCounted cap counts connections ip h = record {
  distinct =
      if_either Dict.IsDistinct (leb left 0) _ _ (λ z. Dict.delete-IsDistinct ip up d)
        (λ z. Dict.put-IsDistinct ip left up d);
  exact = λ k. back k ∙ h.exact k;
  capped = λ k. omega (arith, back k, h.capped k);
}
  where
    up : Dict ℕ
    up = Dict.put ip (count_for ip counts + 1) counts

    d : Dict.IsDistinct up
    d = Dict.put-IsDistinct ip (count_for ip counts + 1) counts h.distinct

    left : ℕ
    left = count_for ip up - 1

    here : left ≡ count_for ip counts
    here =
        ground (arith, count_for-put ip ip (count_for ip counts + 1) counts, (eq_iff ip ip).1 refl)

    back :
        (k : String)
        → count_for k (if leb left 0 then Dict.delete ip up else Dict.put ip left up)
          ≡ count_for k counts
    back k =
        let grown = count_for-put ip k (count_for ip counts + 1) counts in
        let gone = count_for-delete ip k up d in
        let set = count_for-put ip k left up in
        elim (Bool-cases (str_eq ip k)) [
          | inl e ↦
              let at = ap (λ x. count_for x counts) ((eq_iff ip k).0 e) in
              if_either (λ m. count_for k m ≡ count_for k counts) (leb left 0) _ _
                (λ z. ground (arith, z, gone, e, at, here)) (λ z. ground (arith, set, e, at, here))
          | inr e ↦
              if_either (λ m. count_for k m ≡ count_for k counts) (leb left 0) _ _
                (λ z. ground (arith, gone, grown, e)) (λ z. ground (arith, set, grown, e))
        ]
