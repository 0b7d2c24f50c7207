-- ===== src/Server/Limits.antt =====
-- relayServer.ts: the rate-limit windows.
pub mod Windows
use myqrlwallet_backend.Prelude.{
  ℕ, suc, ◌+◌, ◌*◌, String, Bool, true, false, Option, none, some, List, [], ◌∷◌, ltb, leb,
  if◌then◌else◌, keep_if, not, Dict.Dict,
}
use myqrlwallet_backend.Prelude.Dict

abbrev pub rate_limit_window_ms : ℕ
rate_limit_window_ms = 60 * 1000

-- The buckets of an address, each with its own count.
pub data Bucket : Type 0 where
  by_connect by_handshake by_message by_join by_control : Bucket

-- The limit that every check of the bucket is made with.
abbrev pub limit_of : Bucket → ℕ
limit_of by_connect = 60
limit_of by_handshake = 60
limit_of by_message = 100
limit_of by_join = 30
limit_of by_control = 300

pub record Counts : Type 0 where
  pub connect : ℕ
  pub handshake : ℕ
  pub message : ℕ
  pub join : ℕ
  pub control : ℕ

pub record RateLimitEntry : Type 0 where
  pub counts : Counts
  pub reset_at : ℕ

-- `counts[bucket]`
abbrev pub count_in : Bucket → Counts → ℕ
count_in by_connect c = c.connect
count_in by_handshake c = c.handshake
count_in by_message c = c.message
count_in by_join c = c.join
count_in by_control c = c.control

-- `counts[bucket] += 1`
abbrev pub bump : Bucket → Counts → Counts
bump by_connect c = record c { connect = suc c.connect }
bump by_handshake c = record c { handshake = suc c.handshake }
bump by_message c = record c { message = suc c.message }
bump by_join c = record c { join = suc c.join }
bump by_control c = record c { control = suc c.control }

abbrev pub fresh_entry : ℕ → RateLimitEntry
fresh_entry now = record {
  counts = record { connect = 0; handshake = 0; message = 0; join = 0; control = 0 };
  reset_at = now + rate_limit_window_ms;
}

-- The entry that a check counts in: a new one when the window is over.
unfoldable pub current_entry : ℕ → Option RateLimitEntry → RateLimitEntry
current_entry now none = fresh_entry now
current_entry now (some e) = if ltb e.reset_at now then fresh_entry now else e

unfoldable pub check_rate_limit :
    ℕ → String → Bucket → Dict RateLimitEntry → Dict RateLimitEntry × Bool
check_rate_limit now ip bucket limits =
    let entry = current_entry now (Dict.get ip limits) in
    let counted = record entry { counts = bump bucket entry.counts } in
    (Dict.put ip counted limits, leb (count_in bucket counted.counts) (limit_of bucket))

abbrev pub is_open_window : ℕ → String × RateLimitEntry → Bool
is_open_window now e = not (ltb e.1.reset_at now)

-- The cleanup timer.
unfoldable pub drop_rate_limits : ℕ → Dict RateLimitEntry → Dict RateLimitEntry
drop_rate_limits now limits = keep_if (is_open_window now) limits
