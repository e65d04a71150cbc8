-- ===== src/RateLimit.antt =====
-- lib/rate-limit.ts: the address of a client, and a limiter with its map from addresses to windows.
-- Times are milliseconds.
pub mod ClientIp
pub mod Window
mod Tests
use conductor_dashboard.Common.{
  ℕ, suc, ◌+◌, String, Bool, true, false, not, ◌&&◌, ◌||◌, Option, none, some, List, [], ◌∷◌, ltb,
  str_eq, if◌then◌else◌, text_truthy, truthy?, trim, split_commas, map,
}

pub record RateLimitEntry : Type 0 where
  pub count : ℕ
  pub reset_at : ℕ

-- `message` only words the answer, and is left out; `disabled` is MC_DISABLE_RATE_LIMIT === '1'.
pub record RateLimiterOptions : Type 0 where
  pub window_ms : ℕ
  pub max_requests : ℕ
  pub critical : Bool
  pub disabled : Bool

abbrev pub Entries : Type 0
Entries = String → Option RateLimitEntry

abbrev pub set_entry : String → RateLimitEntry → Entries → Entries
set_entry ip e s k = if str_eq k ip then some e else s k

-- The address of this place of the chain, if no later one is taken.
abbrev pub later_or : Option String → Bool → String → Option String
later_or (some found) trusted ip = some found
later_or none true ip = none
later_or none false ip = some ip

-- From the right of the chain, the first address that is no trusted proxy.
unfoldable pub last_untrusted : (String → Bool) → List String → Option String
last_untrusted trusted [] = none
last_untrusted trusted (ip ∷ ips) = later_or (last_untrusted trusted ips) (trusted ip) ip

abbrev pub chain : String → List String
chain xff = map trim (split_commas xff)

-- x-real-ip, trimmed, or 'unknown' where it is missing or blank
abbrev pub fallback_ip : Option String → String
fallback_ip none = "unknown"
fallback_ip (some ip) = let t = trim ip in if text_truthy t then t else "unknown"

abbrev pub or_fallback : Option String → Option String → String
or_fallback none real = fallback_ip real
or_fallback (some ip) real = ip

abbrev pub forwarded : (String → Bool) → Bool → Option String → Option String
forwarded trusted has_trusted none = none
forwarded trusted has_trusted (some xff) =
    if text_truthy xff && has_trusted then last_untrusted trusted (chain xff) else none

-- `trusted` is TRUSTED_PROXIES.has, `has_trusted` whether the set has a member.
unfoldable pub extract_client_ip : (String → Bool) → Bool → Option String → Option String → String
unfolding last_untrusted
extract_client_ip trusted has_trusted xff real =
    or_fallback (forwarded trusted has_trusted xff) real

abbrev pub fresh_entry : RateLimiterOptions → ℕ → RateLimitEntry
fresh_entry o now = record { count = 1; reset_at = now + o.window_ms }

abbrev pub bump : RateLimitEntry → RateLimitEntry
bump e = record { count = suc e.count; reset_at = e.reset_at }

-- Whether the request is admitted, and the entry that it leaves.
abbrev pub admit : RateLimiterOptions → ℕ → Option RateLimitEntry → RateLimitEntry × Bool
admit o now none = (fresh_entry o now, true)
admit o now (some e) =
    if ltb e.reset_at now
    then (fresh_entry o now, true)
    else (bump e, not (ltb o.max_requests (suc e.count)))

-- checkRateLimit, true for null and false for a 429
unfoldable pub check_rate_limit : RateLimiterOptions → String → ℕ → Entries → Entries × Bool
check_rate_limit o ip now s =
    let (e, ok) = admit o now (s ip) in
    if o.disabled && not o.critical then (s, true) else (set_entry ip e s, ok)

abbrev pub keep_live : ℕ → Option RateLimitEntry → Option RateLimitEntry
keep_live now none = none
keep_live now (some e) = if ltb e.reset_at now then none else some e

-- The periodic cleanup.
unfoldable pub cleanup : ℕ → Entries → Entries
cleanup now s ip = keep_live now (s ip)
