-- ===== src/DataRoom/Limits.antt =====
-- How often an address may try to enter, and what the address is.
use Prim.Native.Char.{code}
use Prim.Native.String
use conductor_dashboard.Common.{
  ℕ, ◌≡◌, refl, inl, inr, String, Bool, true, false, not, Option, none, some, [], ◌∷◌, arith, ◌==◌,
  Bool-cases, text_truthy, trim, split_commas, all_chars,
}
use conductor_dashboard.RateLimit.{
  RateLimitEntry, RateLimiterOptions, Entries, admit, check_rate_limit,
}
use conductor_dashboard.RateLimit.ClientIp.{split_commas-append}
use conductor_dashboard.DataRoom.Visit.{enter_entry, check_enter_limit, enter_ip}

-- Ten requests a minute, not switched off.
abbrev pub enter_limiter : RateLimiterOptions
enter_limiter = record { window_ms = 60000; max_requests = 10; critical = true; disabled = false }

enter_entry-admit :
    (now : ℕ) (e : Option RateLimitEntry) → enter_entry now e ≡ admit enter_limiter now e
enter_entry-admit now none = refl
enter_entry-admit now (some e) = ground arith

-- The limiter of the route is the limiter of lib/rate-limit.ts with ten requests a minute.
pub check_enter_limit-check_rate_limit :
    (ip : String) (now : ℕ) (entries : Entries)
    → check_enter_limit ip now entries ≡ check_rate_limit enter_limiter ip now entries
unfolding check_enter_limit check_rate_limit
check_enter_limit-check_rate_limit ip now entries = rw (enter_entry-admit now (entries ip)) refl

abbrev pub no_comma : String → Bool
no_comma s = all_chars (λ c. not (c == 44)) s

one_part : (s : String) → no_comma s ≡ true → split_commas s ≡ s ∷ []
one_part String.[] h = refl
one_part (String.◌∷◌ c s) h = elim (Bool-cases (code c == 44)) [
  | inl comma ↦ absurd (let q = rw comma at h in cc q)
  | inr other ↦ rw (other, one_part s (rw other at h)) refl
]

-- What a client writes into x-forwarded-for before all else is its address to the limiter of the route, whatever the
-- proxies add behind it.
pub enter_ip-forged :
    (ip xff : String)
    → no_comma ip ≡ true
    → text_truthy (trim ip) ≡ true
    → enter_ip (some (String.◌++◌ ip (String.◌++◌ "," xff))) ≡ trim ip
enter_ip-forged ip xff plain full = rw (split_commas-append ip xff, one_part ip plain, full) refl
