-- ===== src/RateLimit/Tests.antt =====
-- A limiter on a few requests, and the theorems at them.
use Prim.Native.String
use conductor_dashboard.Common.{
  ◌+◌, ◌≤◌, ◌≡◌, refl, String, Bool, true, none, some, List, [], ◌∷◌, arith, str_eq,
}
use conductor_dashboard.RateLimit.{
  RateLimiterOptions, Entries, last_untrusted, extract_client_ip, check_rate_limit, cleanup,
}
use conductor_dashboard.RateLimit.Window.{request, clean, Event, admitted, left, limit, admitted-le}
use conductor_dashboard.RateLimit.ClientIp.{extract_client_ip_left}

-- loginLimiter
abbrev login : RateLimiterOptions
login = record { window_ms = 60000; max_requests = 5; critical = true; disabled = true }

abbrev fresh : Entries
fresh ip = none

abbrev burst : List Event
burst =
    request "a" 1
    ∷ request "a" 2
    ∷ request "b" 3
    ∷ request "a" 4
    ∷ clean 5
    ∷ request "a" 6
    ∷ request "a" 7
    ∷ request "a" 8
    ∷ []

five : admitted login "a" burst fresh ≡ 5
unfolding admitted check_rate_limit cleanup
five = refl

admitted-le_example : admitted login "a" burst fresh ≤ left login none + limit login
admitted-le_example = admitted-le login "a" 0 burst fresh refl (
  (omega arith, omega arith),
  (
    (omega arith, omega arith),
    (
      (omega arith, omega arith),
      (
        (omega arith, omega arith),
        (
          (omega arith, omega arith),
          (
            (omega arith, omega arith),
            ((omega arith, omega arith), ((omega arith, omega arith), tt)),
          ),
        ),
      ),
    ),
  ),
)

abbrev is_proxy : String → Bool
is_proxy ip = str_eq ip "10.0.0.1"

client : extract_client_ip is_proxy true (some "1.2.3.4, 5.6.7.8, 10.0.0.1") none ≡ "5.6.7.8"
unfolding extract_client_ip last_untrusted
client = refl

extract_client_ip_left_example :
    (extract_client_ip is_proxy true
        (some (String.◌++◌ "1.2.3.4" (String.◌++◌ "," "5.6.7.8,10.0.0.1")))
        none
      ≡ "5.6.7.8")
    × (extract_client_ip is_proxy true (some "5.6.7.8,10.0.0.1") none ≡ "5.6.7.8")
unfolding last_untrusted
extract_client_ip_left_example =
    extract_client_ip_left is_proxy "1.2.3.4" "5.6.7.8,10.0.0.1" "5.6.7.8" none refl refl
