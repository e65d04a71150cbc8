-- ===== src/RateLimit/Window.antt =====
-- How many requests of one address a limiter admits in one window of time.
use conductor_dashboard.Common.{
  ℕ, suc, ◌+◌, ◌-◌, ◌≤◌, ◌≡◌, refl, sym, inl, inr, max, String, Bool, true, false, not, ◌&&◌,
  Option, none, some, List, [], ◌∷◌, arith, ltb, str_eq, eq_iff, if◌then◌else◌, Bool-cases, All,
}
use conductor_dashboard.RateLimit.{
  RateLimitEntry, RateLimiterOptions, Entries, set_entry, fresh_entry, bump, admit,
  check_rate_limit, keep_live, cleanup,
}

-- A request from an address, or a run of the cleanup.
pub data Event : Type 0 where
  request : String → ℕ → Event
  clean : ℕ → Event

abbrev pub time : Event → ℕ
time (request ip now) = now
time (clean now) = now

abbrev pub counts_for : String → String → Bool → ℕ
counts_for ip from ok = if str_eq ip from && ok then 1 else 0

-- How many requests of `ip` are admitted.
unfoldable pub admitted : RateLimiterOptions → String → List Event → Entries → ℕ
unfolding check_rate_limit cleanup
admitted o ip [] s = 0
admitted o ip (request from now ∷ es) s =
    let (s', ok) = check_rate_limit o from now s in counts_for ip from ok + admitted o ip es s'
admitted o ip (clean now ∷ es) s = admitted o ip es (cleanup now s)

-- What an entry still admits.
abbrev pub left : RateLimiterOptions → Option RateLimitEntry → ℕ
left o none = 0
left o (some e) = o.max_requests - e.count

-- What a window admits: its first request, whatever the limit.
abbrev pub limit : RateLimiterOptions → ℕ
limit o = max 1 o.max_requests

abbrev pub Until : ℕ → List Event → Type 0
Until t es = All (λ e. time e ≤ t) es

abbrev pub IsOn : RateLimiterOptions → Type 0
IsOn o = (o.disabled && not o.critical) ≡ false

own : (ip : String) (e : RateLimitEntry) (s : Entries) → set_entry ip e s ip ≡ some e
own ip e s = let same : str_eq ip ip ≡ true = (eq_iff ip ip).1 refl in rw same refl

admitted-other :
    (o : RateLimiterOptions) (ip from : String) (now : ℕ) (es : List Event) (s : Entries)
    → IsOn o
    → str_eq ip from ≡ false
    → admitted o ip (request from now ∷ es) s
      ≡ admitted o ip es (set_entry from (admit o now (s from)).0 s)
unfolding admitted check_rate_limit
admitted-other o ip from now es s on other = rw (on, other) (omega arith)

admitted-own :
    (o : RateLimiterOptions) (ip : String) (now : ℕ) (es : List Event) (s : Entries)
    → IsOn o
    → admitted o ip (request ip now ∷ es) s
      ≡ (if (admit o now (s ip)).1 then 1 else 0)
        + admitted o ip es (set_entry ip (admit o now (s ip)).0 s)
unfolding admitted check_rate_limit
admitted-own o ip now es s on =
    let same : str_eq ip ip ≡ true = (eq_iff ip ip).1 refl in rw (on, same) refl

-- In the time of one window from `start` on.
abbrev pub Within : RateLimiterOptions → ℕ → List Event → Type 0
Within o start es = All (λ e. (start ≤ time e) × (time e ≤ start + o.window_ms)) es

Until-later :
    (start now window : ℕ) (es : List Event)
    → start ≤ now
    → All (λ e. (start ≤ time e) × (time e ≤ start + window)) es
    → Until (now + window) es
Until-later start now window [] h u = tt
Until-later start now window (e ∷ es) h ((a, b), u) =
    (omega (arith, h, b), Until-later start now window es h u)

live_bound :
    (o : RateLimiterOptions) (ip : String) (es : List Event) (s : Entries) (e : RateLimitEntry)
    → IsOn o
    → s ip ≡ some e
    → Until e.reset_at es
    → admitted o ip es s ≤ o.max_requests - e.count
unfolding admitted cleanup
live_bound o ip [] s e on here u = omega arith
live_bound o ip (clean now ∷ es) s e on here (k, u) =
    let live : ltb e.reset_at now ≡ false = ground arith in
    live_bound o ip es (cleanup now s) e on (rw (here, live) refl) u
live_bound o ip (request from now ∷ es) s e on here (k, u) = elim (Bool-cases (str_eq ip from)) [
  | inl same ↦
      let from_ip : from ≡ ip = sym ((eq_iff ip from).0 same) in
      let live : ltb e.reset_at now ≡ false = ground arith in
      let rest = live_bound o ip es (set_entry ip (bump e) s) (bump e) on (own ip (bump e) s) u in
      rw (from_ip, admitted-own o ip now es s on, here, live)
        (elim (Bool-cases (ltb o.max_requests (suc e.count))) [
          | inl refused ↦ rw refused (omega (arith, rest))
          | inr ok ↦
              let room : suc e.count ≤ o.max_requests = ground arith in
              rw ok (omega (arith, rest, room))
        ])
  | inr other ↦
      rw (admitted-other o ip from now es s on other)
        (live_bound o ip es (set_entry from (admit o now (s from)).0 s) e on (rw other here) u)
]

-- A first request and the rest of its window.
fresh_bound :
    (o : RateLimiterOptions) (ip : String) (start now : ℕ) (es : List Event) (s : Entries)
    → IsOn o
    → start ≤ now
    → Within o start es
    → 1 + admitted o ip es (set_entry ip (fresh_entry o now) s) ≤ limit o
fresh_bound o ip start now es s on later u =
    let e = fresh_entry o now in
    let rest =
      live_bound o ip es (set_entry ip e s) e on (own ip e s)
        (Until-later start now o.window_ms es later u) in
    omega (arith, rest)

left-keep_live :
    (o : RateLimiterOptions) (now : ℕ) (e : Option RateLimitEntry)
    → left o (keep_live now e) ≤ left o e
left-keep_live o now none = omega arith
left-keep_live o now (some e) = ground arith

-- A request of the address itself; `rest` bounds what follows it, whatever entry it leaves.
own_step :
    (o : RateLimiterOptions) (ip : String) (start now : ℕ) (es : List Event) (s : Entries)
    (e : Option RateLimitEntry)
    → s ip ≡ e
    → IsOn o
    → start ≤ now
    → Within o start es
    → ((e' : RateLimitEntry)
        → admitted o ip es (set_entry ip e' s) ≤ left o (set_entry ip e' s ip) + limit o)
    → (if (admit o now e).1 then 1 else 0) + admitted o ip es (set_entry ip (admit o now e).0 s)
      ≤ left o e + limit o
own_step o ip start now es s none here on later u rest =
    let q = fresh_bound o ip start now es s on later u in omega (arith, q)
own_step o ip start now es s (some e) here on later u rest =
    elim (Bool-cases (ltb e.reset_at now)) [
      | inl over ↦ let q = fresh_bound o ip start now es s on later u in rw over (omega (arith, q))
      | inr live ↦
          let bumped : admitted o ip es (set_entry ip (bump e) s)
              ≤ (o.max_requests - suc e.count) + limit o =
            rw (own ip (bump e) s) at (rest (bump e)) in
          rw live (elim (Bool-cases (ltb o.max_requests (suc e.count))) [
            | inl refused ↦ rw refused (omega (arith, bumped))
            | inr ok ↦
                let room : suc e.count ≤ o.max_requests = ground arith in
                rw ok (omega (arith, bumped, room))
          ])
    ]

-- In any stretch of time no longer than a window, whatever other addresses do and whenever the cleanup
-- runs, a limiter that is not disabled admits from one address at most what its running window still
-- admits and the limit once more; a limit below one counts as one.
pub admitted-le :
    (o : RateLimiterOptions) (ip : String) (start : ℕ) (es : List Event) (s : Entries)
    → IsOn o
    → Within o start es
    → admitted o ip es s ≤ left o (s ip) + limit o
unfolding admitted cleanup
admitted-le o ip start [] s on u = omega arith
admitted-le o ip start (clean now ∷ es) s on (k, u) =
    let rest = admitted-le o ip start es (cleanup now s) on u in
    let fewer = left-keep_live o now (s ip) in omega (arith, rest, fewer)
admitted-le o ip start (request from now ∷ es) s on ((from_start, in_time), u) =
    elim (Bool-cases (str_eq ip from)) [
      | inr other ↦
          let rest = admitted-le o ip start es (set_entry from (admit o now (s from)).0 s) on u in
          rw (admitted-other o ip from now es s on other) (rw other at rest)
      | inl same ↦
          let from_ip : from ≡ ip = sym ((eq_iff ip from).0 same) in
          rw (from_ip, admitted-own o ip now es s on)
            (own_step o ip start now es s (s ip) refl on from_start u
              (λ e. admitted-le o ip start es (set_entry ip e s) on u))
    ]
