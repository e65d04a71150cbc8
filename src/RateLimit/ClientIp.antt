-- ===== src/RateLimit/ClientIp.antt =====
-- The client's address cannot be forged through the left of x-forwarded-for.
use Prim.Native.String
use Prim.Native.String.compare
use Prim.Native.Char.{code}
use text.Mathlib.TextLemmas.{cons-append, nil-append}
use conductor_dashboard.Common.{
  String, Bool, true, ◌≡◌, refl, ap, ◌∙◌, inl, inr, Option, some, List, [], ◌∷◌, ◌++◌, map, trim,
  split_commas, ◌==◌, Bool-cases, text_truthy,
}
use conductor_dashboard.RateLimit.{last_untrusted, chain, extract_client_ip}

last_untrusted-append :
    (trusted : String → Bool) (xs ys : List String) (ip : String)
    → last_untrusted trusted ys ≡ some ip
    → last_untrusted trusted (xs ++ ys) ≡ some ip
unfolding last_untrusted
last_untrusted-append trusted [] ys ip h = h
last_untrusted-append trusted (x ∷ xs) ys ip h = rw (last_untrusted-append trusted xs ys ip h) refl

-- A text has at least one part.
split_commas_some : (s : String) → (x : String) × (xs : List String) × (split_commas s ≡ x ∷ xs)
split_commas_some String.[] = (String.[], [], refl)
split_commas_some (String.◌∷◌ c s) = elim (Bool-cases (code c == 44)) [
  | inl e ↦ rw e (String.[], split_commas s, refl)
  | inr e ↦ let (x, xs, q) = split_commas_some s in rw (e, q) (String.◌∷◌ c x, xs, refl)
]

-- Parts of two texts with a comma between them.
pub split_commas-append :
    (s t : String)
    → split_commas (String.◌++◌ s (String.◌++◌ "," t)) ≡ split_commas s ++ split_commas t
split_commas-append String.[] t = rw (nil-append, cons-append, nil-append) refl
split_commas-append (String.◌∷◌ c s) t =
    let rest = split_commas-append s t in
    let (x, xs, q) = split_commas_some s in
    rw cons-append (elim (Bool-cases (code c == 44)) [
      | inl e ↦ rw (e, rest) refl
      | inr e ↦ rw (e, rest, q) refl
    ])

map-append : (f : String → String) (xs ys : List String) → map f (xs ++ ys) ≡ map f xs ++ map f ys
map-append f [] ys = refl
map-append f (x ∷ xs) ys = ap (λ r. f x ∷ r) (map-append f xs ys)

chain-append : (s t : String) → chain (String.◌++◌ s (String.◌++◌ "," t)) ≡ chain s ++ chain t
chain-append s t =
    ap (map trim) (split_commas-append s t) ∙ map-append trim (split_commas s) (split_commas t)

front_truthy : (front xff : String) → text_truthy (String.◌++◌ front (String.◌++◌ "," xff)) ≡ true
front_truthy String.[] xff = rw (nil-append, cons-append, compare.cons-nil) refl
front_truthy (String.◌∷◌ c s) xff = rw (cons-append, compare.cons-nil) refl

-- Where the header's own part names an address that is no trusted proxy, what a client puts to its left
-- does not change the client's address.
pub extract_client_ip_left :
    (trusted : String → Bool) (front xff ip : String) (real : Option String)
    → text_truthy xff ≡ true
    → last_untrusted trusted (chain xff) ≡ some ip
    → (extract_client_ip trusted true (some (String.◌++◌ front (String.◌++◌ "," xff))) real ≡ ip)
      × (extract_client_ip trusted true (some xff) real ≡ ip)
unfolding extract_client_ip
extract_client_ip_left trusted front xff ip real there h =
    let longer : last_untrusted trusted (chain (String.◌++◌ front (String.◌++◌ "," xff)))
        ≡ some ip =
      rw (chain-append front xff) (last_untrusted-append trusted (chain front) (chain xff) ip h) in
    (rw (front_truthy front xff, longer) refl, rw (there, h) refl)
