-- ===== src/Store/Usage.antt =====
-- What the sums of token usage and the toggle of a group come to.
use conductor_dashboard.Common.{
  ℕ, ◌+◌, ◌≡◌, refl, ◌∙◌, ap, inl, inr, String, Bool, true, false, not, ◌||◌, List, [], ◌∷◌, ◌++◌,
  arith, any, filter, leb, str_eq, eq_iff, if◌then◌else◌, Bool-cases,
}
use conductor_dashboard.Store.Panels.{
  TokenUsage, Timeframe, cutoff, add_usage, reduce_usage, get_usage_by_model, toggle_group,
  add_token_usage,
}

-- The tokens of one model over a list of entries.
abbrev pub tokens_of : String → List TokenUsage → ℕ
tokens_of model [] = 0
tokens_of model (u ∷ us) = (if str_eq model u.model then u.total_tokens else 0) + tokens_of model us

reduce_usage-tokens_of :
    (acc : String → ℕ) (us : List TokenUsage) (model : String)
    → reduce_usage acc us model ≡ acc model + tokens_of model us
reduce_usage-tokens_of acc [] model = omega arith
reduce_usage-tokens_of acc (u ∷ us) model =
    let rest = reduce_usage-tokens_of (add_usage acc u) us model in
    elim (Bool-cases (str_eq model u.model)) [
      | inl e ↦ rest ∙ rw e (omega arith)
      | inr e ↦ rest ∙ rw e (omega arith)
    ]

tokens_of-append :
    (model : String) (xs ys : List TokenUsage)
    → tokens_of model (xs ++ ys) ≡ tokens_of model xs + tokens_of model ys
tokens_of-append model [] ys = omega arith
tokens_of-append model (x ∷ xs) ys = omega (arith, tokens_of-append model xs ys)

filter-append :
    {A : Type 0} (p : A → Bool) (xs ys : List A) → filter p (xs ++ ys) ≡ filter p xs ++ filter p ys
filter-append p [] ys = refl
filter-append p (x ∷ xs) ys = elim (Bool-cases (p x)) [
  | inl e ↦ rw e (ap (λ r. x ∷ r) (filter-append p xs ys))
  | inr e ↦ rw e (filter-append p xs ys)
]

tokens_of-single :
    (since : TokenUsage → Bool) (u : TokenUsage) (model : String)
    → tokens_of model (filter since (u ∷ []))
      ≡ (if since u then (if str_eq model u.model then u.total_tokens else 0) else 0)
tokens_of-single since u model = elim (Bool-cases (since u)) [
  | inl e ↦ rw e (omega arith)
  | inr e ↦ rw e refl
]

-- An entry that is added counts for its model, and only there, if it is not older than the timeframe.
pub get_usage_by_model-add_token_usage :
    (frame : Timeframe) (now : ℕ) (us : List TokenUsage) (u : TokenUsage) (model : String)
    → get_usage_by_model frame now (add_token_usage u us) model
      ≡ get_usage_by_model frame now us model
        + (if leb (cutoff frame now) u.date
            then (if str_eq model u.model then u.total_tokens else 0)
            else 0)
unfolding get_usage_by_model
get_usage_by_model-add_token_usage frame now us u model =
    let since : TokenUsage → Bool = λ x. leb (cutoff frame now) x.date in
    let split = filter-append since us (u ∷ []) in
    let whole = reduce_usage-tokens_of (λ m. 0) (filter since (us ++ u ∷ [])) model in
    let part = reduce_usage-tokens_of (λ m. 0) (filter since us) model in
    let sums = tokens_of-append model (filter since us) (filter since (u ∷ [])) in
    let same = ap (tokens_of model) split in
    let last = tokens_of-single since u model in omega (arith, whole, same, sums, part, last)

any-append : (p : String → Bool) (xs ys : List String) → any p (xs ++ ys) ≡ (any p xs || any p ys)
any-append p [] ys = refl
any-append p (x ∷ xs) ys = ground (arith, any-append p xs ys)

any-filter-not : (p : String → Bool) (xs : List String) → any p (filter (λ x. not (p x)) xs) ≡ false
any-filter-not p [] = refl
any-filter-not p (x ∷ xs) = ground (arith, any-filter-not p xs)

-- A toggle collapses a group that is open, and opens one that is collapsed.
pub any-toggle_group :
    (group : String) (gs : List String)
    → any (str_eq group) (toggle_group group gs) ≡ not (any (str_eq group) gs)
unfolding toggle_group
any-toggle_group group gs =
    let itself : str_eq group group ≡ true = (eq_iff group group).1 refl in
    elim (Bool-cases (any (str_eq group) gs)) [
      | inl e ↦ rw (e, any-filter-not (str_eq group) gs) refl
      | inr e ↦ rw (e, any-append (str_eq group) gs (group ∷ []), e, itself) refl
    ]
