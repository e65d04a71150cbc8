-- ===== src/Common/Table.antt =====
-- A table of rows: SELECT … LIMIT 1, UPDATE … WHERE and DELETE … WHERE, and the same over arrays.
use Prim.Native.Nat.{suc}
use mathlib.Core.Path.{◌≡◌, refl, ap}
use mathlib.Core.Logic.{inl, inr}
use mathlib.Core.Bool.{Bool, true, false}
use mathlib.Core.List.{List, [], ◌∷◌}
use mathlib.Core.Option
use mathlib.Core.Option.{Option, none, some}
use native.Mathlib.Omega.{arith}
use conductor_dashboard.Common.Tests.{if◌then◌else◌, Bool-cases}
use conductor_dashboard.Common.Lists.{length, All}

module _ {ℓ} {A : Type ℓ} where
  -- The first row that the test accepts.
  abbrev pub find : (A → Bool) → List A → Option A
  find p [] = none
  find p (x ∷ xs) = let rest = find p xs in if p x then some x else rest

  -- UPDATE … SET f WHERE p
  abbrev pub update_where : (A → Bool) → (A → A) → List A → List A
  update_where p f [] = []
  update_where p f (x ∷ xs) = (if p x then f x else x) ∷ update_where p f xs

module _ {ℓ} {A : Type ℓ} where
  -- An update that keeps the key is seen by the next read of that key.
  pub find-update_where :
      (p : A → Bool) (f : A → A) (xs : List A)
      → ((x : A) → p (f x) ≡ p x)
      → find p (update_where p f xs) ≡ Option.map f (find p xs)
  find-update_where p f [] keep = refl
  find-update_where p f (x ∷ xs) keep = elim (Bool-cases (p x)) [
    | inl e ↦ rw (e, keep x, e) refl
    | inr e ↦ rw (e, e) (find-update_where p f xs keep)
  ]

  -- And by no read of another key.
  pub find-update_where_other :
      (p q : A → Bool) (f : A → A) (xs : List A)
      → ((x : A) → p x ≡ true → (q x ≡ false) × (q (f x) ≡ false))
      → find q (update_where p f xs) ≡ find q xs
  find-update_where_other p q f [] apart = refl
  find-update_where_other p q f (x ∷ xs) apart = elim (Bool-cases (p x)) [
    | inl e ↦ rw (e, (apart x e).0, (apart x e).1) (find-update_where_other p q f xs apart)
    | inr e ↦ rw e (ap (λ r. if q x then some x else r) (find-update_where_other p q f xs apart))
  ]

  -- A row that is found passes the test.
  pub find_passes : (p : A → Bool) (xs : List A) {x : A} → find p xs ≡ some x → p x ≡ true
  find_passes p [] h = cc
  find_passes p (y ∷ ys) h = elim (Bool-cases (p y)) [
    | inl e ↦ ground arith
    | inr e ↦ find_passes p ys (rw e at h)
  ]

  pub find_All {κ} :
      (P : A → Type κ) (p : A → Bool) (xs : List A) {x : A} → All P xs → find p xs ≡ some x → P x
  find_All P p [] k h = absurd (cc)
  find_All P p (y ∷ ys) {x} (q, k) h = elim (Bool-cases (p y)) [
    | inl e ↦ let same : y ≡ x = ground arith in rw same at q
    | inr e ↦ find_All P p ys k (rw e at h)
  ]

  pub All-update_where {κ} :
      (P : A → Type κ) (p : A → Bool) (f : A → A) (xs : List A)
      → ((x : A) → p x ≡ true → P x → P (f x))
      → All P xs
      → All P (update_where p f xs)
  All-update_where P p f [] keep h = tt
  All-update_where P p f (x ∷ xs) keep (q, h) = elim (Bool-cases (p x)) [
    | inl e ↦ rw e (keep x e q, All-update_where P p f xs keep h)
    | inr e ↦ rw e (q, All-update_where P p f xs keep h)
  ]

  pub length-update_where :
      (p : A → Bool) (f : A → A) (xs : List A) → length (update_where p f xs) ≡ length xs
  length-update_where p f [] = refl
  length-update_where p f (x ∷ xs) = ap suc (length-update_where p f xs)
