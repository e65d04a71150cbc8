-- ===== src/Common/Keyed.antt =====
-- A table by its primary key: SELECT and UPDATE … WHERE id = ? AND p.
use Prim.Native.Nat.{ℕ, zero, suc, ◌<◌}
use mathlib.Core.Path.{◌≡◌, refl, fun_ext}
use mathlib.Core.Logic.{inl, inr}
use mathlib.Core.Bool.{Bool, true, false}
use mathlib.Core.Option.{Option, none, some}
use native.Mathlib.Omega.{arith}
use conductor_dashboard.Common.Tests.{◌==◌, if◌then◌else◌, Bool-cases, Option-cases}

-- At most one row for each id.
abbrev pub Rows {ℓ} : Type ℓ → Type ℓ
Rows A = ℕ → Option A

module _ {ℓ} {A : Type ℓ} where
  abbrev pub check_row : (A → Bool) → Option A → Option A
  check_row p none = none
  check_row p (some a) = if p a then some a else none

  abbrev pub select : Rows A → ℕ → (A → Bool) → Option A
  select t id p = check_row p (t id)

  abbrev pub change_row : (A → Bool) → (A → A) → Option A → Option A
  change_row p f none = none
  change_row p f (some a) = some (if p a then f a else a)

  abbrev pub update : Rows A → ℕ → (A → Bool) → (A → A) → Rows A
  update t id p f n = if n == id then change_row p f (t n) else t n

  abbrev pub insert_row : Rows A → ℕ → A → Rows A
  insert_row t id a n = if n == id then some a else t n

  -- What holds of every row.
  abbrev pub Holds {κ} : (A → Type κ) → Rows A → Type (ℓ ⊔ κ)
  Holds P t = (n : ℕ) (a : A) → t n ≡ some a → P a

-- DELETE … WHERE id = ?
abbrev pub remove_row {ℓ} : {A : Type ℓ} → Rows A → ℕ → Rows A
remove_row t id n = if n == id then none else t n

abbrev pub row_has {ℓ} : {A : Type ℓ} → (A → Bool) → Option A → Bool
row_has p none = false
row_has p (some a) = p a

-- The first id below n that passes the test, as ORDER BY id ASC LIMIT 1 gives it.
abbrev pub first_id : (ℕ → Bool) → ℕ → Option ℕ
first_id p zero = none
first_id p (suc n) = elim (first_id p n) [ some i ↦ some i | none ↦ if p n then some n else none ]

module _ {ℓ} {A : Type ℓ} where
  -- The row that a SELECT returns stands under its id and passes the test.
  pub select_row :
      (t : Rows A) (id : ℕ) (p : A → Bool) {a : A}
      → select t id p ≡ some a
      → (t id ≡ some a) × (p a ≡ true)
  select_row t id p {a} h = elim (Option-cases (t id)) [
    | inl e ↦ absurd (let k = rw e at h in cc k)
    | inr (b, e) ↦ ground arith
  ]

  change_row-change_row :
      (p : A → Bool) (f g : A → A)
      → ((a : A) → p (f a) ≡ p a)
      → (o : Option A) → change_row p g (change_row p f o) ≡ change_row p (λ a. g (f a)) o
  change_row-change_row p f g keep none = refl
  change_row-change_row p f g keep (some a) = ground (arith, keep a)

  pub Holds-update {κ} :
      (P : A → Type κ) (t : Rows A) (id : ℕ) (p : A → Bool) (f : A → A)
      → Holds P t
      → ((a : A) → t id ≡ some a → p a ≡ true → P (f a))
      → Holds P (update t id p f)
  Holds-update P t id p f h k n a e = elim (Bool-cases (n == id)) [
    | inl same ↦ elim (Option-cases (t n)) [
      | inl missing ↦ absurd (let q = rw (same, missing) at e in cc q)
      | inr (b, found) ↦
          let there : t id ≡ some b = ground arith in
          elim (Bool-cases (p b)) [
            | inl hit ↦ let q : f b ≡ a = ground arith in rw q at (k b there hit)
            | inr miss ↦ let q : b ≡ a = ground arith in h n a (ground arith)
          ]
    ]
    | inr other ↦ h n a (rw other at e)
  ]

  -- Two updates of one row are one.
  pub update-update :
      (t : Rows A) (id : ℕ) (p : A → Bool) (f g : A → A)
      → ((a : A) → p (f a) ≡ p a)
      → update (update t id p f) id p g ≡ update t id p (λ a. g (f a))
  update-update t id p f g keep = fun_ext (λ n. elim (Bool-cases (n == id)) [
    | inl same ↦ rw same (change_row-change_row p f g keep (t n))
    | inr other ↦ rw other
  ])

  pub Holds-insert_row {κ} :
      (P : A → Type κ) (t : Rows A) (id : ℕ) (a : A) → Holds P t → P a → Holds P (insert_row t id a)
  Holds-insert_row P t id a h k n b e = elim (Bool-cases (n == id)) [
    | inl same ↦ let q : a ≡ b = ground arith in rw q at k
    | inr other ↦ h n b (rw other at e)
  ]

-- What is found passes the test, and is below n.
pub first_id_passes :
    (p : ℕ → Bool) (n : ℕ) {i : ℕ} → first_id p n ≡ some i → (p i ≡ true) × (i < n)
first_id_passes p zero h = absurd (cc)
first_id_passes p (suc n) {i} h = elim (Option-cases (first_id p n)) [
  | inr (j, e) ↦
      let (passes, below) = first_id_passes p n e in
      let same : j ≡ i = ground arith in (rw same at passes, ground arith)
  | inl e ↦ elim (Bool-cases (p n)) [
    | inl k ↦ let same : n ≡ i = ground arith in (rw same at k, omega arith)
    | inr k ↦ absurd (let q = rw (e, k) at h in cc q)
  ]
]
