-- ===== src/Store/Mirror.antt =====
-- The selected item is the row of its id.
use mathlib.Core.Option
use conductor_dashboard.Common.{
  ℕ, ◌≡◌, ◌≢◌, refl, ap, ◌∙◌, inl, inr, not, some, List, [], ◌∷◌, arith, filter, find, update_where,
  find-update_where, find-update_where_other, ◌==◌, Bool-cases, Option-cases,
}
use conductor_dashboard.Store.Selection.{Selection, add_item, update_item, delete_item}

module _ {A : Type 0} (id_of : A → ℕ) where
  -- Either nothing is selected, or the row of the selected item's id is that item.
  abbrev pub Mirrors : Selection A → Type 0
  Mirrors s = (a : A) → s.selected ≡ some a → find (λ x. id_of x == id_of a) s.items ≡ some a

  find-filter_ne :
      (k j : ℕ) (xs : List A)
      → k ≢ j
      → find (λ x. id_of x == j) (filter (λ x. not (id_of x == k)) xs) ≡ find (λ x. id_of x == j) xs
  find-filter_ne k j [] h = refl
  find-filter_ne k j (x ∷ xs) h = ground (arith, find-filter_ne k j xs h)

  -- Of an item whose id is not the one that changes, the row stays.
  find-update_other :
      (id j : ℕ) (updates : A → A) (xs : List A)
      → ((a : A) → id_of (updates a) ≡ id_of a)
      → id ≢ j
      → find (λ x. id_of x == j) (update_where (λ x. id_of x == id) updates xs)
        ≡ find (λ x. id_of x == j) xs
  find-update_other id j updates xs keep apart =
      find-update_where_other (λ x. id_of x == id) (λ x. id_of x == j) updates xs
        (λ x hit. let k = keep x in (ground arith, ground arith))

  find-update_same :
      (id : ℕ) (updates : A → A) (xs : List A)
      → ((a : A) → id_of (updates a) ≡ id_of a)
      → find (λ x. id_of x == id) (update_where (λ x. id_of x == id) updates xs)
        ≡ Option.map updates (find (λ x. id_of x == id) xs)
  find-update_same id updates xs keep =
      find-update_where (λ x. id_of x == id) updates xs (λ x. ap (λ k. k == id) (keep x))

  update_item-Mirrors :
      (id : ℕ) (updates : A → A) (s : Selection A)
      → ((a : A) → id_of (updates a) ≡ id_of a)
      → Mirrors s
      → Mirrors (update_item id_of id updates s)
  update_item-Mirrors id updates s keep h a e = elim (Option-cases s.selected) [
    | inl nothing ↦ absurd (let q = rw nothing at e in cc q)
    | inr (b, chosen) ↦ elim (Bool-cases (id_of b == id)) [
      | inl hit ↦
          let same : id_of b ≡ id = ground arith in
          let q : updates b ≡ a = ground arith in
          let k : id_of a ≡ id = rw q at (keep b ∙ same) in
          let row : find (λ x. id_of x == id) s.items ≡ some b = rw same at (h b chosen) in
          rw k (find-update_same id updates s.items keep ∙ rw row (ap some q))
      | inr miss ↦
          let q : b ≡ a = ground arith in
          let apart : id ≢ id_of b = ground arith in
          rw q at (find-update_other id (id_of b) updates s.items keep apart ∙ h b chosen)
    ]
  ]

  delete_item-Mirrors : (id : ℕ) (s : Selection A) → Mirrors s → Mirrors (delete_item id_of id s)
  delete_item-Mirrors id s h a e = elim (Option-cases s.selected) [
    | inl nothing ↦ absurd (let q = rw nothing at e in cc q)
    | inr (b, chosen) ↦ elim (Bool-cases (id_of b == id)) [
      | inl hit ↦ absurd (ground arith)
      | inr miss ↦
          let q : b ≡ a = ground arith in
          let apart : id ≢ id_of b = ground arith in
          rw q at (find-filter_ne id (id_of b) s.items apart ∙ h b chosen)
    ]
  ]

  add_item-Mirrors :
      (a : A) (s : Selection A)
      → ((b : A) → s.selected ≡ some b → id_of b ≢ id_of a)
      → Mirrors s
      → Mirrors (add_item id_of a s)
  add_item-Mirrors a s fresh h b e = ground (arith, h b e, fresh b e)

  pub data Action : Type 0 where
    add : A → Action
    change : ℕ → (A → A) → Action
    delete : ℕ → Action

  abbrev pub act : Action → Selection A → Selection A
  act (add a) s = add_item id_of a s
  act (change id updates) s = update_item id_of id updates s
  act (delete id) s = delete_item id_of id s

  -- What is added has not the id of the selected item, and no update changes an id.
  abbrev pub Proper : Action → Selection A → Type 0
  Proper (add a) s = (b : A) → s.selected ≡ some b → id_of b ≢ id_of a
  Proper (change id updates) s = (a : A) → id_of (updates a) ≡ id_of a
  Proper (delete id) s = Unit

  -- Whatever is added, changed or deleted, the selected item stays the row of its id, if what is added
  -- has another id than it and no update changes an id.
  pub act-Mirrors : (a : Action) (s : Selection A) → Proper a s → Mirrors s → Mirrors (act a s)
  act-Mirrors (add a) s k h = add_item-Mirrors a s k h
  act-Mirrors (change id updates) s k h = update_item-Mirrors id updates s k h
  act-Mirrors (delete id) s k h = delete_item-Mirrors id s h
