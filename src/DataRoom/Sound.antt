-- ===== src/DataRoom/Sound.antt =====
-- How the rows of a data room hang together.
use conductor_dashboard.Common.{
  ℕ, suc, ◌<◌, ◌≡◌, sym, ◌∙◌, inl, inr, Bool, true, false, none, some, arith, Rows, ◌==◌,
  Bool-cases, Option-cases, row_has, is_some, Holds, insert_row, remove_row, update,
}
use conductor_dashboard.DataRoom.Tables.{
  DataRoomLink, DataRoomVisitor, DataRoomEvent, Db, delete_where, map_row,
}

abbrev pub Exists {ℓ} : {A : Type ℓ} → Rows A → ℕ → Type 0
Exists t id = is_some (t id) ≡ true

-- The link of a visitor leads to the visitor's room.
abbrev pub IsLinked : Rows DataRoomLink → DataRoomVisitor → Type 0
IsLinked ls v = row_has (λ l. l.room_id == v.room_id) (ls v.link_id) ≡ true

-- The visitor of an event is in the event's room.
abbrev pub IsTraced : Rows DataRoomVisitor → DataRoomEvent → Type 0
IsTraced vs e = row_has (λ v. v.room_id == e.room_id) (vs e.visitor_id) ≡ true

-- Documents and links are of rooms that exist, visitors of links of their room, and events of visitors of theirs.
pub record IsSound (db : Db) : Type 0 where
  pub documents : Holds (λ d. Exists db.rooms d.room_id) db.documents
  pub links : Holds (λ l. Exists db.rooms l.room_id) db.links
  pub visitors : Holds (IsLinked db.links) db.visitors
  pub events : Holds (IsTraced db.visitors) db.events
  pub links_old : (n : ℕ) (l : DataRoomLink) → db.links n ≡ some l → n < db.next_link
  pub visitors_old : (n : ℕ) (v : DataRoomVisitor) → db.visitors n ≡ some v → n < db.next_visitor

module _ {ℓ} {A : Type ℓ} where
  pub Holds-weaken {κ μ} :
      (P : A → Type κ) (Q : A → Type μ) (t : Rows A) → ((a : A) → P a → Q a) → Holds P t → Holds Q t
  Holds-weaken P Q t k h n a e = k a (h n a e)

  pub Holds-delete_where {κ μ} :
      (P : A → Type κ) (Q : A → Type μ) (p : A → Bool) (t : Rows A)
      → ((a : A) → p a ≡ false → P a → Q a)
      → Holds P t
      → Holds Q (delete_where p t)
  Holds-delete_where P Q p t k h n a e = elim (Option-cases (t n)) [
    | inl missing ↦ absurd (let q = rw missing at e in cc q)
    | inr (b, there) ↦ elim (Bool-cases (p b)) [
      | inl gone ↦ absurd (let q = rw (there, gone) at e in cc q)
      | inr kept ↦ let same : b ≡ a = ground arith in rw same at (k b kept (h n b there))
    ]
  ]

  pub Exists-insert_row :
      (t : Rows A) (id : ℕ) (a : A) (n : ℕ) → Exists t n → Exists (insert_row t id a) n
  Exists-insert_row t id a n h = ground arith

  pub Exists-update :
      (t : Rows A) (id : ℕ) (f : A → A) (n : ℕ) → Exists t n → Exists (update t id (λ a. true) f) n
  Exists-update t id f n h = ground arith

  -- A row that is no other than before under any id.
  pub old_insert_row :
      (t : Rows A) (next : ℕ) (a : A)
      → ((n : ℕ) (b : A) → t n ≡ some b → n < next)
      → (n : ℕ) (b : A) → insert_row t next a n ≡ some b
      → n < suc next
  old_insert_row t next a h n b e = elim (Bool-cases (n == next)) [
    | inl same ↦ ground arith
    | inr other ↦ let q = h n b (rw other at e) in omega (arith, q)
  ]

  pub old_update :
      (t : Rows A) (id next : ℕ) (f : A → A)
      → ((n : ℕ) (b : A) → t n ≡ some b → n < next)
      → (n : ℕ) (b : A) → update t id (λ a. true) f n ≡ some b
      → n < next
  old_update t id next f h n b e = elim (Option-cases (t n)) [
    | inr (c, there) ↦ h n c there
    | inl missing ↦ absurd (
        let k : update t id (λ a. true) f n ≡ none = ground arith in
        let q : none ≡ some b = sym k ∙ e in cc q)
  ]

  pub old_delete_where :
      (t : Rows A) (next : ℕ) (p : A → Bool)
      → ((n : ℕ) (b : A) → t n ≡ some b → n < next)
      → (n : ℕ) (b : A) → delete_where p t n ≡ some b
      → n < next
  old_delete_where t next p h n b e = elim (Option-cases (t n)) [
    | inr (c, there) ↦ h n c there
    | inl missing ↦ absurd (let q = rw missing at e in cc q)
  ]

  pub old_remove_row :
      (t : Rows A) (id next : ℕ)
      → ((n : ℕ) (b : A) → t n ≡ some b → n < next)
      → (n : ℕ) (b : A) → remove_row t id n ≡ some b
      → n < next
  old_remove_row t id next h n b e = elim (Bool-cases (n == id)) [
    | inl same ↦ absurd (let q = rw same at e in cc q)
    | inr other ↦ h n b (rw other at e)
  ]

module _ {ℓ} {A : Type ℓ} (p : A → Bool) (t : Rows A) (n : ℕ) where
  pub row_has-update :
      (id : ℕ) (f : A → A)
      → ((a : A) → p (f a) ≡ p a)
      → row_has p (t n) ≡ true
      → row_has p (update t id (λ a. true) f n) ≡ true
  row_has-update id f keep h = elim (Option-cases (t n)) [
    | inl e ↦ absurd (let k = rw e at h in cc k)
    | inr (a, e) ↦ ground (arith, keep a)
  ]

  pub row_has-insert_row :
      (next : ℕ) (a : A)
      → ((m : ℕ) (b : A) → t m ≡ some b → m < next)
      → row_has p (t n) ≡ true
      → row_has p (insert_row t next a n) ≡ true
  row_has-insert_row next a old h = elim (Option-cases (t n)) [
    | inl e ↦ absurd (let k = rw e at h in cc k)
    | inr (b, e) ↦
        let below = old n b e in let other : (n == next) ≡ false = ground arith in rw other h
  ]

  pub row_has-delete_where :
      (q : A → Bool)
      → ((a : A) → p a ≡ true → q a ≡ false)
      → row_has p (t n) ≡ true
      → row_has p (delete_where q t n) ≡ true
  row_has-delete_where q keep h = elim (Option-cases (t n)) [
    | inl e ↦ absurd (let k = rw e at h in cc k)
    | inr (a, e) ↦ let k = rw e at h in rw (e, keep a k) k
  ]

  pub row_has-left :
      (q : A → Bool)
      → row_has (λ a. true) (delete_where q t n) ≡ true
      → row_has p (t n) ≡ true
      → row_has p (delete_where q t n) ≡ true
  row_has-left q there h = elim (Option-cases (t n)) [
    | inl e ↦ absurd (let k = rw e at h in cc k)
    | inr (a, e) ↦ elim (Bool-cases (q a)) [
      | inl k ↦ absurd (let r = rw (e, k) at there in cc r)
      | inr k ↦ rw (e, k) (rw e at h)
    ]
  ]

  pub row_has-remove_row :
      (id : ℕ) → (n == id) ≡ false → row_has p (t n) ≡ true → row_has p (remove_row t id n) ≡ true
  row_has-remove_row id other h = rw other h

pub Holds-map_row {ℓ κ} :
    {A : Type ℓ} (P : A → Type κ) (f : A → A) (t : Rows A)
    → ((a : A) → P a → P (f a))
    → Holds P t
    → Holds P (λ n. map_row f (t n))
Holds-map_row P f t keep h n a e = elim (Option-cases (t n)) [
  | inl missing ↦ absurd (let q = rw missing at e in cc q)
  | inr (b, there) ↦ let same : f b ≡ a = ground arith in rw same at (keep b (h n b there))
]
