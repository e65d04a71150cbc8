-- ===== src/Store/Unread.antt =====
-- The counter of unread notifications against the notifications that are unread.
use conductor_dashboard.Common.{
  ℕ, suc, ◌+◌, ◌<◌, ◌≡◌, ◌≢◌, refl, ap, ◌∙◌, sym, inl, inr, true, false, some, List, [], ◌∷◌, map,
  arith, length, filter, find, All, update_where, if◌then◌else◌, Bool-cases,
}
use conductor_dashboard.Store.Notifications.{
  Notification, Inbox, is_unread, read_now, has_id, set_notifications, add_notification,
  mark_notification_read, mark_all_notifications_read,
}

abbrev pub unread_in : List Notification → ℕ
unread_in ns = length (filter is_unread ns)

-- The counter counts the unread notifications.
abbrev pub IsExact : Inbox → Type 0
IsExact s = s.unread_count ≡ unread_in s.notifications

-- No two notifications have one id.
abbrev pub Distinct : List Notification → Type 0
Distinct [] = Unit
Distinct (n ∷ ns) = All (λ m. m.id ≢ n.id) ns × Distinct ns

pub data Action : Type 0 where
  set : List Notification → Action
  add : Notification → Action
  mark : ℕ → Action
  mark_all : Action

abbrev pub act : ℕ → Action → Inbox → Inbox
act now (set ns) s = set_notifications ns
act now (add n) s = add_notification n s
act now (mark id) s = mark_notification_read now id s
act now mark_all s = mark_all_notifications_read now s

-- An unread notification is added, and an unread one of the list is marked.
abbrev pub Proper : Action → Inbox → Type 0
Proper (set ns) s = Unit
Proper (add n) s = is_unread n ≡ true
Proper (mark id) s =
    Distinct s.notifications
    × ((n : Notification) × (find (has_id id) s.notifications ≡ some n) × (is_unread n ≡ true))
Proper mark_all s = Unit

update_where_absent :
    (id : ℕ) (f : Notification → Notification) (ns : List Notification)
    → All (λ m. m.id ≢ id) ns
    → update_where (has_id id) f ns ≡ ns
update_where_absent id f [] h = refl
update_where_absent id f (n ∷ ns) (p, h) = ground (arith, update_where_absent id f ns h)

unread_in-unread :
    (n : Notification) (ns : List Notification)
    → is_unread n ≡ true
    → unread_in (n ∷ ns) ≡ unread_in ns + 1
unread_in-unread n ns h = rw h (omega arith)

unread_in-read :
    (n : Notification) (ns : List Notification)
    → is_unread n ≡ false
    → unread_in (n ∷ ns) ≡ unread_in ns
unread_in-read n ns h = rw h refl

read_now-IsRead : (now : ℕ) (n : Notification) → 0 < now → is_unread (read_now now n) ≡ false
read_now-IsRead now n pos = ground arith

unread_in-mark :
    (now id : ℕ) (ns : List Notification) (n : Notification)
    → 0 < now
    → Distinct ns
    → find (has_id id) ns ≡ some n
    → is_unread n ≡ true
    → unread_in (update_where (has_id id) (read_now now) ns) + 1 ≡ unread_in ns
unread_in-mark now id [] n pos d h u = absurd (cc)
unread_in-mark now id (m ∷ ns) n pos (apart, d) h u = elim (Bool-cases (has_id id m)) [
  | inl e ↦
      let hit : m.id ≡ id = ground arith in
      let same : m ≡ n = ground arith in
      let fresh : All (λ k. k.id ≢ id) ns = rw hit at apart in
      rw (e, update_where_absent id (read_now now) ns fresh)
        (ap (λ k. k + 1) (unread_in-read (read_now now m) ns (read_now-IsRead now m pos))
          ∙ sym (unread_in-unread m ns (rw same u)))
  | inr e ↦
      let rest = unread_in-mark now id ns n pos d (rw e at h) u in
      rw e (elim (Bool-cases (is_unread m)) [
        | inl w ↦
            rw
              (
                unread_in-unread m (update_where (has_id id) (read_now now) ns) w,
                unread_in-unread m ns w,
              )
              (omega (arith, rest))
        | inr w ↦
            rw
              (
                unread_in-read m (update_where (has_id id) (read_now now) ns) w,
                unread_in-read m ns w,
              )
              rest
      ])
]

unread_in-mark_all :
    (now : ℕ) (ns : List Notification)
    → 0 < now
    → unread_in (map (λ n. if is_unread n then read_now now n else n) ns) ≡ 0
unread_in-mark_all now [] pos = refl
unread_in-mark_all now (n ∷ ns) pos = elim (Bool-cases (is_unread n)) [
  | inl e ↦ rw e (
      unread_in-read (read_now now n) (map (λ n. if is_unread n then read_now now n else n) ns)
        (read_now-IsRead now n pos)
      ∙ unread_in-mark_all now ns pos)
  | inr e ↦ rw e (
      unread_in-read n (map (λ n. if is_unread n then read_now now n else n) ns) e
      ∙ unread_in-mark_all now ns pos)
]

-- Where unread notifications are added, and unread ones of the list are marked, the counter stays the
-- number of unread notifications, whatever the action.
pub act-IsExact :
    (now : ℕ) (a : Action) (s : Inbox) → 0 < now → Proper a s → IsExact s → IsExact (act now a s)
unfolding set_notifications add_notification mark_notification_read mark_all_notifications_read
act-IsExact now (set ns) s pos k h = refl
act-IsExact now (add n) s pos k h =
    let q : s.unread_count ≡ unread_in s.notifications = h in
    let r : unread_in (n ∷ s.notifications) ≡ unread_in s.notifications + 1 =
      unread_in-unread n s.notifications k in
    omega (arith, q, r)
act-IsExact now (mark id) s pos (d, (n, found, u)) h =
    let q = unread_in-mark now id s.notifications n pos d found u in omega (arith, q, h)
act-IsExact now mark_all s pos k h = sym (unread_in-mark_all now s.notifications pos)

unread_in-mark_read :
    (now id : ℕ) (ns : List Notification)
    → 0 < now
    → All (λ n. (n.id ≡ id) → is_unread n ≡ false) ns
    → unread_in (update_where (has_id id) (read_now now) ns) ≡ unread_in ns
unread_in-mark_read now id [] pos h = refl
unread_in-mark_read now id (n ∷ ns) pos (k, h) =
    let rest = unread_in-mark_read now id ns pos h in
    elim (Bool-cases (has_id id n)) [
      | inl e ↦
          rw (e, k (ground arith))
            (unread_in-read (read_now now n) (update_where (has_id id) (read_now now) ns)
                (read_now-IsRead now n pos)
              ∙ rest)
      | inr e ↦
          rw e (elim (Bool-cases (is_unread n)) [ inl w ↦ rw w (ap suc rest) | inr w ↦ rw w rest ])
    ]

-- Marking a notification that is read, or that the list has not, leaves the number of unread
-- notifications and takes one from a counter that is not zero.
pub mark_notification_read-drift :
    (now id : ℕ) (s : Inbox)
    → 0 < now
    → IsExact s
    → 0 < s.unread_count
    → All (λ n. (n.id ≡ id) → is_unread n ≡ false) s.notifications
    → (mark_notification_read now id s).unread_count + 1
      ≡ unread_in (mark_notification_read now id s).notifications
unfolding mark_notification_read
mark_notification_read-drift now id s pos h some_unread k =
    let q = unread_in-mark_read now id s.notifications pos k in omega (arith, q, h, some_unread)
