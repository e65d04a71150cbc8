-- ===== src/Store/Messages.antt =====
-- What the actions on the chat keep, and the message that two paths deliver.
use conductor_dashboard.Common.{
  ℕ, zero, suc, ◌+◌, ◌-◌, ◌≤◌, ◌<◌, ◌≡◌, refl, ap, ◌∙◌, inl, inr, String, Bool, true, false, not,
  ◌&&◌, some, List, [], ◌∷◌, ◌++◌, arith, length, drop, any, filter, update_where, Bool-cases,
  length-append, length-filter-le, length-drop, length-update_where, ==_iff, ==_refl,
}
use conductor_dashboard.Store.Chat.{
  ℤ, pos, negsuc, same, positive, sent, ChatMessage, Chat, last_500, is_message, is_unread_in,
  add_chat_message, replace_pending_message, remove_pending_message, mark_conversation_read,
}

abbrev pub count : ℤ → List ChatMessage → ℕ
count id ms = length (filter (is_message id) ms)

same_iff : (a b : ℤ) → same a b ≡ true → a ≡ b
same_iff (pos m) (pos n) h = ap pos ((==_iff m n).0 h)
same_iff (negsuc m) (negsuc n) h = ap negsuc ((==_iff m n).0 h)
same_iff (pos m) (negsuc n) h = absurd (cc)
same_iff (negsuc m) (pos n) h = absurd (cc)

same_refl : (a : ℤ) → same a a ≡ true
same_refl (pos m) = ==_refl m
same_refl (negsuc m) = ==_refl m

count-append : (id : ℤ) (xs ys : List ChatMessage) → count id (xs ++ ys) ≡ count id xs + count id ys
count-append id [] ys = omega arith
count-append id (x ∷ xs) ys = ground (arith, count-append id xs ys)

count-drop : (id : ℤ) (n : ℕ) (xs : List ChatMessage) → count id (drop n xs) ≤ count id xs
count-drop id zero xs = omega arith
count-drop id (suc n) [] = omega arith
count-drop id (suc n) (x ∷ xs) = ground (arith, count-drop id n xs)

any-count : (id : ℤ) (xs : List ChatMessage) → any (is_message id) xs ≡ false → count id xs ≡ 0
any-count id [] h = refl
any-count id (x ∷ xs) h = ground (arith, any-count id xs)

count-cons :
    (id : ℤ) (x y : ChatMessage) (xs ys : List ChatMessage)
    → x.id ≡ y.id
    → count id xs ≡ count id ys
    → count id (x ∷ xs) ≡ count id (y ∷ ys)
count-cons id x y xs ys h k = elim (Bool-cases (same x.id id)) [
  | inl e ↦ let q : same y.id id ≡ true = rw h at e in rw (e, q) (ap suc k)
  | inr e ↦ let q : same y.id id ≡ false = rw h at e in rw (e, q) k
]

count-update_where :
    (id : ℤ) (p : ChatMessage → Bool) (f : ChatMessage → ChatMessage) (xs : List ChatMessage)
    → ((m : ChatMessage) → (f m).id ≡ m.id)
    → count id (update_where p f xs) ≡ count id xs
count-update_where id p f [] keep = refl
count-update_where id p f (x ∷ xs) keep =
    let rest = count-update_where id p f xs keep in
    elim (Bool-cases (p x)) [
      | inl e ↦ rw e (count-cons id (f x) x (update_where p f xs) xs (keep x) rest)
      | inr e ↦ rw e (count-cons id x x (update_where p f xs) xs refl rest)
    ]

count-filter-le :
    (id : ℤ) (p : ChatMessage → Bool) (xs : List ChatMessage) → count id (filter p xs) ≤ count id xs
count-filter-le id p [] = omega arith
count-filter-le id p (x ∷ xs) = ground (arith, count-filter-le id p xs)

-- At most 500 messages, and one message at most for each id of the server.
abbrev pub IsChat : Chat → Type 0
IsChat c = (length c.messages ≤ 500) × ((id : ℤ) → positive id ≡ true → count id c.messages ≤ 1)

short : (ms : List ChatMessage) → length ms ≤ 500 → last_500 ms ≡ ms
short ms h = let q : length ms - 500 ≡ 0 = omega arith in rw q refl

length-last_500 : (ms : List ChatMessage) → length (last_500 ms) ≤ 500
length-last_500 ms = rw (length-drop (length ms - 500) ms) (omega arith)

count-one : (id : ℤ) (m : ChatMessage) → count id (m ∷ []) ≤ 1
count-one id m = ground arith

added-once :
    (id : ℤ) (m : ChatMessage) (ms : List ChatMessage)
    → (positive m.id && any (is_message m.id) ms) ≡ false
    → positive id ≡ true
    → count id ms ≤ 1
    → count id (ms ++ m ∷ []) ≤ 1
added-once id m ms h p once = rw (count-append id ms (m ∷ [])) (elim (Bool-cases (same m.id id)) [
  | inl e ↦
      let q : m.id ≡ id = same_iff m.id id e in
      let k : any (is_message id) ms ≡ false = let g = rw (q, p) at h in g in
      let none_yet = any-count id ms k in let one = count-one id m in omega (arith, none_yet, one)
  | inr e ↦ rw e (omega (arith, once))
])

pub data Action : Type 0 where
  add : ChatMessage → Action
  remove : ℤ → Action
  mark_read : ℕ → String → Action

abbrev pub act : Action → Chat → Chat
act (add m) c = add_chat_message m c
act (remove temp) c = remove_pending_message temp c
act (mark_read now id) c = mark_conversation_read now id c

-- Adding any message, dropping one and reading a conversation leave at most 500 messages, and no two
-- of one id of the server.
pub act-IsChat : (a : Action) (c : Chat) → IsChat c → IsChat (act a c)
unfolding add_chat_message remove_pending_message mark_conversation_read
act-IsChat (add m) c (n, once) =
    elim (Bool-cases (positive m.id && any (is_message m.id) c.messages)) [
      | inl e ↦ rw e (n, once)
      | inr e ↦
          let all = c.messages ++ m ∷ [] in
          rw e (
            length-last_500 all,
            λ id p.
                let kept = count-drop id (length all - 500) all in
                let k = added-once id m c.messages e p (once id p) in omega (arith, kept, k),
          )
    ]
act-IsChat (remove temp) c (n, once) = (
  let q = length-filter-le (λ m. not (is_message temp m)) c.messages in omega (arith, q, n),
  λ id p.
      let kept = count-filter-le id (λ m. not (is_message temp m)) c.messages in
      let k = once id p in omega (arith, kept, k),
)
act-IsChat (mark_read now id) c (n, once) = (
  rw (length-update_where (is_unread_in id) (λ m. record m { read_at = some now }) c.messages) n,
  λ j p.
      rw
        (count-update_where j (is_unread_in id) (λ m. record m { read_at = some now }) c.messages
          (λ m. refl))
        (once j p),
)

add_chat_message_fresh :
    (m : ChatMessage) (c : Chat)
    → (positive m.id && any (is_message m.id) c.messages) ≡ false
    → length c.messages < 500
    → (add_chat_message m c).messages ≡ c.messages ++ m ∷ []
unfolding add_chat_message
add_chat_message_fresh m c h room =
    rw h
      (short (c.messages ++ m ∷ []) (rw (length-append c.messages (m ∷ [])) (omega (arith, room))))

-- A replacement has one message more of its id for each that it replaces.
count-replace :
    (temp id : ℤ) (f : ChatMessage → ChatMessage) (ms : List ChatMessage)
    → same temp id ≡ false
    → ((m : ChatMessage) → (f m).id ≡ id)
    → count id (update_where (is_message temp) f ms) ≡ count id ms + count temp ms
count-replace temp id f [] apart new = omega arith
count-replace temp id f (m ∷ ms) apart new =
    let rest = count-replace temp id f ms apart new in
    elim (Bool-cases (same m.id temp)) [
      | inl e ↦
          let old : same m.id id ≡ false = rw (same_iff m.id temp e) apart in
          let hit : same (f m).id id ≡ true = rw (new m) (same_refl id) in
          rw (e, old, hit) (omega (arith, rest))
      | inr e ↦ rw e (elim (Bool-cases (same m.id id)) [
        | inl hit ↦ rw hit (omega (arith, rest))
        | inr miss ↦ rw miss rest
      ])
    ]

count-any : (id : ℤ) (xs : List ChatMessage) → count id xs ≡ 0 → any (is_message id) xs ≡ false
count-any id [] h = refl
count-any id (x ∷ xs) h = elim (Bool-cases (same x.id id)) [
  | inl e ↦ absurd (let q = rw e at h in omega (arith, q))
  | inr e ↦ rw e (count-any id xs (rw e at h))
]

and_false : (a b : Bool) → b ≡ false → (a && b) ≡ false
and_false true b h = h
and_false false b h = refl

-- The messages after a pending one and a pushed one.
pushed_after :
    (m p : ChatMessage) (c : Chat)
    → positive p.id ≡ false
    → length c.messages < 499
    → count m.id c.messages ≡ 0
    → same p.id m.id ≡ false
    → (add_chat_message m (add_chat_message p c)).messages ≡ (c.messages ++ p ∷ []) ++ m ∷ []
pushed_after m p c temp room no_m apart =
    let first : (add_chat_message p c).messages ≡ c.messages ++ p ∷ [] =
      add_chat_message_fresh p c (rw temp refl) (omega (arith, room)) in
    let none_yet : any (is_message m.id) (c.messages ++ p ∷ []) ≡ false =
      count-any m.id (c.messages ++ p ∷ [])
        (count-append m.id c.messages (p ∷ []) ∙ rw (no_m, apart) (omega arith)) in
    let size : length (c.messages ++ p ∷ []) < 500 =
      rw (length-append c.messages (p ∷ [])) (omega (arith, room)) in
    let second =
      add_chat_message_fresh m (add_chat_message p c)
        (and_false (positive m.id) (any (is_message m.id) (add_chat_message p c).messages)
          (rw first none_yet))
        (rw first size) in
    second ∙ rw first refl

-- Where the server pushes a message before the answer to its POST comes, the chat shows it twice: the
-- pending message that the answer replaces, and the one that was pushed.
pub replace_pending_message-twice :
    (temp : ℕ) (id : ℕ) (p m : ChatMessage) (c : Chat)
    → p.id ≡ negsuc temp
    → m.id ≡ pos (suc id)
    → length c.messages < 499
    → count p.id c.messages ≡ 0
    → count m.id c.messages ≡ 0
    → count m.id
        (replace_pending_message p.id m (add_chat_message m (add_chat_message p c))).messages
      ≡ 2
unfolding replace_pending_message
replace_pending_message-twice temp id p m c hp hm room no_p no_m =
    let apart : same p.id m.id ≡ false = rw (hp, hm) refl in
    let apart_back : same m.id p.id ≡ false = rw (hp, hm) refl in
    let pushed = pushed_after m p c (rw hp refl) room no_m apart in
    rw pushed (
      count-replace p.id m.id (λ old. record m { pending_status = some sent })
        ((c.messages ++ p ∷ []) ++ m ∷ []) apart (λ old. refl)
      ∙ rw
          (
            count-append m.id (c.messages ++ p ∷ []) (m ∷ []),
            count-append m.id c.messages (p ∷ []),
            count-append p.id (c.messages ++ p ∷ []) (m ∷ []),
            count-append p.id c.messages (p ∷ []),
            apart,
            apart_back,
            same_refl m.id,
            same_refl p.id,
            no_p,
            no_m,
          )
          (omega arith))
