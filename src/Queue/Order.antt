-- ===== src/Queue/Order.antt =====
-- The order in which an agent's next task is chosen: ORDER BY … LIMIT 1 gives a row that no other row
-- sorts before.
use conductor_dashboard.Common.{
  ℕ, ◌≡◌, refl, sym, subst, inl, inr, Bool, true, false, none, some, List, [], ◌∷◌, arith, ltb,
  if◌then◌else◌, Bool-cases, Option-cases, All,
}
use conductor_dashboard.Queue.{
  TaskRow, priority_rank, then_by, null_rank, due_value, before, fresher, first_by,
}

-- Being no later is transitive.
abbrev pub IsWeakOrder : (TaskRow → TaskRow → Bool) → Type 0
IsWeakOrder lt =
    ((x y z : TaskRow) → lt x y ≡ false → lt y z ≡ false → lt x z ≡ false)
    × ((x y : TaskRow) → lt x y ≡ true → lt y x ≡ false)

then_by_trans :
    (a b c : ℕ) (p q r : Bool)
    → (p ≡ false → q ≡ false → r ≡ false)
    → then_by a b p ≡ false
    → then_by b c q ≡ false
    → then_by a c r ≡ false
then_by_trans a b c p q r h k l = ground (arith, h)

then_by_asym :
    (a b : ℕ) (p q : Bool) → (p ≡ true → q ≡ false) → then_by a b p ≡ true → then_by b a q ≡ false
then_by_asym a b p q h k = ground (arith, h)

ltb_trans : (a b c : ℕ) → ltb a b ≡ false → ltb b c ≡ false → ltb a c ≡ false
ltb_trans a b c h k = ground arith

ltb_asym : (a b : ℕ) → ltb a b ≡ true → ltb b a ≡ false
ltb_asym a b h = ground arith

-- A column before an order gives an order.
then_by-IsWeakOrder :
    (f : TaskRow → ℕ) (lt : TaskRow → TaskRow → Bool)
    → IsWeakOrder lt
    → IsWeakOrder (λ x y. then_by (f x) (f y) (lt x y))
then_by-IsWeakOrder f lt (trans, asym) = (
  λ x y z. then_by_trans (f x) (f y) (f z) (lt x y) (lt y z) (lt x z) (trans x y z),
  λ x y. then_by_asym (f x) (f y) (lt x y) (lt y x) (asym x y),
)

pub before-IsWeakOrder : IsWeakOrder before
unfolding before
before-IsWeakOrder =
    let created : IsWeakOrder (λ x y. ltb x.created_at y.created_at) = (
      λ x y z. ltb_trans x.created_at y.created_at z.created_at,
      λ x y. ltb_asym x.created_at y.created_at,
    ) in
    let due = then_by-IsWeakOrder (λ x. due_value x.due_date) _ created in
    let nulls = then_by-IsWeakOrder (λ x. null_rank x.due_date) _ due in
    then_by-IsWeakOrder (λ x. priority_rank x.priority) _ nulls

pub fresher-IsWeakOrder : IsWeakOrder fresher
unfolding fresher
fresher-IsWeakOrder = (
  λ x y z h k. ltb_trans z.updated_at y.updated_at x.updated_at k h,
  λ x y h. ltb_asym y.updated_at x.updated_at h,
)

pub first_by-none :
    (lt : TaskRow → TaskRow → Bool) (xs : List TaskRow) → first_by lt xs ≡ none → xs ≡ []
first_by-none lt [] h = refl
first_by-none lt (x ∷ xs) h = absurd (cc)

refl_false : (lt : TaskRow → TaskRow → Bool) (x : TaskRow) → IsWeakOrder lt → lt x x ≡ false
refl_false lt x (trans, asym) = elim (Bool-cases (lt x x)) [ inl e ↦ asym x x e | inr e ↦ e ]

pub All-weaken :
    (P Q : TaskRow → Type 0) (xs : List TaskRow) → ((x : TaskRow) → P x → Q x) → All P xs → All Q xs
All-weaken P Q [] f h = tt
All-weaken P Q (x ∷ xs) f (p, h) = (f x p, All-weaken P Q xs f h)

-- No row sorts before the one that is chosen.
pub first_by-All :
    (lt : TaskRow → TaskRow → Bool) (xs : List TaskRow) (best : TaskRow)
    → IsWeakOrder lt
    → first_by lt xs ≡ some best
    → All (λ x. lt x best ≡ false) xs
first_by-All lt [] best w h = absurd (cc)
first_by-All lt (x ∷ xs) best w h = elim (Option-cases (first_by lt xs)) [
  | inl e ↦
      let here : x ≡ best = let q = rw e at h in ground (arith, q) in
      let empty : xs ≡ [] = first_by-none lt xs e in rw (empty, sym here) (refl_false lt x w, tt)
  | inr (y, e) ↦
      let rest = first_by-All lt xs y w e in
      let pick : (if lt x y then x else y) ≡ best = let q = rw e at h in ground (arith, q) in
      elim (Bool-cases (lt x y)) [
        | inl first ↦
            let same : x ≡ best = rw first at pick in
            let later : lt y x ≡ false = w.1 x y first in
            let fits : All (λ z. lt z x ≡ false) (x ∷ xs) = (
              refl_false lt x w,
              All-weaken (λ z. lt z y ≡ false) (λ z. lt z x ≡ false) xs (λ z k. w.0 z y x k later)
                  rest,
            ) in
            subst (λ b. All (λ z. lt z b ≡ false) (x ∷ xs)) same fits
        | inr not_first ↦
            let same : y ≡ best = rw not_first at pick in
            let fits : All (λ z. lt z y ≡ false) (x ∷ xs) = (not_first, rest) in
            subst (λ b. All (λ z. lt z b ≡ false) (x ∷ xs)) same fits
      ]
]

-- And it is one of the rows.
pub first_by_passes :
    (lt : TaskRow → TaskRow → Bool) (P : TaskRow → Type 0) (xs : List TaskRow) (best : TaskRow)
    → All P xs
    → first_by lt xs ≡ some best
    → P best
first_by_passes lt P [] best k h = absurd (cc)
first_by_passes lt P (x ∷ xs) best (p, k) h = elim (Option-cases (first_by lt xs)) [
  | inl e ↦ let here : x ≡ best = let q = rw e at h in ground (arith, q) in rw here at p
  | inr (y, e) ↦
      let pick : (if lt x y then x else y) ≡ best = let q = rw e at h in ground (arith, q) in
      let rest : P y = first_by_passes lt P xs y k e in
      elim (Bool-cases (lt x y)) [
        | inl first ↦ let same : x ≡ best = rw first at pick in rw same at p
        | inr not_first ↦ let same : y ≡ best = rw not_first at pick in rw same at rest
      ]
]
