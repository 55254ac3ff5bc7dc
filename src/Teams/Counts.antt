-- ===== src/Teams/Counts.antt =====
-- Counting the members of a team among the rows of team_members.
use mathlib.Core.List.Memᴰ.{head, tail}
use apisix_developer_portal.Common.{
  ◌+◌, ◌≤◌, suc, Bool, true, false, some, List, [], ◌∷◌, Memᴰ, ◌≡◌, inl, inr, refl, subst, ◌∙◌,
  length, select, find, some-inj, any, delete_where, Bool-cases, arith,
}
use apisix_developer_portal.Db.{MemberRow}

module _ (p q : MemberRow → Bool) where
  pub count-delete :
      (xs : List MemberRow)
      → length (select p xs) ≤ length (select p (delete_where q xs)) + length (select q xs)
  count-delete [] = omega arith
  count-delete (x ∷ xs) =
      let rest = count-delete xs in
      elim (Bool-cases (q x)) [
        | inl t ↦ elim (Bool-cases (p x)) [
          | inl u ↦ rw (t, u) (omega arith)
          | inr u ↦ rw (t, u) (omega arith)
        ]
        | inr t ↦ elim (Bool-cases (p x)) [
          | inl u ↦ rw (t, u) (omega arith)
          | inr u ↦ rw (t, u) rest
        ]
      ]

  pub count-delete_below :
      (xs : List MemberRow) → length (select p (delete_where q xs)) ≤ length (select p xs)
  count-delete_below [] = omega arith
  count-delete_below (x ∷ xs) =
      let rest = count-delete_below xs in
      elim (Bool-cases (q x)) [
        | inl t ↦ elim (Bool-cases (p x)) [
          | inl u ↦ rw (t, u) (omega arith)
          | inr u ↦ rw (t, u) rest
        ]
        | inr t ↦ elim (Bool-cases (p x)) [
          | inl u ↦ rw (t, u) (omega arith)
          | inr u ↦ rw (t, u) rest
        ]
      ]

  pub count-delete_other :
      (xs : List MemberRow)
      → ((x : MemberRow) → Memᴰ x xs → q x ≡ true → p x ≡ false)
      → length (select p xs) ≤ length (select p (delete_where q xs))
  count-delete_other [] other = omega arith
  count-delete_other (x ∷ xs) other =
      let rest = count-delete_other xs (λ y m. other y (tail m)) in
      elim (Bool-cases (q x)) [
        | inl t ↦ rw (t, other x (head refl) t) rest
        | inr t ↦ elim (Bool-cases (p x)) [
          | inl u ↦ rw (t, u) (omega arith)
          | inr u ↦ rw (t, u) rest
        ]
      ]

pub only_one :
    (q : MemberRow → Bool) (m x : MemberRow) (xs : List MemberRow)
    → length (select q xs) ≤ 1
    → find q xs ≡ some m
    → Memᴰ x xs
    → q x ≡ true
    → x ≡ m
only_one q m x [] one found there t = elim there [ ]
only_one q m x (y ∷ ys) one found (head e) t =
    let ty : q y ≡ true = subst (λ z. q z ≡ true) e t in
    let k : some y ≡ some m = rw ty at found in e ∙ some-inj k
only_one q m x (y ∷ ys) one found (tail mem) t = elim (Bool-cases (q y)) [
  | inr u ↦ only_one q m x ys (rw u at one) (rw u at found) mem t
  | inl u ↦
      let k : suc (length (select q ys)) ≤ 1 = rw u at one in
      let there = mem-count q ys mem t in absurd (omega arith)
]
  where
    mem-count :
        (q : MemberRow → Bool) (ys : List MemberRow)
        → Memᴰ x ys
        → q x ≡ true
        → 1 ≤ length (select q ys)
    mem-count q [] there t = elim there [ ]
    mem-count q (z ∷ zs) (head e) t = rw (← e, t) (omega arith)
    mem-count q (z ∷ zs) (tail m') t = elim (Bool-cases (q z)) [
      | inl u ↦ rw u (omega arith)
      | inr u ↦ rw u (mem-count q zs m' t)
    ]

pub count-more :
    (p : MemberRow → Bool) (x : MemberRow) (xs : List MemberRow)
    → length (select p xs) ≤ length (select p (x ∷ xs))
count-more p x xs = elim (Bool-cases (p x)) [
  | inl t ↦ rw t (omega arith)
  | inr t ↦ rw t (omega arith)
]

pub count-none :
    (p : MemberRow → Bool) (xs : List MemberRow)
    → ((x : MemberRow) → Memᴰ x xs → p x ≡ false)
    → any p xs ≡ false
count-none p [] never = refl
count-none p (x ∷ xs) never = rw (never x (head refl)) (count-none p xs (λ y m. never y (tail m)))
