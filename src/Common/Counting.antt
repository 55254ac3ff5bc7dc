-- ===== src/Common/Counting.antt =====
-- How many rows of a table a test selects.
use apisix_developer_portal.Common.Tests.{Bool-cases}
use apisix_developer_portal.Common.Tables.{length, select, any, update_where}
use Prim.Native.Nat.{◌≤◌}
use mathlib.Core.Path.{◌≡◌, refl}
use mathlib.Core.Logic.{inl, inr}
use mathlib.Core.Bool.{Bool, true, false}
use mathlib.Core.List.{List, [], ◌∷◌, map}
use native.Mathlib.Omega.{arith}

module _ {ℓ} {A : Type ℓ} where
  -- A row of which `q` follows from `p` counts at most as much.
  count-cons :
      (p : A → Bool) (x y : A) (xs ys : List A)
      → (p x ≡ true → p y ≡ true)
      → length (select p xs) ≤ length (select p ys)
      → length (select p (x ∷ xs)) ≤ length (select p (y ∷ ys))
  count-cons p x y xs ys implied below = elim (Bool-cases (p x)) [
    | inl t ↦ rw (t, implied t) (omega arith)
    | inr t ↦ elim (Bool-cases (p y)) [ inl u ↦ rw (t, u) (omega arith) | inr u ↦ rw (t, u) below ]
  ]

  pub count-map :
      (p : A → Bool) (f : A → A)
      → ((a : A) → p (f a) ≡ true → p a ≡ true)
      → (xs : List A) → length (select p (map f xs)) ≤ length (select p xs)
  count-map p f implied [] = omega arith
  count-map p f implied (x ∷ xs) =
      count-cons p (f x) x (map f xs) xs (implied x) (count-map p f implied xs)

  pub count-update_where :
      (p q : A → Bool) (f : A → A)
      → ((a : A) → q a ≡ true → p (f a) ≡ true → p a ≡ true)
      → (xs : List A) → length (select p (update_where q f xs)) ≤ length (select p xs)
  count-update_where p q f implied [] = omega arith
  count-update_where p q f implied (x ∷ xs) = elim (Bool-cases (q x)) [
    | inl t ↦ rw t (
        count-cons p (f x) x (update_where q f xs) xs (implied x t)
          (count-update_where p q f implied xs))
    | inr t ↦
        rw t
          (count-cons p x x (update_where q f xs) xs (λ e. e) (count-update_where p q f implied xs))
  ]

  pub count-any : (p : A → Bool) (xs : List A) → any p xs ≡ false → length (select p xs) ≡ 0
  count-any p [] none_there = refl
  count-any p (x ∷ xs) none_there = elim (Bool-cases (p x)) [
    | inl t ↦ absurd (let k : true ≡ false = rw t at none_there in cc)
    | inr t ↦ rw t (count-any p xs (rw t at none_there))
  ]
