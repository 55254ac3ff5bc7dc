-- ===== src/Paging/Bounds.antt =====
-- The bounds of parsed pages, and how pages lie in a listing.
use Prim.Native.Nat.{zero, suc}
use native.Mathlib.Nat.{mod-eq_of_lt, suc-mul, zero-mul}
use apisix_developer_portal.Common.{
  ℕ, ◌+◌, ◌-◌, ◌*◌, ◌%◌, ◌≤◌, ◌<◌, String, true, Option, none, some, List, [], ◌∷◌, ◌++◌, ◌≡◌, refl,
  sym, ap, inl, inr, ltb, Bool-cases, arith,
}
use apisix_developer_portal.Paging.{
  Number, nonneg, negative, two_to_63, two_to_64, in_range, atoi, at_least_one, max_page_size,
  default_page, Params, parse, limit, offset,
}

in_range-below :
    (bound n : ℕ) (sign : ℕ → Number) (read : Option ℕ)
    → ((k : ℕ) → sign k ≡ nonneg n → k ≡ n)
    → in_range bound sign read ≡ some (nonneg n)
    → n < bound
in_range-below bound n sign none only h = absurd cc
in_range-below bound n sign (some k) only h = elim (Bool-cases (ltb k bound)) [
  | inr f ↦ let g : none ≡ some (nonneg n) = rw f at h in absurd cc
  | inl t ↦
      let g : some (sign k) ≡ some (nonneg n) = rw t at h in
      let same : k ≡ n = only k cc in ground arith
]

page-positive : (other : ℕ) (read : Option Number) → 1 ≤ other → 1 ≤ at_least_one other read
page-positive other none h = h
page-positive other (some (negative n)) h = h
page-positive other (some (nonneg n)) h = ground arith

-- Whatever the request's parameters are, the page is at least 1 and the size from 1 to 100.
pub parse-IsValid :
    (page page_size : String)
    → (1 ≤ (parse page page_size).page)
      × (1 ≤ (parse page page_size).size)
      × ((parse page page_size).size ≤ max_page_size)
unfolding parse
parse-IsValid page page_size =
    let size = at_least_one 20 (atoi page_size) in
    let some_page = page-positive default_page (atoi page) (omega arith) in
    let some_size : 1 ≤ size = page-positive 20 (atoi page_size) (omega arith) in
    (some_page, ground arith, ground arith)

offset-exact :
    (p : Params) → (p.page - 1) * p.size < two_to_63 → offset p ≡ nonneg ((p.page - 1) * p.size)
unfolding offset
offset-exact p h =
    let small : ((p.page - 1) * p.size) % two_to_64 ≡ (p.page - 1) * p.size =
      mod-eq_of_lt (omega arith) in
    let below : ltb ((p.page - 1) * p.size) two_to_63 ≡ true = ground arith in
    rw (small, below) refl

offset_at :
    (k size page : ℕ)
    → page ≡ k + 1
    → k * size < two_to_63
    → offset (record { page = page; size = size }) ≡ nonneg (k * size)
offset_at k size page e h =
    let index : page - 1 ≡ k = omega arith in
    let exact = offset-exact (record { page = page; size = size }) (rw index h) in rw index at exact

-- The rows of a listing from an offset on, at most `n`; PostgreSQL refuses a negative offset.
abbrev pub take {ℓ} : {A : Type ℓ} → ℕ → List A → List A
take zero xs = []
take (suc n) [] = []
take (suc n) (x ∷ xs) = x ∷ take n xs

abbrev pub drop {ℓ} : {A : Type ℓ} → ℕ → List A → List A
drop zero xs = xs
drop (suc n) [] = []
drop (suc n) (x ∷ xs) = drop n xs

abbrev pub rows_of {ℓ} : {A : Type ℓ} → Params → List A → Option (List A)
rows_of p xs = elim (offset p) [ negative n ↦ none | nonneg n ↦ some (take (limit p) (drop n xs)) ]

module _ {ℓ} {A : Type ℓ} where
  take-nil : (n : ℕ) → take {A = A} n [] ≡ []
  take-nil zero = refl
  take-nil (suc n) = refl

  take-add : (n k : ℕ) (xs : List A) → take n xs ++ take k (drop n xs) ≡ take (n + k) xs
  take-add zero k xs = ap (λ m. take m xs) (omega arith)
  take-add (suc n) k [] =
      let sum : suc n + k ≡ suc (n + k) = omega arith in rw (take-nil k, take-nil (suc n + k)) refl
  take-add (suc n) k (x ∷ xs) =
      let sum : suc n + k ≡ suc (n + k) = omega arith in rw sum (ap (x ∷◌) (take-add n k xs))

  -- The rows of the first `k` pages, one page after the other.
  abbrev pub pages : ℕ → ℕ → List A → Option (List A)
  pages size zero xs = some []
  pages size (suc k) xs = elim (pages size k xs) [
    | none ↦ none
    | some rows ↦ elim (rows_of (record { page = suc k; size = size }) xs) [
      | none ↦ none
      | some more ↦ some (rows ++ more)
    ]
  ]

  -- The pages of one size lie in a listing one behind the other, without a gap and without an
  -- overlap, as long as the offsets are below 2 to the 63.
  pub pages-tile :
      (size k : ℕ) (xs : List A)
      → k * size < two_to_63
      → pages size k xs ≡ some (take (k * size) xs)
  pages-tile size zero xs h = ap (λ n. some (take n xs)) (sym (zero-mul size))
  pages-tile size (suc k) xs h =
      let sum : suc k * size ≡ k * size + size = suc-mul k size in
      let before = pages-tile size k xs (omega arith) in
      let here : offset (record { page = suc k; size = size }) ≡ nonneg (k * size) =
        offset_at k size (suc k) (omega arith) (omega arith) in
      rw (before, here, sum) (ap some (take-add (k * size) size xs))
