-- ===== src/Common/Tables.antt =====
-- A list as a table of rows: the parts of `SELECT`, `UPDATE` and `DELETE` that the queries use, and
-- membership as a predicate by recursion.
use Prim.Native.Nat.{ℕ, suc}
use mathlib.Core.Path.{◌≡◌, refl, sym, ap}
use mathlib.Core.Logic.{◌⊎◌, inl, inr}
use mathlib.Core.Bool.{Bool, true, false, ◌||◌}
use mathlib.Core.Option.{Option, none, some}
use mathlib.Core.List.{List, [], ◌∷◌, ◌++◌, map, Memᴰ}
use mathlib.Core.List.Memᴰ
use mathlib.Core.List.Memᴰ.{head, tail}
use apisix_developer_portal.Common.Tests.{if◌then◌else◌, Bool-cases, Option-cases, some-inj}

module _ {ℓ} {A : Type ℓ} where
  abbrev pub length : List A → ℕ
  length [] = 0
  length (x ∷ xs) = suc (length xs)

  -- `WHERE p`
  abbrev pub select : (A → Bool) → List A → List A
  select p [] = []
  select p (x ∷ xs) = if p x then x ∷ select p xs else select p xs

  -- the first row `WHERE p`
  abbrev pub find : (A → Bool) → List A → Option A
  find p [] = none
  find p (x ∷ xs) = if p x then some x else find p xs

  abbrev pub any : (A → Bool) → List A → Bool
  any p [] = false
  any p (x ∷ xs) = p x || any p xs

  -- `UPDATE … SET f WHERE p`
  abbrev pub update_where : (A → Bool) → (A → A) → List A → List A
  update_where p f [] = []
  update_where p f (x ∷ xs) = (if p x then f x else x) ∷ update_where p f xs

  -- `DELETE … WHERE p`
  abbrev pub delete_where : (A → Bool) → List A → List A
  delete_where p [] = []
  delete_where p (x ∷ xs) = if p x then delete_where p xs else x ∷ delete_where p xs

  -- `len(rows) == 0`
  abbrev pub is_empty : List A → Bool
  is_empty [] = true
  is_empty (_ ∷ _) = false

module _ {ℓ} {A : Type ℓ} where
  pub mem-select :
      (p : A → Bool) (a : A) (xs : List A) → Memᴰ a xs → p a ≡ true → Memᴰ a (select p xs)
  mem-select p a [] h pa = elim h [ ]
  mem-select p a (x ∷ xs) (head e) pa = rw (← e, pa) (head refl)
  mem-select p a (x ∷ xs) (tail h) pa = elim (Bool-cases (p x)) [
    | inl e ↦ rw e (tail (mem-select p a xs h pa))
    | inr e ↦ rw e (mem-select p a xs h pa)
  ]

  pub select-mem :
      (p : A → Bool) (a : A) (xs : List A) → Memᴰ a (select p xs) → Memᴰ a xs × (p a ≡ true)
  select-mem p a [] h = elim h [ ]
  select-mem p a (x ∷ xs) h = kept (Bool-cases (p x)) (select-mem p a xs)
    where
      here :
          p x ≡ true
          → Memᴰ a (x ∷ select p xs)
          → (Memᴰ a (select p xs) → Memᴰ a xs × (p a ≡ true))
          → Memᴰ a (x ∷ xs) × (p a ≡ true)
      here t (head q) later = (head q, rw q t)
      here t (tail r) later = let (m, u) = later r in (tail m, u)

      kept :
          (p x ≡ true) ⊎ (p x ≡ false)
          → (Memᴰ a (select p xs) → Memᴰ a xs × (p a ≡ true))
          → Memᴰ a (x ∷ xs) × (p a ≡ true)
      kept (inl e) later = here e (rw e at h) later
      kept (inr e) later = let (m, u) = later (rw e at h) in (tail m, u)

  pub find-mem :
      (p : A → Bool) (xs : List A) {a : A} → find p xs ≡ some a → Memᴰ a xs × (p a ≡ true)
  find-mem p [] h = cc
  find-mem p (x ∷ xs) {a} h = elim (Bool-cases (p x)) [
    | inl e ↦ let q : a ≡ x = some-inj (sym (rw e at h)) in (head q, rw q e)
    | inr e ↦ let (m, t) = find-mem p xs (rw e at h) in (tail m, t)
  ]

  pub find-none : (p : A → Bool) (xs : List A) {a : A} → find p xs ≡ none → Memᴰ a xs → p a ≡ false
  find-none p [] h m = elim m [ ]
  find-none p (x ∷ xs) h (head e) = elim (Bool-cases (p x)) [
    | inl t ↦ let k = rw t at h in cc
    | inr f ↦ rw e f
  ]
  find-none p (x ∷ xs) h (tail m) = elim (Bool-cases (p x)) [
    | inl t ↦ let k = rw t at h in cc
    | inr f ↦ find-none p xs (rw f at h) m
  ]

  -- A row that satisfies the condition is found, perhaps behind an earlier one.
  pub find-some :
      (p : A → Bool) (xs : List A) {a : A} → Memᴰ a xs → p a ≡ true → (b : A) × (find p xs ≡ some b)
  find-some p xs m t = elim (Option-cases (find p xs)) [
    | inl e ↦ let f = find-none p xs e m in cc
    | inr r ↦ r
  ]

  pub delete_where-mem :
      (p : A → Bool) (a : A) (xs : List A) → Memᴰ a (delete_where p xs) → Memᴰ a xs × (p a ≡ false)
  delete_where-mem p a [] h = elim h [ ]
  delete_where-mem p a (x ∷ xs) h = kept (Bool-cases (p x)) (delete_where-mem p a xs)
    where
      here :
          p x ≡ false
          → Memᴰ a (x ∷ delete_where p xs)
          → (Memᴰ a (delete_where p xs) → Memᴰ a xs × (p a ≡ false))
          → Memᴰ a (x ∷ xs) × (p a ≡ false)
      here t (head q) later = (head q, rw q t)
      here t (tail r) later = let (m, u) = later r in (tail m, u)

      kept :
          (p x ≡ true) ⊎ (p x ≡ false)
          → (Memᴰ a (delete_where p xs) → Memᴰ a xs × (p a ≡ false))
          → Memᴰ a (x ∷ xs) × (p a ≡ false)
      kept (inr e) later = here e (rw e at h) later
      kept (inl e) later = let (m, u) = later (rw e at h) in (tail m, u)

  pub mem-delete_where :
      (p : A → Bool) {a : A} (xs : List A) → Memᴰ a xs → p a ≡ false → Memᴰ a (delete_where p xs)
  mem-delete_where p [] m f = elim m [ ]
  mem-delete_where p (x ∷ xs) (head e) f = rw (rw e at f) (head e)
  mem-delete_where p (x ∷ xs) (tail m) f = elim (Bool-cases (p x)) [
    | inl t ↦ rw t (mem-delete_where p xs m f)
    | inr t ↦ rw t (tail (mem-delete_where p xs m f))
  ]

  pub any-mem : (p : A → Bool) (xs : List A) → any p xs ≡ true → (a : A) × Memᴰ a xs × (p a ≡ true)
  any-mem p [] h = cc
  any-mem p (x ∷ xs) h = elim (Bool-cases (p x)) [
    | inl e ↦ (x, head refl, e)
    | inr e ↦ let (a, m, t) = any-mem p xs (rw e at h) in (a, tail m, t)
  ]

  pub any-false : (p : A → Bool) {a : A} (xs : List A) → any p xs ≡ false → Memᴰ a xs → p a ≡ false
  any-false p [] h m = elim m [ ]
  any-false p (x ∷ xs) h (head e) = elim (Bool-cases (p x)) [
    | inl t ↦ let k = rw t at h in cc
    | inr t ↦ rw e t
  ]
  any-false p (x ∷ xs) h (tail m) = elim (Bool-cases (p x)) [
    | inl t ↦ let k = rw t at h in cc
    | inr t ↦ any-false p xs (rw t at h) m
  ]

  -- No row is lost by an update.
  pub mem-update_where :
      (p : A → Bool) (f : A → A) {a : A} (xs : List A)
      → Memᴰ a xs
      → Memᴰ (if p a then f a else a) (update_where p f xs)
  mem-update_where p f [] m = elim m [ ]
  mem-update_where p f (x ∷ xs) (head e) = head (ap (λ z. if p z then f z else z) e)
  mem-update_where p f (x ∷ xs) (tail m) = tail (mem-update_where p f xs m)

  -- Every row of an updated table comes from a row of the old one.
  pub update_where-mem :
      (p : A → Bool) (f : A → A) (a : A) (xs : List A)
      → Memᴰ a (update_where p f xs)
      → (b : A) × Memᴰ b xs × (((p b ≡ true) × (a ≡ f b)) ⊎ ((p b ≡ false) × (a ≡ b)))
  update_where-mem p f a [] h = elim h [ ]
  update_where-mem p f a (x ∷ xs) (head e) = elim (Bool-cases (p x)) [
    | inl t ↦ (x, head refl, inl (t, rw t at e))
    | inr t ↦ (x, head refl, inr (t, rw t at e))
  ]
  update_where-mem p f a (x ∷ xs) (tail h) =
      let (b, m, r) = update_where-mem p f a xs h in (b, tail m, r)

module _ {ℓ κ} {A : Type ℓ} {B : Type κ} where
  -- `JOIN … ON`, the rows of the left table outermost.
  abbrev pub join : (A → B → Bool) → List A → List B → List (A × B)
  join on [] ys = []
  join on (x ∷ xs) ys = map (λ y. (x, y)) (select (on x) ys) ++ join on xs ys

  pub mem-join :
      (on : A → B → Bool) (a : A) (b : B) (xs : List A) (ys : List B)
      → Memᴰ a xs
      → Memᴰ b ys
      → on a b ≡ true
      → Memᴰ (a, b) (join on xs ys)
  mem-join on a b [] ys m n t = elim m [ ]
  mem-join on a b (x ∷ xs) ys (head e) n t = Memᴰ.append_left _ (
      Memᴰ.cast (ap (λ z. (z, b)) e)
        (Memᴰ.map (λ y. (x, y)) (mem-select (on x) b ys n (rw (← e) t))))
  mem-join on a b (x ∷ xs) ys (tail m) n t = Memᴰ.append_right _ (mem-join on a b xs ys m n t)

  pub join-mem :
      (on : A → B → Bool) (p : A × B) (xs : List A) (ys : List B)
      → Memᴰ p (join on xs ys)
      → Memᴰ p.0 xs × Memᴰ p.1 ys × (on p.0 p.1 ≡ true)
  join-mem on p [] ys m = elim m [ ]
  join-mem on p (x ∷ xs) ys m = elim (Memᴰ.append_cases _ m) [
    | inl l ↦
        let (b, n, e) = Memᴰ.of_map (λ y. (x, y)) (select (on x) ys) l in
        let (k, t) = select-mem (on x) b ys n in rw (← e) (head refl, k, t)
    | inr r ↦ let (k, n, t) = join-mem on p xs ys r in (tail k, n, t)
  ]

module _ {ℓ} {A : Type ℓ} where
  -- `DISTINCT`: the first row of each kind.
  distinct_from : (A → A → Bool) → List A → List A → List A
  distinct_from same seen [] = []
  distinct_from same seen (x ∷ xs) =
      let first = x ∷ distinct_from same (x ∷ seen) xs in
      let later = distinct_from same seen xs in if any (same x) seen then later else first

  unfoldable pub distinct : (A → A → Bool) → List A → List A
  unfolding distinct_from
  distinct same xs = distinct_from same [] xs

  -- `ORDER BY`: a row goes before the first one that it precedes strictly; ties in any order.
  insert_by : (A → A → Bool) → A → List A → List A
  insert_by before x [] = x ∷ []
  insert_by before x (y ∷ ys) = if before x y then x ∷ y ∷ ys else y ∷ insert_by before x ys

  unfoldable pub order_by : (A → A → Bool) → List A → List A
  unfolding insert_by
  order_by before [] = []
  order_by before (x ∷ xs) = insert_by before x (order_by before xs)

  abbrev pub first_row : List A → Option A
  first_row [] = none
  first_row (x ∷ _) = some x

  mem-insert_by :
      (before : A → A → Bool) (x a : A) (ys : List A)
      → Memᴰ a (x ∷ ys)
      → Memᴰ a (insert_by before x ys)
  unfolding insert_by
  mem-insert_by before x a [] m = m
  mem-insert_by before x a (y ∷ ys) m = elim (Bool-cases (before x y)) [
    | inl e ↦ rw e m
    | inr e ↦ rw e (behind m (mem-insert_by before x a ys))
  ]
    where
      behind :
          Memᴰ a (x ∷ y ∷ ys)
          → (Memᴰ a (x ∷ ys) → Memᴰ a (insert_by before x ys))
          → Memᴰ a (y ∷ insert_by before x ys)
      behind (head e) later = tail (later (head e))
      behind (tail (head e)) later = head e
      behind (tail (tail m)) later = tail (later (tail m))

  -- Ordering loses no row.
  pub mem-order_by :
      (before : A → A → Bool) (a : A) (xs : List A) → Memᴰ a xs → Memᴰ a (order_by before xs)
  unfolding order_by
  mem-order_by before a [] m = m
  mem-order_by before a (x ∷ xs) (head e) = mem-insert_by before x a _ (head e)
  mem-order_by before a (x ∷ xs) (tail m) =
      mem-insert_by before x a _ (tail (mem-order_by before a xs m))

  insert_by-mem :
      (before : A → A → Bool) (x a : A) (ys : List A)
      → Memᴰ a (insert_by before x ys)
      → Memᴰ a (x ∷ ys)
  unfolding insert_by
  insert_by-mem before x a [] m = m
  insert_by-mem before x a (y ∷ ys) m = elim (Bool-cases (before x y)) [
    | inl e ↦ rw e at m
    | inr e ↦ later (insert_by-mem before x a ys) (rw e at m)
  ]
    where
      past : Memᴰ a (x ∷ ys) → Memᴰ a (x ∷ y ∷ ys)
      past (head same) = head same
      past (tail m) = tail (tail m)

      later :
          (Memᴰ a (insert_by before x ys) → Memᴰ a (x ∷ ys))
          → Memᴰ a (y ∷ insert_by before x ys)
          → Memᴰ a (x ∷ y ∷ ys)
      later ih (head same) = tail (head same)
      later ih (tail m) = past (ih m)

  -- Sorting adds no row.
  pub order_by-mem :
      (before : A → A → Bool) (a : A) (xs : List A) → Memᴰ a (order_by before xs) → Memᴰ a xs
  unfolding order_by
  order_by-mem before a [] m = m
  order_by-mem before a (x ∷ xs) m = elim (insert_by-mem before x a (order_by before xs) m) [
    | head same ↦ head same
    | tail later ↦ tail (order_by-mem before a xs later)
  ]
