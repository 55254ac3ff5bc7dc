-- ===== src/Admin/Plans/Forms.antt =====
-- internal/admin/plan.go: the checks of a plan that a request describes, whose numbers may have any
-- sign. A message is the key of a text of internal/i18n.

use Prim.Native.Char.{Char, code}
use apisix_developer_portal.Common.{
  ℕ, suc, ==_iff, ◌≤◌, ◌<◌, String, Bool, true, false, not, ◌&&◌, ◌||◌, ◌≡◌, ◌⊎◌, inl, inr, refl,
  sym, ◌∙◌, ltb, ◌==◌, str_eq, eq_iff, &&-true, if◌then◌else◌, Bool-cases, arith,
}
use apisix_developer_portal.Apisix.ClientId.{between, all_chars, char_count}
use apisix_developer_portal.Paging.{Number, nonneg, negative}

pub record PlanForm : Type 0 where
  pub name : String
  pub rate_limit : Number
  pub window_seconds : Number
  pub price_cents : Number
  pub currency : String

-- `unicode.IsSpace`
abbrev pub is_space : ℕ → Bool
is_space c =
    between 9 13 c
    || c == 32
    || c == 133
    || c == 160
    || c == 5760
    || between 8192 8202 c
    || c == 8232
    || c == 8233
    || c == 8239
    || c == 8287
    || c == 12288

-- `strings.TrimSpace(s) == ""`
abbrev pub is_blank : String → Bool
is_blank s = all_chars is_space s

-- A text of three capital letters has three bytes; with any other character it is refused.
unfoldable pub valid_currency : String → Bool
valid_currency c = char_count c == 3 && all_chars (between b'A' b'Z') c

abbrev pub is_positive : Number → Bool
is_positive (nonneg n) = ltb 0 n
is_positive (negative n) = false

abbrev pub is_negative : Number → Bool
is_negative (nonneg n) = false
is_negative (negative n) = ltb 0 n

unfoldable pub validate : PlanForm → String
validate p =
    if is_blank p.name
    then "common.nameRequired"
    else if not (is_positive p.rate_limit)
    then "admin.plan.badRateLimit"
    else if not (is_positive p.window_seconds)
    then "admin.plan.badWindowSeconds"
    else if is_negative p.price_cents
    then "admin.plan.badPrice"
    else if not (valid_currency p.currency)
    then "admin.plan.badCurrency"
    else ""

-- The tests that have to pass, at once.
abbrev is_valid : PlanForm → Bool
is_valid p =
    not (is_blank p.name)
    && is_positive p.rate_limit
    && is_positive p.window_seconds
    && not (is_negative p.price_cents)
    && valid_currency p.currency

no_message : (p : PlanForm) → str_eq (validate p) "" ≡ is_valid p
unfolding validate
no_message p = elim (Bool-cases (is_blank p.name)) [
  | inl t ↦ rw t refl
  | inr t ↦ elim (Bool-cases (is_positive p.rate_limit)) [
    | inr u ↦ rw (t, u) refl
    | inl u ↦ elim (Bool-cases (is_positive p.window_seconds)) [
      | inr v ↦ rw (t, u, v) refl
      | inl v ↦ elim (Bool-cases (is_negative p.price_cents)) [
        | inl w ↦ rw (t, u, v, w) refl
        | inr w ↦ elim (Bool-cases (valid_currency p.currency)) [
          | inl x ↦ rw (t, u, v, w, x) refl
          | inr x ↦ rw (t, u, v, w, x) refl
        ]
      ]
    ]
  ]
]

-- Some character of the text is not white space.
abbrev pub HasInk : String → Type 0
HasInk String.[] = ⊥
HasInk (String.◌∷◌ c s) = (is_space (code c) ≡ false) ⊎ HasInk s

abbrev pub IsCapital : Char → Type 0
IsCapital c = (b'A' ≤ code c) × (code c ≤ b'Z')

-- Three capital letters of ASCII.
abbrev pub IsCurrency : String → Type 0
IsCurrency s =
    (x : Char) × (y : Char) × (z : Char) × (s
      ≡ String.◌∷◌ x (String.◌∷◌ y (String.◌∷◌ z String.[])))
    × IsCapital x
    × IsCapital y
    × IsCapital z

-- A number above 0, or one that is not below 0.
abbrev pub IsPositive : Number → Type 0
IsPositive m = (n : ℕ) × (m ≡ nonneg n) × (0 < n)

abbrev pub IsNonneg : Number → Type 0
IsNonneg m = ((n : ℕ) × (m ≡ nonneg n)) ⊎ (m ≡ negative 0)

-- What a plan of a request has to be.
pub record IsOffer (p : PlanForm) : Type 0 where
  pub named : HasInk p.name
  pub limited : IsPositive p.rate_limit
  pub timed : IsPositive p.window_seconds
  pub priced : IsNonneg p.price_cents
  pub currency : IsCurrency p.currency

inked : (s : String) → is_blank s ≡ false → HasInk s
inked String.[] h = absurd (cc)
inked (String.◌∷◌ c s) h =
    let rest = inked s in
    elim (Bool-cases (is_space (code c))) [ inr f ↦ inl f | inl t ↦ inr (rest (rw t at h)) ]

not_blank : (s : String) → HasInk s → is_blank s ≡ false
not_blank String.[] h = absurd h
not_blank (String.◌∷◌ c s) (inl f) = rw f refl
not_blank (String.◌∷◌ c s) (inr h) = let rest = not_blank s h in ground arith

positive : (m : Number) → is_positive m ≡ true → IsPositive m
positive (nonneg n) h = (n, refl, ground arith)
positive (negative n) h = absurd (cc)

is_positive-true : (m : Number) → IsPositive m → is_positive m ≡ true
is_positive-true m (n, e, above) = rw e (ground arith)

nonnegative : (m : Number) → is_negative m ≡ false → IsNonneg m
nonnegative (nonneg n) h = inl (n, refl)
nonnegative (negative n) h = inr (let k : n ≡ 0 = ground arith in rw k refl)

is_negative-false : (m : Number) → IsNonneg m → is_negative m ≡ false
is_negative-false m (inl (n, e)) = rw e refl
is_negative-false m (inr e) = rw e refl

capital : (c : Char) → between b'A' b'Z' (code c) ≡ true → IsCapital c
capital c h = (ground arith, ground arith)

between-true : (c : Char) → IsCapital c → between b'A' b'Z' (code c) ≡ true
between-true c (low, high) = ground arith

valid_currency-IsCurrency : (s : String) → valid_currency s ≡ true → IsCurrency s
unfolding valid_currency
valid_currency-IsCurrency String.[] h = absurd (cc)
valid_currency-IsCurrency (String.◌∷◌ x String.[]) h = absurd (cc)
valid_currency-IsCurrency (String.◌∷◌ x (String.◌∷◌ y String.[])) h = absurd (cc)
valid_currency-IsCurrency (String.◌∷◌ x (String.◌∷◌ y (String.◌∷◌ z String.[]))) h =
    let (first, others) = &&-true (between b'A' b'Z' (code x)) _ h in
    let (second, rest) = &&-true (between b'A' b'Z' (code y)) _ others in
    let (third, _) = &&-true (between b'A' b'Z' (code z)) true rest in
    (x, y, z, refl, capital x first, capital y second, capital z third)
valid_currency-IsCurrency (String.◌∷◌ x (String.◌∷◌ y (String.◌∷◌ z (String.◌∷◌ w s)))) h =
    let (counted, _) = &&-true (suc (suc (suc (suc (char_count s)))) == 3) _ h in
    let k = (==_iff (suc (suc (suc (suc (char_count s))))) 3).0 counted in absurd (omega arith)

valid_currency-true : (s : String) → IsCurrency s → valid_currency s ≡ true
unfolding valid_currency
valid_currency-true s (x, y, z, e, first, second, third) =
    rw (e, between-true x first, between-true y second, between-true z third) refl

unnegated : {b : Bool} → not b ≡ true → b ≡ false
unnegated {b} h = ground arith

-- The checks of a plan in a request give no message exactly when its name has a character that is
-- not white space, its limit and its window are positive, its price is not negative and its currency
-- is three capital letters of ASCII.
pub validate_lem : (p : PlanForm) → (validate p ≡ "" → IsOffer p) × (IsOffer p → validate p ≡ "")
validate_lem p = (
  (λ passed.
      let all : is_valid p ≡ true = sym (no_message p) ∙ (eq_iff (validate p) "").1 passed in
      let (four, currency) = &&-true _ (valid_currency p.currency) all in
      let (three, price) = &&-true _ (not (is_negative p.price_cents)) four in
      let (two, window) = &&-true _ (is_positive p.window_seconds) three in
      let (name, limit) = &&-true (not (is_blank p.name)) (is_positive p.rate_limit) two in
      record {
        named = inked p.name (unnegated name);
        limited = positive p.rate_limit limit;
        timed = positive p.window_seconds window;
        priced = nonnegative p.price_cents (unnegated price);
        currency = valid_currency-IsCurrency p.currency currency;
      }),
  λ o.
      let all : is_valid p ≡ true =
        rw
          (
            not_blank p.name o.named,
            is_positive-true p.rate_limit o.limited,
            is_positive-true p.window_seconds o.timed,
            is_negative-false p.price_cents o.priced,
            valid_currency-true p.currency o.currency,
          )
          refl in
      (eq_iff (validate p) "").0 (no_message p ∙ all),
)
