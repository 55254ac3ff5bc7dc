-- ===== src/Httpx/RateLimit/Quota.antt =====
-- The quota of a bucket: the burst, and what accrues since its first request.
use native.Mathlib.Nat.{mul-add, suc-mul, min-le_left}
use apisix_developer_portal.Common.{
  ℕ, ◌+◌, ◌-◌, ◌*◌, ◌≤◌, suc, String, Bool, true, false, Option, none, some, List, [], ◌∷◌, ◌≡◌,
  inl, inr, refl, subst, ◌∙◌, ltb, str_eq, Bool-cases, arith,
}
use apisix_developer_portal.Httpx.RateLimit.{idle_ttl, Bucket, RateLimiter, refill, spend, serve}
use apisix_developer_portal.Httpx.RateLimit.Isolation.{
  IsOrdered, times_of, answers_to, alone, serve_isolates,
}

-- How many answers let the request proceed.
abbrev pub granted : List Bool → ℕ
granted [] = 0
granted (true ∷ answers) = suc (granted answers)
granted (false ∷ answers) = granted answers

-- Times in order, between two.
abbrev pub IsWithin : ℕ → ℕ → List ℕ → Type 0
IsWithin t end [] = t ≤ end
IsWithin t end (now ∷ times) = (t ≤ now) × IsWithin now end times

accrual :
    (rate t now end : ℕ)
    → t ≤ now
    → now ≤ end
    → rate * (end - t) ≡ rate * (now - t) + rate * (end - now)
accrual rate t now end before after =
    let split : end - t ≡ (now - t) + (end - now) = omega arith in rw (split, mul-add) refl

within-end : (t end : ℕ) (times : List ℕ) → IsWithin t end times → t ≤ end
within-end t end [] h = h
within-end t end (now ∷ times) (before, h) = let after = within-end now end times h in omega arith

one_more :
    (g price tokens later : ℕ)
    → price ≤ tokens
    → g * price ≤ tokens - price + later
    → suc g * price ≤ tokens + later
one_more g price tokens later paid h =
    let sum : suc g * price ≡ g * price + price = suc-mul g price in omega arith

module _ (rl : RateLimiter) where
  spent :
      (b : Bucket) (answers : List Bool) (later : ℕ)
      → granted answers * rl.token ≤ (spend rl b).1.tokens + later
      → granted ((spend rl b).0 ∷ answers) * rl.token ≤ b.tokens + later
  unfolding spend
  spent b answers later h = elim (Bool-cases (ltb b.tokens rl.token)) [
    | inl poor ↦ rw poor (rw poor at h)
    | inr rich ↦
        let paid : rl.token ≤ b.tokens = ground arith in
        rw rich (one_more (granted answers) rl.token b.tokens later paid (rw rich at h))
  ]

  spend-last : (b : Bucket) → (spend rl b).1.last ≡ b.last
  unfolding spend
  spend-last b = elim (Bool-cases (ltb b.tokens rl.token)) [
    | inl poor ↦ rw poor refl
    | inr rich ↦ rw rich refl
  ]

  refill-last : (now : ℕ) (bucket : Option Bucket) → (refill rl now bucket).last ≡ now
  unfolding refill
  refill-last now none = refl
  refill-last now (some b) = refl

  refill-below :
      (now : ℕ) (b : Bucket) → (refill rl now (some b)).tokens ≤ b.tokens + rl.rate * (now - b.last)
  unfolding refill
  refill-below now b = min-le_left (b.tokens + rl.rate * (now - b.last)) rl.burst

  from_now :
      (times : List ℕ) (left : Bucket) (now end : ℕ)
      → left.last ≡ now
      → (IsWithin left.last end times
          → granted (alone rl times (some left)) * rl.token
            ≤ left.tokens + rl.rate * (end - left.last))
      → IsWithin now end times
      → granted (alone rl times (some left)) * rl.token ≤ left.tokens + rl.rate * (end - now)
  from_now times left now end same bound h =
      subst
        (λ n. granted (alone rl times (some left)) * rl.token ≤ left.tokens + rl.rate * (end - n))
        same (bound (rw same h))

  -- What one bucket grants is what it holds and what accrues.
  granted-some :
      (times : List ℕ) (b : Bucket) (end : ℕ)
      → IsWithin b.last end times
      → granted (alone rl times (some b)) * rl.token ≤ b.tokens + rl.rate * (end - b.last)
  granted-some [] b end h = omega arith
  granted-some (now ∷ times) b end (before, h) =
      let full = refill rl now (some b) in
      let left = (spend rl full).1 in
      let rest =
        from_now times left now end (spend-last full ∙ refill-last now (some b))
          (granted-some times left end) h in
      let total = spent full (alone rl times (some left)) (rl.rate * (end - now)) rest in
      let gained = accrual rl.rate b.last now end before (within-end now end times h) in
      let below = refill-below now b in omega arith

  -- A bucket that its first request opens.
  granted-none :
      (times : List ℕ) (t end : ℕ)
      → IsWithin t end times
      → granted (alone rl times none) * rl.token ≤ rl.burst + rl.rate * (end - t)
  unfolding refill
  granted-none [] t end h = omega arith
  granted-none (now ∷ times) t end (before, h) =
      let full = refill rl now none in
      let left = (spend rl full).1 in
      let rest =
        from_now times left now end (spend-last full ∙ refill-last now none)
          (granted-some times left end) h in
      let total = spent full (alone rl times (some left)) (rl.rate * (end - now)) rest in
      let gained = accrual rl.rate t now end before (within-end now end times h) in
      let opened : full.tokens ≡ rl.burst = opened_full now in omega arith
    where
      opened_full : (now : ℕ) → (refill rl now none).tokens ≡ rl.burst
      opened_full now = refl

-- The requests come in order, all between two times.
abbrev pub IsBetween : ℕ → ℕ → List (ℕ × String) → Type 0
IsBetween t end [] = t ≤ end
IsBetween t end ((now, _) ∷ requests) = (t ≤ now) × IsBetween now end requests

ordered :
    (t end : ℕ) (requests : List (ℕ × String)) → IsBetween t end requests → IsOrdered t requests
ordered t end [] h = tt
ordered t end ((now, k) ∷ requests) (before, h) = (before, ordered now end requests h)

earlier : (t now end : ℕ) (times : List ℕ) → t ≤ now → IsWithin now end times → IsWithin t end times
earlier t now end [] before h = omega arith
earlier t now end (next ∷ times) before (later, h) = (omega arith, h)

within :
    (key : String) (t end : ℕ) (requests : List (ℕ × String))
    → IsBetween t end requests
    → IsWithin t end (times_of key requests)
within key t end [] h = h
within key t end ((now, k) ∷ requests) (before, h) = elim (Bool-cases (str_eq k key)) [
  | inl e ↦ rw e (before, within key now end requests h)
  | inr e ↦ rw e (earlier t now end (times_of key requests) before (within key now end requests h))
]

-- If a bucket refills within the idle time, a new limiter lets at most the burst and what accrues
-- proceed for each key, among requests that come in the order of time between `t` and `end`.
pub granted_within_quota :
    (rl : RateLimiter) (key : String) (t end : ℕ) (requests : List (ℕ × String))
    → rl.burst ≤ rl.rate * idle_ttl
    → ((k : String) → rl.buckets k ≡ none)
    → IsBetween t end requests
    → granted (answers_to key (serve requests rl)) * rl.token ≤ rl.burst + rl.rate * (end - t)
granted_within_quota rl key t end requests fast empty h =
    rw (serve_isolates rl key t requests fast empty (ordered t end requests h))
      (granted-none rl (times_of key requests) t end (within key t end requests h))
