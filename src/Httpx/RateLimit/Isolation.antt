-- ===== src/Httpx/RateLimit/Isolation.antt =====
-- internal/httpx/ratelimit.go: one key of the limiter, beside a bucket of its own without sweeps.
use mathlib.Core.Path.{ap₂}
use native.Mathlib.Nat.{mul-le-mul_left}
use apisix_developer_portal.Common.{
  ℕ, ◌+◌, ◌-◌, ◌*◌, ◌≤◌, min, String, Bool, true, false, Option, none, some, List, [], ◌∷◌, ◌≡◌,
  ◌⊎◌, inl, inr, refl, sym, ap, ◌∙◌, leb, if◌then◌else◌, str_eq, eq_iff, eq_refl, Bool-cases, arith,
}
use apisix_developer_portal.Apisix.{put_key}
use apisix_developer_portal.Httpx.RateLimit.{
  idle_ttl, Bucket, RateLimiter, is_idle, keep_fresh, is_due, sweep, refill, spend, allow, serve,
}

-- The requests come in the order of time, from `t` on.
abbrev pub IsOrdered : ℕ → List (ℕ × String) → Type 0
IsOrdered t [] = Unit {0}
IsOrdered t ((now, _) ∷ requests) = (t ≤ now) × IsOrdered now requests

-- The times of a key's requests, and the answers to them.
abbrev pub times_of : String → List (ℕ × String) → List ℕ
times_of key [] = []
times_of key ((now, k) ∷ requests) =
    if str_eq k key then now ∷ times_of key requests else times_of key requests

abbrev pub answers_to : String → List (String × Bool) → List Bool
answers_to key [] = []
answers_to key ((k, ok) ∷ answers) =
    if str_eq k key then ok ∷ answers_to key answers else answers_to key answers

-- One bucket, alone.
abbrev pub alone : RateLimiter → List ℕ → Option Bucket → List Bool
alone rl [] bucket = []
alone rl (now ∷ times) bucket =
    let (ok, b) = spend rl (refill rl now bucket) in ok ∷ alone rl times (some b)

-- The limiter's bucket of a key against the one alone, at a time: they are the same, or the
-- limiter's was swept.
Matches : ℕ → Option Bucket → Option Bucket → Type 0
Matches now kept bucket =
    (kept ≡ bucket) ⊎ ((kept ≡ none) × (b : Bucket) × (bucket ≡ some b) × (b.last + idle_ttl ≤ now))

later-Matches :
    (t now : ℕ) (kept bucket : Option Bucket)
    → t ≤ now
    → Matches t kept bucket
    → Matches now kept bucket
unfolding Matches
later-Matches t now kept bucket later (inl e) = inl e
later-Matches t now kept bucket later (inr (gone, b, there, idle)) =
    inr (gone, b, there, omega arith)

fresh-Matches :
    (now : ℕ) (kept bucket : Option Bucket)
    → Matches now kept bucket
    → Matches now (keep_fresh now kept) bucket
unfolding Matches
fresh-Matches now none bucket m = m
fresh-Matches now (some b) bucket m = elim (Bool-cases (is_idle now b)) [
  | inr f ↦ rw f m
  | inl f ↦ rw f (elim m [ inl e ↦ inr (refl, b, sym e, idle f) | inr (gone, _, _, _) ↦ absurd cc ])
]
  where
    idle : leb idle_ttl (now - b.last) ≡ true → b.last + idle_ttl ≤ now
    idle f = ground arith

full-refill :
    (rl : RateLimiter) (now : ℕ) (kept bucket : Option Bucket)
    → rl.burst ≤ rl.rate * idle_ttl
    → Matches now kept bucket
    → refill rl now kept ≡ refill rl now bucket
unfolding Matches refill
full-refill rl now kept bucket fast (inl e) = rw e refl
full-refill rl now kept bucket fast (inr (gone, b, there, idle)) = rw (gone, there, full) refl
  where
    full : min (b.tokens + rl.rate * (now - b.last)) rl.burst ≡ rl.burst
    full =
        let grown : rl.rate * idle_ttl ≤ rl.rate * (now - b.last) =
          mul-le-mul_left rl.rate (omega arith) in
        omega arith

-- Two limiters with the same burst, rate and price.
abbrev pub SameLimits : RateLimiter → RateLimiter → Type 0
SameLimits rl rl' = (rl.burst ≡ rl'.burst) × (rl.rate ≡ rl'.rate) × (rl.token ≡ rl'.token)

sweep-Limits : (now : ℕ) (rl : RateLimiter) → SameLimits (sweep now rl) rl
unfolding sweep
sweep-Limits now rl = elim (Bool-cases (is_due now rl.last_sweep)) [
  | inl d ↦ rw d (refl, refl, refl)
  | inr d ↦ rw d (refl, refl, refl)
]

sweep-Matches :
    (now : ℕ) (rl : RateLimiter) (key : String) (bucket : Option Bucket)
    → Matches now (rl.buckets key) bucket
    → Matches now ((sweep now rl).buckets key) bucket
unfolding sweep
sweep-Matches now rl key bucket m = elim (Bool-cases (is_due now rl.last_sweep)) [
  | inl d ↦ rw d (fresh-Matches now (rl.buckets key) bucket m)
  | inr d ↦ rw d m
]

spend-Limits :
    (rl rl' : RateLimiter) (now : ℕ) (bucket : Option Bucket)
    → SameLimits rl rl'
    → spend rl (refill rl now bucket) ≡ spend rl' (refill rl' now bucket)
unfolding spend refill
spend-Limits rl rl' now none (b, r, c) = rw (b, c) refl
spend-Limits rl rl' now (some x) (b, r, c) = rw (b, r, c) refl

put_self-Matches :
    (now : ℕ) (m : String → Option Bucket) (key : String) (b b' : Bucket)
    → b ≡ b'
    → Matches now (put_key m key b key) (some b')
unfolding Matches
put_self-Matches now m key b b' e = inl (rw (eq_refl key, e) refl)

put_other-Matches :
    (now : ℕ) (m : String → Option Bucket) (k key : String) (b : Bucket) (bucket : Option Bucket)
    → str_eq k key ≡ false
    → Matches now (m key) bucket
    → Matches now (put_key m k b key) bucket
put_other-Matches now m k key b bucket e h = rw e h

module _ (rl : RateLimiter) (key : String) (fast : rl.burst ≤ rl.rate * idle_ttl) where
  -- The request of any key, on the limiter and alone.
  same_spending :
      (now : ℕ) (rl' : RateLimiter) (k : String) (bucket : Option Bucket)
      → SameLimits rl' rl
      → Matches now (rl'.buckets k) bucket
      → spend (sweep now rl') (refill (sweep now rl') now ((sweep now rl').buckets k))
        ≡ spend rl (refill rl now bucket)
  same_spending now rl' k bucket (b, r, c) m =
      let (b', r', c') = sweep-Limits now rl' in
      spend-Limits (sweep now rl') rl now ((sweep now rl').buckets k) (b' ∙ b, r' ∙ r, c' ∙ c)
      ∙ ap (spend rl) (
          full-refill rl now ((sweep now rl').buckets k) bucket fast
            (sweep-Matches now rl' k bucket m))

  served :
      (requests : List (ℕ × String)) (rl' : RateLimiter) (t : ℕ) (bucket : Option Bucket)
      → SameLimits rl' rl
      → IsOrdered t requests
      → Matches t (rl'.buckets key) bucket
      → answers_to key (serve requests rl') ≡ alone rl (times_of key requests) bucket
  unfolding serve allow
  served [] rl' t bucket limits ordered m = refl
  served ((now, k) ∷ requests) rl' t bucket limits (later, ordered) m =
      elim (Bool-cases (str_eq k key)) [
        | inl e ↦
            let same : k ≡ key = (eq_iff k key).0 e in
            let spent = same_spending now rl' key bucket limits here in
            rw (same, eq_refl key)
              (ap₂ (λ (x : Bool) (xs : List Bool). x ∷ xs) (ap (λ (x : Bool × Bucket). x.0) spent)
                (served requests _ now (some (spend rl (refill rl now bucket)).1) swept_limits
                  ordered
                  (put_self-Matches now (sweep now rl').buckets key _ _
                    (ap (λ (x : Bool × Bucket). x.1) spent))))
        | inr e ↦ rw e (
            served requests _ now bucket swept_limits ordered (
              put_other-Matches now (sweep now rl').buckets k key _ bucket e
                (sweep-Matches now rl' key bucket here)))
      ]
    where
      here : Matches now (rl'.buckets key) bucket
      here = later-Matches t now (rl'.buckets key) bucket later m

      swept_limits : SameLimits (sweep now rl') rl
      swept_limits =
          let (b, r, c) = limits in
          let (b', r', c') = sweep-Limits now rl' in (b' ∙ b, r' ∙ r, c' ∙ c)

-- If a bucket refills within the idle time and the requests come in the order of time, the answers
-- that a new limiter gives to a key are those of one bucket that only this key uses and that is
-- never swept.
pub serve_isolates :
    (rl : RateLimiter) (key : String) (t : ℕ) (requests : List (ℕ × String))
    → rl.burst ≤ rl.rate * idle_ttl
    → ((k : String) → rl.buckets k ≡ none)
    → IsOrdered t requests
    → answers_to key (serve requests rl) ≡ alone rl (times_of key requests) none
unfolding Matches
serve_isolates rl key t requests fast empty ordered =
    served rl key fast requests rl t none (refl, refl, refl) ordered (inl (empty key))
