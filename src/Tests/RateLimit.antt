-- ===== src/Tests/RateLimit.antt =====
-- A limiter of two requests, and one more each second, among the requests of two clients.
use apisix_developer_portal.Common.{
  ℕ, ◌+◌, ◌-◌, ◌*◌, ◌≤◌, String, true, false, none, List, [], ◌∷◌, ◌≡◌, refl, arith,
}
use apisix_developer_portal.Httpx.RateLimit.{RateLimiter, serve, sweep, refill, spend, allow}
use apisix_developer_portal.Httpx.RateLimit.Isolation.{times_of, answers_to, alone, serve_isolates}
use apisix_developer_portal.Httpx.RateLimit.Quota.{granted, granted_within_quota}

abbrev pub two_a_second : RateLimiter
two_a_second = record {
  buckets = λ _. none;
  burst = 2000000000;
  rate = 1;
  token = 1000000000;
  last_sweep = none;
}

abbrev requests : List (ℕ × String)
requests = (5, "ann") ∷ (6, "ann") ∷ (7, "bob") ∷ (8, "ann") ∷ (700000000000, "ann") ∷ []

-- The third request of the client is refused; after a sweep it has a full bucket again.
answers : answers_to "ann" (serve requests two_a_second) ≡ true ∷ true ∷ false ∷ true ∷ []
unfolding serve sweep refill spend allow
answers = refl

serve_isolates_example :
    answers_to "ann" (serve requests two_a_second)
    ≡ alone two_a_second (times_of "ann" requests) none
serve_isolates_example =
    serve_isolates two_a_second "ann" 5 requests (omega arith) (λ k. refl)
      (omega arith, (omega arith, (omega arith, (omega arith, (omega arith, tt)))))

granted_within_quota_example :
    granted (answers_to "ann" (serve requests two_a_second)) * 1000000000
    ≤ 2000000000 + 1 * (700000000000 - 5)
granted_within_quota_example =
    granted_within_quota two_a_second "ann" 5 700000000000 requests (omega arith) (λ k. refl)
      (omega arith, (omega arith, (omega arith, (omega arith, (omega arith, omega arith)))))
