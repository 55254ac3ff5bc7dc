-- ===== src/Admin/Plans/Updates.antt =====
-- `Update` of the plan service (internal/admin/plan_service.go) and the gateways.
use apisix_developer_portal.Common.{
  false, ◌&&◌, ◌||◌, not, ◌≡◌, inl, inr, refl, sym, subst, ◌∙◌, str_eq, ◌==◌, ==_self,
  if◌then◌else◌, any, Bool-cases,
}
use apisix_developer_portal.Apisix.{Gateway}
use apisix_developer_portal.Db.{PlanRow}
use apisix_developer_portal.Effects.{Result, ok, err, State, Run, pure, ◌>>=◌, ◌>>◌}
use apisix_developer_portal.Effects.Triple.{
  Post, Triple, Triple-bind, Triple-call, Triple-if, Triple-query, Triple-pure,
}
use apisix_developer_portal.Admin.Plans.{
  has_id, stored_plan, find_plan, get_plan, store_plan, update_plan,
}
use apisix_developer_portal.Subscriptions.Service.{Service}
use apisix_developer_portal.Subscriptions.Service.Approval.{reprovision_plan}

module _ (svc : Service) (p old : PlanRow) (production sandbox : Gateway)
    (same_count : p.rate_limit_count ≡ old.rate_limit_count)
    (same_window : p.rate_limit_window_s ≡ old.rate_limit_window_s) where
  abbrev Untouched : State → Type 0
  Untouched s = (s.gw ≡ production) × (s.sandbox_gw ≡ sandbox)

  -- What an update stores is what it answers.
  stored : Triple Untouched (store_plan p) (λ a s. Untouched s × (a ≡ p)) Untouched
  unfolding store_plan
  stored = Triple-call _ (λ s h. h) (λ s h. h) outcome
    where
      outcome :
          (s : State)
          → Untouched s
          → Post
              (λ a s. Untouched s × (a ≡ p))
              Untouched
              (stored_plan p s.db).0
              (record s { db = (stored_plan p s.db).1 })
      outcome s h = elim (Bool-cases (any (has_id p.id) s.db.plans)) [
        | inr t ↦ rw t h
        | inl t ↦
            elim (Bool-cases
              (any (λ (q : PlanRow). str_eq q.name p.name && not (q.id == p.id)) s.db.plans)) [
                | inl u ↦ rw (t, u) h
                | inr u ↦ rw (t, u) (h, refl)
              ]
      ]

  same_limits :
      (updated : PlanRow)
      → updated ≡ p
      → (not (updated.rate_limit_count == old.rate_limit_count)
          || not (updated.rate_limit_window_s == old.rate_limit_window_s))
        ≡ false
  same_limits updated e =
      rw (e, same_count, same_window, ==_self old.rate_limit_count, ==_self old.rate_limit_window_s)
        refl

  -- The end of `Update` when it found `old`.
  idle :
      (updated : PlanRow)
      → Triple
          (λ s. Untouched s × (updated ≡ p))
          (if not (updated.rate_limit_count == old.rate_limit_count)
              || not (updated.rate_limit_window_s == old.rate_limit_window_s)
            then reprovision_plan svc p.id >> pure updated
            else pure updated)
          (λ _. Untouched)
          Untouched
  idle updated = record {
    at = λ r (h, e).
        (Triple-if
            (not (updated.rate_limit_count == old.rate_limit_count)
              || not (updated.rate_limit_window_s == old.rate_limit_window_s))
            (reprovision_plan svc p.id >> pure updated) (pure updated)
            (λ changed. absurd (let k = same_limits updated e in cc))
            (λ _. Triple-pure updated (λ s q. q))).at
          r h;
  }

  update_plan-Untouched :
      Triple
        (λ s. Untouched s × (find_plan s.db p.id ≡ ok old))
        (update_plan svc p)
        (λ _. Untouched)
        Untouched
  unfolding update_plan get_plan
  update_plan-Untouched =
      Triple-bind _ _
        (Triple-query (λ s. Untouched s × (find_plan s.db p.id ≡ ok old)) Untouched
          (λ d. find_plan d p.id) (λ s q. q.0))
        λ found. record {
          at = λ r ((h, e), e').
              let same : found ≡ old = (let both : ok found ≡ ok old = sym e' ∙ e in cc) in
              (rest found same).at r h;
        }
    where
      rest :
          (found : PlanRow)
          → found ≡ old
          → Triple Untouched
              (store_plan p >>= λ updated.
                if not (updated.rate_limit_count == found.rate_limit_count)
                  || not (updated.rate_limit_window_s == found.rate_limit_window_s)
                then reprovision_plan svc p.id >> pure updated
                else pure updated)
              (λ _. Untouched)
              Untouched
      rest found same =
          subst
            (λ (x : PlanRow).
              Triple Untouched
                (store_plan p >>= λ updated.
                  if not (updated.rate_limit_count == x.rate_limit_count)
                    || not (updated.rate_limit_window_s == x.rate_limit_window_s)
                  then reprovision_plan svc p.id >> pure updated
                  else pure updated)
                (λ _. Untouched) Untouched)
            (sym same) (Triple-bind _ _ stored idle)

  ended : (x : Result PlanRow) (s : State) → Post (λ _. Untouched) Untouched x s → Untouched s
  ended (ok _) s h = h
  ended (err _) s h = h

-- An update that leaves the limits of the stored plan as they are, of its name or its price say,
-- changes nothing on either gateway, whatever calls fail.
pub update_plan_quiet :
    (svc : Service) (p old : PlanRow) (r : Run)
    → find_plan r.state.db p.id ≡ ok old
    → p.rate_limit_count ≡ old.rate_limit_count
    → p.rate_limit_window_s ≡ old.rate_limit_window_s
    → ((update_plan svc p r).1.state.gw ≡ r.state.gw)
      × ((update_plan svc p r).1.state.sandbox_gw ≡ r.state.sandbox_gw)
update_plan_quiet svc p old r e same_count same_window =
    ended svc p old r.state.gw r.state.sandbox_gw same_count same_window (update_plan svc p r).0
      (update_plan svc p r).1.state
      ((update_plan-Untouched svc p old r.state.gw r.state.sandbox_gw same_count same_window).at r
        ((refl, refl), e))
