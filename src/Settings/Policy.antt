-- ===== src/Settings/Policy.antt =====
-- internal/settings/service.go: the rules of `invariants` and the running configuration.
use mathlib.Core.List.Memᴰ.{head}
use apisix_developer_portal.Common.{
  ℕ, String, Bool, Option, none, some, List, [], ◌∷◌, ◌≡◌, sym, subst, ◌∙◌, refl,
}
use apisix_developer_portal.Effects.{ok, State, Run, M, pure, lift, step, ◌>>=◌}
use apisix_developer_portal.Effects.Triple.{Triple-bind, Triple-assume, Triple-lift_answer}
use apisix_developer_portal.Effects.Preserves.{
  Preserves, Preserves-call, Preserves-step, Preserves-pure, Preserves-if, Preserves-lift,
  Preserves-triple, Triple-Preserves, Preserves-bind, Preserves-query,
}
use apisix_developer_portal.Settings.Snapshot.{Effective, ProbeResult}
use apisix_developer_portal.Settings.Service.{
  Service, Values, Hook, is_secret, load_overrides, build, snapshot, candidate, invariants, remove,
  check_probes, probe_with, seal, seal_all, keys, Change, change, store_changes, run_hooks, publish,
  set_checked, set, delete_setting, reset,
}
use apisix_developer_portal.Settings.Restarting.{IsQuiet, IsQuiet-tail}

abbrev pub IsAllowed : State → Type 0
IsAllowed s = invariants s.snapshot ≡ ok tt

-- The changes that an administrator makes.
pub data Edit : Type 0 where
  setting : Values → ℕ → Bool → Edit
  resetting : String → ℕ → Edit

unfoldable pub edit : Service → Edit → M (Unit {0})
edit svc (setting values admin_id force) = set svc values admin_id force
edit svc (resetting key admin_id) = reset svc key admin_id

run_hooks-snapshot :
    (hooks : List Hook) (e : Effective) (s : State)
    → IsQuiet hooks
    → (run_hooks hooks e s).snapshot ≡ s.snapshot
run_hooks-snapshot [] e s q = refl
run_hooks-snapshot (h ∷ hooks) e s q =
    run_hooks-snapshot hooks e (h e s) (IsQuiet-tail q) ∙ q.kept h (head refl) e s

module _ (svc : Service) where
  pub check_probes-Quiet :
      (P : State → Type 0) (cand : Effective) (values : Values) (force : Bool)
      → Preserves P (check_probes svc cand values force)
  unfolding check_probes probe_with
  check_probes-Quiet P cand values force = Preserves-if _ _ _ (Preserves-pure tt) (
      Preserves-bind _ _ (probed svc.prober)
        (λ results. Preserves-if _ _ _ (Preserves-lift _) (Preserves-pure tt)))
    where
      probed :
          (prober : Option (Effective → List String → State → List ProbeResult))
          → Preserves {A = List ProbeResult} P (elim prober [
            | none ↦ pure []
            | some probe ↦ step (λ s. (ok (probe cand (keys values) s), s))
          ])
      probed none = Preserves-pure []
      probed (some probe) = Preserves-step _ (λ s h. h)

module _ (svc : Service) (quiet : IsQuiet svc.hooks) where
  publish-IsAllowed : (e : Effective) → invariants e ≡ ok tt → Preserves IsAllowed (publish svc e)
  unfolding publish
  publish-IsAllowed e h = Preserves-step _ λ s p.
      subst (λ x. invariants x ≡ ok tt)
        (sym (run_hooks-snapshot svc.hooks e (record s { snapshot = e }) quiet)) h

  seal_all-IsAllowed :
      (old : Effective) (values : Values) → Preserves IsAllowed (seal_all svc old values)
  unfolding seal_all seal
  seal_all-IsAllowed old [] = Preserves-pure []
  seal_all-IsAllowed old ((k, v) ∷ values) =
      Preserves-bind _ _
        (Preserves-if (is_secret k) _ _ (Preserves-call _ (λ s h. h)) (Preserves-pure _))
        (λ stored. Preserves-bind _ _ (seal_all-IsAllowed old values) (λ changes. Preserves-pure _))

  -- What follows the check of a candidate may rely on it.
  after_check :
      (e : Effective) (m : M (Unit {0}))
      → (invariants e ≡ ok tt → Preserves IsAllowed m)
      → Preserves IsAllowed (lift (invariants e) >>= λ _. m)
  after_check e m kept = Preserves-triple _ (
      Triple-bind _ _ (Triple-lift_answer IsAllowed IsAllowed (invariants e) (λ s h. h))
        (λ _. Triple-assume _ (λ allowed. Triple-Preserves m (kept allowed))))

  store_changes-IsAllowed :
      (admin_id : ℕ) (force : Bool) (changes : List Change)
      → Preserves IsAllowed (store_changes admin_id force changes)
  unfolding store_changes
  store_changes-IsAllowed admin_id force changes = Preserves-call _ (λ s h. h)

  delete_setting-IsAllowed :
      (admin_id : ℕ) (c : Change) → Preserves IsAllowed (delete_setting admin_id c)
  unfolding delete_setting
  delete_setting-IsAllowed admin_id c = Preserves-call _ (λ s h. h)

  set-IsAllowed :
      (values : Values) (admin_id : ℕ) (force : Bool)
      → Preserves IsAllowed (set svc values admin_id force)
  unfolding set set_checked snapshot
  set-IsAllowed values admin_id force = Preserves-if _ _ _ (Preserves-pure tt) (
      Preserves-bind _ _ (Preserves-lift _) λ _.
        Preserves-bind _ _ (Preserves-step _ (λ s h. h)) λ old.
          after_check (candidate values old) _ λ allowed.
            Preserves-bind _ _
              (check_probes-Quiet svc IsAllowed (candidate values old) values force)
              λ _. Preserves-bind _ _ (seal_all-IsAllowed old values) λ changes.
                Preserves-bind _ _ (store_changes-IsAllowed admin_id force changes)
                  (λ _. publish-IsAllowed (candidate values old) allowed))

  reset-IsAllowed : (key : String) (admin_id : ℕ) → Preserves IsAllowed (reset svc key admin_id)
  unfolding reset load_overrides snapshot
  reset-IsAllowed key admin_id = Preserves-bind _ _ (Preserves-lift _) λ _.
      Preserves-bind _ _ (Preserves-query _) λ overrides.
        after_check (build svc (remove key overrides)) _ λ allowed.
          Preserves-bind _ _ (Preserves-step _ (λ s h. h)) λ old.
            Preserves-bind _ _ (delete_setting-IsAllowed admin_id (change old key "" (svc.env key)))
              (λ _. publish-IsAllowed (build svc (remove key overrides)) allowed)

  -- If the hooks leave the settings alone and the running configuration keeps the rules between its
  -- values, then whatever calls fail or lose their answer, it keeps them after a change or a reset,
  -- forced or not.
  pub edit-IsAllowed : (e : Edit) (r : Run) → IsAllowed r.state → IsAllowed (edit svc e r).1.state
  unfolding edit
  edit-IsAllowed (setting values admin_id force) r h = (set-IsAllowed values admin_id force).at r h
  edit-IsAllowed (resetting key admin_id) r h = (reset-IsAllowed key admin_id).at r h
