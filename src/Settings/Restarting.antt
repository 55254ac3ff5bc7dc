-- ===== src/Settings/Restarting.antt =====
-- internal/settings/service.go: the snapshot that the portal runs on, beside the one of a restart.
use apisix_developer_portal.Common.{
  ℕ, String, Bool, not, Option, none, some, List, [], ◌∷◌, ◌≡◌, inl, inr, refl, sym, ap, subst, ◌∙◌,
  any, is_empty, Memᴰ, Bool-cases,
}
use mathlib.Core.Path.{fun_ext}
use mathlib.Core.List.Memᴰ.{head, tail}
use apisix_developer_portal.Effects.{ok, State, Run, M, pure, step}
use apisix_developer_portal.Effects.Triple.{
  Post, Triple, Triple-bind, Triple-call, Triple-if, Triple-pure, Triple-step, Triple-lift,
  Triple-lift_answer, Triple-assume, Triple-weaken,
}
use apisix_developer_portal.Settings.Snapshot.{Effective, ProbeResult}
use apisix_developer_portal.Settings.Service.{
  Service, Values, Hook, remove, row_value, load_rows, load_overrides, build, snapshot, candidate,
  keys, check_probes, probe_with, Change, change, seal_all, is_user, store_changes, run_hooks,
  publish, set_checked, set, check_editable, delete_setting, reset,
}
use apisix_developer_portal.Settings.Overrides.{
  IsMap, AllEditable, check_keys-AllEditable, load-delete,
}
use apisix_developer_portal.Settings.Candidates.{
  Sealed, known_of_editable, candidate-build, load-upsert_changes, sealed-reads, seal-Triple,
}

-- The hooks leave the stored settings and the snapshot alone.
pub record IsQuiet (hooks : List Hook) : Type 0 where
  pub rows :
      (h : Hook) → Memᴰ h hooks → (e : Effective) (s : State) → (h e s).db.settings ≡ s.db.settings
  pub trail :
      (h : Hook)
      → Memᴰ h hooks
      → (e : Effective) (s : State) → (h e s).db.settings_audit ≡ s.db.settings_audit
  pub kept : (h : Hook) → Memᴰ h hooks → (e : Effective) (s : State) → (h e s).snapshot ≡ s.snapshot

pub IsQuiet-tail : {h : Hook} {hooks : List Hook} → IsQuiet (h ∷ hooks) → IsQuiet hooks
IsQuiet-tail q = record {
  rows = λ h there. q.rows h (tail there);
  trail = λ h there. q.trail h (tail there);
  kept = λ h there. q.kept h (tail there);
}

-- The settings of the portal are those that a boot would load.
abbrev pub IsCurrent : Service → State → Type 0
IsCurrent svc s = s.snapshot ≡ build svc (load_rows svc s.db.settings)

run_hooks-IsCurrent :
    (svc : Service) (hooks : List Hook) (e : Effective) (s : State)
    → IsQuiet hooks
    → IsCurrent svc s
    → IsCurrent svc (run_hooks hooks e s)
run_hooks-IsCurrent svc [] e s q h = h
run_hooks-IsCurrent svc (f ∷ hooks) e s q h =
    run_hooks-IsCurrent svc hooks e (f e s) (IsQuiet-tail q) (
      q.kept f (head refl) e s
      ∙ h
      ∙ ap (λ rows. build svc (load_rows svc rows)) (sym (q.rows f (head refl) e s)))

module _ (svc : Service) where
  -- What holds of the state whatever the count of random values is.
  abbrev Fits : Effective → State → Type 0
  Fits old s = old ≡ build svc (load_rows svc s.db.settings)

  seal_all-Sealed :
      (old : Effective) (values : Values)
      → AllEditable values
      → Triple
          (Fits old)
          (seal_all svc old values)
          (λ changes s. Fits old s × Sealed svc values changes)
          (λ _. Unit {0})
  unfolding seal_all
  seal_all-Sealed old [] known = Triple-pure [] (λ s h. (h, tt))
  seal_all-Sealed old ((k, v) ∷ values) (known, rest) =
      let there = known_of_editable k known in
      Triple-bind
        {Q = λ stored s.
          Fits old s
          × ((by : ℕ)
              → row_value svc (record { key = k; value = stored; updated_by = by }) ≡ some v)}
        _ _
        (seal-Triple svc _ _
          (λ stored.
            (by : ℕ) → row_value svc (record { key = k; value = stored; updated_by = by }) ≡ some v)
          k v (λ s n h. h) (λ s h. tt) (λ n by. sealed-reads svc k v n by there))
        λ stored. Triple-assume _ λ reads.
          Triple-bind _ _ (seal_all-Sealed old values rest)
            (λ changes. Triple-pure _ (λ s (h, kept). (h, (refl, reads, kept))))

  check_probes-keeps :
      (P : State → Type 0) (cand : Effective) (values : Values) (force : Bool)
      → Triple P (check_probes svc cand values force) (λ _. P) (λ _. Unit {0})
  unfolding check_probes probe_with
  check_probes-keeps P cand values force =
      Triple-if force _ _ (λ _. Triple-pure tt (λ s h. h))
        λ _. Triple-bind {Q = λ _. P} _ _ (probed svc.prober) λ results.
          Triple-if (any (λ (r : ProbeResult). not r.passed) results) _ _
            (λ _. Triple-lift _ (λ s h. tt)) (λ _. Triple-pure tt (λ s h. h))
    where
      probed :
          (prober : Option (Effective → List String → State → List ProbeResult))
          → Triple {A = List ProbeResult} P
              (elim prober [
                | none ↦ pure []
                | some probe ↦ step (λ s. (ok (probe cand (keys values) s), s))
              ])
              (λ _. P)
              (λ _. Unit {0})
      probed none = Triple-pure [] (λ s h. h)
      probed (some probe) = Triple-step _ (λ s h. h)

  store_changes-Stored :
      (old : Effective) (values : Values) (admin_id : ℕ) (force : Bool) (changes : List Change)
      → IsMap values
      → AllEditable values
      → Sealed svc values changes
      → Triple
          (Fits old)
          (store_changes admin_id force changes)
          (λ _ s. candidate values old ≡ build svc (load_rows svc s.db.settings))
          (λ _. Unit {0})
  unfolding store_changes
  store_changes-Stored old values admin_id force changes m known kept =
      Triple-call _ (λ _ _. tt) (λ _ _. tt)
        λ s h. elim (Bool-cases (any (is_user admin_id) s.db.users)) [
          | inr t ↦ rw t tt
          | inl t ↦
              rw (t, h)
                (candidate-build svc values (load_rows svc s.db.settings) known
                  ∙ ap (build svc)
                      (sym (load-upsert_changes svc admin_id values changes s.db.settings m kept)))
        ]

  module _ (quiet : IsQuiet svc.hooks) where
    publish-IsCurrent :
        (e : Effective)
        → Triple
            (λ s. e ≡ build svc (load_rows svc s.db.settings))
            (publish svc e)
            (λ _. IsCurrent svc)
            (λ _. Unit {0})
    unfolding publish
    publish-IsCurrent e =
        Triple-step _
          (λ s h. run_hooks-IsCurrent svc svc.hooks e (record s { snapshot = e }) quiet h)

    set_checked-IsCurrent :
        (values : Values) (admin_id : ℕ) (force : Bool)
        → IsMap values
        → AllEditable values
        → Triple
            (IsCurrent svc)
            (set_checked svc values admin_id force)
            (λ _. IsCurrent svc)
            (λ _. Unit {0})
    unfolding set_checked snapshot
    set_checked-IsCurrent values admin_id force m known =
        Triple-bind {Q = Fits} _ _ (Triple-step _ (λ s h. h)) λ old.
          Triple-bind _ _ (Triple-lift_answer (Fits old) (λ _. Unit {0}) _ (λ s h. tt)) λ _.
            Triple-assume _ λ allowed.
              Triple-bind _ _ (check_probes-keeps (Fits old) (candidate values old) values force)
                λ _. Triple-bind _ _ (seal_all-Sealed old values known) λ changes.
                  Triple-assume _ λ kept.
                    Triple-bind _ _
                      (store_changes-Stored old values admin_id force changes m known kept)
                      (λ _. publish-IsCurrent (candidate values old))

    set_triple :
        (values : Values) (admin_id : ℕ) (force : Bool)
        → IsMap values
        → Triple
            (IsCurrent svc)
            (set svc values admin_id force)
            (λ _. IsCurrent svc)
            (λ _. Unit {0})
    unfolding set
    set_triple values admin_id force m =
        Triple-if (is_empty values) _ _ (λ _. Triple-pure tt (λ s h. h))
          λ _.
            Triple-bind _ _ (Triple-lift_answer (IsCurrent svc) (λ _. Unit {0}) _ (λ s h. tt)) λ _.
              Triple-assume _ λ e.
                set_checked-IsCurrent values admin_id force m
                  (check_keys-AllEditable svc.parsers values e)

    reset_triple :
        (key : String) (admin_id : ℕ)
        → Triple (λ _. Unit {0}) (reset svc key admin_id) (λ _. IsCurrent svc) (λ _. Unit {0})
    unfolding reset load_overrides snapshot delete_setting
    reset_triple key admin_id =
        Triple-bind {Q = λ _ _. Unit} _ _
          (Triple-weaken _
            (Triple-lift_answer (λ _. Unit {0}) (λ _. Unit {0}) (check_editable key) (λ s h. tt))
            (λ s h. h) (λ a s h. tt) (λ s h. h))
          λ _.
            Triple-bind {Q = λ overrides s. overrides ≡ load_rows svc s.db.settings} _ _
              (Triple-call _ (λ _ _. tt) (λ _ _. tt) (λ s h. refl))
              λ overrides. Triple-bind _ _ (Triple-lift_answer _ (λ _. Unit {0}) _ (λ s h. tt)) λ _.
                Triple-assume _ λ allowed.
                  Triple-bind {Q = λ _ s. overrides ≡ load_rows svc s.db.settings} _ _
                    (Triple-step _ (λ s h. h))
                    λ old.
                      Triple-bind _ _ (deleted overrides old)
                        (λ _. publish-IsCurrent (build svc (remove key overrides)))
      where
        deleted :
            (overrides : String → Option String) (old : Effective)
            → Triple
                (λ s. overrides ≡ load_rows svc s.db.settings)
                (delete_setting admin_id (change old key "" (svc.env key)))
                (λ _ s. build svc (remove key overrides) ≡ build svc (load_rows svc s.db.settings))
                (λ _. Unit {0})
        deleted overrides old =
            Triple-call _ (λ _ _. tt) (λ _ _. tt)
              λ s h. elim (Bool-cases (any (is_user admin_id) s.db.users)) [
                | inr t ↦ rw t tt
                | inl t ↦ rw t (
                    ap (λ out. build svc (remove key out)) h
                    ∙ ap (build svc) (sym (fun_ext (load-delete svc key s.db.settings))))
              ]

    succeeded :
        {P : State → Type 0} (m : M (Unit {0})) (r : Run)
        → Triple P m (λ _. IsCurrent svc) (λ _. Unit {0})
        → P r.state
        → (m r).0 ≡ ok tt
        → IsCurrent svc (m r).1.state
    succeeded m r t p e =
        subst (λ x. Post (λ _. IsCurrent svc) (λ _. Unit {0}) x (m r).1.state) e (t.at r p)

    -- If the hooks leave the settings alone, the keys are distinct and the snapshot is the one that a
    -- boot would load, then after a change of settings that succeeds it is so again.
    pub set-IsCurrent :
        (values : Values) (admin_id : ℕ) (force : Bool) (r : Run)
        → IsMap values
        → IsCurrent svc r.state
        → (set svc values admin_id force r).0 ≡ ok tt
        → IsCurrent svc (set svc values admin_id force r).1.state
    set-IsCurrent values admin_id force r m h e =
        succeeded (set svc values admin_id force) r (set_triple values admin_id force m) h e

    -- If the hooks leave the settings alone, a reset of a key that succeeds leaves the snapshot that a
    -- boot would load, also where the snapshot before it was another.
    pub reset_reconciles :
        (key : String) (admin_id : ℕ) (r : Run)
        → (reset svc key admin_id r).0 ≡ ok tt
        → IsCurrent svc (reset svc key admin_id r).1.state
    reset_reconciles key admin_id r e =
        succeeded (reset svc key admin_id) r (reset_triple key admin_id) tt e
