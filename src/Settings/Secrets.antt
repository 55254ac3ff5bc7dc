-- ===== src/Settings/Secrets.antt =====
-- internal/settings/service.go: the stored values of secrets and of fixed parameters, and the audit
-- trail.
use mathlib.Core.List.Memᴰ.{head, tail}
use apisix_developer_portal.Common.{
  ℕ, String, Bool, true, false, List, [], ◌∷◌, ◌++◌, map, ◌≡◌, ◌⊎◌, sym, subst, ap, ◌∙◌, Memᴰ, inl,
  inr, refl, any, str_eq, Bool-cases, delete_where, delete_where-mem,
}
use apisix_developer_portal.Db.{SettingRow, AuditRow}
use apisix_developer_portal.Effects.{ok, State, Run, ◌>>=◌, ◌>>◌}
use apisix_developer_portal.Effects.Triple.{
  Triple, Triple-bind, Triple-pure, Triple-assume, Triple-lift_answer,
}
use apisix_developer_portal.Effects.Preserves.{
  Preserves, Preserves-call, Preserves-step, Preserves-pure, Preserves-if, Preserves-lift,
  Preserves-triple, Triple-Preserves, Preserves-bind, Preserves-query,
}
use apisix_developer_portal.Settings.Candidates.{seal-Triple}
use apisix_developer_portal.Settings.Snapshot.{Effective}
use apisix_developer_portal.Settings.Service.{
  Service, Values, Hook, load_overrides, build, snapshot, candidate, remove, check_keys, sealed,
  seal_all, is_secret, audited, audit, Change, change, is_user, upsert_setting, upsert_changes,
  store_changes, run_hooks, publish, set_checked, set, delete_setting, reset,
}
use apisix_developer_portal.Settings.Overrides.{is_editable, AllEditable, check_keys-AllEditable}
use apisix_developer_portal.Settings.Restarting.{IsQuiet, IsQuiet-tail}
use apisix_developer_portal.Settings.Policy.{Edit, setting, resetting, edit, check_probes-Quiet}

module _ (svc : Service) where
  -- A value that may be stored for a key: a secret is a text of the cipher.
  abbrev pub IsHidden : String → String → Type 0
  IsHidden key value =
      is_secret key ≡ true
      → (nonce : ℕ) × (plain : String) × (value ≡ svc.cipher.encrypt nonce plain)

  pub record IsGuarded (rows : List SettingRow) (trail : List AuditRow) : Type 0 where
    pub hidden : (r : SettingRow) → Memᴰ r rows → IsHidden r.key r.value
    pub allowed : (r : SettingRow) → Memᴰ r rows → is_editable r.key ≡ true
    pub masked :
        (a : AuditRow)
        → Memᴰ a trail
        → is_secret a.key ≡ true
        → (a.old_value ≡ "(secret)") × (a.new_value ≡ "(secret)")

  abbrev pub Guarded : State → Type 0
  Guarded s = IsGuarded s.db.settings s.db.settings_audit

  abbrev IsSafe : Change → Type 0
  IsSafe c =
      IsHidden c.key c.stored
      × (is_editable c.key ≡ true)
      × (is_secret c.key ≡ true → (c.old_value ≡ "(secret)") × (c.new_value ≡ "(secret)"))

  abbrev AllSafe : List Change → Type 0
  AllSafe [] = Unit
  AllSafe (c ∷ changes) = IsSafe c × AllSafe changes

  upsert_setting-mem :
      (row r : SettingRow) (rows : List SettingRow)
      → Memᴰ r (upsert_setting row rows)
      → (r ≡ row) ⊎ Memᴰ r rows
  unfolding upsert_setting
  upsert_setting-mem row r [] (head e) = inl e
  upsert_setting-mem row r [] (tail there) = elim there [ ]
  upsert_setting-mem row r (x ∷ rows) there = elim (Bool-cases (str_eq x.key row.key)) [
    | inl t ↦ replaced (rw t at there)
    | inr t ↦ shifted (upsert_setting-mem row r rows) (rw t at there)
  ]
    where
      replaced : Memᴰ r (row ∷ rows) → (r ≡ row) ⊎ Memᴰ r (x ∷ rows)
      replaced (head e) = inl e
      replaced (tail m) = inr (tail m)

      shifted :
          (Memᴰ r (upsert_setting row rows) → (r ≡ row) ⊎ Memᴰ r rows)
          → Memᴰ r (x ∷ upsert_setting row rows)
          → (r ≡ row) ⊎ Memᴰ r (x ∷ rows)
      shifted ih (head e) = inr (head e)
      shifted ih (tail m) = elim (ih m) [ inl e ↦ inl e | inr m' ↦ inr (tail m') ]

  upsert_changes-mem :
      (by : ℕ) (r : SettingRow) (changes : List Change) (rows : List SettingRow)
      → AllSafe changes
      → ((x : SettingRow) → Memᴰ x rows → IsHidden x.key x.value × (is_editable x.key ≡ true))
      → Memᴰ r (upsert_changes by changes rows)
      → IsHidden r.key r.value × (is_editable r.key ≡ true)
  unfolding upsert_changes
  upsert_changes-mem by r [] rows safe held there = held r there
  upsert_changes-mem by r (c ∷ changes) rows (s, safe) held there =
      upsert_changes-mem by r changes (upsert_setting row rows) safe
        (λ x m. elim (upsert_setting-mem row x rows m) [
          | inl e ↦
              subst (λ y. IsHidden y.key y.value × (is_editable y.key ≡ true)) (sym e) (s.0, s.1)
          | inr m' ↦ held x m'
        ])
        there
    where
      row : SettingRow
      row = record { key = c.key; value = c.stored; updated_by = by }

  audited-secret : (key value : String) → is_secret key ≡ true → audited key value ≡ "(secret)"
  audited-secret key value t = rw (audited, t) refl

  change-IsSafe :
      (old : Effective) (k v : String) (nonce : ℕ)
      → is_editable k ≡ true
      → IsSafe (change old k (sealed svc k v nonce) v)
  unfolding sealed
  change-IsSafe old k v nonce known =
      (λ t. (nonce, v, rw t refl), known, λ t. (audited-secret k _ t, audited-secret k _ t))

  masked_row :
      (by : ℕ) (force : Bool) (c : Change) (a : AuditRow)
      → (is_secret c.key ≡ true → (c.old_value ≡ "(secret)") × (c.new_value ≡ "(secret)"))
      → a ≡ audit by force c
      → is_secret a.key ≡ true
      → (a.old_value ≡ "(secret)") × (a.new_value ≡ "(secret)")
  masked_row by force c a masked e t =
      let (old_masked, new_masked) =
        masked (subst (λ (x : AuditRow). is_secret x.key ≡ true) e t) in
      (
        ap (λ (x : AuditRow). x.old_value) e ∙ old_masked,
        ap (λ (x : AuditRow). x.new_value) e ∙ new_masked,
      )

  -- The trail with the audit rows of the changes.
  trail-masked :
      (by : ℕ) (force : Bool) (changes : List Change) (trail : List AuditRow)
      → AllSafe changes
      → ((a : AuditRow)
          → Memᴰ a trail
          → is_secret a.key ≡ true
          → (a.old_value ≡ "(secret)") × (a.new_value ≡ "(secret)"))
      → (a : AuditRow) → Memᴰ a (map (audit by force) changes ++ trail)
      → is_secret a.key ≡ true
      → (a.old_value ≡ "(secret)") × (a.new_value ≡ "(secret)")
  trail-masked by force [] trail safe held a there = held a there
  trail-masked by force (c ∷ changes) trail (s, safe) held a (head e) =
      masked_row by force c a s.2 e
  trail-masked by force (c ∷ changes) trail (s, safe) held a (tail there) =
      trail-masked by force changes trail safe held a there

  seal_all-AllSafe :
      (old : Effective) (values : Values)
      → AllEditable values
      → Triple Guarded (seal_all svc old values) (λ changes s. Guarded s × AllSafe changes) Guarded
  unfolding seal_all
  seal_all-AllSafe old [] known = Triple-pure [] (λ s h. (h, tt))
  seal_all-AllSafe old ((k, v) ∷ values) (known, rest) =
      Triple-bind {Q = λ stored s. Guarded s × IsSafe (change old k stored v)} _ _
        (seal-Triple svc _ _ (λ stored. IsSafe (change old k stored v)) k v (λ s n h. h) (λ s h. h)
          (λ n. change-IsSafe old k v n known))
        λ stored. Triple-assume _ λ safe.
          Triple-bind _ _ (seal_all-AllSafe old values rest)
            (λ changes. Triple-pure _ (λ s (h, all_safe). (h, (safe, all_safe))))

  stored-IsGuarded :
      (by : ℕ) (force : Bool) (changes : List Change) (rows : List SettingRow)
      (trail : List AuditRow)
      → AllSafe changes
      → IsGuarded rows trail
      → IsGuarded (upsert_changes by changes rows) (map (audit by force) changes ++ trail)
  stored-IsGuarded by force changes rows trail safe h = record {
    hidden = λ r there.
        (upsert_changes-mem by r changes rows safe (λ x m. (h.hidden x m, h.allowed x m)) there).0;
    allowed = λ r there.
        (upsert_changes-mem by r changes rows safe (λ x m. (h.hidden x m, h.allowed x m)) there).1;
    masked = trail-masked by force changes trail safe h.masked;
  }

  store_changes-Guarded :
      (by : ℕ) (force : Bool) (changes : List Change)
      → AllSafe changes
      → Preserves Guarded (store_changes by force changes)
  unfolding store_changes
  store_changes-Guarded by force changes safe = Preserves-call _ λ s h.
      elim (Bool-cases (any (is_user by) s.db.users)) [
        | inr t ↦ rw t h
        | inl t ↦ rw t (stored-IsGuarded by force changes s.db.settings s.db.settings_audit safe h)
      ]

  delete_setting-Guarded :
      (old : Effective) (key value : String) (by : ℕ)
      → Preserves Guarded (delete_setting by (change old key "" value))
  unfolding delete_setting
  delete_setting-Guarded old key value by = Preserves-call _ λ s h.
      elim (Bool-cases (any (is_user by) s.db.users)) [
        | inr t ↦ rw t h
        | inl t ↦ rw t (kept s.db.settings s.db.settings_audit h)
      ]
    where
      kept :
          (rows : List SettingRow) (trail : List AuditRow)
          → IsGuarded rows trail
          → IsGuarded
              (delete_where (λ (r : SettingRow). str_eq r.key key) rows)
              (audit by false (change old key "" value) ∷ trail)
      kept rows trail h = record {
        hidden = λ r there. h.hidden r (delete_where-mem _ r rows there).0;
        allowed = λ r there. h.allowed r (delete_where-mem _ r rows there).0;
        masked = masked_all;
      }
        where
          masked_all :
              (a : AuditRow)
              → Memᴰ a (audit by false (change old key "" value) ∷ trail)
              → is_secret a.key ≡ true
              → (a.old_value ≡ "(secret)") × (a.new_value ≡ "(secret)")
          masked_all a (head e) t =
              masked_row by false (change old key "" value) a
                (λ u. (audited-secret key _ u, audited-secret key _ u)) e t
          masked_all a (tail m) t = h.masked a m t

  run_hooks-Guarded :
      (hooks : List Hook) (e : Effective) (s : State)
      → IsQuiet hooks
      → Guarded s
      → Guarded (run_hooks hooks e s)
  run_hooks-Guarded [] e s q h = h
  run_hooks-Guarded (f ∷ hooks) e s q h = run_hooks-Guarded hooks e (f e s) (IsQuiet-tail q) (
      subst (λ rows. IsGuarded rows (f e s).db.settings_audit) (sym (q.rows f (head refl) e s))
        (subst (IsGuarded s.db.settings) (sym (q.trail f (head refl) e s)) h))

  module _ (quiet : IsQuiet svc.hooks) where
    publish-Guarded : (e : Effective) → Preserves Guarded (publish svc e)
    unfolding publish
    publish-Guarded e =
        Preserves-step _ (λ s h. run_hooks-Guarded svc.hooks e (record s { snapshot = e }) quiet h)

    sealed_then :
        (old : Effective) (values : Values) (admin_id : ℕ) (force : Bool)
        → AllEditable values
        → Preserves Guarded (do
          changes ← seal_all svc old values
          store_changes admin_id force changes
          publish svc (candidate values old))
    sealed_then old values admin_id force known = Preserves-triple _ (
        Triple-bind _ _ (seal_all-AllSafe old values known) λ changes. Triple-assume _ λ safe.
          Triple-Preserves _ (
            Preserves-bind _ _ (store_changes-Guarded admin_id force changes safe)
              (λ _. publish-Guarded (candidate values old))))

    set-Guarded :
        (values : Values) (admin_id : ℕ) (force : Bool)
        → Preserves Guarded (set svc values admin_id force)
    unfolding set set_checked snapshot
    set-Guarded values admin_id force = Preserves-if _ _ _ (Preserves-pure tt) (
        Preserves-triple _ (
          Triple-bind _ _
            (Triple-lift_answer Guarded Guarded (check_keys svc.parsers values) (λ s h. h))
            (λ _. Triple-assume _ (λ e. Triple-Preserves _ (checked e)))))
      where
        checked :
            check_keys svc.parsers values ≡ ok tt
            → Preserves Guarded (set_checked svc values admin_id force)
        checked e = Preserves-bind _ _ (Preserves-step _ (λ s h. h)) λ old.
            Preserves-bind _ _ (Preserves-lift _) λ _.
              Preserves-bind _ _
                (check_probes-Quiet svc Guarded (candidate values old) values force)
                λ _.
                  sealed_then old values admin_id force
                    (check_keys-AllEditable svc.parsers values e)

    reset-Guarded : (key : String) (admin_id : ℕ) → Preserves Guarded (reset svc key admin_id)
    unfolding reset load_overrides snapshot
    reset-Guarded key admin_id = Preserves-bind _ _ (Preserves-lift _) λ _.
        Preserves-bind _ _ (Preserves-query _) λ overrides.
          Preserves-bind _ _ (Preserves-lift _) λ _.
            Preserves-bind _ _ (Preserves-step _ (λ s h. h)) λ old.
              Preserves-bind _ _ (delete_setting-Guarded old key (svc.env key) admin_id)
                (λ _. publish-Guarded (build svc (remove key overrides)))

    -- If the hooks leave the settings alone and every stored override is of an editable parameter, the
    -- secret ones are texts of the cipher and the audit trail shows no secret, then whatever calls fail
    -- or lose their answer, all of it is so again after a change or a reset.
    pub edit-IsGuarded :
        (e : Edit) (r : Run)
        → IsGuarded r.state.db.settings r.state.db.settings_audit
        → (let d = (edit svc e r).1.state.db in IsGuarded d.settings d.settings_audit)
    unfolding edit
    edit-IsGuarded (setting values admin_id force) r h = (set-Guarded values admin_id force).at r h
    edit-IsGuarded (resetting key admin_id) r h = (reset-Guarded key admin_id).at r h
