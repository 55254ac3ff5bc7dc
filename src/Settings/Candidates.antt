-- ===== src/Settings/Candidates.antt =====
-- internal/settings/service.go: the candidate of a change, beside what a boot loads once the change
-- is stored.
use mathlib.Core.Path.{fun_ext}
use apisix_developer_portal.Common.{
  ◌+◌, ℕ, String, Bool, true, false, Option, some, List, [], ◌∷◌, ◌≡◌, inl, inr, refl, sym, ap,
  subst, ◌∙◌, str_eq, if◌then◌else◌, Bool-cases, Option-cases, eq_iff,
}
use apisix_developer_portal.Db.{SettingRow}
use apisix_developer_portal.Effects.{State}
use apisix_developer_portal.Effects.Triple.{Triple, Triple-if, Triple-call, Triple-pure}
use apisix_developer_portal.Settings.Registry.{lookup}
use apisix_developer_portal.Settings.Service.{
  Service, Values, put, row_value, load_rows, is_known, is_secret, build, candidate, Change, sealed,
  seal, upsert_setting, upsert_changes,
}
use apisix_developer_portal.Settings.Overrides.{
  IsMap, is_editable, AllEditable, put_all, load-upsert, put_all-fresh,
}

-- Each change stores what reads back as the value.
abbrev pub Sealed : Service → Values → List Change → Type 0
Sealed svc [] [] = Unit
Sealed svc [] (c ∷ changes) = ⊥
Sealed svc ((k, v) ∷ values) [] = ⊥
Sealed svc ((k, v) ∷ values) (c ∷ changes) =
    (c.key ≡ k)
    × ((by : ℕ)
        → row_value svc (record { key = c.key; value = c.stored; updated_by = by }) ≡ some v)
    × Sealed svc values changes

pub known_of_editable : (k : String) → is_editable k ≡ true → is_known k ≡ true
known_of_editable k h = elim (Option-cases (lookup k)) [
  | inl e ↦ let no_entry : false ≡ true = rw (e, is_editable) at h in cc
  | inr (d, e) ↦ rw (e, is_known) refl
]

module _ (svc : Service) where
  module _ (k v : String) (out : String → Option String) (known : is_known k ≡ true) where
    put-values :
        (j : String)
        → (if str_eq j k then v else (build svc out).values j) ≡ (build svc (put k v out)).values j
    unfolding build
    put-values j = elim (Bool-cases (str_eq j k)) [
      | inr t ↦ rw t refl
      | inl t ↦
          let there : is_known j ≡ true =
            subst (λ x. is_known x ≡ true) (sym ((eq_iff j k).0 t)) known in
          rw (t, there) refl
    ]

    put-source :
        (j : String)
        → (if str_eq j k then "db" else (build svc out).source j)
          ≡ (build svc (put k v out)).source j
    unfolding build
    put-source j = elim (Bool-cases (str_eq j k)) [
      | inr t ↦ rw t refl
      | inl t ↦
          let there : is_known j ≡ true =
            subst (λ x. is_known x ≡ true) (sym ((eq_iff j k).0 t)) known in
          rw (t, there) refl
    ]

  pub candidate-build :
      (values : Values) (out : String → Option String)
      → AllEditable values
      → candidate values (build svc out) ≡ build svc (put_all values out)
  unfolding candidate
  candidate-build [] out known = refl
  candidate-build ((k, v) ∷ values) out (known, rest) =
      let ih = candidate-build values out rest in
      let there = known_of_editable k known in
      rw ih (λ i. record {
        values = fun_ext (put-values k v (put_all values out) there) i;
        source = fun_ext (put-source k v (put_all values out) there) i;
      })

  pub load-upsert_changes :
      (by : ℕ) (values : Values) (changes : List Change) (rows : List SettingRow)
      → IsMap values
      → Sealed svc values changes
      → load_rows svc (upsert_changes by changes rows) ≡ put_all values (load_rows svc rows)
  unfolding upsert_changes
  load-upsert_changes by [] [] rows m sealed = refl
  load-upsert_changes by [] (c ∷ changes) rows m sealed = elim sealed [ ]
  load-upsert_changes by ((k, v) ∷ values) [] rows m sealed = elim sealed [ ]
  load-upsert_changes by ((k, v) ∷ values) (c ∷ changes) rows (fresh, m) (e, read, sealed) =
      let row : SettingRow = record { key = c.key; value = c.stored; updated_by = by } in
      let later = load-upsert_changes by values changes (upsert_setting row rows) m sealed in
      let now : load_rows svc (upsert_setting row rows) ≡ put k v (load_rows svc rows) =
        fun_ext (λ j.
          load-upsert svc row v rows (read by) j
          ∙ ap (λ key. put key v (load_rows svc rows) j) e) in
      later
      ∙ ap (put_all values) now
      ∙ fun_ext (put_all-fresh k v values (load_rows svc rows) fresh)

  one_flag :
      (b : Bool) (v : String) (n : ℕ)
      → (if b
          then svc.cipher.decrypt (if b then svc.cipher.encrypt n v else v)
          else some (if b then svc.cipher.encrypt n v else v))
        ≡ some v
  one_flag true v n = svc.cipher.decrypt-encrypt n v
  one_flag false v n = refl

  pub sealed-reads :
      (k v : String) (n by : ℕ)
      → is_known k ≡ true
      → row_value svc (record { key = k; value = sealed svc k v n; updated_by = by }) ≡ some v
  unfolding sealed row_value
  sealed-reads k v n by known = elim (Option-cases (lookup k)) [
    | inl e ↦ let no_entry : false ≡ true = rw (e, is_known) at known in cc
    | inr (d, e) ↦
        let flag : is_secret k ≡ d.secret = rw (e, is_secret) refl in
        rw (e, row_value)
          (subst
            (λ b.
              (if d.secret
                then svc.cipher.decrypt (if b then svc.cipher.encrypt n v else v)
                else some (if b then svc.cipher.encrypt n v else v))
              ≡ some v)
            (sym flag) (one_flag d.secret v n))
  ]

-- The text to store, whatever nonce it is sealed with, or an error of the cipher.
pub seal-Triple :
    (svc : Service) (P R : State → Type 0) (F : String → Type 0) (key value : String)
    → ((s : State) (n : ℕ) → P s → P (record s { entropy = n }))
    → ((s : State) → P s → R s)
    → ((n : ℕ) → F (sealed svc key value n))
    → Triple P (seal svc key value) (λ stored s. P s × F stored) R
unfolding seal sealed
seal-Triple svc P R F key value moved failed fits =
    Triple-if (is_secret key) _ _
      (λ secret.
        Triple-call _ failed (λ s p. failed _ (moved s (s.entropy + 1) p))
          (λ s p. (moved s (s.entropy + 1) p, fits s.entropy)))
      λ shown.
        Triple-pure _ λ s p.
          (p, subst (λ b. F (if b then svc.cipher.encrypt 0 value else value)) shown (fits 0))
