-- ===== src/Settings/Overrides.antt =====
-- What a boot loads from the stored overrides after they were changed.
use apisix_developer_portal.Common.{
  String, Bool, true, false, Option, none, some, List, [], ◌∷◌, ◌≡◌, inl, inr, refl, str_eq,
  if◌then◌else◌, any, delete_where, Bool-cases, Option-cases, eq_iff, arith,
}
use apisix_developer_portal.Common.Texts.{text_lt}
use apisix_developer_portal.Db.{SettingRow}
use apisix_developer_portal.Effects.{Error, unknown_key, Result, ok, err}
use apisix_developer_portal.Settings.Registry.{Parsers, lookup, validate}
use apisix_developer_portal.Settings.Service.{
  Service, Values, put, remove, row_value, load_rows, upsert_setting, insert_key, sort_keys,
  note_error, check_sorted, check_keys,
}

-- The keys of a map are distinct.
abbrev pub IsMap : Values → Type 0
IsMap [] = Unit
IsMap ((k, v) ∷ values) =
    (any (λ (kv : String × String). str_eq kv.0 k) values ≡ false) × IsMap values

abbrev pub is_editable : String → Bool
is_editable key = elim (lookup key) [ none ↦ false | some d ↦ d.editable ]

abbrev pub AllEditable : Values → Type 0
AllEditable [] = Unit
AllEditable ((k, v) ∷ values) = (is_editable k ≡ true) × AllEditable values

-- A map over what is there.
abbrev pub put_all : Values → (String → Option String) → String → Option String
put_all [] out = out
put_all ((k, v) ∷ values) out = put k v (put_all values out)

insert_key-AllEditable :
    (k v : String) (values : Values)
    → AllEditable (insert_key (k, v) values)
    → (is_editable k ≡ true) × AllEditable values
unfolding insert_key
insert_key-AllEditable k v [] h = h
insert_key-AllEditable k v ((j, w) ∷ values) h = elim (Bool-cases (text_lt j k)) [
  | inr t ↦ rw t at h
  | inl t ↦
      let kept : (is_editable j ≡ true) × AllEditable (insert_key (k, v) values) = rw t at h in
      let (e, rest) = insert_key-AllEditable k v values kept.1 in (e, (kept.0, rest))
]

sort_keys-AllEditable : (values : Values) → AllEditable (sort_keys values) → AllEditable values
unfolding sort_keys
sort_keys-AllEditable [] h = tt
sort_keys-AllEditable ((k, v) ∷ values) h =
    let (e, rest) = insert_key-AllEditable k v (sort_keys values) h in
    (e, sort_keys-AllEditable values rest)

unless_refused :
    (b : Bool) (x : Result (Unit {0})) (e : Error)
    → (if b then x else err e) ≡ ok tt
    → (b ≡ true) × (x ≡ ok tt)
unless_refused true x e h = (refl, h)
unless_refused false x e h = cc

check_sorted-AllEditable :
    (p : Parsers) (errors values : Values)
    → check_sorted p errors values ≡ ok tt
    → AllEditable values
unfolding check_sorted
check_sorted-AllEditable p errors [] h = tt
check_sorted-AllEditable p errors ((k, v) ∷ values) h = elim (Option-cases (lookup k)) [
  | inl none_there ↦ let k : err (unknown_key k) ≡ ok tt = rw (none_there, check_sorted) at h in cc
  | inr (d, there) ↦
      let (allowed, rest) = unless_refused d.editable _ _ (rw (there, check_sorted) at h) in
      (
        rw (there, is_editable) allowed,
        check_sorted-AllEditable p (note_error k (validate p d v) errors) values rest,
      )
]

pub check_keys-AllEditable :
    (p : Parsers) (values : Values) → check_keys p values ≡ ok tt → AllEditable values
unfolding check_keys
check_keys-AllEditable p values h =
    sort_keys-AllEditable values (check_sorted-AllEditable p [] (sort_keys values) h)

module _ (svc : Service) where
  pub load-upsert :
      (row : SettingRow) (v : String) (rows : List SettingRow)
      → row_value svc row ≡ some v
      → (j : String)
      → load_rows svc (upsert_setting row rows) j ≡ put row.key v (load_rows svc rows) j
  unfolding load_rows upsert_setting
  load-upsert row v [] read j = rw read refl
  load-upsert row v (r ∷ rows) read j = elim (Bool-cases (str_eq r.key row.key)) [
    | inl t ↦ elim (Option-cases (row_value svc r)) [
      | inl e ↦ rw (t, e, read) refl
      | inr (w, e) ↦
          rw (t, e, read) (ground (arith, eq_iff r.key row.key, eq_iff j row.key, eq_iff j r.key))
    ]
    | inr t ↦
        let rest = load-upsert row v rows read j in
        elim (Option-cases (row_value svc r)) [
          | inl e ↦ rw (t, e) rest
          | inr (w, e) ↦
              rw (t, e) (ground (arith, eq_iff r.key row.key, eq_iff j row.key, eq_iff j r.key))
        ]
  ]

  pub load-delete :
      (key : String) (rows : List SettingRow) (j : String)
      → load_rows svc (delete_where (λ (r : SettingRow). str_eq r.key key) rows) j
        ≡ remove key (load_rows svc rows) j
  unfolding load_rows
  load-delete key [] j = ground (arith, eq_iff j key)
  load-delete key (r ∷ rows) j =
      let rest = load-delete key rows j in
      elim (Bool-cases (str_eq r.key key)) [
        | inl t ↦ elim (Option-cases (row_value svc r)) [
          | inl e ↦ rw (t, e) rest
          | inr (w, e) ↦ rw (t, e) (ground (arith, eq_iff r.key key, eq_iff j key, eq_iff j r.key))
        ]
        | inr t ↦ elim (Option-cases (row_value svc r)) [
          | inl e ↦ rw (t, e) rest
          | inr (w, e) ↦ rw (t, e) (ground (arith, eq_iff r.key key, eq_iff j key, eq_iff j r.key))
        ]
      ]

pub put_all-fresh :
    (k v : String) (values : Values) (out : String → Option String)
    → any (λ (kv : String × String). str_eq kv.0 k) values ≡ false
    → (j : String) → put_all values (put k v out) j ≡ put k v (put_all values out) j
put_all-fresh k v [] out fresh j = refl
put_all-fresh k v ((i, w) ∷ values) out fresh j =
    ground (arith, eq_iff j k, eq_iff j i, eq_iff i k, put_all-fresh k v values out _ j)
