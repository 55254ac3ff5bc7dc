-- ===== src/Auth/Lookups.antt =====
-- What the handlers learn from the store and from the settings.
use apisix_developer_portal.Common.{String, none, some, ◌≡◌, inl, inr, refl, find, Option-cases}
use apisix_developer_portal.Db.{UserRow}
use apisix_developer_portal.Effects.{not_found, Result, ok, err, State}
use apisix_developer_portal.Effects.Triple.{Triple, Triple-query, Triple-step, Triple-weaken}
use apisix_developer_portal.Auth.Repo.{User, view, has_email, get_by_email}
use apisix_developer_portal.Auth.Handler.{Handler, link_base, verification_on}

module _ (P : State → Type 0) where
  -- What is found of an address is the first row of it.
  pub found_row :
      (email : String)
      → Triple P
          (get_by_email email)
          (λ a s.
            P s
            × (u : UserRow) × (find (has_email email) s.db.users ≡ some u)
            × (a ≡ (view u, u.password_hash)))
          (λ _. Unit {0})
  unfolding get_by_email
  found_row email =
      Triple-weaken _ (Triple-query P (λ _. Unit {0}) _ (λ s p. tt)) (λ s p. p) stored (λ s p. p)
    where
      stored :
          (a : User × String) (s : State)
          → P s
            × ((elim (find (has_email email) s.db.users) as (λ _. Result (User × String)) [
              | none ↦ err not_found
              | some u ↦ ok (view u, u.password_hash)
            ])
                ≡ ok a)
          → P s
            × (u : UserRow) × (find (has_email email) s.db.users ≡ some u)
            × (a ≡ (view u, u.password_hash))
      stored a s (p, e) = elim (Option-cases (find (has_email email) s.db.users)) [
        | inl gone ↦ let k : err not_found ≡ ok a = rw gone at e in absurd (cc)
        | inr (u, there) ↦
            let k : ok (view u, u.password_hash) ≡ ok a = rw there at e in (p, u, there, cc)
      ]

  pub verification_on_lem :
      (h : Handler)
      → {R : State → Type 0}
      → Triple P (verification_on h) (λ on s. P s × (on ≡ link_base h.provider s.snapshot)) R
  unfolding verification_on
  verification_on_lem h = Triple-step _ (λ s p. (p, refl))
