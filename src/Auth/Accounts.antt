-- ===== src/Auth/Accounts.antt =====
-- The operations of the table of users (internal/auth/repo.go), and what they keep of its rows and
-- of the personal teams.
use mathlib.Core.List.Memᴰ.{head, tail}
use apisix_developer_portal.Common.{
  ℕ, ◌+◌, ◌≤◌, ◌<◌, String, Bool, false, Option, none, some, List, ◌∷◌, Memᴰ, ◌≡◌, inl, inr, refl,
  sym, ap, subst, ◌∙◌, eq_iff, if◌then◌else◌, length, select, any, update_where, update_where-mem,
  Bool-cases, arith,
}
use apisix_developer_portal.Common.Counting.{count-any, count-update_where}
use apisix_developer_portal.Db.{UserRow}
use apisix_developer_portal.Effects.{
  already_verified, account_not_found, ok, State, Run, M, pure, raise, query, ◌>>=◌,
}
use apisix_developer_portal.Effects.Preserves.{
  Preserves, Preserves-call, Preserves-bind, Preserves-query, Preserves-pure, Preserves-raise,
  Preserves-if,
}
use apisix_developer_portal.Teams.Owners.{IsOwned, created-IsOwned}
use apisix_developer_portal.Auth.Repo.{
  User, has_email, has_id, new_user, create_account, carries, verified, verify_by_token_hash,
  awaits, with_token, store_token, reset_verify_token, set_language, ensure_admin_role,
}

-- The unique index on addresses, and the sequence behind the ids.
pub record IsDirectory (users : List UserRow) (next : ℕ) : Type 0 where
  pub addresses : (email : String) → length (select (has_email email) users) ≤ 1
  pub numbered : (u : UserRow) → Memᴰ u users → u.id < next

-- With it, what the portal keeps of teams.
pub record IsSettled (s : State) : Type 0 where
  pub directory : IsDirectory s.db.users s.db.next_user
  pub owned : IsOwned s.db.teams s.db.members s.db.next_team

-- A change of rows that keeps ids and addresses.
pub record IsQuietChange (f : UserRow → UserRow) : Type 0 where
  pub same_id : (u : UserRow) → (f u).id ≡ u.id
  pub same_email : (u : UserRow) → (f u).email ≡ u.email

module _ (q : UserRow → Bool) (f : UserRow → UserRow) (quiet : IsQuietChange f) where
  updated-IsDirectory :
      (users : List UserRow) (next : ℕ)
      → IsDirectory users next
      → IsDirectory (update_where q f users) next
  updated-IsDirectory users next h = record {
    addresses = λ email.
        let kept =
          count-update_where (has_email email) q f (λ u _ t. rw (quiet.same_email u) at t) users in
        let one = h.addresses email in omega arith;
    numbered = λ u there.
        let (old, m, how) = update_where-mem q f u users there in
        let below = h.numbered old m in
        elim how [
          | inl (t, e) ↦
              subst (λ n. n < next) (sym (ap (λ (x : UserRow). x.id) e ∙ quiet.same_id old)) below
          | inr (t, e) ↦ subst (λ (x : UserRow). x.id < next) (sym e) below
        ];
  }

  updated-IsSettled :
      (s : State)
      → IsSettled s
      → IsSettled (record s { db = record s.db { users = update_where q f s.db.users } })
  updated-IsSettled s h = record {
    directory = updated-IsDirectory s.db.users s.db.next_user h.directory;
    owned = h.owned;
  }

added-IsDirectory :
    (u : UserRow) (users : List UserRow) (next : ℕ)
    → u.id ≡ next
    → any (has_email u.email) users ≡ false
    → IsDirectory users next
    → IsDirectory (u ∷ users) (next + 1)
added-IsDirectory u users next e fresh h = record {
  addresses = λ email. elim (Bool-cases (has_email email u)) [
    | inr t ↦ rw t (h.addresses email)
    | inl t ↦
        let unused : any (has_email email) users ≡ false =
          subst (λ x. any (has_email x) users ≡ false) ((eq_iff u.email email).0 t) fresh in
        let zero_there = count-any (has_email email) users unused in rw t (omega arith)
  ];
  numbered = λ x there. elim there [
    | head same ↦
        subst (λ n. n < next + 1) (sym (ap (λ (y : UserRow). y.id) same ∙ e)) (omega arith)
    | tail m ↦ let below = h.numbered x m in omega arith
  ];
}

create_account-Settled :
    (email password_hash name lang : String) (token : Option (String × ℕ))
    → Preserves IsSettled (create_account email password_hash name lang token)
unfolding create_account new_user
create_account-Settled email password_hash name lang token = Preserves-call _ λ s h.
    elim (Bool-cases (any (has_email email) s.db.users)) [
      | inl t ↦ rw t h
      | inr t ↦ rw t (record {
        directory = added-IsDirectory _ s.db.users s.db.next_user refl t h.directory;
        owned =
            created-IsOwned _ s.db.next_user s.db.teams s.db.members s.db.next_team refl h.owned;
      })
    ]

verify-Settled : (hash : String) → Preserves IsSettled (verify_by_token_hash hash)
unfolding verify_by_token_hash
verify-Settled hash = Preserves-call _ λ s h.
    elim (Bool-cases (any (carries hash s.db.now) s.db.users)) [
      | inr t ↦ rw t h
      | inl t ↦ rw t (
          updated-IsSettled (carries hash s.db.now) verified
            (record { same_id = λ u. refl; same_email = λ u. refl }) s h)
    ]

pub reset-Preserves :
    (P : State → Type 0) (email hash : String) (expires_at : ℕ)
    → Preserves P (store_token email hash expires_at)
    → Preserves P (reset_verify_token email hash expires_at)
unfolding reset_verify_token
reset-Preserves P email hash expires_at stored = Preserves-bind _ _ stored answer
  where
    answer :
        (updated : Option User)
        → Preserves {A = User} P (elim updated [
          | some u ↦ pure u
          | none ↦ query (λ d. ok (any (has_email email) d.users)) >>= λ exists.
              if exists then raise already_verified else raise account_not_found
        ])
    answer (some u) = Preserves-pure u
    answer none =
        Preserves-bind _ _ (Preserves-query _)
          (λ exists. Preserves-if _ _ _ (Preserves-raise _) (Preserves-raise _))

store_token-Settled :
    (email hash : String) (expires_at : ℕ) → Preserves IsSettled (store_token email hash expires_at)
unfolding store_token
store_token-Settled email hash expires_at = Preserves-call _ (
    updated-IsSettled (awaits email) (with_token hash expires_at)
      (record { same_id = λ u. refl; same_email = λ u. refl }))

set_language-Settled : (uid : ℕ) (lang : String) → Preserves IsSettled (set_language uid lang)
unfolding set_language
set_language-Settled uid lang = Preserves-call _ (
    updated-IsSettled (has_id uid) (λ u. record u { language = lang })
      (record { same_id = λ u. refl; same_email = λ u. refl }))

ensure_admin_role-Settled : (email : String) → Preserves IsSettled (ensure_admin_role email)
unfolding ensure_admin_role
ensure_admin_role-Settled email = Preserves-call _ (
    updated-IsSettled (has_email email) (λ u. record u { role = "admin" })
      (record { same_id = λ u. refl; same_email = λ u. refl }))

-- The operations on accounts.
pub data Operation : Type 0 where
  creating : String → String → String → String → Option (String × ℕ) → Operation
  verifying : String → Operation
  renewing : String → String → ℕ → Operation
  speaking : ℕ → String → Operation
  promoting : String → Operation

unfoldable pub operate : Operation → M (Unit {0})
operate (creating email password_hash name lang token) =
    create_account email password_hash name lang token >>= λ _. pure tt
operate (verifying hash) = verify_by_token_hash hash
operate (renewing email hash expires_at) = reset_verify_token email hash expires_at >>= λ _. pure tt
operate (speaking uid lang) = set_language uid lang
operate (promoting email) = ensure_admin_role email

operated : (o : Operation) → Preserves IsSettled (operate o)
unfolding operate
operated (creating email password_hash name lang token) =
    Preserves-bind _ _ (create_account-Settled email password_hash name lang token)
      (λ _. Preserves-pure tt)
operated (verifying hash) = verify-Settled hash
operated (renewing email hash expires_at) =
    Preserves-bind _ _
      (reset-Preserves _ email hash expires_at (store_token-Settled email hash expires_at))
      (λ _. Preserves-pure tt)
operated (speaking uid lang) = set_language-Settled uid lang
operated (promoting email) = ensure_admin_role-Settled email

-- If no two users share an address, the ids of users are below the next one, and each team has an
-- owner, with unique pairs of members and ids below the next one, then whatever calls fail, the
-- creation of an account, the verification of an address, a new token, a change of language and the
-- promotion of an administrator keep it so.
pub operate-IsSettled :
    (o : Operation) (r : Run) → IsSettled r.state → IsSettled (operate o r).1.state
operate-IsSettled o r h = (operated o).at r h
