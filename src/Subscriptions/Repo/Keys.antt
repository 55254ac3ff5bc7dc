-- ===== src/Subscriptions/Repo/Keys.antt =====
-- internal/subscriptions/repo.go: the queries of the encrypted keys in the table credentials.
use apisix_developer_portal.Common.{
  ℕ, ◌+◌, String, Bool, none, some, List, [], ◌∷◌, str_eq, ◌==◌, not, if◌then◌else◌, find, any,
  update_where,
}
use apisix_developer_portal.Crypto.{Cipher}
use apisix_developer_portal.Db.{ApplicationRow, CredentialRow, Db}
use apisix_developer_portal.Effects.{
  not_found, failure, Result, ok, err, M, lift, query, exec, call, pure, ◌>>=◌,
}
use apisix_developer_portal.Subscriptions.Model.{Credential, consumer_name}

abbrev pub of_app : ℕ → CredentialRow → Bool
of_app app_id c = c.application_id == app_id

abbrev pub has_sandbox_key : CredentialRow → Bool
has_sandbox_key c = not (str_eq c.sandbox_api_key "")

-- `INSERT … ON CONFLICT (application_id) DO UPDATE … RETURNING`: the stored row, old or new.
unfoldable pub upsert_credential : ℕ → String → Db → CredentialRow × Db
upsert_credential app_id stored d = elim (find (of_app app_id) d.credentials) [
  | some c ↦ (c, d)
  | none ↦
      let c : CredentialRow = record {
        application_id = app_id;
        api_key = stored;
        consumer_username = consumer_name app_id;
        sandbox_api_key = "";
      } in
      (c, record d { credentials = c ∷ d.credentials })
]

module _ (cipher : Cipher) where
  -- `Encrypt` draws a nonce.
  unfoldable pub encrypt : String → M String
  encrypt plain =
      call (λ s. (ok (cipher.encrypt s.entropy plain), record s { entropy = s.entropy + 1 }))

  abbrev pub decrypt : String → Result String
  decrypt stored = elim (cipher.decrypt stored) [ none ↦ err failure | some plain ↦ ok plain ]

  -- The credential of a row, by one of its two keys.
  abbrev pub open_key : String → CredentialRow → Result Credential
  open_key stored c = elim (cipher.decrypt stored) [
    | none ↦ err failure
    | some plain ↦ ok (record {
      application_id = c.application_id;
      api_key = plain;
      consumer_username = c.consumer_username;
    })
  ]

  -- `gen_key` is the generator that the service passes in.
  unfoldable pub get_or_create_credential : ℕ → M String → M Credential
  unfolding encrypt upsert_credential
  get_or_create_credential app_id gen_key = do
    plain ← gen_key
    stored ← encrypt plain
    row ← exec λ d.
        if any (λ (a : ApplicationRow). a.id == app_id) d.applications
        then (let (c, d') = upsert_credential app_id stored d in (ok c, d'))
        else (err failure, d)
    lift (open_key row.api_key row)

  unfoldable pub get_credential : ℕ → M Credential
  get_credential app_id = do
    row ←
        query
          λ d. elim (find (of_app app_id) d.credentials) [ none ↦ err not_found | some c ↦ ok c ]
    lift (open_key row.api_key row)

  unfoldable pub update_credential_key : ℕ → String → M (Unit {0})
  unfolding encrypt
  update_credential_key app_id new_key = do
    stored ← encrypt new_key
    exec λ d.
        if any (of_app app_id) d.credentials
        then (
          ok tt,
          record d {
            credentials =
                update_where (of_app app_id) (λ (c : CredentialRow). record c { api_key = stored })
                  d.credentials;
          },
        )
        else (err not_found, d)

  unfoldable pub get_sandbox_key : ℕ → M String
  get_sandbox_key app_id = do
    stored ← query λ d. elim (find (of_app app_id) d.credentials) [
      | none ↦ err not_found
      | some c ↦ ok c.sandbox_api_key
    ]
    if str_eq stored "" then pure "" else lift (decrypt stored)

  unfoldable pub update_sandbox_key : ℕ → String → M (Unit {0})
  unfolding encrypt
  update_sandbox_key app_id key = do
    stored ← encrypt key
    exec λ d.
        if any (of_app app_id) d.credentials
        then (
          ok tt,
          record d {
            credentials =
                update_where (of_app app_id)
                  (λ (c : CredentialRow). record c { sandbox_api_key = stored }) d.credentials;
          },
        )
        else (err not_found, d)

  -- The loop over the rows that decrypts each of them, and stops at the first that does not open.
  unfoldable pub open_all : (CredentialRow → String) → List CredentialRow → Result (List Credential)
  open_all key [] = ok []
  open_all key (c ∷ cs) = elim (open_key (key c) c) [
    | err e ↦ err e
    | ok credential ↦ elim (open_all key cs) [
      | err e ↦ err e
      | ok credentials ↦ ok (credential ∷ credentials)
    ]
  ]
