-- ===== src/Subscriptions/Provisioning/Credentials.antt =====
-- Issuing and changing the keys of an application, and the invariant.
use mathlib.Core.List.Memᴰ.{head, tail}
use apisix_developer_portal.Common.{
  ℕ, String, true, List, ◌∷◌, Memᴰ, ◌≡◌, refl, ap, inl, inr, ◌∙◌, ◌==◌, ==_iff, any, update_where,
  update_where-mem, mem-update_where, find, find-mem, if◌then◌else◌, Bool-cases, Option-cases,
}
use apisix_developer_portal.Crypto.{Cipher}
use apisix_developer_portal.Db.{ProductRow, CredentialRow, SubscriptionRow, ApplicationRow, Db}
use apisix_developer_portal.Effects.{failure, Result, ok, err, State, M}
use apisix_developer_portal.Effects.Triple.{
  Post, Triple, Triple-bind, Triple-call, Triple-lift, Triple-weaken,
}
use apisix_developer_portal.Subscriptions.Model.{Credential, consumer_name}
use apisix_developer_portal.Subscriptions.Repo.{is_active}
use apisix_developer_portal.Subscriptions.Repo.Keys.{
  of_app, encrypt, upsert_credential, open_key, get_or_create_credential, update_credential_key,
  update_sandbox_key,
}
use apisix_developer_portal.Subscriptions.Provisioning.{HasCredential, IsProvisioned, Holds}
use apisix_developer_portal.Subscriptions.Provisioning.Tables.{credentials-IsProvisioned}
use apisix_developer_portal.Subscriptions.Provisioning.Quiet.{IsQuiet, encrypt-IsQuiet}
use apisix_developer_portal.Subscriptions.Provisioning.Requests.{
  Keeps, Keeps-call, Keeps-bind, Keeps-quiet,
}

-- A fact about the subscriptions and the products, which issuing a credential leaves alone.
abbrev pub KnownRows : Type 1
KnownRows = List SubscriptionRow → List ProductRow → Type 0

abbrev pub Rows : KnownRows → State → Type 0
Rows G s = G s.db.subscriptions s.db.products

module _ (G : KnownRows) (app_id : ℕ) where
  -- The row that the upsert returned is in the table and belongs to the application.
  abbrev Stored : CredentialRow → State → Type 0
  Stored c s = Holds s × Rows G s × Memᴰ c s.db.credentials × (c.application_id ≡ app_id)

  upsert_credential-Stored :
      (stored : String) (s : State)
      → Holds s × Rows G s
      → Stored
          (upsert_credential app_id stored s.db).0
          (record s { db = (upsert_credential app_id stored s.db).1 })
  unfolding upsert_credential
  upsert_credential-Stored stored s (h, g) =
      elim (Option-cases (find (of_app app_id) s.db.credentials)) [
        | inl e ↦ rw (e, upsert_credential) (grown, g, head refl, refl)
        | inr (c, e) ↦
            let (m, t) = find-mem (of_app app_id) s.db.credentials e in
            rw (e, upsert_credential) (h, g, m, (==_iff c.application_id app_id).0 t)
      ]
    where
      row : CredentialRow
      row = record {
        application_id = app_id;
        api_key = stored;
        consumer_username = consumer_name app_id;
        sandbox_api_key = "";
      }

      named :
          (c : CredentialRow)
          → Memᴰ c (row ∷ s.db.credentials)
          → c.consumer_username ≡ consumer_name c.application_id
      named c (head e) = rw e refl
      named c (tail m) = h.named c m

      grown :
          IsProvisioned s.db.subscriptions s.db.next_subscription s.db.plans s.db.products
            (row ∷ s.db.credentials)
            s.gw
      grown =
          credentials-IsProvisioned (row ∷ s.db.credentials) named (λ r m a c. (c.0, tail c.1, c.2))
            h

  -- The credential that is answered names the application's consumer, and its row is there.
  abbrev pub Issued : Credential → State → Type 0
  Issued cred s =
      Holds s
      × Rows G s
      × HasCredential s.db.credentials app_id
      × (cred.consumer_username ≡ consumer_name app_id)

  open_key-Issued :
      (cipher : Cipher) (c : CredentialRow) (s : State)
      → Stored c s
      → Post Issued Holds (open_key cipher c.api_key c) s
  open_key-Issued cipher c s (h, g, m, o) = elim (Option-cases (cipher.decrypt c.api_key)) [
    | inl e ↦ rw (e, Post) h
    | inr (plain, e) ↦ rw (e, Post) (h, g, (c, m, o), h.named c m ∙ ap consumer_name o)
  ]

  pub get_or_create_credential-Issued :
      (cipher : Cipher) (gen_key : M String)
      → IsQuiet gen_key
      → Triple
          (λ s. Holds s × Rows G s)
          (get_or_create_credential cipher app_id gen_key)
          Issued
          Holds
  unfolding get_or_create_credential
  get_or_create_credential-Issued cipher gen_key quiet =
      Triple-bind gen_key _ (calm gen_key quiet) λ plain.
        Triple-bind (encrypt cipher plain) _
          (calm (encrypt cipher plain) (encrypt-IsQuiet cipher plain))
          λ stored.
            Triple-bind _ _
              (Triple-call _ (λ s p. p.0) (λ s p. (effect stored s p).0)
                (λ s p. (effect stored s p).1))
              λ c. Triple-lift _ (λ s p. open_key-Issued cipher c s p)
    where
      calm :
          (m : M String)
          → IsQuiet m
          → Triple (λ s. Holds s × Rows G s) m (λ _ s. Holds s × Rows G s) Holds
      calm m q =
          Triple-weaken m
            (q.keeps (λ ss next pl ps cs gw. IsProvisioned ss next pl ps cs gw × G ss ps))
            (λ s p. p) (λ _ s p. p) (λ s p. p.0)

      effect :
          (stored : String) (s : State)
          → Holds s × Rows G s
          → let hit = any (λ (a : ApplicationRow). a.id == app_id) s.db.applications in
            let (c, d') = upsert_credential app_id stored s.db in
            let (x, d) : Result CredentialRow × Db =
              if hit then (ok c, d') else (err failure, s.db) in
            Holds (record s { db = d }) × Post Stored Holds x (record s { db = d })
      effect stored s p =
          elim (Bool-cases (any (λ (a : ApplicationRow). a.id == app_id) s.db.applications)) [
            | inl t ↦
                let stored_row = upsert_credential-Stored stored s p in
                rw t (stored_row.0, stored_row)
            | inr t ↦ rw t (p.0, p.0)
          ]

-- A change of a credential's keys.
keys-Holds :
    (f : CredentialRow → CredentialRow)
    → ((c : CredentialRow)
        → ((f c).application_id ≡ c.application_id)
          × ((f c).consumer_username ≡ c.consumer_username))
    → (app_id : ℕ) (s : State) → Holds s
    → Holds (record s {
      db = record s.db { credentials = update_where (of_app app_id) f s.db.credentials };
    })
keys-Holds f same app_id s h =
    credentials-IsProvisioned (update_where (of_app app_id) f s.db.credentials) named kept h
  where
    named :
        (c : CredentialRow)
        → Memᴰ c (update_where (of_app app_id) f s.db.credentials)
        → c.consumer_username ≡ consumer_name c.application_id
    named c m =
        let (b, n, o) = update_where-mem (of_app app_id) f c s.db.credentials m in
        elim o [
          | inl (_, e) ↦ rw (e, (same b).0, (same b).1) (h.named b n)
          | inr (_, e) ↦ rw e (h.named b n)
        ]

    kept :
        (r : SubscriptionRow)
        → Memᴰ r s.db.subscriptions
        → is_active r ≡ true
        → HasCredential s.db.credentials r.application_id
        → HasCredential (update_where (of_app app_id) f s.db.credentials) r.application_id
    kept r m a (c, n, o) = (
      if of_app app_id c then f c else c,
      mem-update_where (of_app app_id) f s.db.credentials n,
      elim (Bool-cases (of_app app_id c)) [ inl t ↦ rw t ((same c).0 ∙ o) | inr t ↦ rw t o ],
    )

pub update_credential_key-Keeps :
    (cipher : Cipher) (app_id : ℕ) (key : String) → Keeps (update_credential_key cipher app_id key)
unfolding update_credential_key
update_credential_key-Keeps cipher app_id key =
    Keeps-bind (encrypt cipher key) _ (Keeps-quiet _ (encrypt-IsQuiet cipher key)) λ stored.
      Keeps-call _ λ s h. elim (Bool-cases (any (of_app app_id) s.db.credentials)) [
        | inl t ↦ rw t (
            keys-Holds (λ (c : CredentialRow). record c { api_key = stored }) (λ c. (refl, refl))
              app_id s h)
        | inr t ↦ rw t h
      ]

pub update_sandbox_key-Keeps :
    (cipher : Cipher) (app_id : ℕ) (key : String) → Keeps (update_sandbox_key cipher app_id key)
unfolding update_sandbox_key
update_sandbox_key-Keeps cipher app_id key =
    Keeps-bind (encrypt cipher key) _ (Keeps-quiet _ (encrypt-IsQuiet cipher key)) λ stored.
      Keeps-call _ λ s h. elim (Bool-cases (any (of_app app_id) s.db.credentials)) [
        | inl t ↦ rw t (
            keys-Holds (λ (c : CredentialRow). record c { sandbox_api_key = stored })
              (λ c. (refl, refl)) app_id s h)
        | inr t ↦ rw t h
      ]
