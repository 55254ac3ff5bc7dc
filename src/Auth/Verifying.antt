-- ===== src/Auth/Verifying.antt =====
-- internal/auth/repo.go: the tokens of verification links over time.
use apisix_developer_portal.Common.{
  ℕ, ◌≤◌, String, Bool, false, Option, none, some, List, [], ◌∷◌, ◌≡◌, ◌≢◌, inl, inr, refl, ap,
  subst, ◌∙◌, str_eq, eq_iff, any, update_where, Bool-cases, arith,
}
use apisix_developer_portal.Db.{UserRow}
use apisix_developer_portal.Effects.{ok, State, Run, Fault}
use apisix_developer_portal.Effects.Triple.{Post, Triple, Triple-call}
use apisix_developer_portal.Effects.Preserves.{
  Preserves, Preserves-call, Preserves-bind, Preserves-pure,
}
use apisix_developer_portal.Auth.Repo.{
  has_email, has_id, new_user, create_account, carries, verified, text_is, is_later,
  verify_by_token_hash, awaits, with_token, store_token, set_language, ensure_admin_role,
}
use apisix_developer_portal.Auth.Accounts.{
  reset-Preserves, Operation, creating, verifying, renewing, speaking, promoting, operate,
}

-- Nobody carries the token at any time from now on.
abbrev IsBurnt : String → ℕ → List UserRow → Type 0
IsBurnt hash now users = (later : ℕ) → now ≤ later → any (carries hash later) users ≡ false

expired :
    (now later : ℕ) (t : Option ℕ) → now ≤ later → is_later now t ≡ false → is_later later t ≡ false
expired now later none after h = refl
expired now later (some t) after h = ground arith

not_yet :
    (hash : String) (now later : ℕ) (u : UserRow)
    → now ≤ later
    → carries hash now u ≡ false
    → carries hash later u ≡ false
not_yet hash now later u after t = elim (Bool-cases (text_is hash u.verify_token_hash)) [
  | inr e ↦ rw e refl
  | inl e ↦
      let old : is_later now u.verify_token_expires_at ≡ false = rw e at t in
      rw e (expired now later u.verify_token_expires_at after old)
]

verified-IsBurnt :
    (hash : String) (now : ℕ) (users : List UserRow)
    → IsBurnt hash now (update_where (carries hash now) verified users)
verified-IsBurnt hash now [] later after = refl
verified-IsBurnt hash now (u ∷ users) later after =
    let rest = verified-IsBurnt hash now users later after in
    elim (Bool-cases (carries hash now u)) [
      | inl t ↦ rw t rest
      | inr t ↦ rw (t, not_yet hash now later u after t) rest
    ]

verify-Burnt :
    (hash : String)
    → Triple
        (λ _. Unit {0})
        (verify_by_token_hash hash)
        (λ _ s. IsBurnt hash s.db.now s.db.users)
        (λ _. Unit {0})
unfolding verify_by_token_hash
verify-Burnt hash =
    Triple-call _ (λ s p. tt) (λ s p. tt)
      λ s p. elim (Bool-cases (any (carries hash s.db.now) s.db.users)) [
        | inr t ↦ rw t tt
        | inl t ↦ rw t (verified-IsBurnt hash s.db.now s.db.users)
      ]

-- A verification that succeeds needs someone who carries the token.
verify-needs :
    (hash : String)
    → Triple
        (λ s. any (carries hash s.db.now) s.db.users ≡ false)
        (verify_by_token_hash hash)
        (λ _ _. ⊥)
        (λ _. Unit {0})
unfolding verify_by_token_hash
verify-needs hash = Triple-call _ (λ s p. tt) (λ s p. tt) (λ s p. rw p tt)

-- The operation stores no token of this hash.
abbrev pub Spares : String → Operation → Type 0
Spares hash (creating email password_hash name lang none) = Unit {0}
Spares hash (creating email password_hash name lang (some (stored, expires_at))) = stored ≢ hash
Spares hash (renewing email stored expires_at) = stored ≢ hash
Spares hash o = Unit {0}

-- The states that are reached without a new token of this hash: by operations on accounts, whatever
-- calls of theirs fail, while time goes on, and whatever else changes around the table of users.
pub data Later (hash : String) (s : State) : State → Type 0 where
  now : Later hash s s
  operated :
      {t : State} (o : Operation) (faults : List Fault)
      → Spares hash o
      → Later hash s t
      → Later hash s (operate o (record { state = t; faults = faults })).1.state
  elsewhere :
      {t : State} (t' : State)
      → t'.db.users ≡ t.db.users
      → t.db.now ≤ t'.db.now
      → Later hash s t
      → Later hash s t'

abbrev Burnt : String → State → Type 0
Burnt hash s = IsBurnt hash s.db.now s.db.users

other_text : (x y : String) → x ≢ y → str_eq x y ≡ false
other_text x y apart = elim (Bool-cases (str_eq x y)) [
  | inl t ↦ absurd (apart ((eq_iff x y).0 t))
  | inr t ↦ t
]

updated-unburnt :
    (hash : String) (later : ℕ) (q : UserRow → Bool) (f : UserRow → UserRow) (users : List UserRow)
    → ((u : UserRow) → carries hash later u ≡ false → carries hash later (f u) ≡ false)
    → any (carries hash later) users ≡ false
    → any (carries hash later) (update_where q f users) ≡ false
updated-unburnt hash later q f [] spares h = refl
updated-unburnt hash later q f (u ∷ users) spares h =
    let here : carries hash later u ≡ false = ground arith in
    let others : any (carries hash later) users ≡ false = ground arith in
    let changed = spares u here in
    let rest = updated-unburnt hash later q f users spares others in
    elim (Bool-cases (q u)) [ inl t ↦ rw (t, changed) rest | inr t ↦ rw (t, here) rest ]

module _ (hash : String) where
  added-Burnt :
      (next : ℕ) (email password_hash name lang : String) (token : Option (String × ℕ)) (later : ℕ)
      → Spares hash (creating email password_hash name lang token)
      → carries hash later (new_user next email password_hash name lang token) ≡ false
  unfolding new_user
  added-Burnt next email password_hash name lang none later spares = refl
  added-Burnt next email password_hash name lang (some (stored, expires_at)) later spares =
      rw (other_text stored hash spares) refl

  create-Burnt :
      (email password_hash name lang : String) (token : Option (String × ℕ))
      → Spares hash (creating email password_hash name lang token)
      → Preserves (Burnt hash) (create_account email password_hash name lang token)
  unfolding create_account
  create-Burnt email password_hash name lang token spares = Preserves-call _ λ s h.
      elim (Bool-cases (any (has_email email) s.db.users)) [
        | inl t ↦ rw t h
        | inr t ↦ rw t λ later after.
            rw (added-Burnt s.db.next_user email password_hash name lang token later spares)
              (h later after)
      ]

  verify-Burnt_kept : (other : String) → Preserves (Burnt hash) (verify_by_token_hash other)
  unfolding verify_by_token_hash
  verify-Burnt_kept other = Preserves-call _ λ s h.
      elim (Bool-cases (any (carries other s.db.now) s.db.users)) [
        | inr t ↦ rw t h
        | inl t ↦ rw t λ later after.
            updated-unburnt hash later (carries other s.db.now) verified s.db.users (λ u e. refl)
              (h later after)
      ]

  store-Burnt :
      (email stored : String) (expires_at : ℕ)
      → stored ≢ hash
      → Preserves (Burnt hash) (store_token email stored expires_at)
  unfolding store_token
  store-Burnt email stored expires_at spares = Preserves-call _ λ s h later after.
      updated-unburnt hash later (awaits email) (with_token stored expires_at) s.db.users
        (λ u e. rw (other_text stored hash spares) refl) (h later after)

  language-Burnt : (uid : ℕ) (lang : String) → Preserves (Burnt hash) (set_language uid lang)
  unfolding set_language
  language-Burnt uid lang = Preserves-call _ λ s h later after.
      updated-unburnt hash later (has_id uid) (λ u. record u { language = lang }) s.db.users
        (λ u e. e) (h later after)

  admin-Burnt : (email : String) → Preserves (Burnt hash) (ensure_admin_role email)
  unfolding ensure_admin_role
  admin-Burnt email = Preserves-call _ λ s h later after.
      updated-unburnt hash later (has_email email) (λ u. record u { role = "admin" }) s.db.users
        (λ u e. e) (h later after)

  operate-Burnt : (o : Operation) → Spares hash o → Preserves (Burnt hash) (operate o)
  unfolding operate
  operate-Burnt (creating email password_hash name lang token) spares =
      Preserves-bind _ _ (create-Burnt email password_hash name lang token spares)
        (λ _. Preserves-pure tt)
  operate-Burnt (verifying other) spares = verify-Burnt_kept other
  operate-Burnt (renewing email stored expires_at) spares =
      Preserves-bind _ _
        (reset-Preserves _ email stored expires_at (store-Burnt email stored expires_at spares))
        (λ _. Preserves-pure tt)
  operate-Burnt (speaking uid lang) spares = language-Burnt uid lang
  operate-Burnt (promoting email) spares = admin-Burnt email

  later-Burnt : {s t : State} → Burnt hash s → Later hash s t → Burnt hash t
  later-Burnt h now = h
  later-Burnt h (operated {t} o faults spares before) =
      (operate-Burnt o spares).at (record { state = t; faults = faults }) (later-Burnt h before)
  later-Burnt h (elsewhere t' same after before) = λ later since.
      ap (any (carries hash later)) same ∙ later-Burnt h before later (let k = after in omega arith)

-- Once a token verified an account, it verifies none: not at any later time, whatever calls fail and
-- whatever operations on accounts come between, as long as none of them stores that token again.
pub verify_burns :
    (hash : String) (r : Run) (s : State) (faults : List Fault)
    → (verify_by_token_hash hash r).0 ≡ ok tt
    → Later hash (verify_by_token_hash hash r).1.state s
    → (verify_by_token_hash hash (record { state = s; faults = faults })).0 ≢ ok tt
verify_burns hash r s faults first between again =
    let burnt : Burnt hash (verify_by_token_hash hash r).1.state =
      subst (λ x. Post (λ _. Burnt hash) (λ _. Unit {0}) x (verify_by_token_hash hash r).1.state)
        first ((verify-Burnt hash).at r tt) in
    let then_run : Run = record { state = s; faults = faults } in
    let gone : any (carries hash s.db.now) s.db.users ≡ false =
      later-Burnt hash burnt between s.db.now (omega arith) in
    subst (λ x. Post (λ _ _. ⊥) (λ _. Unit {0}) x (verify_by_token_hash hash then_run).1.state)
      again ((verify-needs hash).at then_run gone)
