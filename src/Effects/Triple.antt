-- ===== src/Effects/Triple.antt =====
-- Triples {P} m {Q | R}: from a state where `P` holds, `m` ends in one where `Q` holds of its value,
-- or, if it fails, in one where `R` holds. The faults of the calls are arbitrary throughout.
use mathlib.Core.Path.{◌≡◌, refl}
use apisix_developer_portal.Db.{Db}
use apisix_developer_portal.Common.{◌⊎◌, inl, inr, Bool, true, false, if◌then◌else◌, List, [], ◌∷◌}
use apisix_developer_portal.Effects.{
  Error, Result, ok, err, State, Run, Fault, clean, refused, lost, M, pure, raise, lift, try, step,
  call, query, continue, ◌>>=◌,
}

abbrev pub Post : {A : Type 0} → (A → State → Type 0) → (State → Type 0) → Result A → State → Type 0
Post Q R (ok a) s = Q a s
Post Q R (err e) s = R s

pub record Triple {A : Type 0} (P : State → Type 0) (m : M A) (Q : A → State → Type 0)
    (R : State → Type 0) : Type 0 where
  pub at : (r : Run) → P r.state → Post Q R (m r).0 (m r).1.state

module _ {A : Type 0} (P : State → Type 0) (Q : A → State → Type 0) (R : State → Type 0) where
  call_at :
      (op : State → Result A × State) (fs : List Fault) (s : State)
      → ((t : State) → P t → R t)
      → ((t : State) → P t → R (op t).1)
      → ((t : State) → P t → Post Q R (op t).0 (op t).1)
      → P s
      → (let x = call op (record { state = s; faults = fs }) in Post Q R x.0 x.1.state)
  unfolding call
  call_at op [] s kept dropped done p = done s p
  call_at op (clean ∷ fs) s kept dropped done p = done s p
  call_at op (refused ∷ fs) s kept dropped done p = kept s p
  call_at op (lost ∷ fs) s kept dropped done p = dropped s p

module _ {A B : Type 0} (Q : A → State → Type 0) (R : State → Type 0)
    (Q' : B → State → Type 0) where
  continue_at :
      (f : A → M B) (x : Result A) (r : Run)
      → ((a : A) → Triple (Q a) (f a) Q' R)
      → Post Q R x r.state
      → (let y = continue (x, r) f in Post Q' R y.0 y.1.state)
  continue_at f (ok a) r kf h = (kf a).at r h
  continue_at f (err e) r kf h = h

module _ {A : Type 0} {P : State → Type 0} {Q : A → State → Type 0} {R : State → Type 0} where
  pub Triple-pure : (a : A) → ((s : State) → P s → Q a s) → Triple P (pure a) Q R
  unfolding pure
  Triple-pure a h = record { at = λ r p. h r.state p }

  pub Triple-raise : (e : Error) → ((s : State) → P s → R s) → Triple P (raise e) Q R
  unfolding raise
  Triple-raise e h = record { at = λ r p. h r.state p }

  pub Triple-lift : (x : Result A) → ((s : State) → P s → Post Q R x s) → Triple P (lift x) Q R
  unfolding lift
  Triple-lift x h = record { at = λ r p. h r.state p }

  pub Triple-step :
      (op : State → Result A × State)
      → ((s : State) → P s → Post Q R (op s).0 (op s).1)
      → Triple P (step op) Q R
  unfolding step
  Triple-step op h = record { at = λ r p. h r.state p }

  -- A call: what holds before it, what its effect establishes though the answer is lost, and what
  -- its answer says.
  pub Triple-call :
      (op : State → Result A × State)
      → ((t : State) → P t → R t)
      → ((t : State) → P t → R (op t).1)
      → ((t : State) → P t → Post Q R (op t).0 (op t).1)
      → Triple P (call op) Q R
  Triple-call op kept dropped done = record {
    at = λ r p. call_at P Q R op r.faults r.state kept dropped done p;
  }

  pub Triple-if :
      (b : Bool) (m n : M A)
      → (b ≡ true → Triple P m Q R)
      → (b ≡ false → Triple P n Q R)
      → Triple P (if b then m else n) Q R
  Triple-if true m n km kn = km refl
  Triple-if false m n km kn = kn refl

module _ {A B : Type 0} {P : State → Type 0} {Q : A → State → Type 0} {R : State → Type 0}
    {Q' : B → State → Type 0} where
  pub Triple-bind :
      (m : M A) (f : A → M B)
      → Triple P m Q R
      → ((a : A) → Triple (Q a) (f a) Q' R)
      → Triple P (m >>= f) Q' R
  unfolding ◌>>=◌
  Triple-bind m f km kf = record { at = λ r p. continue_at Q R Q' f (m r).0 (m r).1 kf (km.at r p) }

module _ {A : Type 0} {P : State → Type 0} {Q : A → State → Type 0} {R : State → Type 0} where
  pub Triple-try : (m : M A) → Triple P m Q R → Triple P (try m) (Post Q R) R
  unfolding try
  Triple-try m km = record { at = λ r p. km.at r p }

  -- A fact that does not depend on the state.
  pub Triple-assume :
      {C : Type 0} (m : M A) → ((c : C) → Triple P m Q R) → Triple (λ s. P s × C) m Q R
  Triple-assume m known = record { at = λ r p. (known p.1).at r p.0 }

  -- A weaker claim.
  pub Triple-weaken :
      {P' : State → Type 0} {Q' : A → State → Type 0} {R' : State → Type 0} (m : M A)
      → Triple P m Q R
      → ((s : State) → P' s → P s)
      → ((a : A) (s : State) → Q a s → Q' a s)
      → ((s : State) → R s → R' s)
      → Triple P' m Q' R'
  Triple-weaken m km kp kq kr = record {
    at = λ r p. weaker (m r).0 (m r).1 kq kr (km.at r (kp r.state p));
  }
    where
      weaker :
          {Q' : A → State → Type 0} {R' : State → Type 0} (x : Result A) (r : Run)
          → ((a : A) (s : State) → Q a s → Q' a s)
          → ((s : State) → R s → R' s)
          → Post Q R x r.state
          → Post Q' R' x r.state
      weaker (ok a) r kq kr h = kq a r.state h
      weaker (err e) r kq kr h = kr r.state h

module _ {A : Type 0} {P : State → Type 0} where
  -- Every action ends somehow.
  pub Triple-any : (m : M A) → Triple P m (λ _ _. Unit {0}) (λ _. Unit {0})
  Triple-any m = record { at = λ r p. ended (m r).0 (m r).1.state }
    where
      ended : (x : Result A) (s : State) → Post (λ _ _. Unit {0}) (λ _. Unit {0}) x s
      ended (ok a) s = tt
      ended (err e) s = tt

  -- What holds however the action ends.
  pub Triple-always :
      {R : State → Type 0} (m : M A)
      → Triple P m (λ _. R) R
      → (r : Run) → P r.state
      → R (m r).1.state
  Triple-always {R} m km r p = either (m r).0 (m r).1.state (km.at r p)
    where
      either : (x : Result A) (s : State) → Post (λ _. R) R x s → R s
      either (ok a) s h = h
      either (err e) s h = h

module _ {A : Type 0} {P : State → Type 0} {Q Q' : A → State → Type 0} {R R' : State → Type 0} where
  -- Two claims of one action.
  pub Triple-and :
      (m : M A)
      → Triple P m Q R
      → Triple P m Q' R'
      → Triple P m (λ a s. Q a s × Q' a s) (λ s. R s × R' s)
  Triple-and m km km' = record { at = λ r p. both (m r).0 (m r).1.state (km.at r p) (km'.at r p) }
    where
      both :
          (x : Result A) (s : State)
          → Post Q R x s
          → Post Q' R' x s
          → Post (λ a t. Q a t × Q' a t) (λ t. R t × R' t) x s
      both (ok a) s h k = (h, k)
      both (err e) s h k = (h, k)

pub Result-cases {ℓ} :
    {A : Type ℓ} (x : Result A) → ((a : A) × (x ≡ ok a)) ⊎ ((e : Error) × (x ≡ err e))
Result-cases (ok a) = inl (a, refl)
Result-cases (err e) = inr (e, refl)

module _ {A : Type 0} (P R : State → Type 0) where
  -- A query changes nothing, and its answer is what the tables say.
  pub Triple-query :
      (f : Db → Result A)
      → ((s : State) → P s → R s)
      → Triple P (query f) (λ a s. P s × (f s.db ≡ ok a)) R
  Triple-query f kept = record {
    at = λ r p.
        (Triple-call {Q = λ a s. P s × (f s.db ≡ ok a)} (λ s. (f s.db, s)) kept kept
            (λ s q. answered_at s q)).at
          r p;
  }
    where
      answered_at : (s : State) → P s → Post (λ a t. P t × (f t.db ≡ ok a)) R (f s.db) s
      answered_at s q = elim (Result-cases (f s.db)) [
        | inl (a, e) ↦ rw e (q, e)
        | inr (x, e) ↦ rw e (kept s q)
      ]

  pub Triple-lift_answer :
      (x : Result A) → ((s : State) → P s → R s) → Triple P (lift x) (λ a s. P s × (x ≡ ok a)) R
  Triple-lift_answer x kept = Triple-lift x λ s p. elim (Result-cases x) [
    | inl (a, e) ↦ rw e (p, refl)
    | inr (failed, e) ↦ rw e (kept s p)
  ]

module _ {A : Type 0} {P : State → Type 0} {Q : A → State → Type 0} {R : State → Type 0} where
  -- An attempt never fails, so nothing is left to show of its failure.
  pub Triple-try_total :
      {R' : State → Type 0} (m : M A) → Triple P m Q R → Triple P (try m) (Post Q R) R'
  unfolding try
  Triple-try_total m km = record { at = λ r p. km.at r p }

module _ {A : Type 0} {P : State → Type 0} {Q : A → State → Type 0} where
  -- An action that cannot fail answers.
  pub Triple-answers :
      (m : M A)
      → Triple P m Q (λ _. ⊥)
      → (r : Run) → P r.state
      → (a : A) × ((m r).0 ≡ ok a) × Q a (m r).1.state
  Triple-answers m km r p = outcome (m r).0 (m r).1.state (km.at r p)
    where
      outcome : (x : Result A) (s : State) → Post Q (λ _. ⊥) x s → (a : A) × (x ≡ ok a) × Q a s
      outcome (ok a) s h = (a, refl, h)
      outcome (err e) s h = absurd h
