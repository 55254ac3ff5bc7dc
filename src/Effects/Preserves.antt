-- ===== src/Effects/Preserves.antt =====
-- An action preserves a fact of the state when the fact holds after it however it ends: answered,
-- refused, or with its answer lost.
use apisix_developer_portal.Common.{Bool, true, false, if◌then◌else◌, List, [], ◌∷◌, ◌≡◌}
use apisix_developer_portal.Db.{Db}
use apisix_developer_portal.Effects.{
  Error, Result, ok, err, State, Run, Fault, clean, refused, lost, M, pure, raise, lift, try, step,
  call, query, continue, ◌>>=◌,
}
use apisix_developer_portal.Effects.Triple.{Triple, Post, Triple-bind, Triple-query}

pub record Preserves {A : Type 0} (P : State → Type 0) (m : M A) : Type 0 where
  pub at : (r : Run) → P r.state → P (m r).1.state

module _ {A : Type 0} (P : State → Type 0) where
  called_at :
      (op : State → Result A × State) (fs : List Fault) (s : State)
      → (P s → P (op s).1)
      → P s
      → P (call op (record { state = s; faults = fs })).1.state
  unfolding call
  called_at op [] s kept p = kept p
  called_at op (clean ∷ fs) s kept p = kept p
  called_at op (refused ∷ fs) s kept p = p
  called_at op (lost ∷ fs) s kept p = kept p

module _ {A : Type 0} {P : State → Type 0} where
  pub Preserves-pure : (a : A) → Preserves P (pure a)
  unfolding pure
  Preserves-pure a = record { at = λ r p. p }

  pub Preserves-raise : (e : Error) → Preserves P (raise {A = A} e)
  unfolding raise
  Preserves-raise e = record { at = λ r p. p }

  pub Preserves-lift : (x : Result A) → Preserves P (lift x)
  unfolding lift
  Preserves-lift x = record { at = λ r p. p }

  pub Preserves-step :
      (op : State → Result A × State) → ((s : State) → P s → P (op s).1) → Preserves P (step op)
  unfolding step
  Preserves-step op kept = record { at = λ r p. kept r.state p }

  pub Preserves-call :
      (op : State → Result A × State) → ((s : State) → P s → P (op s).1) → Preserves P (call op)
  Preserves-call op kept = record { at = λ r p. called_at P op r.faults r.state (kept r.state) p }

  pub Preserves-query : (f : Db → Result A) → Preserves P (query f)
  Preserves-query f = Preserves-call (λ s. (f s.db, s)) (λ s p. p)

  pub Preserves-try : (m : M A) → Preserves P m → Preserves P (try m)
  unfolding try
  Preserves-try m k = record { at = λ r p. k.at r p }

  pub Preserves-if :
      (b : Bool) (m n : M A) → Preserves P m → Preserves P n → Preserves P (if b then m else n)
  Preserves-if true m n km kn = km
  Preserves-if false m n km kn = kn

  -- A triple whose every outcome has the fact.
  pub Preserves-triple : (m : M A) → Triple P m (λ _. P) P → Preserves P m
  Preserves-triple m t = record { at = λ r p. either (m r).0 (m r).1.state (t.at r p) }
    where
      either : (x : Result A) (s : State) → Post (λ _. P) P x s → P s
      either (ok a) s h = h
      either (err e) s h = h

module _ {A B : Type 0} (P : State → Type 0) where
  continued :
      (f : A → M B) (x : Result A) (r : Run)
      → ((a : A) → Preserves P (f a))
      → P r.state
      → P (continue (x, r) f).1.state
  continued f (ok a) r kf p = (kf a).at r p
  continued f (err e) r kf p = p

module _ {A B : Type 0} {P : State → Type 0} where
  pub Preserves-bind :
      (m : M A) (f : A → M B)
      → Preserves P m
      → ((a : A) → Preserves P (f a))
      → Preserves P (m >>= f)
  unfolding ◌>>=◌
  Preserves-bind m f km kf = record { at = λ r p. continued P f (m r).0 (m r).1 kf (km.at r p) }

pub ruleset preserves_rules = (
  Preserves-pure, Preserves-raise, Preserves-lift, Preserves-query, Preserves-if, Preserves-try,
  Preserves-bind,
)

module _ {A : Type 0} {P : State → Type 0} where
  -- A preserved fact as a triple.
  pub Triple-Preserves : (m : M A) → Preserves P m → Triple P m (λ _. P) P
  Triple-Preserves m k = record { at = λ r p. outcome (m r).0 (m r).1.state (k.at r p) }
    where
      outcome : (x : Result A) (s : State) → P s → Post (λ _. P) P x s
      outcome (ok a) s h = h
      outcome (err e) s h = h

module _ {A B : Type 0} {P : State → Type 0} where
  -- What follows a query may rely on its answer being that of some database.
  pub Preserves-query_bind :
      (f : Db → Result A) (k : A → M B)
      → ((a : A) (d : Db) → f d ≡ ok a → Preserves P (k a))
      → Preserves P (query f >>= k)
  Preserves-query_bind f k kept =
      Preserves-triple _
        (Triple-bind (query f) k (Triple-query P P f (λ s p. p)) λ a. after_answer a)
    where
      after_answer : (a : A) → Triple (λ s. P s × (f s.db ≡ ok a)) (k a) (λ _. P) P
      after_answer a = record {
        at = λ r (p, e). (Triple-Preserves (k a) (kept a r.state.db e)).at r p;
      }
