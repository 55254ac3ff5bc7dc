-- ===== src/Httpx/Guards.antt =====
-- The checks that the handlers make before their work: each answers, or yields the id of its path.
use apisix_developer_portal.Common.{ℕ}
use apisix_developer_portal.Effects.{State, M, pure}
use apisix_developer_portal.Effects.Triple.{Triple, Triple-pure}
use apisix_developer_portal.Httpx.Respond.{Reply}

pub data Guard (B : Type 0) : Type 0 where
  stop : Reply B → Guard B
  pass : ℕ → Guard B

-- `id, ok := …; if !ok { return }`
unfoldable pub guarded : {B : Type 0} → Guard B → (ℕ → M (Reply B)) → M (Reply B)
guarded (stop reply) f = pure reply
guarded (pass id) f = f id

abbrev pub Stopped : {B : Type 0} → (Reply B → Type 0) → Guard B → Type 0
Stopped Q (stop reply) = Q reply
Stopped Q (pass id) = ⊥

-- A guard that stops leaves the state to the end.
pub guarded-Stopped :
    {B : Type 0} (P : State → Type 0) (Q : Reply B → Type 0) (f : ℕ → M (Reply B)) (g : Guard B)
    → Triple (λ s. P s × Stopped Q g) (guarded g f) (λ reply s. P s × Q reply) (λ _. ⊥)
unfolding guarded
guarded-Stopped P Q f (stop reply) = Triple-pure _ (λ s p. p)
guarded-Stopped P Q f (pass id) = record { at = λ r p. absurd p.1 }
