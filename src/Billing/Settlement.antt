-- ===== src/Billing/Settlement.antt =====
-- internal/billing/repo.go, `MarkPaid` and `Void`: what a settlement answers and writes.
use apisix_developer_portal.Common.{
  ℕ, Bool, true, false, none, some, List, [], ◌∷◌, ◌≡◌, inl, inr, refl, any, find, Option-cases, ap,
  Bool-cases, if◌then◌else◌, ◌==◌, update_where,
}
use apisix_developer_portal.Billing.{
  is_pending, pay, cancel, settle, mark_paid, void, get, transition_error,
}
use apisix_developer_portal.Db.{InvoiceRow, Db}
use apisix_developer_portal.Effects.{
  invoice_not_found, invoice_invalid_transition, ok, err, Result, State, Run, pure, raise, try,
  call, ◌>>=◌,
}

-- The answer of a settlement that finds no pending invoice.
abbrev pub refusal : ℕ → List InvoiceRow → Result (Unit {0})
refusal id invoices = elim (find (λ (i : InvoiceRow). i.id == id) invoices) [
  | none ↦ err invoice_not_found
  | some _ ↦ err invoice_invalid_transition
]

-- The answers of a settlement, by what is stored under the id.
abbrev pub answer : ℕ → List InvoiceRow → Result (Unit {0})
answer id invoices = if any (is_pending id) invoices then ok tt else refusal id invoices

-- Every call is answered.
abbrev pub quiet : State → Run
quiet s = record { state = s; faults = [] }

update_where-none :
    (p : InvoiceRow → Bool) (f : InvoiceRow → InvoiceRow) (xs : List InvoiceRow)
    → any p xs ≡ false
    → update_where p f xs ≡ xs
update_where-none p f [] none_there = refl
update_where-none p f (x ∷ xs) none_there = elim (Bool-cases (p x)) [
  | inl t ↦ absurd (let k : true ≡ false = rw t at none_there in cc)
  | inr t ↦ rw t (ap (x ∷◌) (update_where-none p f xs (rw t at none_there)))
]

-- The tail of a settlement that found no pending invoice.
refused_answer :
    (id : ℕ) (s : State)
    → ((transition_error id (quiet s)).0 ≡ refusal id s.db.invoices)
      × ((transition_error id (quiet s)).1.state.db.invoices ≡ s.db.invoices)
unfolding transition_error get ◌>>=◌ call pure raise try
refused_answer id s = elim (Option-cases (find (λ (i : InvoiceRow). i.id == id) s.db.invoices)) [
  | inl e ↦ rw (e, refusal) (refl, refl)
  | inr (i, e) ↦ rw (e, refusal) (refl, refl)
]

settled :
    (change : Db → InvoiceRow → InvoiceRow) (id : ℕ) (s : State)
    → (let r =
          (settle change id >>= λ affected. if affected then pure tt else transition_error id)
            (quiet s) in
        (r.0 ≡ answer id s.db.invoices)
        × (r.1.state.db.invoices ≡ update_where (is_pending id) (change s.db) s.db.invoices))
unfolding settle ◌>>=◌ call pure
settled change id s = elim (Bool-cases (any (is_pending id) s.db.invoices)) [
  | inl t ↦ rw t (refl, refl)
  | inr t ↦
      rw (t, update_where-none (is_pending id) (change s.db) s.db.invoices t) (refused_answer id s)
]

-- With every call answered, both settlements succeed when an invoice under the id is pending, and
-- otherwise say whether there is one; either way exactly the pending invoices of that id change, to
-- "paid" with the time of payment, or to "void".
pub settlement_answers :
    (id : ℕ) (s : State)
    → ((mark_paid id (quiet s)).0 ≡ answer id s.db.invoices)
      × ((mark_paid id (quiet s)).1.state.db.invoices
          ≡ update_where (is_pending id) (pay s.db) s.db.invoices)
      × ((void id (quiet s)).0 ≡ answer id s.db.invoices)
      × ((void id (quiet s)).1.state.db.invoices
          ≡ update_where (is_pending id) (cancel s.db) s.db.invoices)
unfolding mark_paid void
settlement_answers id s =
    let (paid, paid_rows) = settled pay id s in
    let (voided, void_rows) = settled cancel id s in (paid, paid_rows, voided, void_rows)
