-- ===== src/Tests/Ledger.antt =====
-- The ledger at a concrete history, and a settlement of one invoice.
use apisix_developer_portal.Common.{◌≤◌, [], ◌∷◌, ◌≡◌, refl, length, select}
use apisix_developer_portal.Billing.{is_open, mark_paid, void, pay, cancel, new_invoice}
use apisix_developer_portal.Billing.Ledger.{serving, entered, opened, then_entry, one_open_invoice}
use apisix_developer_portal.Billing.Settlement.{quiet, settlement_answers}
use apisix_developer_portal.Db.{InvoiceRow}
use apisix_developer_portal.Effects.{State, ok}
use apisix_developer_portal.Subscriptions.Provisioning.Operations.{subscribing, approving}
use apisix_developer_portal.Tests.{portal, opening, empty_db}

abbrev requested : State
requested = entered (serving portal (subscribing 1 7 2)) [] opening

abbrev billed : State
billed = entered (serving portal (approving 1)) [] requested

one_open_invoice_example : length (select (is_open 1) billed.db.invoices) ≤ 1
one_open_invoice_example =
    one_open_invoice opening billed refl
      (then_entry (serving portal (approving 1)) []
        (then_entry (serving portal (subscribing 1 7 2)) [] opened))
      1

abbrev due : InvoiceRow
due = new_invoice 1 4 1 "Silver" 900 "EUR" 5

abbrev owing : State
owing = record opening { db = record empty_db { invoices = due ∷ [] } }

settlement_answers_example :
    ((mark_paid 5 (quiet owing)).0 ≡ ok tt)
    × ((mark_paid 5 (quiet owing)).1.state.db.invoices ≡ pay owing.db due ∷ [])
    × ((void 5 (quiet owing)).0 ≡ ok tt)
    × ((void 5 (quiet owing)).1.state.db.invoices ≡ cancel owing.db due ∷ [])
settlement_answers_example = settlement_answers 5 owing
