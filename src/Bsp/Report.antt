-- ===== src/Bsp/Report.antt =====
-- The totals of the report that drivers/bsp_india/mapping.py builds of a HAF file.
use voyagent.Prelude.{
  ◌≡◌, refl, sym, ap, ◌∙◌, Option, none, some, List, [], ◌∷◌, map, arith, if◌then◌else◌, if_elim,
}
use voyagent.Prelude.Int.{ℤ, pos, ◌+ℤ◌, eq_ℤ, eq_of_parts, +ℤ_assoc, +ℤ_zero_right, +ℤ_zero_left}
use voyagent.Prelude.Text.{Text}
use voyagent.Bsp.{
  HafTransaction, bks24, bks39, bks45, bks46, bks47, HafFile, Money, money, BspTransaction,
  BspTransactionKind, sale, refund, exchange, adm, acm, commission, tax_adjustment,
  haf_record_to_bsp_transaction, Totals, add_record, add_records, haf_file_to_bsp_report, upper,
}

abbrev pub sum_of : (BspTransaction → ℤ) → List BspTransaction → ℤ
sum_of f [] = pos 0
sum_of f (tx ∷ txs) = f tx +ℤ sum_of f txs

-- What a transaction adds to each total.
abbrev pub sales_part : BspTransactionKind → ℤ → ℤ
sales_part sale amount = amount
sales_part refund amount = pos 0
sales_part exchange amount = pos 0
sales_part adm amount = pos 0
sales_part acm amount = pos 0
sales_part commission amount = pos 0
sales_part tax_adjustment amount = pos 0

abbrev pub refund_part : BspTransactionKind → ℤ → ℤ
refund_part sale amount = pos 0
refund_part refund amount = amount
refund_part exchange amount = amount
refund_part adm amount = pos 0
refund_part acm amount = pos 0
refund_part commission amount = pos 0
refund_part tax_adjustment amount = pos 0

abbrev pub amount_or_zero : Option Money → ℤ
amount_or_zero none = pos 0
amount_or_zero (some m) = m.amount

commission_of_amount :
    (c : ℤ) (currency : Text)
    → amount_or_zero (if eq_ℤ c (pos 0) then none else some (money c currency)) ≡ c
unfolding money
commission_of_amount c currency =
    if_elim (eq_ℤ c (pos 0)) (λ m. amount_or_zero m ≡ c)
      (λ zero. eq_of_parts _ _ (ground (arith, zero))) (λ other. refl)

-- The accumulators after the loop, from those before it.
abbrev Adds : List BspTransaction → Totals → Totals → Type 0
Adds txs t t' =
    (t'.sales_total ≡ t.sales_total +ℤ sum_of (λ x. sales_part x.kind x.gross.amount) txs)
    × (t'.refund_total ≡ t.refund_total +ℤ sum_of (λ x. refund_part x.kind x.net.amount) txs)
    × (t'.commission_total ≡ t.commission_total +ℤ sum_of (λ x. amount_or_zero x.commission) txs)
    × (t'.net_total ≡ t.net_total +ℤ sum_of (λ x. x.net.amount) txs)

-- One step of a running total, ahead of the sum of the rest.
then_rest : (t d rest t' : ℤ) → t' ≡ (t +ℤ d) +ℤ rest → t' ≡ t +ℤ (d +ℤ rest)
then_rest t d rest t' e = e ∙ +ℤ_assoc t d rest

skip_rest : (t rest t' : ℤ) → t' ≡ t +ℤ rest → t' ≡ t +ℤ (pos 0 +ℤ rest)
skip_rest t rest t' e = e ∙ ap (λ x. t +ℤ x) (sym (+ℤ_zero_left rest))

add_records-Adds :
    (currency : Text) (rs : List HafTransaction) (t : Totals)
    → Adds
        (map (haf_record_to_bsp_transaction currency) rs)
        t
        (add_records rs (map (haf_record_to_bsp_transaction currency) rs) t)
unfolding add_records add_record haf_record_to_bsp_transaction money
add_records-Adds currency [] t = (
  sym (+ℤ_zero_right t.sales_total),
  sym (+ℤ_zero_right t.refund_total),
  sym (+ℤ_zero_right t.commission_total),
  sym (+ℤ_zero_right t.net_total),
)
add_records-Adds currency (bks24 r ∷ rs) t =
    let (s, f, c, n) = add_records-Adds currency rs _ in
    (
      then_rest _ _ _ _ s,
      skip_rest _ _ _ f,
      then_rest _ _ _ _ c
          ∙ ap (λ x. t.commission_total +ℤ (x +ℤ _))
              (sym (commission_of_amount r.commission currency)),
      then_rest _ _ _ _ n,
    )
add_records-Adds currency (bks39 r ∷ rs) t =
    let (s, f, c, n) = add_records-Adds currency rs _ in
    (skip_rest _ _ _ s, then_rest _ _ _ _ f, skip_rest _ _ _ c, then_rest _ _ _ _ n)
add_records-Adds currency (bks45 r ∷ rs) t =
    let (s, f, c, n) = add_records-Adds currency rs _ in
    (skip_rest _ _ _ s, then_rest _ _ _ _ f, skip_rest _ _ _ c, then_rest _ _ _ _ n)
add_records-Adds currency (bks46 r ∷ rs) t =
    let (s, f, c, n) = add_records-Adds currency rs _ in
    (skip_rest _ _ _ s, skip_rest _ _ _ f, skip_rest _ _ _ c, then_rest _ _ _ _ n)
add_records-Adds currency (bks47 r ∷ rs) t =
    let (s, f, c, n) = add_records-Adds currency rs _ in
    (skip_rest _ _ _ s, skip_rest _ _ _ f, skip_rest _ _ _ c, then_rest _ _ _ _ n)

-- The totals of a report are the sums over its own transactions: sales over the gross amounts of
-- the sales, refunds over the net amounts of refunds and exchanges, commission over the
-- commissions that are there, and the net remittance over the net amounts of all.
pub haf_file_to_bsp_report_totals :
    (haf : HafFile) (tenant_id : Text)
    → let report = haf_file_to_bsp_report haf tenant_id in
      (report.sales_total.amount
        ≡ sum_of (λ x. sales_part x.kind x.gross.amount) report.transactions)
      × (report.refund_total.amount
          ≡ sum_of (λ x. refund_part x.kind x.net.amount) report.transactions)
      × (report.commission_total.amount
          ≡ sum_of (λ x. amount_or_zero x.commission) report.transactions)
      × (report.net_remittance.amount ≡ sum_of (λ x. x.net.amount) report.transactions)
unfolding haf_file_to_bsp_report money
haf_file_to_bsp_report_totals haf tenant_id =
    let (s, f, c, n) = add_records-Adds (upper haf.header.bsp_currency) haf.transactions _ in
    (s ∙ +ℤ_zero_left _, f ∙ +ℤ_zero_left _, c ∙ +ℤ_zero_left _, n ∙ +ℤ_zero_left _)
