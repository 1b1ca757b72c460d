-- ===== src/Tests/PaymentCases.antt =====
-- The theorems on payments and refunds, at the small shop.
use e_commerce_titulo_interm.Common.{
  ℕ, zero, suc, Option, none, some, [], ◌∷◌, ◌≡◌, refl, arith, Returns,
}
use e_commerce_titulo_interm.Payments.Status.{
  PaymentStatus, PaymentOutcome, cu_14, approved, in_process,
}
use e_commerce_titulo_interm.Entities.{Refund, Db, find_order, typed}
use e_commerce_titulo_interm.Payments.Ledger.{
  RefundRequest, request_refund, find_payment, new_refund,
}
use e_commerce_titulo_interm.Payments.Balance.{IsCoveredDb, request_refund-IsCovered}
use e_commerce_titulo_interm.Payments.Refunds.{
  GatewayRefund, RefundAnswer, answered, unavailable, dispatch_pending, reconcile_in_progress,
  reconcile_payment,
}
use e_commerce_titulo_interm.Payments.RefundSteps.{IsSettling}
use e_commerce_titulo_interm.Payments.Settling.{gateway_tasks-IsSettling, gateway_tasks-IsCovered}
use e_commerce_titulo_interm.Payments.Processing.{GatewayPayment, process_transaction}
use e_commerce_titulo_interm.Payments.Crediting.{IsBookedTx, process_transaction-IsBooked}
use e_commerce_titulo_interm.Payments.FullPayment.{IsPaidInFull, process_transaction-IsPaidInFull}
use e_commerce_titulo_interm.Tests.Data.{waiting_order, payment_80, tables}
use e_commerce_titulo_interm.Tests.OrderCases.{
  tables-IsAccounted, waiting-IsOrderly, waiting-IsPositive,
}

abbrev request : RefundRequest
request = record {
  order_id = 8;
  amount = 700;
  origin_cu = cu_14;
  reason = typed "devolución";
  payment_id = none;
}

-- The shop with a refund in progress.
abbrev refunding : Db
refunding = record tables { refunds = new_refund 90 request payment_80 ∷ [] }

refunding-IsCovered : IsCoveredDb refunding
unfolding find_payment
refunding-IsCovered =
    (record { row = refl; linked = (λ same. refl, tt); covered = omega arith }, tt)

request_refund-IsCovered_example : IsCoveredDb (request_refund request refunding).1
request_refund-IsCovered_example = request_refund-IsCovered request refunding refunding-IsCovered

-- A gateway that does not answer the first attempt.
abbrev gateway : Refund → ℕ → RefundAnswer
gateway r zero = unavailable "timeout"
gateway r (suc n) = answered (record { id = r.id; status = approved })

abbrev look : Refund → Option GatewayRefund
look r = some (record { id = r.id; status = in_process })

gateway_tasks-IsSettling_example :
    IsSettling refunding (dispatch_pending gateway 2 9000 refunding)
    × IsSettling refunding (reconcile_in_progress look 9000 refunding)
    × IsSettling refunding (reconcile_payment look 9000 800 refunding)
gateway_tasks-IsSettling_example = gateway_tasks-IsSettling gateway 2 look 800 9000 refunding

gateway_tasks-IsCovered_example :
    IsCoveredDb (dispatch_pending gateway 2 9000 refunding)
    × IsCoveredDb (reconcile_in_progress look 9000 refunding)
    × IsCoveredDb (reconcile_payment look 9000 800 refunding)
gateway_tasks-IsCovered_example =
    gateway_tasks-IsCovered gateway 2 look 800 9000 refunding refunding-IsCovered

abbrev informed : GatewayPayment
informed = record {
  id = 810;
  status = approved;
  amount = 1200;
  currency = some 1;
  order_id = some 7;
}

find_waiting : find_order 7 tables.orders ≡ some waiting_order
unfolding find_order
find_waiting = refl

process_transaction-IsBooked_example :
    Returns IsBookedTx (
      process_transaction 6000 1 informed
        (PaymentStatus.aprobado, PaymentOutcome.aprobado)
        7
        tables)
process_transaction-IsBooked_example =
    process_transaction-IsBooked 6000 1 informed (PaymentStatus.aprobado, PaymentOutcome.aprobado)
      waiting_order 7 tables tables-IsAccounted find_waiting waiting-IsOrderly waiting-IsPositive

process_transaction-IsPaidInFull_example :
    Returns (IsPaidInFull 1 PaymentOutcome.aprobado informed waiting_order) (
      process_transaction 6000 1 informed
        (PaymentStatus.aprobado, PaymentOutcome.aprobado)
        7
        tables)
process_transaction-IsPaidInFull_example =
    process_transaction-IsPaidInFull 6000 1 informed PaymentStatus.aprobado PaymentOutcome.aprobado
      waiting_order 7 tables tables-IsAccounted find_waiting waiting-IsOrderly waiting-IsPositive
      refl
