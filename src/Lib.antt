-- ===== src/Lib.antt =====
-- Verification of the backend of an e-commerce shop (backend/src/modules): the cart and the checkout
-- of a customer, the stock of the product variants, the life of an order, and the money that goes
-- with it.
--
-- The program is a set of services over a relational database. A service method runs a transaction:
-- it locks the rows it needs, looks at them, and writes them. The model gives each method as a
-- function from the tables to the tables that it leaves and what it returns; a method that throws
-- returns the exception alone, since its transaction leaves nothing.
--
-- Files and the code they are about:
--   Common            the shared names, Boolean tests, lists, results of calls that throw, integers
--   Errors            the exceptions of all the services
--   Entities          the rows of orders and payments (orders/entities, payments/entities) and the
--                     tables of a transaction
--   Stock/Rows        the rows of variants and stock movements (products/entities), and the
--                     statement UPDATE … WHERE id = :id AND …, with its count of affected rows
--   Stock/Reservation products/stock/stock-reservation.service.ts, StockReservationService:
--                     reserve, release, confirm_sale, restock_cancelled_sale, restock_return,
--                     take_for_replacement, with the loops over the sorted lines
--   Stock/Adjusting   products/stock/stock.service.ts, StockService: adjust, set_threshold,
--                     to_stock_item
--   Orders/Status     orders/order-status.ts: states, causes, the transition table
--   Orders/Policies   orders/order-policies.ts: windows and what each person may do
--   Orders/Lifecycle  orders/orders.service.ts: change_status, release_reservation,
--                     return_stock_on_cancel, apply_payment_outcome
--   Orders/Expiry     orders/orders.service.ts: expire_reservations
--   Orders/Cancellation  the transactions of orders/order-cancellation.service.ts, and those of the
--                     methods of orders/admin/admin-orders.service.ts that change an order
--   Orders/AfterCancellation  orders/order-cancellation.service.ts: cancel_by_customer,
--                     after_cancellation; orders/admin/admin-orders.service.ts: admin_cancel
--   Payments/Status   payments/entities, and the tables of states of payments.service.ts and
--                     refunds/refunds.service.ts
--   Payments/Ledger   payments/ledger/payment-ledger.service.ts: request_refund, fits_in_balance
--   Payments/Refunds  payments/refunds/refunds.service.ts: dispatch, transition,
--                     apply_gateway_result, retry, resolve_manually and the periodic tasks
--   Payments/Processing  payments/payments.service.ts: process_payment, its transaction and the
--                     retries of the query to the gateway
--   Auth/Login        auth/login-throttle/login-throttle.service.ts, LoginThrottleService, and
--                     auth/auth.service.ts: login
--   Users/Rows        users/entities/address.entity.ts, users/dto
--   Users/Addresses   users/addresses.service.ts, AddressesService: create, update, remove,
--                     mark_default
--   Carts/Rows        cart/entities, products/purchasable.ts
--   Carts/Service     cart/cart.service.ts, CartService: get_or_create_cart, add_item,
--                     update_item_quantity, remove_item, clear_cart, resolve_item
--   Carts/Views       cart/cart.service.ts: get_cart, preview_merge, confirm_merge,
--                     resolve_guest_item
--   Carts/Revalidation  cart/cart.service.ts: revalidate_for_checkout and what the checkout does
--                     to a cart
--   Checkout/Rows     orders/checkout.service.ts: the tables of the checkout, its checks, quote
--   Checkout/Confirm  orders/checkout.service.ts: the transaction of confirm
--   Checkout/Payment  orders/checkout.service.ts: confirm, attach_preference,
--                     compensate_failed_preference
--   Checkout/Retry    orders/checkout.service.ts: retry_payment
--   PostSale/Rows     orders/returns/entities, orders/returns/return-eligibility.ts
--   PostSale/Requests orders/returns/returns.service.ts, ReturnsService: create_request
--   PostSale/Resolution  orders/admin/admin-returns.service.ts: approve, reject
-- The other modules under Auth, Stock, Orders, Payments, Users, Carts, Checkout and PostSale hold
-- theorems, and Tests holds concrete runs.
--
-- How the parts interact: Orders/Lifecycle calls Stock/Reservation with the lines of an order;
-- Orders/Cancellation calls Orders/Lifecycle and Payments/Ledger, and after its commit
-- Orders/AfterCancellation calls Payments/Refunds; Checkout reads the address book
-- and the cart, and calls Stock/Reservation and Orders/Lifecycle; all of them read and write the
-- tables of Entities. An order in memory and its row are two things in the code, and they are two
-- in the model: a method returns the order as it has it beside the tables.
--
-- Loops run over lists (the lines of an order, the orders that are due) or over the waits that a
-- retry has left, so no fuel is needed. What the payment gateway answers is a parameter. A
-- stock counter is an integer, since SQL arithmetic may go below zero; quantities, amounts in cents
-- and dates in milliseconds are natural numbers. A uuid is the number that it writes out: only
-- equality and the common order of the sorted lines depend on it. The texts that the system writes
-- are one constructor for each template.
--
-- A read of a field of a row that a relation did not load throws, as in the code; the foreign keys
-- keep it from happening. The generated keys are an argument or the next number of the tables.
--
-- Not modelled: the branches of the cart that catch a unique violation of a concurrent insert (a
-- request runs alone between its reads and its writes), the range of the integer columns (the
-- database rejects an overflow and the transaction is rolled back), the locks themselves (a
-- transaction is one step), logging and the audit log, the text of e-mails, what the gateway does
-- with a preference that it is asked to expire, and the queries that only feed a screen.
pub mod Auth
pub mod Carts
pub mod Checkout
pub mod Common
pub mod Entities
pub mod Errors
pub mod Orders
pub mod Payments
pub mod PostSale
pub mod Stock
pub mod Tests
pub mod Users
