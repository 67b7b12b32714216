-- ===== src/Transactions/Opening.antt =====
-- `TransactionService` up to the payment (kahade-backend/src/core/transaction/transaction.service.ts):
-- `create`, `findOne`, `findByInviteToken`, `accept`, `acceptByInvite`, `reject`. `now` is the date
-- that a call reads and `token` the invite token that it makes.
use rekberkan.Base.{ℕ, not, ◌&&◌, Option, none, some, is_some, is_id, ◌==◌}
use rekberkan.Store.{
  User, Order, OrderStatus, Action, Error, ◌>>=◌, ◌>>◌, pure, gets, or_raise, raise_if,
}
use rekberkan.Escrow.Rows.{find_order, update_order}
use rekberkan.Orders.Rows.{is_party, is_pending}
use rekberkan.Transactions.Rows.{
  CreateTransactionDto, category_of, find_by_token, find_user, find_by_email, insert_transaction,
}

-- The user who is found by the email, if any
abbrev pub other_user : ℕ → Option User → Action (Option ℕ)
other_user user none = pure none
other_user user (some u) = raise_if (u.id == user) Error.bad_request >> pure (some u.id)

unfoldable pub counterparty_of : ℕ → Option ℕ → Option ℕ → Action (Option ℕ)
counterparty_of user (some id) email =
    gets (find_user id) >>= or_raise Error.not_found >>= λ u. other_user user (some u)
counterparty_of user none (some email) = gets (find_by_email email) >>= other_user user
counterparty_of user none none = pure none

unfoldable pub create_transaction : ℕ → ℕ → ℕ → CreateTransactionDto → Action Order
unfolding counterparty_of insert_transaction
create_transaction now token user dto = do
  counterparty ← counterparty_of user dto.counterparty_id dto.counterparty_email
  insert_transaction now token user dto counterparty (category_of dto.category)

-- `findOne`, where the user may be left out
unfoldable pub find_transaction : ℕ → Option ℕ → Action Order
find_transaction id none = gets (find_order id) >>= or_raise Error.not_found
find_transaction id (some user) = do
  order ← or_raise Error.not_found (← gets (find_order id))
  raise_if (not (is_party user order)) Error.forbidden
  pure order

unfoldable pub find_transaction_by_token : ℕ → ℕ → Action Order
find_transaction_by_token now token = gets (find_by_token now token) >>= or_raise Error.not_found

abbrev pub accept_row : ℕ → Order → Order
accept_row now o = record o { status = OrderStatus.accepted; accepted_at = some now }

abbrev pub cancel_row : ℕ → Order → Order
cancel_row now o = record o { status = OrderStatus.cancelled; cancelled_at = some now }

-- `updateData`: the counterparty is written where there is none.
abbrev pub accept_invite_row : ℕ → ℕ → Option ℕ → Order → Order
accept_invite_row now user none o = record o {
  status = OrderStatus.accepted;
  accepted_at = some now;
  counterparty_id = some user;
}
accept_invite_row now user (some c) o = accept_row now o

unfoldable pub accept_transaction : ℕ → ℕ → ℕ → Action Order
unfolding update_order
accept_transaction now user id = do
  order ← or_raise Error.not_found (← gets (find_order id))
  raise_if (not (is_id order.counterparty_id user)) Error.forbidden
  raise_if (not (is_pending order.status)) Error.bad_request
  update_order id (accept_row now)

unfoldable pub accept_by_invite : ℕ → ℕ → ℕ → Action Order
unfolding update_order
accept_by_invite now user token = do
  order ← or_raise Error.not_found (← gets (find_by_token now token))
  raise_if (order.initiator_id == user) Error.bad_request
  raise_if (is_some order.counterparty_id && not (is_id order.counterparty_id user)) Error.forbidden
  update_order order.id (accept_invite_row now user order.counterparty_id)

unfoldable pub reject_transaction : ℕ → ℕ → ℕ → Action Order
unfolding update_order
reject_transaction now user id = do
  order ← or_raise Error.not_found (← gets (find_order id))
  raise_if (not (is_id order.counterparty_id user)) Error.forbidden
  raise_if (not (is_pending order.status)) Error.bad_request
  update_order id (cancel_row now)
