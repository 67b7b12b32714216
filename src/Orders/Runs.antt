-- ===== src/Orders/Runs.antt =====
-- Any sequence of calls of the order service (kahade-backend/src/core/order/order.service.ts), by
-- any users at any times: what it leaves, whichever of the calls throw.
use rekberkan.Base.{ℕ, ◌≡◌, Bool, Option, some, List, [], ◌∷◌}
use rekberkan.Store.{Store, OrderStatus}
use rekberkan.Orders.Rows.{PlatformConfig, CreateOrderDto}
use rekberkan.Orders.Invites.{create_order, edit_order, accept_order, resend_invite, UpdateOrderDto}
use rekberkan.Orders.Payments.{pay_order, confirm_delivery, cancel_order, open_dispute}
use rekberkan.Orders.Life.{Deal, deal, Life, Parted, Life-Parted, Life-completed}
use rekberkan.Orders.Sound.{Sound, IsSound, Sound-then, Sound-end, Backed}
use rekberkan.Orders.Steps.{
  create_order-Sound, edit_order-Sound, accept_order-Sound, resend_invite-Sound, cancel_order-Sound,
  open_dispute-Sound,
}
use rekberkan.Orders.Settling.{pay_order-Sound, confirm_delivery-Sound}

-- The calls of clients that write orders
pub data Call : Type 0 where
  create : CreateOrderDto → Bool → Call
  edit : ℕ → UpdateOrderDto → Call
  accept : ℕ → Call
  resend : ℕ → Call
  pay confirm : ℕ → Option ℕ → Call
  cancel contest : ℕ → Call

-- A call with its user, its time and the invite token that is made for it
pub record Request : Type 0 where
  pub user : ℕ
  pub now : ℕ
  pub token : ℕ
  pub call : Call

unfoldable pub serve : PlatformConfig → Request → Call → Store → Store
unfolding create_order edit_order accept_order resend_invite pay_order confirm_delivery cancel_order
    open_dispute
serve c r (Call.create dto has_key) s = (create_order c r.now r.token r.user dto has_key s).1
serve c r (Call.edit id dto) s = (edit_order c r.user id dto s).1
serve c r (Call.accept token) s = (accept_order r.now r.user token s).1
serve c r (Call.resend id) s = (resend_invite c r.now r.token r.user id s).1
serve c r (Call.pay id key) s = (pay_order r.now r.user id key s).1
serve c r (Call.confirm id key) s = (confirm_delivery r.now r.user id key s).1
serve c r (Call.cancel id) s = (cancel_order r.now r.user id s).1
serve c r (Call.contest id) s = (open_dispute r.now r.user id s).1

unfoldable pub run : PlatformConfig → List Request → Store → Store
unfolding serve
run c [] s = s
run c (r ∷ rs) s = run c rs (serve c r r.call s)

serve-Sound :
    (c : PlatformConfig) (r : Request) (k : Call) (s : Store) → IsSound s → Sound s (serve c r k s)
unfolding serve
serve-Sound c r (Call.create dto has_key) s h =
    create_order-Sound c r.now r.token r.user dto has_key s h
serve-Sound c r (Call.edit id dto) s h = edit_order-Sound c r.user id dto s h
serve-Sound c r (Call.accept token) s h = accept_order-Sound r.now r.user token s h
serve-Sound c r (Call.resend id) s h = resend_invite-Sound c r.now r.token r.user id s h
serve-Sound c r (Call.pay id key) s h = pay_order-Sound r.now r.user id key s h
serve-Sound c r (Call.confirm id key) s h = confirm_delivery-Sound r.now r.user id key s h
serve-Sound c r (Call.cancel id) s h = cancel_order-Sound r.now r.user id s h
serve-Sound c r (Call.contest id) s h = open_dispute-Sound r.now r.user id s h

pub run-Sound :
    (c : PlatformConfig) (rs : List Request) (s : Store) → IsSound s → Sound s (run c rs s)
unfolding run
run-Sound c [] s h = h
run-Sound c (r ∷ rs) s h =
    let k = serve-Sound c r r.call s h in
    Sound-then s (serve c r r.call s) (run c rs (serve c r r.call s)) k
      (run-Sound c rs (serve c r r.call s) (Sound-end s (serve c r r.call s) k))

-- From sound tables on, every sequence of calls moves each order as the abstract life of an order
-- allows: it begins waiting for a counterparty, is joined by a user who is not its initiator, paid
-- once it is accepted, completed or contested once it is paid, cancelled unless it is paid or
-- completed, and its parties and roles are never changed otherwise.
pub run_refines :
    (c : PlatformConfig) (rs : List Request) (s : Store) (id : ℕ)
    → IsSound s
    → Life (deal id s) (deal id (run c rs s))
run_refines c rs s id h = (run-Sound c rs s h).leads id

-- From sound tables on, in which no order has its initiator as counterparty and none that is past
-- its invitation lacks one, the same holds after every sequence of calls, and an order that has an
-- escrow is past its payment.
pub run-Parted :
    (c : PlatformConfig) (rs : List Request) (s : Store)
    → IsSound s
    → ((id : ℕ) → Parted (deal id s))
    → ((id : ℕ) → Parted (deal id (run c rs s))) × Backed (run c rs s)
run-Parted c rs s h p =
    let k = run-Sound c rs s h in
    ((λ id. Life-Parted (deal id s) (deal id (run c rs s)) (k.leads id) (p id)), k.backed)

-- From sound tables on, an order that is completed keeps its status and its parties through every
-- sequence of calls.
pub run_completed :
    (c : PlatformConfig) (rs : List Request) (s : Store) (id : ℕ) (d : Deal)
    → IsSound s
    → deal id s ≡ some d
    → d.status ≡ OrderStatus.completed
    → deal id (run c rs s) ≡ some d
run_completed c rs s id d h a b =
    Life-completed (deal id s) (deal id (run c rs s)) d ((run-Sound c rs s h).leads id) a b
