-- ===== src/Orders/Steps.antt =====
-- Every operation of the order service before payment and after it
-- (kahade-backend/src/core/order/order.service.ts) keeps what must hold and moves the orders as they
-- may be moved, however it ends.
use rekberkan.Base.{
  ℕ, ◌≡◌, ◌≢◌, refl, ap, Bool, false, not, ◌||◌, some, is_some, arith, inl, inr, Option-cases,
  Bool-cases, ◌==◌, ltb,
}
use rekberkan.Base.Int.{ℤ}
use rekberkan.Base.Table.{find_by}
use rekberkan.Store.{Store, Order, OrderStatus, Error}
use rekberkan.Store.Rules.{IsAtomic}
use rekberkan.Store.Endings.{ends-found, ends-unless, ends-atomic}
use rekberkan.Escrow.Rows.{find_order, update_order}
use rekberkan.Escrow.Opened.{update_order-rows}
use rekberkan.Orders.Rows.{
  PlatformConfig, find_by_id, find_by_invite_token, update_status, is_party, is_waiting, is_pending,
  is_paid, is_completed, CreateOrderDto, insert_order, new_order, calculate_platform_fee,
}
use rekberkan.Orders.Invites.{
  create_order, edit_order, accept_order, resend_invite, recent_duplicate, expiry, UpdateOrderDto,
  edited,
}
use rekberkan.Orders.Payments.{cancel_order, open_dispute}
use rekberkan.Orders.Writes.{written, live}
use rekberkan.Orders.Life.{view, Step, Life}
use rekberkan.Orders.Keys.{found_by_id}
use rekberkan.Orders.Sound.{Sound, writes-Sound, append-Sound, same_escrows}

update_order-IsAtomic : (id : ℕ) (f : Order → Order) → IsAtomic (update_order id f)
unfolding update_order
update_order-IsAtomic id f = record { undone = λ s t e h. ground arith }

-- A write of a row that is there
pub update_order-Sound :
    (id : ℕ) (g : Order → Order) (o : Order) (s : Store)
    → Sound s s
    → ((x : Order) → (g x).id ≡ x.id)
    → find_order id s ≡ some o
    → Life (some (view o)) (some (view (g o)))
    → Sound s (update_order id g s).1
update_order-Sound id g o s h k a m =
    ends-atomic (Sound s) (update_order id g) s (update_order-IsAtomic id g) h (λ r t p.
      let (x, b, c, d, e, f) = update_order-rows id g s t r p in
      writes-Sound id g o s t h k a m d (same_escrows s t f))

pub update_status-Sound :
    (now id : ℕ) (st : OrderStatus) (f : Order → Order) (o : Order) (s : Store)
    → Sound s s
    → ((x : Order) → (written now st f x).id ≡ x.id)
    → find_order id s ≡ some o
    → Life (some (view o)) (some (view (written now st f o)))
    → Sound s (update_status now id st f s).1
unfolding update_status
update_status-Sound now id st f o s h k a m = update_order-Sound id (written now st f) o s h k a m

waiting : (st : OrderStatus) → not (is_waiting st) ≡ false → st ≡ OrderStatus.waiting_counterparty
waiting st h = ground arith

pub paid_status : (st : OrderStatus) → not (is_paid st) ≡ false → st ≡ OrderStatus.paid
paid_status st h = ground arith

open_status :
    (st : OrderStatus)
    → (is_paid st || is_completed st) ≡ false
    → (st ≢ OrderStatus.paid) × (st ≢ OrderStatus.completed)
open_status st h = ((λ p. ground arith), (λ p. ground arith))

another : (a b : ℕ) → (a == b) ≡ false → b ≢ a
another a b h p = ground arith

pub cancel_order-Sound :
    (now user id : ℕ) (s : Store) → Sound s s → Sound s (cancel_order now user id s).1
unfolding cancel_order
cancel_order-Sound now user id s h =
    ends-found (Sound s) Error.not_found (find_by_id id) _ s h (λ o p.
      ends-unless (Sound s) (not (is_party user o)) Error.forbidden _ s h (λ q.
        ends-unless (Sound s) (is_paid o.status || is_completed o.status) Error.bad_request _ s h
          (λ r.
            let (a, b) = open_status o.status r in
            update_status-Sound now id OrderStatus.cancelled (λ x. x) o s h (λ x. refl)
              (live (find_order id s) o p)
              (Life.steps (view o) _ refl (Step.cancel a b refl) refl))))

pub open_dispute-Sound :
    (now user id : ℕ) (s : Store) → Sound s s → Sound s (open_dispute now user id s).1
unfolding open_dispute
open_dispute-Sound now user id s h =
    ends-found (Sound s) Error.not_found (find_by_id id) _ s h (λ o p.
      ends-unless (Sound s) (not (is_party user o)) Error.forbidden _ s h (λ q.
        ends-unless (Sound s) (not (is_paid o.status)) Error.bad_request _ s h (λ r.
          update_status-Sound now id OrderStatus.disputed (λ x. x) o s h (λ x. refl)
            (live (find_order id s) o p)
            (Life.steps (view o) _ refl (Step.contest (paid_status o.status r) refl) refl))))

-- The order that an invite finds is the one that its identifier finds.
by_invite :
    (token : ℕ) (o : Order) (s : Store)
    → Sound s s
    → find_by_invite_token token s ≡ some o
    → find_order o.id s ≡ some o
by_invite token o s h p =
    found_by_id Order.id Order.invite_token token o s.orders h.distinct (live _ o p)

pub accept_order-Sound :
    (now user token : ℕ) (s : Store) → Sound s s → Sound s (accept_order now user token s).1
unfolding accept_order
accept_order-Sound now user token s h =
    ends-found (Sound s) Error.not_found (find_by_invite_token token) _ s h (λ o p.
      ends-unless (Sound s) (ltb o.invite_expires_at now) Error.bad_request _ s h (λ q.
        ends-unless (Sound s) (not (is_waiting o.status)) Error.conflicting _ s h (λ r.
          ends-unless (Sound s) (o.initiator_id == user) Error.bad_request _ s h (λ n.
            update_status-Sound now o.id OrderStatus.pending_accept
              (λ x. record x { counterparty_id = some user }) o s h (λ x. refl)
              (by_invite token o s h p)
              (Life.steps (view o) _ refl
                (Step.join user (waiting o.status r) (another o.initiator_id user n) refl) refl)))))

edited_same :
    (c : PlatformConfig) (dto : UpdateOrderDto) (w : Bool) (o : Order)
    → ((edited c dto w o).id ≡ o.id) × (view o ≡ view (edited c dto w o))
edited_same c dto w o = (ground arith, ground arith)

pub edit_order-Sound :
    (c : PlatformConfig) (user id : ℕ) (dto : UpdateOrderDto) (s : Store)
    → Sound s s
    → Sound s (edit_order c user id dto s).1
unfolding edit_order
edit_order-Sound c user id dto s h =
    ends-found (Sound s) Error.not_found (find_by_id id) _ s h (λ o p.
      ends-unless (Sound s) (not (o.initiator_id == user)) Error.forbidden _ s h (λ q.
        ends-unless (Sound s) (not (is_waiting o.status || is_pending o.status)) Error.bad_request _
          s h
          (λ r.
            update_order-Sound id (edited c dto (is_waiting o.status)) o s h
              (λ x. (edited_same c dto (is_waiting o.status) x).0) (live (find_order id s) o p)
              (Life.stays (ap some (edited_same c dto (is_waiting o.status) o).1)))))

pub resend_invite-Sound :
    (c : PlatformConfig) (now token user id : ℕ) (s : Store)
    → Sound s s
    → Sound s (resend_invite c now token user id s).1
unfolding resend_invite
resend_invite-Sound c now token user id s h =
    ends-found (Sound s) Error.not_found (find_by_id id) _ s h (λ o p.
      ends-unless (Sound s) (not (o.initiator_id == user)) Error.forbidden _ s h (λ q.
        ends-unless (Sound s) (not (is_waiting o.status)) Error.bad_request _ s h (λ r.
          ends-unless (Sound s) (is_some (find_by Order.invite_token token s.orders))
            Error.unique_violation _ s h
            (λ f.
              update_order-Sound id
                (λ x. record x { invite_token = token; invite_expires_at = expiry c now }) o s h
                (λ x. refl) (live (find_order id s) o p) (Life.stays refl)))))

insert_order-Sound :
    (now user : ℕ) (dto : CreateOrderDto) (fee : ℤ) (token expires : ℕ) (s : Store)
    → Sound s s
    → Sound s (insert_order now user dto fee token expires s).1
unfolding insert_order
insert_order-Sound now user dto fee token expires s h =
    elim (Option-cases (find_order s.next_id s)) [
      | inr (o, p) ↦ rw p h
      | inl p ↦ elim (Bool-cases (is_some (find_by Order.invite_token token s.orders))) [
        | inl q ↦ rw (p, q) h
        | inr q ↦
            rw (p, q)
              (append-Sound (new_order s.next_id now user dto fee token expires) s _ h p refl refl
                refl refl)
      ]
    ]

pub create_order-Sound :
    (c : PlatformConfig) (now token user : ℕ) (dto : CreateOrderDto) (has_key : Bool) (s : Store)
    → Sound s s
    → Sound s (create_order c now token user dto has_key s).1
unfolding create_order
create_order-Sound c now token user dto has_key s h =
    elim (Option-cases (recent_duplicate now user dto has_key s)) [
      | inl p ↦ rw p (
          insert_order-Sound now user dto (calculate_platform_fee c dto.amount_minor) token
            (expiry c now) s h)
      | inr (o, p) ↦ rw p h
    ]
