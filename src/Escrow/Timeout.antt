-- ===== src/Escrow/Timeout.antt =====
-- The scheduled jobs on escrows: `processExpiredEscrows`
-- (kahade-backend/src/core/escrow/escrow.service.ts) and `EscrowTimeoutJob`
-- (kahade-backend/src/core/escrow/escrow-timeout.job.ts). The idempotency keys that they make from an
-- escrow and the date are the argument `key_of`; `enabled`, `batch_size` and the cutoff date are read
-- from the configuration.
use rekberkan.Base.{
  ℕ, zero, suc, ◌+◌, Bool, true, false, not, Option, none, some, List, [], ◌∷◌, if◌then◌else◌, ◌==◌,
  ◌&&◌, ◌||◌, leb, ltb, length,
}
use rekberkan.Base.Table.{filter_rows, update_all}
use rekberkan.Store.{
  Store, EscrowHold, EscrowHoldStatus, Order, OrderStatus, Result, ok, err, Error,
}
use rekberkan.Escrow.Machine.{escrow_code, order_code}
use rekberkan.Escrow.Rows.{system, find_order}
use rekberkan.Escrow.Settle.{release_escrow, refund_escrow}

-- `lte` on a nullable date
abbrev pub is_due : Option ℕ → ℕ → Bool
is_due none now = false
is_due (some d) now = leb d now

abbrev pub is_expired : ℕ → EscrowHold → Bool
is_expired now e =
    escrow_code e.status == escrow_code EscrowHoldStatus.active && is_due e.timeout_at now

-- The count after a call in a `try`: the error is logged and the loop goes on.
abbrev pub count_ok : {A : Type 0} → Result A → ℕ → ℕ
count_ok (ok a) n = n + 1
count_ok (err e) n = n

-- One round of the loop of `processExpiredEscrows`
unfoldable pub auto_release : (ℕ → ℕ → ℕ) → ℕ → EscrowHold → Store → Result EscrowHold × Store
unfolding release_escrow
auto_release key_of now e s = elim (find_order e.order_id s) [
  | none ↦ (err Error.record_not_found, s)
  | some o ↦ release_escrow now e.id system o.platform_fee_minor (key_of e.id now) s
]

unfoldable pub process_each : (ℕ → ℕ → ℕ) → ℕ → List EscrowHold → ℕ → Store → ℕ × Store
unfolding auto_release
process_each key_of now [] count s = (count, s)
process_each key_of now (e ∷ es) count s =
    process_each key_of now es (count_ok (auto_release key_of now e s).0 count)
      (auto_release key_of now e s).1

-- `processExpiredEscrows`: the number processed
unfoldable pub process_expired_escrows : (ℕ → ℕ → ℕ) → ℕ → Store → ℕ × Store
unfolding process_each
process_expired_escrows key_of now s =
    process_each key_of now (filter_rows (is_expired now) s.escrows) 0 s

abbrev pub awaits_payment : OrderStatus → Bool
awaits_payment st =
    order_code st == order_code OrderStatus.pending_accept
    || (order_code st == order_code OrderStatus.accepted
        || order_code st == order_code OrderStatus.waiting_counterparty)

-- What the private `processExpiredEscrow` of the job returns: nothing, or the error of its call.
abbrev pub outcome : Result EscrowHold × Store → Result (Unit {0}) × Store
outcome (ok e, s) = (ok tt, s)
outcome (err x, s) = (err x, s)

unfoldable pub expire_by_order :
    (ℕ → ℕ → ℕ) → (ℕ → ℕ → ℕ) → ℕ → EscrowHold → Option Order → Store → Result (Unit {0}) × Store
unfolding release_escrow refund_escrow
expire_by_order release_key refund_key now e none s = (ok tt, s)
expire_by_order release_key refund_key now e (some o) s =
    if order_code o.status == order_code OrderStatus.paid
    then outcome (release_escrow now e.id system o.platform_fee_minor (release_key e.id now) s)
    else if awaits_payment o.status
    then outcome (refund_escrow now e.id system (refund_key e.id now) s)
    else (ok tt, s)

-- `processExpiredEscrow`; the order is the one that the query of the job has included.
unfoldable pub process_expired_escrow :
    (ℕ → ℕ → ℕ) → (ℕ → ℕ → ℕ) → ℕ → Store → EscrowHold → Store → Result (Unit {0}) × Store
unfolding expire_by_order
process_expired_escrow release_key refund_key now queried e s =
    expire_by_order release_key refund_key now e (find_order e.order_id queried) s

abbrev pub timeout_or : Option ℕ → ℕ
timeout_or none = 0
timeout_or (some d) = d

-- `orderBy: { timeoutAt: "asc" }`; every expired escrow has a timeout
unfoldable pub insert_by_timeout : EscrowHold → List EscrowHold → List EscrowHold
insert_by_timeout e [] = e ∷ []
insert_by_timeout e (x ∷ xs) =
    if leb (timeout_or e.timeout_at) (timeout_or x.timeout_at)
    then e ∷ x ∷ xs
    else x ∷ insert_by_timeout e xs

unfoldable pub by_timeout : List EscrowHold → List EscrowHold
unfolding insert_by_timeout
by_timeout [] = []
by_timeout (e ∷ es) = insert_by_timeout e (by_timeout es)

abbrev pub take : {A : Type 0} → ℕ → List A → List A
take zero xs = []
take (suc n) [] = []
take (suc n) (x ∷ xs) = x ∷ take n xs

-- The loop of `handleEscrowTimeouts`: how many were processed, and how many failed
unfoldable pub handle_each :
    (ℕ → ℕ → ℕ) → (ℕ → ℕ → ℕ) → ℕ → Store → List EscrowHold → ℕ → ℕ → Store → ℕ × ℕ × Store
unfolding process_expired_escrow
handle_each release_key refund_key now queried [] done failed s = (done, failed, s)
handle_each release_key refund_key now queried (e ∷ es) done failed s =
    let (r, s') = process_expired_escrow release_key refund_key now queried e s in
    handle_each release_key refund_key now queried es (count_ok r done)
      (elim r [ ok _ ↦ failed | err _ ↦ failed + 1 ]) s'

-- `handleEscrowTimeouts`
unfoldable pub handle_escrow_timeouts :
    Bool → ℕ → (ℕ → ℕ → ℕ) → (ℕ → ℕ → ℕ) → ℕ → Store → ℕ × ℕ × Store
unfolding handle_each by_timeout
handle_escrow_timeouts enabled batch_size release_key refund_key now s =
    if not enabled
    then (0, 0, s)
    else handle_each release_key refund_key now s
        (take batch_size (by_timeout (filter_rows (is_expired now) s.escrows))) 0 0 s

abbrev pub has_expired_invite : ℕ → Order → Bool
has_expired_invite now o =
    order_code o.status == order_code OrderStatus.waiting_counterparty
    && leb o.invite_expires_at now

-- `handleExpiredInvites`
unfoldable pub handle_expired_invites : Bool → ℕ → Store → Store
handle_expired_invites enabled now s = if not enabled then s else record s {
  orders =
      update_all (has_expired_invite now)
        (λ o. record o { status = OrderStatus.cancelled; cancelled_at = some now }) s.orders;
}

abbrev pub is_old : ℕ → EscrowHold → Bool
is_old cutoff e =
    (escrow_code e.status == escrow_code EscrowHoldStatus.released
      || escrow_code e.status == escrow_code EscrowHoldStatus.refunded)
    && is_due e.resolved_at cutoff

-- `handleDataRetention`
unfoldable pub handle_data_retention : Bool → ℕ → ℕ → Store → Store
handle_data_retention enabled cutoff now s =
    if not enabled
    then s
    else if ltb 0 (length (filter_rows (is_old cutoff) s.escrows))
    then record s {
      escrows =
          update_all (λ e. is_old cutoff e && not e.is_archived)
            (λ e. record e { is_archived = true; archived_at = some now }) s.escrows;
    }
    else s
