-- ===== src/Escrow/Unreachable.antt =====
-- Two paths of kahade-backend/src/core/escrow/escrow.service.ts that no input takes to their end: the
-- resolution of a dispute, and the automatic release of an expired escrow.
use rekberkan.Base.{ℕ, ◌≡◌, ◌≢◌, refl, some, List, [], ◌∷◌, arith, inl, inr, Option-cases}
use rekberkan.Base.Int.{ℤ}
use rekberkan.Base.Table.{All, find_by-All, filter_rows}
use rekberkan.Store.{
  Store, EscrowHold, EscrowHoldStatus, Order, Wallet, Action, err, Error, Result-cases,
}
use rekberkan.Escrow.Machine.{
  status, EscrowAction, validate_escrow_transition, validate_actor_permission,
}
use rekberkan.Escrow.Rows.{find_escrow, find_order, find_wallet_id, system}
use rekberkan.Escrow.Settle.{release_escrow}
use rekberkan.Escrow.Dispute.{ResolveDisputeOptions, resolve_dispute}
use rekberkan.Escrow.Timeout.{auto_release, process_each, process_expired_escrows, is_expired}
use rekberkan.Escrow.Laws.{resolution_refused}

-- `resolveDispute` refuses every call on an escrow that is there, whatever its status, the resolution
-- and the amounts, and changes nothing: the name of the resolution is checked as a status.
pub resolve_dispute_refused :
    (now : ℕ) (o : ResolveDisputeOptions) (e : EscrowHold) (order : Order) (w : Wallet) (s : Store)
    → find_escrow o.escrow_id s ≡ some e
    → find_order e.order_id s ≡ some order
    → find_wallet_id e.buyer_wallet_id s ≡ some w
    → resolve_dispute now o s ≡ (err (Error.invalid_transition e.status), s)
unfolding resolve_dispute
resolve_dispute_refused now o e order w s f g h =
    ground (arith, resolution_refused e.status o.outcome)

-- No party of the order is the actor "SYSTEM".
abbrev pub IsHuman : Order → Type 0
IsHuman o = (o.initiator_id ≢ system) × (o.counterparty_id ≢ some system)

-- The permission that `releaseEscrow` asks for is refused to "SYSTEM".
system_refused :
    (o : Order)
    → IsHuman o
    → validate_actor_permission o system EscrowAction.release ≡ err (Error.unauthorized system)
unfolding validate_actor_permission
system_refused o h = ground arith

-- A call that throws and leaves the tables as they are.
abbrev IsRefused : {A : Type 0} → Action A → Store → Type 0
IsRefused m s = (x : Error) × (m s ≡ (err x, s))

release_of :
    (now id : ℕ) (fee : ℤ) (key : ℕ) (s : Store) (e : EscrowHold) (o : Order) (w : Wallet)
    → find_escrow id s ≡ some e
    → find_order e.order_id s ≡ some o
    → find_wallet_id e.buyer_wallet_id s ≡ some w
    → IsHuman o
    → IsRefused (release_escrow now id system fee key) s
unfolding release_escrow
release_of now id fee key s e o w f g k h =
    elim (Result-cases (validate_escrow_transition e.status (status EscrowHoldStatus.released))) [
      | inl (a, p) ↦ (Error.unauthorized system, ground (arith, system_refused o h))
      | inr (x, p) ↦ (x, ground arith)
    ]

release_by_system :
    (now id : ℕ) (fee : ℤ) (key : ℕ) (s : Store)
    → All IsHuman s.orders
    → IsRefused (release_escrow now id system fee key) s
unfolding release_escrow
release_by_system now id fee key s h = elim (Option-cases (find_escrow id s)) [
  | inl p ↦ (Error.not_found, ground arith)
  | inr (e, p) ↦ elim (Option-cases (find_order e.order_id s)) [
    | inl q ↦ (Error.record_not_found, ground arith)
    | inr (o, q) ↦ elim (Option-cases (find_wallet_id e.buyer_wallet_id s)) [
      | inl r ↦ (Error.record_not_found, ground arith)
      | inr (w, r) ↦
          release_of now id fee key s e o w p q r
            (find_by-All IsHuman Order.id e.order_id o s.orders h q)
    ]
  ]
]

auto_release-IsRefused :
    (key_of : ℕ → ℕ → ℕ) (now : ℕ) (e : EscrowHold) (s : Store)
    → All IsHuman s.orders
    → IsRefused (auto_release key_of now e) s
unfolding auto_release
auto_release-IsRefused key_of now e s h = elim (Option-cases (find_order e.order_id s)) [
  | inl p ↦ (Error.record_not_found, ground arith)
  | inr (o, p) ↦
      let (x, q) = release_by_system now e.id o.platform_fee_minor (key_of e.id now) s h in
      (x, ground arith)
]

process_each_nothing :
    (key_of : ℕ → ℕ → ℕ) (now : ℕ) (es : List EscrowHold) (n : ℕ) (s : Store)
    → All IsHuman s.orders
    → process_each key_of now es n s ≡ (n, s)
unfolding process_each
process_each_nothing key_of now [] n s h = refl
process_each_nothing key_of now (e ∷ es) n s h =
    let (x, q) = auto_release-IsRefused key_of now e s h in
    rw q (process_each_nothing key_of now es n s h)

-- `processExpiredEscrows` releases no escrow, whichever are expired, and leaves all tables as they
-- are, as long as no user's identifier is "SYSTEM": the permission check has no case for the job.
pub process_expired_escrows_nothing :
    (key_of : ℕ → ℕ → ℕ) (now : ℕ) (s : Store)
    → All IsHuman s.orders
    → process_expired_escrows key_of now s ≡ (0, s)
unfolding process_expired_escrows
process_expired_escrows_nothing key_of now s h =
    process_each_nothing key_of now (filter_rows (is_expired now) s.escrows) 0 s h
