-- ===== src/Withdrawal/Created.antt =====
-- What `createWithdrawal` (kahade-backend/src/core/withdrawal/withdrawal.service.ts) has checked and
-- written when it returns a new withdrawal.
use rekberkan.Base.{ℕ, ◌≡◌, Option, none, some, List, [], ◌∷◌, ◌++◌, arith, inl, inr, Option-cases}
use rekberkan.Base.Int.{ℤ, ◌≤ℤ◌, ◌<ℤ◌, 0ℤ, ltb_ℤ}
use rekberkan.Base.Table.{find_by, find_first}
use rekberkan.Store.{
  Store, Wallet, Withdrawal, KycStatus, User, FlagReason, Action, ok, Error, ◌>>◌, >>=-eq-ok,
}
use rekberkan.Store.Rules.{IsReadOnly, reads, IsReadOnly->>=, IsReadOnly->>}
use rekberkan.Store.Returns.{found, committed, existing_none, unless_raised, at_return}
use rekberkan.Wallet.Rows.{find_wallet, put_wallet, available, lock}
use rekberkan.Wallet.Retry.{alone, lock_balance}
use rekberkan.Wallet.Alone.{lock_balance-ok}
use rekberkan.Withdrawal.Limits.{Limits, limits_of, check_cooling, validate_withdrawal_limits}
use rekberkan.Withdrawal.Velocity.{calculate_velocity_score}
use rekberkan.Withdrawal.Caps.{IsWithin, validate_withdrawal_limits_iff}
use rekberkan.Withdrawal.Requests.{
  CreateWithdrawalDto, new_withdrawal, find_by_key, insert_withdrawal, create_withdrawal_tx,
  request_withdrawal, create_withdrawal, is_usable,
}

check_cooling-IsReadOnly :
    (minutes now : ℕ) (last : Option ℕ) → IsReadOnly (check_cooling minutes now last)
check_cooling-IsReadOnly minutes now last = record { same = λ s. ground arith }

pub validate-IsReadOnly :
    (start_of_day start_of_month : ℕ → ℕ) (now user : ℕ) (amount : ℤ) (kyc : Option KycStatus)
    → IsReadOnly (validate_withdrawal_limits start_of_day start_of_month now user amount kyc)
unfolding validate_withdrawal_limits
validate-IsReadOnly start_of_day start_of_month now user amount kyc =
    search (reads, check_cooling-IsReadOnly, IsReadOnly->>=, IsReadOnly->>) depth 24

-- The validation has passed, in the tables that it began with.
validated :
    {B : Type 0} (start_of_day start_of_month : ℕ → ℕ) (now user : ℕ) (amount : ℤ)
    (kyc : Option KycStatus) (k : Action B) (s t : Store) (b : B)
    → (validate_withdrawal_limits start_of_day start_of_month now user amount kyc >> k) s
      ≡ (ok b, t)
    → IsWithin start_of_day start_of_month now user amount (limits_of kyc) s × (k s ≡ (ok b, t))
validated start_of_day start_of_month now user amount kyc k s t b h =
    let m = validate_withdrawal_limits start_of_day start_of_month now user amount kyc in
    let (x, u, p, q) = >>=-eq-ok m (λ _. k) s h in
    let e =
      at_return (λ v. v ≡ s) (m s) p
        ((validate-IsReadOnly start_of_day start_of_month now user amount kyc).same s) in
    ((validate_withdrawal_limits_iff start_of_day start_of_month now user amount kyc s).0 (cc), cc)

-- The tables after a new withdrawal, with the lock of its amount
abbrev pub Requests :
    ℕ → CreateWithdrawalDto → Wallet → Limits → Store → Withdrawal → Store → Type 0
Requests now dto wallet limits s r t =
    (r
      ≡ new_withdrawal now s.next_id dto wallet limits (calculate_velocity_score now dto.user_id s))
    × (0ℤ <ℤ dto.amount_minor)
    × (dto.amount_minor ≤ℤ available wallet)
    × (t.withdrawals ≡ s.withdrawals ++ r ∷ [])
    × (t.wallets ≡ (put_wallet dto.user_id (lock dto.amount_minor) s).wallets)
    × (t.approvals ≡ s.approvals)

insert-ok :
    (now : ℕ) (dto : CreateWithdrawalDto) (w : Wallet) (limits : Limits)
    (v : ℕ × Option (List FlagReason)) (s t : Store) (r : Withdrawal)
    → insert_withdrawal now dto w limits v s ≡ (ok r, t)
    → (r ≡ new_withdrawal now s.next_id dto w limits v)
      × (t.withdrawals ≡ s.withdrawals ++ r ∷ [])
      × (t.wallets ≡ s.wallets)
      × (t.approvals ≡ s.approvals)
unfolding insert_withdrawal
insert-ok now dto w limits v s t r h = elim (Option-cases (find_by_key dto.idempotency_key s)) [
  | inl e ↦ (ground arith, ground arith, ground arith, ground arith)
  | inr (x, e) ↦ absurd (ground arith)
]

requested :
    (now : ℕ) (dto : CreateWithdrawalDto) (w y : Wallet) (limits : Limits) (s u t : Store)
    (r : Withdrawal)
    → find_wallet dto.user_id s ≡ some w
    → find_wallet dto.user_id s ≡ some y
    → 0ℤ <ℤ dto.amount_minor
    → dto.amount_minor ≤ℤ available y
    → u ≡ put_wallet dto.user_id (lock dto.amount_minor) s
    → insert_withdrawal now dto w limits (calculate_velocity_score now dto.user_id s) u ≡ (ok r, t)
    → Requests now dto w limits s r t
requested now dto w y limits s u t r f e a b j h =
    let (row, ws, ms, as_) = insert-ok now dto w limits _ u t r h in
    (cc, a, ground arith, cc, cc, cc)

create_tx-ok :
    (now : ℕ) (dto : CreateWithdrawalDto) (w : Wallet) (limits : Limits) (s t : Store)
    (r : Withdrawal)
    → find_wallet dto.user_id s ≡ some w
    → create_withdrawal_tx now dto w limits (calculate_velocity_score now dto.user_id s) s
      ≡ (ok r, t)
    → Requests now dto w limits s r t
unfolding create_withdrawal_tx
create_tx-ok now dto w limits s t r f h =
    let v = calculate_velocity_score now dto.user_id s in
    let (x, u, p, q) = >>=-eq-ok (lock_balance alone dto.user_id dto.amount_minor) _ s h in
    let (y, e, a, b, j) = lock_balance-ok dto.user_id dto.amount_minor s u x p in
    requested now dto w y limits s u t r f e a b j q

-- What a request has checked and written, from the tables `s` to the tables `t`
abbrev pub Accepted :
    (ℕ → ℕ) → (ℕ → ℕ) → ℕ → CreateWithdrawalDto → Store → Withdrawal → Store → Type 0
Accepted start_of_day start_of_month now dto s r t =
    (user : User) × (w : Wallet) × (find_by User.id dto.user_id s.users ≡ some user)
    × (find_wallet dto.user_id s ≡ some w)
    × IsWithin start_of_day start_of_month now dto.user_id dto.amount_minor
        (limits_of user.kyc_status) s
    × Requests now dto w (limits_of user.kyc_status) s r t

request_withdrawal-ok :
    (start_of_day start_of_month : ℕ → ℕ) (now : ℕ) (dto : CreateWithdrawalDto) (s t : Store)
    (r : Withdrawal)
    → request_withdrawal start_of_day start_of_month now dto s ≡ (ok r, t)
    → Accepted start_of_day start_of_month now dto s r t
unfolding request_withdrawal
request_withdrawal-ok start_of_day start_of_month now dto s t r h =
    let (user, a, h1) =
      found Error.not_found (λ s. find_by User.id dto.user_id s.users) _ s t r h in
    let (bank, b, h2) =
      found Error.bad_request (λ s. find_first (is_usable dto) s.bank_accounts) _ s t r h1 in
    let (w, c, h3) = found Error.not_found (find_wallet dto.user_id) _ s t r h2 in
    let (d, h4) = unless_raised (ltb_ℤ (available w) dto.amount_minor) _ _ s t r h3 in
    let (within, h5) =
      validated start_of_day start_of_month now dto.user_id dto.amount_minor user.kyc_status _ s t r
        h4 in
    (
      user,
      w,
      a,
      c,
      within,
      create_tx-ok now dto w (limits_of user.kyc_status) s t r c (
          committed
            (create_withdrawal_tx now dto w (limits_of user.kyc_status)
              (calculate_velocity_score now dto.user_id s))
            s t r h5),
    )

-- When `createWithdrawal` returns for a key that has no withdrawal yet: the user and the wallet are
-- there, the request was within the limits of the user's level and within what was available; the
-- new row is the one described, pending; and the amount is locked in the wallet.
pub create_withdrawal-ok :
    (start_of_day start_of_month : ℕ → ℕ) (now : ℕ) (dto : CreateWithdrawalDto) (s t : Store)
    (r : Withdrawal)
    → find_by_key dto.idempotency_key s ≡ none
    → create_withdrawal start_of_day start_of_month now dto s ≡ (ok r, t)
    → Accepted start_of_day start_of_month now dto s r t
unfolding create_withdrawal
create_withdrawal-ok start_of_day start_of_month now dto s t r none_yet h =
    request_withdrawal-ok start_of_day start_of_month now dto s t r (
      existing_none (find_by_key dto.idempotency_key)
        (request_withdrawal start_of_day start_of_month now dto) s t r none_yet h)
