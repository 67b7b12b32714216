-- ===== src/Withdrawal/Cancel.antt =====
-- `cancelPendingWithdrawal` (kahade-backend/src/core/wallet/wallet.service.ts): a user takes back a
-- withdrawal. The text of the reason is an argument.
use rekberkan.Base.{ℕ, ◌≡◌, refl, ◌∙◌, ap, not, some, arith, ◌==◌}
use mathlib.Core.Path.{subst}
use rekberkan.Base.Int.{◌+ℤ◌, 0ℤ}
use rekberkan.Base.Table.{sum_rows}
use rekberkan.Store.{
  Store, Wallet, Withdrawal, WithdrawalStatus, Action, ok, Error, ◌>>=◌, ◌>>◌, >>=-eq-ok, pure,
  raise_if, gets, or_raise, in_transaction,
}
use rekberkan.Store.Rules.{Preserves-of-ok, IsAtomic, Undone, IsAtomic-Undone, reads, atomic}
use rekberkan.Store.Returns.{found, committed, unless_raised}
use rekberkan.Wallet.Rows.{find_wallet, update_wallet, unlock}
use rekberkan.Withdrawal.Requests.{find_withdrawal}
use rekberkan.Withdrawal.Deciding.{update_withdrawal, is_pending, reject}
use rekberkan.Withdrawal.Decided.{update_withdrawal-ok, update_wallet-ok, pending_eq}
use rekberkan.Withdrawal.Reserve.{
  locked_elsewhere, total_open, open_amount, IsElsewhere, both_lowered, locked_by, rewritten_open,
}

unfoldable pub cancel_tx : ℕ → ℕ → ℕ → Withdrawal → Action (Unit {0})
unfolding update_withdrawal update_wallet
cancel_tx user id reason w = do
  update_withdrawal id (reject reason)
  update_wallet user (unlock w.amount_minor)
  pure tt

-- `cancelPendingWithdrawal`
unfoldable pub cancel_pending_withdrawal : ℕ → ℕ → ℕ → Action (Unit {0})
unfolding cancel_tx
cancel_pending_withdrawal user id reason = do
  wallet ← or_raise Error.wallet_not_found (← gets (find_wallet user))
  w ← or_raise Error.bad_request (← gets (find_withdrawal id))
  raise_if (not (w.wallet_id == wallet.id)) Error.bad_request
  raise_if (not (is_pending w.status)) (Error.bad_status w.status)
  in_transaction (cancel_tx user id reason w)

cancel-IsAtomic : (user id reason : ℕ) → IsAtomic (cancel_pending_withdrawal user id reason)
unfolding cancel_pending_withdrawal
cancel-IsAtomic user id reason = search (reads, atomic) depth 20

-- The steps of the transaction, with the tables between them
cancel_steps :
    (user id reason : ℕ) (w : Withdrawal) (s u t : Store) (r : Withdrawal) (x : Wallet)
    → w.status ≡ WithdrawalStatus.pending
    → find_withdrawal id s ≡ some w
    → update_withdrawal id (reject reason) s ≡ (ok r, u)
    → update_wallet user (unlock w.amount_minor) u ≡ (ok x, t)
    → locked_elsewhere t ≡ locked_elsewhere s
cancel_steps user id reason w s u t r x p e h k =
    let (rows, ms, _) = update_withdrawal-ok id (reject reason) w s u r e h in
    let (y, f, ws, _, ms') = update_wallet-ok user (unlock w.amount_minor) u t x k in
    let gone : total_open u +ℤ w.amount_minor ≡ total_open s +ℤ 0ℤ =
      subst (λ m. total_open u +ℤ m ≡ total_open s +ℤ 0ℤ) (ground arith)
        (rewritten_open id (reject reason) w s u r rows) in
    both_lowered _ _ _ _ y.locked_minor w.amount_minor
      (locked_by user (unlock w.amount_minor) y u t f ms'
        ∙ ap (λ l. sum_rows Wallet.locked_minor l +ℤ (unlock w.amount_minor y).locked_minor) ms)
      (ap (λ l. sum_rows open_amount l +ℤ w.amount_minor) ws ∙ gone)

cancel-reserve :
    (user id reason : ℕ) (s t : Store) (r : Unit {0})
    → cancel_pending_withdrawal user id reason s ≡ (ok r, t)
    → locked_elsewhere t ≡ locked_elsewhere s
unfolding cancel_pending_withdrawal cancel_tx
cancel-reserve user id reason s t r h =
    let (y, a, h1) = found Error.wallet_not_found (find_wallet user) _ s t r h in
    let (w, b, h2) = found Error.bad_request (find_withdrawal id) _ s t r h1 in
    let (c, h3) = unless_raised (not (w.wallet_id == y.id)) Error.bad_request _ s t r h2 in
    let (d, h4) =
      unless_raised (not (is_pending w.status)) (Error.bad_status w.status) _ s t r h3 in
    let h5 = committed (cancel_tx user id reason w) s t r h4 in
    let (row, u, p, q) =
      >>=-eq-ok (update_withdrawal id (reject reason))
        (λ _. update_wallet user (unlock w.amount_minor) >> pure tt) s h5 in
    let (x, v, k, z) = >>=-eq-ok (update_wallet user (unlock w.amount_minor)) (λ _. pure tt) u q in
    cancel_steps user id reason w s u t row x (pending_eq w d) b p (cc)

-- A `cancelPendingWithdrawal` that throws has changed nothing, and however it ends, what is locked
-- over all wallets less the amounts of the pending and approved withdrawals is the same after it.
pub cancel_pending_withdrawal_lem :
    (user id reason : ℕ) (s : Store)
    → Undone s (cancel_pending_withdrawal user id reason s)
      × (locked_elsewhere (cancel_pending_withdrawal user id reason s).1 ≡ locked_elsewhere s)
cancel_pending_withdrawal_lem user id reason s =
    let atom = cancel-IsAtomic user id reason in
    let keeps =
      Preserves-of-ok (IsElsewhere (locked_elsewhere s)) atom
        (λ v t r h e. cancel-reserve user id reason v t r h ∙ e) in
    (IsAtomic-Undone atom s, keeps.holds s refl)
