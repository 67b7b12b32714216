-- ===== src/Withdrawal/Decided.antt =====
-- What `approveWithdrawal`, `rejectWithdrawal` and `completeWithdrawal`
-- (kahade-backend/src/core/withdrawal/withdrawal.service.ts) have checked and written when they
-- return.
use rekberkan.Base.{
  ℕ, ◌≡◌, Bool, false, not, Option, none, some, [], ◌∷◌, ◌++◌, arith, inl, inr, Option-cases, ◌==◌,
  ◌&&◌, ◌∙◌,
}
use rekberkan.Base.Int.{ℤ, ◌≤ℤ◌}
use rekberkan.Base.Table.{find_first, update_by}
use rekberkan.Store.{
  Store, Wallet, Withdrawal, WithdrawalStatus, WithdrawalApproval, ok, Error, >>=-eq-ok,
}
use rekberkan.Store.Returns.{found, committed, unless_raised}
use rekberkan.Wallet.Rows.{find_wallet, put_wallet, update_wallet, unlock}
use rekberkan.Wallet.Moves.{unlock_balance}
use rekberkan.Wallet.Outcomes.{unlock_balance-ok}
use rekberkan.Withdrawal.Requests.{find_withdrawal}
use rekberkan.Withdrawal.Deciding.{
  update_withdrawal, is_pending, is_approved, approvals_of, insert_approval, approve,
  needs_more_approvals, approve_tx, approve_withdrawal, reject, reject_tx, reject_withdrawal,
  pay_out, finish, complete_tx, complete_withdrawal,
}

-- The row of one withdrawal has been rewritten.
abbrev pub Rewrites :
    ℕ → (Withdrawal → Withdrawal) → Withdrawal → Store → Store → Withdrawal → Type 0
Rewrites id f w s t r =
    (find_withdrawal id s ≡ some w)
    × (r ≡ f w)
    × (t.withdrawals ≡ update_by Withdrawal.id id f s.withdrawals)

pub update_withdrawal-ok :
    (id : ℕ) (f : Withdrawal → Withdrawal) (w : Withdrawal) (s t : Store) (r : Withdrawal)
    → find_withdrawal id s ≡ some w
    → update_withdrawal id f s ≡ (ok r, t)
    → Rewrites id f w s t r × (t.wallets ≡ s.wallets) × (t.approvals ≡ s.approvals)
unfolding update_withdrawal
update_withdrawal-ok id f w s t r e h =
    ((e, ground arith, ground arith), ground arith, ground arith)

-- The same after a step that has left the withdrawals alone
rewritten :
    (id : ℕ) (f : Withdrawal → Withdrawal) (w : Withdrawal) (s u t : Store) (r : Withdrawal)
    → find_withdrawal id s ≡ some w
    → u.withdrawals ≡ s.withdrawals
    → update_withdrawal id f u ≡ (ok r, t)
    → Rewrites id f w s t r × (t.wallets ≡ u.wallets) × (t.approvals ≡ u.approvals)
rewritten id f w s u t r e same h =
    let ((_, p, q), ms, as_) = update_withdrawal-ok id f w u t r (cc) h in ((e, p, cc), ms, as_)

-- The approval of a user for a withdrawal
abbrev pub is_approval : ℕ → ℕ → WithdrawalApproval → Bool
is_approval id approver a = a.withdrawal_id == id && a.approved_by == approver

insert_approval-ok :
    (id approver : ℕ) (s t : Store) (r : Unit {0})
    → insert_approval id approver s ≡ (ok r, t)
    → (find_first (is_approval id approver) s.approvals ≡ none)
      × (t.approvals ≡ s.approvals ++ record { withdrawal_id = id; approved_by = approver } ∷ [])
      × (t.withdrawals ≡ s.withdrawals)
      × (t.wallets ≡ s.wallets)
unfolding insert_approval
insert_approval-ok id approver s t r h =
    elim (Option-cases (find_first (is_approval id approver) s.approvals)) [
      | inl e ↦ (e, ground arith, ground arith, ground arith)
      | inr (a, e) ↦ absurd (ground arith)
    ]

pub pending_eq :
    (w : Withdrawal) → not (is_pending w.status) ≡ false → w.status ≡ WithdrawalStatus.pending
pending_eq w h = ground arith

approved_eq :
    (w : Withdrawal) → not (is_approved w.status) ≡ false → w.status ≡ WithdrawalStatus.approved
approved_eq w h = ground arith

-- When `approveWithdrawal` returns: the withdrawal was pending, the approver had not approved it
-- before and now has; it is approved if no more approvals are needed, else it stays pending.
pub approve_withdrawal-ok :
    (now id approver : ℕ) (notes : Option ℕ) (s t : Store) (r : Withdrawal)
    → approve_withdrawal now id approver notes s ≡ (ok r, t)
    → (w : Withdrawal) × (w.status ≡ WithdrawalStatus.pending)
      × (find_first (is_approval id approver) s.approvals ≡ none)
      × (t.approvals ≡ s.approvals ++ record { withdrawal_id = id; approved_by = approver } ∷ [])
      × Rewrites id
          (approve now approver notes (needs_more_approvals w (approvals_of id s)))
          w
          s
          t
          r
      × (t.wallets ≡ s.wallets)
unfolding approve_withdrawal approve_tx
approve_withdrawal-ok now id approver notes s t r h =
    let (w, a, h1) = found Error.not_found (find_withdrawal id) _ s t r h in
    let (b, h2) =
      unless_raised (not (is_pending w.status)) (Error.bad_status w.status) _ s t r h1 in
    let more = needs_more_approvals w (approvals_of id s) in
    let h3 = committed (approve_tx now id approver notes more) s t r h2 in
    let (x, u, p, q) =
      >>=-eq-ok (insert_approval id approver)
        (λ _. update_withdrawal id (approve now approver notes more)) s h3 in
    let (fresh_, as_, ws, ms) = insert_approval-ok id approver s u x p in
    let (rows, ms', as') = rewritten id (approve now approver notes more) w s u t r a ws q in
    (w, pending_eq w b, fresh_, as' ∙ as_, rows, ms' ∙ ms)

unlocked :
    (u : ℕ) (amount : ℤ) (s t : Store) (x : Wallet)
    → unlock_balance u amount s ≡ (ok x, t)
    → (y : Wallet) × (find_wallet u s ≡ some y)
      × (amount ≤ℤ y.locked_minor)
      × (t.withdrawals ≡ s.withdrawals)
      × (t.approvals ≡ s.approvals)
      × (t.wallets ≡ (put_wallet u (unlock amount) s).wallets)
unlocked u amount s t x h =
    let (y, e, _, q, _, j) = unlock_balance-ok u amount s t x h in (y, e, q, rw j, rw j, rw j)

-- When `rejectWithdrawal` returns: the withdrawal was pending and is rejected, and its amount, which
-- was locked in the wallet, is unlocked.
pub reject_withdrawal-ok :
    (id reason : ℕ) (s t : Store) (r : Withdrawal)
    → reject_withdrawal id reason s ≡ (ok r, t)
    → (w : Withdrawal) × (x : Wallet) × (w.status ≡ WithdrawalStatus.pending)
      × (find_wallet w.user_id s ≡ some x)
      × (w.amount_minor ≤ℤ x.locked_minor)
      × (t.wallets ≡ (put_wallet w.user_id (unlock w.amount_minor) s).wallets)
      × Rewrites id (reject reason) w s t r
      × (t.approvals ≡ s.approvals)
unfolding reject_withdrawal reject_tx
reject_withdrawal-ok id reason s t r h =
    let (w, a, h1) = found Error.not_found (find_withdrawal id) _ s t r h in
    let (b, h2) =
      unless_raised (not (is_pending w.status)) (Error.bad_status w.status) _ s t r h1 in
    let h3 = committed (reject_tx id reason w) s t r h2 in
    let (x, u, p, q) =
      >>=-eq-ok (unlock_balance w.user_id w.amount_minor)
        (λ _. update_withdrawal id (reject reason)) s h3 in
    let (y, e, enough, ws, as_, ms) = unlocked w.user_id w.amount_minor s u x p in
    let (rows, ms', as') = rewritten id (reject reason) w s u t r a ws q in
    (w, y, pending_eq w b, e, enough, ms' ∙ ms, rows, as' ∙ as_)

pub update_wallet-ok :
    (u : ℕ) (f : Wallet → Wallet) (s t : Store) (r : Wallet)
    → update_wallet u f s ≡ (ok r, t)
    → (w : Wallet) × (find_wallet u s ≡ some w)
      × (t.withdrawals ≡ s.withdrawals)
      × (t.approvals ≡ s.approvals)
      × (t.wallets ≡ (put_wallet u f s).wallets)
unfolding update_wallet
update_wallet-ok u f s t r h = elim (Option-cases (find_wallet u s)) [
  | inl e ↦ absurd (ground arith)
  | inr (w, e) ↦ (w, e, ground arith, ground arith, ground arith)
]

-- When `completeWithdrawal` returns: the withdrawal was approved and is completed, and its amount has
-- left the balance and the locked part of the wallet.
pub complete_withdrawal-ok :
    (now id : ℕ) (reference : Option ℕ) (s t : Store) (r : Withdrawal)
    → complete_withdrawal now id reference s ≡ (ok r, t)
    → (w : Withdrawal) × (x : Wallet) × (w.status ≡ WithdrawalStatus.approved)
      × (find_wallet w.user_id s ≡ some x)
      × (t.wallets ≡ (put_wallet w.user_id (pay_out w.amount_minor) s).wallets)
      × Rewrites id (finish now reference) w s t r
      × (t.approvals ≡ s.approvals)
unfolding complete_withdrawal complete_tx
complete_withdrawal-ok now id reference s t r h =
    let (w, a, h1) = found Error.not_found (find_withdrawal id) _ s t r h in
    let (b, h2) =
      unless_raised (not (is_approved w.status)) (Error.bad_status w.status) _ s t r h1 in
    let h3 = committed (complete_tx now id reference w) s t r h2 in
    let (x, u, p, q) =
      >>=-eq-ok (update_wallet w.user_id (pay_out w.amount_minor))
        (λ _. update_withdrawal id (finish now reference)) s h3 in
    let (y, e, ws, as_, ms) = update_wallet-ok w.user_id (pay_out w.amount_minor) s u x p in
    let (rows, ms', as') = rewritten id (finish now reference) w s u t r a ws q in
    (w, y, approved_eq w b, e, ms' ∙ ms, rows, as' ∙ as_)
