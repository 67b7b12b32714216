-- ===== src/Withdrawal/Reserve.antt =====
-- The money that the withdrawal service keeps locked
-- (kahade-backend/src/core/withdrawal/withdrawal.service.ts): what is locked and what is under an open
-- withdrawal move together.
use rekberkan.Base.{
  ℕ, ◌≡◌, refl, sym, ap, ◌∙◌, Option, some, List, [], ◌∷◌, ◌++◌, arith, inl, inr, Option-cases,
}
use mathlib.Core.Path.{subst}
use rekberkan.Base.Int.{ℤ, ◌+ℤ◌, ◌-ℤ◌, 0ℤ, int_laws}
use rekberkan.Base.Table.{sum_rows, sum_rows-update_by, sum_rows-append}
use rekberkan.Store.{Store, Wallet, Withdrawal, WithdrawalStatus, ok}
use rekberkan.Store.Rules.{
  Preserves, Preserves-of-ok, IsAtomic, Undone, IsAtomic-Undone, reads, atomic,
}
use rekberkan.Wallet.Rows.{find_wallet, put_wallet, lock, unlock}
use rekberkan.Wallet.Sums.{total_locked, put_wallet-sums}
use rekberkan.Withdrawal.Requests.{
  CreateWithdrawalDto, find_by_key, create_withdrawal, request_withdrawal,
}
use rekberkan.Withdrawal.Deciding.{
  approve_withdrawal, approve, reject_withdrawal, reject, complete_withdrawal, finish, pay_out,
  needs_more_approvals, approvals_of,
}
use rekberkan.Withdrawal.Created.{create_withdrawal-ok, validate-IsReadOnly}
use rekberkan.Withdrawal.Decided.{
  approve_withdrawal-ok, reject_withdrawal-ok, complete_withdrawal-ok, Rewrites,
}

-- The amount of a withdrawal that is neither rejected nor paid out
abbrev pub open_amount : Withdrawal → ℤ
open_amount w = elim w.status [
  | WithdrawalStatus.pending ↦ w.amount_minor
  | WithdrawalStatus.approved ↦ w.amount_minor
  | _ ↦ 0ℤ
]

abbrev pub total_open : Store → ℤ
total_open s = sum_rows open_amount s.withdrawals

-- What is locked for other reasons than open withdrawals, over all wallets
abbrev pub locked_elsewhere : Store → ℤ
locked_elsewhere s = total_locked s -ℤ total_open s

abbrev pub IsElsewhere : ℤ → Store → Type 0
IsElsewhere m s = locked_elsewhere s ≡ m

request-IsAtomic :
    (start_of_day start_of_month : ℕ → ℕ) (now : ℕ) (dto : CreateWithdrawalDto)
    → IsAtomic (request_withdrawal start_of_day start_of_month now dto)
unfolding request_withdrawal
request-IsAtomic start_of_day start_of_month now dto =
    search (reads, atomic, validate-IsReadOnly) depth 24

pub withdrawal_operations-IsAtomic :
    (start_of_day start_of_month : ℕ → ℕ) (now id user : ℕ) (text : ℕ) (remark : Option ℕ)
    (dto : CreateWithdrawalDto)
    → IsAtomic (create_withdrawal start_of_day start_of_month now dto)
      × IsAtomic (approve_withdrawal now id user remark)
      × IsAtomic (reject_withdrawal id text)
      × IsAtomic (complete_withdrawal now id remark)
unfolding create_withdrawal approve_withdrawal reject_withdrawal complete_withdrawal
withdrawal_operations-IsAtomic start_of_day start_of_month now id user text remark dto = (
  search (reads, atomic, request-IsAtomic) depth 12,
  search (reads, atomic) depth 16,
  search (reads, atomic) depth 16,
  search (reads, atomic) depth 16,
)

pub rewritten_open :
    (id : ℕ) (f : Withdrawal → Withdrawal) (w : Withdrawal) (s t : Store) (r : Withdrawal)
    → Rewrites id f w s t r
    → total_open t +ℤ open_amount w ≡ total_open s +ℤ open_amount (f w)
rewritten_open id f w s t r (e, _, ws) =
    rw ws (sum_rows-update_by open_amount Withdrawal.id id f w s.withdrawals e)

pub locked_by :
    (u : ℕ) (f : Wallet → Wallet) (w : Wallet) (s t : Store)
    → find_wallet u s ≡ some w
    → t.wallets ≡ (put_wallet u f s).wallets
    → total_locked t +ℤ w.locked_minor ≡ total_locked s +ℤ (f w).locked_minor
locked_by u f w s t e ms = rw ms (put_wallet-sums u f w s e).1

pub both_raised :
    (l l' o o' x m : ℤ) → l' +ℤ x ≡ l +ℤ (x +ℤ m) → o' ≡ o +ℤ (m +ℤ 0ℤ) → l' -ℤ o' ≡ l -ℤ o
both_raised l l' o o' x m p q = grind int_laws

pub both_lowered :
    (l l' o o' x m : ℤ) → l' +ℤ x ≡ l +ℤ (x -ℤ m) → o' +ℤ m ≡ o +ℤ 0ℤ → l' -ℤ o' ≡ l -ℤ o
both_lowered l l' o o' x m p q = grind int_laws

neither : (l l' o o' m : ℤ) → l' ≡ l → o' +ℤ m ≡ o +ℤ m → l' -ℤ o' ≡ l -ℤ o
neither l l' o o' m p q = grind int_laws

-- A request whose key has a withdrawal returns it.
pub create_withdrawal_again :
    (start_of_day start_of_month : ℕ → ℕ) (now : ℕ) (dto : CreateWithdrawalDto) (x : Withdrawal)
    (s : Store)
    → find_by_key dto.idempotency_key s ≡ some x
    → create_withdrawal start_of_day start_of_month now dto s ≡ (ok x, s)
unfolding create_withdrawal
create_withdrawal_again start_of_day start_of_month now dto x s e = rw e

pub new_open :
    (w : Withdrawal) (ws : List Withdrawal) (m : ℤ)
    → open_amount w ≡ m
    → sum_rows open_amount (ws ++ w ∷ []) ≡ sum_rows open_amount ws +ℤ (m +ℤ 0ℤ)
new_open w ws m h = sum_rows-append open_amount ws (w ∷ []) ∙ (rw h)

create-reserve :
    (start_of_day start_of_month : ℕ → ℕ) (now : ℕ) (dto : CreateWithdrawalDto) (s t : Store)
    (r : Withdrawal)
    → create_withdrawal start_of_day start_of_month now dto s ≡ (ok r, t)
    → locked_elsewhere t ≡ locked_elsewhere s
create-reserve start_of_day start_of_month now dto s t r h =
    elim (Option-cases (find_by_key dto.idempotency_key s)) [
      | inr (x, e) ↦
          ap (λ p. locked_elsewhere p.1)
            (sym h ∙ create_withdrawal_again start_of_day start_of_month now dto x s e)
      | inl e ↦
          let (user, w, _, f, _, (row, _, _, ws, ms, _)) =
            create_withdrawal-ok start_of_day start_of_month now dto s t r e h in
          both_raised _ _ _ _ w.locked_minor dto.amount_minor
            (locked_by dto.user_id (lock dto.amount_minor) w s t f ms)
            (ap (sum_rows open_amount) ws
              ∙ new_open r s.withdrawals dto.amount_minor (ground (arith, row)))
    ]

approve-reserve :
    (now id approver : ℕ) (notes : Option ℕ) (s t : Store) (r : Withdrawal)
    → approve_withdrawal now id approver notes s ≡ (ok r, t)
    → locked_elsewhere t ≡ locked_elsewhere s
approve-reserve now id approver notes s t r h =
    let (w, p, _, _, rows, ms) = approve_withdrawal-ok now id approver notes s t r h in
    let f = approve now approver notes (needs_more_approvals w (approvals_of id s)) in
    neither _ _ _ _ (open_amount w) (ap (sum_rows Wallet.locked_minor) ms)
      (rewritten_open id f w s t r rows ∙ ap (λ m. total_open s +ℤ m) (ground arith))

reject-reserve :
    (id reason : ℕ) (s t : Store) (r : Withdrawal)
    → reject_withdrawal id reason s ≡ (ok r, t)
    → locked_elsewhere t ≡ locked_elsewhere s
reject-reserve id reason s t r h =
    let (w, x, p, e, _, ms, rows, _) = reject_withdrawal-ok id reason s t r h in
    both_lowered _ _ _ _ x.locked_minor w.amount_minor
      (locked_by w.user_id (unlock w.amount_minor) x s t e ms)
      (subst (λ m. total_open t +ℤ m ≡ total_open s +ℤ 0ℤ) (ground arith)
        (rewritten_open id (reject reason) w s t r rows))

complete-reserve :
    (now id : ℕ) (reference : Option ℕ) (s t : Store) (r : Withdrawal)
    → complete_withdrawal now id reference s ≡ (ok r, t)
    → locked_elsewhere t ≡ locked_elsewhere s
complete-reserve now id reference s t r h =
    let (w, x, p, e, ms, rows, _) = complete_withdrawal-ok now id reference s t r h in
    both_lowered _ _ _ _ x.locked_minor w.amount_minor
      (locked_by w.user_id (pay_out w.amount_minor) x s t e ms)
      (subst (λ m. total_open t +ℤ m ≡ total_open s +ℤ 0ℤ) (ground arith)
        (rewritten_open id (finish now reference) w s t r rows))

withdrawal_operations-reserve :
    (start_of_day start_of_month : ℕ → ℕ) (now id user text : ℕ) (remark : Option ℕ)
    (dto : CreateWithdrawalDto) (m : ℤ)
    → Preserves (IsElsewhere m) (create_withdrawal start_of_day start_of_month now dto)
      × Preserves (IsElsewhere m) (approve_withdrawal now id user remark)
      × Preserves (IsElsewhere m) (reject_withdrawal id text)
      × Preserves (IsElsewhere m) (complete_withdrawal now id remark)
withdrawal_operations-reserve start_of_day start_of_month now id user text remark dto m =
    let (a, b, c, d) =
      withdrawal_operations-IsAtomic start_of_day start_of_month now id user text remark dto in
    (
      Preserves-of-ok (IsElsewhere m) a
          (λ s t r h e. create-reserve start_of_day start_of_month now dto s t r h ∙ e),
      Preserves-of-ok (IsElsewhere m) b
          (λ s t r h e. approve-reserve now id user remark s t r h ∙ e),
      Preserves-of-ok (IsElsewhere m) c (λ s t r h e. reject-reserve id text s t r h ∙ e),
      Preserves-of-ok (IsElsewhere m) d (λ s t r h e. complete-reserve now id remark s t r h ∙ e),
    )

-- A call of `createWithdrawal`, `approveWithdrawal`, `rejectWithdrawal` or `completeWithdrawal` that
-- throws has changed nothing in the tables.
pub withdrawal_operations_undo :
    (start_of_day start_of_month : ℕ → ℕ) (now id user text : ℕ) (remark : Option ℕ)
    (dto : CreateWithdrawalDto) (s : Store)
    → Undone s (create_withdrawal start_of_day start_of_month now dto s)
      × Undone s (approve_withdrawal now id user remark s)
      × Undone s (reject_withdrawal id text s)
      × Undone s (complete_withdrawal now id remark s)
withdrawal_operations_undo start_of_day start_of_month now id user text remark dto s =
    let (a, b, c, d) =
      withdrawal_operations-IsAtomic start_of_day start_of_month now id user text remark dto in
    (IsAtomic-Undone a s, IsAtomic-Undone b s, IsAtomic-Undone c s, IsAtomic-Undone d s)

-- However a call of `createWithdrawal`, `approveWithdrawal`, `rejectWithdrawal` or
-- `completeWithdrawal` ends, what is locked over all wallets less the amounts of the pending and
-- approved withdrawals is the same after it: a request locks its amount, and a rejection and a
-- completion free it, once.
pub withdrawal_operations_reserve :
    (start_of_day start_of_month : ℕ → ℕ) (now id user text : ℕ) (remark : Option ℕ)
    (dto : CreateWithdrawalDto) (s : Store)
    → let m = locked_elsewhere s in
      (locked_elsewhere (create_withdrawal start_of_day start_of_month now dto s).1 ≡ m)
      × (locked_elsewhere (approve_withdrawal now id user remark s).1 ≡ m)
      × (locked_elsewhere (reject_withdrawal id text s).1 ≡ m)
      × (locked_elsewhere (complete_withdrawal now id remark s).1 ≡ m)
withdrawal_operations_reserve start_of_day start_of_month now id user text remark dto s =
    let (a, b, c, d) =
      withdrawal_operations-reserve start_of_day start_of_month now id user text remark dto
        (locked_elsewhere s) in
    (a.holds s refl, b.holds s refl, c.holds s refl, d.holds s refl)
