-- ===== src/Withdrawal/Vetted.antt =====
-- The approvals of kahade-backend/src/core/withdrawal/withdrawal.service.ts: what has to be there
-- before a withdrawal is approved or paid out.
use rekberkan.Base.{
  ℕ, ◌+◌, ◌≤◌, ◌≡◌, refl, Bool, true, false, not, Option, some, List, [], ◌∷◌, ◌++◌, arith, inl,
  inr, Option-cases, leb, length, ◌==◌, ◌||◌, ap, sym, ◌∙◌,
}
use mathlib.Core.Path.{subst}
use rekberkan.Base.Table.{All, All-update_by, All-append, filter_rows, find_by-key}
use rekberkan.Store.{Store, Withdrawal, WithdrawalStatus, WithdrawalApproval, ok}
use rekberkan.Store.Rules.{Preserves, Preserves-of-ok}
use rekberkan.Withdrawal.Requests.{
  CreateWithdrawalDto, find_by_key, find_withdrawal, create_withdrawal,
}
use rekberkan.Withdrawal.Deciding.{
  approve_withdrawal, approve, reject_withdrawal, reject, complete_withdrawal, finish,
  needs_more_approvals,
}
use rekberkan.Withdrawal.Created.{create_withdrawal-ok}
use rekberkan.Withdrawal.Decided.{
  approve_withdrawal-ok, reject_withdrawal-ok, complete_withdrawal-ok,
}
use rekberkan.Withdrawal.Reserve.{withdrawal_operations-IsAtomic, create_withdrawal_again}

-- Whether money may leave under a status
abbrev pub is_granted : WithdrawalStatus → Bool
is_granted WithdrawalStatus.approved = true
is_granted WithdrawalStatus.completed = true
is_granted _ = false

abbrev pub approvals_in : ℕ → List WithdrawalApproval → ℕ
approvals_in id as_ = length (filter_rows (λ a. a.withdrawal_id == id) as_)

-- A withdrawal that several have to approve is granted only with that many approvals.
abbrev pub is_vetted : List WithdrawalApproval → Withdrawal → Bool
is_vetted as_ w =
    not (is_granted w.status)
    || (not w.requires_multiple_approvals || leb w.required_approvals (approvals_in w.id as_))

abbrev pub IsVettedBy : List WithdrawalApproval → Withdrawal → Type 0
IsVettedBy as_ w = is_vetted as_ w ≡ true

abbrev pub IsVetted : Store → Type 0
IsVetted s = All (IsVettedBy s.approvals) s.withdrawals

approvals_more :
    (id : ℕ) (as_ : List WithdrawalApproval) (a : WithdrawalApproval)
    → approvals_in id as_ ≤ approvals_in id (as_ ++ a ∷ [])
approvals_more id [] a = ground arith
approvals_more id (x ∷ as_) a = ground (arith, approvals_more id as_ a)

approvals_one :
    (id approver : ℕ) (as_ : List WithdrawalApproval)
    → approvals_in id (as_ ++ record { withdrawal_id = id; approved_by = approver } ∷ [])
      ≡ approvals_in id as_ + 1
approvals_one id approver [] = ground arith
approvals_one id approver (x ∷ as_) = ground (arith, approvals_one id approver as_)

vetted_more :
    (as_ : List WithdrawalApproval) (a : WithdrawalApproval) (ws : List Withdrawal)
    → All (IsVettedBy as_) ws
    → All (IsVettedBy (as_ ++ a ∷ [])) ws
vetted_more as_ a [] h = tt
vetted_more as_ a (w ∷ ws) h =
    (ground (arith, h.0, approvals_more w.id as_ a), vetted_more as_ a ws h.1)

create-IsVetted :
    (start_of_day start_of_month : ℕ → ℕ) (now : ℕ) (dto : CreateWithdrawalDto) (s t : Store)
    (r : Withdrawal)
    → create_withdrawal start_of_day start_of_month now dto s ≡ (ok r, t)
    → IsVetted s
    → IsVetted t
create-IsVetted start_of_day start_of_month now dto s t r h v =
    elim (Option-cases (find_by_key dto.idempotency_key s)) [
      | inr (x, e) ↦
          subst IsVetted
            (ap (λ p. p.1)
              (sym (create_withdrawal_again start_of_day start_of_month now dto x s e) ∙ h))
            v
      | inl e ↦
          let (user, w, _, f, _, (row, _, _, ws, _, as_)) =
            create_withdrawal-ok start_of_day start_of_month now dto s t r e h in
          rw (ws, as_)
            (All-append (IsVettedBy s.approvals) s.withdrawals (r ∷ []) v (ground (arith, row), tt))
    ]

-- The pending withdrawal after one more approval
vetted_approved :
    (now approver : ℕ) (notes : Option ℕ) (w : Withdrawal) (as_ : List WithdrawalApproval)
    → IsVettedBy
        (as_ ++ record { withdrawal_id = w.id; approved_by = approver } ∷ [])
        (approve now approver notes (needs_more_approvals w (approvals_in w.id as_)) w)
vetted_approved now approver notes w as_ = ground (arith, approvals_one w.id approver as_)

vetted_found :
    (now id approver : ℕ) (notes : Option ℕ) (w x : Withdrawal) (s : Store)
    → find_withdrawal id s ≡ some w
    → find_withdrawal id s ≡ some x
    → IsVettedBy
        (s.approvals ++ record { withdrawal_id = id; approved_by = approver } ∷ [])
        (approve now approver notes (needs_more_approvals w (approvals_in id s.approvals)) x)
vetted_found now id approver notes w x s e f = ground (
  arith,
  vetted_approved now approver notes x s.approvals,
  find_by-key Withdrawal.id id x s.withdrawals f,
)

approve-IsVetted :
    (now id approver : ℕ) (notes : Option ℕ) (s t : Store) (r : Withdrawal)
    → approve_withdrawal now id approver notes s ≡ (ok r, t)
    → IsVetted s
    → IsVetted t
approve-IsVetted now id approver notes s t r h v =
    let (w, p, _, as_, (e, _, ws), _) = approve_withdrawal-ok now id approver notes s t r h in
    let more = needs_more_approvals w (approvals_in id s.approvals) in
    let a : WithdrawalApproval = record { withdrawal_id = id; approved_by = approver } in
    rw (ws, as_)
      (All-update_by (IsVettedBy (s.approvals ++ a ∷ [])) Withdrawal.id id
        (approve now approver notes more) s.withdrawals (vetted_more s.approvals a s.withdrawals v)
        (λ x f _. vetted_found now id approver notes w x s e f))

reject-IsVetted :
    (id reason : ℕ) (s t : Store) (r : Withdrawal)
    → reject_withdrawal id reason s ≡ (ok r, t)
    → IsVetted s
    → IsVetted t
reject-IsVetted id reason s t r h v =
    let (w, _, _, _, _, _, (e, _, ws), as_) = reject_withdrawal-ok id reason s t r h in
    rw (ws, as_)
      (All-update_by (IsVettedBy s.approvals) Withdrawal.id id (reject reason) s.withdrawals v
        (λ x f k. refl))

completed_vetted :
    (now id : ℕ) (reference : Option ℕ) (w x : Withdrawal) (s : Store)
    → w.status ≡ WithdrawalStatus.approved
    → find_withdrawal id s ≡ some w
    → find_withdrawal id s ≡ some x
    → IsVettedBy s.approvals x
    → IsVettedBy s.approvals (finish now reference x)
completed_vetted now id reference w x s p e f k = ground arith

complete-IsVetted :
    (now id : ℕ) (reference : Option ℕ) (s t : Store) (r : Withdrawal)
    → complete_withdrawal now id reference s ≡ (ok r, t)
    → IsVetted s
    → IsVetted t
complete-IsVetted now id reference s t r h v =
    let (w, _, p, _, _, (e, _, ws), as_) = complete_withdrawal-ok now id reference s t r h in
    rw (ws, as_)
      (All-update_by (IsVettedBy s.approvals) Withdrawal.id id (finish now reference) s.withdrawals
        v (λ x f k. completed_vetted now id reference w x s p e f k))

withdrawal_operations-IsVetted :
    (start_of_day start_of_month : ℕ → ℕ) (now id user text : ℕ) (remark : Option ℕ)
    (dto : CreateWithdrawalDto)
    → Preserves IsVetted (create_withdrawal start_of_day start_of_month now dto)
      × Preserves IsVetted (approve_withdrawal now id user remark)
      × Preserves IsVetted (reject_withdrawal id text)
      × Preserves IsVetted (complete_withdrawal now id remark)
withdrawal_operations-IsVetted start_of_day start_of_month now id user text remark dto =
    let (a, b, c, d) =
      withdrawal_operations-IsAtomic start_of_day start_of_month now id user text remark dto in
    (
      Preserves-of-ok IsVetted a
          (λ s t r h v. create-IsVetted start_of_day start_of_month now dto s t r h v),
      Preserves-of-ok IsVetted b (λ s t r h v. approve-IsVetted now id user remark s t r h v),
      Preserves-of-ok IsVetted c (λ s t r h v. reject-IsVetted id text s t r h v),
      Preserves-of-ok IsVetted d (λ s t r h v. complete-IsVetted now id remark s t r h v),
    )

-- However a call of `createWithdrawal`, `approveWithdrawal`, `rejectWithdrawal` or
-- `completeWithdrawal` ends: if every withdrawal that is approved or completed, and requires several
-- approvals, had that many before the call, it has them after it.
pub withdrawal_operations_vet :
    (start_of_day start_of_month : ℕ → ℕ) (now id user text : ℕ) (remark : Option ℕ)
    (dto : CreateWithdrawalDto) (s : Store)
    → IsVetted s
    → IsVetted (create_withdrawal start_of_day start_of_month now dto s).1
      × IsVetted (approve_withdrawal now id user remark s).1
      × IsVetted (reject_withdrawal id text s).1
      × IsVetted (complete_withdrawal now id remark s).1
withdrawal_operations_vet start_of_day start_of_month now id user text remark dto s h =
    let (a, b, c, d) =
      withdrawal_operations-IsVetted start_of_day start_of_month now id user text remark dto in
    (a.holds s h, b.holds s h, c.holds s h, d.holds s h)
