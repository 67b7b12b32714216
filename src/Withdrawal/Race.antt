-- ===== src/Withdrawal/Race.antt =====
-- `withdraw` of kahade-backend/src/core/wallet/wallet.service.ts alone and beside another call.
use rekberkan.Base.{
  List, true, ℕ, ◌+◌, ◌≡◌, refl, sym, ap, ◌∙◌, false, some, [], ◌∷◌, ◌++◌, arith, eq→==, ◌≡◌,
}
use mathlib.Core.Path.{subst}
use mathlib.Core.Option
use rekberkan.Base.Int.{leb_ℤ, ℤ, pos, ◌+ℤ◌, ◌≤ℤ◌, ◌<ℤ◌, ltb_ℤ, int_laws}
use rekberkan.Base.Table.{All, find_by, find_first, find_by-update_by, update_by}
use rekberkan.Store.{Withdrawal, Action, err, Error, Store, Wallet, BankAccount, ok, in_transaction}
use rekberkan.Wallet.Rows.{find_wallet, update_wallet, available, lock}
use rekberkan.Wallet.Bounds.{IsSound, IsSolvent, put_found-IsSolvent, find_wallet-IsSound}
use rekberkan.Withdrawal.Reserve.{locked_elsewhere, both_raised, locked_by, new_open}
use rekberkan.Withdrawal.Direct.{
  withdraw_in, constrained, all_covered, WithdrawDto, is_usable_account, account_for,
  direct_withdrawal, insert_direct, withdraw_tx, withdraw,
}

-- The tables with the amount locked and the withdrawal added
abbrev pub asked : ℕ → ℕ → ℕ → ℕ → ℤ → Store → Store
asked now wallet user bank amount s = record s {
  wallets = update_by Wallet.user_id user (lock amount) s.wallets;
  withdrawals = s.withdrawals ++ direct_withdrawal now s.next_id wallet user bank amount ∷ [];
  next_id = s.next_id + 1;
}

-- What `withdraw` checks of a request with an account that is named
pub record Admits (user : ℕ) (dto : WithdrawDto) (w : Wallet) (b : BankAccount) (s : Store)
    : Type 0 where
  pub enough : pos 5_000_000 ≤ℤ dto.amount_minor
  pub wallet : find_wallet user s ≡ some w
  pub there : dto.amount_minor ≤ℤ available w
  pub account : ℕ
  pub given : dto.bank_account_id ≡ some account
  pub bank : find_first (is_usable_account user account) s.bank_accounts ≡ some b

withdraw_tx-eq :
    (now wallet user bank : ℕ) (amount : ℤ) (w : Wallet) (s : Store)
    → find_wallet user s ≡ some w
    → in_transaction (withdraw_tx now wallet user bank amount) s ≡ (
      ok (direct_withdrawal now s.next_id wallet user bank amount),
      asked now wallet user bank amount s,
    )
unfolding withdraw_tx update_wallet insert_direct
withdraw_tx-eq now wallet user bank amount w s e = ground arith

passes : (a b : ℤ) → a ≤ℤ b → ltb_ℤ b a ≡ false
passes a b h = ground arith

withdraw_in-eq :
    (tx : Action Withdrawal → Action Withdrawal) (m : Store → Store) (now user : ℕ)
    (dto : WithdrawDto) (w : Wallet) (b : BankAccount) (s : Store)
    → Admits user dto w b s
    → withdraw_in tx m now user dto s ≡ tx (withdraw_tx now w.id user b.id dto.amount_minor) (m s)
unfolding withdraw_in account_for
withdraw_in-eq tx m now user dto w b s h =
    rw (passes _ _ h.enough, h.wallet, passes _ _ h.there, h.given, account_for, h.bank) refl

withdraw-eq :
    (m : Store → Store) (now user : ℕ) (dto : WithdrawDto) (w : Wallet) (b : BankAccount)
    (s : Store)
    → Admits user dto w b s
    → withdraw m now user dto s
      ≡ in_transaction (withdraw_tx now w.id user b.id dto.amount_minor) (m s)
unfolding withdraw
withdraw-eq m now user dto w b s h = withdraw_in-eq in_transaction m now user dto w b s h

-- The tables that a call leaves which is admitted, when `m` has run before its transaction
withdraw-then :
    (m : Store → Store) (now user : ℕ) (dto : WithdrawDto) (w x : Wallet) (b : BankAccount)
    (s : Store)
    → Admits user dto w b s
    → find_wallet user (m s) ≡ some x
    → withdraw m now user dto s ≡ (
      ok (direct_withdrawal now (m s).next_id w.id user b.id dto.amount_minor),
      asked now w.id user b.id dto.amount_minor (m s),
    )
withdraw-then m now user dto w x b s h e =
    withdraw-eq m now user dto w b s h
    ∙ withdraw_tx-eq now w.id user b.id dto.amount_minor x (m s) e

locked_after :
    (now wallet user bank : ℕ) (amount : ℤ) (w : Wallet) (s : Store)
    → find_wallet user s ≡ some w
    → find_wallet user (asked now wallet user bank amount s) ≡ some (lock amount w)
locked_after now wallet user bank amount w s e =
    rw
      (
        find_by-update_by Wallet.user_id user user (lock amount) s.wallets (λ r. refl),
        eq→== user user refl,
      )
      (ap (Option.map (lock amount)) e)

lock-IsSound :
    (a : ℤ) (w : Wallet) → pos 5_000_000 ≤ℤ a → a ≤ℤ available w → IsSound w → IsSound (lock a w)
lock-IsSound a w p q h = omega int_laws

-- A call of `withdraw` that names an account, whose checks pass and beside which nothing else runs
-- returns a pending withdrawal; it keeps the bounds of every wallet, and what is locked over all
-- wallets less the amounts of the pending and approved withdrawals is the same after it.
pub withdraw_alone :
    (now user : ℕ) (dto : WithdrawDto) (w : Wallet) (b : BankAccount) (s : Store)
    → Admits user dto w b s
    → IsSolvent s
    → let (r, t) = withdraw (λ v. v) now user dto s in
      (r ≡ ok (direct_withdrawal now s.next_id w.id user b.id dto.amount_minor))
      × IsSolvent t
      × (locked_elsewhere t ≡ locked_elsewhere s)
withdraw_alone now user dto w b s h solvent =
    rw (withdraw-then (λ v. v) now user dto w w b s h h.wallet) (
      refl,
      put_found-IsSolvent user (lock dto.amount_minor) w s solvent h.wallet (
          lock-IsSound dto.amount_minor w h.enough h.there
            (find_wallet-IsSound user w s solvent h.wallet)),
      both_raised _ _ _ _ w.locked_minor dto.amount_minor
          (locked_by user (lock dto.amount_minor) w s (asked now w.id user b.id dto.amount_minor s)
            h.wallet refl)
          (new_open (direct_withdrawal now s.next_id w.id user b.id dto.amount_minor) s.withdrawals
            dto.amount_minor refl),
    )

over : (a b : ℤ) (w : Wallet) → available w <ℤ a +ℤ b → ¬ (IsSound (lock b (lock a w)))
over a b w h p = omega (int_laws, p.1)

-- Another call, as what it commits
abbrev pub other_call : ℕ → ℕ → WithdrawDto → Store → Store
other_call now user dto v = (withdraw (λ u. u) now user dto v).1

covered-All : (ws : List Wallet) → All IsSound ws → all_covered ws ≡ true
unfolding all_covered
covered-All [] h = refl
covered-All (w ∷ ws) h = ground (arith, covered-All ws h.1)

uncovered :
    (user : ℕ) (x : Wallet) (ws : List Wallet)
    → find_by Wallet.user_id user ws ≡ some x
    → leb_ℤ x.locked_minor x.balance_minor ≡ false
    → all_covered ws ≡ false
unfolding all_covered
uncovered user x [] h p = cc
uncovered user x (w ∷ ws) h p = ground (arith, uncovered user x ws)

above : (a b : ℤ) → b <ℤ a → leb_ℤ a b ≡ false
above a b h = ground arith

over_balance :
    (a b : ℤ) (w : Wallet)
    → available w <ℤ a +ℤ b
    → leb_ℤ (lock b (lock a w)).locked_minor (lock b (lock a w)).balance_minor ≡ false
over_balance a b w h =
    above (lock b (lock a w)).locked_minor (lock b (lock a w)).balance_minor (omega (int_laws, h))

-- The same under the constraint of the tables on what is locked
abbrev pub guarded_call : ℕ → ℕ → WithdrawDto → Store → Store
guarded_call now user dto v = (withdraw_in constrained (λ u. u) now user dto v).1

constrained-ok :
    (now wallet user bank : ℕ) (amount : ℤ) (w : Wallet) (s : Store)
    → find_wallet user s ≡ some w
    → all_covered (asked now wallet user bank amount s).wallets ≡ true
    → constrained (withdraw_tx now wallet user bank amount) s ≡ (
      ok (direct_withdrawal now s.next_id wallet user bank amount),
      asked now wallet user bank amount s,
    )
constrained-ok now wallet user bank amount w s e h =
    rw (withdraw_tx-eq now wallet user bank amount w s e, h) refl

constrained-err :
    (now wallet user bank : ℕ) (amount : ℤ) (w : Wallet) (s : Store)
    → find_wallet user s ≡ some w
    → all_covered (asked now wallet user bank amount s).wallets ≡ false
    → constrained (withdraw_tx now wallet user bank amount) s ≡ (err Error.check_violation, s)
constrained-err now wallet user bank amount w s e h =
    rw (withdraw_tx-eq now wallet user bank amount w s e, h) refl

-- Two calls whose checks pass on the same tables, under the constraint
withdraw_guarded :
    (now later user : ℕ) (dto dto' : WithdrawDto) (w : Wallet) (b b' : BankAccount) (s : Store)
    → Admits user dto w b s
    → Admits user dto' w b' s
    → IsSolvent s
    → available w <ℤ dto'.amount_minor +ℤ dto.amount_minor
    → let mid = asked later w.id user b'.id dto'.amount_minor s in
      (withdraw_in constrained (λ u. u) later user dto' s
        ≡ (ok (direct_withdrawal later s.next_id w.id user b'.id dto'.amount_minor), mid))
      × (withdraw_in constrained (guarded_call later user dto') now user dto s
          ≡ (err Error.check_violation, mid))
withdraw_guarded now later user dto dto' w b b' s h k solvent big =
    let a = dto.amount_minor in
    let a' = dto'.amount_minor in
    let mid = asked later w.id user b'.id a' s in
    let x = lock a' w in
    let there = locked_after later w.id user b'.id a' w s k.wallet in
    let kept : IsSolvent mid =
      put_found-IsSolvent user (lock a') w s solvent k.wallet
        (lock-IsSound a' w k.enough k.there (find_wallet-IsSound user w s solvent k.wallet)) in
    let first =
      withdraw_in-eq constrained (λ u. u) later user dto' w b' s k
      ∙ constrained-ok later w.id user b'.id a' w s k.wallet (covered-All mid.wallets kept) in
    let same : guarded_call later user dto' s ≡ mid = ap (λ p. p.1) first in
    let broken =
      uncovered user (lock a x) (asked now w.id user b.id a mid).wallets
        (locked_after now w.id user b.id a x mid there) (over_balance a' a w big) in
    (
      first,
      withdraw_in-eq constrained (guarded_call later user dto') now user dto w b s h
          ∙ ap (constrained (withdraw_tx now w.id user b.id a)) same
          ∙ constrained-err now w.id user b.id a x mid there broken,
    )

-- Two calls of `withdraw` of one user that name accounts and whose checks both pass on the same
-- tables, the one running whole between the check of the other and its transaction: both return, both
-- amounts are locked and both withdrawals are pending. Where the two amounts are together more than
-- what was available, the wallet then has more locked than its balance. That is on the tables that the
-- schema declares. Where the constraint of migration-constraints-enhanced.sql on what is locked is in
-- force, and the bounds hold before, the same checks pass and the first to write returns, but the
-- transaction of the second ends with the violation and changes nothing.
pub withdraw_race :
    (now later user : ℕ) (dto dto' : WithdrawDto) (w : Wallet) (b b' : BankAccount) (s : Store)
    → Admits user dto w b s
    → Admits user dto' w b' s
    → IsSolvent s
    → available w <ℤ dto'.amount_minor +ℤ dto.amount_minor
    → let (r, t) = withdraw (other_call later user dto') now user dto s in
      let x = lock dto.amount_minor (lock dto'.amount_minor w) in
      ((withdraw (λ u. u) later user dto' s).0
        ≡ ok (direct_withdrawal later s.next_id w.id user b'.id dto'.amount_minor))
      × (r ≡ ok (direct_withdrawal now (s.next_id + 1) w.id user b.id dto.amount_minor))
      × (find_wallet user t ≡ some x)
      × ¬ IsSound x
      × (withdraw_in constrained (λ u. u) later user dto' s ≡ (
        ok (direct_withdrawal later s.next_id w.id user b'.id dto'.amount_minor),
        asked later w.id user b'.id dto'.amount_minor s,
      ))
      × (withdraw_in constrained (guarded_call later user dto') now user dto s
          ≡ (err Error.check_violation, asked later w.id user b'.id dto'.amount_minor s))
withdraw_race now later user dto dto' w b b' s h k solvent big =
    let guard = withdraw_guarded now later user dto dto' w b b' s h k solvent big in
    let x = lock dto'.amount_minor w in
    let first = withdraw-then (λ v. v) later user dto' w w b' s k k.wallet in
    let mid = asked later w.id user b'.id dto'.amount_minor s in
    let same : other_call later user dto' s ≡ mid = ap (λ p. p.1) first in
    let there = locked_after later w.id user b'.id dto'.amount_minor w s k.wallet in
    let second =
      withdraw-then (other_call later user dto') now user dto w x b s h
        (subst (λ v. find_wallet user v ≡ some x) (sym same) there) in
    (
      ap (λ p. p.0) first,
      ap (λ p. p.0) second
          ∙ ap (λ v. ok (direct_withdrawal now v.next_id w.id user b.id dto.amount_minor)) same,
      rw (ap (λ p. p.1) second)
          (rw same (locked_after now w.id user b.id dto.amount_minor x mid there)),
      over dto'.amount_minor dto.amount_minor w big,
      guard.0,
      guard.1,
    )
