-- ===== src/Store/Monad.antt =====
-- A call of a service: it reads and writes the tables, and returns or throws. What was written stays
-- written after a throw, but inside `$transaction` a throw restores the tables.
use rekberkan.Base.{ℕ, ◌+◌, ◌≡◌, refl, Bool, Option, none, some, if◌then◌else◌, ◌⊎◌, inl, inr}
use rekberkan.Base.Int.{ℤ}
use rekberkan.Store.Enums.{EscrowHoldStatus, OrderStatus, WithdrawalStatus}
use rekberkan.Store.Rows.{Store}

-- The exceptions that the services throw, with the values that tell them apart.
pub data Error : Type 0 where
  -- LedgerInvariantError
  ledger_invariant : ℤ → Error
  -- InsufficientBalanceError, with what is available and what is requested
  insufficient_balance : ℤ → ℤ → Error
  -- OptimisticLockError
  optimistic_lock : Error
  -- WalletNotFoundError
  wallet_not_found : Error
  -- InvalidStateTransitionError
  invalid_transition : EscrowHoldStatus → Error
  invalid_order_transition : OrderStatus → OrderStatus → Error
  -- UnauthorizedTransitionError, with the actor
  unauthorized : ℕ → Error
  -- WithdrawalLimitExceededError: by count, by the day, by the month
  limit_exceeded : ℕ → Error
  -- WithdrawalCoolingPeriodError, with the minutes to wait
  cooling_period : ℕ → Error
  bad_status : WithdrawalStatus → Error
  amount_not_positive not_found bad_request forbidden conflicting internal : Error
  -- what the database reports: a row that a constraint of its tables forbids, a duplicate in a unique column, a row that a foreign key names and
  -- that is missing, and no row to update
  check_violation unique_violation foreign_key_violation record_not_found : Error

pub data Result {ℓ} (A : Type ℓ) : Type ℓ where
  ok : A → Result A
  err : Error → Result A

abbrev pub Action : Type 0 → Type 0
Action A = Store → Result A × Store

module _ {A : Type 0} where
  abbrev pub pure : A → Action A
  pure a s = (ok a, s)

  abbrev pub raise : Error → Action A
  raise e s = (err e, s)

  abbrev pub gets : (Store → A) → Action A
  gets f s = (ok (f s), s)

  -- A value that a query may not have found: the exception of the `if (!x) throw` after it.
  abbrev pub or_raise : Error → Option A → Action A
  or_raise e none = raise e
  or_raise e (some a) = pure a

  -- What a call that ended in this way leaves behind when it began at the given tables.
  abbrev pub rolled_back : Store → Result A × Store → Result A × Store
  rolled_back s (ok a, s') = (ok a, s')
  rolled_back s (err e, s') = (err e, s)

  -- `prisma.$transaction`
  abbrev pub in_transaction : Action A → Action A
  in_transaction m s = rolled_back s (m s)

-- What is left of a call after its first part.
abbrev pub then_call : {A B : Type 0} → (A → Action B) → Result A × Store → Result B × Store
then_call f (ok a, s) = f a s
then_call f (err e, s) = (err e, s)

infixl 5 ◌>>=◌ ◌>>◌
abbrev pub ◌>>=◌ : {A B : Type 0} → Action A → (A → Action B) → Action B
◌>>=◌ m f s = then_call f (m s)

abbrev pub ◌>>◌ : {A B : Type 0} → Action A → Action B → Action B
m >> k = m >>= λ _. k

-- A row that was found, or what a call makes where there was none.
abbrev pub existing_or : {A : Type 0} → Option A → Action A → Action A
existing_or none m = m
existing_or (some a) m = pure a

-- `if (c) throw e`
abbrev pub raise_if : Bool → Error → Action (Unit {0})
raise_if c e s = (if c then err e else ok tt, s)

abbrev pub modify : (Store → Store) → Action (Unit {0})
modify f s = (ok tt, f s)

-- The identifier of a new row.
abbrev pub fresh : Action ℕ
fresh s = (ok s.next_id, record s { next_id = s.next_id + 1 })

invert :
    {A B : Type 0} (f : A → Action B) (r : Result A × Store) {b : B} {t : Store}
    → then_call f r ≡ (ok b, t)
    → (a : A) × (u : Store) × (r ≡ (ok a, u)) × (f a u ≡ (ok b, t))
invert f (ok a, u) h = (a, u, refl, h)
invert f (err e, u) h = absurd (cc)

-- Inversion of a call that returned.
pub >>=-eq-ok :
    {A B : Type 0} (m : Action A) (f : A → Action B) (s : Store) {b : B} {t : Store}
    → (m >>= f) s ≡ (ok b, t)
    → (a : A) × (u : Store) × (m s ≡ (ok a, u)) × (f a u ≡ (ok b, t))
>>=-eq-ok m f s h = invert f (m s) h

-- Whether a result is a value or an error.
pub Result-cases :
    {A : Type 0} (r : Result A) → ((a : A) × (r ≡ ok a)) ⊎ ((x : Error) × (r ≡ err x))
Result-cases (ok a) = inl (a, refl)
Result-cases (err x) = inr (x, refl)
