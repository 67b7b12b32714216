-- ===== src/Payments/TopUp.antt =====
-- `topUp` of kahade-backend/src/core/wallet/wallet.service.ts. An amount is a whole number of
-- hundredths, `clock` the digits of the date and `random` the random text in the identifier that is
-- generated; the number of the virtual account, which is made up, is left out.
use rekberkan.Base.{
  ℕ, ◌+◌, ◌*◌, Bool, Option, none, some, [], ◌∷◌, ◌++◌, if◌then◌else◌, is_id, is_some,
}
use rekberkan.Base.Int.{ℤ, pos, ltb_ℤ}
use rekberkan.Base.Table.{find_first}
use rekberkan.Store.{
  Wallet, idr, Payment, PaymentProvider, PaymentMethod, PaymentStatus, Deposit, DepositStatus,
  Action, ok, err, Error, ◌>>=◌, ◌>>◌, gets, raise_if, existing_or, in_transaction,
}
use rekberkan.Payments.Texts.{Text, external_id_of}
use rekberkan.Wallet.Rows.{find_wallet}
use rekberkan.Wallet.Moves.{create_wallet}

-- The payment methods that the dto lets pass
pub data TopUpMethod : Type 0 where
  va_bca va_bni va_mandiri va_bri va_permata va_cimb : TopUpMethod
  ewallet_ovo ewallet_gopay ewallet_dana ewallet_shopeepay ewallet_linkaja qris : TopUpMethod
  bank_transfer card ewallet : TopUpMethod

pub record TopUpDto : Type 0 where
  pub amount_minor : ℤ
  pub method : TopUpMethod

abbrev pub map_payment_method : TopUpMethod → TopUpMethod
map_payment_method TopUpMethod.bank_transfer = TopUpMethod.va_bca
map_payment_method TopUpMethod.ewallet = TopUpMethod.ewallet_gopay
map_payment_method m = m

-- `method.startsWith("va_")` and so on, for a method that has been mapped
abbrev pub payment_method_of : TopUpMethod → Option PaymentMethod
payment_method_of TopUpMethod.va_bca = some PaymentMethod.virtual_account
payment_method_of TopUpMethod.va_bni = some PaymentMethod.virtual_account
payment_method_of TopUpMethod.va_mandiri = some PaymentMethod.virtual_account
payment_method_of TopUpMethod.va_bri = some PaymentMethod.virtual_account
payment_method_of TopUpMethod.va_permata = some PaymentMethod.virtual_account
payment_method_of TopUpMethod.va_cimb = some PaymentMethod.virtual_account
payment_method_of TopUpMethod.bank_transfer = none
payment_method_of TopUpMethod.card = none
payment_method_of TopUpMethod.ewallet = none
payment_method_of _ = some PaymentMethod.ewallet

abbrev new_payment : ℕ → ℕ → ℕ → ℕ → TopUpDto → Payment
new_payment id now external user dto = record {
  id = id;
  user_id = user;
  provider = PaymentProvider.xendit;
  provider_invoice_id = some external;
  payment_method = payment_method_of (map_payment_method dto.method);
  amount_minor = dto.amount_minor;
  status = PaymentStatus.pending;
  expires_at = some (now + 24 * 60 * 60 * 1000);
}

abbrev new_deposit : ℕ → ℕ → ℕ → ℤ → Deposit
new_deposit id wallet payment amount = record {
  id = id;
  wallet_id = wallet;
  payment_id = payment;
  amount_minor = amount;
  status = DepositStatus.pending;
}

abbrev has_invoice : ℕ → Payment → Bool
has_invoice external p = is_id p.provider_invoice_id external

-- `payment.create`, where the identifier of the invoice is a unique column
unfoldable pub insert_payment : ℕ → ℕ → ℕ → TopUpDto → Action Payment
insert_payment now external user dto s =
    let p = new_payment s.next_id now external user dto in
    if is_some (find_first (has_invoice external) s.payments)
    then (err Error.unique_violation, s)
    else (ok p, record s { payments = s.payments ++ p ∷ []; next_id = s.next_id + 1 })

unfoldable pub insert_deposit : ℕ → ℕ → ℤ → Action Deposit
insert_deposit wallet payment amount s =
    let d = new_deposit s.next_id wallet payment amount in
    (ok d, record s { deposits = s.deposits ++ d ∷ []; next_id = s.next_id + 1 })

unfoldable pub top_up_tx : ℕ → ℕ → ℕ → TopUpDto → Wallet → Action Deposit
unfolding insert_payment insert_deposit
top_up_tx now external user dto wallet = do
  payment ← insert_payment now external user dto
  insert_deposit wallet.id payment.id dto.amount_minor

-- `topUp`
unfoldable pub top_up : (Text → ℕ) → ℕ → Text → Text → ℕ → TopUpDto → Action Deposit
unfolding create_wallet top_up_tx
top_up number_of now clock random user dto = do
  raise_if (ltb_ℤ dto.amount_minor (pos 1_000_000)) Error.bad_request
  existing ← gets (find_wallet user)
  wallet ← existing_or existing (create_wallet user idr)
  in_transaction (top_up_tx now (number_of (external_id_of clock random)) user dto wallet)
