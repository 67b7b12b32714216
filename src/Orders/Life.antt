-- ===== src/Orders/Life.antt =====
-- The life of an order, without its texts, dates and money: who takes part in it and how far it is.
-- An order begins with its initiator, is joined by another user, is paid, and ends or is contested;
-- until it is paid or completed it may be cancelled, also while it is contested. This is what the
-- order service (kahade-backend/src/core/order/order.service.ts) promises of every order.
use rekberkan.Base.{ℕ, ◌≡◌, refl, ◌≢◌, ◌⊎◌, inl, inr, Option, none, some, ◌∙◌, ap, sym}
use mathlib.Core.Path.{subst}
use mathlib.Core.Option.{some-injective}
use mathlib.Core.Option
use rekberkan.Store.{Store, Order, OrderStatus, InitiatorRole}
use rekberkan.Escrow.Rows.{find_order}

pub record Deal : Type 0 where
  pub initiator : ℕ
  pub counterparty : Option ℕ
  pub role : InitiatorRole
  pub status : OrderStatus

abbrev pub view : Order → Deal
view o = record {
  initiator = o.initiator_id;
  counterparty = o.counterparty_id;
  role = o.initiator_role;
  status = o.status;
}

abbrev pub deal : ℕ → Store → Option Deal
deal id s = Option.map view (find_order id s)

abbrev pub at_status : OrderStatus → Deal → Deal
at_status st d = record d { status = st }

pub data Step : Deal → Deal → Type 0 where
  join :
      {d e : Deal} (user : ℕ)
      → d.status ≡ OrderStatus.waiting_counterparty
      → user ≢ d.initiator
      → e ≡ record d { counterparty = some user; status = OrderStatus.pending_accept }
      → Step d e
  pay :
      {d e : Deal}
      → (d.status ≡ OrderStatus.pending_accept) ⊎ (d.status ≡ OrderStatus.accepted)
      → e ≡ at_status OrderStatus.paid d
      → Step d e
  finish :
      {d e : Deal} → d.status ≡ OrderStatus.paid → e ≡ at_status OrderStatus.completed d → Step d e
  contest :
      {d e : Deal} → d.status ≡ OrderStatus.paid → e ≡ at_status OrderStatus.disputed d → Step d e
  cancel :
      {d e : Deal}
      → d.status ≢ OrderStatus.paid
      → d.status ≢ OrderStatus.completed
      → e ≡ at_status OrderStatus.cancelled d
      → Step d e

-- The steps of one order, from its state in some tables to its state in later ones
pub data Life : Option Deal → Option Deal → Type 0 where
  stays : {x y : Option Deal} → x ≡ y → Life x y
  begins :
      {x y : Option Deal} (d : Deal)
      → x ≡ none
      → d.status ≡ OrderStatus.waiting_counterparty
      → d.counterparty ≡ none
      → y ≡ some d
      → Life x y
  steps : {x y : Option Deal} (d e : Deal) → x ≡ some d → Step d e → y ≡ some e → Life x y
  later : {x y z : Option Deal} → Life x y → Life y z → Life x z

-- The initiator and the counterparty differ, and an order that has no counterparty is not paid.
abbrev pub HasParties : Deal → Type 0
HasParties d =
    ((d.counterparty ≡ none)
      × ((d.status ≡ OrderStatus.waiting_counterparty) ⊎ (d.status ≡ OrderStatus.cancelled)))
    ⊎ ((c : ℕ) × (d.counterparty ≡ some c) × (c ≢ d.initiator))

abbrev pub Parted : Option Deal → Type 0
Parted none = Unit
Parted (some d) = HasParties d

-- An order past its invitation has both.
IsJoined : Deal → Type 0
IsJoined d = (c : ℕ) × (d.counterparty ≡ some c) × (c ≢ d.initiator)

joined :
    (d : Deal)
    → HasParties d
    → d.status ≢ OrderStatus.waiting_counterparty
    → d.status ≢ OrderStatus.cancelled
    → IsJoined d
unfolding IsJoined
joined d (inl (n, inl p)) a b = absurd (a p)
joined d (inl (n, inr p)) a b = absurd (b p)
joined d (inr h) a b = h

moved :
    (d e : Deal) (st : OrderStatus)
    → e ≡ at_status st d
    → HasParties d
    → d.status ≢ OrderStatus.waiting_counterparty
    → d.status ≢ OrderStatus.cancelled
    → HasParties e
unfolding IsJoined
moved d e st q h a b = rw q (inr (joined d h a b))

cancelled_parties :
    (d e : Deal) → e ≡ at_status OrderStatus.cancelled d → HasParties d → HasParties e
cancelled_parties d e q (inl (n, p)) = rw q (inl (n, inr refl))
cancelled_parties d e q (inr h) = rw q (inr h)

payable_ne :
    (st k : OrderStatus)
    → (st ≡ OrderStatus.pending_accept) ⊎ (st ≡ OrderStatus.accepted)
    → (k ≡ OrderStatus.waiting_counterparty) ⊎ (k ≡ OrderStatus.cancelled)
    → st ≢ k
payable_ne st k (inl a) (inl b) = λ p. cc
payable_ne st k (inl a) (inr b) = λ p. cc
payable_ne st k (inr a) (inl b) = λ p. cc
payable_ne st k (inr a) (inr b) = λ p. cc

Step-HasParties : (d e : Deal) → Step d e → HasParties d → HasParties e
Step-HasParties d e (Step.join user a b c) h = rw c (inr (user, refl, b))
Step-HasParties d e (Step.pay a c) h =
    moved d e OrderStatus.paid c h (payable_ne d.status _ a (inl refl))
      (payable_ne d.status _ a (inr refl))
Step-HasParties d e (Step.finish a c) h = moved d e OrderStatus.completed c h (λ p. cc) (λ p. cc)
Step-HasParties d e (Step.contest a c) h = moved d e OrderStatus.disputed c h (λ p. cc) (λ p. cc)
Step-HasParties d e (Step.cancel a b c) h = cancelled_parties d e c h

pub Life-Parted : (x y : Option Deal) → Life x y → Parted x → Parted y
Life-Parted x y (Life.stays p) h = subst Parted p h
Life-Parted x y (Life.begins d a b c p) h = rw p (inl (c, inl b))
Life-Parted x y (Life.steps d e a m p) h = rw p (Step-HasParties d e m (rw a at h))
Life-Parted x z (Life.later {y} l m) h = Life-Parted y z m (Life-Parted x y l h)

no_step_after : (d e : Deal) → Step d e → d.status ≢ OrderStatus.completed
no_step_after d e (Step.join user a b c) = λ p. cc
no_step_after d e (Step.pay a c) = λ p. payable_done d.status a p
  where
    payable_done :
        (st : OrderStatus)
        → (st ≡ OrderStatus.pending_accept) ⊎ (st ≡ OrderStatus.accepted)
        → st ≢ OrderStatus.completed
    payable_done st (inl a) p = cc
    payable_done st (inr a) p = cc
no_step_after d e (Step.finish a c) = λ p. cc
no_step_after d e (Step.contest a c) = λ p. cc
no_step_after d e (Step.cancel a b c) = b

-- An order that is completed stays as it is.
pub Life-completed :
    (x y : Option Deal) (d : Deal)
    → Life x y
    → x ≡ some d
    → d.status ≡ OrderStatus.completed
    → y ≡ some d
Life-completed x y d (Life.stays p) q c = cc
Life-completed x y d (Life.begins k a b n p) q c = cc
Life-completed x y d (Life.steps k e a m p) q c =
    absurd (no_step_after k e m (ap (λ z. z.status) (some-injective _ _ (sym a ∙ q)) ∙ c))
Life-completed x z d (Life.later {y} l m) q c =
    Life-completed y z d m (Life-completed x y d l q c) c

-- Past the payment, however it went on
abbrev pub IsPast : Option Deal → Type 0
IsPast none = ⊥
IsPast (some d) =
    (d.status ≢ OrderStatus.waiting_counterparty)
    × (d.status ≢ OrderStatus.pending_accept)
    × (d.status ≢ OrderStatus.accepted)

Step-IsPast : (d e : Deal) → Step d e → IsPast (some d) → IsPast (some e)
Step-IsPast d e (Step.join user a b c) h = absurd (h.0 a)
Step-IsPast d e (Step.pay (inl a) c) h = absurd (h.1 a)
Step-IsPast d e (Step.pay (inr a) c) h = absurd (h.2 a)
Step-IsPast d e (Step.finish a c) h = rw c ((λ p. cc), (λ p. cc), (λ p. cc))
Step-IsPast d e (Step.contest a c) h = rw c ((λ p. cc), (λ p. cc), (λ p. cc))
Step-IsPast d e (Step.cancel a b c) h = rw c ((λ p. cc), (λ p. cc), (λ p. cc))

pub Life-IsPast : (x y : Option Deal) → Life x y → IsPast x → IsPast y
Life-IsPast x y (Life.stays p) h = subst IsPast p h
Life-IsPast x y (Life.begins d a b c p) h = absurd (rw a at h)
Life-IsPast x y (Life.steps d e a m p) h = rw p (Step-IsPast d e m (rw a at h))
Life-IsPast x z (Life.later {y} l m) h = Life-IsPast y z m (Life-IsPast x y l h)
