-- ===== src/Orders/Lookup.antt =====
-- An order that is created is found by its invite and by its identifier
-- (kahade-backend/src/core/order/order.service.ts).
use rekberkan.Base.{
  ℕ, ◌≤◌, ◌<◌, ◌≡◌, ◌≢◌, refl, Bool, false, Option, none, some, [], ◌∷◌, ◌++◌, is_some, arith, inl,
  inr, Option-cases,
}
use mathlib.Core.Path.{subst}
use rekberkan.Base.Int.{ℤ}
use rekberkan.Base.Table.{find_by, update_by, find_by-append, find_by-update_by}
use rekberkan.Store.{Store, Order, OrderStatus, Error, ok, err}
use rekberkan.Store.Returns.{existing_none}
use rekberkan.Escrow.Rows.{find_order, update_order}
use rekberkan.Orders.Rows.{
  PlatformConfig, CreateOrderDto, calculate_platform_fee, new_order, insert_order, update_status,
}
use rekberkan.Orders.Invites.{
  preview_of, accept_order, create_order, recent_duplicate, expiry, get_order_by_invite_token,
  get_order_by_id,
}

absent : (o : Option Order) → is_some o ≡ false → o ≡ none
absent none h = refl
absent (some x) h = cc

-- What the insertion of an order has done
inserted :
    (now user : ℕ) (dto : CreateOrderDto) (fee : ℤ) (token expires : ℕ) (s t : Store) (r : Order)
    → insert_order now user dto fee token expires s ≡ (ok r, t)
    → (r ≡ new_order s.next_id now user dto fee token expires)
      × (t.orders ≡ s.orders ++ r ∷ [])
      × (find_order s.next_id s ≡ none)
      × (find_by Order.invite_token token s.orders ≡ none)
unfolding insert_order
inserted now user dto fee token expires s t r h = elim (Option-cases (find_order s.next_id s)) [
  | inr (x, p) ↦ absurd (ground arith)
  | inl p ↦ elim (Option-cases (find_by Order.invite_token token s.orders)) [
    | inr (x, q) ↦ absurd (ground arith)
    | inl q ↦ (ground arith, ground arith, p, q)
  ]
]

-- What is kept of a new order in the tables, for a call about the order
abbrev pub Kept : ℕ → ℕ → Store → Order → Type 0
Kept id token t r =
    (find_order id t ≡ some r) × (find_by Order.invite_token token t.orders ≡ some r)

found_back :
    (c : PlatformConfig) (now token user : ℕ) (dto : CreateOrderDto) (s t : Store) (r : Order)
    → insert_order now user dto (calculate_platform_fee c dto.amount_minor) token (expiry c now) s
      ≡ (ok r, t)
    → (r
        ≡ new_order s.next_id now user dto
            (calculate_platform_fee c dto.amount_minor)
            token
            (expiry c now))
      × Kept r.id token t r
found_back c now token user dto s t r h =
    let (a, b, e, f) =
      inserted now user dto (calculate_platform_fee c dto.amount_minor) token (expiry c now) s t r
        h in
    let by_token = find_by-append Order.invite_token token s.orders (r ∷ []) in
    let by_id = find_by-append Order.id s.next_id s.orders (r ∷ []) in
    (a, (ground arith, ground arith))

module _ (c : PlatformConfig) (now token user id : ℕ) (dto : CreateOrderDto) (fee : ℤ) where
  -- The row of the new order
  abbrev pub row : Order
  row = new_order id now user dto fee token (expiry c now)

  seen :
      (t : Store)
      → Kept id token t row
      → ((later : ℕ)
          → later ≤ expiry c now
          → get_order_by_invite_token later token t ≡ (ok (preview_of row), t))
        × ((later : ℕ)
            → expiry c now < later
            → get_order_by_invite_token later token t ≡ (err Error.bad_request, t))
        × (get_order_by_id user id t ≡ (ok row, t))
        × ((v : ℕ) → user ≢ v → get_order_by_id v id t ≡ (err Error.forbidden, t))
  unfolding get_order_by_invite_token get_order_by_id
  seen t (p, q) =
      (λ later g. ground arith, λ later g. ground arith, ground arith, λ v g. ground arith)

  -- The same once a user has accepted it
  abbrev pub taken_by : ℕ → Order
  taken_by v = record row { counterparty_id = some v; status = OrderStatus.pending_accept }

  accepted :
      (t : Store) (at v : ℕ)
      → at ≤ expiry c now
      → user ≢ v
      → Kept id token t row
      → (u : Store) × (accept_order at v token t ≡ (ok (taken_by v), u))
        × (get_order_by_id v id u ≡ (ok (taken_by v), u))
        × (get_order_by_id user id u ≡ (ok (taken_by v), u))
  unfolding accept_order update_status update_order get_order_by_id
  accepted t at v g n (p, q) =
      let f =
        λ (o : Order). record o { counterparty_id = some v; status = OrderStatus.pending_accept } in
      let new = find_by-update_by Order.id id id f t.orders (λ _. refl) in
      (
        record t { orders = update_by Order.id id f t.orders },
        ground arith,
        ground arith,
        ground arith,
      )

-- What a new order `o` shows to whom: before and after its invite expires, to its creator, to another
-- user, and to both once that user has accepted it, which makes it `taken`
abbrev pub Shows : ℕ → ℕ → ℕ → ℕ → ℕ → ℕ → Order → Order → Store → Type 0
Shows later late at token user v o taken t =
    (get_order_by_invite_token later token t ≡ (ok (preview_of o), t))
    × (get_order_by_invite_token late token t ≡ (err Error.bad_request, t))
    × (get_order_by_id user o.id t ≡ (ok o, t))
    × (get_order_by_id v o.id t ≡ (err Error.forbidden, t))
    × (u : Store) × (accept_order at v token t ≡ (ok taken, u))
    × (get_order_by_id v o.id u ≡ (ok taken, u))
    × (get_order_by_id user o.id u ≡ (ok taken, u))

-- When `createOrder` returns and there was no recent duplicate, the order is the row of what was asked
-- for, with the fee of the platform. Until its invite expires `getOrderByInviteToken` with the new
-- token shows the preview of the order, and after that it is refused; `getOrderById` gives the order to
-- its creator and is forbidden to any other user. Where the other user accepts the invite before it
-- expires, that user becomes the counterparty, and `getOrderById` gives the order, pending acceptance,
-- to both.
pub create_order-then-get_order :
    (c : PlatformConfig) (now later late at token user v : ℕ) (dto : CreateOrderDto)
    (has_key : Bool) (s t : Store) (r : Order)
    → recent_duplicate now user dto has_key s ≡ none
    → create_order c now token user dto has_key s ≡ (ok r, t)
    → later ≤ expiry c now
    → expiry c now < late
    → at ≤ expiry c now
    → user ≢ v
    → let fee = calculate_platform_fee c dto.amount_minor in
      (r ≡ new_order s.next_id now user dto fee token (expiry c now))
      × Shows later late at token user v
          (row c now token user s.next_id dto fee)
          (taken_by c now token user s.next_id dto fee v)
          t
unfolding create_order
create_order-then-get_order c now later late at token user v dto has_key s t r n h g l m d =
    let fee = calculate_platform_fee c dto.amount_minor in
    let (a, k) = found_back c now token user dto s t r (
      existing_none (recent_duplicate now user dto has_key)
        (insert_order now user dto fee token (expiry c now)) s t r n h) in
    let kept : Kept s.next_id token t (row c now token user s.next_id dto fee) =
      subst (λ (o : Order). Kept o.id token t o) a k in
    let (before, after, own, foreign) = seen c now token user s.next_id dto fee t kept in
    let (u, x, y, z) = accepted c now token user s.next_id dto fee t at v m d kept in
    (a, (before later g, after late l, own, foreign v d, u, x, y, z))
