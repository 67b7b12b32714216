-- ===== src/Promos/Runs.antt =====
-- Any sequence of calls that write promotions, vouchers and usages
-- (kahade-backend/src/core/promo/promo.service.ts).
use rekberkan.Base.{
  ℕ, ◌≡◌, ◌≤◌, refl, sym, Option, none, some, List, [], ◌∷◌, arith, inl, inr, Option-cases,
}
use mathlib.Core.Path.{subst}
use rekberkan.Base.Int.{ℤ}
use rekberkan.Base.Table.{find_by-update_by}
use rekberkan.Store.{Store, Voucher, VoucherUsage, VoucherStatus, Action, ok}
use rekberkan.Store.Rules.{
  IsAtomic, IsAtomic->>=, IsReadOnly-IsAtomic, pure-IsReadOnly, gets-IsReadOnly,
  in_transaction-IsAtomic, Preserves-of-ok,
}
use rekberkan.Promos.Rows.{
  find_voucher, find_voucher_by_code, insert_promo, insert_voucher, insert_assignment,
  update_promo_row, update_voucher_row,
}
use rekberkan.Promos.Admin.{
  CreatePromoDto, UpdatePromoDto, CreateVoucherDto, new_voucher, create_promo, create_voucher,
  update_promo, deactivate_promo, deactivate_voucher, assign_promo_to_user,
}
use rekberkan.Promos.Applying.{
  apply_voucher, apply_tx, ApplyVoucherResult, new_usage, result_of, usage_of, answered,
}
use rekberkan.Promos.Applied.{apply_voucher-ok, apply_voucher_again}
use rekberkan.Promos.Meter.{
  total_usages, IsMetered, same-IsMetered, wrote-IsMetered, added-IsMetered,
}

pub data Call : Type 0 where
  new_promotion : CreatePromoDto → Call
  edit_promotion : ℕ → UpdatePromoDto → Call
  stop_promotion : ℕ → Call
  assign : ℕ → ℕ → Call
  add_voucher : CreateVoucherDto → Call
  stop_voucher : ℕ → Call
  apply : ℕ → ℕ → ℕ → ℤ → Option ℕ → Option ℕ → Call

-- What is relied on of the database: the row that the raw query locks is the row of its identifier.
pub record IsRow (locked_row : ℕ → Store → Option Voucher) : Type 0 where
  pub by_id :
      (code : ℕ) (s : Store) (v : Voucher)
      → locked_row code s ≡ some v
      → find_voucher v.id s ≡ some v

module _ (upper : ℕ → ℕ) (locked_row : ℕ → Store → Option Voucher) where
  unfoldable pub serve : Call → Store → Store
  unfolding create_promo update_promo deactivate_promo assign_promo_to_user create_voucher
      deactivate_voucher apply_voucher
  serve (Call.new_promotion dto) s = (create_promo upper dto s).1
  serve (Call.edit_promotion id dto) s = (update_promo id dto s).1
  serve (Call.stop_promotion id) s = (deactivate_promo id s).1
  serve (Call.assign promo user) s = (assign_promo_to_user promo user s).1
  serve (Call.add_voucher dto) s = (create_voucher upper dto s).1
  serve (Call.stop_voucher id) s = (deactivate_voucher id s).1
  serve (Call.apply now code user amount order key) s =
      (apply_voucher upper locked_row now code user amount order key s).1

  unfoldable pub run : List Call → Store → Store
  unfolding serve
  run [] s = s
  run (c ∷ cs) s = run cs (serve c s)

  create_promo-IsMetered :
      (dto : CreatePromoDto) (s : Store) → IsMetered s → IsMetered (create_promo upper dto s).1
  unfolding create_promo insert_promo
  create_promo-IsMetered dto s h =
      same-IsMetered s (create_promo upper dto s).1 (ground arith) (ground arith) (ground arith) h

  create_voucher-IsMetered :
      (dto : CreateVoucherDto) (s : Store) → IsMetered s → IsMetered (create_voucher upper dto s).1
  unfolding create_voucher insert_voucher
  create_voucher-IsMetered dto s h = elim (Option-cases (find_voucher_by_code (upper dto.code) s)) [
    | inr (v, e) ↦
        same-IsMetered s (create_voucher upper dto s).1 (ground arith) (ground arith) (ground arith)
          h
    | inl e ↦
        added-IsMetered (new_voucher upper dto s.next_id) s (create_voucher upper dto s).1
          (ground arith) refl refl (ground arith) (ground arith) h
  ]

stop-IsMetered : (id : ℕ) (s : Store) → IsMetered s → IsMetered (deactivate_promo id s).1
unfolding deactivate_promo update_promo_row
stop-IsMetered id s h =
    same-IsMetered s (deactivate_promo id s).1 (ground arith) (ground arith) (ground arith) h

update_promo-IsMetered :
    (id : ℕ) (dto : UpdatePromoDto) (s : Store) → IsMetered s → IsMetered (update_promo id dto s).1
unfolding update_promo update_promo_row
update_promo-IsMetered id dto s h =
    same-IsMetered s (update_promo id dto s).1 (ground arith) (ground arith) (ground arith) h

assign-IsMetered :
    (promo user : ℕ) (s : Store) → IsMetered s → IsMetered (assign_promo_to_user promo user s).1
unfolding assign_promo_to_user insert_assignment
assign-IsMetered promo user s h =
    same-IsMetered s (assign_promo_to_user promo user s).1 (ground arith) (ground arith)
      (ground arith) h

abbrev inactive : Voucher → Voucher
inactive v = record v { status = VoucherStatus.inactive }

find_inactive :
    (id j : ℕ) (s : Store) (v : Voucher)
    → find_voucher j (deactivate_voucher id s).1 ≡ some v
    → (w : Voucher) × (find_voucher j s ≡ some w)
      × (v.current_usages ≡ w.current_usages)
      × (v.max_usages ≡ w.max_usages)
unfolding deactivate_voucher update_voucher_row
find_inactive id j s v h = elim (Option-cases (find_voucher j s)) [
  | inl e ↦
      absurd (ground (arith, find_by-update_by Voucher.id j id inactive s.vouchers (λ r. refl)))
  | inr (w, e) ↦ (
    w,
    e,
    ground (arith, find_by-update_by Voucher.id j id inactive s.vouchers (λ r. refl)),
    ground (arith, find_by-update_by Voucher.id j id inactive s.vouchers (λ r. refl)),
  )
]

deactivate-IsMetered : (id : ℕ) (s : Store) → IsMetered s → IsMetered (deactivate_voucher id s).1
unfolding deactivate_voucher update_voucher_row
deactivate-IsMetered id s h = record {
  counts = λ j v e. let (w, f, a, b) = find_inactive id j s v e in ground (arith, h.counts j w f);
  within = λ j v e. let (w, f, a, b) = find_inactive id j s v e in ground (arith, h.within j w f);
  unused = λ j e.
      let (a, b) = h.unused j (ground arith) in
      (
        ground (arith, find_by-update_by Voucher.id j id inactive s.vouchers (λ r. refl)),
        ground arith,
      );
}

answered-IsAtomic :
    (code : ℕ) (o : Option VoucherUsage) (m : Action ApplyVoucherResult)
    → IsAtomic m
    → IsAtomic (answered code o m)
answered-IsAtomic code none m h = h
answered-IsAtomic code (some u) m h = IsReadOnly-IsAtomic (pure-IsReadOnly (result_of code u))

module _ (upper : ℕ → ℕ) (locked_row : ℕ → Store → Option Voucher) where
  pub apply-IsAtomic :
      (now code user : ℕ) (amount : ℤ) (order key : Option ℕ)
      → IsAtomic (apply_voucher upper locked_row now code user amount order key)
  unfolding apply_voucher
  apply-IsAtomic now code user amount order key =
      IsAtomic->>= (gets-IsReadOnly (usage_of key)) (λ o.
        answered-IsAtomic code o _
          (in_transaction-IsAtomic (apply_tx upper locked_row now code user amount order key)))

  apply-keeps :
      (now code user : ℕ) (amount : ℤ) (order key : Option ℕ) (s t : Store) (r : ApplyVoucherResult)
      → IsRow locked_row
      → apply_voucher upper locked_row now code user amount order key s ≡ (ok r, t)
      → IsMetered s
      → IsMetered t
  apply-keeps now code user amount order key s t r row h m = elim (Option-cases (usage_of key s)) [
    | inr (u, e) ↦
        let (_, same) =
          apply_voucher_again upper locked_row now code user amount order key s t r u e h in
        subst IsMetered (sym same) m
    | inl e ↦
        let (v, a) = apply_voucher-ok upper locked_row now code user amount order key s t r e h in
        wrote-IsMetered v (new_usage v user amount order key) s t a.wrote
          (row.by_id (upper code) s v a.locked) refl a.passes.left m
  ]

  serve-IsMetered :
      IsRow locked_row
      → (c : Call) (s : Store) → IsMetered s
      → IsMetered (serve upper locked_row c s)
  unfolding serve
  serve-IsMetered row (Call.new_promotion dto) s h = create_promo-IsMetered upper locked_row dto s h
  serve-IsMetered row (Call.edit_promotion id dto) s h = update_promo-IsMetered id dto s h
  serve-IsMetered row (Call.stop_promotion id) s h = stop-IsMetered id s h
  serve-IsMetered row (Call.assign promo user) s h = assign-IsMetered promo user s h
  serve-IsMetered row (Call.add_voucher dto) s h = create_voucher-IsMetered upper locked_row dto s h
  serve-IsMetered row (Call.stop_voucher id) s h = deactivate-IsMetered id s h
  serve-IsMetered row (Call.apply now code user amount order key) s h =
      (Preserves-of-ok IsMetered (apply-IsAtomic now code user amount order key)
          (λ v t r e. apply-keeps now code user amount order key v t r row e)).holds
        s h

  pub run-IsMetered :
      IsRow locked_row
      → (cs : List Call) (s : Store) → IsMetered s
      → IsMetered (run upper locked_row cs s)
  unfolding run
  run-IsMetered row [] s h = h
  run-IsMetered row (c ∷ cs) s h =
      run-IsMetered row cs (serve upper locked_row c s) (serve-IsMetered row c s h)

  -- From tables on in which every voucher counts its usages and has no more than its maximum, and
  -- with a raw query that locks the row of its identifier, the same holds after every sequence of
  -- calls of the promotion service: no voucher has more recorded usages than its maximum allows.
  pub run_usages :
      IsRow locked_row
      → (cs : List Call) (s : Store) (id : ℕ) (v : Voucher) → IsMetered s
      → find_voucher id (run upper locked_row cs s) ≡ some v
      → (total_usages id (run upper locked_row cs s) ≡ v.current_usages)
        × (total_usages id (run upper locked_row cs s) ≤ v.max_usages)
  run_usages row cs s id v h e =
      let m = run-IsMetered row cs s h in
      (m.counts id v e, omega (arith, m.counts id v e, m.within id v e))
