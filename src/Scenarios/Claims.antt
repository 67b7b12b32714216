-- ===== src/Scenarios/Claims.antt =====
-- Runs of the dispute service: a dispute of the buyer about the order of the market.
use rekberkan.Base.{◌≡◌, refl, none, some, [], ◌∷◌}
use rekberkan.Base.Int.{pos}
use rekberkan.Store.{Store, Dispute, DisputeDecision, OrderStatus, ok, ◌>>◌}
use rekberkan.Escrow.Dispute.{new_dispute}
use rekberkan.Disputes.Deciding.{ResolveDisputeDto, resolve}
use rekberkan.Disputes.Decisions.{LeavesOrder, resolve-then-resolve}
use rekberkan.Scenarios.{market, paid_order}

abbrev claim : Dispute
claim = new_dispute 60 7 1 none

abbrev disputed_market : Store
disputed_market = record market { disputes = claim ∷ [] }

abbrev for_seller : ResolveDisputeDto
for_seller = record {
  decision = DisputeDecision.release_all_to_seller;
  seller_amount_minor = some (pos 500);
  buyer_refund_minor = none;
  resolution_notes = 1;
}

abbrev for_buyer : ResolveDisputeDto
for_buyer = record {
  decision = DisputeDecision.refund_all_to_buyer;
  seller_amount_minor = none;
  buyer_refund_minor = some (pos 500);
  resolution_notes = 2;
}

resolve-then-resolve_example :
    (r : Dispute) × (t : Store) × ((resolve 100 60 9 for_seller >> resolve 200 60 9 for_buyer)
        disputed_market
      ≡ (ok r, t))
    × (r.decision ≡ DisputeDecision.refund_all_to_buyer)
    × LeavesOrder 7 paid_order OrderStatus.refunded disputed_market t
resolve-then-resolve_example =
    resolve-then-resolve 100 200 60 9 for_seller for_buyer claim paid_order disputed_market refl
      (λ p. cc) refl
