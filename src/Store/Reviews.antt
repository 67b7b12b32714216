-- ===== src/Store/Reviews.antt =====
-- The rows of ratings and of proofs of delivery (kahade-backend/prisma/schema/70_rating.prisma,
-- 50_order_escrow.prisma).
use rekberkan.Base.{ℕ, Option, List}

pub record Rating : Type 0 where
  pub order_id : ℕ
  pub from_user_id : ℕ
  pub to_user_id : ℕ
  pub score : ℕ
  pub review : Option ℕ

pub record DeliveryProof : Type 0 where
  pub order_id : ℕ
  pub file_urls : List ℕ
  pub notes : ℕ
