-- ===== src/Payments/Texts.antt =====
-- External identifiers as texts, lists of the codes of their characters: the one that `topUp` of
-- kahade-backend/src/core/wallet/wallet.service.ts makes, and `split` in
-- kahade-backend/src/core/payment/webhook.controller.ts. Elsewhere texts are numbers; `number_of` is the
-- number of a text.
use rekberkan.Base.{ℕ, ◌≡◌, ◌≢◌, refl, List, [], ◌∷◌, ◌++◌, map, if◌then◌else◌, ◌==◌, arith}
use rekberkan.Base.Table.{All}
use rekberkan.Payments.Notices.{topup_word, order_word}

abbrev pub Text : Type 0
Text = List ℕ

abbrev pub underscore : ℕ
underscore = 95

abbrev pub dash : ℕ
dash = 45

-- "topup"
abbrev pub topup_text : Text
topup_text = 116 ∷ 111 ∷ 112 ∷ 117 ∷ 112 ∷ []

-- "order"
abbrev pub order_text : Text
order_text = 111 ∷ 114 ∷ 100 ∷ 101 ∷ 114 ∷ []

-- "TOPUP-"
abbrev pub topup_prefix : Text
topup_prefix = 84 ∷ 79 ∷ 80 ∷ 85 ∷ 80 ∷ dash ∷ []

-- `externalId`, of the decimal digits of the date and a random text
abbrev pub external_id_of : Text → Text → Text
external_id_of clock random = topup_prefix ++ clock ++ dash ∷ random

abbrev prepend : ℕ → List Text → List Text
prepend c [] = (c ∷ []) ∷ []
prepend c (t ∷ ts) = (c ∷ t) ∷ ts

-- `split("_")`
unfoldable pub split : Text → List Text
split [] = [] ∷ []
split (c ∷ cs) = let rest = split cs in if c == underscore then [] ∷ rest else prepend c rest

-- The parts of an external identifier, as the handlers are given them
abbrev pub parts_of : (Text → ℕ) → Text → List ℕ
parts_of number_of t = map number_of (split t)

-- The two words have their numbers, which no other text has.
pub record IsNaming (number_of : Text → ℕ) : Type 0 where
  pub topup : number_of topup_text ≡ topup_word
  pub order : number_of order_text ≡ order_word
  pub only_topup : (t : Text) → number_of t ≡ topup_word → t ≡ topup_text
  pub only_order : (t : Text) → number_of t ≡ order_word → t ≡ order_text

-- A text without an underscore
abbrev pub IsWhole : Text → Type 0
IsWhole t = All (λ c. c ≢ underscore) t

IsWhole-append : (a b : Text) → IsWhole a → IsWhole b → IsWhole (a ++ b)
IsWhole-append [] b h k = k
IsWhole-append (c ∷ cs) b h k = (h.0, IsWhole-append cs b h.1 k)

pub split_whole : (t : Text) → IsWhole t → split t ≡ t ∷ []
unfolding split
split_whole [] h = refl
split_whole (c ∷ cs) h = ground (arith, h.0, split_whole cs h.1)

-- The identifiers of `topUp` have no underscore, and are neither of the words.
pub external_id_of-IsWhole :
    (clock random : Text) → IsWhole clock → IsWhole random → IsWhole (external_id_of clock random)
external_id_of-IsWhole clock random h k =
    IsWhole-append topup_prefix (clock ++ dash ∷ random)
      (omega arith, (omega arith, (omega arith, (omega arith, (omega arith, (omega arith, tt))))))
      (IsWhole-append clock (dash ∷ random) h (omega arith, k))

pub not_topup :
    (number_of : Text → ℕ) (clock random : Text)
    → IsNaming number_of
    → number_of (external_id_of clock random) ≢ topup_word
not_topup number_of clock random n h = cc (n.only_topup (external_id_of clock random) h)

pub not_order :
    (number_of : Text → ℕ) (clock random : Text)
    → IsNaming number_of
    → number_of (external_id_of clock random) ≢ order_word
not_order number_of clock random n h = cc (n.only_order (external_id_of clock random) h)
