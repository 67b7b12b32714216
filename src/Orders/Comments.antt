-- ===== src/Orders/Comments.antt =====
-- The comments on an order (kahade-backend/src/core/order/order.service.ts): `getComments`,
-- `addComment`, `updateComment`, `deleteComment`.
use rekberkan.Base.{ℕ, ◌+◌, not, ◌&&◌, Option, none, some, List, [], ◌∷◌, ◌++◌, is_some, ◌==◌}
use rekberkan.Base.Table.{find_by, update_by, filter_rows}
use rekberkan.Store.{
  Store, OrderComment, Action, ok, err, Error, ◌>>=◌, ◌>>◌, pure, gets, or_raise, raise_if,
}
use rekberkan.Orders.Rows.{find_by_id, is_party}

abbrev pub comments_of : ℕ → Store → List OrderComment
comments_of id s = filter_rows (λ c. (c.order_id == id) && not (is_some c.deleted_at)) s.comments

unfoldable pub get_comments : ℕ → ℕ → Action (List OrderComment)
get_comments user id = do
  order ← or_raise Error.not_found (← gets (find_by_id id))
  raise_if (not (is_party user order)) Error.forbidden
  gets (comments_of id)

abbrev pub new_comment : ℕ → ℕ → ℕ → ℕ → OrderComment
new_comment id order user message = record {
  id = id;
  order_id = order;
  user_id = user;
  message = message;
  deleted_at = none;
  deleted_by = none;
}

unfoldable pub insert_comment : ℕ → ℕ → ℕ → Action OrderComment
insert_comment order user message s =
    let c = new_comment s.next_id order user message in
    (ok c, record s { comments = s.comments ++ c ∷ []; next_id = s.next_id + 1 })

unfoldable pub add_comment : ℕ → ℕ → ℕ → Action OrderComment
unfolding insert_comment
add_comment user id message = do
  order ← or_raise Error.not_found (← gets (find_by_id id))
  raise_if (not (is_party user order)) Error.forbidden
  insert_comment id user message

abbrev pub find_comment : ℕ → Store → Option OrderComment
find_comment id s = find_by OrderComment.id id s.comments

unfoldable pub rewrite_comment : ℕ → (OrderComment → OrderComment) → Action OrderComment
rewrite_comment id f s = elim (find_comment id s) [
  | none ↦ (err Error.record_not_found, s)
  | some c ↦ (ok (f c), record s { comments = update_by OrderComment.id id f s.comments })
]

unfoldable pub update_comment : ℕ → ℕ → ℕ → ℕ → Action OrderComment
unfolding rewrite_comment
update_comment user order id message = do
  comment ← or_raise Error.not_found (← gets (find_comment id))
  raise_if (not (comment.order_id == order)) Error.not_found
  raise_if (not (comment.user_id == user)) Error.forbidden
  rewrite_comment id (λ c. record c { message = message })

unfoldable pub delete_comment : ℕ → ℕ → ℕ → ℕ → Action (Unit {0})
unfolding rewrite_comment
delete_comment now user order id = do
  comment ← or_raise Error.not_found (← gets (find_comment id))
  raise_if (not (comment.order_id == order)) Error.not_found
  raise_if (not (comment.user_id == user)) Error.forbidden
  rewrite_comment id (λ c. record c { deleted_at = some now; deleted_by = some user })
  pure tt
