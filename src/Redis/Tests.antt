-- ===== src/Redis/Tests.antt =====
-- Concrete inputs for the theorems on replies.
use gamnet.Prelude.{◌≡◌, refl, true, [], ◌∷◌, ok}
use gamnet.Redis.{no_results, execute}
use gamnet.Redis.Words.{AreWords, lines}
use gamnet.Redis.Replies.{
  Reply, integer, bulk_text, null, array, done, and_then, tokens_of, result_of, IsReply,
  execute-reply,
}

-- *3, of which the second is an array of a bulk text "*" and a null.
abbrev nested : Reply
nested = array (51 ∷ []) (
    and_then (integer (55 ∷ [])) (
      and_then (array (50 ∷ []) (and_then (bulk_text (49 ∷ []) (42 ∷ [])) (and_then null done)))
        (and_then (bulk_text (49 ∷ []) (97 ∷ [])) done)))

nested-IsReply : IsReply nested
unfolding IsReply
nested-IsReply = (refl, (tt, ((refl, (refl, (tt, tt))), (refl, tt))))

nested-AreWords : AreWords (tokens_of nested)
unfolding tokens_of
nested-AreWords = (
  (λ e. absurd cc),
  (refl, (refl, tt)),
  (
    (λ e. absurd cc),
    (refl, (refl, tt)),
    (
      (λ e. absurd cc),
      (refl, (refl, tt)),
      (
        (λ e. absurd cc),
        (refl, (refl, tt)),
        (
          (λ e. absurd cc),
          (refl, tt),
          (
            (λ e. absurd cc),
            (refl, (refl, (refl, tt))),
            ((λ e. absurd cc), (refl, (refl, tt)), ((λ e. absurd cc), (refl, tt), tt)),
          ),
        ),
      ),
    ),
  ),
)

execute-reply_example :
    execute true (lines (tokens_of nested) ∷ []) ≡ ok (result_of no_results nested)
execute-reply_example = execute-reply nested [] nested-IsReply nested-AreWords
