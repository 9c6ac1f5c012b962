-- ===== src/Redis/Replies.antt =====
-- What a reply is parsed as.
use gamnet.Prelude.{
  ℕ, zero, suc, ◌≤◌, ◌<◌, ◌≡◌, refl, sym, ap, ◌∙◌, arith, ◌==◌, true, false, List, [], ◌∷◌, ◌++◌,
  append_assoc, append-nil, ok, fault, length, length-append,
}
use gamnet.Redis.{
  read_tokens, is_mark, Results, no_results, rounds, repeat, pushed, bulk, is_null, parse,
  parse_all, execute,
}
use gamnet.Redis.Words.{NoSpace, AreWords, lines, read_tokens-lines, read_tokens_spaced}

mutual
  -- The replies of the protocol, in which no text has whitespace. An array has the digits of its
  -- length, and a bulk text those of its own, which are not read.
  pub data Reply : Type 0 where
    simple failure integer : List ℕ → Reply
    bulk_text : List ℕ → List ℕ → Reply
    null : Reply
    array : List ℕ → Replies → Reply

  pub data Replies : Type 0 where
    done : Replies
    and_then : Reply → Replies → Replies

unfoldable mutual
  -- The words of a reply, as the server sends them.
  pub tokens_of : Reply → List (List ℕ)
  tokens_of (simple text) = (43 ∷ text) ∷ []
  tokens_of (failure text) = (45 ∷ text) ∷ []
  tokens_of (integer text) = (58 ∷ text) ∷ []
  tokens_of (bulk_text size text) = (36 ∷ size) ∷ text ∷ []
  tokens_of null = (36 ∷ 45 ∷ 49 ∷ []) ∷ []
  tokens_of (array size items) = (42 ∷ size) ∷ tokens_of_all items

  pub tokens_of_all : Replies → List (List ℕ)
  tokens_of_all done = []
  tokens_of_all (and_then item items) = tokens_of item ++ tokens_of_all items

unfoldable mutual
  -- The values of a reply from left to right, behind those that there are; the last failure is the
  -- error, with its mark.
  pub result_of : Results → Reply → Results
  result_of r (simple text) = pushed r text
  result_of r (failure text) = record r { error = 45 ∷ text }
  result_of r (integer text) = pushed r text
  result_of r (bulk_text size text) = pushed r text
  result_of r null = r
  result_of r (array size items) = result_of_all r items

  pub result_of_all : Results → Replies → Results
  result_of_all r done = r
  result_of_all r (and_then item items) = result_of_all (result_of r item) items

abbrev pub count : Replies → ℕ
count done = 0
count (and_then item items) = suc (count items)

unfoldable mutual
  -- An array has the digits of as many items as it has; a bulk text is not announced as a null.
  pub IsReply : Reply → Type 0
  IsReply (simple text) = Unit {0}
  IsReply (failure text) = Unit {0}
  IsReply (integer text) = Unit {0}
  IsReply (bulk_text size text) = is_null size ≡ false
  IsReply null = Unit {0}
  IsReply (array size items) = (rounds size ≡ count items) × AreReplies items

  pub AreReplies : Replies → Type 0
  AreReplies done = Unit {0}
  AreReplies (and_then item items) = IsReply item × AreReplies items

tokens_of_some : (a : Reply) → 0 < length (tokens_of a)
unfolding tokens_of
tokens_of_some (simple text) = omega arith
tokens_of_some (failure text) = omega arith
tokens_of_some (integer text) = omega arith
tokens_of_some (bulk_text size text) = omega arith
tokens_of_some null = omega arith
tokens_of_some (array size items) = omega arith

mutual
  unfolding parse bulk repeat tokens_of result_of IsReply

  parse-tokens_of :
      (fuel : ℕ) (r : Results) (a : Reply) (rest : List (List ℕ))
      → length (tokens_of a) ≤ fuel
      → IsReply a
      → parse fuel r (tokens_of a ++ rest) ≡ ok (result_of r a, rest)
  parse-tokens_of zero r a rest h v = absurd (omega (arith, tokens_of_some a))
  parse-tokens_of (suc fuel) r (simple text) rest h v = refl
  parse-tokens_of (suc fuel) r (failure text) rest h v = refl
  parse-tokens_of (suc fuel) r (integer text) rest h v = refl
  parse-tokens_of (suc fuel) r (bulk_text size text) rest h v = rw v refl
  parse-tokens_of (suc fuel) r null rest h v = refl
  parse-tokens_of (suc fuel) r (array size items) rest h (v, w) =
      rw v (repeat-tokens_of fuel r items rest (omega arith) w)

  repeat-tokens_of :
      (fuel : ℕ) (r : Results) (items : Replies) (rest : List (List ℕ))
      → length (tokens_of_all items) ≤ fuel
      → AreReplies items
      → repeat (parse fuel) (count items) r (tokens_of_all items ++ rest)
        ≡ ok (result_of_all r items, rest)
  repeat-tokens_of fuel r done rest h v = refl
  repeat-tokens_of fuel r (and_then item items) rest h (v, w) =
      rw
        (
          append_assoc (tokens_of item) (tokens_of_all items) rest,
          parse-tokens_of fuel r item (tokens_of_all items ++ rest)
              (omega (arith, length-append (tokens_of item) (tokens_of_all items))) v,
        )
        (repeat-tokens_of fuel (result_of r item) items rest
          (omega (arith, length-append (tokens_of item) (tokens_of_all items))) w)

read_reply :
    (l : List (List ℕ)) (reads : List (List ℕ))
    → 0 < length l
    → AreWords l
    → read_tokens (lines l ∷ reads) [] [] ≡ ok l
read_reply [] reads h w = absurd (omega arith)
read_reply (t ∷ tokens) reads h w = read_tokens-lines t tokens reads w

parse_reply :
    (l : List (List ℕ)) (r : Results) (a : Reply)
    → l ≡ tokens_of a
    → IsReply a
    → parse_all (length l) r l ≡ ok (result_of r a)
unfolding parse_all
parse_reply [] r a e v =
    let n : length (tokens_of a) ≡ 0 = ap length (sym e) in
    absurd (omega (arith, tokens_of_some a, n))
parse_reply (t ∷ tokens) r a e v =
    let n : length (tokens_of a) ≡ length (t ∷ tokens) = ap length (sym e) in
    let p : parse (suc (length (t ∷ tokens))) r (t ∷ tokens) ≡ ok (result_of r a, []) =
      ap (parse (suc (length (t ∷ tokens))) r) (e ∙ sym (append-nil (tokens_of a)))
      ∙ parse-tokens_of (suc (length (t ∷ tokens))) r a [] (omega (arith, n)) v in
    rw p refl

-- A reply of the protocol that comes as whole lines in one read, each of one word: no line is empty or
-- has whitespace
-- in it. Whatever its arrays hold, the result has its values from left to right and its last failure
-- as the error.
pub execute-reply :
    (a : Reply) (reads : List (List ℕ))
    → IsReply a
    → AreWords (tokens_of a)
    → execute true (lines (tokens_of a) ∷ reads) ≡ ok (result_of no_results a)
unfolding execute
execute-reply a reads v w =
    rw (read_reply (tokens_of a) reads (tokens_of_some a) w)
      (parse_reply (tokens_of a) no_results a refl v)

-- A bulk text that comes in a read of its own: the reply is taken to end with the line in front of
-- it, and the parser reads the token behind the last.
pub execute_cut :
    (size : List ℕ) (reads : List (List ℕ))
    → NoSpace size
    → is_null size ≡ false
    → execute true (lines ((36 ∷ size) ∷ []) ∷ reads) ≡ fault
unfolding execute parse_all parse bulk
execute_cut size reads w v =
    rw (read_tokens-lines (36 ∷ size) [] reads ((λ e. absurd cc), (refl, w), tt), v) refl

-- A simple reply of two words: the second is no part of the value, but of the error.
pub execute_spaced :
    (a : List ℕ) (c : ℕ) (b : List ℕ) (reads : List (List ℕ))
    → NoSpace a
    → NoSpace (c ∷ b)
    → is_mark (c ∷ b) ≡ false
    → execute true (((43 ∷ a) ++ 32 ∷ lines ((c ∷ b) ∷ [])) ∷ reads)
      ≡ ok (record { values = a ∷ []; error = 32 ∷ (c ∷ b) })
unfolding execute parse_all parse
execute_spaced a c b reads v w m =
    let e43 : (c == 43) ≡ false = ground (arith, m) in
    let e45 : (c == 45) ≡ false = ground (arith, m) in
    let e58 : (c == 58) ≡ false = ground (arith, m) in
    let e36 : (c == 36) ≡ false = ground (arith, m) in
    let e42 : (c == 42) ≡ false = ground (arith, m) in
    rw (read_tokens_spaced 43 c a b reads (refl, v) w, e43, e45, e58, e36, e42) refl
