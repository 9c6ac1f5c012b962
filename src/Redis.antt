-- ===== src/Redis.antt =====
-- Gamnet/Database/Redis: Connection.cpp (Execute, Parse) and ResultSet.cpp.
-- A string is the list of its bytes. What the socket gives is a list of reads, each up to the first
-- "\r\n" at least; the list of tokens is consumed, so the iterator is what is left of it.
pub mod Words
pub mod Replies
mod Tests
use gamnet.Prelude.{
  ℕ, zero, suc, ◌+◌, ◌*◌, ◌-◌, ◌==◌, ltb, leb, ◌&&◌, ◌||◌, if◌then◌else◌, Bool, true, false, List,
  [], ◌∷◌, ◌++◌, Option, none, some, Outcome, ok, throw, fault, ◌>>=◌, length, get_elem?, drop,
  connect_fail_error, system_error, invalid_array_range_error,
}

-- ResultSetImpl
pub record Results : Type 0 where
  pub values : List (List ℕ)
  pub error : List ℕ

abbrev pub no_results : Results
no_results = record { values = []; error = [] }

-- Whitespace, as a stream skips it.
abbrev pub is_space : ℕ → Bool
is_space c = c == 32 || (leb 9 c && leb c 13)

abbrev pub flush : List ℕ → List (List ℕ)
flush [] = []
flush (c ∷ word) = (c ∷ word) ∷ []

-- The words that an istream_iterator gives, behind the part of a word that was read.
abbrev pub words : List ℕ → List ℕ → List (List ℕ)
words word [] = flush word
words word (c ∷ s) =
    let next = words [] s in
    let on = words (word ++ (c ∷ [])) s in if is_space c then flush word ++ next else on

-- The first bytes '+', '-', ':', '$' and '*'.
abbrev pub is_mark : List ℕ → Bool
is_mark [] = false
is_mark (c ∷ word) = c == 43 || (c == 45 || (c == 58 || (c == 36 || c == 42)))

-- The loop on the words of a read; `token` is the end of the read before.
unfoldable pub add_words : List (List ℕ) → List ℕ → List (List ℕ) → List (List ℕ)
add_words tokens token [] = tokens
add_words tokens token (word ∷ more) =
    let apart = add_words (tokens ++ (token ∷ word ∷ [])) [] more in
    let together = add_words (tokens ++ ((token ++ word) ∷ [])) [] more in
    if is_mark word && ltb 0 (length token) then apart else together

abbrev pub ends_line : List ℕ → Bool
ends_line [] = false
ends_line (c ∷ []) = c == 10
ends_line (c ∷ d ∷ s) = ends_line (d ∷ s)

-- `tokens.back()` and the others
abbrev pub back : List (List ℕ) → List ℕ
back [] = []
back (t ∷ []) = t
back (t ∷ u ∷ l) = back (u ∷ l)

abbrev pub pop_back : List (List ℕ) → List (List ℕ)
pop_back [] = []
pop_back (t ∷ []) = []
pop_back (t ∷ u ∷ l) = t ∷ pop_back (u ∷ l)

-- The `while` loop; a read that fails throws.
unfoldable pub read_tokens : List (List ℕ) → List (List ℕ) → List ℕ → Outcome (List (List ℕ))
read_tokens [] tokens token = throw system_error
read_tokens (data_ ∷ reads) tokens token =
    let tokens' = add_words tokens token (words [] data_) in
    let rest = read_tokens reads (pop_back tokens') (back tokens') in
    if length tokens' == 0 then ok tokens' else if ends_line data_ then ok tokens' else rest

-- `atoi` of a count: the digits behind a sign; a negative one makes no round.
abbrev pub digits_value : ℕ → List ℕ → ℕ
digits_value n [] = n
digits_value n (c ∷ s) =
    let more = digits_value (n * 10 + (c - 48)) s in if leb 48 c && leb c 57 then more else n

abbrev pub rounds : List ℕ → ℕ
rounds [] = 0
rounds (c ∷ s) = if c == 43 then digits_value 0 s else digits_value 0 (c ∷ s)

-- `count` calls of `Parse`, one after the other
repeat :
    (Results → List (List ℕ) → Outcome (Results × List (List ℕ)))
    → ℕ
    → Results
    → List (List ℕ)
    → Outcome (Results × List (List ℕ))
repeat parse zero r tokens = ok (r, tokens)
repeat parse (suc count) r tokens = parse r tokens >>= λ s. repeat parse count s.0 s.1

abbrev pub pushed : Results → List ℕ → Results
pushed r value = record r { values = r.values ++ (value ∷ []) }

-- The word behind a '$' is the value, and there may be none.
bulk : Results → List (List ℕ) → Outcome (Results × List (List ℕ))
bulk r [] = fault
bulk r (value ∷ tokens) = ok (pushed r value, tokens)

-- "$-1"
abbrev pub is_null : List ℕ → Bool
is_null [] = false
is_null (a ∷ []) = false
is_null (a ∷ b ∷ []) = a == 45 && b == 49
is_null (a ∷ b ∷ c ∷ s) = false

-- Connection::Parse, with fuel, on the tokens from the iterator on; it gives those behind the last
-- one that it used. The end of the list must not be read. Out of fuel is `fault` too.
unfoldable pub parse : ℕ → Results → List (List ℕ) → Outcome (Results × List (List ℕ))
unfolding repeat bulk
parse zero r tokens = fault
parse (suc fuel) r [] = fault
parse (suc fuel) r ([] ∷ tokens) = ok (record r { error = r.error ++ (32 ∷ []) }, tokens)
parse (suc fuel) r ((mark ∷ text) ∷ tokens) =
    let items = repeat (parse fuel) (rounds text) r tokens in
    if mark == 43
    then ok (pushed r text, tokens)
    else if mark == 45
    then ok (record r { error = mark ∷ text }, tokens)
    else if mark == 58
    then ok (pushed r text, tokens)
    else if mark == 36
    then (if is_null text then ok (r, tokens) else bulk r tokens)
    else if mark == 42
    then items
    else ok (record r { error = r.error ++ (32 ∷ (mark ∷ text)) }, tokens)

-- The loop on all tokens; each `Parse` uses one at least.
unfoldable pub parse_all : ℕ → Results → List (List ℕ) → Outcome Results
unfolding parse
parse_all fuel r [] = ok r
parse_all zero r (t ∷ tokens) = fault
parse_all (suc fuel) r (t ∷ tokens) =
    parse (suc (length (t ∷ tokens))) r (t ∷ tokens) >>= λ s. parse_all fuel s.0 s.1

-- Connection::Execute, with what the socket gives after the query.
unfoldable pub execute : Bool → List (List ℕ) → Outcome Results
unfolding parse_all read_tokens
execute is_open reads =
    let answered =
      read_tokens reads [] [] >>= λ tokens. parse_all (length tokens) no_results tokens in
    if is_open then answered else throw connect_fail_error

-- ResultSet::operator [], of an index that is not negative
unfoldable pub get_result : Results → ℕ → Outcome (List ℕ)
get_result r index = elim (get_elem? r.values index) [
  | none ↦ throw invalid_array_range_error
  | some v ↦ ok v
]
