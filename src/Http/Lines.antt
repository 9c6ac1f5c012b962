-- ===== src/Http/Lines.antt =====
-- What the bytes of a connection ask for.
use gamnet.Prelude.{
  ℕ, zero, suc, ◌+◌, ◌-◌, ◌^◌, ◌<◌, ◌≡◌, refl, sym, ap, ◌∙◌, arith, true, List, [], ◌∷◌, ◌++◌,
  append_assoc, none, some, ok, fault, length, take, drop, add64, add64_of_lt, length-append,
  take-append_all, take_all,
}
use gamnet.RouterCaster.{at_name}
use gamnet.Buffer.{Buffer, size}
use gamnet.Http.Strings.{
  Without, find_char-past, find_char-Without, Without-append, past_name, value_of, length-pair,
}
use gamnet.Http.Params.{printed, Fits, request-printed}
use gamnet.Http.{
  find_char, Params, request, Curl, c_string, find_line, decoded, made_of, ask_uri, first_line,
  behind_slash, asked_in, ask, on_recv_msg,
}

find_line-past :
    (s rest : List ℕ) (n k : ℕ)
    → Without 13 s
    → length s < n
    → find_line (s ++ 13 ∷ (10 ∷ rest)) n k ≡ ok (some (k + length s))
unfolding find_line
find_line-past s rest zero k w h = absurd (omega arith)
find_line-past [] rest (suc n) k w h = ap (λ i. ok (some i)) (omega arith)
find_line-past (x ∷ []) rest (suc n) k (x_other, w) h =
    rw x_other
      (find_line-past [] rest n (suc k) tt (omega arith) ∙ ap (λ i. ok (some i)) (omega arith))
find_line-past (x ∷ (y ∷ s)) rest (suc n) k (x_other, w) h =
    rw x_other
      (find_line-past (y ∷ s) rest n (suc k) w (omega arith) ∙ ap (λ i. ok (some i)) (omega arith))

take-line : (s rest : List ℕ) → take (length s + 1) (s ++ 13 ∷ (10 ∷ rest)) ≡ s ++ 13 ∷ []
take-line [] rest = refl
take-line (x ∷ s) rest =
    let e : suc (length s) + 1 ≡ suc (length s + 1) = omega arith in
    rw e (ap (◌∷◌ x) (take-line s rest))

-- A request line: `method`, then "/" and `uri`, "?" and `query`, " " and `version`.
pub record Line : Type 0 where
  pub method : List ℕ
  pub uri : List ℕ
  pub query : List ℕ
  pub version : List ℕ

abbrev target : Line → List ℕ
target l = l.uri ++ 63 ∷ (l.query ++ 32 ∷ l.version)

unfoldable pub line : Line → List ℕ
line l = l.method ++ 47 ∷ target l

-- No part has a separator that comes behind it, and the line has no "\r" and no "\n".
pub record IsLine (l : Line) : Type 0 where
  pub method : Without 47 l.method
  pub uri : Without 63 l.uri
  pub uri_and_query : Without 32 (l.uri ++ 63 ∷ l.query)
  pub one_line : Without 13 (line l)
  pub no_line_feed : Without 10 (line l)
  pub bounded : length (line l) + 1 < 2 ^ 64

-- The two handles of curl, and the query that they decode.
pub record Decodes (curl : Curl) (query plain : List ℕ) : Type 0 where
  pub first : curl.first_handle ≡ true
  pub second : curl.second_handle ≡ true
  pub plain_text : curl.unescape (c_string query) ≡ some plain

decoded_lem :
    (curl : Curl) (uri query version plain : List ℕ)
    → Decodes curl query plain
    → length uri + 1 + length query < 2 ^ 64
    → decoded curl
        (uri ++ 63 ∷ (query ++ 32 ∷ version))
        (some (length uri))
        (some (length (uri ++ 63 ∷ query)))
      ≡ ok plain
unfolding decoded
decoded_lem curl uri query version plain d h =
    let e : length (uri ++ 63 ∷ query) ≡ length uri + 1 + length query =
      omega (arith, length-append uri (63 ∷ query)) in
    rw
      (
        decoded,
        d.first,
        value_of 63 uri query (32 ∷ version) (length (uri ++ 63 ∷ query)) e (omega (arith, e)),
        d.plain_text,
      )
      refl

first_line_lem : (l : Line) → IsLine l → first_line (line l ++ 13 ∷ []) ≡ line l ++ 13 ∷ []
unfolding first_line
first_line_lem l i =
    let s = line l ++ 13 ∷ [] in
    let e : find_char s 10 ≡ none =
      find_char-Without 10 s (Without-append 10 (line l) (13 ∷ []) i.no_line_feed (refl, tt)) in
    let b = i.bounded in
    rw e (take_all (2 ^ 64 - 1) s (omega (arith, b, length-append (line l) (13 ∷ []))))

behind_slash_lem : (l : Line) → IsLine l → behind_slash (line l ++ 13 ∷ []) ≡ target l ++ 13 ∷ []
unfolding behind_slash line
behind_slash_lem l i =
    let t = target l ++ 13 ∷ [] in
    let grouped : line l ++ 13 ∷ [] ≡ l.method ++ 47 ∷ t =
      append_assoc l.method (47 ∷ target l) (13 ∷ []) in
    let b = i.bounded in
    let e : add64 (length l.method) 1 ≡ length l.method + 1 =
      add64_of_lt (length l.method) 1 (omega (arith, b, length-append l.method (47 ∷ target l))) in
    rw (grouped, find_char-past 47 l.method t i.method, e) (past_name 47 l.method t)

ask_uri_lem :
    (curl : Curl) (uri query version plain : List ℕ) (m : Params)
    → Without 63 uri
    → Without 32 (uri ++ 63 ∷ query)
    → Decodes curl query plain
    → length uri + 1 + length query < 2 ^ 64
    → request plain ≡ some m
    → ask_uri curl (uri ++ 63 ∷ (query ++ 32 ∷ version)) ≡ ok (record { uri = uri; params = m })
unfolding ask_uri made_of
ask_uri_lem curl uri query version plain m w v d h e =
    let s = uri ++ 63 ∷ (query ++ 32 ∷ version) in
    let param_end : find_char s 32 ≡ some (length (uri ++ 63 ∷ query)) =
      ap (λ t. find_char t 32) (sym (append_assoc uri (63 ∷ query) (32 ∷ version)))
      ∙ find_char-past 32 (uri ++ 63 ∷ query) version v in
    rw
      (
        find_char-past 63 uri (query ++ 32 ∷ version) w,
        param_end,
        decoded_lem curl uri query version plain d h,
        d.second,
        e,
        take-append_all uri (63 ∷ (query ++ 32 ∷ version)),
      )
      refl

-- A connection whose bytes begin with a request line, `bytes` and as many as the buffer has: the
-- dispatcher gets the line's uri and the pairs of its query as curl decodes it, each name with the
-- value of its first pair.
pub on_recv_msg-printed :
    (curl : Curl) (p : Buffer) (l : Line) (rest : List ℕ) (pairs : Params)
    → drop p.read_cursor p.mem ≡ line l ++ 13 ∷ (10 ∷ rest)
    → length (line l) < size p
    → IsLine l
    → Decodes curl l.query (printed pairs)
    → Fits pairs
    → length (printed pairs) < 2 ^ 64
    → (m : Params) × (on_recv_msg curl p ≡ ok (some (record { uri = l.uri; params = m })))
      × ((name : List ℕ) → at_name m name ≡ at_name pairs name)
unfolding on_recv_msg ask asked_in line
on_recv_msg-printed curl p l rest pairs bytes h i d f k =
    let (m, e, values) = request-printed pairs f k in
    let found : find_line (line l ++ 13 ∷ (10 ∷ rest)) (size p) 0 ≡ ok (some (length (line l))) =
      find_line-past (line l) rest (size p) 0 i.one_line h ∙ ap (λ n. ok (some n)) (omega arith) in
    let b = i.bounded in
    let uri_end : length l.uri + 1 + length l.query < 2 ^ 64 = size_lem b in
    let asked : ask_uri curl (target l ++ 13 ∷ []) ≡ ok (record { uri = l.uri; params = m }) =
      ap (ask_uri curl) regroup
      ∙ ask_uri_lem curl l.uri l.query (l.version ++ 13 ∷ []) (printed pairs) m i.uri
          i.uri_and_query d uri_end e in
    (
      m,
      rw (bytes, found, take-line (line l) rest, first_line_lem l i, behind_slash_lem l i, asked)
          refl,
      values,
    )
  where
    regroup : target l ++ 13 ∷ [] ≡ l.uri ++ 63 ∷ (l.query ++ 32 ∷ (l.version ++ 13 ∷ []))
    regroup =
        append_assoc l.uri (63 ∷ (l.query ++ 32 ∷ l.version)) (13 ∷ [])
        ∙ ap (λ s. l.uri ++ 63 ∷ s) (append_assoc l.query (32 ∷ l.version) (13 ∷ []))

    size_lem : length (line l) + 1 < 2 ^ 64 → length l.uri + 1 + length l.query < 2 ^ 64
    size_lem b = omega (
      arith,
      length-append l.method (47 ∷ target l),
      length-pair 63 l.uri l.query (32 ∷ l.version),
    )

cut_line : (s : List ℕ) → Without 13 s → (k : ℕ) → find_line (s ++ 13 ∷ []) (length s + 1) k ≡ fault
unfolding find_line
cut_line [] w k = refl
cut_line (x ∷ []) (x_other, w) k = rw x_other refl
cut_line (x ∷ (y ∷ s)) (x_other, w) k =
    let e : suc (length (y ∷ s)) + 1 ≡ suc (length (y ∷ s) + 1) = omega arith in
    rw (e, x_other) (cut_line (y ∷ s) w (suc k))

-- Bytes that end with their only "\r" at the end of the block: the byte behind the block is read.
pub on_recv_msg_beyond :
    (curl : Curl) (p : Buffer) (s : List ℕ)
    → drop p.read_cursor p.mem ≡ s ++ 13 ∷ []
    → size p ≡ length s + 1
    → Without 13 s
    → on_recv_msg curl p ≡ fault
unfolding on_recv_msg
on_recv_msg_beyond curl p s bytes e w = rw (bytes, e, cut_line s w 0) refl
