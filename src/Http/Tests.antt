-- ===== src/Http/Tests.antt =====
-- Concrete inputs for the theorems on requests.
use gamnet.Prelude.{ℕ, ◌^◌, ◌<◌, ◌≡◌, refl, arith, true, List, [], ◌∷◌, ◌++◌, some, ok, length}
use gamnet.Buffer.{Buffer, size}
use gamnet.RouterCaster.{at_name}
use gamnet.Http.{Params, request, Curl, on_recv_msg}
use gamnet.Http.Status.{send, not_found, decimal, get_error_str}
use gamnet.Http.Params.{printed, Fits, request_total, request-printed}
use gamnet.Http.Lines.{Line, line, IsLine, on_recv_msg-printed}

-- a=1&b=2&a=3
abbrev pairs : Params
pairs = (97 ∷ [], 49 ∷ []) ∷ (98 ∷ [], 50 ∷ []) ∷ (97 ∷ [], 51 ∷ []) ∷ []

pairs-Fits : Fits pairs
pairs-Fits = (
  (refl, tt),
  (refl, tt),
  (refl, tt),
  ((refl, tt), (refl, tt), (refl, tt), ((refl, tt), (refl, tt), (refl, tt), tt)),
)

request_total_example : (m : Params) × (request (97 ∷ 61 ∷ []) ≡ some m)
request_total_example = request_total (97 ∷ 61 ∷ [])

pairs_bounded : length (printed pairs) < 2 ^ 64
unfolding printed
pairs_bounded = omega arith

request-printed_example :
    (m : Params) × (request (printed pairs) ≡ some m)
    × ((name : List ℕ) → at_name m name ≡ at_name pairs name)
request-printed_example = request-printed pairs pairs-Fits pairs_bounded

-- GET /x?q= HTTP/1.1
abbrev get : Line
get = record {
  method = 71 ∷ 69 ∷ 84 ∷ 32 ∷ [];
  uri = 120 ∷ [];
  query = 113 ∷ [];
  version = 72 ∷ [];
}

get-IsLine : IsLine get
unfolding line
get-IsLine = record {
  method = (refl, (refl, (refl, (refl, tt))));
  uri = (refl, tt);
  uri_and_query = (refl, (refl, (refl, tt)));
  one_line = (refl, (refl, (refl, (refl, (refl, (refl, (refl, (refl, (refl, (refl, tt))))))))));
  no_line_feed = (refl, (refl, (refl, (refl, (refl, (refl, (refl, (refl, (refl, (refl, tt))))))))));
  bounded = omega arith;
}

-- Whatever is decoded comes out as the pairs.
abbrev curl : Curl
curl = record { first_handle = true; second_handle = true; unescape = λ s. some (printed pairs) }

abbrev received : Buffer
received = record {
  mem = 0 ∷ (line get ++ 13 ∷ (10 ∷ []));
  read_cursor = 1;
  write_cursor = 13;
  buf_size = 13;
}

get_inside : length (line get) < size received
unfolding line size
get_inside = omega arith

on_recv_msg-printed_example :
    (m : Params) × (on_recv_msg curl received ≡ ok (some (record { uri = get.uri; params = m })))
    × ((name : List ℕ) → at_name m name ≡ at_name pairs name)
on_recv_msg-printed_example =
    on_recv_msg-printed curl received get [] pairs refl get_inside get-IsLine
      (record { first = refl; second = refl; plain_text = refl }) pairs-Fits pairs_bounded

abbrev cut : Buffer
cut = record { mem = 71 ∷ 13 ∷ []; read_cursor = 0; write_cursor = 2; buf_size = 2 }

-- A page that is not found.
send-not_found :
    send not_found
    ≡ 72 ∷ 84 ∷ 84 ∷ 80 ∷ 47 ∷ 49 ∷ 46 ∷ 49 ∷ 32 ∷ 52 ∷ 48 ∷ 52 ∷ 32 ∷ 78 ∷ 111 ∷ 116 ∷ 32 ∷ 70
      ∷ 111 ∷ 117 ∷ 110 ∷ 100 ∷ 13 ∷ 10 ∷ 13 ∷ 10 ∷ 52 ∷ 48 ∷ 52 ∷ 32 ∷ 78 ∷ 111 ∷ 116 ∷ 32 ∷ 102
      ∷ 111 ∷ 117 ∷ 110 ∷ 100 ∷ 13 ∷ 10 ∷ 13 ∷ 10 ∷ []
unfolding send decimal get_error_str
send-not_found = refl
