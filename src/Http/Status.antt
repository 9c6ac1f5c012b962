-- ===== src/Http/Status.antt =====
-- The answers of Gamnet/Network/Http: Response.cpp and Session::Send. A string is the list of its bytes.
use gamnet.Prelude.{
  ℕ, suc, zero, ◌+◌, ◌/◌, ◌%◌, ltb, if◌then◌else◌, List, [], ◌∷◌, ◌++◌, Option, none, some, find,
}

pub record Response : Type 0 where
  pub error_code : ℕ
  pub context : List ℕ

-- InitErrorCode
unfoldable pub map_error_code : List (ℕ × List ℕ)
map_error_code =
    -- Continue
    (100, 67 ∷ 111 ∷ 110 ∷ 116 ∷ 105 ∷ 110 ∷ 117 ∷ 101 ∷ [])
    ∷
        -- Switching Protocols
        (
          101,
          83 ∷ 119 ∷ 105 ∷ 116 ∷ 99 ∷ 104 ∷ 105 ∷ 110 ∷ 103 ∷ 32 ∷ 80 ∷ 114 ∷ 111 ∷ 116 ∷ 111 ∷ 99
              ∷ 111 ∷ 108 ∷ 115 ∷ [],
        )
    ∷
        -- OK
        (200, 79 ∷ 75 ∷ [])
    ∷
        -- Created
        (201, 67 ∷ 114 ∷ 101 ∷ 97 ∷ 116 ∷ 101 ∷ 100 ∷ [])
    ∷
        -- Accepted
        (202, 65 ∷ 99 ∷ 99 ∷ 101 ∷ 112 ∷ 116 ∷ 101 ∷ 100 ∷ [])
    ∷
        -- Non-Authoritative Information (since HTTP/1.1)
        (
          203,
          78 ∷ 111 ∷ 110 ∷ 45 ∷ 65 ∷ 117 ∷ 116 ∷ 104 ∷ 111 ∷ 114 ∷ 105 ∷ 116 ∷ 97 ∷ 116 ∷ 105 ∷ 118
              ∷ 101 ∷ 32 ∷ 73 ∷ 110 ∷ 102 ∷ 111 ∷ 114 ∷ 109 ∷ 97 ∷ 116 ∷ 105 ∷ 111 ∷ 110 ∷ 32 ∷ 40
              ∷ 115 ∷ 105 ∷ 110 ∷ 99 ∷ 101 ∷ 32 ∷ 72 ∷ 84 ∷ 84 ∷ 80 ∷ 47 ∷ 49 ∷ 46 ∷ 49 ∷ 41 ∷ [],
        )
    ∷
        -- No Content
        (204, 78 ∷ 111 ∷ 32 ∷ 67 ∷ 111 ∷ 110 ∷ 116 ∷ 101 ∷ 110 ∷ 116 ∷ [])
    ∷
        -- Reset Content
        (205, 82 ∷ 101 ∷ 115 ∷ 101 ∷ 116 ∷ 32 ∷ 67 ∷ 111 ∷ 110 ∷ 116 ∷ 101 ∷ 110 ∷ 116 ∷ [])
    ∷
        -- Unauthorized
        (401, 85 ∷ 110 ∷ 97 ∷ 117 ∷ 116 ∷ 104 ∷ 111 ∷ 114 ∷ 105 ∷ 122 ∷ 101 ∷ 100 ∷ [])
    ∷
        -- Payment Required
        (
          402,
          80 ∷ 97 ∷ 121 ∷ 109 ∷ 101 ∷ 110 ∷ 116 ∷ 32 ∷ 82 ∷ 101 ∷ 113 ∷ 117 ∷ 105 ∷ 114 ∷ 101 ∷ 100
              ∷ [],
        )
    ∷
        -- Forbidden
        (403, 70 ∷ 111 ∷ 114 ∷ 98 ∷ 105 ∷ 100 ∷ 100 ∷ 101 ∷ 110 ∷ [])
    ∷
        -- Not Found
        (404, 78 ∷ 111 ∷ 116 ∷ 32 ∷ 70 ∷ 111 ∷ 117 ∷ 110 ∷ 100 ∷ [])
    ∷
        -- Method Not Allowed
        (
          405,
          77 ∷ 101 ∷ 116 ∷ 104 ∷ 111 ∷ 100 ∷ 32 ∷ 78 ∷ 111 ∷ 116 ∷ 32 ∷ 65 ∷ 108 ∷ 108 ∷ 111 ∷ 119
              ∷ 101 ∷ 100 ∷ [],
        )
    ∷ []

-- GetErrorStr; a missing code gets an empty string.
abbrev string_of : Option (List ℕ) → List ℕ
string_of none = []
string_of (some s) = s

unfoldable pub get_error_str : ℕ → List ℕ
unfolding map_error_code
get_error_str error_code = string_of (find map_error_code error_code)

-- A number as a stream prints it; it has fewer digits than its own value and one.
abbrev pub digits : ℕ → ℕ → List ℕ
digits zero n = []
digits (suc fuel) n =
    let high = digits fuel (n / 10) in
    if ltb n 10 then (48 + n) ∷ [] else high ++ ((48 + n % 10) ∷ [])

unfoldable pub decimal : ℕ → List ℕ
decimal n = digits (suc n) n

-- "HTTP/1.1 " and "\r\n"
abbrev version : List ℕ
version = 72 ∷ 84 ∷ 84 ∷ 80 ∷ 47 ∷ 49 ∷ 46 ∷ 49 ∷ 32 ∷ []

abbrev line_end : List ℕ
line_end = 13 ∷ 10 ∷ []

-- Session::Send: the bytes that are handed to `AsyncSend`.
unfoldable pub send : Response → List ℕ
send res =
    version
    ++ (decimal res.error_code
        ++ (32
            ∷ (get_error_str res.error_code
                ++ (line_end ++ (line_end ++ (res.context ++ (line_end ++ line_end)))))))

-- "404 Not found"
abbrev pub not_found : Response
not_found = record {
  error_code = 404;
  context = 52 ∷ 48 ∷ 52 ∷ 32 ∷ 78 ∷ 111 ∷ 116 ∷ 32 ∷ 102 ∷ 111 ∷ 117 ∷ 110 ∷ 100 ∷ [];
}
