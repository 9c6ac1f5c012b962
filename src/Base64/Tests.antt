-- ===== src/Base64/Tests.antt =====
-- A run of the encoder, and a concrete input for the round trip.
use gamnet.Prelude.{ℕ, ◌≡◌, refl, arith, ok, List, [], ◌∷◌, IsBytes}
use gamnet.Base64.{encode, decode, char_of}
use gamnet.Base64.RoundTrip.{decode-encode}

-- The text of "Ma" is "TWE=".
encode_two : encode (77 ∷ 97 ∷ []) ≡ 84 ∷ 87 ∷ 69 ∷ 61 ∷ []
unfolding encode char_of
encode_two = refl

abbrev four_bytes : List ℕ
four_bytes = 0 ∷ 255 ∷ 17 ∷ 200 ∷ []

four_bytes-IsBytes : IsBytes four_bytes
four_bytes-IsBytes = (omega arith, (omega arith, (omega arith, (omega arith, tt))))

decode-encode_example : decode (encode four_bytes) ≡ ok four_bytes
unfolding encode
decode-encode_example = decode-encode four_bytes four_bytes-IsBytes (omega arith)
