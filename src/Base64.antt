-- ===== src/Base64.antt =====
-- Gamnet/Library/Base64.cpp: Base64 text of bytes and back. Characters and bytes are numbers below
-- 256; the masks and shifts of the source are written with `/`, `%` and `*`.
pub mod RoundTrip
mod Tests
use gamnet.Prelude.{
  ℕ, ◌+◌, ◌-◌, ◌^◌, u32, length, take, Outcome, ok, fault, ◌*◌, ◌/◌, ◌%◌, ◌==◌, ltb, leb,
  if◌then◌else◌, Bool, true, false, ◌&&◌, ◌||◌, List, [], ◌∷◌, ◌++◌,
}

-- base64_chars
unfoldable pub char_of : ℕ → ℕ
char_of i =
    if ltb i 26
    then i + 65
    else if ltb i 52
    then i + 71
    else if ltb i 62
    then i - 4
    else if i == 62
    then 43
    else 47

-- `isalnum` in the C locale, `+` and `/`.
unfoldable pub is_base64 : ℕ → Bool
is_base64 c =
    (leb 65 c && leb c 90)
    || ((leb 97 c && leb c 122) || ((leb 48 c && leb c 57) || (c == 43 || c == 47)))

-- `base64_chars.find(c)` as an unsigned char: `npos` becomes 255.
unfoldable pub index_of : ℕ → ℕ
index_of c =
    if leb 65 c && leb c 90
    then c - 65
    else if leb 97 c && leb c 122
    then c - 71
    else if leb 48 c && leb c 57
    then c + 4
    else if c == 43
    then 62
    else if c == 47
    then 63
    else 255

-- The four numbers of three bytes.
abbrev pub first_of : ℕ → ℕ
first_of a = a / 4

abbrev pub second_of : ℕ → ℕ → ℕ
second_of a b = a % 4 * 16 + b / 16

abbrev pub third_of : ℕ → ℕ → ℕ
third_of b c = b % 16 * 4 + c / 64

abbrev pub fourth_of : ℕ → ℕ
fourth_of c = c % 64

-- Base64Encode
unfoldable pub encode : List ℕ → List ℕ
unfolding char_of
encode [] = []
encode (a ∷ []) = char_of (first_of a) ∷ char_of (second_of a 0) ∷ 61 ∷ 61 ∷ []
encode (a ∷ b ∷ []) =
    char_of (first_of a) ∷ char_of (second_of a b) ∷ char_of (third_of b 0) ∷ 61 ∷ []
encode (a ∷ b ∷ c ∷ rest) =
    char_of (first_of a)
    ∷ char_of (second_of a b)
    ∷ char_of (third_of b c)
    ∷ char_of (fourth_of c)
    ∷ encode rest

-- The three bytes of four numbers, each cut to an unsigned char.
abbrev pub high : ℕ → ℕ → ℕ
high w x = (w * 4 + x / 16 % 4) % 256

abbrev pub middle : ℕ → ℕ → ℕ
middle x y = (x % 16 * 16 + y / 4 % 16) % 256

abbrev pub low : ℕ → ℕ → ℕ
low y z = (y % 4 * 64 + z) % 256

-- The characters up to the first that is `=` or no character of the alphabet.
unfoldable pub valid_prefix : List ℕ → List ℕ
unfolding is_base64
valid_prefix [] = []
valid_prefix (c ∷ cs) =
    let rest = valid_prefix cs in if c == 61 then [] else if is_base64 c then c ∷ rest else []

-- The groups of four, and what is left at the end.
unfoldable pub decode_groups : List ℕ → List ℕ
unfolding index_of
decode_groups [] = []
decode_groups (w ∷ []) = []
decode_groups (w ∷ x ∷ []) = high (index_of w) (index_of x) ∷ []
decode_groups (w ∷ x ∷ y ∷ []) =
    high (index_of w) (index_of x) ∷ middle (index_of x) (index_of y) ∷ []
decode_groups (w ∷ x ∷ y ∷ z ∷ rest) =
    high (index_of w) (index_of x)
    ∷ middle (index_of x) (index_of y)
    ∷ low (index_of y) (index_of z)
    ∷ decode_groups rest

-- Base64Decode. `in_len` is the size as an `int`: one that is not negative bounds the loop, with the
-- low 32 bits of the size; below 0 only a character that is not valid ends it, and `in_len--` is
-- undefined at the least `int`.
unfoldable pub decode : List ℕ → Outcome (List ℕ)
unfolding valid_prefix decode_groups
decode cs =
    let n = u32 (length cs) in
    let valid = valid_prefix cs in
    if ltb n (2 ^ 31)
    then ok (decode_groups (valid_prefix (take n cs)))
    else if leb (2 ^ 31 + length valid + 1) n
    then ok (decode_groups valid)
    else fault
