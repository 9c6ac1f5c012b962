-- ===== src/Base64/RoundTrip.antt =====
-- Decoding what was encoded.
use gamnet.Prelude.{
  ◌^◌, u32, length, take_all, lt→ltb, ok, ap, ℕ, ◌<◌, ◌≡◌, refl, arith, ◌==◌, true, false, List, [],
  ◌∷◌, IsBytes,
}
use gamnet.Base64.{
  char_of, is_base64, index_of, first_of, second_of, third_of, fourth_of, encode, high, middle, low,
  valid_prefix, decode_groups, decode,
}

index_of-char_of : (i : ℕ) → i < 64 → index_of (char_of i) ≡ i
unfolding index_of char_of
index_of-char_of i h = ground arith

char_valid : (i : ℕ) → i < 64 → (is_base64 (char_of i) ≡ true) × ((char_of i == 61) ≡ false)
unfolding is_base64 char_of
char_valid i h = ground arith

valid_cons :
    (i : ℕ) (cs : List ℕ) → i < 64 → valid_prefix (char_of i ∷ cs) ≡ char_of i ∷ valid_prefix cs
unfolding valid_prefix
valid_cons i cs h = let (valid, no_pad) = char_valid i h in rw (no_pad, valid) refl

valid_pad : (cs : List ℕ) → valid_prefix (61 ∷ cs) ≡ []
unfolding valid_prefix
valid_pad cs = refl

high_lem : (a b : ℕ) → a < 256 → b < 256 → high (first_of a) (second_of a b) ≡ a
high_lem a b h k = omega arith

middle_lem : (a b c : ℕ) → a < 256 → b < 256 → c < 256 → middle (second_of a b) (third_of b c) ≡ b
middle_lem a b c h k l = omega arith

low_lem : (b c : ℕ) → b < 256 → c < 256 → low (third_of b c) (fourth_of c) ≡ c
low_lem b c h k = omega arith

decoded : (bytes : List ℕ) → IsBytes bytes → decode_groups (valid_prefix (encode bytes)) ≡ bytes
unfolding encode decode_groups
decoded [] h = unfold valid_prefix in refl
decoded (a ∷ []) (ha, h) =
    rw
      (
        valid_cons (first_of a) (char_of (second_of a 0) ∷ 61 ∷ 61 ∷ []) (omega arith),
        valid_cons (second_of a 0) (61 ∷ 61 ∷ []) (omega arith),
        valid_pad (61 ∷ []),
        index_of-char_of (first_of a) (omega arith),
        index_of-char_of (second_of a 0) (omega arith),
        high_lem a 0 ha (omega arith),
      )
      refl
decoded (a ∷ b ∷ []) (ha, (hb, h)) =
    rw
      (
        valid_cons (first_of a) (char_of (second_of a b) ∷ char_of (third_of b 0) ∷ 61 ∷ [])
            (omega arith),
        valid_cons (second_of a b) (char_of (third_of b 0) ∷ 61 ∷ []) (omega arith),
        valid_cons (third_of b 0) (61 ∷ []) (omega arith),
        valid_pad [],
        index_of-char_of (first_of a) (omega arith),
        index_of-char_of (second_of a b) (omega arith),
        index_of-char_of (third_of b 0) (omega arith),
        high_lem a b ha hb,
        middle_lem a b 0 ha hb (omega arith),
      )
      refl
decoded (a ∷ b ∷ c ∷ rest) (ha, (hb, (hc, h))) =
    let again : decode_groups (valid_prefix (encode rest)) ≡ rest = decoded rest h in
    rw
      (
        valid_cons (first_of a)
            (char_of (second_of a b) ∷ char_of (third_of b c) ∷ char_of (fourth_of c) ∷ encode rest)
            (omega arith),
        valid_cons (second_of a b) (char_of (third_of b c) ∷ char_of (fourth_of c) ∷ encode rest)
            (omega arith),
        valid_cons (third_of b c) (char_of (fourth_of c) ∷ encode rest) (omega arith),
        valid_cons (fourth_of c) (encode rest) (omega arith),
        index_of-char_of (first_of a) (omega arith),
        index_of-char_of (second_of a b) (omega arith),
        index_of-char_of (third_of b c) (omega arith),
        index_of-char_of (fourth_of c) (omega arith),
        high_lem a b ha hb,
        middle_lem a b c ha hb hc,
        low_lem b c hb hc,
        again,
      )
      refl

-- Decoding the Base64 text of any bytes gives the bytes, where the text is shorter than 2 ^ 31.
pub decode-encode :
    (bytes : List ℕ)
    → IsBytes bytes
    → length (encode bytes) < 2 ^ 31
    → decode (encode bytes) ≡ ok bytes
unfolding decode
decode-encode bytes h short =
    let n = length (encode bytes) in
    let low : u32 n ≡ n = omega arith in
    rw (low, lt→ltb n (2 ^ 31) short, take_all n (encode bytes) (omega arith))
      (ap ok (decoded bytes h))
