-- ===== src/Http/Strings.antt =====
-- Finding a byte in a string, and cutting the string there.
use gamnet.Prelude.{
  ℕ, suc, ◌+◌, ◌^◌, ◌<◌, ◌≡◌, refl, sym, ap, ◌∙◌, arith, ◌==◌, false, List, [], ◌∷◌, ◌++◌, none,
  some, length, drop, sub64, length-append, take-append_all, drop-append_all, drop-drop,
}
use gamnet.Http.{find_char, substr}

abbrev pub Without : ℕ → List ℕ → Type 0
Without c [] = Unit {0}
Without c (x ∷ s) = ((x == c) ≡ false) × Without c s

pub find_char-past :
    (c : ℕ) (s t : List ℕ) → Without c s → find_char (s ++ c ∷ t) c ≡ some (length s)
find_char-past c [] t w = ground arith
find_char-past c (x ∷ s) t (x_other, w) = rw (x_other, find_char-past c s t w) refl

pub find_char-Without : (c : ℕ) (s : List ℕ) → Without c s → find_char s c ≡ none
find_char-Without c [] w = refl
find_char-Without c (x ∷ s) (x_other, w) = rw (x_other, find_char-Without c s w) refl

pub Without-append : (c : ℕ) (s t : List ℕ) → Without c s → Without c t → Without c (s ++ t)
Without-append c [] t w v = v
Without-append c (x ∷ s) t (x_other, w) v = (x_other, Without-append c s t w v)

pub past_name : (c : ℕ) (name rest : List ℕ) → drop (length name + 1) (name ++ c ∷ rest) ≡ rest
past_name c [] rest = refl
past_name c (x ∷ name) rest =
    let e : suc (length name) + 1 ≡ suc (length name + 1) = omega arith in
    rw e (past_name c name rest)

pub past_pair :
    (c : ℕ) (name value t : List ℕ)
    → drop (length name + 1 + length value) (name ++ c ∷ (value ++ t)) ≡ t
past_pair c name value t =
    sym (drop-drop (length name + 1) (length value) (name ++ c ∷ (value ++ t)))
    ∙ ap (drop (length value)) (past_name c name (value ++ t))
    ∙ drop-append_all value t

pub value_of :
    (c : ℕ) (name value t : List ℕ) (delim_pos : ℕ)
    → delim_pos ≡ length name + 1 + length value
    → delim_pos < 2 ^ 64
    → substr (name ++ c ∷ (value ++ t)) (length name + 1) (sub64 delim_pos (length name + 1))
      ≡ value
value_of c name value t delim_pos e h =
    let n : sub64 delim_pos (length name + 1) ≡ length value = omega arith in
    rw (n, past_name c name (value ++ t)) (take-append_all value t)

pub length-pair :
    (c : ℕ) (name value t : List ℕ)
    → length (name ++ c ∷ (value ++ t)) ≡ length name + 1 + length value + length t
length-pair c name value t =
    omega (arith, length-append name (c ∷ (value ++ t)), length-append value t)
