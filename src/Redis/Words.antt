-- ===== src/Redis/Words.antt =====
-- The words of a read.
use gamnet.Prelude.{
  ℕ, ◌≡◌, ◌≢◌, refl, Bool-cases, inl, inr, sym, ap, ◌∙◌, arith, ◌==◌, true, false, List, [], ◌∷◌,
  ◌++◌, append_assoc, append-nil, ok, length,
}
use gamnet.Redis.{is_space, flush, words, add_words, is_mark, ends_line, read_tokens}

-- A word: bytes without whitespace, one at least.
abbrev pub NoSpace : List ℕ → Type 0
NoSpace [] = Unit {0}
NoSpace (c ∷ s) = (is_space c ≡ false) × NoSpace s

abbrev pub AreWords : List (List ℕ) → Type 0
AreWords [] = Unit {0}
AreWords (t ∷ tokens) = (t ≢ []) × NoSpace t × AreWords tokens

-- Each word on a line of its own.
abbrev pub lines : List (List ℕ) → List ℕ
lines [] = []
lines (t ∷ tokens) = t ++ 13 ∷ (10 ∷ lines tokens)

words-line :
    (word t rest : List ℕ)
    → NoSpace t
    → words word (t ++ 13 ∷ (10 ∷ rest)) ≡ flush (word ++ t) ++ words [] rest
words-line word [] rest h = ap (λ w. flush w ++ words [] rest) (sym (append-nil word))
words-line word (c ∷ t) rest (c_inside, h) = rw c_inside (
    words-line (word ++ (c ∷ [])) t rest h
    ∙ ap (λ w. flush w ++ words [] rest) (append_assoc word (c ∷ []) t))

words-lines : (tokens : List (List ℕ)) → AreWords tokens → words [] (lines tokens) ≡ tokens
words-lines [] h = refl
words-lines ([] ∷ tokens) (some_byte, w, h) = absurd (some_byte refl)
words-lines ((c ∷ t) ∷ tokens) (some_byte, w, h) =
    words-line [] (c ∷ t) (lines tokens) w ∙ ap (◌∷◌ (c ∷ t)) (words-lines tokens h)

add_words-nil : (tokens more : List (List ℕ)) → add_words tokens [] more ≡ tokens ++ more
unfolding add_words
add_words-nil tokens [] = sym (append-nil tokens)
add_words-nil tokens (word ∷ more) =
    let next = add_words-nil (tokens ++ (word ∷ [])) more ∙ append_assoc tokens (word ∷ []) more in
    elim (Bool-cases (is_mark word)) [ inl mark ↦ rw mark next | inr other ↦ rw other next ]

ends_line-append :
    (s : List ℕ) (x : ℕ) (rest : List ℕ) → ends_line (s ++ x ∷ rest) ≡ ends_line (x ∷ rest)
ends_line-append [] x rest = refl
ends_line-append (c ∷ []) x rest = refl
ends_line-append (c ∷ d ∷ s) x rest = ends_line-append (d ∷ s) x rest

ends_line-lines : (t : List ℕ) (tokens : List (List ℕ)) → ends_line (lines (t ∷ tokens)) ≡ true
ends_line-lines t [] = ends_line-append t 13 (10 ∷ [])
ends_line-lines t (u ∷ tokens) =
    ends_line-append t 13 (10 ∷ lines (u ∷ tokens))
    ∙ ends_line-append (10 ∷ u) 13 (10 ∷ lines tokens)
    ∙ sym (ends_line-append u 13 (10 ∷ lines tokens))
    ∙ ends_line-lines u tokens

-- A read that is a number of whole lines gives one word for each line, and ends the reply.
pub read_tokens-lines :
    (t : List ℕ) (tokens : List (List ℕ)) (reads : List (List ℕ))
    → AreWords (t ∷ tokens)
    → read_tokens (lines (t ∷ tokens) ∷ reads) [] [] ≡ ok (t ∷ tokens)
unfolding read_tokens
read_tokens-lines t tokens reads h =
    let e : add_words [] [] (words [] (lines (t ∷ tokens))) ≡ t ∷ tokens =
      add_words-nil [] (words [] (lines (t ∷ tokens))) ∙ words-lines (t ∷ tokens) h in
    let some_token : (length (t ∷ tokens) == 0) ≡ false = ground arith in
    rw (e, some_token, ends_line-lines t tokens) refl

words-space :
    (word t : List ℕ) (c : ℕ) (rest : List ℕ)
    → is_space c ≡ true
    → NoSpace t
    → words word (t ++ c ∷ rest) ≡ flush (word ++ t) ++ words [] rest
words-space word [] c rest s h = rw s (ap (λ w. flush w ++ words [] rest) (sym (append-nil word)))
words-space word (d ∷ t) c rest s (d_inside, h) = rw d_inside (
    words-space (word ++ (d ∷ [])) t c rest s h
    ∙ ap (λ w. flush w ++ words [] rest) (append_assoc word (d ∷ []) t))

-- A line of two words, which are tokens of their own.
pub read_tokens_spaced :
    (a b : ℕ) (s t : List ℕ) (reads : List (List ℕ))
    → NoSpace (a ∷ s)
    → NoSpace (b ∷ t)
    → read_tokens (((a ∷ s) ++ 32 ∷ lines ((b ∷ t) ∷ [])) ∷ reads) [] []
      ≡ ok ((a ∷ s) ∷ (b ∷ t) ∷ [])
unfolding read_tokens
read_tokens_spaced a b s t reads v w =
    let e : add_words [] [] (words [] ((a ∷ s) ++ 32 ∷ lines ((b ∷ t) ∷ [])))
        ≡ (a ∷ s) ∷ (b ∷ t) ∷ [] =
      add_words-nil [] (words [] ((a ∷ s) ++ 32 ∷ lines ((b ∷ t) ∷ [])))
      ∙ words-space [] (a ∷ s) 32 (lines ((b ∷ t) ∷ [])) refl v
      ∙ ap (◌∷◌ (a ∷ s)) (words-lines ((b ∷ t) ∷ []) ((λ q. absurd cc), w, tt)) in
    let ends : ends_line ((a ∷ s) ++ 32 ∷ lines ((b ∷ t) ∷ [])) ≡ true =
      ends_line-append (a ∷ s) 32 (lines ((b ∷ t) ∷ []))
      ∙ ends_line-append (32 ∷ (b ∷ t)) 13 (10 ∷ []) in
    rw (e, ends) refl
