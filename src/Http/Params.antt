-- ===== src/Http/Params.antt =====
-- What a string of parameters is read as.
use gamnet.Prelude.{
  ℕ, zero, suc, ◌+◌, ◌^◌, ◌<◌, ◌≡◌, refl, sym, ap, ◌∙◌, inl, inr, arith, leb, if◌then◌else◌,
  Bool-cases, Option-cases, Bool, true, false, List, [], ◌∷◌, ◌++◌, append_assoc, Option, none,
  some, length, take, drop, sub64, length-append, length-drop, take-append_all, drop-drop,
}
use gamnet.RouterCaster.{at_name}
use gamnet.MsgRouter.{string_eq}
use gamnet.MsgRouter.Order.{string_eq_iff}
use gamnet.Http.Strings.{
  Without, find_char-past, find_char-Without, Without-append, past_pair, value_of, length-pair,
}
use gamnet.Http.{or_else, find_char, substr, Params, insert_param, delimiter, parse, request}

-- Every string is read to an end.
parse_total :
    (fuel : ℕ) (param : List ℕ) (m : Params)
    → length param < fuel
    → (m' : Params) × (parse fuel param m ≡ some m')
unfolding parse
parse_total zero param m h = absurd (omega arith)
parse_total (suc fuel) param m h = elim (Option-cases (find_char param 61)) [
  | inl nothing ↦ (m, rw (parse, nothing) refl)
  | inr (equal_pos, found) ↦
      let delim_pos = delimiter param (find_char param 38) in
      let m' =
        insert_param m (take equal_pos param)
          (substr param (equal_pos + 1) (sub64 delim_pos (equal_pos + 1))) in
      elim (Bool-cases (leb (length param) delim_pos)) [
        | inl last ↦ (m', rw (parse, found, last) refl)
        | inr more ↦
            let k : delim_pos < length param = ground (arith, more) in
            let shorter : length (drop (delim_pos + 1) param) < fuel =
              omega (arith, length-drop (delim_pos + 1) param) in
            let (m'', e) = parse_total fuel (drop (delim_pos + 1) param) m' shorter in
            (m'', rw (parse, found, more) e)
      ]
]

-- Reading a string of parameters ends.
pub request_total : (param_string : List ℕ) → (m : Params) × (request param_string ≡ some m)
unfolding request
request_total param_string = parse_total (suc (length param_string)) param_string [] (omega arith)

-- The pairs as a browser puts them in a query: a name with no '=' and no '&', and a value with no
-- '&'.
joined : Params → List ℕ
joined [] = []
joined ((name, value) ∷ more) = 38 ∷ (name ++ 61 ∷ (value ++ joined more))

unfoldable pub printed : Params → List ℕ
unfolding joined
printed [] = []
printed ((name, value) ∷ more) = name ++ 61 ∷ (value ++ joined more)

abbrev pub Fits : Params → Type 0
Fits [] = Unit {0}
Fits ((name, value) ∷ more) = Without 61 name × Without 38 name × Without 38 value × Fits more

inserted : Params → Params → Params
inserted m [] = m
inserted m ((name, value) ∷ l) = inserted (insert_param m name value) l

-- One round on a pair and what stands behind it.
round :
    (fuel : ℕ) (name value t : List ℕ) (m : Params)
    → Without 61 name
    → (delim_pos : ℕ)
    → delimiter (name ++ 61 ∷ (value ++ t)) (find_char (name ++ 61 ∷ (value ++ t)) 38) ≡ delim_pos
    → delim_pos ≡ length name + 1 + length value
    → delim_pos < 2 ^ 64
    → parse (suc fuel) (name ++ 61 ∷ (value ++ t)) m ≡ (
        if leb (length t) 0
        then some (insert_param m name value)
        else parse fuel (drop 1 t) (insert_param m name value))
unfolding parse
round fuel name value t m w delim_pos d e h =
    let param = name ++ 61 ∷ (value ++ t) in
    let last : leb (length param) delim_pos ≡ leb (length t) 0 =
      ground (arith, length-pair 61 name value t) in
    let rest : drop (delim_pos + 1) param ≡ drop 1 t =
      ap (λ n. drop (n + 1) param) e
      ∙ sym (drop-drop (length name + 1 + length value) 1 param)
      ∙ ap (drop 1) (past_pair 61 name value t) in
    rw
      (
        parse,
        find_char-past 61 name (value ++ t) w,
        d,
        last,
        rest,
        take-append_all name (61 ∷ (value ++ t)),
        value_of 61 name value t delim_pos e h,
      )
      refl

parse-printed :
    (l : Params) (fuel : ℕ) (m : Params)
    → length (printed l) < fuel
    → length (printed l) < 2 ^ 64
    → Fits l
    → parse fuel (printed l) m ≡ some (inserted m l)
unfolding printed joined inserted parse
parse-printed l zero m h k f = absurd (omega arith)
parse-printed [] (suc fuel) m h k f = refl
parse-printed ((name, value) ∷ []) (suc fuel) m h k (w, v, u, f) =
    let param = name ++ 61 ∷ (value ++ []) in
    let none_left : find_char param 38 ≡ none =
      find_char-Without 38 param
        (Without-append 38 name (61 ∷ (value ++ [])) v (refl, Without-append 38 value [] u tt)) in
    round fuel name value [] m w (length param) (ap (delimiter param) none_left)
      (omega (arith, length-pair 61 name value [])) k
parse-printed ((name, value) ∷ (q ∷ more)) (suc fuel) m h k (w, v, u, f) =
    let rest = printed (q ∷ more) in
    let param = name ++ 61 ∷ (value ++ 38 ∷ rest) in
    let more_left : leb (length (38 ∷ rest)) 0 ≡ false = ground arith in
    let found : find_char param 38 ≡ some (length (name ++ 61 ∷ value)) =
      ap (λ s. find_char s 38) (sym (append_assoc name (61 ∷ value) (38 ∷ rest)))
      ∙ find_char-past 38 (name ++ 61 ∷ value) rest
          (Without-append 38 name (61 ∷ value) v (refl, u)) in
    round fuel name value (38 ∷ rest) m w (length (name ++ 61 ∷ value)) (ap (delimiter param) found)
      (omega (arith, length-append name (61 ∷ value)))
      (omega (arith, length-append name (61 ∷ value), length-pair 61 name value (38 ∷ rest)))
    ∙ rw more_left (
        parse-printed (q ∷ more) fuel (insert_param m name value)
          (omega (arith, length-pair 61 name value (38 ∷ rest)))
          (omega (arith, length-pair 61 name value (38 ∷ rest))) f)

or_else-none : {A : Type 0} (o : Option A) → o ≡ or_else o none
or_else-none none = refl
or_else-none (some a) = refl

or_else_if :
    {A : Type 0} (o : Option A) (b : Bool) (v w : Option A)
    → or_else (or_else o (if b then v else none)) w ≡ or_else o (if b then or_else v w else w)
or_else_if none true v w = refl
or_else_if none false v w = refl
or_else_if (some a) b v w = refl

insert_lem :
    (m : Params) (name value x : List ℕ)
    → at_name (insert_param m name value) x
      ≡ or_else (at_name m x) (if string_eq name x then some value else none)
insert_lem m name value x = elim (Option-cases (at_name m name)) [
  | inl free ↦ elim (Bool-cases (string_eq name x)) [
    | inl same ↦
        let e : at_name m x ≡ none = ap (at_name m) (sym ((string_eq_iff name x).0 same)) ∙ free in
        rw (insert_param, free, same, e) refl
    | inr other ↦ rw (insert_param, free, other) (or_else-none (at_name m x))
  ]
  | inr (w, taken) ↦ elim (Bool-cases (string_eq name x)) [
    | inl same ↦
        let e : at_name m x ≡ some w =
          ap (at_name m) (sym ((string_eq_iff name x).0 same)) ∙ taken in
        rw (insert_param, taken, e) refl
    | inr other ↦ rw (insert_param, taken, other) (or_else-none (at_name m x))
  ]
]

inserted_lem :
    (l m : Params) (x : List ℕ) → at_name (inserted m l) x ≡ or_else (at_name m x) (at_name l x)
unfolding inserted
inserted_lem [] m x = or_else-none (at_name m x)
inserted_lem ((name, value) ∷ l) m x =
    inserted_lem l (insert_param m name value) x
    ∙ rw (insert_lem m name value x)
        (or_else_if (at_name m x) (string_eq name x) (some value) (at_name l x))

-- A string of pairs is read back: each name has the value of its first pair, and a name of no pair
-- has none.
pub request-printed :
    (l : Params)
    → Fits l
    → length (printed l) < 2 ^ 64
    → (m : Params) × (request (printed l) ≡ some m)
      × ((name : List ℕ) → at_name m name ≡ at_name l name)
unfolding request
request-printed l f k = (
  inserted [] l,
  parse-printed l (suc (length (printed l))) [] (omega arith) k f,
  inserted_lem l [],
)
