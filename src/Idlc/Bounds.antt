-- ===== src/Idlc/Bounds.antt =====
-- What a generated `Load` makes of bytes that are cut off.
use gamnet.Prelude.{
  ℕ, zero, suc, ◌+◌, ◌-◌, ◌^◌, ◌<◌, ◌≡◌, refl, sym, ap, ◌∙◌, arith, ltb, lt→ltb, ltb→lt, not-ltb→le,
  Bool-cases, inl, inr, List, [], ◌∷◌, ◌++◌, length, take, take-append, length-append, append_assoc,
  length-take, le_bytes, length-le_bytes,
}
use gamnet.Idlc.{
  IsDynamic, Token, primitive, string, user_define, map, list, array, static_array, prim_size, Read,
  refused, done, ◌>>=◌, Env, Val, Orders, store_each, store, declared, less, map_insert, push_back,
  read_bytes, read_int, load_each, load,
}
use gamnet.Idlc.Laws.{All, IsSound, Fits, read_int-le_bytes, load-store, merge-declared}

-- No proper beginning of the bytes is taken for the whole: it is refused.
abbrev pub Cuts : {A : Type 0} → (List ℕ → Read A) → List ℕ → Type 0
Cuts get bytes = (n : ℕ) → n < length bytes → get (take n bytes) ≡ refused

take_past : (xs ys : List ℕ) (n k : ℕ) → n ≡ length xs + k → take n (xs ++ ys) ≡ xs ++ take k ys
take_past [] ys n k h = ap (λ m. take m ys) (omega arith)
take_past (x ∷ xs) ys zero k h = absurd (omega arith)
take_past (x ∷ xs) ys (suc n) k h = ap (◌∷◌ x) (take_past xs ys n k (omega arith))

bind-Cuts :
    {A B : Type 0} (get : List ℕ → Read A) (f : A → List ℕ → Read B) (xs ys : List ℕ) (a : A)
    → Cuts get xs
    → ((rest : List ℕ) → get (xs ++ rest) ≡ done a rest)
    → Cuts (f a) ys
    → Cuts (λ bs. get bs >>= f) (xs ++ ys)
bind-Cuts get f xs ys a cut whole next n h = elim (Bool-cases (ltb n (length xs))) [
  | inl short ↦
      let k = ltb→lt n (length xs) short in rw (take-append n xs ys (omega arith), cut n k) refl
  | inr past ↦
      let k = not-ltb→le n (length xs) past in
      rw (take_past xs ys n (n - length xs) (omega arith), whole (take (n - length xs) ys))
        (next (n - length xs) (omega (arith, length-append xs ys)))
]

read_bytes-Cuts : (xs : List ℕ) → Cuts (read_bytes (length xs)) xs
unfolding read_bytes
read_bytes-Cuts xs n h =
    rw (lt→ltb (length (take n xs)) (length xs) (omega (arith, length-take n xs))) refl

pub read_int-Cuts : (n v : ℕ) → Cuts (read_int n) (le_bytes n v)
unfolding read_int
read_int-Cuts n v k h =
    let e = read_bytes-Cuts (le_bytes n v) k h in
    rw (ap (λ m. read_bytes m (take k (le_bytes n v))) (sym (length-le_bytes n v)) ∙ e) refl

load_each-Cuts :
    {A B : Type 0} (put : A → List ℕ) (get : List ℕ → Read A) (add : B → A → B) (P : A → Type 0)
    → ((a : A) → P a → Cuts get (put a))
    → ((a : A) (rest : List ℕ) → P a → get (put a ++ rest) ≡ done a rest)
    → (xs : List A) (into : B) → All P xs
    → Cuts (load_each (length xs) get add into) (store_each put xs)
unfolding load_each store_each
load_each-Cuts put get add P cut good [] into h = λ n k. absurd (omega arith)
load_each-Cuts put get add P cut good (x ∷ xs) into (h, more) =
    bind-Cuts get (λ a rest. load_each (length xs) get add (add into a) rest) (put x)
      (store_each put xs) x (cut x h) (λ rest. good x rest h)
      (load_each-Cuts put get add P cut good xs (add into x) more)

module _ (by : Orders) (env : Env) (sound : (name : List ℕ) → IsSound (env name))
    (structs : (name : List ℕ) (junk : ℕ) (old v : (env name).Obj)
      → (sound name).Fits v
      → Cuts ((env name).load junk old) ((env name).store v)) where
  loaded :
      (junk : ℕ) (t : Token) (v : Val env t) (rest : List ℕ)
      → Fits by env sound t v
      → load by env junk t (declared env junk t) (store env t v ++ rest) ≡ done v rest
  loaded junk t v rest h =
      load-store by env sound junk t (declared env junk t) v rest h
      ∙ ap (λ w. done w rest) (merge-declared by env sound junk t v h)

  counted-Cuts :
      {A : Type 0} (n : ℕ) (f : ℕ → List ℕ → Read A) (body : List ℕ)
      → n < 2 ^ 32
      → Cuts (f n) body
      → Cuts (λ bs. read_int 4 bs >>= f) (le_bytes 4 n ++ body)
  counted-Cuts n f body h cut =
      bind-Cuts (read_int 4) f (le_bytes 4 n) body n (read_int-Cuts 4 n)
        (λ rest. read_int-le_bytes 4 n rest (omega arith)) cut

  load-Cuts :
      (junk : ℕ) (t : Token) (old v : Val env t)
      → IsDynamic t
      → Fits by env sound t v
      → Cuts (load by env junk t old) (store env t v)
  unfolding load store
  load-Cuts junk (primitive p) old v d h = read_int-Cuts (prim_size p) v
  load-Cuts junk string old v d h =
      counted-Cuts (length v) (λ n rest. read_bytes n rest) v h (read_bytes-Cuts v)
  load-Cuts junk (user_define name) old v d h = structs name junk old v h
  load-Cuts junk (map k e) old v (dk, de) (n, all, grow) = counted-Cuts (length v) _ _ n (
      load_each-Cuts (λ entry. store env k entry.first ++ store env e entry.second)
        (λ b. load by env junk k (declared env junk k) b >>= λ key b'.
          load by env junk e (declared env junk e) b' >>= λ elmt b''.
          done (record { first = key; second = elmt }) b'')
        (map_insert (less by env k))
        (λ entry. Fits by env sound k entry.first × Fits by env sound e entry.second)
        (λ entry h.
          bind-Cuts (load by env junk k (declared env junk k)) _ (store env k entry.first)
            (store env e entry.second) entry.first
            (load-Cuts junk k (declared env junk k) entry.first dk h.0)
            (λ rest. loaded junk k entry.first rest h.0)
            (λ m short.
              rw (load-Cuts junk e (declared env junk e) entry.second de h.1 m short) refl))
        (λ entry rest h.
          rw
            (
              append_assoc (store env k entry.first) (store env e entry.second) rest,
              loaded junk k entry.first (store env e entry.second ++ rest) h.0,
              loaded junk e entry.second rest h.1,
            )
            refl)
        v old all)
  load-Cuts junk (list t) old v d (n, all) = counted-Cuts (length v) _ _ n (
      load_each-Cuts (store env t) (load by env junk t (declared env junk t)) push_back
        (Fits by env sound t) (λ a h. load-Cuts junk t (declared env junk t) a d h)
        (λ a rest h. loaded junk t a rest h) v old all)
  load-Cuts junk (array t) old v d (n, all) = counted-Cuts (length v) _ _ n (
      load_each-Cuts (store env t) (load by env junk t (declared env junk t)) push_back
        (Fits by env sound t) (λ a h. load-Cuts junk t (declared env junk t) a d h)
        (λ a rest h. loaded junk t a rest h) v old all)
  load-Cuts junk (static_array t count) old v d h = absurd d

  -- `Load` of a type without static arrays refuses every proper beginning of what `Store` wrote for a
  -- value in the range of the type, whatever the variable held, and reads no byte behind it: given
  -- that this holds of the structs that the type names, which keep their promises.
  pub load_cut :
      (junk : ℕ) (t : Token) (old v : Val env t) (n : ℕ)
      → IsDynamic t
      → Fits by env sound t v
      → n < length (store env t v)
      → load by env junk t old (take n (store env t v)) ≡ refused
  load_cut junk t old v n d h short = load-Cuts junk t old v d h n short
