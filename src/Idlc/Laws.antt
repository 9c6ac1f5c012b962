-- ===== src/Idlc/Laws.antt =====
-- What a generated `Load` makes of the bytes that `Store` wrote, type by type.
use gamnet.Prelude.{
  ℕ, ◌*◌, ◌^◌, ◌≤◌, ◌<◌, ◌≡◌, refl, sym, ap, ◌∙◌, arith, Bool, true, false, ◌&&◌, List, [], ◌∷◌,
  ◌++◌, length, length-append, append-nil, append_assoc, le→not-ltb, take-append_all,
  drop-append_all, add64, le_bytes, length-le_bytes, of_le-le_bytes,
}
use gamnet.Idlc.{
  IsMember, prim_size, Token, primitive, string, user_define, map, list, array, static_array,
  is_primitive, Read, done, ◌>>=◌, Both, Codec, Env, Val, Orders, store_each, size_each, store,
  size, declared, less, map_insert, push_back, read_bytes, read_int, load_each, copied, load,
}

abbrev pub All : {A : Type 0} → (A → Type 0) → List A → Type 0
All P [] = Unit {0}
All P (x ∷ xs) = P x × All P xs

-- Elements added one by one
abbrev pub added : {A B : Type 0} → (B → A → B) → B → List A → B
added add b [] = b
added add b (x ∷ xs) = added add (add b x) xs

module _ {A B : Type 0} where
  -- A key is greater than those of all these entries.
  abbrev IsAbove : (A → A → Bool) → List (Both A B) → A → Type 0
  IsAbove lt [] k = Unit {0}
  IsAbove lt (x ∷ m) k = (lt x.first k ≡ true) × (lt k x.first ≡ false) × IsAbove lt m k

  -- The keys grow, from those of these entries on.
  abbrev IsGrowing : (A → A → Bool) → List (Both A B) → List (Both A B) → Type 0
  IsGrowing lt seen [] = Unit {0}
  IsGrowing lt seen (x ∷ m) = IsAbove lt seen x.first × IsGrowing lt (seen ++ (x ∷ [])) m

-- What a serializer promises: which objects it can send, and what `Load` makes of the variable that
-- it is given.
pub record IsSound (c : Codec) : Type 1 where
  pub Fits : c.Obj → Type 0
  pub merge : c.Obj → c.Obj → c.Obj
  pub load-store :
      (junk : ℕ) (old v : c.Obj) (rest : List ℕ)
      → Fits v
      → c.load junk old (c.store v ++ rest) ≡ done (merge old v) rest
  pub merge-blank : (junk : ℕ) (v : c.Obj) → Fits v → merge (c.blank junk) v ≡ v
  pub sized : (v : c.Obj) → length (c.store v) < 2 ^ 31 → c.size v ≡ length (c.store v)

pub read_bytes-append :
    (xs rest : List ℕ) (n : ℕ) → n ≡ length xs → read_bytes n (xs ++ rest) ≡ done xs rest
unfolding read_bytes
read_bytes-append xs rest n e = rw (
  e,
  le→not-ltb (length (xs ++ rest)) (length xs) (omega (arith, length-append xs rest)),
  take-append_all xs rest,
  drop-append_all xs rest,
)

pub read_int-le_bytes :
    (n v : ℕ) (rest : List ℕ) → v < 256 ^ n → read_int n (le_bytes n v ++ rest) ≡ done v rest
unfolding read_int
read_int-le_bytes n v rest h =
    rw (read_bytes-append (le_bytes n v) rest n (sym (length-le_bytes n v)), of_le-le_bytes n v h)

pub read_count :
    (n : ℕ) (body rest : List ℕ)
    → n < 2 ^ 32
    → read_int 4 ((le_bytes 4 n ++ body) ++ rest) ≡ done n (body ++ rest)
read_count n body rest h =
    ap (read_int 4) (append_assoc (le_bytes 4 n) body rest)
    ∙ read_int-le_bytes 4 n (body ++ rest) (omega arith)

pub load_each-store_each :
    {A B : Type 0} (put : A → List ℕ) (get : List ℕ → Read A) (add : B → A → B) (P : A → Type 0)
    → ((a : A) (rest : List ℕ) → P a → get (put a ++ rest) ≡ done a rest)
    → (xs : List A) (into : B) (rest : List ℕ) → All P xs
    → load_each (length xs) get add into (store_each put xs ++ rest) ≡ done (added add into xs) rest
unfolding load_each store_each
load_each-store_each put get add P good [] into rest h = refl
load_each-store_each put get add P good (x ∷ xs) into rest (h, more) =
    rw (append_assoc (put x) (store_each put xs) rest, good x (store_each put xs ++ rest) h)
      (load_each-store_each put get add P good xs (add into x) rest more)

pub added-push_back : {A : Type 0} (xs into : List A) → added push_back into xs ≡ into ++ xs
unfolding push_back
added-push_back [] into = sym (append-nil into)
added-push_back (x ∷ xs) into =
    added-push_back xs (into ++ (x ∷ [])) ∙ append_assoc into (x ∷ []) xs

map_insert_last :
    {A B : Type 0} (lt : A → A → Bool) (m : List (Both A B)) (x : Both A B)
    → IsAbove lt m x.first
    → map_insert lt m x ≡ m ++ (x ∷ [])
unfolding map_insert
map_insert_last lt [] x h = refl
map_insert_last lt (y ∷ m) x (a, b, h) = rw (b, a, map_insert_last lt m x h)

added-map_insert :
    {A B : Type 0} (lt : A → A → Bool) (m seen : List (Both A B))
    → IsGrowing lt seen m
    → added (map_insert lt) seen m ≡ seen ++ m
added-map_insert lt [] seen h = sym (append-nil seen)
added-map_insert lt (x ∷ m) seen (h, more) =
    ap (λ s. added (map_insert lt) s m) (map_insert_last lt seen x h)
    ∙ added-map_insert lt m (seen ++ (x ∷ [])) more
    ∙ append_assoc seen (x ∷ []) m

size_each_lem :
    {A : Type 0} (count : A → ℕ) (put : A → List ℕ)
    → ((a : A) → length (put a) < 2 ^ 31 → count a ≡ length (put a))
    → (xs : List A) → length (store_each put xs) < 2 ^ 31
    → size_each count xs ≡ length (store_each put xs)
unfolding size_each store_each
size_each_lem count put good [] h = refl
size_each_lem count put good (x ∷ xs) h =
    let e = length-append (put x) (store_each put xs) in
    omega (arith, e, good x (omega (arith, e)), size_each_lem count put good xs (omega (arith, e)))

module _ (by : Orders) (env : Env) (sound : (name : List ℕ) → IsSound (env name)) where
  -- The values that can be sent: integers in the range of their type, fewer than 2 ^ 32 bytes or
  -- elements, the keys of a map in order, and as many elements as a static array has.
  abbrev pub Fits : (t : Token) → Val env t → Type 0
  Fits (primitive p) v = v < 256 ^ prim_size p
  Fits string v = length v < 2 ^ 32
  Fits (user_define name) v = (sound name).Fits v
  Fits (map k e) v =
      (length v < 2 ^ 32)
      × All (λ entry. Fits k entry.first × Fits e entry.second) v
      × IsGrowing (less by env k) [] v
  Fits (list t) v = (length v < 2 ^ 32) × All (Fits t) v
  Fits (array t) v = (length v < 2 ^ 32) × All (Fits t) v
  Fits (static_array t count) v = (length v ≡ count) × All (Fits t) v

  -- What a variable has after a value was loaded into it: containers keep what they had.
  abbrev pub merge : (t : Token) → Val env t → Val env t → Val env t
  merge (primitive p) old v = v
  merge string old v = v
  merge (user_define name) old v = (sound name).merge old v
  merge (map k e) old v = added (map_insert (less by env k)) old v
  merge (list t) old v = old ++ v
  merge (array t) old v = old ++ v
  merge (static_array t count) old v = v

  pub merge-declared :
      (junk : ℕ) (t : Token) (v : Val env t) → Fits t v → merge t (declared env junk t) v ≡ v
  unfolding declared
  merge-declared junk (primitive p) v h = refl
  merge-declared junk string v h = refl
  merge-declared junk (user_define name) v h = (sound name).merge-blank junk v h
  merge-declared junk (map k e) v (n, all, grow) = added-map_insert (less by env k) v [] grow
  merge-declared junk (list t) v h = refl
  merge-declared junk (array t) v h = refl
  merge-declared junk (static_array t count) v h = refl

  copied_le :
      (t : Token) (v : List (Val env t)) → copied t * length v ≤ length (store_each (store env t) v)
  unfolding copied store_each store
  copied_le (primitive p) [] = omega arith
  copied_le (primitive p) (x ∷ v) = grind (
    arith,
    length-append (le_bytes (prim_size p) x) (store_each (store env (primitive p)) v),
    length-le_bytes (prim_size p) x,
    copied_le (primitive p) v,
  )
  copied_le string v = omega arith
  copied_le (user_define name) v = omega arith
  copied_le (map k e) v = omega arith
  copied_le (list t) v = omega arith
  copied_le (array t) v = omega arith
  copied_le (static_array t count) v = omega arith

  and_false : (b : Bool) → (b && false) ≡ false
  and_false true = refl
  and_false false = refl

  -- The elements of a container, given that one element is loaded.
  load_elements :
      (junk : ℕ) (t : Token)
      → ((old v : Val env t) (rest : List ℕ)
          → Fits t v
          → load by env junk t old (store env t v ++ rest) ≡ done (merge t old v) rest)
      → (v into : List (Val env t)) (rest : List ℕ) → All (Fits t) v
      → load_each
          (length v)
          (load by env junk t (declared env junk t))
          push_back
          into
          (store_each (store env t) v ++ rest)
        ≡ done (into ++ v) rest
  load_elements junk t one v into rest all =
      load_each-store_each (store env t) (load by env junk t (declared env junk t)) push_back
        (Fits t)
        (λ a r h. one (declared env junk t) a r h ∙ ap (λ w. done w r) (merge-declared junk t a h))
        v into rest all
      ∙ ap (λ l. done l rest) (added-push_back v into)

  -- What `Load` makes of a variable, with what it held before
  pub load-store :
      (junk : ℕ) (t : Token) (old v : Val env t) (rest : List ℕ)
      → Fits t v
      → load by env junk t old (store env t v ++ rest) ≡ done (merge t old v) rest
  unfolding load store
  load-store junk (primitive p) old v rest h = read_int-le_bytes (prim_size p) v rest h
  load-store junk string old v rest h =
      rw (read_count (length v) v rest h) (read_bytes-append v rest (length v) refl)
  load-store junk (user_define name) old v rest h = (sound name).load-store junk old v rest h
  load-store junk (map k e) old v rest (n, all, grow) =
      rw
        (read_count (length v)
          (store_each (λ entry. store env k entry.first ++ store env e entry.second) v) rest n)
        (load_each-store_each (λ entry. store env k entry.first ++ store env e entry.second)
          (λ b. load by env junk k (declared env junk k) b >>= λ key b'.
            load by env junk e (declared env junk e) b' >>= λ elmt b''.
            done (record { first = key; second = elmt }) b'')
          (map_insert (less by env k)) (λ entry. Fits k entry.first × Fits e entry.second)
          (λ entry r h.
            rw
              (
                append_assoc (store env k entry.first) (store env e entry.second) r,
                load-store junk k (declared env junk k) entry.first (store env e entry.second ++ r)
                    h.0,
                load-store junk e (declared env junk e) entry.second r h.1,
                merge-declared junk k entry.first h.0,
                merge-declared junk e entry.second h.1,
              )
              refl)
          v old rest all)
  load-store junk (list t) old v rest (n, all) =
      rw (read_count (length v) (store_each (store env t) v) rest n)
        (load_elements junk t (load-store junk t) v old rest all)
  load-store junk (array t) old v rest (n, all) =
      rw (read_count (length v) (store_each (store env t) v) rest n)
        (load_elements junk t (load-store junk t) v old rest all)
  load-store junk (static_array t count) old v rest (n, all) =
      let room : copied t * count ≤ length (store_each (store env t) v ++ rest) =
        rw (← n) (omega (arith, copied_le t v, length-append (store_each (store env t) v) rest)) in
      rw
        (
          le→not-ltb (length (store_each (store env t) v ++ rest)) (copied t * count) room,
          and_false (is_primitive t),
          ← n,
        )
        (load_elements junk t (load-store junk t) v [] rest all)

  -- A value of a type that C++ accepts, in the range of the type, is stored and loaded, whatever follows
  -- it, into a variable that has just been declared, as it was: given that the structs that the type
  -- names keep their promises.
  pub load_declared-store :
      (junk : ℕ) (t : Token) (v : Val env t) (rest : List ℕ)
      → IsMember t
      → Fits t v
      → load by env junk t (declared env junk t) (store env t v ++ rest) ≡ done v rest
  load_declared-store junk t v rest accepted h =
      load-store junk t (declared env junk t) v rest h
      ∙ ap (λ w. done w rest) (merge-declared junk t v h)

  -- `Size` counts the bytes that `Store` writes.
  pub size-store :
      (t : Token) (v : Val env t)
      → length (store env t v) < 2 ^ 31
      → size env t v ≡ length (store env t v)
  unfolding size store
  size-store (primitive p) v h = sym (length-le_bytes (prim_size p) v)
  size-store string v h = omega arith
  size-store (user_define name) v h = (sound name).sized v h
  size-store (map k e) v h =
      let put = λ (entry : Both (Val env k) (Val env e)).
        store env k entry.first ++ store env e entry.second in
      omega (
        arith,
        size_each_lem (λ entry. add64 (size env k entry.first) (size env e entry.second)) put
            (λ entry g.
              let l = length-append (store env k entry.first) (store env e entry.second) in
              omega (
                arith,
                l,
                size-store k entry.first (omega (arith, l)),
                size-store e entry.second (omega (arith, l)),
              ))
            v (omega arith),
      )
  size-store (list t) v h =
      omega (arith, size_each_lem (size env t) (store env t) (size-store t) v (omega arith))
  size-store (array t) v h =
      omega (arith, size_each_lem (size env t) (store env t) (size-store t) v (omega arith))
  size-store (static_array t count) v h =
      size_each_lem (size env t) (store env t) (size-store t) v h
