-- ===== src/Idlc/Csharp/Interop.antt =====
-- A C++ program and a C# program that are generated from one file understand each other.
use gamnet.Prelude.{
  ℕ, ◌^◌, ◌<◌, ◌≡◌, refl, sym, ap, ◌∙◌, arith, not-leb_of_lt, Bool, false, List, [], ◌∷◌, ◌++◌,
  length, append-nil, append_assoc, le_bytes,
}
use gamnet.Idlc.{
  Primitive, prim_size, Token, primitive, string, user_define, map, list, array, static_array, Read,
  done, ◌>>=◌, Both, Codec, Env, Val, Orders, store_each, push_back, read_bytes, read_int,
  load_each,
}
use gamnet.Idlc
use gamnet.Idlc.Laws.{
  All, added, read_bytes-append, read_int-le_bytes, read_count, load_each-store_each,
  added-push_back,
}
use gamnet.Idlc.Messages.{
  Member, var_decl, Elmt, Stmt, literal_block, typedef, message, enum, Members, base, bound,
  compile_message, compile_enum, compile_typedef, compile_stmt, parse,
}
use gamnet.Idlc.Messages
use gamnet.Idlc.Csharp.{
  Class, Classes, Runtime, initial, store, dict_set, turns, read_string, load, init_members,
  store_members, load_members,
}

module _ {A B : Type 0} where
  -- A key that none of these entries has
  abbrev IsNew : (A → A → Bool) → List (Both A B) → A → Type 0
  IsNew eq [] k = Unit {0}
  IsNew eq (x ∷ m) k = (eq x.first k ≡ false) × IsNew eq m k

  -- No key comes twice, those of these entries included.
  abbrev AreNew : (A → A → Bool) → List (Both A B) → List (Both A B) → Type 0
  AreNew eq seen [] = Unit {0}
  AreNew eq seen (x ∷ m) = IsNew eq seen x.first × AreNew eq (seen ++ (x ∷ [])) m

-- What a class promises of the struct of the same name: it writes the same bytes, and reads what the
-- struct writes.
pub record IsCompatible (c : Codec) (k : Class c.Obj) : Type 1 where
  pub Fits : c.Obj → Type 0
  pub merge : c.Obj → c.Obj → c.Obj
  pub load-store :
      (old v : c.Obj) (rest : List ℕ)
      → Fits v
      → k.load old (c.store v ++ rest) ≡ done (merge old v) rest
  pub merge-blank : (v : c.Obj) → Fits v → merge k.blank v ≡ v
  pub same_store : (v : c.Obj) → k.store v ≡ c.store v

dict_set_last :
    {A B : Type 0} (eq : A → A → Bool) (m : List (Both A B)) (x : Both A B)
    → IsNew eq m x.first
    → dict_set eq m x ≡ m ++ (x ∷ [])
unfolding dict_set
dict_set_last eq [] x h = refl
dict_set_last eq (y ∷ m) x (a, h) = rw (a, dict_set_last eq m x h)

added-dict_set :
    {A B : Type 0} (eq : A → A → Bool) (m seen : List (Both A B))
    → AreNew eq seen m
    → added (dict_set eq) seen m ≡ seen ++ m
added-dict_set eq [] seen h = sym (append-nil seen)
added-dict_set eq (x ∷ m) seen (h, more) =
    ap (λ s. added (dict_set eq) s m) (dict_set_last eq seen x h)
    ∙ added-dict_set eq m (seen ++ (x ∷ [])) more
    ∙ append_assoc seen (x ∷ []) m

store_each-congr :
    {A : Type 0} (f g : A → List ℕ)
    → ((a : A) → f a ≡ g a)
    → (xs : List A) → store_each f xs ≡ store_each g xs
unfolding store_each
store_each-congr f g h [] = refl
store_each-congr f g h (x ∷ xs) = rw (h x, store_each-congr f g h xs)

turns_lem : (n : ℕ) → n < 2 ^ 31 → turns n ≡ n
unfolding turns
turns_lem n h = rw (not-leb_of_lt (2 ^ 31) n h)

module _ (rt : Runtime) (env : Env) (cs : Classes env)
    (good : (name : List ℕ) → IsCompatible (env name) (cs name)) where
  -- The values that both languages have: numbers in the range of their type, texts in UTF-8, fewer
  -- than 2 ^ 31 bytes or elements, and no key twice.
  abbrev pub Fits : (t : Token) → Val env t → Type 0
  Fits (primitive p) v = v < 256 ^ prim_size p
  Fits string v = (length v < 2 ^ 31) × (rt.get_string v ≡ v)
  Fits (user_define name) v = (good name).Fits v
  Fits (map k e) v =
      (length v < 2 ^ 31)
      × All (λ entry. Fits k entry.first × Fits e entry.second) v
      × AreNew (rt.equal env k) [] v
  Fits (list t) v = (length v < 2 ^ 31) × All (Fits t) v
  Fits (array t) v = (length v < 2 ^ 31) × All (Fits t) v
  Fits (static_array t count) v = (length v ≡ count) × All (Fits t) v

  abbrev pub merge : (t : Token) → Val env t → Val env t → Val env t
  merge (primitive p) old v = v
  merge string old v = v
  merge (user_define name) old v = (good name).merge old v
  merge (map k e) old v = added (dict_set (rt.equal env k)) old v
  merge (list t) old v = old ++ v
  merge (array t) old v = old ++ v
  merge (static_array t count) old v = v

  pub merge-initial : (t : Token) (v : Val env t) → Fits t v → merge t (initial env cs t) v ≡ v
  unfolding initial
  merge-initial (primitive p) v h = refl
  merge-initial string v h = refl
  merge-initial (user_define name) v h = (good name).merge-blank v h
  merge-initial (map k e) v (n, all, new) = added-dict_set (rt.equal env k) v [] new
  merge-initial (list t) v h = refl
  merge-initial (array t) v h = refl
  merge-initial (static_array t count) v h = refl

  -- C# writes what C++ writes.
  pub store_same : (t : Token) (v : Val env t) → store env cs t v ≡ Idlc.store env t v
  unfolding store Idlc.store
  store_same (primitive p) v = refl
  store_same string v = refl
  store_same (user_define name) v = (good name).same_store v
  store_same (map k e) v =
      ap (λ l. le_bytes 4 (length v) ++ l)
        (store_each-congr _ _
          (λ entry. rw (store_same k entry.first, store_same e entry.second) refl) v)
  store_same (list t) v =
      ap (λ l. le_bytes 4 (length v) ++ l) (store_each-congr _ _ (store_same t) v)
  store_same (array t) v =
      ap (λ l. le_bytes 4 (length v) ++ l) (store_each-congr _ _ (store_same t) v)
  store_same (static_array t count) v = store_each-congr _ _ (store_same t) v

  load_elements :
      (t : Token)
      → ((old v : Val env t) (rest : List ℕ)
          → Fits t v
          → load rt env cs t old (Idlc.store env t v ++ rest) ≡ done (merge t old v) rest)
      → (v into : List (Val env t)) (rest : List ℕ) → All (Fits t) v
      → load_each
          (length v)
          (load rt env cs t (initial env cs t))
          push_back
          into
          (store_each (Idlc.store env t) v ++ rest)
        ≡ done (into ++ v) rest
  load_elements t one v into rest all =
      load_each-store_each (Idlc.store env t) (load rt env cs t (initial env cs t)) push_back
        (Fits t) (λ a r h. one (initial env cs t) a r h ∙ ap (λ w. done w r) (merge-initial t a h))
        v into rest all
      ∙ ap (λ l. done l rest) (added-push_back v into)

  -- C# reads what C++ writes, type by type.
  pub load-store :
      (t : Token) (old v : Val env t) (rest : List ℕ)
      → Fits t v
      → load rt env cs t old (Idlc.store env t v ++ rest) ≡ done (merge t old v) rest
  unfolding load Idlc.store read_string
  load-store (primitive p) old v rest h = read_int-le_bytes (prim_size p) v rest h
  load-store string old v rest (n, text) =
      rw
        (
          read_count (length v) v rest (omega arith),
          not-leb_of_lt (2 ^ 31) (length v) n,
          read_bytes-append v rest (length v) refl,
          text,
        )
        refl
  load-store (user_define name) old v rest h = (good name).load-store old v rest h
  load-store (map k e) old v rest (n, all, new) =
      rw
        (
          read_count (length v)
              (store_each (λ entry. Idlc.store env k entry.first ++ Idlc.store env e entry.second)
                v)
              rest (omega arith),
          turns_lem (length v) n,
        )
        (load_each-store_each
          (λ entry. Idlc.store env k entry.first ++ Idlc.store env e entry.second)
          (λ b. load rt env cs k (initial env cs k) b >>= λ key b'.
            load rt env cs e (initial env cs e) b' >>= λ elmt b''.
            done (record { first = key; second = elmt }) b'')
          (dict_set (rt.equal env k)) (λ entry. Fits k entry.first × Fits e entry.second)
          (λ entry r h.
            rw
              (
                append_assoc (Idlc.store env k entry.first) (Idlc.store env e entry.second) r,
                load-store k (initial env cs k) entry.first (Idlc.store env e entry.second ++ r)
                    h.0,
                load-store e (initial env cs e) entry.second r h.1,
                merge-initial k entry.first h.0,
                merge-initial e entry.second h.1,
              )
              refl)
          v old rest all)
  load-store (list t) old v rest (n, all) =
      rw
        (
          read_count (length v) (store_each (Idlc.store env t) v) rest (omega arith),
          turns_lem (length v) n,
        )
        (load_elements t (load-store t) v old rest all)
  load-store (array t) old v rest (n, all) =
      rw
        (
          read_count (length v) (store_each (Idlc.store env t) v) rest (omega arith),
          turns_lem (length v) n,
        )
        (load_elements t (load-store t) v old rest all)
  load-store (static_array t count) old v rest (n, all) =
      rw (sym n) (load_elements t (load-store t) v [] rest all)

  abbrev pub FitsMembers : (ms : List Member) → Members env ms → Type 0
  FitsMembers [] v = Unit {0}
  FitsMembers (Member.comment ∷ ms) v = FitsMembers ms v
  FitsMembers (var_decl t name ∷ ms) v = Fits t v.first × FitsMembers ms v.second

  abbrev pub merge_members : (ms : List Member) → Members env ms → Members env ms → Members env ms
  merge_members [] old v = tt
  merge_members (Member.comment ∷ ms) old v = merge_members ms old v
  merge_members (var_decl t name ∷ ms) old v = record {
    first = merge t old.first v.first;
    second = merge_members ms old.second v.second;
  }

  pub members_blank :
      (ms : List Member) (v : Members env ms)
      → FitsMembers ms v
      → merge_members ms (init_members env cs ms) v ≡ v
  unfolding init_members
  members_blank [] v h = refl
  members_blank (Member.comment ∷ ms) v h = members_blank ms v h
  members_blank (var_decl t name ∷ ms) v (h, more) =
      rw (merge-initial t v.first h, members_blank ms v.second more) refl

  pub members_load :
      (ms : List Member) (old v : Members env ms) (rest : List ℕ)
      → FitsMembers ms v
      → load_members rt env cs ms old (Messages.store_members env ms v ++ rest)
        ≡ done (merge_members ms old v) rest
  unfolding load_members Messages.store_members
  members_load [] old v rest h = refl
  members_load (Member.comment ∷ ms) old v rest h = members_load ms old v rest h
  members_load (var_decl t name ∷ ms) old v rest (h, more) =
      rw
        (
          append_assoc (Idlc.store env t v.first) (Messages.store_members env ms v.second) rest,
          load-store t old.first v.first (Messages.store_members env ms v.second ++ rest) h,
          members_load ms old.second v.second rest more,
        )
        refl

  pub members_same :
      (ms : List Member) (v : Members env ms)
      → store_members env cs ms v ≡ Messages.store_members env ms v
  unfolding store_members Messages.store_members
  members_same [] v = refl
  members_same (Member.comment ∷ ms) v = members_same ms v
  members_same (var_decl t name ∷ ms) v = rw (store_same t v.first, members_same ms v.second)
