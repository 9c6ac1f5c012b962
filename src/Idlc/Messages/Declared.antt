-- ===== src/Idlc/Messages/Declared.antt =====
-- Every name that a file declares has a serializer that keeps its promises.
use gamnet.Prelude.{
  ℕ, ◌^◌, ◌<◌, ◌≡◌, refl, ap, ◌∙◌, arith, if◌then◌else◌, true, false, List, [], ◌∷◌, ◌++◌, Option,
  none, some, length, length-append, append_assoc,
}
use gamnet.MsgRouter.{string_eq}
use gamnet.Idlc.{
  Token, primitive, string, user_define, map, list, array, static_array, done, Codec, Env, Val,
  Orders, store, size, declared, initial,
}
use gamnet.Idlc.Laws.{
  IsSound, Fits, merge, merge-declared, load-store, size-store, read_int-le_bytes,
}
use gamnet.Idlc.Messages.{
  Member, var_decl, Elmt, Stmt, literal_block, typedef, message, enum, Members, init_members,
  size_members, store_members, load_members, nothing, base, compile_message, compile_enum, widened,
  compile_typedef, bound, compile_stmt, parse,
}

module _ (by : Orders) (env : Env) (sound : (name : List ℕ) → IsSound (env name)) where
  abbrev pub FitsMembers : (ms : List Member) → Members env ms → Type 0
  FitsMembers [] v = Unit {0}
  FitsMembers (Member.comment ∷ ms) v = FitsMembers ms v
  FitsMembers (var_decl t name ∷ ms) v = Fits by env sound t v.first × FitsMembers ms v.second

  abbrev pub merge_members : (ms : List Member) → Members env ms → Members env ms → Members env ms
  merge_members [] old v = tt
  merge_members (Member.comment ∷ ms) old v = merge_members ms old v
  merge_members (var_decl t name ∷ ms) old v = record {
    first = merge by env sound t old.first v.first;
    second = merge_members ms old.second v.second;
  }

  merge-initial :
      (junk : ℕ) (t : Token) (v : Val env t)
      → Fits by env sound t v
      → merge by env sound t (initial env junk t) v ≡ v
  unfolding initial declared
  merge-initial junk (primitive p) v h = refl
  merge-initial junk string v h = refl
  merge-initial junk (user_define name) v h = (sound name).merge-blank junk v h
  merge-initial junk (map k e) v h = merge-declared by env sound junk (map k e) v h
  merge-initial junk (list t) v h = refl
  merge-initial junk (array t) v h = refl
  merge-initial junk (static_array t count) v h = refl

  pub members_blank :
      (junk : ℕ) (ms : List Member) (v : Members env ms)
      → FitsMembers ms v
      → merge_members ms (init_members env junk ms) v ≡ v
  unfolding init_members
  members_blank junk [] v h = refl
  members_blank junk (Member.comment ∷ ms) v h = members_blank junk ms v h
  members_blank junk (var_decl t name ∷ ms) v (h, more) =
      rw (merge-initial junk t v.first h, members_blank junk ms v.second more) refl

  members_load :
      (junk : ℕ) (ms : List Member) (old v : Members env ms) (rest : List ℕ)
      → FitsMembers ms v
      → load_members by env junk ms old (store_members env ms v ++ rest)
        ≡ done (merge_members ms old v) rest
  unfolding load_members store_members
  members_load junk [] old v rest h = refl
  members_load junk (Member.comment ∷ ms) old v rest h = members_load junk ms old v rest h
  members_load junk (var_decl t name ∷ ms) old v rest (h, more) =
      rw
        (
          append_assoc (store env t v.first) (store_members env ms v.second) rest,
          load-store by env sound junk t old.first v.first (store_members env ms v.second ++ rest)
              h,
          members_load junk ms old.second v.second rest more,
        )
        refl

  members_size :
      (ms : List Member) (v : Members env ms)
      → length (store_members env ms v) < 2 ^ 31
      → size_members env ms v ≡ length (store_members env ms v)
  unfolding size_members store_members
  members_size [] v h = refl
  members_size (Member.comment ∷ ms) v h = members_size ms v h
  members_size (var_decl t name ∷ ms) v h =
      let l = length-append (store env t v.first) (store_members env ms v.second) in
      omega (
        arith,
        l,
        size-store by env sound t v.first (omega (arith, l)),
        members_size ms v.second (omega (arith, l)),
      )

  nothing_sound : IsSound nothing
  unfolding nothing
  nothing_sound = record {
    Fits = λ v. Unit {0};
    merge = λ old v. tt;
    load-store = λ junk old v rest h. refl;
    merge-blank = λ junk v h. refl;
    sized = λ v h. refl;
  }

  unfoldable pub base_sound : (parent : Option (List ℕ)) → IsSound (base env parent)
  unfolding base nothing_sound
  base_sound none = nothing_sound
  base_sound (some parent) = sound parent

  pub message_load :
      (parent : Option (List ℕ)) (ms : List Member) (junk : ℕ)
      (old v : (compile_message by env parent ms).Obj) (rest : List ℕ)
      → (base_sound parent).Fits v.first
      → FitsMembers ms v.second
      → (compile_message by env parent ms).load junk old
          ((compile_message by env parent ms).store v ++ rest)
        ≡ done
            (record {
              first = (base_sound parent).merge old.first v.first;
              second = merge_members ms old.second v.second;
            })
            rest
  message_load parent ms junk old v rest h more =
      rw
        (
          append_assoc ((base env parent).store v.first) (store_members env ms v.second) rest,
          (base_sound parent).load-store junk old.first v.first
              (store_members env ms v.second ++ rest) h,
          members_load junk ms old.second v.second rest more,
        )
        refl

  pub message_size :
      (parent : Option (List ℕ)) (ms : List Member) (v : (compile_message by env parent ms).Obj)
      → length ((compile_message by env parent ms).store v) < 2 ^ 31
      → (compile_message by env parent ms).size v
        ≡ length ((compile_message by env parent ms).store v)
  message_size parent ms v h =
      let l = length-append ((base env parent).store v.first) (store_members env ms v.second) in
      omega (
        arith,
        l,
        (base_sound parent).sized v.first (omega (arith, l)),
        members_size ms v.second (omega (arith, l)),
      )

  unfoldable pub message_sound :
      (parent : Option (List ℕ)) (ms : List Member) → IsSound (compile_message by env parent ms)
  message_sound parent ms = record {
    Fits = λ v. (base_sound parent).Fits v.first × FitsMembers ms v.second;
    merge = λ old v. record {
      first = (base_sound parent).merge old.first v.first;
      second = merge_members ms old.second v.second;
    };
    load-store = λ junk old v rest h. message_load parent ms junk old v rest h.0 h.1;
    merge-blank = λ junk v h.
        rw ((base_sound parent).merge-blank junk v.first h.0, members_blank junk ms v.second h.1)
          refl;
    sized = λ v h. message_size parent ms v h;
  }

  widened_lem : (n : ℕ) → n < 2 ^ 31 → widened n ≡ n
  unfolding widened
  widened_lem n h = ground arith

  pub typedef_size :
      (t : Token) (v : Val env t)
      → length (store env t v) < 2 ^ 31
      → widened (size env t v) ≡ length (store env t v)
  typedef_size t v h =
      ap widened (size-store by env sound t v h) ∙ widened_lem (length (store env t v)) h

  unfoldable pub typedef_sound : (t : Token) → IsSound (compile_typedef by env t)
  typedef_sound t = record {
    Fits = λ v. Fits by env sound t v;
    merge = λ old v. merge by env sound t old v;
    load-store = λ junk old v rest h. load-store by env sound junk t old v rest h;
    merge-blank = λ junk v h. merge-declared by env sound junk t v h;
    sized = λ v h. typedef_size t v h;
  }

unfoldable pub enum_sound : (es : List Elmt) → IsSound (compile_enum es)
enum_sound es = record {
  Fits = λ v. v < 256 ^ 4;
  merge = λ old v. v;
  load-store = λ junk old v rest h. read_int-le_bytes 4 v rest h;
  merge-blank = λ junk v h. refl;
  sized = λ v h. refl;
}

unfoldable pub bound_sound :
    (env : Env) (name : List ℕ) (c : Codec)
    → ((n : List ℕ) → IsSound (env n))
    → IsSound c
    → (n : List ℕ) → IsSound (bound env name c n)
unfolding bound
bound_sound env name c old new n =
    elim (string_eq name n) as (λ b. IsSound (if b then c else env n)) [
      | true ↦ new
      | false ↦ old n
    ]

unfoldable pub stmt_sound :
    (by : Orders) (env : Env) (sound : (name : List ℕ) → IsSound (env name)) (s : Stmt) (n : List ℕ)
    → IsSound (compile_stmt by env s n)
unfolding compile_stmt bound_sound enum_sound typedef_sound message_sound
stmt_sound by env sound Stmt.comment n = sound n
stmt_sound by env sound (literal_block language context) n = sound n
stmt_sound by env sound (typedef t name) n =
    bound_sound env name (compile_typedef by env t) sound (typedef_sound by env sound t) n
stmt_sound by env sound (message name parent ms) n =
    bound_sound env name (compile_message by env parent ms) sound
      (message_sound by env sound parent ms) n
stmt_sound by env sound (enum name es) n =
    bound_sound env name (compile_enum es) sound (enum_sound es) n

-- The promises of the serializers that a file declares
unfoldable pub parse_sound :
    (by : Orders) (env : Env) (sound : (name : List ℕ) → IsSound (env name)) (ss : List Stmt)
    (n : List ℕ)
    → IsSound (parse by env ss n)
unfolding parse stmt_sound
parse_sound by env sound [] n = sound n
parse_sound by env sound (s ∷ ss) n =
    parse_sound by (compile_stmt by env s) (stmt_sound by env sound s) ss n
