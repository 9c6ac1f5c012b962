-- ===== src/Idlc/Csharp/Files.antt =====
-- Whole files: every class that is generated fits the struct of the same name.
use gamnet.Prelude.{
  ℕ, ◌^◌, ◌<◌, ◌≡◌, refl, true, false, if◌then◌else◌, List, [], ◌∷◌, ◌++◌, Option, none, some,
  append_assoc,
}
use gamnet.MsgRouter.{string_eq}
use gamnet.Idlc.{Token, done, Codec, Env, Orders}
use gamnet.Idlc.Laws.{read_int-le_bytes}
use gamnet.Idlc.Messages.{
  Member, Elmt, Stmt, literal_block, typedef, message, enum, base, bound, compile_message,
  compile_enum, compile_typedef, compile_stmt, parse,
}
use gamnet.Idlc.Messages
use gamnet.Idlc.Csharp.{
  Class, Classes, Runtime, base_class, message_class, enum_class, typedef_class, bound_class,
  stmt_class, parse_classes,
}
use gamnet.Idlc.Csharp.Interop.{
  IsCompatible, Fits, merge, merge-initial, store_same, load-store, FitsMembers, merge_members,
  members_blank, members_load, members_same,
}

module _ (rt : Runtime) (by : Orders) (env : Env) (cs : Classes env)
    (good : (name : List ℕ) → IsCompatible (env name) (cs name)) where
  unfoldable pub base_compatible :
      (parent : Option (List ℕ)) → IsCompatible (base env parent) (base_class env cs parent)
  unfolding base base_class
  base_compatible none = record {
    Fits = λ v. Unit {0};
    merge = λ old v. tt;
    load-store = λ old v rest h. refl;
    merge-blank = λ v h. refl;
    same_store = λ v. refl;
  }
  base_compatible (some parent) = good parent

  pub message_load :
      (parent : Option (List ℕ)) (ms : List Member) (old v : (compile_message by env parent ms).Obj)
      (rest : List ℕ)
      → (base_compatible parent).Fits v.first
      → FitsMembers rt env cs good ms v.second
      → (message_class rt by env cs parent ms).load old
          ((compile_message by env parent ms).store v ++ rest)
        ≡ done
            (record {
              first = (base_compatible parent).merge old.first v.first;
              second = merge_members rt env cs good ms old.second v.second;
            })
            rest
  unfolding message_class
  message_load parent ms old v rest h more =
      rw
        (
          append_assoc ((base env parent).store v.first) (Messages.store_members env ms v.second)
              rest,
          (base_compatible parent).load-store old.first v.first
              (Messages.store_members env ms v.second ++ rest) h,
          members_load rt env cs good ms old.second v.second rest more,
        )
        refl

  unfoldable pub message_compatible :
      (parent : Option (List ℕ)) (ms : List Member)
      → IsCompatible (compile_message by env parent ms) (message_class rt by env cs parent ms)
  unfolding message_class
  message_compatible parent ms = record {
    Fits = λ v. (base_compatible parent).Fits v.first × FitsMembers rt env cs good ms v.second;
    merge = λ old v. record {
      first = (base_compatible parent).merge old.first v.first;
      second = merge_members rt env cs good ms old.second v.second;
    };
    load-store = λ old v rest h. message_load parent ms old v rest h.0 h.1;
    merge-blank = λ v h.
        rw
          (
            (base_compatible parent).merge-blank v.first h.0,
            members_blank rt env cs good ms v.second h.1,
          )
          refl;
    same_store = λ v.
        rw ((base_compatible parent).same_store v.first, members_same rt env cs good ms v.second)
          refl;
  }

  unfoldable pub typedef_compatible :
      (t : Token) → IsCompatible (compile_typedef by env t) (typedef_class rt by env cs t)
  unfolding typedef_class
  typedef_compatible t = record {
    Fits = λ v. Fits rt env cs good t v;
    merge = λ old v. merge rt env cs good t old v;
    load-store = λ old v rest h. load-store rt env cs good t old v rest h;
    merge-blank = λ v h. merge-initial rt env cs good t v h;
    same_store = λ v. store_same rt env cs good t v;
  }

unfoldable pub enum_compatible : (es : List Elmt) → IsCompatible (compile_enum es) (enum_class es)
unfolding enum_class
enum_compatible es = record {
  Fits = λ v. v < 256 ^ 4;
  merge = λ old v. v;
  load-store = λ old v rest h. read_int-le_bytes 4 v rest h;
  merge-blank = λ v h. refl;
  same_store = λ v. refl;
}

unfoldable pub bound_compatible :
    (env : Env) (cs : Classes env) (name : List ℕ) (c : Codec) (k : Class c.Obj)
    → ((n : List ℕ) → IsCompatible (env n) (cs n))
    → IsCompatible c k
    → (n : List ℕ) → IsCompatible (bound env name c n) (bound_class env cs name c k n)
unfolding bound bound_class
bound_compatible env cs name c k old new n =
    elim (string_eq name n)
      as (λ b.
        IsCompatible (if b then c else env n)
          (elim b as (λ b. Class (if b then c else env n).Obj) [ true ↦ k | false ↦ cs n ])) [
            | true ↦ new
            | false ↦ old n
          ]

unfoldable pub stmt_compatible :
    (rt : Runtime) (by : Orders) (env : Env) (cs : Classes env)
    (good : (name : List ℕ) → IsCompatible (env name) (cs name)) (s : Stmt) (n : List ℕ)
    → IsCompatible (compile_stmt by env s n) (stmt_class rt by env cs s n)
unfolding compile_stmt stmt_class bound_compatible enum_compatible typedef_compatible
    message_compatible base_compatible
stmt_compatible rt by env cs good Stmt.comment n = good n
stmt_compatible rt by env cs good (literal_block language context) n = good n
stmt_compatible rt by env cs good (typedef t name) n =
    bound_compatible env cs name (compile_typedef by env t) (typedef_class rt by env cs t) good
      (typedef_compatible rt by env cs good t) n
stmt_compatible rt by env cs good (message name parent ms) n =
    bound_compatible env cs name (compile_message by env parent ms)
      (message_class rt by env cs parent ms) good (message_compatible rt by env cs good parent ms) n
stmt_compatible rt by env cs good (enum name es) n =
    bound_compatible env cs name (compile_enum es) (enum_class es) good (enum_compatible es) n

unfoldable pub parse_compatible :
    (rt : Runtime) (by : Orders) (env : Env) (cs : Classes env)
    (good : (name : List ℕ) → IsCompatible (env name) (cs name)) (ss : List Stmt) (n : List ℕ)
    → IsCompatible (parse by env ss n) (parse_classes rt by env cs ss n)
unfolding parse parse_classes stmt_compatible
parse_compatible rt by env cs good [] n = good n
parse_compatible rt by env cs good (s ∷ ss) n =
    parse_compatible rt by (compile_stmt by env s) (stmt_class rt by env cs s)
      (stmt_compatible rt by env cs good s) ss n
