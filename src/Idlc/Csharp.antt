-- ===== src/Idlc/Csharp.antt =====
-- idlc/src/generate_rule_csharp.cpp: the serializers that the message compiler generates for C#.
-- An object is modelled as in C++: its members, a Dictionary as the list of its entries, a string as
-- its UTF-8 bytes; null strings are the empty one. `GetString` and the equality of keys are
-- parameters. An exception in `Load` is caught and gives false; the stream has fewer than 2 ^ 31
-- bytes.
pub mod Interop
pub mod Files
mod Tests
use gamnet.Prelude.{
  ℕ, ◌+◌, ◌^◌, leb, if◌then◌else◌, u32, List, [], ◌∷◌, ◌++◌, Option, none, some, Bool, true, false,
  length, replicate, le_bytes,
}
use gamnet.MsgRouter.{string_eq}
use gamnet.Idlc.{
  Primitive, prim_size, Token, primitive, string, user_define, map, list, array, static_array, Read,
  refused, done, ◌>>=◌, Both, Codec, Env, Val, Orders, store_each, push_back, read_bytes, read_int,
  load_each,
}
use gamnet.Idlc.Messages.{
  Member, var_decl, Elmt, Stmt, literal_block, typedef, message, enum, Members, base, bound,
  compile_message, compile_enum, compile_typedef, compile_stmt, parse,
}

-- A class and its `_Serializer`
pub record Class (Obj : Type 0) : Type 0 where
  pub blank : Obj
  pub size : Obj → ℕ
  pub store : Obj → List ℕ
  pub load : Obj → List ℕ → Read Obj

-- The classes of the types that are declared
abbrev pub Classes : Env → Type 0
Classes env = (name : List ℕ) → Class (env name).Obj

-- Encoding.UTF8.GetString, as the bytes of the text that it gives, and whether a Dictionary takes two
-- keys of a type for the same
pub record Runtime : Type 1 where
  pub get_string : List ℕ → List ℕ
  pub equal : (env : Env) (t : Token) → Val env t → Val env t → Bool

-- Sums of an `int`, by its bit pattern
abbrev pub add32 : ℕ → ℕ → ℕ
add32 a b = u32 (a + b)

unfoldable pub size_each : {A : Type 0} → (A → ℕ) → List A → ℕ
size_each count [] = 0
size_each count (x ∷ xs) = add32 (count x) (size_each count xs)

-- GenerateVariableInit
unfoldable pub initial : (env : Env) (cs : Classes env) (t : Token) → Val env t
initial env cs (primitive p) = 0
initial env cs string = []
initial env cs (user_define name) = (cs name).blank
initial env cs (map k e) = []
initial env cs (list t) = []
initial env cs (array t) = []
initial env cs (static_array t count) = replicate count (initial env cs t)

-- GenerateVariableStore
unfoldable pub store : (env : Env) (cs : Classes env) (t : Token) → Val env t → List ℕ
unfolding store_each
store env cs (primitive p) v = le_bytes (prim_size p) v
store env cs string v = le_bytes 4 (length v) ++ v
store env cs (user_define name) v = (cs name).store v
store env cs (map k e) v =
    le_bytes 4 (length v)
    ++ store_each (λ entry. store env cs k entry.first ++ store env cs e entry.second) v
store env cs (list t) v = le_bytes 4 (length v) ++ store_each (store env cs t) v
store env cs (array t) v = le_bytes 4 (length v) ++ store_each (store env cs t) v
store env cs (static_array t count) v = store_each (store env cs t) v

-- GenerateVariableSize
unfoldable pub size : (env : Env) (cs : Classes env) (t : Token) → Val env t → ℕ
unfolding size_each
size env cs (primitive p) v = prim_size p
size env cs string v = add32 4 (length v)
size env cs (user_define name) v = (cs name).size v
size env cs (map k e) v =
    add32 4 (size_each (λ entry. add32 (size env cs k entry.first) (size env cs e entry.second)) v)
size env cs (list t) v = add32 4 (size_each (size env cs t) v)
size env cs (array t) v = add32 4 (size_each (size env cs t) v)
size env cs (static_array t count) v = size_each (size env cs t) v

-- `d[key] = elmt` of a Dictionary, which replaces the value of a key that is there
unfoldable pub dict_set :
    {A B : Type 0} → (A → A → Bool) → List (Both A B) → Both A B → List (Both A B)
dict_set eq [] new = new ∷ []
dict_set eq (x ∷ m) new =
    let rest = dict_set eq m new in
    if eq x.first new.first then record { first = x.first; second = new.second } ∷ m else x ∷ rest

-- How often a loop with an `int` runs
unfoldable pub turns : ℕ → ℕ
turns n = if leb (2 ^ 31) n then 0 else n

-- A string of `n` bytes; a negative length throws.
unfoldable pub read_string : Runtime → ℕ → List ℕ → Read (List ℕ)
unfolding read_bytes
read_string rt n bs =
    if leb (2 ^ 31) n then refused else (read_bytes n bs >>= λ s rest. done (rt.get_string s) rest)

-- GenerateVariableLoad
unfoldable pub load :
    Runtime → (env : Env) (cs : Classes env) (t : Token) → Val env t → List ℕ → Read (Val env t)
unfolding read_int load_each push_back dict_set turns read_string initial
load rt env cs (primitive p) old bs = read_int (prim_size p) bs
load rt env cs string old bs = read_int 4 bs >>= λ n rest. read_string rt n rest
load rt env cs (user_define name) old bs = (cs name).load old bs
load rt env cs (map k e) old bs = read_int 4 bs >>= λ n rest.
    load_each (turns n)
      (λ b. load rt env cs k (initial env cs k) b >>= λ key b'.
        load rt env cs e (initial env cs e) b' >>= λ elmt b''.
        done (record { first = key; second = elmt }) b'')
      (dict_set (rt.equal env k)) old rest
load rt env cs (list t) old bs = read_int 4 bs >>= λ n rest.
    load_each (turns n) (load rt env cs t (initial env cs t)) push_back old rest
load rt env cs (array t) old bs = read_int 4 bs >>= λ n rest.
    load_each (turns n) (load rt env cs t (initial env cs t)) push_back old rest
load rt env cs (static_array t count) old bs =
    load_each count (load rt env cs t (initial env cs t)) push_back [] bs

-- The members of a class
unfoldable pub init_members : (env : Env) (cs : Classes env) (ms : List Member) → Members env ms
unfolding initial
init_members env cs [] = tt
init_members env cs (Member.comment ∷ ms) = init_members env cs ms
init_members env cs (var_decl t name ∷ ms) = record {
  first = initial env cs t;
  second = init_members env cs ms;
}

unfoldable pub size_members : (env : Env) (cs : Classes env) (ms : List Member) → Members env ms → ℕ
size_members env cs [] v = 0
size_members env cs (Member.comment ∷ ms) v = size_members env cs ms v
size_members env cs (var_decl t name ∷ ms) v =
    add32 (size env cs t v.first) (size_members env cs ms v.second)

unfoldable pub store_members :
    (env : Env) (cs : Classes env) (ms : List Member) → Members env ms → List ℕ
store_members env cs [] v = []
store_members env cs (Member.comment ∷ ms) v = store_members env cs ms v
store_members env cs (var_decl t name ∷ ms) v =
    store env cs t v.first ++ store_members env cs ms v.second

unfoldable pub load_members :
    Runtime
    → (env : Env) (cs : Classes env) (ms : List Member) → Members env ms
    → List ℕ
    → Read (Members env ms)
load_members rt env cs [] old bs = done tt bs
load_members rt env cs (Member.comment ∷ ms) old bs = load_members rt env cs ms old bs
load_members rt env cs (var_decl t name ∷ ms) old bs = load rt env cs t old.first bs >>= λ v bs'.
    load_members rt env cs ms old.second bs' >>= λ vs bs''.
    done (record { first = v; second = vs }) bs''

unfoldable pub base_class :
    (env : Env) (cs : Classes env) (parent : Option (List ℕ)) → Class (base env parent).Obj
unfolding base
base_class env cs none = record {
  blank = tt;
  size = λ v. 0;
  store = λ v. [];
  load = λ old bs. done tt bs;
}
base_class env cs (some parent) = cs parent

-- CompileMessage
unfoldable pub message_class :
    Runtime
    → (by : Orders) (env : Env) (cs : Classes env) (parent : Option (List ℕ)) (ms : List Member)
    → Class (compile_message by env parent ms).Obj
message_class rt by env cs parent ms =
    let b = base_class env cs parent in
    record {
      blank = record { first = b.blank; second = init_members env cs ms };
      size = λ v. add32 (b.size v.first) (size_members env cs ms v.second);
      store = λ v. b.store v.first ++ store_members env cs ms v.second;
      load = λ old bs. b.load old.first bs >>= λ v bs'.
          load_members rt env cs ms old.second bs' >>= λ vs bs''.
          done (record { first = v; second = vs }) bs'';
    }

-- CompileEnum; a field of an enum begins as 0.
unfoldable pub enum_class : (es : List Elmt) → Class (compile_enum es).Obj
unfolding read_int
enum_class es = record {
  blank = 0;
  size = λ v. 4;
  store = λ v. le_bytes 4 v;
  load = λ old bs. read_int 4 bs;
}

-- CompileTypedef, with the serializers at the end of CompileStmtList
unfoldable pub typedef_class :
    Runtime
    → (by : Orders) (env : Env) (cs : Classes env) (t : Token)
    → Class (compile_typedef by env t).Obj
typedef_class rt by env cs t = record {
  blank = initial env cs t;
  size = size env cs t;
  store = store env cs t;
  load = load rt env cs t;
}

unfoldable pub bound_class :
    (env : Env) (cs : Classes env) (name : List ℕ) (c : Codec)
    → Class c.Obj
    → Classes (bound env name c)
unfolding bound
bound_class env cs name c new n =
    elim (string_eq name n) as (λ b. Class (if b then c else env n).Obj) [
      | true ↦ new
      | false ↦ cs n
    ]

unfoldable pub stmt_class :
    Runtime
    → (by : Orders) (env : Env) (cs : Classes env) (s : Stmt) → Classes (compile_stmt by env s)
unfolding compile_stmt bound_class message_class enum_class typedef_class
stmt_class rt by env cs Stmt.comment = cs
stmt_class rt by env cs (literal_block language context) = cs
stmt_class rt by env cs (typedef t name) =
    bound_class env cs name (compile_typedef by env t) (typedef_class rt by env cs t)
stmt_class rt by env cs (message name parent ms) =
    bound_class env cs name (compile_message by env parent ms)
      (message_class rt by env cs parent ms)
stmt_class rt by env cs (enum name es) = bound_class env cs name (compile_enum es) (enum_class es)

-- Parser::Parse with the rules for C#
unfoldable pub parse_classes :
    Runtime
    → (by : Orders) (env : Env) (cs : Classes env) (ss : List Stmt) → Classes (parse by env ss)
unfolding parse stmt_class
parse_classes rt by env cs [] = cs
parse_classes rt by env cs (s ∷ ss) =
    parse_classes rt by (compile_stmt by env s) (stmt_class rt by env cs s) ss
