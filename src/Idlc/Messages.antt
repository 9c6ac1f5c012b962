-- ===== src/Idlc/Messages.antt =====
-- Whole files of the message compiler: `Parse` of idlc/src/token.h, with CompileMessage, CompileEnum
-- and CompileTypedef of idlc/src/generate_rule_cpp.cpp. A statement declares a name; what stands in
-- literal blocks is copied and has no part here, nor have message numbers.
pub mod Declared
pub mod Routers
use gamnet.Prelude.{
  ℕ, ◌+◌, ◌-◌, ◌^◌, ltb, if◌then◌else◌, u32, add64, List, [], ◌∷◌, ◌++◌, Option, none, some,
  Outcome, le_bytes,
}
use gamnet.MsgRouter.{string_eq, store_vector}
use gamnet.Idlc.{
  IsDynamic, IsMember, Token, Read, done, ◌>>=◌, Both, Codec, Env, Val, Orders, store, size,
  declared, initial, load, read_int,
}

-- What stands in the braces of a message: a comment (`Token::Base`) or a VarDecl
pub data Member : Type 0 where
  comment : Member
  var_decl : Token → List ℕ → Member

-- An element of an enum: a comment, or an EnumElmt with its number, if it has one
pub data Elmt : Type 0 where
  comment : Elmt
  enum_elmt : List ℕ → Option ℕ → Elmt

-- The statements of a file; a message has a parent or none.
pub data Stmt : Type 0 where
  comment : Stmt
  literal_block : List ℕ → List ℕ → Stmt
  typedef : Token → List ℕ → Stmt
  message : List ℕ → Option (List ℕ) → List Member → Stmt
  enum : List ℕ → List Elmt → Stmt

-- A file whose generated code C++ accepts: so are its members, and no typedef is of a static array,
-- which is printed as one of its element.
abbrev pub AreMembers : List Member → Type 0
AreMembers [] = Unit {0}
AreMembers (Member.comment ∷ ms) = AreMembers ms
AreMembers (var_decl t name ∷ ms) = IsMember t × AreMembers ms

abbrev pub IsCpp : List Stmt → Type 0
IsCpp [] = Unit {0}
IsCpp (Stmt.comment ∷ ss) = IsCpp ss
IsCpp (literal_block language context ∷ ss) = IsCpp ss
IsCpp (typedef t name ∷ ss) = IsDynamic t × IsCpp ss
IsCpp (message name parent ms ∷ ss) = AreMembers ms × IsCpp ss
IsCpp (enum name es ∷ ss) = IsCpp ss

-- The members of a struct
abbrev pub Members : Env → List Member → Type 0
Members env [] = Unit {0}
Members env (Member.comment ∷ ms) = Members env ms
Members env (var_decl t name ∷ ms) = Both (Val env t) (Members env ms)

unfoldable pub init_members : (env : Env) → ℕ → (ms : List Member) → Members env ms
unfolding initial
init_members env junk [] = tt
init_members env junk (Member.comment ∷ ms) = init_members env junk ms
init_members env junk (var_decl t name ∷ ms) = record {
  first = initial env junk t;
  second = init_members env junk ms;
}

unfoldable pub size_members : (env : Env) (ms : List Member) → Members env ms → ℕ
size_members env [] v = 0
size_members env (Member.comment ∷ ms) v = size_members env ms v
size_members env (var_decl t name ∷ ms) v =
    add64 (size env t v.first) (size_members env ms v.second)

unfoldable pub store_members : (env : Env) (ms : List Member) → Members env ms → List ℕ
store_members env [] v = []
store_members env (Member.comment ∷ ms) v = store_members env ms v
store_members env (var_decl t name ∷ ms) v = store env t v.first ++ store_members env ms v.second

unfoldable pub load_members :
    Orders → (env : Env) → ℕ → (ms : List Member) → Members env ms → List ℕ → Read (Members env ms)
load_members by env junk [] old bs = done tt bs
load_members by env junk (Member.comment ∷ ms) old bs = load_members by env junk ms old bs
load_members by env junk (var_decl t name ∷ ms) old bs =
    load by env junk t old.first bs >>= λ v bs'.
    load_members by env junk ms old.second bs' >>= λ vs bs''.
    done (record { first = v; second = vs }) bs''

-- The part of a struct that its parent is, where it has one
nothing : Codec
nothing = record {
  Obj = Unit {0};
  blank = λ junk. tt;
  size = λ v. 0;
  store = λ v. [];
  load = λ junk old bs. done tt bs;
}

unfoldable pub base : Env → Option (List ℕ) → Codec
unfolding nothing
base env none = nothing
base env (some parent) = env parent

-- CompileMessage
abbrev pub compile_message : Orders → Env → Option (List ℕ) → List Member → Codec
compile_message by env parent ms =
    let b = base env parent in
    record {
      Obj = Both b.Obj (Members env ms);
      blank = λ junk. record { first = b.blank junk; second = init_members env junk ms };
      size = λ v. add64 (b.size v.first) (size_members env ms v.second);
      store = λ v. b.store v.first ++ store_members env ms v.second;
      load = λ junk old bs. b.load junk old.first bs >>= λ v bs'.
          load_members by env junk ms old.second bs' >>= λ vs bs''.
          done (record { first = v; second = vs }) bs'';
    }

-- The value that the constructor of an enum gives: that of its first element
unfoldable pub default_value : List Elmt → ℕ
default_value [] = 0
default_value (Elmt.comment ∷ es) = default_value es
default_value (enum_elmt name none ∷ es) = 0
default_value (enum_elmt name (some number) ∷ es) = number

-- CompileEnum; the enums of the program take four bytes.
abbrev pub compile_enum : List Elmt → Codec
compile_enum es = record {
  Obj = ℕ;
  blank = λ junk. default_value es;
  size = λ v. 4;
  store = λ v. le_bytes 4 v;
  load = λ junk old bs. read_int 4 bs;
}

-- An `int32_t` that is returned as a `size_t`
unfoldable pub widened : ℕ → ℕ
widened n = if ltb (u32 n) (2 ^ 31) then u32 n else u32 n + (2 ^ 64 - 2 ^ 32)

-- CompileTypedef, of a type without static arrays
abbrev pub compile_typedef : Orders → Env → Token → Codec
compile_typedef by env t = record {
  Obj = Val env t;
  blank = λ junk. declared env junk t;
  size = λ v. widened (size env t v);
  store = store env t;
  load = λ junk. load by env junk t;
}

-- One more name
unfoldable pub bound : Env → List ℕ → Codec → Env
bound env name c n = if string_eq name n then c else env n

-- A statement of Parser::Parse
unfoldable pub compile_stmt : Orders → Env → Stmt → Env
unfolding bound
compile_stmt by env Stmt.comment = env
compile_stmt by env (literal_block language context) = env
compile_stmt by env (typedef t name) = bound env name (compile_typedef by env t)
compile_stmt by env (message name parent ms) = bound env name (compile_message by env parent ms)
compile_stmt by env (enum name es) = bound env name (compile_enum es)

-- Parser::Parse
unfoldable pub parse : Orders → Env → List Stmt → Env
unfolding compile_stmt
parse by env [] = env
parse by env (s ∷ ss) = parse by (compile_stmt by env s) ss

-- Store(std::vector<char>&) of a message
unfoldable pub store_message : (c : Codec) → List ℕ → c.Obj → Outcome (List ℕ)
store_message c buf v = store_vector buf (c.size v) (c.store v)

-- Load(const std::vector<char>&) of a message
unfoldable pub load_message : (c : Codec) → ℕ → c.Obj → List ℕ → Read c.Obj
load_message c junk old [] = done old []
load_message c junk old (b ∷ bs) = c.load junk old (b ∷ bs)
