-- ===== src/Idlc.antt =====
-- idlc/src/generate_rule_cpp.cpp with the tokens of idlc/src/token.h: the serializers that the
-- message compiler generates for C++.
-- A type is given the meaning of the statements that are printed for it: what the generated `Size`
-- counts, what `Store` writes and what `Load` does to a variable. An integer or a floating number is
-- its bit pattern, little-endian in memory. `junk` is the pattern of a variable that is not
-- initialised. Not all that is printed is accepted by C++ (`IsMember`, below); what is not has here
-- the meaning that its text suggests, and the theorems leave it out.
pub mod Laws
pub mod Messages
pub mod Bounds
pub mod Csharp
mod Tests
use gamnet.Prelude.{
  ℕ, zero, suc, ◌+◌, ◌*◌, ltb, if◌then◌else◌, Bool, true, false, ◌&&◌, List, [], ◌∷◌, ◌++◌, length,
  take, drop, replicate, le_bytes, of_le, u32, add64,
}
use gamnet.MsgRouter.{string_lt}

-- Token::PrimitiveType, by the names of `m_mapSymbolTable`
pub data Primitive : Type 0 where
  boolean byte ubyte int16 int32 int64 uint16 uint32 uint64 double float : Primitive

-- `sizeof` of the C++ type in the symbol table
unfoldable pub prim_size : Primitive → ℕ
prim_size boolean = 1
prim_size byte = 1
prim_size ubyte = 1
prim_size int16 = 2
prim_size int32 = 4
prim_size int64 = 8
prim_size uint16 = 2
prim_size uint32 = 4
prim_size uint64 = 8
prim_size double = 8
prim_size float = 4

-- The tokens that are types
pub data Token : Type 0 where
  primitive : Primitive → Token
  string : Token
  user_define : List ℕ → Token
  map : Token → Token → Token
  list : Token → Token
  array : Token → Token
  static_array : Token → ℕ → Token

-- A type whose code C++ accepts for a variable of any name: one without static arrays, which
-- TranslateVariableType prints without their length.
abbrev pub IsDynamic : Token → Type 0
IsDynamic (primitive p) = Unit {0}
IsDynamic string = Unit {0}
IsDynamic (user_define name) = Unit {0}
IsDynamic (map k e) = IsDynamic k × IsDynamic e
IsDynamic (list t) = IsDynamic t
IsDynamic (array t) = IsDynamic t
IsDynamic (static_array t count) = ⊥

-- A type whose code C++ accepts for a member. Where the elements of a static array are strings or
-- containers, variables with names such as `x[i]_length` are printed, which C++ refuses.
abbrev pub IsMember : Token → Type 0
IsMember (primitive p) = Unit {0}
IsMember string = Unit {0}
IsMember (user_define name) = Unit {0}
IsMember (map k e) = IsDynamic k × IsDynamic e
IsMember (list t) = IsDynamic t
IsMember (array t) = IsDynamic t
IsMember (static_array (primitive p) count) = Unit {0}
IsMember (static_array string count) = ⊥
IsMember (static_array (user_define name) count) = Unit {0}
IsMember (static_array (map k e) count) = ⊥
IsMember (static_array (list t) count) = ⊥
IsMember (static_array (array t) count) = ⊥
IsMember (static_array (static_array t n) count) = ⊥

-- `m_bPrimitive`
unfoldable pub is_primitive : Token → Bool
is_primitive (primitive p) = true
is_primitive t = false

-- What a generated `Load` comes to: a read beyond the bytes that it is given, `false`, or a value
-- with the bytes behind it.
pub data Read (A : Type 0) : Type 0 where
  beyond : Read A
  refused : Read A
  done : A → List ℕ → Read A

infixl 5 ◌>>=◌
abbrev pub ◌>>=◌ : {A B : Type 0} → Read A → (A → List ℕ → Read B) → Read B
beyond >>= f = beyond
refused >>= f = refused
done a rest >>= f = f a rest

pub record Both (A B : Type 0) : Type 0 where
  pub first : A
  pub second : B

-- A struct and its `_Serializer`, with the constructor.
pub record Codec : Type 1 where
  pub Obj : Type 0
  pub blank : ℕ → Obj
  pub size : Obj → ℕ
  pub store : Obj → List ℕ
  pub load : ℕ → Obj → List ℕ → Read Obj

-- The types that are declared so far, by name
abbrev pub Env : Type 1
Env = List ℕ → Codec

-- TranslateVariableType: the values of the C++ type. A map is the list of its entries in order.
abbrev pub Val : Env → Token → Type 0
Val env (primitive p) = ℕ
Val env string = List ℕ
Val env (user_define name) = (env name).Obj
Val env (map k e) = List (Both (Val env k) (Val env e))
Val env (list t) = List (Val env t)
Val env (array t) = List (Val env t)
Val env (static_array t count) = List (Val env t)

-- The loop of a generated `Store` or `Size` over a container
unfoldable pub store_each : {A : Type 0} → (A → List ℕ) → List A → List ℕ
store_each put [] = []
store_each put (x ∷ xs) = put x ++ store_each put xs

unfoldable pub size_each : {A : Type 0} → (A → ℕ) → List A → ℕ
size_each count [] = 0
size_each count (x ∷ xs) = add64 (count x) (size_each count xs)

-- GenerateVariableStore. `sizeof(int32_t)` bytes of a `size_t` are its low four.
unfoldable pub store : (env : Env) (t : Token) → Val env t → List ℕ
unfolding store_each
store env (primitive p) v = le_bytes (prim_size p) v
store env string v = le_bytes 4 (length v) ++ v
store env (user_define name) v = (env name).store v
store env (map k e) v =
    le_bytes 4 (length v)
    ++ store_each (λ entry. store env k entry.first ++ store env e entry.second) v
store env (list t) v = le_bytes 4 (length v) ++ store_each (store env t) v
store env (array t) v = le_bytes 4 (length v) ++ store_each (store env t) v
store env (static_array t count) v = store_each (store env t) v

-- GenerateVariableSize
unfoldable pub size : (env : Env) (t : Token) → Val env t → ℕ
unfolding size_each
size env (primitive p) v = prim_size p
size env string v = add64 4 (length v)
size env (user_define name) v = (env name).size v
size env (map k e) v =
    add64 4 (size_each (λ entry. add64 (size env k entry.first) (size env e entry.second)) v)
size env (list t) v = add64 4 (size_each (size env t) v)
size env (array t) v = add64 4 (size_each (size env t) v)
size env (static_array t count) v = size_each (size env t) v

-- A variable that is declared: `T name;`
unfoldable pub declared : (env : Env) → ℕ → (t : Token) → Val env t
declared env junk (primitive p) = junk
declared env junk string = []
declared env junk (user_define name) = (env name).blank junk
declared env junk (map k e) = []
declared env junk (list t) = []
declared env junk (array t) = []
declared env junk (static_array t count) = replicate count (declared env junk t)

-- A member behind GenerateVariableInit, which initialises the primitive ones
unfoldable pub initial : (env : Env) → ℕ → (t : Token) → Val env t
unfolding declared
initial env junk (primitive p) = 0
initial env junk string = []
initial env junk (user_define name) = (env name).blank junk
initial env junk (map k e) = []
initial env junk (list t) = []
initial env junk (array t) = []
initial env junk (static_array t count) = replicate count (declared env junk t)

-- `operator <` of the standard containers
unfoldable pub seq_less : {A : Type 0} → (A → A → Bool) → List A → List A → Bool
seq_less lt xs [] = false
seq_less lt [] (y ∷ ys) = true
seq_less lt (x ∷ xs) (y ∷ ys) =
    let rest = seq_less lt xs ys in if lt x y then true else if lt y x then false else rest

unfoldable pub entry_less :
    {A B : Type 0} → (A → A → Bool) → (B → B → Bool) → Both A B → Both A B → Bool
entry_less ka kb x y =
    if ka x.first y.first then true else if ka y.first x.first then false else kb x.second y.second

-- `operator <` of the primitive types, and that which the literal blocks of a file define for a struct
pub record Orders : Type 1 where
  pub prim : Primitive → ℕ → ℕ → Bool
  pub user : List ℕ → (c : Codec) → c.Obj → c.Obj → Bool

-- `std::less` of a key
unfoldable pub less : Orders → (env : Env) (t : Token) → Val env t → Val env t → Bool
unfolding seq_less entry_less
less by env (primitive p) x y = by.prim p x y
less by env string x y = string_lt x y
less by env (user_define name) x y = by.user name (env name) x y
less by env (map k e) x y = seq_less (entry_less (less by env k) (less by env e)) x y
less by env (list t) x y = seq_less (less by env t) x y
less by env (array t) x y = seq_less (less by env t) x y
less by env (static_array t count) x y = seq_less (less by env t) x y

-- `insert` of a std::map, which keeps the entry of a key that is there
unfoldable pub map_insert :
    {A B : Type 0} → (A → A → Bool) → List (Both A B) → Both A B → List (Both A B)
map_insert lt [] new = new ∷ []
map_insert lt (x ∷ m) new =
    let rest = map_insert lt m new in
    if lt new.first x.first then new ∷ (x ∷ m) else if lt x.first new.first then x ∷ rest else x ∷ m

unfoldable pub push_back : {A : Type 0} → List A → A → List A
push_back xs x = xs ++ (x ∷ [])

-- `n` bytes off the front, refused where they are not there
unfoldable pub read_bytes : ℕ → List ℕ → Read (List ℕ)
read_bytes n bs = if ltb (length bs) n then refused else done (take n bs) (drop n bs)

unfoldable pub read_int : ℕ → List ℕ → Read ℕ
unfolding read_bytes
read_int n bs = read_bytes n bs >>= λ b rest. done (of_le b) rest

-- The loop of a generated `Load`: an element is read and added, so often.
unfoldable pub load_each :
    {A B : Type 0} → ℕ → (List ℕ → Read A) → (B → A → B) → B → List ℕ → Read B
load_each zero get add into bs = done into bs
load_each (suc n) get add into bs = get bs >>= λ a rest. load_each n get add (add into a) rest

-- The bytes of an element that is copied with its array, none where the elements are loaded one by
-- one
unfoldable pub copied : Token → ℕ
copied (primitive p) = prim_size p
copied t = 0

-- GenerateVariableLoad into a variable. The `memcpy` of a static array is not guarded.
unfoldable pub load : Orders → (env : Env) → ℕ → (t : Token) → Val env t → List ℕ → Read (Val env t)
unfolding read_bytes read_int load_each map_insert push_back declared less copied
load by env junk (primitive p) old bs = read_int (prim_size p) bs
load by env junk string old bs = read_int 4 bs >>= λ n rest. read_bytes n rest
load by env junk (user_define name) old bs = (env name).load junk old bs
load by env junk (map k e) old bs = read_int 4 bs >>= λ n rest.
    load_each n
      (λ b. load by env junk k (declared env junk k) b >>= λ key b'.
        load by env junk e (declared env junk e) b' >>= λ elmt b''.
        done (record { first = key; second = elmt }) b'')
      (map_insert (less by env k)) old rest
load by env junk (list t) old bs = read_int 4 bs >>= λ n rest.
    load_each n (load by env junk t (declared env junk t)) push_back old rest
load by env junk (array t) old bs = read_int 4 bs >>= λ n rest.
    load_each n (load by env junk t (declared env junk t)) push_back old rest
load by env junk (static_array t count) old bs =
    if is_primitive t && ltb (length bs) (copied t * count)
    then beyond
    else load_each count (load by env junk t (declared env junk t)) push_back [] bs
