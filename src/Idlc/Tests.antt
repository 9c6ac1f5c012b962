-- ===== src/Idlc/Tests.antt =====
-- Concrete inputs for the theorems on the message compiler: a file with a struct, a typedef, an enum
-- and a message that has the struct as its parent.
use gamnet.Prelude.{
  take, ℕ, ◌^◌, ◌<◌, ◌≡◌, refl, arith, ltb, false, List, [], ◌∷◌, ◌++◌, none, some, length,
}
use gamnet.MsgRouter.{store_msg, string_lt, string_eq, string_lt, Msg, set_address_ans}
use gamnet.Idlc.{
  refused, store_each, less, prim_size, map_insert, Token, int16, ubyte, primitive, string,
  user_define, map, list, array, static_array, done, Env, Val, Orders, store, load, declared,
}
use gamnet.Idlc.Laws.{Fits, IsSound, Fits, merge, load_declared-store}
use gamnet.Idlc.Bounds.{Cuts, read_int-Cuts, load_cut}
use gamnet.Idlc.Messages.{
  Elmt, var_decl, enum_elmt, Stmt, typedef, message, enum, compile_enum, compile_stmt, bound, base,
  parse,
}
use gamnet.Idlc.Messages.Declared.{enum_sound}
use gamnet.Idlc.Messages.Routers.{router_idl, msg_name, msg_object, store_msg-compiled}

abbrev orders : Orders
orders = record { prim = λ p. ltb; user = λ name c x y. false }

abbrev enums : Env
enums = λ name. compile_enum []

enums_sound : (name : List ℕ) → IsSound (enums name)
enums_sound name = enum_sound []

-- map<string, list<int16>>
abbrev shelf : Token
shelf = map string (list (primitive int16))

abbrev old_shelf : Val enums shelf
old_shelf = record { first = 66 ∷ []; second = 7 ∷ [] } ∷ []

abbrev new_shelf : Val enums shelf
new_shelf =
    record { first = 65 ∷ []; second = 1 ∷ 2 ∷ [] } ∷ record { first = 66 ∷ []; second = [] } ∷ []

new_shelf-Fits : Fits orders enums enums_sound shelf new_shelf
unfolding less string_lt prim_size
new_shelf-Fits = (
  omega arith,
  (
    (omega arith, (omega arith, (omega arith, (omega arith, tt)))),
    ((omega arith, (omega arith, tt)), tt),
  ),
  (tt, ((refl, refl, tt), tt)),
)

load_declared-store_example :
    load orders enums 9 shelf (declared enums 9 shelf) (store enums shelf new_shelf ++ (5 ∷ []))
    ≡ done new_shelf (5 ∷ [])
load_declared-store_example =
    load_declared-store orders enums enums_sound 9 shelf new_shelf (5 ∷ []) (tt, tt) new_shelf-Fits

-- The old list of a key stays.
merged :
    merge orders enums enums_sound shelf old_shelf new_shelf
    ≡ record { first = 65 ∷ []; second = 1 ∷ 2 ∷ [] }
      ∷ record { first = 66 ∷ []; second = 7 ∷ [] }
      ∷ []
unfolding map_insert less string_lt
merged = refl

abbrev item_name : List ℕ
item_name = b'I' ∷ []

abbrev message_name : List ℕ
message_name = b'M' ∷ []

abbrev pack : List Stmt
pack =
    enum (b'K' ∷ []) (Elmt.comment ∷ enum_elmt (b'A' ∷ []) (some 3) ∷ [])
    ∷ message item_name none
        (var_decl (primitive int16) (b'i' ∷ []) ∷ var_decl (list string) (b't' ∷ []) ∷ [])
    ∷ typedef (array (user_define item_name)) (b'L' ∷ [])
    ∷ message message_name (some item_name) (
        var_decl (user_define (b'L' ∷ [])) (b'l' ∷ [])
        ∷ var_decl (static_array (primitive ubyte) 2) (b'p' ∷ [])
        ∷ var_decl (user_define (b'K' ∷ [])) (b'k' ∷ [])
        ∷ [])
    ∷ []

item : ℕ → (parse orders enums pack item_name).Obj
unfolding parse compile_stmt bound string_eq base
item i = record {
  first = tt;
  second = record { first = i; second = record { first = (65 ∷ []) ∷ []; second = tt } };
}

sent : (parse orders enums pack message_name).Obj
unfolding parse compile_stmt bound string_eq base item
sent = record {
  first = item 1;
  second = record {
    first = item 2 ∷ item 3 ∷ [];
    second = record { first = 8 ∷ 9 ∷ []; second = record { first = 3; second = tt } };
  };
}

abbrev answer : Msg
answer = set_address_ans 80 (record { service_name = 65 ∷ []; cast_type = 2; id = 7; msg_seq = 1 })

store_msg-compiled_example :
    (parse orders enums router_idl (msg_name answer)).store (msg_object orders enums answer)
    ≡ store_msg answer
store_msg-compiled_example = store_msg-compiled orders enums answer

length-shelf : length (store enums shelf new_shelf) ≡ 26
unfolding store store_each prim_size
length-shelf = refl

load_cut_example :
    load orders enums 9 shelf old_shelf (take 20 (store enums shelf new_shelf)) ≡ refused
unfolding enums_sound enum_sound
load_cut_example =
    load_cut orders enums enums_sound enum_cut 9 shelf old_shelf new_shelf 20 (tt, tt)
      new_shelf-Fits (omega (arith, length-shelf))
  where
    enum_cut :
        (name : List ℕ) (junk : ℕ) (old v : ℕ)
        → v < 256 ^ 4
        → Cuts ((enums name).load junk old) ((enums name).store v)
    enum_cut name junk old v h = read_int-Cuts 4 v
