-- ===== src/Idlc/Csharp/Tests.antt =====
-- A concrete file for the theorem on C# and C++: a struct in a list and in a map.
use gamnet.Prelude.{ℕ, ltb, false, List, [], ◌∷◌, none, some}
use gamnet.MsgRouter.{string_eq}
use gamnet.Idlc.Laws.{IsSound}
use gamnet.Idlc.Messages.Declared.{enum_sound}
use gamnet.Idlc.{int16, int32, primitive, string, user_define, map, list, Env, Orders}
use gamnet.Idlc.Messages.{var_decl, Stmt, message, compile_enum, parse, compile_stmt, bound, base}
use gamnet.Idlc.Csharp.{Classes, Runtime, enum_class}

abbrev orders : Orders
orders = record { prim = λ p. ltb; user = λ name c x y. false }

-- Every text is its own, and no two keys are the same.
abbrev runtime : Runtime
runtime = record { get_string = λ s. s; equal = λ env t x y. false }

abbrev enums : Env
enums = λ name. compile_enum []

abbrev enum_classes : Classes enums
enum_classes = λ name. enum_class []

abbrev item_name : List ℕ
item_name = b'I' ∷ []

abbrev bag_name : List ℕ
bag_name = b'B' ∷ []

abbrev pack : List Stmt
pack =
    message item_name none
      (var_decl (primitive int16) (b'i' ∷ []) ∷ var_decl string (b's' ∷ []) ∷ [])
    ∷ message bag_name (some item_name) (
        var_decl (list (user_define item_name)) (b'l' ∷ [])
        ∷ var_decl (map string (primitive int32)) (b'm' ∷ [])
        ∷ [])
    ∷ []

item : ℕ → (parse orders enums pack item_name).Obj
unfolding parse compile_stmt bound string_eq base
item i = record {
  first = tt;
  second = record { first = i; second = record { first = 65 ∷ []; second = tt } };
}

bag : (parse orders enums pack bag_name).Obj
unfolding parse compile_stmt bound string_eq base item
bag = record {
  first = item 1;
  second = record {
    first = item 2 ∷ item 3 ∷ [];
    second = record {
      first = record { first = 65 ∷ []; second = 5 } ∷ record { first = 66 ∷ []; second = 6 } ∷ [];
      second = tt;
    };
  };
}

enums_sound : (name : List ℕ) → IsSound (enums name)
enums_sound name = enum_sound []
