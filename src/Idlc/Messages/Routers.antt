-- ===== src/Idlc/Messages/Routers.antt =====
-- Gamnet/Network/Router/MsgRouter.h is what the message compiler makes of
-- Gamnet/Network/Router/MsgRouter.idl.
use gamnet.Prelude.{
  ℕ, ◌≡◌, refl, ap, ◌∙◌, List, [], ◌∷◌, ◌++◌, none, length, append-nil, append_assoc, le_bytes,
}
use gamnet.MsgRouter.{
  string_eq, Address, Msg, set_address_req, set_address_ans, set_address_ntf, send_msg_ntf,
  heart_beat_ntf, store_msg, store_address,
}
use gamnet.Idlc.{
  uint32, uint64, int32, prim_size, primitive, string, user_define, Env, Orders, store,
}
use gamnet.Idlc.Messages.{
  var_decl, enum_elmt, Stmt, message, enum, store_members, nothing, base, bound, compile_stmt,
  parse,
}

abbrev pub cast_type_name : List ℕ
cast_type_name =
    b'R' ∷ b'O' ∷ b'U' ∷ b'T' ∷ b'E' ∷ b'R' ∷ b'_' ∷ b'C' ∷ b'A' ∷ b'S' ∷ b'T' ∷ b'_' ∷ b'T' ∷ b'Y'
    ∷ b'P' ∷ b'E' ∷ []

abbrev pub address_name : List ℕ
address_name = b'A' ∷ b'd' ∷ b'd' ∷ b'r' ∷ b'e' ∷ b's' ∷ b's' ∷ []

abbrev pub req_name : List ℕ
req_name =
    b'M' ∷ b's' ∷ b'g' ∷ b'R' ∷ b'o' ∷ b'u' ∷ b't' ∷ b'e' ∷ b'r' ∷ b'_' ∷ b'S' ∷ b'e' ∷ b't' ∷ b'A'
    ∷ b'd' ∷ b'd' ∷ b'r' ∷ b'e' ∷ b's' ∷ b's' ∷ b'_' ∷ b'R' ∷ b'e' ∷ b'q' ∷ []

abbrev pub ans_name : List ℕ
ans_name =
    b'M' ∷ b's' ∷ b'g' ∷ b'R' ∷ b'o' ∷ b'u' ∷ b't' ∷ b'e' ∷ b'r' ∷ b'_' ∷ b'S' ∷ b'e' ∷ b't' ∷ b'A'
    ∷ b'd' ∷ b'd' ∷ b'r' ∷ b'e' ∷ b's' ∷ b's' ∷ b'_' ∷ b'A' ∷ b'n' ∷ b's' ∷ []

abbrev pub set_ntf_name : List ℕ
set_ntf_name =
    b'M' ∷ b's' ∷ b'g' ∷ b'R' ∷ b'o' ∷ b'u' ∷ b't' ∷ b'e' ∷ b'r' ∷ b'_' ∷ b'S' ∷ b'e' ∷ b't' ∷ b'A'
    ∷ b'd' ∷ b'd' ∷ b'r' ∷ b'e' ∷ b's' ∷ b's' ∷ b'_' ∷ b'N' ∷ b't' ∷ b'f' ∷ []

abbrev pub send_ntf_name : List ℕ
send_ntf_name =
    b'M' ∷ b's' ∷ b'g' ∷ b'R' ∷ b'o' ∷ b'u' ∷ b't' ∷ b'e' ∷ b'r' ∷ b'_' ∷ b'S' ∷ b'e' ∷ b'n' ∷ b'd'
    ∷ b'M' ∷ b's' ∷ b'g' ∷ b'_' ∷ b'N' ∷ b't' ∷ b'f' ∷ []

abbrev pub heart_beat_name : List ℕ
heart_beat_name =
    b'M' ∷ b's' ∷ b'g' ∷ b'R' ∷ b'o' ∷ b'u' ∷ b't' ∷ b'e' ∷ b'r' ∷ b'_' ∷ b'H' ∷ b'e' ∷ b'a' ∷ b'r'
    ∷ b't' ∷ b'B' ∷ b'e' ∷ b'a' ∷ b't' ∷ b'_' ∷ b'N' ∷ b't' ∷ b'f' ∷ []

-- MsgRouter.idl without its literal blocks
unfoldable pub router_idl : List Stmt
router_idl =
    enum cast_type_name (
      enum_elmt (b'U' ∷ b'N' ∷ b'I' ∷ b'_' ∷ b'C' ∷ b'A' ∷ b'S' ∷ b'T' ∷ []) none
      ∷ enum_elmt (b'M' ∷ b'U' ∷ b'L' ∷ b'T' ∷ b'I' ∷ b'_' ∷ b'C' ∷ b'A' ∷ b'S' ∷ b'T' ∷ []) none
      ∷ enum_elmt (b'A' ∷ b'N' ∷ b'Y' ∷ b'_' ∷ b'C' ∷ b'A' ∷ b'S' ∷ b'T' ∷ []) none
      ∷ enum_elmt (b'M' ∷ b'A' ∷ b'X' ∷ []) none
      ∷ [])
    ∷ message address_name none (
        var_decl string
          (b's' ∷ b'e' ∷ b'r' ∷ b'v' ∷ b'i' ∷ b'c' ∷ b'e' ∷ b'_' ∷ b'n' ∷ b'a' ∷ b'm' ∷ b'e' ∷ [])
        ∷ var_decl (user_define cast_type_name)
            (b'c' ∷ b'a' ∷ b's' ∷ b't' ∷ b'_' ∷ b't' ∷ b'y' ∷ b'p' ∷ b'e' ∷ [])
        ∷ var_decl (primitive uint32) (b'i' ∷ b'd' ∷ [])
        ∷ var_decl (primitive uint64) (b'm' ∷ b's' ∷ b'g' ∷ b'_' ∷ b's' ∷ b'e' ∷ b'q' ∷ [])
        ∷ [])
    ∷ message req_name none (
        var_decl (user_define address_name) (
          b'l' ∷ b'o' ∷ b'c' ∷ b'a' ∷ b'l' ∷ b'_' ∷ b'a' ∷ b'd' ∷ b'd' ∷ b'r' ∷ b'e' ∷ b's' ∷ b's'
          ∷ [])
        ∷ [])
    ∷ message ans_name none (
        var_decl (primitive int32)
          (b'e' ∷ b'r' ∷ b'r' ∷ b'o' ∷ b'r' ∷ b'_' ∷ b'c' ∷ b'o' ∷ b'd' ∷ b'e' ∷ [])
        ∷ var_decl (user_define address_name) (
            b'r' ∷ b'e' ∷ b'm' ∷ b'o' ∷ b't' ∷ b'e' ∷ b'_' ∷ b'a' ∷ b'd' ∷ b'd' ∷ b'r' ∷ b'e' ∷ b's'
            ∷ b's' ∷ [])
        ∷ [])
    ∷ message set_ntf_name none []
    ∷ message send_ntf_name none (
        var_decl (primitive uint32) (b'm' ∷ b's' ∷ b'g' ∷ b'_' ∷ b's' ∷ b'e' ∷ b'q' ∷ [])
        ∷ var_decl string (b'b' ∷ b'u' ∷ b'f' ∷ b'f' ∷ b'e' ∷ b'r' ∷ [])
        ∷ [])
    ∷ message heart_beat_name none []
    ∷ []

-- The object of the generated struct
unfoldable pub address_object :
    (by : Orders) (env : Env) → Address → (parse by env router_idl address_name).Obj
unfolding parse router_idl compile_stmt bound string_eq base nothing
address_object by env a = record {
  first = tt;
  second = record {
    first = a.service_name;
    second = record {
      first = a.cast_type;
      second = record { first = a.id; second = record { first = a.msg_seq; second = tt } };
    };
  };
}

unfoldable pub msg_name : Msg → List ℕ
msg_name (set_address_req local_address) = req_name
msg_name (set_address_ans error_code remote_address) = ans_name
msg_name set_address_ntf = set_ntf_name
msg_name (send_msg_ntf seq buffer) = send_ntf_name
msg_name heart_beat_ntf = heart_beat_name

unfoldable pub msg_object :
    (by : Orders) (env : Env) (m : Msg) → (parse by env router_idl (msg_name m)).Obj
unfolding parse router_idl compile_stmt bound string_eq msg_name base nothing address_object
msg_object by env (set_address_req a) = record {
  first = tt;
  second = record { first = address_object by env a; second = tt };
}
msg_object by env (set_address_ans code a) = record {
  first = tt;
  second = record {
    first = code;
    second = record { first = address_object by env a; second = tt };
  };
}
msg_object by env set_address_ntf = record { first = tt; second = tt }
msg_object by env (send_msg_ntf seq buffer) = record {
  first = tt;
  second = record { first = seq; second = record { first = buffer; second = tt } };
}
msg_object by env heart_beat_ntf = record { first = tt; second = tt }

address_shape :
    (n s c k q : List ℕ) → (n ++ s) ++ (c ++ (k ++ (q ++ []))) ≡ n ++ (s ++ (c ++ (k ++ q)))
address_shape n s c k q = simp (append_assoc, append-nil)

store_address-compiled :
    (by : Orders) (env : Env) (a : Address)
    → (parse by env router_idl address_name).store (address_object by env a) ≡ store_address a
unfolding parse router_idl compile_stmt bound string_eq base nothing address_object store_members
    store store_address prim_size
store_address-compiled by env a =
    address_shape (le_bytes 4 (length a.service_name)) a.service_name (le_bytes 4 a.cast_type)
      (le_bytes 4 a.id) (le_bytes 8 a.msg_seq)

-- Each of the five messages is written by MsgRouter.h as the code does that the message compiler
-- makes of MsgRouter.idl.
pub store_msg-compiled :
    (by : Orders) (env : Env) (m : Msg)
    → (parse by env router_idl (msg_name m)).store (msg_object by env m) ≡ store_msg m
unfolding parse router_idl compile_stmt bound string_eq base nothing msg_name msg_object
    store_members store store_msg prim_size
store_msg-compiled by env (set_address_req a) = append-nil _ ∙ store_address-compiled by env a
store_msg-compiled by env (set_address_ans code a) =
    ap (λ l. le_bytes 4 code ++ l) (append-nil _ ∙ store_address-compiled by env a)
store_msg-compiled by env set_address_ntf = refl
store_msg-compiled by env (send_msg_ntf seq buffer) = ap (λ l. le_bytes 4 seq ++ l) (append-nil _)
store_msg-compiled by env heart_beat_ntf = refl
