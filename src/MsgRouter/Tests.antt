-- ===== src/MsgRouter/Tests.antt =====
-- Concrete inputs for the theorems on the router's messages.
use gamnet.Prelude.{◌≡◌, arith, [], ◌∷◌, ◌++◌, some}
use gamnet.MsgRouter.{Address, Msg, set_address_ans, load_msg, store_msg, msg_id, multi_cast}
use gamnet.MsgRouter.Format.{load_msg-store, MsgFits}

abbrev server : Address
server = record { service_name = 104 ∷ 105 ∷ []; cast_type = multi_cast; id = 3; msg_seq = 9 }

abbrev other : Address
other = record server { id = 4 }

abbrev answer : Msg
answer = set_address_ans 0 server

answer-MsgFits : MsgFits answer
answer-MsgFits = (omega arith, omega arith)

load_msg-store_example :
    load_msg (msg_id answer) (store_msg answer ++ (1 ∷ [])) ≡ some (answer, 1 ∷ [])
load_msg-store_example = load_msg-store answer (1 ∷ []) answer-MsgFits
