-- ===== src/MsgRouter.antt =====
-- Gamnet/Network/Router/MsgRouter.h: the router's addresses and messages, and their wire format.
-- A string is the list of its bytes; integers are little-endian bit patterns. `Load` works on the
-- `nSize` bytes behind the pointer and gives those that it has not taken, `none` for false.
pub mod Format
pub mod Order
mod Tests
use gamnet.Prelude.{
  ℕ, ◌+◌, ◌-◌, ◌^◌, ◌%◌, ◌==◌, ltb, if◌then◌else◌, Bool, true, false, not, ◌&&◌, ◌||◌, List, [],
  ◌∷◌, ◌++◌, Option, none, some, length, take, drop, replicate, Outcome, ok, write_at, le_bytes,
  of_le,
}

-- ROUTER_CAST_TYPE::TYPE. A loaded value can be any 32-bit pattern.
abbrev pub uni_cast : ℕ
uni_cast = 0

abbrev pub multi_cast : ℕ
multi_cast = 1

abbrev pub any_cast : ℕ
any_cast = 2

abbrev pub max_cast : ℕ
max_cast = 3

pub record Address : Type 0 where
  pub service_name : List ℕ
  pub cast_type : ℕ
  pub id : ℕ
  pub msg_seq : ℕ

-- Address::Address()
abbrev pub no_address : Address
no_address = record { service_name = []; cast_type = uni_cast; id = 0; msg_seq = 0 }

-- `operator <` of std::string: bytes as unsigned char, the shorter of two prefixes first.
unfoldable pub string_lt : List ℕ → List ℕ → Bool
string_lt xs [] = false
string_lt [] (y ∷ ys) = true
string_lt (x ∷ xs) (y ∷ ys) =
    let rest = string_lt xs ys in if ltb x y then true else if x == y then rest else false

unfoldable pub string_eq : List ℕ → List ℕ → Bool
string_eq [] [] = true
string_eq [] (y ∷ ys) = false
string_eq (x ∷ xs) [] = false
string_eq (x ∷ xs) (y ∷ ys) = x == y && string_eq xs ys

-- `(int)a < (int)b` of two 32-bit patterns.
abbrev pub int_lt : ℕ → ℕ → Bool
int_lt a b = ltb ((a + 2 ^ 31) % 2 ^ 32) ((b + 2 ^ 31) % 2 ^ 32)

-- bool operator < (const Address& lhs, const Address& rhs)
unfoldable pub address_lt : Address → Address → Bool
address_lt lhs rhs =
    if ltb lhs.id rhs.id
    then true
    else if lhs.id == rhs.id
    then (if string_lt lhs.service_name rhs.service_name
        then true
        else if string_eq lhs.service_name rhs.service_name
        then int_lt lhs.cast_type rhs.cast_type
        else false)
    else false

-- bool operator == and operator !=
unfoldable pub address_eq : Address → Address → Bool
address_eq lhs rhs =
    if not (string_eq lhs.service_name rhs.service_name)
      || (not (lhs.cast_type == rhs.cast_type) || not (lhs.id == rhs.id))
    then false
    else true

unfoldable pub address_ne : Address → Address → Bool
address_ne lhs rhs =
    if not (string_eq lhs.service_name rhs.service_name)
      || (not (lhs.cast_type == rhs.cast_type) || not (lhs.id == rhs.id))
    then true
    else false

-- Address::Size and Address::Store(char**), with the serializers of its fields. The length goes out
-- as the low four bytes of a `size_t`.
unfoldable pub address_size : Address → ℕ
address_size a = 4 + length a.service_name + 4 + 4 + 8

unfoldable pub store_address : Address → List ℕ
store_address a =
    le_bytes 4 (length a.service_name)
    ++ (a.service_name ++ (le_bytes 4 a.cast_type ++ (le_bytes 4 a.id ++ le_bytes 8 a.msg_seq)))

-- A vector grown to `n` bytes, if it is shorter.
grown : List ℕ → ℕ → List ℕ
grown buf n = if ltb (length buf) n then buf ++ replicate (n - length buf) 0 else buf

-- Store(std::vector<char>&), the same text in every message: `n` is its `Size()` and `image` what
-- its `Store(char**)` writes.
pub store_vector : List ℕ → ℕ → List ℕ → Outcome (List ℕ)
store_vector buf n image = if n == 0 then ok buf else write_at (grown buf n) 0 image

infixl 5 ◌>>=◌
abbrev pub ◌>>=◌ {ℓ κ} : {A : Type ℓ} {B : Type κ} → Option A → (A → Option B) → Option B
none >>= f = none
some a >>= f = f a

-- One integer of `n` bytes, and one run of `n` bytes, off the front.
unfoldable pub load_int : ℕ → List ℕ → Option (ℕ × List ℕ)
load_int n bs = if ltb (length bs) n then none else some (of_le (take n bs), drop n bs)

unfoldable pub load_bytes : ℕ → List ℕ → Option (List ℕ × List ℕ)
load_bytes n bs = if ltb (length bs) n then none else some (take n bs, drop n bs)

-- Address::Load(const char**, size_t&), with the serializers of its fields.
unfoldable pub load_address : List ℕ → Option (Address × List ℕ)
load_address bs = do
  len ← load_int 4 bs
  name ← load_bytes len.0 len.1
  cast ← load_int 4 name.1
  key ← load_int 4 cast.1
  seq ← load_int 8 key.1
  some (record { service_name = name.0; cast_type = cast.0; id = key.0; msg_seq = seq.0 }, seq.1)

-- Load(const std::vector<char>&): an empty vector leaves the message as it is and is a success.
unfoldable pub load_vector {ℓ} :
    {A : Type ℓ} → (List ℕ → Option (A × List ℕ)) → A → List ℕ → Option A
load_vector load a [] = some a
load_vector load a (b ∷ bs) = load (b ∷ bs) >>= λ r. some r.0

-- The messages.
pub data Msg : Type 0 where
  set_address_req : Address → Msg
  set_address_ans : ℕ → Address → Msg
  set_address_ntf : Msg
  send_msg_ntf : ℕ → List ℕ → Msg
  heart_beat_ntf : Msg

-- MSG_ID
unfoldable pub msg_id : Msg → ℕ
msg_id (set_address_req local_address) = 1
msg_id (set_address_ans error_code remote_address) = 2
msg_id set_address_ntf = 3
msg_id (send_msg_ntf seq buffer) = 4
msg_id heart_beat_ntf = 5

unfoldable pub msg_size : Msg → ℕ
msg_size (set_address_req local_address) = address_size local_address
msg_size (set_address_ans error_code remote_address) = 4 + address_size remote_address
msg_size set_address_ntf = 0
msg_size (send_msg_ntf seq buffer) = 4 + 4 + length buffer
msg_size heart_beat_ntf = 0

unfoldable pub store_msg : Msg → List ℕ
store_msg (set_address_req local_address) = store_address local_address
store_msg (set_address_ans error_code remote_address) =
    le_bytes 4 error_code ++ store_address remote_address
store_msg set_address_ntf = []
store_msg (send_msg_ntf seq buffer) = le_bytes 4 seq ++ (le_bytes 4 (length buffer) ++ buffer)
store_msg heart_beat_ntf = []

unfoldable pub load_set_address_req : List ℕ → Option (Msg × List ℕ)
load_set_address_req bs = do r ← load_address bs; some (set_address_req r.0, r.1)

unfoldable pub load_set_address_ans : List ℕ → Option (Msg × List ℕ)
load_set_address_ans bs = do
  code ← load_int 4 bs
  r ← load_address code.1
  some (set_address_ans code.0 r.0, r.1)

unfoldable pub load_send_msg_ntf : List ℕ → Option (Msg × List ℕ)
load_send_msg_ntf bs = do
  seq ← load_int 4 bs
  len ← load_int 4 seq.1
  body ← load_bytes len.0 len.1
  some (send_msg_ntf seq.0 body.0, body.1)

-- The `Load` of the message with this id; the two empty messages take nothing.
unfoldable pub load_msg : ℕ → List ℕ → Option (Msg × List ℕ)
load_msg i bs =
    if i == 1
    then load_set_address_req bs
    else if i == 2
    then load_set_address_ans bs
    else if i == 3
    then some (set_address_ntf, bs)
    else if i == 4
    then load_send_msg_ntf bs
    else if i == 5
    then some (heart_beat_ntf, bs)
    else none
