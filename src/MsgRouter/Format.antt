-- ===== src/MsgRouter/Format.antt =====
-- What is stored is loaded again, whatever follows it.
use gamnet.Prelude.{
  ℕ, inl, inr, ==_iff, ◌+◌, ◌-◌, ◌^◌, ◌≤◌, ◌<◌, drop, ◌≡◌, ◌==◌, refl, sym, ap, ◌∙◌, arith, ltb,
  List, ◌++◌, some, length, replicate, length-replicate, take-append_all, drop-append_all,
  append_assoc, length-append, le→not-ltb, le_bytes, of_le, length-le_bytes, of_le-le_bytes, ok,
  write_at_lem, splice, length-splice, Bool-cases, not-ltb→le,
}
use gamnet.MsgRouter.{
  Address, Msg, set_address_req, set_address_ans, set_address_ntf, send_msg_ntf, heart_beat_ntf,
  msg_id, msg_size, store_msg, store_address, address_size, load_int, load_bytes, load_address,
  load_set_address_req, load_set_address_ans, load_send_msg_ntf, load_msg, store_vector, grown,
  ◌>>=◌,
}

load_int-append :
    (n : ℕ) (xs rest : List ℕ) → n ≡ length xs → load_int n (xs ++ rest) ≡ some (of_le xs, rest)
unfolding load_int
load_int-append n xs rest e = rw (
  e,
  le→not-ltb (length (xs ++ rest)) (length xs) (omega (arith, length-append xs rest)),
  take-append_all xs rest,
  drop-append_all xs rest,
)

load_int-le_bytes :
    (n v : ℕ) (rest : List ℕ) → v < 256 ^ n → load_int n (le_bytes n v ++ rest) ≡ some (v, rest)
load_int-le_bytes n v rest h =
    load_int-append n (le_bytes n v) rest (sym (length-le_bytes n v))
    ∙ ap (λ k. some (k, rest)) (of_le-le_bytes n v h)

load_bytes-append :
    (n : ℕ) (xs rest : List ℕ) → n ≡ length xs → load_bytes n (xs ++ rest) ≡ some (xs, rest)
unfolding load_bytes
load_bytes-append n xs rest e = rw (
  e,
  le→not-ltb (length (xs ++ rest)) (length xs) (omega (arith, length-append xs rest)),
  take-append_all xs rest,
  drop-append_all xs rest,
)

-- The fields are in the range of their C++ types.
pub record Fits (a : Address) : Type 0 where
  pub name_fits : length a.service_name < 2 ^ 32
  pub cast_fits : a.cast_type < 2 ^ 32
  pub id_fits : a.id < 2 ^ 32
  pub seq_fits : a.msg_seq < 2 ^ 64

load_address_chain :
    (n c k s : ℕ) (name b0 b1 b2 b3 b4 b5 : List ℕ)
    → load_int 4 b0 ≡ some (n, b1)
    → load_bytes n b1 ≡ some (name, b2)
    → load_int 4 b2 ≡ some (c, b3)
    → load_int 4 b3 ≡ some (k, b4)
    → load_int 8 b4 ≡ some (s, b5)
    → load_address b0
      ≡ some (record { service_name = name; cast_type = c; id = k; msg_seq = s }, b5)
unfolding load_address
load_address_chain n c k s name b0 b1 b2 b3 b4 b5 p q r t u = rw (p, ◌>>=◌, q, r, t, u)

-- An address is loaded as it was stored.
pub load_address-store :
    (a : Address) (rest : List ℕ) → Fits a → load_address (store_address a ++ rest) ≡ some (a, rest)
load_address-store a rest f =
    let tail3 = le_bytes 8 a.msg_seq ++ rest in
    let tail2 = le_bytes 4 a.id ++ tail3 in
    let tail1 = le_bytes 4 a.cast_type ++ tail2 in
    ap load_address shape
    ∙ load_address_chain (length a.service_name) a.cast_type a.id a.msg_seq a.service_name
        (le_bytes 4 (length a.service_name) ++ (a.service_name ++ tail1)) (a.service_name ++ tail1)
        tail1 tail2 tail3 rest
        (load_int-le_bytes 4 (length a.service_name) (a.service_name ++ tail1) f.name_fits)
        (load_bytes-append (length a.service_name) a.service_name tail1 refl)
        (load_int-le_bytes 4 a.cast_type tail2 f.cast_fits)
        (load_int-le_bytes 4 a.id tail3 f.id_fits) (load_int-le_bytes 8 a.msg_seq rest f.seq_fits)
  where
    shape :
        store_address a ++ rest
        ≡ le_bytes 4 (length a.service_name)
          ++ (a.service_name
              ++ (le_bytes 4 a.cast_type ++ (le_bytes 4 a.id ++ (le_bytes 8 a.msg_seq ++ rest))))
    shape =
        unfold store_address in
        ap (λ l. le_bytes 4 (length a.service_name) ++ l)
          (append_assoc a.service_name
            (le_bytes 4 a.cast_type ++ (le_bytes 4 a.id ++ le_bytes 8 a.msg_seq)) rest)

-- The fields of a message are in the range of their C++ types.
abbrev pub MsgFits : Msg → Type 0
MsgFits (set_address_req local_address) = Fits local_address
MsgFits (set_address_ans error_code remote_address) = (error_code < 2 ^ 32) × Fits remote_address
MsgFits set_address_ntf = Unit {0}
MsgFits (send_msg_ntf seq buffer) = (seq < 2 ^ 32) × (length buffer < 2 ^ 32)
MsgFits heart_beat_ntf = Unit {0}

-- Each of the five messages, stored, is loaded again by the `Load` of its id, and the bytes behind
-- it are left.
pub load_msg-store :
    (m : Msg) (rest : List ℕ)
    → MsgFits m
    → load_msg (msg_id m) (store_msg m ++ rest) ≡ some (m, rest)
unfolding load_msg msg_id store_msg load_set_address_req load_set_address_ans load_send_msg_ntf
load_msg-store (set_address_req a) rest f = rw (load_address-store a rest f, ◌>>=◌)
load_msg-store (set_address_ans code a) rest (c, f) =
    rw (load_int-le_bytes 4 code (store_address a ++ rest) c, ◌>>=◌, load_address-store a rest f)
load_msg-store set_address_ntf rest f = refl
load_msg-store (send_msg_ntf seq buffer) rest (c, l) = rw (
  load_int-le_bytes 4 seq (le_bytes 4 (length buffer) ++ (buffer ++ rest)) c,
  ◌>>=◌,
  load_int-le_bytes 4 (length buffer) (buffer ++ rest) l,
  load_bytes-append (length buffer) buffer rest refl,
)
load_msg-store heart_beat_ntf rest f = refl

length-store_address : (a : Address) → length (store_address a) ≡ address_size a
unfolding store_address address_size
length-store_address a = omega (
  arith,
  length-append a.service_name
      (le_bytes 4 a.cast_type ++ (le_bytes 4 a.id ++ le_bytes 8 a.msg_seq)),
)

-- `Size` counts exactly the bytes that `Store` writes.
pub length-store_msg : (m : Msg) → length (store_msg m) ≡ msg_size m
unfolding store_msg msg_size
length-store_msg (set_address_req a) = length-store_address a
length-store_msg (set_address_ans code a) = omega (arith, length-store_address a)
length-store_msg set_address_ntf = refl
length-store_msg (send_msg_ntf seq buffer) = omega arith
length-store_msg heart_beat_ntf = refl

length-grown : (buf : List ℕ) (n : ℕ) → n ≤ length (grown buf n)
unfolding grown
length-grown buf n = elim (Bool-cases (ltb (length buf) n)) [
  | inl short ↦ rw short (
      omega (
        arith,
        length-append buf (replicate (n - length buf) 0),
        length-replicate {A = ℕ} (n - length buf) 0,
      ))
  | inr long ↦ rw long (not-ltb→le (length buf) n long)
]

-- What is stored into a vector stands in front of what the vector had behind it.
pub store_vector_lem :
    (buf image : List ℕ)
    → 0 < length image
    → (rest : List ℕ) × (store_vector buf (length image) image ≡ ok (image ++ rest))
unfolding store_vector
store_vector_lem buf image h = elim (Bool-cases (length image == 0)) [
  | inl empty ↦ absurd (omega (arith, (==_iff (length image) 0).0 empty))
  | inr full ↦ (
    drop (0 + length image) (grown buf (length image)),
    rw full (
        write_at_lem (grown buf (length image)) 0 image
          (omega (arith, length-grown buf (length image)))),
  )
]

-- `Store` into a vector of any size stays inside it.
pub store_vector_inside :
    (buf : List ℕ) (m : Msg)
    → (out : List ℕ) × (store_vector buf (msg_size m) (store_msg m) ≡ ok out)
      × (msg_size m ≤ length out)
unfolding store_vector
store_vector_inside buf m = elim (Bool-cases (msg_size m == 0)) [
  | inl empty ↦ (buf, rw empty, omega (arith, (==_iff (msg_size m) 0).0 empty))
  | inr full ↦
      let fits : 0 + length (store_msg m) ≤ length (grown buf (msg_size m)) =
        omega (arith, length-store_msg m, length-grown buf (msg_size m)) in
      (
        splice (grown buf (msg_size m)) 0 (store_msg m),
        rw full (write_at_lem (grown buf (msg_size m)) 0 (store_msg m) fits),
        omega (
          arith,
          length-splice (grown buf (msg_size m)) 0 (store_msg m) fits,
          length-grown buf (msg_size m),
        ),
      )
]
