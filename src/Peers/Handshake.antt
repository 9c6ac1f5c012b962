-- ===== src/Peers/Handshake.antt =====
-- Two servers that exchange their addresses.
use gamnet.Prelude.{
  ℕ, ◌≡◌, ◌==◌, refl, sym, ap, ◌∙◌, arith, if◌then◌else◌, true, false, List, [], ◌∷◌, append-nil,
  some,
}
use gamnet.MsgRouter.{
  Address, Msg, set_address_req, set_address_ans, set_address_ntf, address_eq, load_msg, store_msg,
  no_address, msg_id,
}
use gamnet.MsgRouter.Format.{Fits, MsgFits, load_msg-store}
use gamnet.RouterCaster.{Router, has_address, find_session}
use gamnet.RouterCaster.Tables.{IsFree, register-Registered, eq_flip, multi_members, any_group}
use gamnet.Peers.{
  Server, Handled, on_router_connect, on_router_accept, on_error, addressed, unawaited, on_connect,
  recv_set_address_req, recv_set_address_ans, recv_set_address_ntf, to_request, to_answer,
  to_success, refusal, success, invalid_address_error,
}

-- The body of the first message that is sent.
abbrev pub body : List Msg → List ℕ
body [] = []
body (m ∷ more) = store_msg m

-- The four steps of a handshake: session `i` of `a` is connected to session `j` of `b`.
unfoldable pub asked : Server → ℕ → Handled
asked a i = on_connect a i

unfoldable pub replied : Server → ℕ → Server → ℕ → Handled
replied a i b j = recv_set_address_req b j (body (asked a i).sends)

unfoldable pub joined : Server → ℕ → Server → ℕ → Handled
joined a i b j = recv_set_address_ans (asked a i).server i (body (replied a i b j).sends)

unfoldable pub accepted : Server → ℕ → Server → ℕ → Handled
accepted a i b j = recv_set_address_ntf (replied a i b j).server j

-- A session that is in none of the groups of a list.
abbrev pub Absent : ℕ → List ℕ → Type 0
Absent i [] = Unit {0}
Absent i (j ∷ l) = ((i == j) ≡ false) × Absent i l

same_address : (r : Router) (i j : ℕ) → ((unawaited r i).peers j).address ≡ (r.peers j).address
unfolding unawaited
same_address r i j = ground arith

unawaited_lem :
    (r : Router) (i : ℕ) (a : Address) (l : List ℕ)
    → has_address (unawaited r i).peers a l ≡ has_address r.peers a l
unawaited_lem r i a [] = refl
unawaited_lem r i a (j ∷ l) = rw (unawaited_lem r i a l, same_address r i j) refl

addressed_lem :
    (r : Router) (i : ℕ) (x a : Address) (l : List ℕ)
    → Absent i l
    → has_address (addressed r i x).peers a l ≡ has_address r.peers a l
unfolding addressed
addressed_lem r i x a [] h = refl
addressed_lem r i x a (j ∷ l) (other, h) = rw (addressed_lem r i x a l h, other) refl

pub load_own : (m : Msg) → MsgFits m → load_msg (msg_id m) (store_msg m) ≡ some (m, [])
load_own m f = ap (load_msg (msg_id m)) (sym (append-nil (store_msg m))) ∙ load_msg-store m [] f

-- The parameters of a handshake between two servers, of which neither knows the other.
pub record Strangers (a b : Server) (i j : ℕ) : Type 0 where
  pub a_fits : Fits a.local_address
  pub b_fits : Fits b.local_address
  pub different : address_eq a.local_address b.local_address ≡ false
  pub a_free : IsFree a.router b.local_address
  pub b_free : IsFree b.router a.local_address
  pub no_multi : Absent j (multi_members b.router a.local_address.service_name)
  pub no_any : Absent j (any_group b.router a.local_address.service_name).members

asked-IsFree : (r : Router) (i : ℕ) (x : Address) → IsFree r x → IsFree (unawaited r i) x
unfolding unawaited find_session
asked-IsFree r i x f = record {
  no_uni = f.no_uni;
  no_multi = unawaited_lem r i x (multi_members r x.service_name) ∙ f.no_multi;
  no_any = unawaited_lem r i x (any_group r x.service_name).members ∙ f.no_any;
}

named-IsFree :
    (r : Router) (j : ℕ) (x : Address)
    → IsFree r x
    → Absent j (multi_members r x.service_name)
    → Absent j (any_group r x.service_name).members
    → IsFree (addressed r j x) x
unfolding addressed find_session
named-IsFree r j x f m n = record {
  no_uni = f.no_uni;
  no_multi = addressed_lem r j x x (multi_members r x.service_name) m ∙ f.no_multi;
  no_any = addressed_lem r j x x (any_group r x.service_name).members n ∙ f.no_any;
}

replied_lem :
    (a b : Server) (i j : ℕ)
    → Fits a.local_address
    → address_eq b.local_address a.local_address ≡ false
    → replied a i b j ≡ record {
      server = record b { router = addressed b.router j a.local_address };
      sends = set_address_ans success b.local_address ∷ [];
      events = [];
    }
unfolding replied asked on_connect recv_set_address_req to_request msg_id
replied_lem a b i j f e =
    let load : load_msg 1 (store_msg (set_address_req a.local_address))
        ≡ some (set_address_req a.local_address, []) =
      load_own (set_address_req a.local_address) f in
    rw (load, e) refl

joined_lem :
    (a b : Server) (i j : ℕ)
    → Fits a.local_address
    → Fits b.local_address
    → address_eq b.local_address a.local_address ≡ false
    → joined a i b j ≡ to_success (record a { router = unawaited a.router i }) i b.local_address
unfolding joined asked on_connect recv_set_address_ans to_answer msg_id
joined_lem a b i j f g e =
    let load : load_msg 2 (store_msg (set_address_ans success b.local_address))
        ≡ some (set_address_ans success b.local_address, []) =
      load_own (set_address_ans success b.local_address) (omega arith, g) in
    rw (replied_lem a b i j f e, load) refl

-- What a server knows after a handshake that it did not know before: the session of one address.
pub record Knows (before after : Server) (x : Address) (i : ℕ) (y : Address) : Type 0 where
  pub finds :
      find_session after.router y
      ≡ (if address_eq x y then some i else find_session before.router y)
  pub named : (after.router.peers i).address ≡ x
  pub local : after.local_address ≡ before.local_address

joined-Knows :
    (a : Server) (i : ℕ) (x y : Address)
    → IsFree (unawaited a.router i) x
    → address_eq a.local_address x ≡ false
    → let h = to_success (record a { router = unawaited a.router i }) i x in
      Knows a h.server x i y
      × (h.sends ≡ set_address_ntf ∷ [])
      × (h.events ≡ on_router_connect x ∷ [])
unfolding to_success unawaited find_session
joined-Knows a i x y f e =
    let r = register-Registered (unawaited a.router i) x i y [] f in
    rw (to_success, e)
      (
        record { finds = r.finds; named = r.named; local = refl },
        refl,
        ap (λ z. on_router_connect z ∷ []) r.named,
      )

-- Two servers that do not know each other, after the request, the answer and the note of a
-- connection: each finds the other's address at its own session, finds every other address where
-- it did, and tells its user of the other's address once.
pub handshake-Knows :
    (a b : Server) (i j : ℕ) (y : Address)
    → Strangers a b i j
    → let h = joined a i b j in
      let g = accepted a i b j in
      Knows a h.server b.local_address i y
      × Knows b g.server a.local_address j y
      × (h.sends ≡ set_address_ntf ∷ [])
      × (h.events ≡ on_router_connect b.local_address ∷ [])
      × (g.events ≡ on_router_accept a.local_address ∷ [])
unfolding accepted recv_set_address_ntf find_session addressed
handshake-Knows a b i j y s =
    let e : address_eq b.local_address a.local_address ≡ false =
      eq_flip b.local_address a.local_address ∙ s.different in
    let (ka, sends, events) =
      joined-Knows a i b.local_address y (asked-IsFree a.router i b.local_address s.a_free)
        s.different in
    let own : ((addressed b.router j a.local_address).peers j).address ≡ a.local_address =
      ground arith in
    let r =
      register-Registered (addressed b.router j a.local_address) a.local_address j y []
        (named-IsFree b.router j a.local_address s.b_free s.no_multi s.no_any) in
    rw (joined_lem a b i j s.a_fits s.b_fits e, replied_lem a b i j s.a_fits e, own)
      (
        ka,
        record { finds = r.finds; named = r.named; local = refl },
        sends,
        events,
        ap (λ z. on_router_accept z ∷ []) r.named,
      )

-- A server that is asked for its own address refuses, and the one that asks is told of the error on
-- its link: neither has changed what an address finds.
pub same_address_refused :
    (a b : Server) (i j : ℕ) (y : Address)
    → Fits a.local_address
    → address_eq b.local_address a.local_address ≡ true
    → let h = joined a i b j in
      (replied a i b j ≡ record {
        server = b;
        sends = set_address_ans invalid_address_error no_address ∷ [];
        events = [];
      })
      × (h.events ≡ on_error invalid_address_error ∷ [])
      × (h.sends ≡ [])
      × (find_session h.server.router y ≡ find_session a.router y)
unfolding joined replied asked on_connect recv_set_address_req recv_set_address_ans to_request
    to_answer refusal unawaited find_session msg_id
same_address_refused a b i j y f e =
    let load : load_msg 1 (store_msg (set_address_req a.local_address))
        ≡ some (set_address_req a.local_address, []) =
      load_own (set_address_req a.local_address) f in
    let answer : load_msg 2 (store_msg (set_address_ans invalid_address_error no_address))
        ≡ some (set_address_ans invalid_address_error no_address, []) =
      load_own (set_address_ans invalid_address_error no_address) (
        omega arith,
        record {
          name_fits = omega arith;
          cast_fits = omega arith;
          id_fits = omega arith;
          seq_fits = omega arith;
        },
      ) in
    rw (load, e, answer) (refl, refl, refl, refl)
