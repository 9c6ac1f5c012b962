-- ===== src/Peers/Closing.antt =====
-- A connection that closes, and what it takes with it.
use gamnet.Prelude.{
  ℕ, ◌≡◌, ◌==◌, refl, ◌∙◌, arith, true, false, List, [], ◌∷◌, none, some, ok, length,
}
use gamnet.MsgRouter.{Address, set_address_req, address_eq, load_msg, store_msg, msg_id}
use gamnet.MsgRouter.Format.{Fits}
use gamnet.MsgRouter.Order.{address_eq_iff}
use gamnet.RouterCaster.{
  Router, Group, at_name, matches, uni_register, register, unregister, find_session,
}
use gamnet.RouterCaster.Tables.{unregister-Unregistered}
use gamnet.Peers.{
  on_router_close, Server, Handled, addressed, unawaited, to_request, recv_set_address_req,
  recv_set_address_ntf, left, on_close,
}
use gamnet.Peers.Handshake.{Absent, load_own}

matches_lem :
    (r : Router) (k : ℕ) (x : Address) (n : ℕ) (l : List ℕ)
    → Absent k l
    → matches (addressed r k x).peers n l ≡ matches r.peers n l
unfolding addressed
matches_lem r k x n [] h = refl
matches_lem r k x n (j ∷ l) (other, h) = rw (matches_lem r k x n l h, other) refl

uni_taken :
    (r : Router) (x : Address) (k j : ℕ)
    → find_session r x ≡ some j
    → uni_register r x k ≡ (r, false)
unfolding uni_register find_session
uni_taken r x k j e = rw (uni_register, e) refl

taken : (r : Router) (x : Address) (k j : ℕ) → find_session r x ≡ some j → (register r x k).0 ≡ r
unfolding register
taken r x k j e = rw (uni_taken r x k j e) refl

-- The session `j` has the address `x`, and is the one of its id in the groups of its name, in which
-- `k` is not.
pub record Serves (r : Router) (x : Address) (j k : ℕ) (l : List ℕ) (g : Group) : Type 0 where
  pub finds : find_session r x ≡ some j
  pub multi : at_name r.multi x.service_name ≡ some l
  pub any : at_name r.any x.service_name ≡ some g
  pub one_multi : matches r.peers x.id l ≡ 1
  pub one_any : matches r.peers x.id g.members ≡ 1
  pub no_multi : Absent k l
  pub no_any : Absent k g.members

addressed-Serves :
    (r : Router) (x : Address) (j k : ℕ) (l : List ℕ) (g : Group)
    → Serves r x j k l g
    → Serves (addressed r k x) x j k l g
unfolding addressed find_session
addressed-Serves r x j k l g s = record {
  finds = s.finds;
  multi = s.multi;
  any = s.any;
  one_multi = matches_lem r k x x.id l s.no_multi ∙ s.one_multi;
  one_any = matches_lem r k x x.id g.members s.no_any ∙ s.one_any;
  no_multi = s.no_multi;
  no_any = s.no_any;
}

-- The server behind the request of `k`.
renamed : Server → Address → ℕ → Server
unfolding addressed
renamed b x k = record b { router = addressed b.router k x }

own_address : (b : Server) (x : Address) (k : ℕ) → ((addressed b.router k x).peers k).address ≡ x
unfolding addressed
own_address b x k = ground arith

asks_as :
    (b : Server) (x : Address) (k : ℕ)
    → Fits x
    → address_eq b.local_address x ≡ false
    → (recv_set_address_req b k (store_msg (set_address_req x))).server ≡ renamed b x k
unfolding recv_set_address_req to_request msg_id renamed
asks_as b x k f e =
    let load : load_msg 1 (store_msg (set_address_req x)) ≡ some (set_address_req x, []) =
      load_own (set_address_req x) f in
    rw (load, e) refl

stays :
    (b : Server) (x : Address) (j k : ℕ)
    → find_session (renamed b x k).router x ≡ some j
    → (recv_set_address_ntf (renamed b x k) k).server ≡ renamed b x k
unfolding recv_set_address_ntf renamed
stays b x j k e = rw (own_address b x k, taken (addressed b.router k x) x k j e) refl

closes :
    (b : Server) (x : Address) (k : ℕ) (r : Router)
    → (length x.service_name == 0) ≡ false
    → unregister (addressed b.router k x) x ≡ ok (r, true)
    → on_close (renamed b x k) k ≡ ok (left (renamed b x k) k (on_router_close x ∷ []) r)
unfolding on_close renamed
closes b x k r named e = rw (own_address b x k, named, e) refl

-- A session `k` asks with an address that has a name and is not the server's own, and under which the
-- tables have another session, `j`, once in each group. Its notice
-- leaves all as it was behind the request, so the tables have not taken it in, and yet it has the
-- address: when it closes, no session is found for the address any more, though `j` has not closed
-- and keeps the address that it has.
pub close_duplicate :
    (b : Server) (x : Address) (j k : ℕ) (l : List ℕ) (g : Group)
    → Fits x
    → address_eq b.local_address x ≡ false
    → (length x.service_name == 0) ≡ false
    → (k == j) ≡ false
    → Serves b.router x j k l g
    → let b1 = recv_set_address_req b k (store_msg (set_address_req x)) in
      let b2 = recv_set_address_ntf b1.server k in
      (b2.server ≡ b1.server)
      × ((b2.server.router.peers k).address ≡ x)
      × (h : Handled) × (on_close b2.server k ≡ ok h)
      × (find_session h.server.router x ≡ none)
      × ((h.server.router.peers j).address ≡ (b.router.peers j).address)
unfolding left unawaited find_session renamed addressed
close_duplicate b x j k l g f e named other s =
    let r = addressed b.router k x in
    let v = addressed-Serves b.router x j k l g s in
    let u = unregister-Unregistered r x x j l g v.finds v.multi v.any v.one_multi v.one_any in
    let same : address_eq x x ≡ true =
      (address_eq_iff x x).0.1 (record { same_name = refl; same_cast = refl; same_id = refl }) in
    rw (asks_as b x k f e, stays b x j k v.finds)
      (
        refl,
        own_address b x k,
        left (renamed b x k) k (on_router_close x ∷ []) u.router,
        closes b x k u.router named u.returns,
        u.finds ∙ rw same refl,
        rw (other, u.same_peers, other) refl,
      )
