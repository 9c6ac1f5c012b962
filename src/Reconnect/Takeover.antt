-- ===== src/Reconnect/Takeover.antt =====
-- What a reconnect does to the two sessions.
use gamnet.Prelude.{
  Outcome, false, Bool, ℕ, ◌≡◌, refl, arith, ◌==◌, List, Option, none, some, ok, fault, find, ◌≤◌,
  ◌<◌, ◌+◌, ◌^◌, length, read_at_beyond,
}
use gamnet.Buffer.{Buffer, size}
use gamnet.Packet.{header_size}
use gamnet.Reconnect.{
  taken_over_busy, Answer, Server, failed, detached, attached, attach_session, on_link, json_text,
  recv_reconnect_req, invalid_session_token_error,
}

-- A request of session `i`, on link `l`, for the key of session `o`, with a token.
pub record Asks (json : List ℕ → Option (ℕ × List ℕ)) (s : Server) (l i o : ℕ) (packet : Buffer)
    (token : List ℕ) : Type 0 where
  pub text : List ℕ
  pub key : ℕ
  pub reads : json_text packet ≡ ok text
  pub parsed : json text ≡ some (key, token)
  pub on_link : (s.sessions i).link ≡ some l
  pub finds : find s.manager key ≡ some o

-- What a good reconnect leaves behind: session `o` and the link have each other, and the session has
-- a fresh token.
pub record TakenOver (s m : Server) (l o : ℕ) (fresh : List ℕ) : Type 0 where
  pub on_link : m.link_session l ≡ some o
  pub link : (m.sessions o).link ≡ some l
  pub same_manager : m.manager ≡ s.manager
  pub token : (m.sessions o).session_token ≡ fresh

-- The request with an old token, on the link that a session has.
pub replay : Server → Option ℕ → Outcome (Server × Answer)
replay m none = fault
replay m (some l) = ok (attach_session m l none, failed invalid_session_token_error)

abbrev pub is_session : Option ℕ → ℕ → Bool
is_session none o = false
is_session (some i) o = i == o

-- The reconnect while another thread is in a handler of the old link `k` of session `o`: when that
-- link is let go afterwards, the session loses its link, though the new link still has the session.
pub busy_unpaired :
    (s : Server) (l i o k : ℕ) (fresh : List ℕ)
    → s.link_session l ≡ some i
    → s.link_session k ≡ some o
    → (l == k) ≡ false
    → let m = attach_session (taken_over_busy s l i o fresh) k none in
      (m.link_session l ≡ some o) × ((m.sessions o).link ≡ none)
unfolding taken_over_busy attach_session attached detached
busy_unpaired s l i o k fresh on_l on_k other =
    let kept : (taken_over_busy s l i o fresh).link_session k ≡ some o = rw (on_l, other) on_k in
    rw kept (ground (arith, on_l, other), rw on_l (ground (arith)))

-- A request that ends less than a header in front of the end of its block: the bytes that are
-- parsed reach beyond the block.
pub reconnect_beyond :
    (json : List ℕ → Option (ℕ × List ℕ)) (s : Server) (i : ℕ) (p : Buffer) (fresh : List ℕ)
    → p.read_cursor ≤ p.write_cursor
    → p.write_cursor < 2 ^ 64
    → length p.mem < p.write_cursor + header_size
    → recv_reconnect_req json s i p fresh ≡ fault
unfolding recv_reconnect_req json_text size
reconnect_beyond json s i p fresh h bound k =
    rw (read_at_beyond p.mem (p.read_cursor + header_size) (size p) (omega arith)) refl
