-- ===== src/Reconnect/Pairs.antt =====
-- That a link and its session name each other.
use gamnet.Prelude.{
  fault, throw, ok_value, ℕ, ◌≡◌, refl, sym, ap, ◌∙◌, inl, inr, arith, ◌==◌, ◌+◌, ◌%◌, ◌^◌,
  if◌then◌else◌, Bool-cases, List, [], ◌∷◌, Option, none, some, Outcome, ok, ◌>>=◌, find,
}
use gamnet.Buffer.{Buffer}
use gamnet.MsgRouter.{string_eq}
use mathlib.Core.Path.{subst}
use gamnet.Reconnect.{
  Session, Server, detached, attached, attach_session, on_accept, on_close, recv_connect_req,
  refused, unlinked, taken_over, resume, asked, on_link, json_text, recv_reconnect_req,
}

-- A link has at most one session and a session at most one link, and each is the other's.
pub record IsPaired (s : Server) : Type 0 where
  pub of_link : (l i : ℕ) → s.link_session l ≡ some i → (s.sessions i).link ≡ some l
  pub of_session : (i l : ℕ) → (s.sessions i).link ≡ some l → s.link_session l ≡ some i

drop-IsPaired :
    (s : Server) (l : ℕ) (o : Option ℕ)
    → s.link_session l ≡ o
    → IsPaired s
    → IsPaired (attached (detached s l o) l none)
unfolding detached attached
drop-IsPaired s l none e v = record {
  of_link = λ k i. let f = v.of_link k i in ground (arith, f);
  of_session = λ i k. let b = v.of_session i k in ground (arith, b, e);
}
drop-IsPaired s l (some j) e v = record {
  of_link = λ k i. let f = v.of_link k i in let g = v.of_link l j e in ground (arith, f, g);
  of_session = λ i k. let b = v.of_session i k in ground (arith, b, e);
}

pub attach_none-IsPaired : (s : Server) (l : ℕ) → IsPaired s → IsPaired (attach_session s l none)
unfolding attach_session
attach_none-IsPaired s l v = drop-IsPaired s l (s.link_session l) refl v

pub attach_some-IsPaired :
    (s : Server) (l i : ℕ)
    → (s.sessions i).link ≡ none
    → IsPaired s
    → IsPaired (attach_session s l (some i))
unfolding attach_session detached attached
attach_some-IsPaired s l i h v = go (s.link_session l) refl
  where
    go : (o : Option ℕ) → s.link_session l ≡ o → IsPaired (attached (detached s l o) l (some i))
    go none e = record {
      of_link = λ k j. let f = v.of_link k j in ground (arith, f, h);
      of_session = λ j k. let b = v.of_session j k in ground (arith, b, e);
    }
    go (some j) e = record {
      of_link = λ k m. let f = v.of_link k m in let g = v.of_link l j e in ground (arith, f, g, h);
      of_session = λ m k. let b = v.of_session m k in ground (arith, b, e, h);
    }

rewritten-IsPaired :
    (s : Server) (i : ℕ) (t : Session)
    → t.link ≡ (s.sessions i).link
    → IsPaired s
    → IsPaired (record s { sessions = λ j. if i == j then t else s.sessions j })
rewritten-IsPaired s i t e v = record {
  of_link = λ l j. let f = v.of_link l j in ground (arith, f, e);
  of_session = λ j l. let b = v.of_session j l in ground (arith, b, e);
}

pub unlinked_lem :
    (s : Server) (o : ℕ) (l : Option ℕ)
    → (s.sessions o).link ≡ l
    → IsPaired s
    → IsPaired (unlinked s l) × (((unlinked s l).sessions o).link ≡ none)
unfolding unlinked attach_session detached attached
unlinked_lem s o none e v = (v, e)
unlinked_lem s o (some l) e v =
    let b = v.of_session o l e in
    (attach_none-IsPaired s l v, ap (λ x. ((detached s l x).sessions o).link) b ∙ ground arith)

pub taken_over-IsPaired :
    (s : Server) (l i o : ℕ) (token : List ℕ) → IsPaired s → IsPaired (taken_over s l i o token)
unfolding taken_over
taken_over-IsPaired s l i o token v =
    let (w, e) = unlinked_lem s o (s.sessions o).link refl v in
    let s1 = unlinked s (s.sessions o).link in
    let o' : Session = record (s1.sessions o) {
      recv_packet = (s1.sessions i).recv_packet;
      session_token = token;
    } in
    attach_some-IsPaired (record s1 { sessions = λ j. if o == j then o' else s1.sessions j }) l o
      (ground (arith, e)) (rewritten-IsPaired s1 o o' refl w)

asked-IsPaired :
    (s : Server) (l i : ℕ) (fresh : List ℕ) (o : Option (ℕ × List ℕ))
    → IsPaired s
    → IsPaired (asked s l i fresh o).0
unfolding asked refused resume
asked-IsPaired s l i fresh none v = attach_none-IsPaired s l v
asked-IsPaired s l i fresh (some (key, token)) v = found (find s.manager key)
  where
    found : (o : Option ℕ) → IsPaired (resume s l i token fresh o).0
    found none = attach_none-IsPaired s l v
    found (some o) = elim (Bool-cases (string_eq (s.sessions o).session_token token)) [
      | inl same ↦ rw same (taken_over-IsPaired s l i o fresh v)
      | inr other ↦ rw other (attach_none-IsPaired s l v)
    ]

-- What happens to the links and sessions of a server.
pub data Act : Type 0 where
  accepts : ℕ → Option ℕ → ℕ → Act
  closes : ℕ → Act
  connects : ℕ → List ℕ → Act
  reconnects : ℕ → Buffer → List ℕ → Act

module _ (json : List ℕ → Option (ℕ × List ℕ)) where
  unfoldable pub step : Server → Act → Outcome Server
  step s (accepts l o packet) = ok (on_accept s l o packet)
  step s (closes l) = ok (on_close s l)
  step s (connects i token) = ok (recv_connect_req s i token).0
  step s (reconnects i packet token) = recv_reconnect_req json s i packet token >>= λ r. ok r.0

  -- The pool gives a session that has no link.
  abbrev pub Can : Server → Act → Type 0
  Can s (accepts l none packet) = Unit {0}
  Can s (accepts l (some i) packet) = (s.sessions i).link ≡ none
  Can s (closes l) = Unit {0}
  Can s (connects i token) = Unit {0}
  Can s (reconnects i packet token) = Unit {0}

  unfoldable pub Runs : Server → List Act → Server → Type 0
  Runs s [] s' = s ≡ s'
  Runs s (a ∷ acts) s' = (m : Server) × Can s a × (step s a ≡ ok m) × Runs m acts s'

  closed :
      (s : Server) (l : ℕ) (o : Option ℕ)
      → s.link_session l ≡ o
      → IsPaired s
      → IsPaired (on_close s l)
  unfolding on_close
  closed s l none e v = rw (on_close, e) v
  closed s l (some i) e v = rw (on_close, e) (attach_none-IsPaired s l v)

  answered :
      (s m : Server) (i : ℕ) (token : List ℕ) (t : Outcome (List ℕ)) (o : Option ℕ)
      → (t >>= on_link json s i token o >>= λ r. ok r.0) ≡ ok m
      → IsPaired s
      → IsPaired m
  unfolding on_link
  answered s m i token fault o e v = absurd cc
  answered s m i token (throw x) o e v = absurd cc
  answered s m i token (ok text) none e v = absurd cc
  answered s m i token (ok text) (some l) e v =
      subst IsPaired (ok_value e) (asked-IsPaired s l i token (json text) v)

  step-IsPaired : (s m : Server) (a : Act) → Can s a → step s a ≡ ok m → IsPaired s → IsPaired m
  unfolding step on_accept recv_connect_req recv_reconnect_req
  step-IsPaired s m (accepts l none packet) c e v = subst IsPaired (ok_value e) v
  step-IsPaired s m (accepts l (some i) packet) c e v =
      let key = (s.last_key + 1) % 2 ^ 32 in
      let i' : Session = record {
        session_key = key;
        session_token = [];
        link = none;
        recv_packet = packet;
        msg_seq = 0;
      } in
      let w = rewritten-IsPaired s i i' (sym c) v in
      subst IsPaired (ok_value e) (
        attach_some-IsPaired
          (record s { last_key = key; sessions = λ j. if i == j then i' else s.sessions j }) l i
          (ground arith) (record { of_link = w.of_link; of_session = w.of_session }))
  step-IsPaired s m (closes l) c e v =
      subst IsPaired (ok_value e) (closed s l (s.link_session l) refl v)
  step-IsPaired s m (connects i token) c e v =
      let w = rewritten-IsPaired s i (record (s.sessions i) { session_token = token }) refl v in
      subst IsPaired (ok_value e) (record { of_link = w.of_link; of_session = w.of_session })
  step-IsPaired s m (reconnects i packet token) c e v =
      answered s m i token (json_text packet) (s.sessions i).link e v

  -- Whatever is accepted, closed, connected and reconnected by handlers that run one after the other,
  -- so that no call of `AttachSession` waits: where every link and its session name each other, and the
  -- pool gives sessions without a link, they still do, so no session is ever on two links and no link has two.
  pub Runs-IsPaired : (s s' : Server) (acts : List Act) → Runs s acts s' → IsPaired s → IsPaired s'
  unfolding Runs
  Runs-IsPaired s s' [] same v = subst IsPaired same v
  Runs-IsPaired s s' (a ∷ acts) (m, c, e, more) v =
      Runs-IsPaired m s' acts more (step-IsPaired s m a c e v)
