-- ===== src/Links/Laws.antt =====
-- When an accept is waiting for the next link.
use gamnet.Prelude.{
  ℕ, ◌-◌, ◌<◌, ◌≡◌, refl, arith, ltb, if◌then◌else◌, Bool, true, false, Bool-cases, inl, inr, ok,
}
use gamnet.Pool
use gamnet.Links.{
  Manager, create_link, keyed, accept, listen, attached, callback_accept, on_close, released, add,
  remove, sweep,
}

-- An accept is waiting exactly when the manager is acceptable, and never two.
abbrev pub IsListening : Manager → Type 0
IsListening m = m.accepting ≡ (if m.is_acceptable then 1 else 0)

-- The states of a manager from `Listen` on, under any sequence of calls.
pub data Reached : Manager → Type 0 where
  listened :
      (m m' : Manager) (now fresh max_session seconds : ℕ) (timer_set : Bool)
      → m.accepting ≡ 0
      → m.is_acceptable ≡ true
      → listen m now fresh max_session seconds timer_set ≡ ok m'
      → Reached m'
  called_back :
      (m : Manager) (fresh now i : ℕ) (failed : Bool)
      → Reached m
      → 0 < m.accepting
      → Reached (callback_accept m fresh now i failed)
  closed : (m : Manager) (now fresh : ℕ) → Reached m → Reached (on_close m now fresh)
  let_go : (m : Manager) (i : ℕ) → Reached m → Reached (released m i)
  added : (m : Manager) (key i : ℕ) → Reached m → Reached (add m key i).0
  removed : (m : Manager) (key : ℕ) → Reached m → Reached (remove m key)
  swept : (m : Manager) (now : ℕ) → Reached m → Reached (sweep m now).0

create_link_keeps :
    (m : Manager) (now fresh : ℕ)
    → ((create_link m now fresh).0.accepting ≡ m.accepting)
      × ((create_link m now fresh).0.is_acceptable ≡ m.is_acceptable)
unfolding create_link keyed
create_link_keeps m now fresh = ground arith

accept-IsListening :
    (m : Manager) (now fresh : ℕ)
    → m.accepting ≡ 0
    → m.is_acceptable ≡ true
    → IsListening (accept m now fresh)
unfolding accept
accept-IsListening m now fresh a b = ground (arith, create_link_keeps m now fresh)

attached_keeps :
    (m : Manager) (now i : ℕ)
    → ((attached m now i).accepting ≡ m.accepting)
      × ((attached m now i).is_acceptable ≡ m.is_acceptable)
unfolding attached
attached_keeps m now i = ground arith

listen-IsListening :
    (m m' : Manager) (now fresh max_session seconds : ℕ) (timer_set : Bool)
    → m.accepting ≡ 0
    → m.is_acceptable ≡ true
    → listen m now fresh max_session seconds timer_set ≡ ok m'
    → IsListening m'
unfolding listen
listen-IsListening m m' now fresh max_session seconds timer_set a b e =
    elim (Bool-cases (ltb 0 seconds)) [
      | inl timed ↦
          let k =
            accept-IsListening
              (record m {
                keepalive_time = seconds;
                link_pool = Pool.set_capacity m.link_pool max_session;
              })
              now fresh a b in
          ground (arith, timed, k, e)
      | inr plain ↦
          let k =
            accept-IsListening (record m { link_pool = Pool.set_capacity m.link_pool max_session })
              now fresh a b in
          ground (arith, plain, k, e)
    ]

callback-IsListening :
    (m : Manager) (fresh now i : ℕ) (failed : Bool)
    → IsListening m
    → 0 < m.accepting
    → IsListening (callback_accept m fresh now i failed)
unfolding callback_accept
callback-IsListening m fresh now i true l h =
    accept-IsListening (record m { accepting = m.accepting - 1 }) now fresh (ground arith)
      (ground arith)
callback-IsListening m fresh now i false l h =
    let done = record m { accepting = m.accepting - 1 } in
    let k = attached_keeps done now i in
    accept-IsListening (attached done now i) now fresh (ground (arith, k)) (ground (arith, k))

on_close-IsListening :
    (m : Manager) (now fresh : ℕ) → IsListening m → IsListening (on_close m now fresh)
unfolding on_close
on_close-IsListening m now fresh l = elim (Bool-cases m.is_acceptable) [
  | inl on ↦ ground (arith, on, l)
  | inr shut ↦
      let k =
        accept-IsListening (record m { is_acceptable = true }) now fresh (ground (arith, shut, l))
          refl in
      ground (arith, shut, l, k)
]

on_close_idle :
    (m : Manager) (now fresh : ℕ)
    → m.is_acceptable ≡ false
    → Pool.available m.link_pool ≡ 0
    → on_close m now fresh ≡ m
unfolding on_close
on_close_idle m now fresh off full = ground (arith, off, full)

-- In every state that a manager reaches from `Listen` on, by accepts that call back, closing links,
-- links that go back to the pool, changes of the table and the timer, one accept is waiting when
-- the manager is acceptable, and none when it is not.
pub Reached-IsListening : (m : Manager) → Reached m → IsListening m
unfolding released add remove sweep
Reached-IsListening m (listened m0 m' now fresh n s t a b e) =
    listen-IsListening m0 m' now fresh n s t a b e
Reached-IsListening m (called_back m0 fresh now i failed r h) =
    callback-IsListening m0 fresh now i failed (Reached-IsListening m0 r) h
Reached-IsListening m (closed m0 now fresh r) =
    on_close-IsListening m0 now fresh (Reached-IsListening m0 r)
Reached-IsListening m (let_go m0 i r) = Reached-IsListening m0 r
Reached-IsListening m (added m0 key i r) = ground (arith, Reached-IsListening m0 r)
Reached-IsListening m (removed m0 key r) = ground (arith, Reached-IsListening m0 r)
Reached-IsListening m (swept m0 now r) = Reached-IsListening m0 r

-- The close of a link while the pool has none left does not resume the accept, and the link goes
-- back to the pool only afterwards: then a link is available, no accept is waiting and the manager
-- stays unacceptable.
pub close_unheard :
    (m : Manager) (now fresh i : ℕ)
    → IsListening m
    → m.is_acceptable ≡ false
    → Pool.available m.link_pool ≡ 0
    → let m' = released (on_close m now fresh) i in
      (m'.is_acceptable ≡ false) × (m'.accepting ≡ 0) × (Pool.available m'.link_pool ≡ 1)
unfolding released Pool.available Pool.restitute
close_unheard m now fresh i l off full =
    rw (on_close_idle m now fresh off full) (off, ground (arith, l, off), omega (arith, full))

-- The close of a link while the pool has one left resumes the accept.
pub close_resumes :
    (m : Manager) (now fresh : ℕ)
    → IsListening m
    → m.is_acceptable ≡ false
    → 0 < Pool.available m.link_pool
    → (on_close m now fresh ≡ accept (record m { is_acceptable = true }) now fresh)
      × IsListening (on_close m now fresh)
unfolding on_close
close_resumes m now fresh l off room =
    (ground (arith, off, room), on_close-IsListening m now fresh l)
