-- ===== src/RouterCaster/Sends.antt =====
-- Who gets a message that is sent by address.
use gamnet.Prelude.{
  ℕ, zero, suc, ◌+◌, ◌%◌, ◌^◌, lt→ltb, ◌<◌, ◌≡◌, refl, ap, ◌∙◌, arith, ◌==◌, true, false, List, [],
  ◌∷◌, ◌++◌, map, Option, some, Outcome, ok, ◌>>=◌, length, get_elem?,
}
use gamnet.MsgRouter.{Address}
use gamnet.MsgRouter.Order.{string_eq_iff}
use gamnet.RouterCaster.{
  Router, Group, Sent, at_name, put_name, send_one, send_all, multi_send, next_member, any_send,
}
use gamnet.RouterCaster.Tables.{at_name-put_name}

-- `k` messages by any-cast, one after the other, with what the sessions get.
pub any_sends :
    ℕ → Router → ℕ → ℕ → Option ℕ → Address → List ℕ → Outcome (Router × List (ℕ × List ℕ))
any_sends zero r now seq asker a bytes = ok (r, [])
any_sends (suc k) r now seq asker a bytes = any_send r now seq asker a bytes >>= λ s.
    any_sends k s.router now seq asker a bytes >>= λ rest. ok (rest.0, s.out ++ rest.1)

-- The members from a turn on, round and round.
abbrev pub rotation : List ℕ → ℕ → ℕ → List (Option ℕ)
rotation members turn zero = []
rotation members turn (suc k) =
    get_elem? members (turn % length members) ∷ rotation members (turn + 1) k

get_elem-some : (l : List ℕ) (i : ℕ) → i < length l → (x : ℕ) × (get_elem? l i ≡ some x)
get_elem-some [] i h = absurd (omega arith)
get_elem-some (x ∷ l) zero h = (x, refl)
get_elem-some (x ∷ l) (suc i) h = get_elem-some l i (omega arith)

turns :
    (r : Router) (now seq : ℕ) (asker : Option ℕ) (a : Address) (bytes : List ℕ) (g : Group)
    → at_name r.any a.service_name ≡ some g
    → 0 < length g.members
    → g.turn + 1 < 2 ^ 31
    → (i : ℕ) × (s : Sent) × (get_elem? g.members (g.turn % length g.members) ≡ some i)
      × (any_send r now seq asker a bytes ≡ ok s)
      × (s.out ≡ (i, bytes) ∷ [])
      × (at_name s.router.any a.service_name ≡ some (record g { turn = g.turn + 1 }))
unfolding any_send next_member send_one
turns r now seq asker a bytes g e h room =
    let (i, found) = get_elem-some g.members (g.turn % length g.members) (omega arith) in
    let g' : Group = record g { turn = g.turn + 1 } in
    let r' : Router = record r { any = put_name r.any a.service_name g' } in
    (
      i,
      send_one r' now seq asker bytes i,
      found,
      rw (any_send, e, not_empty, found, lt→ltb (g.turn + 1) (2 ^ 31) room) refl,
      refl,
      at_name-put_name r.any a.service_name a.service_name g'
          ∙ rw ((string_eq_iff a.service_name a.service_name).1 refl) refl,
    )
  where
    not_empty : (length g.members == 0) ≡ false
    not_empty = ground (arith, h)

-- Where the name has a member, and as long as the turn fits an `int`, any-cast is round robin: `k` messages in a row go, one each and
-- unchanged, to the members in their order, from the group's turn on and round again, and none
-- fails.
pub any_sends-rotation :
    (k : ℕ) (r : Router) (now seq : ℕ) (asker : Option ℕ) (a : Address) (bytes : List ℕ) (g : Group)
    → at_name r.any a.service_name ≡ some g
    → 0 < length g.members
    → g.turn + k < 2 ^ 31
    → (r' : Router) × (out : List (ℕ × List ℕ)) × (any_sends k r now seq asker a bytes
        ≡ ok (r', out))
      × (map (λ p. some p.0) out ≡ rotation g.members g.turn k)
      × (map (λ p. p.1) out ≡ map (λ p. bytes) out)
unfolding any_sends
any_sends-rotation zero r now seq asker a bytes g e h room = (r, [], refl, refl, refl)
any_sends-rotation (suc k) r now seq asker a bytes g e h room =
    let (i, s, found, sent, outs, next) = turns r now seq asker a bytes g e h (omega arith) in
    let (r', rest, more, ids, same) =
      any_sends-rotation k s.router now seq asker a bytes (record g { turn = g.turn + 1 }) next h
        (omega arith) in
    (
      r',
      (i, bytes) ∷ rest,
      rw (sent, more, outs) refl,
      rw (found) (ap (◌∷◌ (some i)) ids),
      ap (◌∷◌ bytes) same,
    )

everyone :
    (l : List ℕ) (r : Router) (now seq : ℕ) (asker : Option ℕ) (bytes : List ℕ)
    → let s = send_all r now seq asker bytes l in
      (s.done ≡ true)
      × (s.out ≡ map (λ i. (i, bytes)) l)
      × (s.router.multi ≡ r.multi)
      × (s.router.uni ≡ r.uni)
      × (s.router.any ≡ r.any)
unfolding send_all send_one
everyone [] r now seq asker bytes = (refl, refl, refl, refl, refl)
everyone (i ∷ l) r now seq asker bytes =
    let s = send_one r now seq asker bytes i in
    let (d, o, m, u, a) = everyone l s.router now seq asker bytes in
    (d, ap (◌∷◌ (i, bytes)) o, m, u, a)

-- Multi-cast hands the bytes to every session of the name, once and in order, and changes no table.
pub multi_send_lem :
    (r : Router) (now seq : ℕ) (asker : Option ℕ) (a : Address) (bytes : List ℕ) (l : List ℕ)
    → at_name r.multi a.service_name ≡ some l
    → let s = multi_send r now seq asker a bytes in
      (s.done ≡ true)
      × (s.out ≡ map (λ i. (i, bytes)) l)
      × (s.router.multi ≡ r.multi)
      × (s.router.uni ≡ r.uni)
      × (s.router.any ≡ r.any)
unfolding multi_send
multi_send_lem r now seq asker a bytes l e = rw (multi_send, e) (everyone l r now seq asker bytes)
