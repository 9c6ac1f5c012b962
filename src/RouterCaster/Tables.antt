-- ===== src/RouterCaster/Tables.antt =====
-- What the route tables find after an address is registered or unregistered.
use gamnet.Prelude.{
  ℕ, ◌≡◌, refl, sym, ap, ◌∙◌, inl, inr, arith, if◌then◌else◌, Bool, true, false, Bool-cases, List,
  [], ◌∷◌, ◌++◌, Option, none, some, Outcome, ok, fault, ◌>>=◌, length,
}
use gamnet.MsgRouter.{Address, address_eq, string_eq}
use gamnet.MsgRouter.Order.{address_eq_iff, string_eq_iff}
use gamnet.RouterCaster.{
  Router, Peer, Group, at_address, off_address, at_name, put_name, has_address, members_of,
  group_of, others, matches, uni_register, multi_register, any_register, register, uni_unregister,
  erase_matches, multi_unregister, any_unregister, unregister, find_session,
}

same_name : (s t u : List ℕ) → string_eq s t ≡ true → string_eq s u ≡ string_eq t u
same_name s t u h = ap (λ l. string_eq l u) ((string_eq_iff s t).0 h)

pub at_name-put_name {ℓ} :
    {V : Type ℓ} (m : List (List ℕ × V)) (s t : List ℕ) (v : V)
    → at_name (put_name m s v) t ≡ (if string_eq s t then some v else at_name m t)
at_name-put_name [] s t v = refl
at_name-put_name ((r, w) ∷ m) s t v = elim (Bool-cases (string_eq r s)) [
  | inl same ↦ let e = same_name r s t same in ground (arith, same, e)
  | inr other ↦ elim (Bool-cases (string_eq s t)) [
    | inl found ↦
        let e = (string_eq_iff s t).0 found in
        let miss : string_eq r t ≡ false = ap (string_eq r) (sym e) ∙ other in
        ground (arith, other, found, miss, at_name-put_name m s t v)
    | inr apart ↦ ground (arith, other, apart, at_name-put_name m s t v)
  ]
]

eq_of_keys : (a b c : Address) → address_eq a b ≡ true → address_eq a c ≡ address_eq b c
unfolding address_eq
eq_of_keys a b c h =
    let k = (address_eq_iff a b).0.0 h in rw (k.same_name, k.same_cast, k.same_id) refl

pub eq_flip : (a b : Address) → address_eq a b ≡ address_eq b a
unfolding address_eq
eq_flip a b = ground (
  arith,
  string_eq_iff a.service_name b.service_name,
  string_eq_iff b.service_name a.service_name,
)

pub at_address-off_address :
    (m : List (Address × ℕ)) (a b : Address)
    → at_address (off_address m a) b ≡ (if address_eq a b then none else at_address m b)
at_address-off_address [] a b = ground arith
at_address-off_address ((c, i) ∷ m) a b = elim (Bool-cases (address_eq c a)) [
  | inl same ↦
      let e = eq_of_keys c a b same in ground (arith, same, e, at_address-off_address m a b)
  | inr other ↦ elim (Bool-cases (address_eq c b)) [
    | inl found ↦
        let miss : address_eq a b ≡ false = eq_flip a b ∙ sym (eq_of_keys c b a found) ∙ other in
        ground (arith, other, found, miss, at_address-off_address m a b)
    | inr apart ↦ ground (arith, other, apart, at_address-off_address m a b)
  ]
]

-- What the sessions of a name are in the two tables by name.
abbrev pub multi_members : Router → List ℕ → List ℕ
multi_members r s = members_of (at_name r.multi s)

abbrev pub any_group : Router → List ℕ → Group
any_group r s = group_of (at_name r.any s)

-- An address that no table has.
pub record IsFree (r : Router) (a : Address) : Type 0 where
  pub no_uni : find_session r a ≡ none
  pub no_multi : has_address r.peers a (multi_members r a.service_name) ≡ false
  pub no_any : has_address r.peers a (any_group r a.service_name).members ≡ false

put_multi :
    (m : List (List ℕ × List ℕ)) (s t : List ℕ) (i : ℕ)
    → members_of (at_name (put_name m s (members_of (at_name m s) ++ (i ∷ []))) t)
      ≡ (if string_eq s t then members_of (at_name m t) ++ (i ∷ []) else members_of (at_name m t))
put_multi m s t i = elim (Bool-cases (string_eq s t)) [
  | inl found ↦
      rw (at_name-put_name m s t (members_of (at_name m s) ++ (i ∷ [])), found)
        (ap (λ n. members_of (at_name m n) ++ (i ∷ [])) ((string_eq_iff s t).0 found))
  | inr apart ↦ rw (at_name-put_name m s t (members_of (at_name m s) ++ (i ∷ [])), apart) refl
]

abbrev group_members : Option Group → List ℕ
group_members o = (group_of o).members

put_any :
    (m : List (List ℕ × Group)) (s t : List ℕ) (i : ℕ)
    → group_members (
        at_name
          (put_name m s (record {
            turn = length (group_members (at_name m s));
            members = group_members (at_name m s) ++ (i ∷ []);
          }))
          t)
      ≡ (if string_eq s t
          then (group_of (at_name m t)).members ++ (i ∷ [])
          else (group_of (at_name m t)).members)
put_any m s t i =
    let g = group_of (at_name m s) in
    let g' : Group = record { turn = length g.members; members = g.members ++ (i ∷ []) } in
    elim (Bool-cases (string_eq s t)) [
      | inl found ↦
          rw (at_name-put_name m s t g', found)
            (ap (λ n. (group_of (at_name m n)).members ++ (i ∷ [])) ((string_eq_iff s t).0 found))
      | inr apart ↦ rw (at_name-put_name m s t g', apart) refl
    ]

-- What a registered address finds afterwards, and what the others find, of any address and name.
pub record Registered (r : Router) (a : Address) (i : ℕ) (b : Address) (s : List ℕ)
    (o : Router × Bool) : Type 0 where
  pub accepted : o.1 ≡ true
  pub finds : find_session o.0 b ≡ (if address_eq a b then some i else find_session r b)
  pub multi_cast :
      multi_members o.0 s
      ≡ (if string_eq a.service_name s then multi_members r s ++ (i ∷ []) else multi_members r s)
  pub any_cast : (any_group o.0 s).members ≡ (
      if string_eq a.service_name s
      then (any_group r s).members ++ (i ∷ [])
      else (any_group r s).members)
  pub named : (o.0.peers i).address ≡ a

uni_added :
    (r : Router) (a : Address) (i : ℕ)
    → find_session r a ≡ none
    → uni_register r a i ≡ (record r { uni = (a, i) ∷ r.uni }, true)
unfolding uni_register find_session
uni_added r a i e = rw (uni_register, e) refl

multi_added :
    (r : Router) (a : Address) (i : ℕ)
    → has_address r.peers a (multi_members r a.service_name) ≡ false
    → multi_register r a i ≡ (
      record r {
        multi = put_name r.multi a.service_name (multi_members r a.service_name ++ (i ∷ []));
      },
      true,
    )
unfolding multi_register
multi_added r a i e = rw e refl

any_added :
    (r : Router) (a : Address) (i : ℕ)
    → has_address r.peers a (any_group r a.service_name).members ≡ false
    → let g = any_group r a.service_name in
      any_register r a i ≡ (
        record r {
          any =
              put_name r.any a.service_name
                (record { turn = length g.members; members = g.members ++ (i ∷ []) });
        },
        true,
      )
unfolding any_register
any_added r a i e = rw e refl

multi_refused :
    (r : Router) (a : Address) (i : ℕ)
    → has_address r.peers a (multi_members r a.service_name) ≡ true
    → multi_register r a i ≡ (r, false)
unfolding multi_register
multi_refused r a i e = rw e refl

-- An address that no table has is registered with all three: it finds the session by uni-cast, the
-- session is last in the two groups of its name, everything else finds what it found, and the
-- session has the address.
pub register-Registered :
    (r : Router) (a : Address) (i : ℕ) (b : Address) (s : List ℕ)
    → IsFree r a
    → Registered r a i b s (register r a i)
unfolding register find_session
register-Registered r a i b s f =
    let r1 : Router = record r { uni = (a, i) ∷ r.uni } in
    let r2 : Router = record r1 {
      multi = put_name r.multi a.service_name (multi_members r a.service_name ++ (i ∷ []));
    } in
    rw (uni_added r a i f.no_uni, multi_added r1 a i f.no_multi, any_added r2 a i f.no_any)
      (record {
        accepted = refl;
        finds = refl;
        multi_cast = put_multi r.multi a.service_name s i;
        any_cast = put_any r.any a.service_name s i;
        named = ground arith;
      })

-- `RegisterAddress` does not undo: where the multi-cast table refuses the address, the answer is
-- false and yet the uni-cast table keeps the session.
pub register_halfway :
    (r : Router) (a : Address) (i : ℕ)
    → find_session r a ≡ none
    → has_address r.peers a (multi_members r a.service_name) ≡ true
    → ((register r a i).1 ≡ false) × (find_session (register r a i).0 a ≡ some i)
unfolding register find_session
register_halfway r a i e h =
    rw (uni_added r a i e, multi_refused (record r { uni = (a, i) ∷ r.uni }) a i h)
      (
        refl,
        rw
            ((address_eq_iff a a).0.1
              (record { same_name = refl; same_cast = refl; same_id = refl }))
            refl,
      )

uni_removed :
    (r : Router) (a : Address) {j : ℕ}
    → find_session r a ≡ some j
    → uni_unregister r a ≡ (record r { uni = off_address r.uni a }, true)
unfolding find_session uni_unregister
uni_removed r a e = rw (uni_unregister, e) refl

multi_removed :
    (r : Router) (a : Address) {l : List ℕ}
    → at_name r.multi a.service_name ≡ some l
    → multi_unregister r a ≡ (
        erase_matches r.peers a.id l >>= λ l'.
        ok (record r { multi = put_name r.multi a.service_name l' }, true))
unfolding multi_unregister erase_matches
multi_removed r a e = rw (multi_unregister, e) refl

any_removed :
    (r : Router) (a : Address) {g : Group}
    → at_name r.any a.service_name ≡ some g
    → any_unregister r a ≡ (
        erase_matches r.peers a.id g.members >>= λ l'.
        ok (record r { any = put_name r.any a.service_name (record g { members = l' }) }, true))
unfolding any_unregister erase_matches
any_removed r a e = rw (any_unregister, e) refl

erase_one :
    (peers : ℕ → Peer) (k : ℕ) (l : List ℕ)
    → matches peers k l ≡ 1
    → erase_matches peers k l ≡ ok (others peers k l)
unfolding erase_matches
erase_one peers k l e = rw e refl

-- What is found after an address is taken out of the three tables.
pub record Unregistered (r : Router) (a b : Address) (l : List ℕ) (g : Group)
    (o : Outcome (Router × Bool)) : Type 0 where
  pub router : Router
  pub returns : o ≡ ok (router, true)
  pub finds : find_session router b ≡ (if address_eq a b then none else find_session r b)
  pub multi_cast : at_name router.multi a.service_name ≡ some (others r.peers a.id l)
  pub any_cast :
      at_name router.any a.service_name
      ≡ some (record g { members = others r.peers a.id g.members })
  pub same_peers : router.peers ≡ r.peers

-- An address of which the groups of its name have exactly one session by its id each is taken out
-- of all three tables: uni-cast does not find it, and the groups keep the sessions of other ids.
pub unregister-Unregistered :
    (r : Router) (a b : Address) (j : ℕ) (l : List ℕ) (g : Group)
    → find_session r a ≡ some j
    → at_name r.multi a.service_name ≡ some l
    → at_name r.any a.service_name ≡ some g
    → matches r.peers a.id l ≡ 1
    → matches r.peers a.id g.members ≡ 1
    → Unregistered r a b l g (unregister r a)
unfolding unregister find_session
unregister-Unregistered r a b j l g u m n one_l one_g =
    let s = a.service_name in
    let l' = others r.peers a.id l in
    let g' : Group = record g { members = others r.peers a.id g.members } in
    let r1 : Router = record r { uni = off_address r.uni a } in
    let r2 : Router = record r1 { multi = put_name r.multi s l' } in
    record {
      router = record r2 { any = put_name r.any s g' };
      returns =
          rw
            (
              uni_removed r a u,
              multi_removed r1 a m,
              erase_one r.peers a.id l one_l,
              any_removed r2 a n,
              erase_one r.peers a.id g.members one_g,
            )
            refl;
      finds = at_address-off_address r.uni a b;
      multi_cast = at_name-put_name r.multi s s l' ∙ own_name (at_name r.multi s) (some l');
      any_cast = at_name-put_name r.any s s g' ∙ own_name (at_name r.any s) (some g');
      same_peers = refl;
    }
  where
    own_name :
        {V : Type 0} (o v : Option V)
        → (if string_eq a.service_name a.service_name then v else o) ≡ v
    own_name o v = rw ((string_eq_iff a.service_name a.service_name).1 refl) refl

-- Where no session of the multi-cast group has the id, `erase` is called at the end of the list,
-- which C++ leaves undefined.
pub unregister_missing :
    (r : Router) (a : Address) (j : ℕ) (l : List ℕ)
    → find_session r a ≡ some j
    → at_name r.multi a.service_name ≡ some l
    → matches r.peers a.id l ≡ 0
    → unregister r a ≡ fault
unfolding unregister erase_matches
unregister_missing r a j l u m missing =
    rw (uni_removed r a u, multi_removed (record r { uni = off_address r.uni a }) a m, missing) refl
