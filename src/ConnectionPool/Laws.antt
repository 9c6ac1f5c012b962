-- ===== src/ConnectionPool/Laws.antt =====
-- A connection that is made is used again.
use gamnet.Prelude.{
  ℕ, ◌≡◌, refl, arith, Bool, true, List, [], ◌∷◌, none, some, ok, find, place, erase, find-place,
  find-erase,
}
use gamnet.Pool
use gamnet.ConnectionPool.{
  Connections, connection_factory, create_in, get_connection, returned, connect,
}

find_placed :
    {V : Type 0} (m : List (ℕ × V)) (k : ℕ) (v : V)
    → find m k ≡ none
    → find (place m k v) k ≡ some v
find_placed m k v e = ground (arith, find-place m k v k e)

find_put : {V : Type 0} (m : List (ℕ × V)) (k : ℕ) (v : V) → find (place (erase m k) k v) k ≡ some v
find_put m k v = find_placed (erase m k) k v (ground (arith, find-erase m k k))

find-returned :
    {Info : Type 0} (c : Connections Info) (db_type conn : ℕ) (p : Pool.Pool ℕ)
    → find c.pools db_type ≡ some p
    → find (returned c db_type conn).pools db_type ≡ some (Pool.restitute p (some conn))
unfolding returned
find-returned c db_type conn p e =
    rw (returned, e) (find_put c.pools db_type (Pool.restitute p (some conn)))

get_idle :
    {Info : Type 0} (connects : Info → Bool) (c : Connections Info)
    → (db_type fresh conn : ℕ) (rest : List ℕ) (made most : ℕ)
    → find c.pools db_type ≡ some (record { idle = conn ∷ rest; cur_size = made; max_size = most })
    → (get_connection connects c db_type fresh).1 ≡ ok conn
unfolding get_connection create_in Pool.create
get_idle connects c db_type fresh conn rest made most e = rw (get_connection, e) refl

-- The first connection of a pool.
abbrev one_made : Pool.Pool ℕ
one_made = record { idle = []; cur_size = 1; max_size = 64 }

create_first :
    {Info : Type 0} (connects : Info → Bool) (c : Connections Info) (db_type fresh : ℕ)
    → (info : Info) → find c.infos db_type ≡ some info
    → connects info ≡ true
    → create_in connects c db_type fresh (Pool.new_pool 64)
      ≡ (record c { pools = place (erase c.pools db_type) db_type one_made }, ok (some fresh))
unfolding create_in connection_factory Pool.create Pool.new_pool
create_first connects c db_type fresh info e up = rw (create_in, connection_factory, e, up) refl

-- `Connect` of a new type of database whose server answers succeeds, and the next `GetConnection`
-- gives the connection of that test and makes no other.
pub get_connection-connect :
    {Info : Type 0} (connects : Info → Bool) (c : Connections Info) (db_type fresh other : ℕ)
    → (info : Info) → find c.infos db_type ≡ none
    → find c.pools db_type ≡ none
    → connects info ≡ true
    → let r = connect connects c db_type info fresh in
      (r.1 ≡ ok true) × ((get_connection connects r.0 db_type other).1 ≡ ok fresh)
unfolding connect Pool.restitute
get_connection-connect connects c db_type fresh other info no_info no_pool up =
    let first =
      create_first connects
        (record {
          infos = place c.infos db_type info;
          pools = place c.pools db_type (Pool.new_pool 64);
        })
        db_type fresh info (find_placed c.infos db_type info no_info) up in
    rw (connect, no_info, no_pool, first, first)
      (
        refl,
        get_idle connects _ db_type other fresh [] 1 64 (
            find-returned _ db_type fresh one_made
              (find_put (place c.pools db_type (Pool.new_pool 64)) db_type one_made)),
      )
