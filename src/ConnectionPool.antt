-- ===== src/ConnectionPool.antt =====
-- Database::ConnectionPool (Gamnet/Database/ConnectionPool.h): an object pool of connections for
-- each kind of database. A connection is the number of an object; `connects` is what `Connect` of
-- a new connection answers for its information, and `fresh` the object. `Exception(0, ...)` has no
-- error code and is thrown as `undefined_error`.
pub mod Laws
mod Tests
use gamnet.Prelude.{
  ℕ, ◌+◌, ◌==◌, if◌then◌else◌, Bool, true, false, List, [], ◌∷◌, Option, none, some, Outcome, ok,
  throw, fault, undefined_error, find, insert, place, erase,
}
use gamnet.Pool

pub record Connections (Info : Type 0) : Type 0 where
  pub infos : List (ℕ × Info)
  pub pools : List (ℕ × Pool.Pool ℕ)

module _ {Info : Type 0} (connects : Info → Bool) where
  -- ConnectionPool::ConnectionFactory
  connection_factory : Connections Info → ℕ → ℕ → Outcome (Option ℕ)
  connection_factory c db_type fresh = elim (find c.infos db_type) [
    | none ↦ throw undefined_error
    | some info ↦ ok (if connects info then some fresh else none)
  ]

  -- `Create` on the pool of a type that has one; the map keeps the changed pool.
  create_in : Connections Info → ℕ → ℕ → Pool.Pool ℕ → Connections Info × Outcome (Option ℕ)
  unfolding connection_factory
  create_in c db_type fresh p =
      let r = Pool.create (λ i. i) (connection_factory c db_type fresh) p in
      (record c { pools = place (erase c.pools db_type) db_type r.0 }, r.1)

  -- ConnectionPool::GetConnection
  pub get_connection : Connections Info → ℕ → ℕ → Connections Info × Outcome ℕ
  unfolding create_in
  get_connection c db_type fresh = elim (find c.pools db_type) [
    | none ↦ (c, throw undefined_error)
    | some p ↦
        let r = create_in c db_type fresh p in
        (
          r.0,
          elim r.1 [
            | ok (some conn) ↦ ok conn
            | ok none ↦ throw undefined_error
            | throw e ↦ throw e
            | fault ↦ fault
          ],
        )
  ]

-- The end of the last pointer to a connection: it goes back to the pool that it came from.
pub returned : {Info : Type 0} → Connections Info → ℕ → ℕ → Connections Info
returned c db_type conn = elim (find c.pools db_type) [
  | none ↦ c
  | some p ↦ record c {
    pools = place (erase c.pools db_type) db_type (Pool.restitute p (some conn));
  }
]

-- ConnectionPool::Connect. The connection of the test goes back to the pool at the end.
pub connect :
    {Info : Type 0}
    → (Info → Bool)
    → Connections Info
    → ℕ
    → Info
    → ℕ
    → Connections Info × Outcome Bool
connect connects c db_type info fresh =
    let c1 = record c { infos = place c.infos db_type info } in
    let c2 = record c1 { pools = place c.pools db_type (Pool.new_pool 64) } in
    let r = create_in connects c2 db_type fresh (Pool.new_pool 64) in
    elim (find c.infos db_type) [
      | some old ↦ (c, ok false)
      | none ↦ elim (find c.pools db_type) [
        | some old ↦ (c1, ok false)
        | none ↦ elim r.1 [
          | ok (some conn) ↦ (returned r.0 db_type conn, ok true)
          | ok none ↦ (r.0, ok false)
          | throw e ↦ (r.0, throw e)
          | fault ↦ (r.0, fault)
        ]
      ]
    ]
