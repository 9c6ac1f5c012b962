-- ===== src/Mysql.antt =====
-- Gamnet/Database/MySQL/ResultSet.cpp: walking over the rows of a result.
-- The client library is a parameter: a result is of any type, and `Client` has the three calls on
-- it. A row is the list of its columns, `none` where a column is NULL. All iterators of a result
-- share its cursor, so each operation gives the result after it.
pub mod Walks
mod Tests
use gamnet.Prelude.{
  ℕ, zero, suc, leb, if◌then◌else◌, Bool, List, [], ◌∷◌, Option, none, some, Outcome, ok, throw,
  fault, ◌>>=◌, get_elem?, null_pointer_error, invalid_array_range_error, invalid_key_error,
}
use gamnet.RouterCaster.{at_name}

abbrev pub Row : Type 0
Row = List (Option (List ℕ))

-- mysql_data_seek, mysql_fetch_row and mysql_num_rows
pub record Client (Res : Type 0) : Type 0 where
  pub data_seek : Res → ℕ → Res
  pub fetch_row : Res → Res × Option Row
  pub num_rows : Res → ℕ

-- ResultSetImpl, `none` for a NULL `res_`. A ResultSet is an `Option` of it.
pub record Result (Res : Type 0) : Type 0 where
  pub res : Option Res
  pub affected_row_count : ℕ
  pub last_insert_id : ℕ
  pub columns : List (List ℕ × ℕ)

-- A row whose first column is NULL is taken for none.
abbrev pub usable : Option Row → Option Row
usable none = none
usable (some []) = some []
usable (some (none ∷ columns)) = none
usable (some (some c ∷ columns)) = some (some c ∷ columns)

module _ {Res : Type 0} (client : Client Res) where
  -- ResultSet::GetAffectedRow
  pub get_affected_row : Option (Result Res) → ℕ
  get_affected_row none = 0
  get_affected_row (some r) = r.affected_row_count

  count_rows : Option Res → ℕ
  count_rows none = 0
  count_rows (some q) = client.num_rows q

  -- ResultSet::GetRowCount
  unfoldable pub get_row_count : Option (Result Res) → ℕ
  unfolding count_rows
  get_row_count none = 0
  get_row_count (some r) = count_rows r.res

  fetched : Result Res → Res → Result Res × Option Row
  fetched r q = let (q', row) = client.fetch_row q in (record r { res = some q' }, row)

  begin_at : Result Res → Option Res → Outcome (Result Res × Option Row)
  unfolding fetched
  begin_at r none = fault
  begin_at r (some q) = let (r', row) = fetched r (client.data_seek q 0) in ok (r', usable row)

  -- ResultSet::begin; with no result set, `row_` is not initialised, and a NULL `res_` is used.
  unfoldable pub begin : Option (Result Res) → Outcome (Result Res × Option Row)
  unfolding begin_at
  begin none = fault
  begin (some r) = begin_at r r.res

  -- ResultSet::iterator::operator ++ of a result that has rows
  unfoldable pub next : Result Res → Option Res → Outcome (Result Res × Option Row)
  unfolding fetched
  next r none = fault
  next r (some q) = ok (fetched r q)

  -- The rows that the loop from `begin` to `end` sees from a row on, with fuel.
  unfoldable pub walk : ℕ → Result Res → Option Row → Outcome (List Row)
  unfolding next
  walk fuel r none = ok []
  walk zero r (some row) = fault
  walk (suc fuel) r (some row) = next r r.res >>= λ s. walk fuel s.0 s.1 >>= λ rows. ok (row ∷ rows)

  -- A loop from `begin` to `end`
  unfoldable pub see : ℕ → Option (Result Res) → Outcome (List Row)
  unfolding begin walk
  see fuel r = begin r >>= λ s. walk fuel s.0 s.1

  at_row : Result Res → ℕ → Option Res → Outcome (Result Res × Option Row)
  unfolding fetched
  at_row r index none = throw null_pointer_error
  at_row r index (some q) =
      if leb (client.num_rows q) index
      then throw invalid_array_range_error
      else ok (fetched r (client.data_seek q index))

  -- ResultSet::operator []
  unfoldable pub get_row : Option (Result Res) → ℕ → Outcome (Result Res × Option Row)
  unfolding at_row
  get_row none index = throw null_pointer_error
  get_row (some r) index = at_row r index r.res

-- The text of a column; a NULL one makes a string of a NULL pointer.
column_text : Option (Option (List ℕ)) → Outcome (List ℕ)
column_text none = fault
column_text (some none) = fault
column_text (some (some text)) = ok text

-- ResultSet::iterator::getString
unfoldable pub get_string : {Res : Type 0} → Result Res → Option Row → List ℕ → Outcome (List ℕ)
unfolding column_text
get_string r row name = elim (at_name r.columns name) [
  | none ↦ throw invalid_key_error
  | some index ↦ elim row [
    | none ↦ throw null_pointer_error
    | some columns ↦ column_text (get_elem? columns index)
  ]
]
