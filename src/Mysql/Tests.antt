-- ===== src/Mysql/Tests.antt =====
-- Concrete inputs for the theorems on results: a client library whose result is the list of its rows
-- with those behind the cursor.
use gamnet.Prelude.{ap, ◌≡◌, refl, List, [], ◌∷◌, Option, none, some, ok, length, drop}
use gamnet.Mysql.{Row, Client, Result, see}
use gamnet.Mysql.Walks.{Documented, see-rows}

abbrev Res : Type 0
Res = List Row × List Row

abbrev fetch : List Row → List Row → Res × Option Row
fetch rows [] = ((rows, []), none)
fetch rows (x ∷ l) = ((rows, l), some x)

abbrev library : Client Res
library = record {
  data_seek = λ q n. (q.0, drop n q.0);
  fetch_row = λ q. fetch q.0 q.1;
  num_rows = λ q. length q.0;
}

documented : Documented library (λ q. q.0) (λ q. q.1)
documented = record {
  seek_rest = λ q n. refl;
  fetch_none = λ q e. ap (λ l. (fetch q.0 l).1) e;
  fetch_some = λ q x l e. (ap (λ m. (fetch q.0 m).1) e, ap (λ m. (fetch q.0 m).0.1) e);
  counts = λ q. refl;
}

abbrev two_rows : List Row
two_rows = (some (49 ∷ []) ∷ []) ∷ (none ∷ []) ∷ []

abbrev result : Result Res
result = record {
  res = some (two_rows, []);
  affected_row_count = 0;
  last_insert_id = 0;
  columns = [];
}

see-rows_example : see library 3 (some result) ≡ ok two_rows
see-rows_example = see-rows documented result (two_rows, []) refl refl

abbrev null_first : Result Res
null_first = record result { res = some ((none ∷ []) ∷ two_rows, []) }
