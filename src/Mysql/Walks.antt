-- ===== src/Mysql/Walks.antt =====
-- Which rows a loop over a result sees.
use gamnet.Prelude.{
  Outcome, Option, Option-cases, inl, inr, ℕ, zero, suc, ◌≤◌, ◌<◌, ◌≡◌, refl, ap, ◌∙◌, arith, List,
  [], ◌∷◌, none, some, ok, throw, le→leb, not-leb_of_lt, invalid_array_range_error, length, drop,
  get_elem?,
}
use gamnet.Mysql.{
  Row, Client, Result, usable, fetched, see, get_row_count, count_rows, begin, begin_at, next, walk,
  get_row, at_row,
}

-- What the client library says of its calls, of all rows of a result and those behind its cursor.
pub record Documented {Res : Type 0} (client : Client Res) (rows rest : Res → List Row)
    : Type 0 where
  pub seek_rest : (q : Res) (n : ℕ) → rest (client.data_seek q n) ≡ drop n (rows q)
  pub fetch_none : (q : Res) → rest q ≡ [] → (client.fetch_row q).1 ≡ none
  pub fetch_some :
      (q : Res) (x : Row) (l : List Row)
      → rest q ≡ x ∷ l
      → ((client.fetch_row q).1 ≡ some x) × (rest (client.fetch_row q).0 ≡ l)
  pub counts : (q : Res) → client.num_rows q ≡ length (rows q)

-- The first row, if there is one, is not taken for none.
abbrev pub StartsUsable : List Row → Type 0
StartsUsable [] = Unit {0}
StartsUsable (x ∷ l) = usable (some x) ≡ some x

some_value : {x y : Row} → some x ≡ some y → x ≡ y
some_value e = cc

found_at :
    (l : List Row) (i : ℕ) (x : Row)
    → get_elem? l i ≡ some x
    → (i < length l) × (m : List Row) × (drop i l ≡ x ∷ m)
found_at [] i x e = absurd cc
found_at (y ∷ l) zero x e = (omega arith, l, ap (λ o. o ∷ l) (some_value e))
found_at (y ∷ l) (suc i) x e = let (h, m, d) = found_at l i x e in (omega arith, m, d)

missing_at : (l : List Row) (i : ℕ) → get_elem? l i ≡ none → length l ≤ i
missing_at [] i e = omega arith
missing_at (y ∷ l) zero e = absurd cc
missing_at (y ∷ l) (suc i) e = omega (arith, missing_at l i e)

module _ {Res : Type 0} {client : Client Res} {rows rest : Res → List Row}
    (doc : Documented client rows rest) where
  walk_lem :
      (l : List Row) (r : Result Res) (q : Res) (fuel : ℕ) (x : Row)
      → r.res ≡ some q
      → rest q ≡ l
      → length l < fuel
      → walk client fuel r (some x) ≡ ok (x ∷ l)
  unfolding walk next fetched
  walk_lem l r q zero x e same h = absurd (omega arith)
  walk_lem [] r q (suc fuel) x e same h = rw (e, doc.fetch_none q same) refl
  walk_lem (y ∷ l) r q (suc fuel) x e same h =
      let (row, more) = doc.fetch_some q y l same in
      let q' = (client.fetch_row q).0 in
      rw (e, row, walk_lem l (record r { res = some q' }) q' fuel y refl more (omega arith)) refl

  -- The loop over a result of which the first row, if there is one, does not begin with a NULL
  -- column: it sees all rows of the result, once and in order, and ends.
  pub see-rows :
      (r : Result Res) (q : Res)
      → r.res ≡ some q
      → StartsUsable (rows q)
      → see client (suc (length (rows q))) (some r) ≡ ok (rows q)
  unfolding see begin begin_at fetched
  see-rows r q e h = go (rows q) refl h
    where
      start : Res
      start = client.data_seek q 0

      go :
          (l : List Row) → rows q ≡ l → StartsUsable l → see client (suc (length l)) (some r) ≡ ok l
      go [] same k = rw (e, doc.fetch_none start (doc.seek_rest q 0 ∙ same)) refl
      go (x ∷ l) same k =
          let (row, more) = doc.fetch_some start x l (doc.seek_rest q 0 ∙ same) in
          rw (e, row, k)
            (walk_lem l (record r { res = some (client.fetch_row start).0 })
              (client.fetch_row start).0 (suc (length (x ∷ l))) x refl more (omega arith))

  -- Where the first column of the first row is NULL, the loop sees no row at all, however many there
  -- are.
  pub see_nothing :
      (r : Result Res) (q : Res) (fuel : ℕ) (columns : Row) (l : List Row)
      → r.res ≡ some q
      → rows q ≡ (none ∷ columns) ∷ l
      → (see client fuel (some r) ≡ ok []) × (get_row_count client (some r) ≡ suc (length l))
  unfolding see begin begin_at fetched walk get_row_count count_rows
  see_nothing r q fuel columns l e same =
      let (row, more) =
        doc.fetch_some (client.data_seek q 0) (none ∷ columns) l (doc.seek_rest q 0 ∙ same) in
      (rw (e, row) refl, rw (e, doc.counts q) (ap length same))

  pub found_row : Result Res → Option Row → Outcome (Result Res × Option Row)
  found_row r none = throw invalid_array_range_error
  found_row r (some x) = ok (r, some x)

  -- The row at an index, by the client's cursor, is the row that stands there, or an error if none
  -- does.
  pub get_row-get_elem :
      (r : Result Res) (q : Res) (index : ℕ)
      → r.res ≡ some q
      → get_row client (some r) index
        ≡ found_row
            (record r { res = some (client.fetch_row (client.data_seek q index)).0 })
            (get_elem? (rows q) index)
  unfolding get_row at_row fetched found_row
  get_row-get_elem r q index e = elim (Option-cases (get_elem? (rows q) index)) [
    | inl missing ↦
        rw
          (
            e,
            doc.counts q,
            missing,
            le→leb (length (rows q)) index (missing_at (rows q) index missing),
          )
          refl
    | inr (x, found) ↦
        let (inside, l, tail) = found_at (rows q) index x found in
        let (row, more) =
          doc.fetch_some (client.data_seek q index) x l (doc.seek_rest q index ∙ tail) in
        rw (e, doc.counts q, found, not-leb_of_lt (length (rows q)) index inside, row) refl
  ]
