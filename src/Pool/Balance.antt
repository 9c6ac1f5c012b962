-- ===== src/Pool/Balance.antt =====
-- The objects of a pool over its whole life: idle, held by a caller, or lost.
use gamnet.Prelude.{
  ℕ, zero, suc, ◌+◌, ◌-◌, ◌≤◌, ◌<◌, ◌^◌, ◌≡◌, ◌⊎◌, ◌↔◌, refl, sym, ap, ◌∙◌, arith, leb,
  not-leb_of_lt, le→leb, inl, inr, Bool-cases, Option-cases, false, List, [], ◌∷◌, Option, none,
  some, length, replicate, Outcome, ok, throw, fault, leb→le,
}
use gamnet.Pool.{Pool, new_pool, create, create_from, make, restitute, available, set_capacity}

-- A pool with its users: the objects that they hold, and how many calls of the factory were counted
-- and gave no object.
pub record World {ℓ} (T : Type ℓ) : Type ℓ where
  pub pool : Pool T
  pub held : List T
  pub lost : ℕ

-- A call of `Create`, with what the factory would give; the end of the i-th held pointer;
-- `Capacity` of a number.
pub data Call {ℓ} (T : Type ℓ) : Type ℓ where
  asks : Outcome (Option T) → Call T
  ends : ℕ → Call T
  sets : ℕ → Call T

-- The i-th object and the others.
abbrev pub pick {ℓ} : {T : Type ℓ} → List T → ℕ → Option (T × List T)
pick [] i = none
pick (t ∷ ts) zero = some (t, ts)
pick (t ∷ ts) (suc i) = elim (pick ts i) [ none ↦ none | some r ↦ some (r.0, t ∷ r.1) ]

abbrev pub holds_more {ℓ} : {T : Type ℓ} → World T → Pool T × Outcome (Option T) → World T
holds_more w (p, ok (some t)) = record w { pool = p; held = t ∷ w.held }
holds_more w (p, ok none) = record w { pool = p; lost = w.lost + (p.cur_size - w.pool.cur_size) }
holds_more w (p, throw e) = record w { pool = p; lost = w.lost + (p.cur_size - w.pool.cur_size) }
holds_more w (p, fault) = record w { pool = p; lost = w.lost + (p.cur_size - w.pool.cur_size) }

abbrev pub hands_back {ℓ} : {T : Type ℓ} → World T → Option (T × List T) → World T
hands_back w none = w
hands_back w (some (t, ts)) = record w { pool = restitute w.pool (some t); held = ts }

pub apply {ℓ} : {T : Type ℓ} → (T → T) → World T → Call T → World T
apply init w (asks made) = holds_more w (create init made w.pool)
apply init w (ends i) = hands_back w (pick w.held i)
apply init w (sets n) = record w { pool = set_capacity w.pool n }

pub live {ℓ} : {T : Type ℓ} → (T → T) → World T → List (Call T) → World T
live init w [] = w
live init w (c ∷ cs) = live init (apply init w c) cs

abbrev pub fresh_world {ℓ} : {T : Type ℓ} → ℕ → World T
fresh_world n = record { pool = new_pool n; held = []; lost = 0 }

pub record Balanced {ℓ} {T : Type ℓ} (n m : ℕ) (w : World T) : Type 0 where
  pub counted : length w.pool.idle + length w.held + w.lost ≡ w.pool.cur_size
  pub limit : w.pool.max_size ≡ n
  pub room : n ≤ m
  pub bounded : w.pool.cur_size ≤ m

pick_counts {ℓ} :
    {T : Type ℓ} (ts : List T) (i : ℕ) {r : T × List T}
    → pick ts i ≡ some r
    → length ts ≡ suc (length r.1)
pick_counts [] i e = cc
pick_counts (t ∷ ts) zero e = ground arith
pick_counts {T = T} (t ∷ ts) (suc i) {r} e = elim (Option-cases (pick ts i)) [
  | inl none_left ↦ absurd (no-pick (rw none_left at e))
  | inr (r, found) ↦
      let h : length ts ≡ suc (length r.1) = pick_counts ts i found in counted r (rw found at e) h
]
  where
    no-pick : none ≡ some r → ⊥
    no-pick e = cc

    counted :
        (q : T × List T)
        → some (q.0, t ∷ q.1) ≡ some r
        → length ts ≡ suc (length q.1)
        → suc (length ts) ≡ suc (length r.1)
    counted q e h = ground (arith)

List-cases {ℓ} : {T : Type ℓ} (l : List T) → (l ≡ []) ⊎ ((t : T) × (rest : List T) × (l ≡ t ∷ rest))
List-cases [] = inl refl
List-cases (t ∷ rest) = inr (t, rest, refl)

not-leb→lt : (a b : ℕ) → leb a b ≡ false → b < a
not-leb→lt a b h = ground arith

make-Balanced {ℓ} :
    {T : Type ℓ} (init : T → T) (n m : ℕ) (w : World T) (made : Outcome (Option T))
    → w.pool.idle ≡ []
    → w.pool.cur_size < w.pool.max_size
    → Balanced n m w
    → Balanced n m (holds_more w (make init made w.pool))
unfolding make
make-Balanced init n m w (ok none) e h b = omega (arith, b.counted, b.limit, b.room, b.bounded)
make-Balanced init n m w (ok (some t)) e h b = omega (arith, b.counted, b.limit, b.room, b.bounded)
make-Balanced init n m w (throw x) e h b = omega (arith, b.counted, b.limit, b.room, b.bounded)
make-Balanced init n m w fault e h b = omega (arith, b.counted, b.limit, b.room, b.bounded)

module _ {ℓ} {T : Type ℓ} (init : T → T) (made : Outcome (Option T)) (p : Pool T) where
  create_refuses : p.idle ≡ [] → p.max_size ≤ p.cur_size → create init made p ≡ (p, ok none)
  unfolding create create_from
  create_refuses e h = ap (create_from init made p) e ∙ rw (le→leb p.max_size p.cur_size h) refl

  create_makes : p.idle ≡ [] → p.cur_size < p.max_size → create init made p ≡ make init made p
  unfolding create create_from
  create_makes e h =
      ap (create_from init made p) e ∙ rw (not-leb_of_lt p.max_size p.cur_size h) refl

  create_reuses :
      (t : T) (rest : List T)
      → p.idle ≡ t ∷ rest
      → create init made p ≡ (record p { idle = rest }, ok (some (init t)))
  unfolding create create_from
  create_reuses t rest e = ap (create_from init made p) e

holds_more-Balanced {ℓ} :
    {T : Type ℓ} (init : T → T) (n m : ℕ) (w : World T) (made : Outcome (Option T))
    → Balanced n m w
    → Balanced n m (holds_more w (create init made w.pool))
holds_more-Balanced init n m w made b = elim (List-cases w.pool.idle) [
  | inl e ↦ elim (Bool-cases (leb w.pool.max_size w.pool.cur_size)) [
    | inl full ↦
        rw (create_refuses init made w.pool e (leb→le _ _ full))
          (omega (arith, b.counted, b.limit, b.room, b.bounded))
    | inr room ↦
        rw (create_makes init made w.pool e (not-leb→lt _ _ room))
          (make-Balanced init n m w made e (not-leb→lt _ _ room) b)
  ]
  | inr (t, rest, e) ↦
      rw (create_reuses init made w.pool t rest e)
        (omega (arith, b.counted, b.limit, b.room, b.bounded, ap length e))
]

hands_back-Balanced {ℓ} :
    {T : Type ℓ} (n m i : ℕ) (w : World T)
    → Balanced n m w
    → Balanced n m (hands_back w (pick w.held i))
unfolding restitute
hands_back-Balanced n m i w b = elim (Option-cases (pick w.held i)) [
  | inl e ↦ rw e b
  | inr (r, e) ↦ rw e (omega (arith, pick_counts w.held i e, b.counted, b.limit, b.room, b.bounded))
]

-- The capacity behind calls, and that none sets one above `m`
abbrev pub last_capacity {ℓ} : {T : Type ℓ} → ℕ → List (Call T) → ℕ
last_capacity n [] = n
last_capacity n (asks made ∷ cs) = last_capacity n cs
last_capacity n (ends i ∷ cs) = last_capacity n cs
last_capacity n (sets k ∷ cs) = last_capacity k cs

abbrev pub AllUpTo {ℓ} : {T : Type ℓ} → ℕ → List (Call T) → Type 0
AllUpTo m [] = Unit {0}
AllUpTo m (asks made ∷ cs) = AllUpTo m cs
AllUpTo m (ends i ∷ cs) = AllUpTo m cs
AllUpTo m (sets k ∷ cs) = (k ≤ m) × AllUpTo m cs

-- Whatever calls are made of a new pool, `Capacity` with a number too, in whatever order, and
-- whatever its factory gives: every object counted is idle, held or lost to a factory that gave none,
-- the maximum is the last that was set, and there are never more objects than `m`, where no maximum
-- that was set is above `m`.
pub live-Balanced {ℓ} :
    {T : Type ℓ} (init : T → T) (n m : ℕ) (cs : List (Call T))
    → n ≤ m
    → AllUpTo m cs
    → Balanced (last_capacity n cs) m (live init (fresh_world n) cs)
unfolding new_pool live apply set_capacity
live-Balanced {T = T} init n m cs h all = goes_on n cs (fresh_world n) all (omega (arith, h))
  where
    goes_on :
        (n : ℕ) (cs : List (Call T)) (w : World T)
        → AllUpTo m cs
        → Balanced n m w
        → Balanced (last_capacity n cs) m (live init w cs)
    goes_on n [] w all b = b
    goes_on n (asks made ∷ cs) w all b =
        goes_on n cs (apply init w (asks made)) all (holds_more-Balanced init n m w made b)
    goes_on n (ends i ∷ cs) w all b =
        goes_on n cs (apply init w (ends i)) all (hands_back-Balanced n m i w b)
    goes_on n (sets k ∷ cs) w (h, all) b =
        goes_on k cs (apply init w (sets k)) all (omega (arith, h, b.counted, b.bounded))

-- `Available` is the maximum without the objects held and lost, and `Create` refuses exactly when
-- it is 0, where the maximum is below 2 ^ 63 and the factory has an object to give.
pub create-available {ℓ} :
    {T : Type ℓ} (init : T → T) (n : ℕ) (w : World T) (t : T)
    → Balanced n n w
    → n < 2 ^ 63
    → (available w.pool + (length w.held + w.lost) ≡ n)
      × (((create init (ok (some t)) w.pool).1 ≡ ok none) ↔ (available w.pool ≡ 0))
unfolding available make
create-available {T = T} init n w t b h = elim (List-cases w.pool.idle) [
  | inl e ↦ elim (Bool-cases (leb w.pool.max_size w.pool.cur_size)) [
    | inl full ↦ (
      omega (arith, b.counted, b.limit, b.bounded),
      (
        λ k. omega (arith, b.counted, b.limit, b.bounded, leb→le _ _ full, ap length e),
        λ k. ap (λ r. r.1) (create_refuses init (ok (some t)) w.pool e (leb→le _ _ full)),
      ),
    )
    | inr room ↦ (
      omega (arith, b.counted, b.limit, b.bounded),
      (
        λ k. absurd (
            some-no (
              sym (ap (λ r. r.1) (create_makes init (ok (some t)) w.pool e (not-leb→lt _ _ room)))
              ∙ k)),
        λ k.
            absurd (omega (arith, b.counted, b.limit, b.bounded, ap length e, not-leb→lt _ _ room)),
      ),
    )
  ]
  | inr (u, rest, e) ↦ (
    omega (arith, b.counted, b.limit, b.bounded),
    (
      λ k.
          absurd
            (some-no (sym (ap (λ r. r.1) (create_reuses init (ok (some t)) w.pool u rest e)) ∙ k)),
      λ k. absurd (omega (arith, ap length e)),
    ),
  )
]
  where
    some-no : {v : T} → ◌≡◌ {A = Outcome (Option T)} (ok (some v)) (ok none) → ⊥
    some-no e = cc

record WornOut {ℓ} {T : Type ℓ} (k n : ℕ) (w : World T) : Type ℓ where
  nothing_idle : w.pool.idle ≡ []
  nothing_held : w.held ≡ []
  all_counted : w.pool.cur_size ≡ k
  limited : w.pool.max_size ≡ n

wears_out {ℓ} :
    {T : Type ℓ} (init : T → T) (k j n : ℕ) (w : World T)
    → WornOut j n w
    → j + k ≡ n
    → WornOut n n (live init w (replicate k (asks (ok none))))
unfolding live apply make
wears_out init zero j n w o h = record {
  nothing_idle = o.nothing_idle;
  nothing_held = o.nothing_held;
  all_counted = omega (arith, o.all_counted, h);
  limited = o.limited;
}
wears_out init (suc k) j n w o h =
    let room : w.pool.cur_size < w.pool.max_size = omega (arith, o.limited, o.all_counted) in
    rw (live, create_makes init (ok none) w.pool o.nothing_idle room)
      (wears_out init k (suc j) n _
        (record {
          nothing_idle = o.nothing_idle;
          nothing_held = o.nothing_held;
          all_counted = omega (arith, o.all_counted);
          limited = o.limited;
        })
        (omega arith))

-- A new pool of `n` whose factory has answered NULL `n` times has nothing left for ever: no object
-- is held, and yet `Create` refuses, whatever the factory would give now.
pub failures_exhaust {ℓ} :
    {T : Type ℓ} (init : T → T) (n : ℕ) (made : Outcome (Option T))
    → let w = live init (fresh_world n) (replicate n (asks (ok none))) in
      (w.held ≡ []) × (create init made w.pool ≡ (w.pool, ok none))
unfolding new_pool
failures_exhaust init n made =
    let o =
      wears_out init n 0 n (fresh_world n)
        (record { nothing_idle = refl; nothing_held = refl; all_counted = refl; limited = refl })
        (omega arith) in
    (
      o.nothing_held,
      create_refuses init made _ o.nothing_idle (omega (arith, o.limited, o.all_counted)),
    )
