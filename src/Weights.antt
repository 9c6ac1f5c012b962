-- ===== src/Weights.antt =====
-- WeightRandom (Gamnet/Library/Random.h): a value drawn with a chance in proportion to its weight.
-- `roll` is what `Random::Range(0, total - 1)` gives. std::overflow_error and std::underflow_error
-- are the two errors of those names.
pub mod Chances
mod Tests
use gamnet.Prelude.{
  ℕ, ◌+◌, ◌^◌, ◌%◌, ◌==◌, ltb, if◌then◌else◌, List, [], ◌∷◌, ◌++◌, Outcome, ok, throw,
  overflow_error, underflow_error,
}

-- Each value stands with the sum of the weights up to its own.
pub record Weights {ℓ} (T : Type ℓ) : Type ℓ where
  pub total_weight : ℕ
  pub values : List (ℕ × T)

-- WeightRandom::MAX_WEIGHT_CONSTRAINT
abbrev pub max_weight_constraint : ℕ
max_weight_constraint = 9999999

-- WeightRandom::WeightRandom()
abbrev pub no_weights {ℓ} : {T : Type ℓ} → Weights T
no_weights = record { total_weight = 0; values = [] }

-- WeightRandom::SetWeight. The total is changed before it is checked.
unfoldable pub set_weight {ℓ} : {T : Type ℓ} → Weights T → T → ℕ → Weights T × Outcome (Unit {0})
set_weight w value weight =
    let total = (w.total_weight + weight) % 2 ^ 32 in
    if weight == 0
    then (w, ok tt)
    else if ltb max_weight_constraint total
    then (record w { total_weight = total }, throw overflow_error)
    else (record { total_weight = total; values = w.values ++ (total, value) ∷ [] }, ok tt)

-- The loop of `Random`; behind it the last value is given.
unfoldable pub choose {ℓ} : {T : Type ℓ} → T → List (ℕ × T) → ℕ → T
choose last [] roll = last
choose last ((bound, value) ∷ more) roll =
    let rest = choose value more roll in if ltb roll bound then value else rest

-- WeightRandom::Random
unfoldable pub random {ℓ} : {T : Type ℓ} → Weights T → ℕ → Outcome T
unfolding choose
random w roll = elim w.values [
  | [] ↦ throw underflow_error
  | v ∷ more ↦ ok (choose v.1 (v ∷ more) roll)
]
