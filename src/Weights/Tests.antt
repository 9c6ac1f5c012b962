-- ===== src/Weights/Tests.antt =====
-- A concrete input for the theorem on the weights.
use gamnet.Prelude.{ℕ, ◌≡◌, arith, List, [], ◌∷◌, some, ok}
use gamnet.Weights.{Weights, no_weights, random}
use gamnet.Weights.Chances.{set_weights, drawn, random-set_weights}

abbrev prizes : List (ℕ × ℕ)
prizes = (10, 3) ∷ (20, 0) ∷ (30, 2) ∷ []

random-set_weights_example :
    (w : Weights ℕ) × (t : ℕ) × (set_weights no_weights prizes ≡ ok w)
    × (w.total_weight ≡ 5)
    × (drawn prizes 3 ≡ some t)
    × (random w 3 ≡ ok t)
random-set_weights_example = random-set_weights prizes 3 (omega arith) (omega arith)
