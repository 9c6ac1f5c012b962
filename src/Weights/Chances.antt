-- ===== src/Weights/Chances.antt =====
-- How many rolls give which value.
use gamnet.Prelude.{
  ℕ, ◌+◌, ◌-◌, ◌≤◌, ◌<◌, ◌≡◌, ◌^◌, ◌%◌, refl, sym, ap, ◌∙◌, arith, ◌==◌, ltb, if◌then◌else◌,
  Bool-cases, inl, inr, List, [], ◌∷◌, ◌++◌, append-nil, append_assoc, Option, none, some, Outcome,
  fault, ok, throw, underflow_error, not-ltb→le, le→not-ltb, ==_iff, ◌≢◌, true, false,
}
use gamnet.Weights.{Weights, no_weights, max_weight_constraint, set_weight, choose, random}

module _ {T : Type 0} where
  -- The weights set one after the other, as long as no call throws.
  pub set_weights : Weights T → List (T × ℕ) → Outcome (Weights T)
  set_weights w [] = ok w
  set_weights w ((value, weight) ∷ more) =
      let (w', o) = set_weight w value weight in
      elim o [ ok u ↦ set_weights w' more | throw e ↦ throw e | fault ↦ fault ]

  abbrev pub sum : List (T × ℕ) → ℕ
  sum [] = 0
  sum ((value, weight) ∷ more) = weight + sum more

  -- The first `weight` rolls give the value, and the others one of those behind it.
  abbrev pub drawn : List (T × ℕ) → ℕ → Option T
  drawn [] roll = none
  drawn ((value, weight) ∷ more) roll =
      let rest = drawn more (roll - weight) in if ltb roll weight then some value else rest

  -- The values with the sums of their weights from `from` on; no weight is no entry.
  sums : ℕ → List (T × ℕ) → List (ℕ × T)
  sums from [] = []
  sums from ((value, weight) ∷ more) =
      let rest = sums (from + weight) more in
      if weight == 0 then rest else (from + weight, value) ∷ rest

  set_weight_zero :
      (w : Weights T) (value : T) (weight : ℕ)
      → (weight == 0) ≡ true
      → set_weight w value weight ≡ (w, ok tt)
  unfolding set_weight
  set_weight_zero w value weight h = rw h

  set_weight_fits :
      (w : Weights T) (value : T) (weight : ℕ)
      → (weight == 0) ≡ false
      → w.total_weight + weight ≤ max_weight_constraint
      → set_weight w value weight ≡ (
        record {
          total_weight = w.total_weight + weight;
          values = w.values ++ (w.total_weight + weight, value) ∷ [];
        },
        ok tt,
      )
  unfolding set_weight
  set_weight_fits w value weight h k =
      let total : (w.total_weight + weight) % 2 ^ 32 ≡ w.total_weight + weight = omega arith in
      rw (h, total, le→not-ltb max_weight_constraint (w.total_weight + weight) k)

  set_weights_lem :
      (w : Weights T) (l : List (T × ℕ))
      → w.total_weight + sum l ≤ max_weight_constraint
      → (w' : Weights T) × (set_weights w l ≡ ok w')
        × (w'.total_weight ≡ w.total_weight + sum l)
        × (w'.values ≡ w.values ++ sums w.total_weight l)
  unfolding set_weights sums
  set_weights_lem w [] h = (w, refl, omega arith, sym (append-nil w.values))
  set_weights_lem w ((value, weight) ∷ more) h = elim (Bool-cases (weight == 0)) [
    | inl none_set ↦
        let (w', e, t, v) = set_weights_lem w more (omega arith) in
        let zero_weight : weight ≡ 0 = (==_iff weight 0).0 none_set in
        let same = set_weight_zero w value weight none_set in
        (
          w',
          rw (set_weights, same, same) e,
          omega arith,
          rw none_set (v ∙ ap (λ n. w.values ++ sums n more) (omega arith)),
        )
    | inr some_set ↦
        let fits = set_weight_fits w value weight some_set (omega arith) in
        let (w', e, t, v) =
          set_weights_lem
            (record {
              total_weight = w.total_weight + weight;
              values = w.values ++ (w.total_weight + weight, value) ∷ [];
            })
            more (omega arith) in
        (
          w',
          rw (set_weights, fits, fits) e,
          omega arith,
          rw some_set (
              v
              ∙ append_assoc w.values ((w.total_weight + weight, value) ∷ [])
                  (sums (w.total_weight + weight) more)),
        )
  ]

  choose-sums :
      (last : T) (from : ℕ) (l : List (T × ℕ)) (roll : ℕ) (t : T)
      → from ≤ roll
      → drawn l (roll - from) ≡ some t
      → choose last (sums from l) roll ≡ t
  unfolding choose sums
  choose-sums last from [] roll t h e = cc
  choose-sums last from ((value, weight) ∷ more) roll t h e = ground (
    arith,
    choose-sums last (from + weight) more roll t,
    choose-sums value (from + weight) more roll t,
    regroup,
  )
    where
      regroup : drawn more (roll - from - weight) ≡ drawn more (roll - (from + weight))
      regroup = ap (drawn more) (omega arith)

  drawn_within : (l : List (T × ℕ)) (roll : ℕ) → roll < sum l → (t : T) × (drawn l roll ≡ some t)
  drawn_within [] roll h = absurd (omega arith)
  drawn_within ((value, weight) ∷ more) roll h = elim (Bool-cases (ltb roll weight)) [
    | inl found ↦ (value, rw found)
    | inr beyond ↦
        let k : weight ≤ roll = not-ltb→le roll weight beyond in
        let (t, e) = drawn_within more (roll - weight) (omega arith) in (t, rw beyond e)
  ]

  chosen : List (ℕ × T) → ℕ → Outcome T
  chosen [] roll = throw underflow_error
  chosen (v ∷ more) roll = ok (choose v.1 (v ∷ more) roll)

  random-chosen :
      (total : ℕ) (l : List (ℕ × T)) (roll : ℕ)
      → random (record { total_weight = total; values = l }) roll ≡ chosen l roll
  unfolding random chosen
  random-chosen total [] roll = refl
  random-chosen total (v ∷ more) roll = refl

  not_empty : (from : ℕ) (l : List (T × ℕ)) (roll : ℕ) → roll < sum l → sums from l ≢ []
  unfolding sums
  not_empty from [] roll h e = absurd (omega arith)
  not_empty from ((value, weight) ∷ more) roll h e = elim (Bool-cases (weight == 0)) [
    | inl none_set ↦
        let z : weight ≡ 0 = (==_iff weight 0).0 none_set in
        let tail : sums (from + weight) more ≡ [] = rw none_set at e in
        not_empty (from + weight) more roll (omega arith) tail
    | inr some_set ↦
        let tail : (from + weight, value) ∷ sums (from + weight) more ≡ [] = rw some_set at e in cc
  ]

  chosen_lem :
      (vals : List (ℕ × T)) (l : List (T × ℕ)) (roll : ℕ) (t : T)
      → vals ≡ sums 0 l
      → roll < sum l
      → drawn l roll ≡ some t
      → chosen vals roll ≡ ok t
  unfolding chosen
  chosen_lem [] l roll t e k d = absurd (not_empty 0 l roll k (sym e))
  chosen_lem (v ∷ more) l roll t e k d = ap ok (
      ap (λ x. choose v.1 x roll) e
      ∙ choose-sums v.1 0 l roll t (omega arith) (ap (drawn l) (omega arith) ∙ d))

  random_lem :
      (w : Weights T) (l : List (T × ℕ)) (roll : ℕ) (t : T)
      → w.values ≡ sums 0 l
      → roll < sum l
      → drawn l roll ≡ some t
      → random w roll ≡ ok t
  random_lem w l roll t e k d =
      random-chosen w.total_weight w.values roll ∙ chosen_lem w.values l roll t e k d

  -- The values of weights set one after the other, of a sum that is not above the maximum: no call
  -- throws, the total is the sum, and for each roll below it `Random` gives the value whose share
  -- of the rolls, as many as its weight and in the order of the calls, has the roll.
  pub random-set_weights :
      (l : List (T × ℕ)) (roll : ℕ)
      → sum l ≤ max_weight_constraint
      → roll < sum l
      → (w : Weights T) × (t : T) × (set_weights no_weights l ≡ ok w)
        × (w.total_weight ≡ sum l)
        × (drawn l roll ≡ some t)
        × (random w roll ≡ ok t)
  random-set_weights l roll h k =
      let (w, e, total, values) = set_weights_lem no_weights l (omega arith) in
      let (t, d) = drawn_within l roll k in
      (w, t, e, omega arith, d, random_lem w l roll t values k d)
