-- ===== src/Prelude/Maps.antt =====
-- std::map with numbers for keys, as the list of its pairs in the order of iteration.
use gamnet.Prelude.Tests.{ltb, ◌==◌, if◌then◌else◌}
use Prim.Native.Nat.{ℕ, ◌≤◌, ◌<◌}
use mathlib.Core.Path.{◌≡◌, refl}
use mathlib.Core.Bool.{Bool, true, false}
use mathlib.Core.Option.{Option, none, some}
use mathlib.Core.List.{List, [], ◌∷◌}
use native.Mathlib.Omega.{arith}

module _ {ℓ} {V : Type ℓ} where
  abbrev pub find : List (ℕ × V) → ℕ → Option V
  find [] k = none
  find ((j, v) ∷ m) k = let rest = find m k in if j == k then some v else rest

  -- A pair put before the first greater key.
  abbrev pub place : List (ℕ × V) → ℕ → V → List (ℕ × V)
  place [] k v = (k, v) ∷ []
  place ((j, w) ∷ m) k v =
      let rest = place m k v in if ltb k j then (k, v) ∷ ((j, w) ∷ m) else (j, w) ∷ rest

  -- `insert`, which does nothing where the key is taken.
  abbrev pub insert : List (ℕ × V) → ℕ → V → List (ℕ × V) × Bool
  insert m k v = elim (find m k) [ none ↦ (place m k v, true) | some w ↦ (m, false) ]

  abbrev pub erase : List (ℕ × V) → ℕ → List (ℕ × V)
  erase [] k = []
  erase ((j, v) ∷ m) k = let rest = erase m k in if j == k then rest else (j, v) ∷ rest

  -- The pairs that a loop over the map keeps, and those that it erases.
  abbrev pub retain : (V → Bool) → List (ℕ × V) → List (ℕ × V)
  retain keep [] = []
  retain keep ((j, v) ∷ m) = let rest = retain keep m in if keep v then (j, v) ∷ rest else rest

  abbrev pub dropped : (V → Bool) → List (ℕ × V) → List V
  dropped keep [] = []
  dropped keep ((j, v) ∷ m) = let rest = dropped keep m in if keep v then rest else v ∷ rest

  abbrev pub kept : (V → Bool) → Option V → Option V
  kept keep none = none
  kept keep (some v) = if keep v then some v else none

  -- Every key is above `k`; the keys grow along the list.
  abbrev pub Above : ℕ → List (ℕ × V) → Type 0
  Above k [] = Unit {0}
  Above k ((j, v) ∷ m) = (k < j) × Above k m

  abbrev pub IsSorted : List (ℕ × V) → Type 0
  IsSorted [] = Unit {0}
  IsSorted ((j, v) ∷ m) = Above j m × IsSorted m

  Above-lower : (i k : ℕ) (m : List (ℕ × V)) → i ≤ k → Above k m → Above i m
  Above-lower i k [] h a = tt
  Above-lower i k ((j, v) ∷ m) h (a, more) = (omega arith, Above-lower i k m h more)

  find-Above : (i k : ℕ) (m : List (ℕ × V)) → i ≤ k → Above k m → find m i ≡ none
  find-Above i k [] h a = refl
  find-Above i k ((j, v) ∷ m) h (a, more) = ground (arith, find-Above i k m h more)

  place-Above : (i k : ℕ) (v : V) (m : List (ℕ × V)) → i < k → Above i m → Above i (place m k v)
  place-Above i k v [] h a = (h, tt)
  place-Above i k v ((j, w) ∷ m) h (a, more) = ground (arith, place-Above i k v m h more)

  pub place-IsSorted :
      (m : List (ℕ × V)) (k : ℕ) (v : V) → IsSorted m → find m k ≡ none → IsSorted (place m k v)
  place-IsSorted [] k v s h = (tt, tt)
  place-IsSorted ((j, w) ∷ m) k v (a, s) h =
      ground (arith, place-IsSorted m k v s, place-Above j k v m, Above-lower k j m)

  pub find-place :
      (m : List (ℕ × V)) (k : ℕ) (v : V) (i : ℕ)
      → find m k ≡ none
      → find (place m k v) i ≡ (if k == i then some v else find m i)
  find-place [] k v i h = refl
  find-place ((j, w) ∷ m) k v i h = ground (arith, find-place m k v i)

  erase-Above : (i k : ℕ) (m : List (ℕ × V)) → Above i m → Above i (erase m k)
  erase-Above i k [] a = tt
  erase-Above i k ((j, v) ∷ m) (a, more) = ground (arith, erase-Above i k m more)

  pub erase-IsSorted : (m : List (ℕ × V)) (k : ℕ) → IsSorted m → IsSorted (erase m k)
  erase-IsSorted [] k s = tt
  erase-IsSorted ((j, v) ∷ m) k (a, s) = ground (arith, erase-IsSorted m k s, erase-Above j k m a)

  pub find-erase :
      (m : List (ℕ × V)) (k i : ℕ) → find (erase m k) i ≡ (if k == i then none else find m i)
  find-erase [] k i = ground arith
  find-erase ((j, v) ∷ m) k i = ground (arith, find-erase m k i)

  retain-Above : (keep : V → Bool) (i : ℕ) (m : List (ℕ × V)) → Above i m → Above i (retain keep m)
  retain-Above keep i [] a = tt
  retain-Above keep i ((j, v) ∷ m) (a, more) = ground (arith, retain-Above keep i m more)

  pub retain-IsSorted : (keep : V → Bool) (m : List (ℕ × V)) → IsSorted m → IsSorted (retain keep m)
  retain-IsSorted keep [] s = tt
  retain-IsSorted keep ((j, v) ∷ m) (a, s) =
      ground (arith, retain-IsSorted keep m s, retain-Above keep j m a)

  pub find-retain :
      (keep : V → Bool) (m : List (ℕ × V)) (i : ℕ)
      → IsSorted m
      → find (retain keep m) i ≡ kept keep (find m i)
  find-retain keep [] i s = refl
  find-retain keep ((j, v) ∷ m) i (a, s) = ground (arith, find-retain keep m i s, find-Above i j m)
