-- ===== src/Prelude/Memory.antt =====
-- A block of bytes, and the copies that C makes in it. A copy out of range is `fault`.
use Prim.Native.Nat.{ℕ, zero, suc, ◌+◌, ◌-◌, ◌≤◌, ◌<◌}
use mathlib.Core.Path.{◌≡◌, refl, sym, ◌∙◌, ap, ap₂}
use mathlib.Core.Bool.{◌&&◌}
use mathlib.Core.List.{List, [], ◌∷◌, ◌++◌}
use native.Mathlib.Omega.{arith}
use gamnet.Prelude.Tests.{leb, ltb, if◌then◌else◌, le→leb, lt→ltb, le→not-ltb, not-leb_of_lt}
use gamnet.Prelude.Effects.{Outcome, ok, fault, ◌>>=◌}
use gamnet.Prelude.Lists.{
  length, take, drop, length-append, length-take, length-drop, take-append, take-append_all,
  drop-append, drop-append_all, drop-drop, take-add, take-nil,
}

module _ {ℓ} {A : Type ℓ} where
  abbrev pub slice : List A → ℕ → ℕ → List A
  slice mem off n = take n (drop off mem)

  -- `n` elements from `mem + off`.
  unfoldable pub read_at : List A → ℕ → ℕ → Outcome (List A)
  read_at mem off n = if leb (off + n) (length mem) then ok (slice mem off n) else fault

  abbrev pub splice : List A → ℕ → List A → List A
  splice mem off xs = take off mem ++ (xs ++ drop (off + length xs) mem)

  -- memcpy of `xs`, which lies outside `mem`, to `mem + off`.
  unfoldable pub write_at : List A → ℕ → List A → Outcome (List A)
  write_at mem off xs = if leb (off + length xs) (length mem) then ok (splice mem off xs) else fault

  -- memcpy within one block, which C++ leaves undefined where the ranges overlap.
  unfoldable pub copy_within : List A → ℕ → ℕ → ℕ → Outcome (List A)
  unfolding read_at write_at
  copy_within mem dst src n =
      if ltb src (dst + n) && ltb dst (src + n)
      then fault
      else do xs ← read_at mem src n; write_at mem dst xs

  pub length-slice :
      (mem : List A) (off n : ℕ) → off + n ≤ length mem → length (slice mem off n) ≡ n
  length-slice mem off n h = omega (arith, length-take n (drop off mem), length-drop off mem)

  pub length-splice :
      (mem : List A) (off : ℕ) (xs : List A)
      → off + length xs ≤ length mem
      → length (splice mem off xs) ≡ length mem
  length-splice mem off xs h = omega (
    arith,
    length-append (take off mem) (xs ++ drop (off + length xs) mem),
    length-append xs (drop (off + length xs) mem),
    length-take off mem,
    length-drop (off + length xs) mem,
  )

  pub write_at_lem :
      (mem : List A) (off : ℕ) (xs : List A)
      → off + length xs ≤ length mem
      → write_at mem off xs ≡ ok (splice mem off xs)
  unfolding write_at
  write_at_lem mem off xs h = rw (le→leb _ _ h)

  pub read_at_beyond : (mem : List A) (off n : ℕ) → length mem < off + n → read_at mem off n ≡ fault
  unfolding read_at
  read_at_beyond mem off n h = rw (not-leb_of_lt (off + n) (length mem) h)

  pub read_at_lem :
      (mem : List A) (off n : ℕ) → off + n ≤ length mem → read_at mem off n ≡ ok (slice mem off n)
  unfolding read_at
  read_at_lem mem off n h = rw (le→leb _ _ h)

  pub drop-splice :
      (mem : List A) (off : ℕ) (xs : List A)
      → off ≤ length mem
      → drop off (splice mem off xs) ≡ xs ++ drop (off + length xs) mem
  drop-splice mem off xs h =
      let e : length (take off mem) ≡ off = omega (arith, length-take off mem) in
      ap (λ k. drop k (splice mem off xs)) (sym e)
      ∙ drop-append_all (take off mem) (xs ++ drop (off + length xs) mem)

  -- What was just written is read back.
  pub slice-splice_self :
      (mem : List A) (off : ℕ) (xs : List A)
      → off ≤ length mem
      → slice (splice mem off xs) off (length xs) ≡ xs
  slice-splice_self mem off xs h =
      rw (drop-splice mem off xs h) (take-append_all xs (drop (off + length xs) mem))

  take-take_le : (n m : ℕ) (xs : List A) → n ≤ m → take n (take m xs) ≡ take n xs
  take-take_le zero m xs h = refl
  take-take_le (suc n) zero xs h = absurd (omega arith)
  take-take_le (suc n) (suc m) [] h = refl
  take-take_le (suc n) (suc m) (x ∷ xs) h = ap (◌∷◌ x) (take-take_le n m xs (omega arith))

  pub slice-take :
      (off n m : ℕ) (xs : List A) → off + n ≤ m → slice (take m xs) off n ≡ slice xs off n
  slice-take zero n m xs h = take-take_le n m xs (omega arith)
  slice-take (suc off) n zero xs h = absurd (omega arith)
  slice-take (suc off) n (suc m) [] h = refl
  slice-take (suc off) n (suc m) (x ∷ xs) h = slice-take off n m xs (omega arith)

  -- A write leaves what lies in front of it.
  pub slice-splice_before :
      (mem : List A) (off n at : ℕ) (xs : List A)
      → off + n ≤ at
      → at ≤ length mem
      → slice (splice mem at xs) off n ≡ slice mem off n
  slice-splice_before mem off n at xs h k =
      let e : length (take at mem) ≡ at = omega (arith, length-take at mem) in
      rw (drop-append off (take at mem) (xs ++ drop (at + length xs) mem) (omega arith)) (
        take-append n (drop off (take at mem)) _ (omega (arith, length-drop off (take at mem)))
        ∙ slice-take off n at mem h)

  -- Two neighbouring slices make one.
  pub slice-add :
      (mem : List A) (off n m : ℕ)
      → slice mem off (n + m) ≡ slice mem off n ++ slice mem (off + n) m
  slice-add mem off n m = take-add n m (drop off mem) ∙ rw (drop-drop off n mem)

  drop-take : (n k : ℕ) (xs : List A) → k ≤ n → drop k (take n xs) ≡ take (n - k) (drop k xs)
  drop-take n zero xs h = ap (λ j. take j xs) (omega arith)
  drop-take zero (suc k) xs h = absurd (omega arith)
  drop-take (suc n) (suc k) [] h = sym (take-nil (suc n - suc k))
  drop-take (suc n) (suc k) (x ∷ xs) h =
      drop-take n k xs (omega arith) ∙ ap (λ j. take j (drop k xs)) (omega arith)

  pub drop-slice :
      (mem : List A) (off n k : ℕ) → k ≤ n → drop k (slice mem off n) ≡ slice mem (off + k) (n - k)
  drop-slice mem off n k h = rw (← drop-drop off k mem) (drop-take n k (drop off mem) h)

  -- A copy to the front of the block, of a range that does not reach into its own target.
  pub copy_within_front :
      (mem : List A) (src n : ℕ)
      → n ≤ src
      → src + n ≤ length mem
      → copy_within mem 0 src n ≡ ok (splice mem 0 (slice mem src n))
  unfolding copy_within
  copy_within_front mem src n h k =
      rw (le→not-ltb src (0 + n) (omega arith), le→leb (src + n) (length mem) k)
        (rw (
          le→leb (0 + length (slice mem src n)) (length mem)
            (omega (arith, length-slice mem src n k))))

  -- One that does reach into it.
  pub copy_within_overlaps : (mem : List A) (src n : ℕ) → src < n → copy_within mem 0 src n ≡ fault
  unfolding copy_within
  copy_within_overlaps mem src n h =
      rw (lt→ltb src (0 + n) (omega arith), lt→ltb 0 (src + n) (omega arith))

  -- A write just behind a known front extends it.
  pub write_next :
      (mem front xs : List A)
      → take (length front) mem ≡ front
      → length front + length xs ≤ length mem
      → (mem' : List A) × (write_at mem (length front) xs ≡ ok mem')
        × (length mem' ≡ length mem)
        × (take (length front + length xs) mem' ≡ front ++ xs)
  write_next mem front xs e h = (
    splice mem (length front) xs,
    write_at_lem mem (length front) xs h,
    length-splice mem (length front) xs h,
    slice-add (splice mem (length front) xs) 0 (length front) (length xs)
        ∙ ap₂ ◌++◌
            (slice-splice_before mem 0 (length front) (length front) xs (omega arith) (omega arith)
              ∙ e)
            (at_zero ∙ slice-splice_self mem (length front) xs (omega arith)),
  )
    where
      at_zero :
          slice (splice mem (length front) xs) (0 + length front) (length xs)
          ≡ slice (splice mem (length front) xs) (length front) (length xs)
      at_zero = ap (λ o. slice (splice mem (length front) xs) o (length xs)) (omega arith)

  -- Reading a field at a known offset of a known front.
  pub slice_of_front :
      (mem front field rest : List A)
      → (k : ℕ) → take k mem ≡ front ++ (field ++ rest)
      → k ≤ length mem
      → slice mem (length front) (length field) ≡ field
  slice_of_front mem front field rest k e h =
      sym (slice-take (length front) (length field) k mem inside)
      ∙ rw (e, drop-append_all front (field ++ rest)) (take-append_all field rest)
    where
      inside : length front + length field ≤ k
      inside = omega (
        arith,
        ap length e,
        length-append front (field ++ rest),
        length-append field rest,
        length-take k mem,
      )

  pub write_at_fault :
      (mem : List A) (off : ℕ) (xs : List A)
      → length mem < off + length xs
      → write_at mem off xs ≡ fault
  unfolding write_at
  write_at_fault mem off xs h = rw (not-leb_of_lt (off + length xs) (length mem) h)
