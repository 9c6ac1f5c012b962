-- ===== src/Waiting/Laws.antt =====
-- Which session an answer finds.
use gamnet.Prelude.{
  ℕ, ◌+◌, ◌≤◌, ◌≡◌, ◌≢◌, refl, ap, arith, ltb, not, List, [], ◌∷◌, none, some, Option-cases, inl,
  inr, find, insert, place, erase, kept, IsSorted, place-IsSorted, find-place, erase-IsSorted,
  find-erase, retain-IsSorted, find-retain,
}
use gamnet.Waiting.{Waiting, Entry, add_session, find_session, sweep}

-- What happens between a question and its answer.
pub data Call : Type 0 where
  adds : ℕ → ℕ → ℕ → Call
  finds : ℕ → Call
  sweeps : ℕ → Call

pub step : Waiting → Call → Waiting
step w (adds now seq session) = (add_session w now seq session).0
step w (finds seq) = (find_session w seq).0
step w (sweeps now) = sweep w now

pub steps : Waiting → List Call → Waiting
steps w [] = w
steps w (c ∷ cs) = steps (step w c) cs

-- No other answer with this number comes, and no timer later than five seconds after `now`.
abbrev pub Quiet : ℕ → ℕ → List Call → Type 0
Quiet seq now [] = Unit {0}
Quiet seq now (adds t s i ∷ cs) = Quiet seq now cs
Quiet seq now (finds s ∷ cs) = (s ≢ seq) × Quiet seq now cs
Quiet seq now (sweeps t ∷ cs) = (t ≤ now + 5) × Quiet seq now cs

record Holding (seq : ℕ) (e : Entry) (w : Waiting) : Type 0 where
  sorted : IsSorted w
  holds : find w seq ≡ some e

pub add_free :
    (w : Waiting) (now seq session : ℕ)
    → find w seq ≡ none
    → (add_session w now seq session).0 ≡ place w seq (record { since = now; session = session })
unfolding add_session
add_free w now seq session e = rw (add_session, insert, e)

add_again :
    (w : Waiting) (now seq session : ℕ) {f : Entry}
    → find w seq ≡ some f
    → (add_session w now seq session).0 ≡ w
unfolding add_session
add_again w now seq session e = rw (add_session, insert, e)

pub answer_none : (w : Waiting) (seq : ℕ) → find w seq ≡ none → find_session w seq ≡ (w, none)
unfolding find_session
answer_none w seq e = rw (find_session, e)

pub answer_some :
    (w : Waiting) (seq : ℕ) {f : Entry}
    → find w seq ≡ some f
    → find_session w seq ≡ (erase w seq, some f.session)
unfolding find_session
answer_some w seq e = rw (find_session, e)

step-Holding :
    (w : Waiting) (c : Call) (cs : List Call) (seq : ℕ) (e : Entry)
    → Holding seq e w
    → Quiet seq e.since (c ∷ cs)
    → Holding seq e (step w c) × Quiet seq e.since cs
unfolding step sweep
step-Holding w (adds t s i) cs seq e h q = elim (Option-cases (find w s)) [
  | inl free ↦ (rw (add_free w t s i free) (placed free), q)
  | inr (f, taken) ↦ (rw (add_again w t s i taken) h, q)
]
  where
    placed : find w s ≡ none → Holding seq e (place w s (record { since = t; session = i }))
    placed free = record {
      sorted = place-IsSorted w s _ h.sorted free;
      holds =
          ground
            (arith, find-place w s (record { since = t; session = i }) seq free, h.holds, free);
    }
step-Holding w (finds s) cs seq e h (n, q) = elim (Option-cases (find w s)) [
  | inl free ↦ (rw (step, answer_none w s free) h, q)
  | inr (f, taken) ↦ (
    rw (step, answer_some w s taken)
        (record {
          sorted = erase-IsSorted w s h.sorted;
          holds = ground (arith, find-erase w s seq, h.holds, n);
        }),
    q,
  )
]
step-Holding w (sweeps t) cs seq e h (n, q) = (
  record {
    sorted = retain-IsSorted _ w h.sorted;
    holds = ground (arith, find-retain (λ f. not (ltb (f.since + 5) t)) w seq h.sorted, h.holds);
  },
  q,
)

steps-Holding :
    (w : Waiting) (cs : List Call) (seq : ℕ) (e : Entry)
    → Holding seq e w
    → Quiet seq e.since cs
    → Holding seq e (steps w cs)
unfolding steps
steps-Holding w [] seq e h q = h
steps-Holding w (c ∷ cs) seq e h q =
    let (h', q') = step-Holding w c cs seq e h q in steps-Holding (step w c) cs seq e h' q'

-- A session that waits under a free number is found by the answer, whatever other questions and
-- answers come in between, when the timer does not run later than five seconds after the question;
-- the answer finds it once.
pub find-add :
    (w : Waiting) (now seq session : ℕ) (cs : List Call)
    → IsSorted w
    → find w seq ≡ none
    → Quiet seq now cs
    → let w' = steps (add_session w now seq session).0 cs in
      ((find_session w' seq).1 ≡ some session)
      × ((find_session (find_session w' seq).0 seq).1 ≡ none)
find-add w now seq session cs s free q =
    let e : Entry = record { since = now; session = session } in
    let h : Holding seq e (steps (add_session w now seq session).0 cs) =
      steps-Holding (add_session w now seq session).0 cs seq e
        (rw (add_free w now seq session free) (placed e)) q in
    rw (answer_some (steps (add_session w now seq session).0 cs) seq h.holds)
      (refl, gone (steps (add_session w now seq session).0 cs))
  where
    placed : (e : Entry) → Holding seq e (place w seq e)
    placed e = record {
      sorted = place-IsSorted w seq e s free;
      holds = ground (arith, find-place w seq e seq free);
    }

    gone : (v : Waiting) → (find_session (erase v seq) seq).1 ≡ none
    gone v =
        let k : find (erase v seq) seq ≡ none = ground (arith, find-erase v seq seq) in
        ap (λ r. r.1) (answer_none (erase v seq) seq k)

-- The timer drops exactly the entries that are older than five seconds.
pub find-sweep :
    (w : Waiting) (now seq : ℕ)
    → IsSorted w
    → find (sweep w now) seq ≡ kept (λ e. not (ltb (e.since + 5) now)) (find w seq)
unfolding sweep
find-sweep w now seq s = find-retain (λ e. not (ltb (e.since + 5) now)) w seq s
