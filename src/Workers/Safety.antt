-- ===== src/Workers/Safety.antt =====
-- That the queue is used by one worker at a time, and never popped empty.
use gamnet.Prelude.{
  ok_value, ℕ, ◌≡◌, ◌≢◌, ◌==◌, refl, sym, ◌∙◌, inl, inr, arith, Bool, Bool-cases, true, false, List,
  [], ◌∷◌, ◌++◌, Option, none, some, ok,
}
use mathlib.Core.Path.{subst}
use gamnet.Workers.{
  open_, At, ready, locked, empty, leaving, waiting, returned, running, Workers, new_workers, moved,
  woken, taking, tested, leave, Act, enters, tests, waits, leaves, finishes, wakes, posts, stops,
  notifies, Can, step, Runs, enter, test, wait, finish, post_task, set_stop, notify_all,
}
use gamnet.Workers.Order.{leave_stopped, leave-taking}

-- Between taking the lock and letting it go.
abbrev pub inside : At → Bool
inside ready = false
inside locked = true
inside empty = true
inside leaving = true
inside waiting = false
inside returned = false
inside (running t) = false

-- Bound to look at the queue again.
abbrev pub awake : At → Bool
awake ready = true
awake locked = true
awake empty = false
awake leaving = true
awake waiting = false
awake returned = false
awake (running t) = true

abbrev pub is_leaving : At → Bool
is_leaving ready = false
is_leaving locked = false
is_leaving empty = false
is_leaving leaving = true
is_leaving waiting = false
is_leaving returned = false
is_leaving (running t) = false

abbrev pub is_empty : At → Bool
is_empty ready = false
is_empty locked = false
is_empty empty = true
is_empty leaving = false
is_empty waiting = false
is_empty returned = false
is_empty (running t) = false

abbrev pub is_returned : At → Bool
is_returned ready = false
is_returned locked = false
is_returned empty = false
is_returned leaving = false
is_returned waiting = false
is_returned returned = true
is_returned (running t) = false

-- The worker between lock and unlock is the one that has the lock; one that saw the queue empty is
-- right about it, and one that is about to take a task has one to take.
pub record IsSafe (s : Workers) : Type 0 where
  pub holds : (i : ℕ) → inside (s.at i) ≡ true → s.lock ≡ some i
  pub stocked : (i : ℕ) → is_leaving (s.at i) ≡ true → s.stop ≡ false → s.tasks ≢ []
  pub emptied : (i : ℕ) → is_empty (s.at i) ≡ true → s.tasks ≡ []
  pub stopped : (i : ℕ) → is_returned (s.at i) ≡ true → s.stop ≡ true

enter-IsSafe :
    (s : Workers) (i : ℕ) → IsSafe s → s.at i ≡ ready → s.lock ≡ none → IsSafe (enter s i)
unfolding enter
enter-IsSafe s i v e free = record {
  holds = λ j. let h = v.holds j in ground (arith, h);
  stocked = λ j. let h = v.stocked j in ground (arith, h);
  emptied = λ j. let h = v.emptied j in ground (arith, h);
  stopped = λ j. let h = v.stopped j in ground (arith, h);
}

-- A step that moves one worker, and leaves the others and the queue as they are.
moved-IsSafe :
    (s : Workers) (i : ℕ) (l : Option ℕ) (a : At)
    → IsSafe s
    → (inside a ≡ true → l ≡ some i)
    → ((j : ℕ) → (i == j) ≡ false → inside (s.at j) ≡ true → l ≡ some j)
    → (is_leaving a ≡ true → s.stop ≡ false → s.tasks ≢ [])
    → (is_empty a ≡ true → s.tasks ≡ [])
    → (is_returned a ≡ true → s.stop ≡ true)
    → IsSafe (record s { lock = l; at = moved s.at i a })
moved-IsSafe s i l a v own others stock empt stopd = record {
  holds = λ j. let h = v.holds j in let o = others j in ground (arith, h, own, o);
  stocked = λ j. let h = v.stocked j in ground (arith, h, stock);
  emptied = λ j. let h = v.emptied j in ground (arith, h, empt);
  stopped = λ j. let h = v.stopped j in ground (arith, h, stopd);
}

-- The others are outside while a worker is inside.
alone :
    (s : Workers) (i j : ℕ)
    → IsSafe s
    → inside (s.at i) ≡ true
    → (i == j) ≡ false
    → inside (s.at j) ≡ true
    → {l : Option ℕ} → l ≡ some j
alone s i j v h other k = let p = v.holds i h in let q = v.holds j k in ground (arith, p, q, other)

test-IsSafe : (s : Workers) (i : ℕ) → IsSafe s → s.at i ≡ locked → IsSafe (test s i)
unfolding test
test-IsSafe s i v e =
    moved-IsSafe s i s.lock (tested s.stop s.tasks) v (λ h. v.holds i (rw e refl))
      (λ j other. v.holds j) (stock s.stop s.tasks) (empt s.stop s.tasks)
      (λ h. not_gone s.stop s.tasks h)
  where
    stock : (b : Bool) (l : List ℕ) → is_leaving (tested b l) ≡ true → b ≡ false → l ≢ []
    stock true l h k p = absurd cc
    stock false [] h k p = absurd cc
    stock false (t ∷ l) h k p = absurd cc

    empt : (b : Bool) (l : List ℕ) → is_empty (tested b l) ≡ true → l ≡ []
    empt true l h = absurd cc
    empt false [] h = refl
    empt false (t ∷ l) h = absurd cc

    not_gone : (b : Bool) (l : List ℕ) → is_returned (tested b l) ≡ true → b ≡ true
    not_gone true l h = refl
    not_gone false [] h = absurd cc
    not_gone false (t ∷ l) h = absurd cc

wait-IsSafe : (s : Workers) (i : ℕ) → IsSafe s → s.at i ≡ empty → IsSafe (wait s i)
unfolding wait
wait-IsSafe s i v e =
    moved-IsSafe s i none waiting v (λ h. absurd cc)
      (λ j other k. alone s i j v (rw e refl) other k) (λ h. absurd cc) (λ h. absurd cc)
      (λ h. absurd cc)

leaving-inside : (a : At) → inside a ≡ false → (is_leaving a ≡ false) × (is_empty a ≡ false)
leaving-inside ready h = (refl, refl)
leaving-inside locked h = absurd cc
leaving-inside empty h = absurd cc
leaving-inside leaving h = absurd cc
leaving-inside waiting h = (refl, refl)
leaving-inside returned h = (refl, refl)
leaving-inside (running t) h = (refl, refl)

-- Nobody inside.
outside-IsSafe :
    (s : Workers)
    → ((i : ℕ) → inside (s.at i) ≡ false)
    → ((i : ℕ) → is_returned (s.at i) ≡ true → s.stop ≡ true)
    → IsSafe s
outside-IsSafe s o r = record {
  holds = λ i h. let k = o i in absurd cc;
  stocked = λ i h. let (k, l) = leaving-inside (s.at i) (o i) in absurd cc;
  emptied = λ i h. let (k, l) = leaving-inside (s.at i) (o i) in absurd cc;
  stopped = r;
}

taking-IsSafe :
    (s : Workers) (i : ℕ) (l : List ℕ)
    → IsSafe s
    → s.at i ≡ leaving
    → l ≢ []
    → (m : Workers) × (taking s i l ≡ ok m) × IsSafe m
unfolding taking
taking-IsSafe s i [] v e some_left = absurd (some_left refl)
taking-IsSafe s i (t ∷ l) v e some_left = (
  record s { tasks = l; lock = none; at = moved s.at i (running t) },
  refl,
  outside-IsSafe (record s { tasks = l; lock = none; at = moved s.at i (running t) })
      (λ j. let own = v.holds i (rw e refl) in let h = v.holds j in ground (arith, own, h))
      (λ j. let h = v.stopped j in ground (arith, h)),
)

leave-IsSafe :
    (s : Workers) (i : ℕ)
    → IsSafe s
    → s.at i ≡ leaving
    → (m : Workers) × (leave s i ≡ ok m) × IsSafe m
leave-IsSafe s i v e = elim (Bool-cases s.stop) [
  | inl stopped ↦ (
    record s { lock = none; at = moved s.at i returned },
    leave_stopped s i stopped,
    moved-IsSafe s i none returned v (λ h. absurd cc)
        (λ j other k. alone s i j v (rw e refl) other k) (λ h. absurd cc) (λ h. absurd cc)
        (λ h. stopped),
  )
  | inr goes ↦
      let (m, same, w) = taking-IsSafe s i s.tasks v e (v.stocked i (rw e refl) goes) in
      (m, leave-taking s i goes ∙ same, w)
]

pub unlocked : (s : Workers) → IsSafe s → s.lock ≡ none → (i : ℕ) → inside (s.at i) ≡ false
unlocked s v free i = let h = v.holds i in ground (arith, h, free)

post_task-IsSafe :
    (s : Workers) (t : ℕ) (w : Option ℕ) → IsSafe s → s.lock ≡ none → IsSafe (post_task s t w)
unfolding post_task
post_task-IsSafe s t none v free =
    outside-IsSafe (record s { tasks = s.tasks ++ (t ∷ []) }) (unlocked s v free) v.stopped
post_task-IsSafe s t (some i) v free =
    outside-IsSafe (record s { tasks = s.tasks ++ (t ∷ []); at = moved s.at i ready })
      (λ j. let h = unlocked s v free j in ground (arith, h))
      (λ j. let h = v.stopped j in ground (arith, h))

-- A notice leaves the workers that do not wait where they are.
pub woken_lem :
    (a : At)
    → (inside (woken a) ≡ inside a)
      × (is_leaving (woken a) ≡ is_leaving a)
      × (is_empty (woken a) ≡ is_empty a)
      × (is_returned (woken a) ≡ is_returned a)
woken_lem ready = (refl, refl, refl, refl)
woken_lem locked = (refl, refl, refl, refl)
woken_lem empty = (refl, refl, refl, refl)
woken_lem leaving = (refl, refl, refl, refl)
woken_lem waiting = (refl, refl, refl, refl)
woken_lem returned = (refl, refl, refl, refl)
woken_lem (running t) = (refl, refl, refl, refl)

notify_all-IsSafe : (s : Workers) → IsSafe s → IsSafe (notify_all s)
unfolding notify_all
notify_all-IsSafe s v = record {
  holds = λ i h. let (a, b, c, d) = woken_lem (s.at i) in v.holds i (sym a ∙ h);
  stocked = λ i h. let (a, b, c, d) = woken_lem (s.at i) in v.stocked i (sym b ∙ h);
  emptied = λ i h. let (a, b, c, d) = woken_lem (s.at i) in v.emptied i (sym c ∙ h);
  stopped = λ i h. let (a, b, c, d) = woken_lem (s.at i) in v.stopped i (sym d ∙ h);
}

set_stop-IsSafe : (s : Workers) → IsSafe s → IsSafe (set_stop s)
unfolding set_stop
set_stop-IsSafe s v = record {
  holds = v.holds;
  stocked = λ i h k. absurd cc;
  emptied = v.emptied;
  stopped = λ i h. refl;
}

-- No step that a thread can do pops an empty queue, and each keeps the workers safe.
pub step-IsSafe :
    (n : ℕ) (s : Workers) (a : Act)
    → IsSafe s
    → Can n s a
    → (m : Workers) × (step s a ≡ ok m) × IsSafe m
unfolding step finish
step-IsSafe n s (enters i) v (k, e, free) = (enter s i, refl, enter-IsSafe s i v e free)
step-IsSafe n s (tests i) v (k, e) = (test s i, refl, test-IsSafe s i v e)
step-IsSafe n s (waits i) v (k, e) = (wait s i, refl, wait-IsSafe s i v e)
step-IsSafe n s (leaves i) v (k, e) = leave-IsSafe s i v e
step-IsSafe n s (finishes i) v (k, (t, e)) = (
  finish s i,
  refl,
  moved-IsSafe s i s.lock ready v (λ h. absurd cc) (λ j other. v.holds j) (λ h. absurd cc)
      (λ h. absurd cc) (λ h. absurd cc),
)
step-IsSafe n s (wakes i) v (k, e) = (
  record s { at = moved s.at i ready },
  refl,
  moved-IsSafe s i s.lock ready v (λ h. absurd cc) (λ j other. v.holds j) (λ h. absurd cc)
      (λ h. absurd cc) (λ h. absurd cc),
)
step-IsSafe n s (posts t w) v (free, phase, k) =
    (post_task s t w, refl, post_task-IsSafe s t w v free)
step-IsSafe n s stops v k = (set_stop s, refl, set_stop-IsSafe s v)
step-IsSafe n s notifies v k = (notify_all s, refl, notify_all-IsSafe s v)

pub new_workers-IsSafe : IsSafe new_workers
new_workers-IsSafe = outside-IsSafe new_workers (λ i. refl) (λ i h. absurd cc)

pub Runs-IsSafe :
    (n : ℕ) (s s' : Workers) (acts : List Act) (ts : List ℕ)
    → Runs n s acts ts s'
    → IsSafe s
    → IsSafe s'
unfolding Runs
Runs-IsSafe n s s' [] ts (none_started, same) v = subst IsSafe same v
Runs-IsSafe n s s' (a ∷ acts) ts (m, us, can, e, split, more) v =
    let (m', e', w) = step-IsSafe n s a v can in
    Runs-IsSafe n m s' acts us more (subst IsSafe (ok_value (sym e' ∙ e)) w)

-- In every state of a pool of which the destructor has not begun, whatever the threads have done: a
-- worker between lock and unlock has the lock, so no two are, one that is about to take a task has one
-- to take, and no step that a thread can do is undefined but the write of `stop_` with which the
-- destructor begins, which races with the workers.
pub Runs-total :
    (n : ℕ) (s : Workers) (acts : List Act) (ts : List ℕ) (a : Act)
    → Runs n new_workers acts ts s
    → Can n s a
    → s.phase ≡ open_
    → a ≢ stops
    → IsSafe s × (m : Workers) × (step s a ≡ ok m)
Runs-total n s acts ts a r k before other =
    let v = Runs-IsSafe n new_workers s acts ts r new_workers-IsSafe in
    let (m, e, w) = step-IsSafe n s a v k in (v, m, e)
