-- ===== src/Workers.antt =====
-- Gamnet/Library/ThreadPool.h: workers that take tasks from one queue, as the steps of the threads.
-- A task is a number. Between two steps any other thread may run. A worker is described by where it
-- stands; only code that holds `mutex_` stands between two steps that others cannot enter.
pub mod Order
pub mod Safety
pub mod Waking
mod Tests
use gamnet.Prelude.{
  ℕ, ◌<◌, ◌⊎◌, ◌≡◌, ◌≢◌, ◌==◌, if◌then◌else◌, Bool, true, false, List, [], ◌∷◌, ◌++◌, Option, none,
  some, Outcome, ok, fault, ◌>>=◌,
}

-- Where a worker is: before the lock, behind it, with the loop's test true or false, in `wait`, in a
-- task, or gone.
pub data At : Type 0 where
  ready locked empty leaving waiting returned : At
  running : ℕ → At

-- How far the destructor is: not begun, behind `stop_ = true`, behind `notify_all`.
pub data Phase : Type 0 where
  open_ stopping joining : Phase

pub record Workers : Type 0 where
  pub tasks : List ℕ
  pub stop : Bool
  pub lock : Option ℕ
  pub at : ℕ → At
  pub phase : Phase

-- ThreadPool::ThreadPool
abbrev pub new_workers : Workers
new_workers = record { tasks = []; stop = false; lock = none; at = λ i. ready; phase = open_ }

abbrev pub moved : (ℕ → At) → ℕ → At → ℕ → At
moved at i a j = if i == j then a else at j

-- A worker that waits no longer.
abbrev pub woken : At → At
woken ready = ready
woken locked = locked
woken empty = empty
woken leaving = leaving
woken waiting = ready
woken returned = returned
woken (running t) = running t

-- The lock of Worker::operator ()
unfoldable pub enter : Workers → ℕ → Workers
enter s i = record s { lock = some i; at = moved s.at i locked }

-- The test of its `while`
abbrev pub tested : Bool → List ℕ → At
tested true tasks = leaving
tested false [] = empty
tested false (t ∷ tasks) = leaving

unfoldable pub test : Workers → ℕ → Workers
test s i = record s { at = moved s.at i (tested s.stop s.tasks) }

-- `condition_.wait`, which lets go of the lock
unfoldable pub wait : Workers → ℕ → Workers
wait s i = record s { lock = none; at = moved s.at i waiting }

-- The test of `stop_` and the first task, with the lock let go; `front` of no task is undefined.
pub taking : Workers → ℕ → List ℕ → Outcome Workers
taking s i [] = fault
taking s i (t ∷ tasks) = ok (record s { tasks = tasks; lock = none; at = moved s.at i (running t) })

unfoldable pub leave : Workers → ℕ → Outcome Workers
unfolding taking
leave s i =
    if s.stop then ok (record s { lock = none; at = moved s.at i returned }) else taking s i s.tasks

-- Behind `f()`
unfoldable pub finish : Workers → ℕ → Workers
finish s i = record s { at = moved s.at i ready }

-- ThreadPool::PostTask, with the worker that `notify_one` wakes, if one waits.
abbrev pub notify_one : (ℕ → At) → Option ℕ → ℕ → At
notify_one at none = at
notify_one at (some i) = moved at i ready

unfoldable pub post_task : Workers → ℕ → Option ℕ → Workers
post_task s t w = record s { tasks = s.tasks ++ (t ∷ []); at = notify_one s.at w }

-- ThreadPool::~ThreadPool, without the lock: `stop_ = true`, then `notify_all`. The workers read the
-- plain `bool` meanwhile, a data race that C++ leaves undefined: this is what comes of it where the
-- machine writes and reads a `bool` as a whole.
unfoldable pub set_stop : Workers → Workers
set_stop s = record s { stop = true; phase = stopping }

unfoldable pub notify_all : Workers → Workers
notify_all s = record s { at = λ i. woken (s.at i); phase = joining }

-- A step of a thread. A wait may also end with no notice.
pub data Act : Type 0 where
  enters tests waits leaves finishes wakes : ℕ → Act
  posts : ℕ → Option ℕ → Act
  stops notifies : Act

unfoldable pub step : Workers → Act → Outcome Workers
step s (enters i) = ok (enter s i)
step s (tests i) = ok (test s i)
step s (waits i) = ok (wait s i)
step s (leaves i) = leave s i
step s (finishes i) = ok (finish s i)
step s (wakes i) = ok (record s { at = moved s.at i ready })
step s (posts t w) = ok (post_task s t w)
step s stops = ok (set_stop s)
step s notifies = ok (notify_all s)

-- `notify_one` wakes a worker that waits, and none only if none waits.
abbrev pub Notifies : ℕ → (ℕ → At) → Option ℕ → Type 0
Notifies n at none = (i : ℕ) → i < n → at i ≢ waiting
Notifies n at (some i) = (i < n) × (at i ≡ waiting)

-- A thread that can post: another one, while the pool is not being destroyed, or a worker in a task.
abbrev pub IsPosting : ℕ → Workers → Type 0
IsPosting n s = (s.phase ≡ open_) ⊎ ((i : ℕ) × (i < n) × ((t : ℕ) × (s.at i ≡ running t)))

-- When one of `n` workers, or another thread, can do a step.
abbrev pub Can : ℕ → Workers → Act → Type 0
Can n s (enters i) = (i < n) × (s.at i ≡ ready) × (s.lock ≡ none)
Can n s (tests i) = (i < n) × (s.at i ≡ locked)
Can n s (waits i) = (i < n) × (s.at i ≡ empty)
Can n s (leaves i) = (i < n) × (s.at i ≡ leaving)
Can n s (finishes i) = (i < n) × ((t : ℕ) × (s.at i ≡ running t))
Can n s (wakes i) = (i < n) × (s.at i ≡ waiting)
Can n s (posts t w) = (s.lock ≡ none) × IsPosting n s × Notifies n s.at w
Can n s stops = s.phase ≡ open_
Can n s notifies = s.phase ≡ stopping

-- The tasks that a step posts.
abbrev pub posted : Act → List ℕ
posted (enters i) = []
posted (tests i) = []
posted (waits i) = []
posted (leaves i) = []
posted (finishes i) = []
posted (wakes i) = []
posted (posts t w) = t ∷ []
posted stops = []
posted notifies = []

-- What a worker runs
abbrev pub task_of : At → List ℕ
task_of ready = []
task_of locked = []
task_of empty = []
task_of leaving = []
task_of waiting = []
task_of returned = []
task_of (running t) = t ∷ []

-- The tasks that a step has started, in the state behind it: what the worker runs then that has let
-- go of the lock.
unfoldable pub started : Workers → Act → List ℕ
started s (enters i) = []
started s (tests i) = []
started s (waits i) = []
started s (leaves i) = task_of (s.at i)
started s (finishes i) = []
started s (wakes i) = []
started s (posts t w) = []
started s stops = []
started s notifies = []

abbrev pub all_posted : List Act → List ℕ
all_posted [] = []
all_posted (a ∷ acts) = posted a ++ all_posted acts

-- Steps from `s` to `s'`, in which the tasks `ts` are started.
pub Runs : ℕ → Workers → List Act → List ℕ → Workers → Type 0
Runs n s [] ts s' = (ts ≡ []) × (s ≡ s')
Runs n s (a ∷ acts) ts s' =
    (m : Workers) × (us : List ℕ) × Can n s a
    × (step s a ≡ ok m)
    × (ts ≡ started m a ++ us)
    × Runs n m acts us s'
