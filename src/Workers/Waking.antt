-- ===== src/Workers/Waking.antt =====
-- Who looks at the queue, and who waits for ever.
use gamnet.Prelude.{
  ok_value, ==_iff, ℕ, ◌<◌, ◌≡◌, ◌≢◌, ◌==◌, refl, sym, ap, ◌∙◌, inl, inr, arith, Bool, Bool-cases,
  true, false, List, [], ◌∷◌, Option, none, some, ok,
}
use mathlib.Core.Path.{subst}
use gamnet.Workers.{
  posted, started, At, ready, locked, empty, leaving, waiting, returned, running, open_, joining,
  Workers, new_workers, moved, woken, taking, tested, leave, Act, enters, tests, waits, leaves,
  finishes, wakes, posts, stops, notifies, Notifies, Can, step, Runs, enter, test, wait, finish,
  post_task, set_stop, notify_all,
}
use gamnet.Workers.Order.{leave_stopped, leave-taking}
use gamnet.Workers.Safety.{
  inside, awake, is_returned, IsSafe, unlocked, step-IsSafe, new_workers-IsSafe,
}

-- Of `n` workers one is bound to look at the queue while it has a task and the pool is not stopped.
abbrev pub IsWatched : ℕ → Workers → Type 0
IsWatched n s = s.stop ≡ false → s.tasks ≢ [] → (i : ℕ) × (i < n) × (awake (s.at i) ≡ true)

moved-IsWatched :
    (n : ℕ) (s : Workers) (i : ℕ) (l : Option ℕ) (a : At)
    → IsWatched n s
    → awake a ≡ true
    → IsWatched n (record s { lock = l; at = moved s.at i a })
moved-IsWatched n s i l a v h goes some_left =
    let (j, k, e) = v goes some_left in (j, k, ground (arith, h, e))

moved_own : (at : ℕ → At) (i : ℕ) (a : At) → moved at i a i ≡ a
moved_own at i a = ground arith

tested-awake : (b : Bool) (l : List ℕ) → l ≢ [] → awake (tested b l) ≡ true
tested-awake true l h = refl
tested-awake false [] h = absurd (h refl)
tested-awake false (t ∷ l) h = refl

outside_awake : (a : At) → inside a ≡ false → a ≢ waiting → is_returned a ≢ true → awake a ≡ true
outside_awake ready h k r = refl
outside_awake locked h k r = refl
outside_awake empty h k r = absurd cc
outside_awake leaving h k r = refl
outside_awake waiting h k r = absurd (k refl)
outside_awake returned h k r = absurd (r refl)
outside_awake (running t) h k r = refl

woken-awake : (a : At) → awake a ≡ true → awake (woken a) ≡ true
woken-awake ready h = refl
woken-awake locked h = refl
woken-awake empty h = h
woken-awake leaving h = refl
woken-awake waiting h = refl
woken-awake returned h = h
woken-awake (running t) h = refl

taking-IsWatched :
    (n : ℕ) (s m : Workers) (i : ℕ) (l : List ℕ) → i < n → taking s i l ≡ ok m → IsWatched n m
unfolding taking
taking-IsWatched n s m i [] k e goes some_left = absurd cc
taking-IsWatched n s m i (t ∷ l) k e goes some_left =
    (i, k, ap (λ (w : Workers). awake (w.at i)) (sym (ok_value e)) ∙ ground arith)

post_task-IsWatched :
    (n : ℕ) (s : Workers) (t : ℕ) (w : Option ℕ)
    → IsSafe s
    → 0 < n
    → s.lock ≡ none
    → Notifies n s.at w
    → IsWatched n (post_task s t w)
unfolding post_task
post_task-IsWatched n s t none v p free k goes some_left = (
  0,
  p,
  outside_awake (s.at 0) (unlocked s v free 0) (k 0 p) (λ h. let r = v.stopped 0 h in absurd cc),
)
post_task-IsWatched n s t (some i) v p free (k, e) goes some_left = (i, k, ground arith)

step-IsWatched :
    (n : ℕ) (s m : Workers) (a : Act)
    → IsSafe s
    → 0 < n
    → Can n s a
    → step s a ≡ ok m
    → IsWatched n s
    → IsWatched n m
unfolding step enter test wait finish set_stop notify_all
step-IsWatched n s m (enters i) v p k e w =
    subst (IsWatched n) (ok_value e) (moved-IsWatched n s i (some i) locked w refl)
step-IsWatched n s m (tests i) v p (k, h) e w = subst (IsWatched n) (ok_value e) (λ goes some_left.
    (
      i,
      k,
      ap awake (moved_own s.at i (tested s.stop s.tasks)) ∙ tested-awake s.stop s.tasks some_left,
    ))
step-IsWatched n s m (waits i) v p (k, h) e w =
    subst (IsWatched n) (ok_value e)
      (λ goes some_left. absurd (some_left (v.emptied i (rw h refl))))
step-IsWatched n s m (leaves i) v p (k, h) e w = elim (Bool-cases s.stop) [
  | inl stopped ↦
      subst (IsWatched n) (ok_value (sym (leave_stopped s i stopped) ∙ e))
        (λ goes some_left. absurd cc)
  | inr goes ↦ taking-IsWatched n s m i s.tasks k (sym (leave-taking s i goes) ∙ e)
]
step-IsWatched n s m (finishes i) v p k e w =
    subst (IsWatched n) (ok_value e) (moved-IsWatched n s i s.lock ready w refl)
step-IsWatched n s m (wakes i) v p k e w =
    subst (IsWatched n) (ok_value e) (moved-IsWatched n s i s.lock ready w refl)
step-IsWatched n s m (posts t o) v p (free, phase, k) e w =
    subst (IsWatched n) (ok_value e) (post_task-IsWatched n s t o v p free k)
step-IsWatched n s m stops v p k e w =
    subst (IsWatched n) (ok_value e) (λ goes some_left. absurd cc)
step-IsWatched n s m notifies v p k e w =
    subst (IsWatched n) (ok_value e)
      (λ goes some_left. let (i, l, h) = w goes some_left in (i, l, woken-awake (s.at i) h))

Runs-IsWatched :
    (n : ℕ) (s s' : Workers) (acts : List Act) (ts : List ℕ)
    → 0 < n
    → Runs n s acts ts s'
    → IsSafe s
    → IsWatched n s
    → IsWatched n s'
unfolding Runs
Runs-IsWatched n s s' [] ts p (none_started, same) v w = subst (IsWatched n) same w
Runs-IsWatched n s s' (a ∷ acts) ts p (m, us, can, e, split, more) v w =
    let (m', e', v') = step-IsSafe n s a v can in
    Runs-IsWatched n m s' acts us p more (subst IsSafe (ok_value (sym e' ∙ e)) v')
      (step-IsWatched n s m a v p can e w)

-- In a pool with a worker, whatever the threads have done: while it is not stopped and has a task,
-- one of its workers will look at the queue, since it runs a task, is on its way to the lock, or has
-- the lock and not found the queue empty. So no post is lost on workers that all wait.
pub Runs-watched :
    (n : ℕ) (s : Workers) (acts : List Act) (ts : List ℕ)
    → 0 < n
    → Runs n new_workers acts ts s
    → s.stop ≡ false
    → s.tasks ≢ []
    → (i : ℕ) × (i < n) × (awake (s.at i) ≡ true)
Runs-watched n s acts ts p r =
    Runs-IsWatched n new_workers s acts ts p r new_workers-IsSafe
      (λ goes some_left. absurd (some_left refl))

-- Steps in which the wait of a worker does not end by itself, and no task posts another.
abbrev pub NeverWakes : ℕ → List Act → Type 0
NeverWakes i [] = Unit {0}
NeverWakes i (a ∷ acts) = (a ≢ wakes i) × (posted a ≡ []) × NeverWakes i acts

record Asleep (s : Workers) (i : ℕ) : Type 0 where
  waits : s.at i ≡ waiting
  phase : s.phase ≡ joining

moved-Asleep :
    (s : Workers) (i j : ℕ) (l : Option ℕ) (a : At)
    → Asleep s i
    → s.at j ≢ waiting
    → Asleep (record s { lock = l; at = moved s.at j a }) i
moved-Asleep s i j l a h k =
    let w = h.waits in record { waits = ground (arith, w, k); phase = h.phase }

taking-Asleep :
    (s m : Workers) (i j : ℕ) (l : List ℕ)
    → Asleep s i
    → s.at j ≢ waiting
    → taking s j l ≡ ok m
    → Asleep m i
unfolding taking
taking-Asleep s m i j [] h k e = absurd cc
taking-Asleep s m i j (t ∷ l) h k e =
    let v = moved-Asleep s i j none (running t) h k in
    subst (λ w. Asleep w i) (ok_value e) (record { waits = v.waits; phase = v.phase })

leave-Asleep :
    (s m : Workers) (i j : ℕ) → Asleep s i → s.at j ≢ waiting → leave s j ≡ ok m → Asleep m i
leave-Asleep s m i j h k e = elim (Bool-cases s.stop) [
  | inl stopped ↦
      subst (λ w. Asleep w i) (ok_value (sym (leave_stopped s j stopped) ∙ e))
        (moved-Asleep s i j none returned h k)
  | inr goes ↦ taking-Asleep s m i j s.tasks h k (sym (leave-taking s j goes) ∙ e)
]

step-Asleep :
    (n : ℕ) (s m : Workers) (a : Act) (i : ℕ)
    → Can n s a
    → step s a ≡ ok m
    → a ≢ wakes i
    → posted a ≡ []
    → Asleep s i
    → Asleep m i
unfolding step enter test wait finish
step-Asleep n s m (enters j) i (k, p, free) e other quiet h =
    subst (λ w. Asleep w i) (ok_value e) (moved-Asleep s i j (some j) locked h (λ q. absurd cc))
step-Asleep n s m (tests j) i (k, p) e other quiet h =
    subst (λ w. Asleep w i) (ok_value e)
      (moved-Asleep s i j s.lock (tested s.stop s.tasks) h (λ q. absurd cc))
step-Asleep n s m (waits j) i (k, p) e other quiet h =
    subst (λ w. Asleep w i) (ok_value e) (moved-Asleep s i j none waiting h (λ q. absurd cc))
step-Asleep n s m (leaves j) i (k, p) e other quiet h = leave-Asleep s m i j h (λ q. absurd cc) e
step-Asleep n s m (finishes j) i (k, (t, p)) e other quiet h =
    subst (λ w. Asleep w i) (ok_value e) (moved-Asleep s i j s.lock ready h (λ q. absurd cc))
step-Asleep n s m (wakes j) i (k, p) e other quiet h = elim (Bool-cases (j == i)) [
  | inl same ↦ absurd (other (ap wakes ((==_iff j i).0 same)))
  | inr apart ↦
      let w = h.waits in
      subst (λ w. Asleep w i) (ok_value e)
        (record { waits = ground (arith, w, apart); phase = h.phase })
]
step-Asleep n s m (posts t o) i k e other none_posted h = absurd cc
step-Asleep n s m stops i k e other quiet h = let j = h.phase in absurd cc
step-Asleep n s m notifies i k e other quiet h = let j = h.phase in absurd cc

Runs-Asleep :
    (n : ℕ) (s s' : Workers) (acts : List Act) (ts : List ℕ) (i : ℕ)
    → Runs n s acts ts s'
    → NeverWakes i acts
    → Asleep s i
    → Asleep s' i
unfolding Runs
Runs-Asleep n s s' [] ts i (none_started, same) f h = subst (λ w. Asleep w i) same h
Runs-Asleep n s s' (a ∷ acts) ts i (m, us, can, e, split, more) (other, quiet, f) h =
    Runs-Asleep n m s' acts us i more f (step-Asleep n s m a i can e other quiet h)

-- The pool after `stop_ = true` and `notify_all`, and then the wait of a worker.
unfoldable pub stopped_late : Workers → ℕ → Workers
stopped_late s i = wait (notify_all (set_stop s)) i

-- The destructor does not take the lock. Where a worker has found the queue empty and does not wait
-- yet, it can set `stop_` and notify nobody first: then the worker waits. Whatever steps follow, it
-- still waits and `join` has not returned, unless its wait ends by itself or a task that still runs
-- posts another. Reads and writes of `stop_` are taken as whole, though they race.
pub lost_wake_up :
    (n : ℕ) (s s' : Workers) (i : ℕ) (acts : List Act) (ts : List ℕ)
    → i < n
    → s.at i ≡ empty
    → s.phase ≡ open_
    → Runs n (stopped_late s i) acts ts s'
    → NeverWakes i acts
    → Runs n s (stops ∷ notifies ∷ waits i ∷ []) [] (stopped_late s i)
      × ((stopped_late s i).phase ≡ joining)
      × (s'.at i ≡ waiting)
unfolding Runs step started set_stop notify_all wait stopped_late
lost_wake_up n s s' i acts ts k e phase r f =
    let s1 = set_stop s in
    let s2 = notify_all s1 in
    let s3 = wait s2 i in
    (
      (
        s1,
        [],
        phase,
        refl,
        refl,
        (s2, [], refl, refl, refl, (s3, [], (k, ap woken e), refl, refl, (refl, refl))),
      ),
      refl,
      (Runs-Asleep n s3 s' acts ts i r f (record { waits = ground arith; phase = refl })).waits,
    )
