-- ===== src/Workers/Order.antt =====
-- In which order tasks are started.
use gamnet.Prelude.{
  ok_value, ℕ, arith, ◌≡◌, refl, sym, ap, ◌∙◌, inl, inr, Bool-cases, true, false, List, [], ◌∷◌,
  ◌++◌, append-nil, append_assoc, none, ok,
}
use mathlib.Core.Path.{subst}
use gamnet.Workers.{
  Workers, moved, returned, taking, leave, Act, enters, tests, waits, leaves, finishes, wakes,
  posts, stops, notifies, step, task_of, At, running, started, posted, all_posted, Runs, enter,
  test, wait, finish, post_task, set_stop, notify_all,
}

moved_own : (at : ℕ → At) (i : ℕ) (a : At) → moved at i a i ≡ a
moved_own at i a = ground arith

taking_lem :
    (s : Workers) (i : ℕ) (l : List ℕ) (m : Workers)
    → taking s i l ≡ ok m
    → l ≡ task_of (m.at i) ++ m.tasks
unfolding taking
taking_lem s i [] m e = absurd cc
taking_lem s i (t ∷ l) m e =
    subst (λ (k : Workers). t ∷ l ≡ task_of (k.at i) ++ k.tasks) (ok_value e)
      (ap (λ a. task_of a ++ l) (sym (moved_own s.at i (running t))))

pub leave_stopped :
    (s : Workers) (i : ℕ)
    → s.stop ≡ true
    → leave s i ≡ ok (record s { lock = none; at = moved s.at i returned })
unfolding leave
leave_stopped s i h = rw h refl

pub leave-taking : (s : Workers) (i : ℕ) → s.stop ≡ false → leave s i ≡ taking s i s.tasks
unfolding leave
leave-taking s i h = rw h refl

leave_lem :
    (s : Workers) (i : ℕ) (m : Workers) → leave s i ≡ ok m → s.tasks ≡ task_of (m.at i) ++ m.tasks
leave_lem s i m e = elim (Bool-cases s.stop) [
  | inl stopped ↦
      subst (λ (k : Workers). s.tasks ≡ task_of (k.at i) ++ k.tasks)
        (ok_value (sym (leave_stopped s i stopped) ∙ e))
        (ap (λ a. task_of a ++ s.tasks) (sym (moved_own s.at i returned)))
  | inr goes ↦ taking_lem s i s.tasks m (sym (leave-taking s i goes) ∙ e)
]

step_lem :
    (s : Workers) (a : Act) (m : Workers)
    → step s a ≡ ok m
    → s.tasks ++ posted a ≡ started m a ++ m.tasks
unfolding step started enter test wait finish post_task set_stop notify_all
step_lem s (enters i) m e = append-nil s.tasks ∙ ap (λ k. k.tasks) (ok_value e)
step_lem s (tests i) m e = append-nil s.tasks ∙ ap (λ k. k.tasks) (ok_value e)
step_lem s (waits i) m e = append-nil s.tasks ∙ ap (λ k. k.tasks) (ok_value e)
step_lem s (leaves i) m e = append-nil s.tasks ∙ leave_lem s i m e
step_lem s (finishes i) m e = append-nil s.tasks ∙ ap (λ k. k.tasks) (ok_value e)
step_lem s (wakes i) m e = append-nil s.tasks ∙ ap (λ k. k.tasks) (ok_value e)
step_lem s (posts t w) m e = ap (λ k. k.tasks) (ok_value e)
step_lem s stops m e = append-nil s.tasks ∙ ap (λ k. k.tasks) (ok_value e)
step_lem s notifies m e = append-nil s.tasks ∙ ap (λ k. k.tasks) (ok_value e)

-- Whatever the threads do: the tasks that were there and those that are posted are, in this order,
-- those that the workers come to run and those that are left. Each is started once at most, in the order of the
-- posts, and only a task that was posted is started.
pub Runs-in_order :
    (n : ℕ) (s s' : Workers) (acts : List Act) (ts : List ℕ)
    → Runs n s acts ts s'
    → s.tasks ++ all_posted acts ≡ ts ++ s'.tasks
unfolding Runs
Runs-in_order n s s' [] ts (none_started, same) =
    append-nil s.tasks ∙ rw none_started (ap (λ k. k.tasks) same)
Runs-in_order n s s' (a ∷ acts) ts (m, us, can, e, split, more) =
    sym (append_assoc s.tasks (posted a) (all_posted acts))
    ∙ ap (λ l. l ++ all_posted acts) (step_lem s a m e)
    ∙ append_assoc (started m a) m.tasks (all_posted acts)
    ∙ ap (λ l. started m a ++ l) (Runs-in_order n m s' acts us more)
    ∙ rw split (sym (append_assoc (started m a) us s'.tasks))
