-- ===== src/Tasks/Runner/Order.antt =====
-- The order of tasks in SequencedTaskRunner, and the end of its loop.
use pp_cpp_common.Common.{
  All, List, Option-cases, [], ap, append-nil, append_assoc, arith, false, inl, inr, none, refl,
  some, suc, sym, true, zero, ℕ, ◌++◌, ◌+◌, ◌<◌, ◌∙◌, ◌∷◌, ◌≡◌, ◌≤◌,
}
use pp_cpp_common.Tasks.Runner.{
  Call, TaskRunner, apply, apply_all, dequeue_one, next_task, pause, post_task, post_task_front,
  resume, run_pending_tasks, stop,
}

module _ {ℓ} {T : Type ℓ} where
  -- Neither a post to the front nor a stop.
  abbrev pub IsPlain : Call T → Type 0
  IsPlain (post_task t) = Unit {0}
  IsPlain (post_task_front t) = ⊥
  IsPlain pause = Unit {0}
  IsPlain resume = Unit {0}
  IsPlain stop = ⊥

  -- The tasks that a list of calls posts to the back, and all that it posts.
  unfoldable pub posted_back : List (Call T) → List T
  posted_back [] = []
  posted_back (post_task (some t) ∷ cs) = t ∷ posted_back cs
  posted_back (c ∷ cs) = posted_back cs

  unfoldable pub posted : List (Call T) → List T
  posted [] = []
  posted (post_task (some t) ∷ cs) = t ∷ posted cs
  posted (post_task_front (some t) ∷ cs) = t ∷ posted cs
  posted (c ∷ cs) = posted cs

  apply-tasks :
      (c : Call T) (r : TaskRunner T)
      → IsPlain c
      → r.stopped ≡ false
      → ((apply c r).tasks ≡ r.tasks ++ posted_back (c ∷ [])) × ((apply c r).stopped ≡ false)
  unfolding apply posted_back
  apply-tasks (post_task none) r h s = (sym (append-nil r.tasks), s)
  apply-tasks (post_task (some t)) r h s = ground arith
  apply-tasks (post_task_front t) r h s = absurd h
  apply-tasks pause r h s = (sym (append-nil r.tasks), s)
  apply-tasks resume r h s = (sym (append-nil r.tasks), s)
  apply-tasks stop r h s = absurd h

  posted_back-cons :
      (c : Call T) (cs : List (Call T))
      → posted_back (c ∷ []) ++ posted_back cs ≡ posted_back (c ∷ cs)
  unfolding posted_back
  posted_back-cons (post_task (some t)) cs = refl
  posted_back-cons (post_task none) cs = refl
  posted_back-cons _ cs = refl

  apply_all-tasks :
      (cs : List (Call T)) (r : TaskRunner T)
      → All IsPlain cs
      → r.stopped ≡ false
      → ((apply_all cs r).tasks ≡ r.tasks ++ posted_back cs) × ((apply_all cs r).stopped ≡ false)
  unfolding apply_all
  apply_all-tasks [] r h s = unfold posted_back in (sym (append-nil r.tasks), s)
  apply_all-tasks (c ∷ cs) r h s =
      let (first, open') = apply-tasks c r h.0 s in
      let (others, open'') = apply_all-tasks cs (apply c r) h.1 open' in
      (
        others
            ∙ rw first (
                append_assoc r.tasks (posted_back (c ∷ [])) (posted_back cs)
                ∙ ap (λ ts. r.tasks ++ ts) (posted_back-cons c cs)),
        open'',
      )

  -- Nothing waits in a runner that is stopped.
  abbrev pub IsDrained : TaskRunner T → Type ℓ
  IsDrained r = r.stopped ≡ true → r.tasks ≡ []

  -- Every public call leaves a stopped SequencedTaskRunner with no tasks.
  pub apply-IsDrained : (c : Call T) (r : TaskRunner T) → IsDrained r → IsDrained (apply c r)
  unfolding apply
  apply-IsDrained (post_task none) r h = h
  apply-IsDrained (post_task (some t)) r h = ground arith
  apply-IsDrained (post_task_front none) r h = h
  apply-IsDrained (post_task_front (some t)) r h = ground arith
  apply-IsDrained pause r h = h
  apply-IsDrained resume r h = h
  apply-IsDrained stop r h = λ _. refl

  unfoldable pub weight : (T → ℕ) → List T → ℕ
  weight w [] = 0
  weight w (t ∷ ts) = w t + weight w ts

  weight-cons : (w : T → ℕ) (t : T) (ts : List T) → weight w (t ∷ ts) ≡ w t + weight w ts
  unfolding weight
  weight-cons w t ts = refl

  next_task-some :
      (r : TaskRunner T) (t : T) (rest : TaskRunner T)
      → next_task r ≡ some (t, rest)
      → (r.tasks ≡ t ∷ rest.tasks) × (rest.stopped ≡ r.stopped)
  unfolding next_task dequeue_one
  next_task-some r t rest h = (ground arith, ground arith)

  weight-append : (w : T → ℕ) (xs ys : List T) → weight w (xs ++ ys) ≡ weight w xs + weight w ys
  unfolding weight
  weight-append w [] ys = omega arith
  weight-append w (x ∷ xs) ys = omega (arith, weight-append w xs ys)

  weight-apply :
      (w : T → ℕ) (c : Call T) (r : TaskRunner T)
      → weight w (apply c r).tasks ≤ weight w r.tasks + weight w (posted (c ∷ []))
  unfolding apply posted weight
  weight-apply w (post_task none) r = omega arith
  weight-apply w (post_task (some t)) r = ground (arith, weight-append w r.tasks (t ∷ []))
  weight-apply w (post_task_front none) r = omega arith
  weight-apply w (post_task_front (some t)) r = ground arith
  weight-apply w pause r = omega arith
  weight-apply w resume r = omega arith
  weight-apply w stop r = omega arith

  weight-posted :
      (w : T → ℕ) (c : Call T) (cs : List (Call T))
      → weight w (posted (c ∷ cs)) ≡ weight w (posted (c ∷ [])) + weight w (posted cs)
  unfolding posted weight
  weight-posted w (post_task none) cs = omega arith
  weight-posted w (post_task (some t)) cs = omega arith
  weight-posted w (post_task_front none) cs = omega arith
  weight-posted w (post_task_front (some t)) cs = omega arith
  weight-posted w pause cs = omega arith
  weight-posted w resume cs = omega arith
  weight-posted w stop cs = omega arith

  weight-apply_all :
      (w : T → ℕ) (cs : List (Call T)) (r : TaskRunner T)
      → weight w (apply_all cs r).tasks ≤ weight w r.tasks + weight w (posted cs)
  unfolding apply_all
  weight-apply_all w [] r = omega arith
  weight-apply_all w (c ∷ cs) r =
      omega (arith, weight-apply w c r, weight-posted w c cs, weight-apply_all w cs (apply c r))

module _ {ℓ} {T : Type ℓ} (calls : T → List (Call T)) where
  -- What the tasks that ran posted, in the order in which they ran.
  pub posted_by : List T → List T
  posted_by [] = []
  posted_by (t ∷ ts) = posted_back (calls t) ++ posted_by ts

  -- RunPendingTasks on a runner that is not stopped, with tasks that neither stop it nor post to
  -- its front, runs tasks in the order of their posts: what ran followed by what waits is what
  -- waited before followed by what those that ran posted.
  pub run_pending_tasks_order :
      (fuel : ℕ) (r : TaskRunner T)
      → ((t : T) → All IsPlain (calls t))
      → r.stopped ≡ false
      → (let (r', ran, done) = run_pending_tasks calls fuel r in
          ran ++ r'.tasks ≡ r.tasks ++ posted_by ran)
  unfolding run_pending_tasks posted_by
  run_pending_tasks_order zero r h s = sym (append-nil r.tasks)
  run_pending_tasks_order (suc fuel) r h s = elim (Option-cases (next_task r)) [
    | inl e ↦ rw (e, run_pending_tasks) (sym (append-nil r.tasks))
    | inr ((t, rest), e) ↦
        let (front, open') = next_task-some r t rest e in
        let (order, open'') = apply_all-tasks (calls t) rest (h t) (open' ∙ s) in
        let ih = run_pending_tasks_order fuel (apply_all (calls t) rest) h open'' in
        rw (e, run_pending_tasks)
          (rw (ih, order, front) (ap (λ ts. t ∷ ts) (append_assoc rest.tasks _ _)))
  ]

  -- When the loop of RunPendingTasks comes to its end the runner is paused or has nothing to run.
  pub run_pending_tasks_end :
      (fuel : ℕ) (r : TaskRunner T)
      → (let (r', ran, done) = run_pending_tasks calls fuel r in done ≡ true → next_task r' ≡ none)
  unfolding run_pending_tasks
  run_pending_tasks_end zero r = λ h. cc
  run_pending_tasks_end (suc fuel) r = elim (Option-cases (next_task r)) [
    | inl e ↦ rw (e, run_pending_tasks) (λ _. e)
    | inr ((t, rest), e) ↦
        rw (e, run_pending_tasks) (run_pending_tasks_end fuel (apply_all (calls t) rest))
  ]

  -- The loop of RunPendingTasks ends within the weight of the queue if every task weighs more than
  -- all that it posts.
  pub run_pending_tasks_total :
      (w : T → ℕ) (fuel : ℕ) (r : TaskRunner T)
      → ((t : T) → weight w (posted (calls t)) < w t)
      → weight w r.tasks < fuel
      → (run_pending_tasks calls fuel r).2 ≡ true
  unfolding run_pending_tasks
  run_pending_tasks_total w zero r h b = absurd (omega arith)
  run_pending_tasks_total w (suc fuel) r h b = elim (Option-cases (next_task r)) [
    | inl e ↦ rw (e, run_pending_tasks)
    | inr ((t, rest), e) ↦
        let front = (next_task-some r t rest e).0 in
        let before : weight w r.tasks ≡ w t + weight w rest.tasks = rw front (weight-cons w t _) in
        rw (e, run_pending_tasks)
          (run_pending_tasks_total w fuel (apply_all (calls t) rest) h
            (omega (arith, before, h t, weight-apply_all w (calls t) rest)))
  ]
