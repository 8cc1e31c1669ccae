-- ===== src/Scheduler/Counting.antt =====
-- No task of network/kcp/timesched.go is lost, and none is executed twice.
use emt.Common.{
  ℕ, zero, suc, ◌+◌, ◌≤◌, ◌≡◌, refl, ap, sym, ◌∙◌, inl, inr, Bool, true, Bool-cases, Option, none,
  some, List, [], ◌∷◌, ◌++◌, All, length, ltb, arith, if◌then◌else◌,
}
use emt.Scheduler.Steps.{
  Task, Heap, Worker, Sched, new_worker, new_workers, new_timed_sched, fire, drain, stop_timer,
  reset, reset_after, take_task, run_due, rearm, wake, put, take_over, at_time, went_on, Step, puts,
  takes_over, hands, fires, wakes, passes, closes, ends, ends_worker, Reaches, here, then_step,
}

-- How many tasks of a list pass a test.
abbrev pub count : (Task → Bool) → List Task → ℕ
count f [] = 0
count f (t ∷ ts) = (if f t then 1 else 0) + count f ts

abbrev pub count_workers : (Task → Bool) → List Worker → ℕ
count_workers f [] = 0
count_workers f (w ∷ ws) = count f w.tasks + count_workers f ws

abbrev pub count_executed : (Task → Bool) → List (Task × ℕ) → ℕ
count_executed f [] = 0
count_executed f ((t, n) ∷ es) = (if f t then 1 else 0) + count_executed f es

-- What container/heap says of the two operations: the tasks stay the same, the order of a heap is
-- kept, and the task at index 0 of a heap is a least one.
pub record IsHeap (H : Heap) : Type 1 where
  pub IsOrdered : List Task → Type 0
  pub ordered-nil : IsOrdered []
  pub ordered-push : (t : Task) (h : List Task) → IsOrdered h → IsOrdered (H.push t h)
  pub ordered-rest : (t : Task) (h : List Task) → IsOrdered (t ∷ h) → IsOrdered (H.rest t h)
  pub count-push :
      (f : Task → Bool) (t : Task) (h : List Task) → count f (H.push t h) ≡ count f (t ∷ h)
  pub count-rest : (f : Task → Bool) (t : Task) (h : List Task) → count f (H.rest t h) ≡ count f h
  pub least : (t : Task) (h : List Task) → IsOrdered (t ∷ h) → All (λ u. t.ts ≤ u.ts) h

-- Each task that was put is with `prepend`, in one heap, or was executed once.
abbrev pub IsCounted : (Task → Bool) → Sched → Type 0
IsCounted f s =
    count f s.given
    ≡ count f s.prepend_tasks
      + count f s.tasks
      + count_workers f s.workers
      + count_executed f s.executed

count-append : (f : Task → Bool) (ts us : List Task) → count f (ts ++ us) ≡ count f ts + count f us
count-append f [] us = omega arith
count-append f (t ∷ ts) us = omega (arith, count-append f ts us)

count_workers-append :
    (f : Task → Bool) (ws ws' : List Worker)
    → count_workers f (ws ++ ws') ≡ count_workers f ws + count_workers f ws'
count_workers-append f [] ws' = omega arith
count_workers-append f (w ∷ ws) ws' = omega (arith, count_workers-append f ws ws')

count_executed-append :
    (f : Task → Bool) (n : ℕ) (es : List (Task × ℕ)) (ts : List Task)
    → count_executed f (es ++ at_time n ts) ≡ count_executed f es + count f ts
count_executed-append f n [] [] = refl
count_executed-append f n [] (t ∷ ts) = omega (arith, count_executed-append f n [] ts)
count_executed-append f n (e ∷ es) ts = omega (arith, count_executed-append f n es ts)

count-run_due :
    (H : Heap)
    → IsHeap H
    → (f : Task → Bool) (n now : ℕ) (h : List Task)
    → count f (run_due H n now h).0 + count f (run_due H n now h).1 ≡ count f h
unfolding run_due
count-run_due H c f zero now h = omega arith
count-run_due H c f (suc n) now [] = refl
count-run_due H c f (suc n) now (t ∷ h) = elim (Bool-cases (ltb t.ts now)) [
  | inl due ↦ rw due (omega (arith, count-run_due H c f n now (H.rest t h), c.count-rest f t h))
  | inr later ↦ rw later (omega arith)
]

pub rearm-tasks : (clock now : ℕ) (h : List Task) (w : Worker) → (rearm clock now h w).tasks ≡ h
rearm-tasks clock now [] w = refl
rearm-tasks clock now (t ∷ h) w = refl

count-wake :
    (H : Heap)
    → IsHeap H
    → (f : Task → Bool) (clock now : ℕ) (w : Worker)
    → count f (wake H clock now w).0 + count f (wake H clock now w).1.tasks ≡ count f w.tasks
unfolding wake
count-wake H c f clock now w =
    let due = run_due H (length w.tasks) now w.tasks in
    ap (λ h. count f due.0 + count f h) (rearm-tasks clock now due.1 _)
    ∙ count-run_due H c f (length w.tasks) now w.tasks

drain-tasks : (w w' : Worker) → drain w ≡ some w' → w'.tasks ≡ w.tasks
drain-tasks w w' e = ground arith

stop_timer-tasks : (w w' : Worker) → stop_timer w ≡ some w' → w'.tasks ≡ w.tasks
stop_timer-tasks w w' e = ground arith

reset-tasks :
    (now : ℕ) (h : List Task) (w w' : Worker) → reset now h w ≡ some w' → w'.tasks ≡ w.tasks
reset-tasks now [] w w' e = absurd (cc e)
reset-tasks now (t ∷ h) w w' e = ground arith

set_tasks :
    (now : ℕ) (h : List Task) (w : Worker) (o : Option Worker) (out : List Task) (w' : Worker)
    → ((v : Worker) → o ≡ some v → v.tasks ≡ h)
    → (elim (reset_after now o) as (λ _. Option (List Task × Worker)) [
      | none ↦ none
      | some v ↦ some ([], v)
    ])
      ≡ some (out, w')
    → (out ≡ []) × (w'.tasks ≡ h)
set_tasks now h w none out w' k e = absurd (cc e)
set_tasks now h w (some v) out w' k e = by_reset (reset now v.tasks v) refl e
  where
    by_reset :
        (o' : Option Worker)
        → reset now v.tasks v ≡ o'
        → (elim o' as (λ _. Option (List Task × Worker)) [ none ↦ none | some u ↦ some ([], u) ])
          ≡ some (out, w')
        → (out ≡ []) × (w'.tasks ≡ h)
    by_reset none q e' = absurd (cc e')
    by_reset (some u) q e' =
        let same : u ≡ w' = cc e' in
        (cc e', sym (ap (λ (x : Worker). x.tasks) same) ∙ reset-tasks now v.tasks v u q ∙ k v refl)

count-take_task :
    (H : Heap)
    → IsHeap H
    → (f : Task → Bool) (now : ℕ) (t : Task) (w w' : Worker) (out : List Task)
    → take_task H now t w ≡ some (out, w')
    → count f out + count f w'.tasks ≡ (if f t then 1 else 0) + count f w.tasks
unfolding take_task
count-take_task H c f now t w w' out e = elim (Bool-cases (ltb t.ts now)) [
  | inl due ↦
      let p : ◌≡◌ {A = List Task × Worker} (t ∷ [], w) (out, w') = cc (rw due at e) in
      let o : t ∷ [] ≡ out = ap (λ (r : List Task × Worker). r.0) p in
      let v : w ≡ w' = ap (λ (r : List Task × Worker). r.1) p in rw (sym o, sym v) (omega arith)
  | inr later ↦
      let (o, q) =
        set_tasks now (H.push t w.tasks) w _ out w' (λ v k. stop_timer-tasks _ v k)
          (rw later at e) in
      rw (o, q) (omega (arith, c.count-push f t w.tasks))
]

went_on-IsCounted :
    (f : Task → Bool) (ws ws' : List Worker) (w w' : Worker) (out ts : List Task) (s : Sched)
    → s.workers ≡ ws ++ (w ∷ ws')
    → count f out + count f w'.tasks + count f ts ≡ count f w.tasks + count f s.tasks
    → IsCounted f s
    → IsCounted f (went_on ws w' ws' out (record s { tasks = ts }))
went_on-IsCounted f ws ws' w w' out ts s q same h = omega (
  arith,
  ap (count_workers f) q,
  count_workers-append f ws (w ∷ ws'),
  count_workers-append f ws (w' ∷ ws'),
  count_executed-append f s.now s.executed out,
)

Step-IsCounted :
    (H : Heap)
    → IsHeap H
    → (f : Task → Bool) {s s' : Sched} → Step H s s'
    → IsCounted f s
    → IsCounted f s'
unfolding put take_over fire
Step-IsCounted H c f {s} (puts t) h =
    omega (arith, count-append f s.given (t ∷ []), count-append f s.prepend_tasks (t ∷ []))
Step-IsCounted H c f {s} (takes_over r n e) h = omega (arith, h, ap (count f) e)
Step-IsCounted H c f {s} (hands t ts out ws ws' w w' r e q wr k) h =
    went_on-IsCounted f ws ws' w w' out ts s q
      (omega (arith, ap (count f) e, count-take_task H c f s.now t w w' out k)) h
Step-IsCounted H c f {s} (fires ws ws' w d q e le) h =
    went_on-IsCounted f ws ws' w (fire s.now w) [] s.tasks s q (omega arith) h
Step-IsCounted H c f {s} (wakes ws ws' w n q r e) h =
    went_on-IsCounted f ws ws' w (wake H s.now n w).1 (wake H s.now n w).0 s.tasks s q
      (omega (arith, count-wake H c f s.now n w)) h
Step-IsCounted H c f (passes n) h = h
Step-IsCounted H c f closes h = h
Step-IsCounted H c f (ends d) h = h
Step-IsCounted H c f {s} (ends_worker ws ws' w d q) h =
    went_on-IsCounted f ws ws' w (record w { has_returned = true }) [] s.tasks s q (omega arith) h

new_workers-count : (f : Task → Bool) (now n : ℕ) → count_workers f (new_workers now n) ≡ 0
unfolding new_worker
new_workers-count f now zero = refl
new_workers-count f now (suc n) = omega (arith, new_workers-count f now n)

-- Whatever the goroutines do and in whatever order: for each test, as many of the tasks that were put
-- pass it as of those that wait to be handed over, that are in the heaps, and that were executed, so
-- no task is lost and none is executed more often than it was put.
pub Reaches-IsCounted :
    (H : Heap)
    → IsHeap H
    → (f : Task → Bool) (now parallel : ℕ) {s : Sched} → Reaches H (new_timed_sched now parallel) s
    → IsCounted f s
unfolding new_timed_sched
Reaches-IsCounted H c f now parallel here = omega (arith, new_workers-count f now parallel)
Reaches-IsCounted H c f now parallel (then_step r st) =
    Step-IsCounted H c f st (Reaches-IsCounted H c f now parallel r)
