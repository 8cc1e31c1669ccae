-- ===== src/Scheduler/Tests.antt =====
-- network/kcp/timesched.go with a heap that is a sorted list, and one goroutine.
use emt.Common.{
  ℕ, ◌≤◌, ◌≡◌, refl, inl, inr, true, false, Bool, Bool-cases, none, some, List, [], ◌∷◌, All, leb,
  arith, if◌then◌else◌,
}
use emt.Scheduler.Steps.{
  Task, Heap, Worker, Sched, new_timed_sched, take_task, wake, put, take_over, went_on, fire, puts,
  takes_over, hands, fires, wakes, passes, Reaches, here, then_step,
}
use emt.Scheduler.Counting.{count, IsHeap, IsCounted, Reaches-IsCounted}
use emt.Scheduler.Timing.{IsArmed, IsTimely, AreDue}
use emt.Scheduler.Reaching.{Reaches-IsTimely, Reaches-take_task}

abbrev insert : Task → List Task → List Task
insert t [] = t ∷ []
insert t (u ∷ h) = if leb t.ts u.ts then t ∷ u ∷ h else u ∷ insert t h

abbrev sorted : Heap
sorted = record { push = insert; rest = λ t h. h }

abbrev IsSorted : List Task → Type 0
IsSorted [] = Unit {0}
IsSorted (t ∷ h) = All (λ u. t.ts ≤ u.ts) h × IsSorted h

count-insert : (f : Task → Bool) (t : Task) (h : List Task) → count f (insert t h) ≡ count f (t ∷ h)
count-insert f t [] = refl
count-insert f t (u ∷ h) = elim (Bool-cases (leb t.ts u.ts)) [
  | inl e ↦ rw e refl
  | inr e ↦ rw e (omega (arith, count-insert f t h))
]

All-insert :
    (n : ℕ) (t : Task) (h : List Task)
    → n ≤ t.ts
    → All (λ u. n ≤ u.ts) h
    → All (λ u. n ≤ u.ts) (insert t h)
All-insert n t [] l a = (l, tt)
All-insert n t (u ∷ h) l (k, a) = elim (Bool-cases (leb t.ts u.ts)) [
  | inl e ↦ rw e (l, (k, a))
  | inr e ↦ rw e (k, All-insert n t h l a)
]

All-le : (m n : ℕ) (h : List Task) → m ≤ n → All (λ u. n ≤ u.ts) h → All (λ u. m ≤ u.ts) h
All-le m n [] l a = tt
All-le m n (u ∷ h) l (k, a) = (omega arith, All-le m n h l a)

insert-IsSorted : (t : Task) (h : List Task) → IsSorted h → IsSorted (insert t h)
insert-IsSorted t [] s = (tt, tt)
insert-IsSorted t (u ∷ h) (a, s) = elim (Bool-cases (leb t.ts u.ts)) [
  | inl e ↦ rw e ((ground arith, All-le t.ts u.ts h (ground arith) a), (a, s))
  | inr e ↦ rw e (All-insert u.ts t h (ground arith) a, insert-IsSorted t h s)
]

abbrev sorted_heap : IsHeap sorted
sorted_heap = record {
  IsOrdered = IsSorted;
  ordered-nil = tt;
  ordered-push = insert-IsSorted;
  ordered-rest = λ t h s. s.1;
  count-push = count-insert;
  count-rest = λ f t h. refl;
  least = λ t h s. s.0;
}

abbrev task : Task
task = record { execute = 1; ts = 8 }

-- A task for time 8 is put at time 5, handed over, and executed at time 9.
abbrev waiting : Worker
waiting = record {
  tasks = task ∷ [];
  deadline = some 8;
  channel = none;
  drained = false;
  has_returned = false;
}

abbrev begun : Sched
begun = new_timed_sched 5 1

abbrev handed : Sched
handed = went_on [] waiting [] [] (record (take_over (put task begun)) { tasks = [] })

handed-Reaches : Reaches sorted begun handed
unfolding new_timed_sched put take_over take_task
handed-Reaches =
    then_step (then_step (then_step here (puts task)) (takes_over refl refl refl))
      (hands task [] [] [] [] _ waiting refl refl refl refl refl)

abbrev rung : Sched
rung = went_on [] (fire 9 waiting) [] [] (record handed { now = 9 })

rung-Reaches : Reaches sorted begun rung
unfolding new_timed_sched put take_over take_task
rung-Reaches =
    then_step (then_step handed-Reaches (passes 4)) (fires [] [] waiting 8 refl refl (omega arith))

abbrev executed : Sched
executed =
    went_on [] (wake sorted 9 9 (fire 9 waiting)).1 [] (wake sorted 9 9 (fire 9 waiting)).0 rung

executed-Reaches : Reaches sorted begun executed
unfolding new_timed_sched put take_over fire
executed-Reaches = then_step rung-Reaches (wakes [] [] (fire 9 waiting) 9 refl refl refl)

executed_once : executed.executed ≡ (task, 9) ∷ []
unfolding new_timed_sched put take_over fire wake
executed_once = refl

Reaches-IsCounted_example : IsCounted (λ t. true) executed
Reaches-IsCounted_example = Reaches-IsCounted sorted sorted_heap (λ t. true) 5 1 executed-Reaches

Reaches-IsTimely_example : IsTimely sorted_heap executed
Reaches-IsTimely_example = Reaches-IsTimely sorted sorted_heap 5 1 executed-Reaches

Reaches-take_task_example :
    (out : List Task) × (w' : Worker) × (take_task sorted 5 task waiting ≡ some (out, w'))
    × AreDue 5 out
    × IsArmed sorted_heap 5 w'
unfolding new_timed_sched put take_over
Reaches-take_task_example =
    Reaches-take_task sorted sorted_heap 5 1 handed-Reaches [] [] waiting task refl

fired-IsArmed : IsArmed sorted_heap 9 (fire 9 waiting)
unfolding fire
fired-IsArmed = record { ordered = (tt, tt); timed = refl; served = refl; past = omega arith }
