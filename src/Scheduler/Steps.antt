-- ===== src/Scheduler/Steps.antt =====
-- The goroutines of network/kcp/timesched.go. What one does between two waits is one step.
use emt.Common.{
  ℕ, zero, suc, ◌+◌, ◌-◌, ◌≤◌, ◌≡◌, Bool, true, false, ◌&&◌, not, Option, none, some, List, [], ◌∷◌,
  ◌++◌, length, ltb, if◌then◌else◌,
}

-- `timedFunc`; functions are numbers.
pub record Task : Type 0 where
  pub execute : ℕ
  pub ts : ℕ

-- What the source uses of container/heap: `heap.Push`, and what `heap.Pop` leaves when it gives the
-- task at index 0.
pub record Heap : Type 0 where
  pub push : Task → List Task → List Task
  pub rest : Task → List Task → List Task

-- A goroutine in `sched`: its heap, the deadline of its timer if it runs, the time that waits in the
-- timer's channel, its flag, and whether it has returned.
pub record Worker : Type 0 where
  pub tasks : List Task
  pub deadline : Option ℕ
  pub channel : Option ℕ
  pub drained : Bool
  pub has_returned : Bool

-- `TimedSched`, with the local `tasks` of `prepend`, whether that has returned, the clock, all tasks
-- that were put, and those that were executed with the time, oldest first.
pub record Sched : Type 0 where
  pub prepend_tasks : List Task
  pub notified : Bool
  pub tasks : List Task
  pub workers : List Worker
  pub died : Bool
  pub has_returned : Bool
  pub now : ℕ
  pub given : List Task
  pub executed : List (Task × ℕ)

abbrev pub is_some {ℓ} : {A : Type ℓ} → Option A → Bool
is_some none = false
is_some (some a) = true

-- The start of `sched`: `time.NewTimer(0)`.
unfoldable pub new_worker : ℕ → Worker
new_worker now = record {
  tasks = [];
  deadline = some now;
  channel = none;
  drained = false;
  has_returned = false;
}

abbrev pub new_workers : ℕ → ℕ → List Worker
new_workers now zero = []
new_workers now (suc n) = new_worker now ∷ new_workers now n

-- `NewTimedSched`.
unfoldable pub new_timed_sched : ℕ → ℕ → Sched
unfolding new_worker
new_timed_sched now parallel = record {
  prepend_tasks = [];
  notified = false;
  tasks = [];
  workers = new_workers now parallel;
  died = false;
  has_returned = false;
  now = now;
  given = [];
  executed = [];
}

-- The runtime sends the time to a timer's channel, which holds one value.
abbrev pub sent : ℕ → Option ℕ → Option ℕ
sent now none = some now
sent now (some n) = some n

unfoldable pub fire : ℕ → Worker → Worker
fire now w = record w { deadline = none; channel = sent now w.channel }

-- `<-timer.C`; `none` stands for a goroutine that waits.
abbrev pub drain : Worker → Option Worker
drain w = if is_some w.channel then some (record w { channel = none }) else none

-- `timer.Stop`, and the receipt of a time that came before it.
abbrev pub stop_timer : Worker → Option Worker
stop_timer w =
    if not (is_some w.deadline) && not w.drained
    then drain (record w { deadline = none })
    else some (record w { deadline = none })

-- `timer.Reset(tasks[0].ts.Sub(now))`; `none` is an index out of range. A duration that is not
-- positive is over at once.
abbrev pub reset : ℕ → List Task → Worker → Option Worker
reset now [] w = none
reset now (t ∷ h) w = some (record w { deadline = some (now + (t.ts - now)); drained = false })

abbrev pub reset_after : ℕ → Option Worker → Option Worker
reset_after now none = none
reset_after now (some w) = reset now w.tasks w

-- The first case of `sched`: a task has come. The tasks that are executed, and the goroutine then.
unfoldable pub take_task : Heap → ℕ → Task → Worker → Option (List Task × Worker)
take_task H now t w =
    if ltb t.ts now
    then some (t ∷ [], w)
    else elim (reset_after now (stop_timer (record w { tasks = H.push t w.tasks }))) [
      | none ↦ none
      | some w' ↦ some ([], w')
    ]

-- The loop of the second case, with as many rounds as there are tasks.
unfoldable pub run_due : Heap → ℕ → ℕ → List Task → List Task × List Task
run_due H zero now h = ([], h)
run_due H (suc n) now [] = ([], [])
run_due H (suc n) now (t ∷ h) =
    let rest = run_due H n now (H.rest t h) in
    if ltb t.ts now then (t ∷ rest.0, rest.1) else ([], t ∷ h)

abbrev pub rearm : ℕ → ℕ → List Task → Worker → Worker
rearm clock now [] w = record w { tasks = [] }
rearm clock now (t ∷ h) w = record w {
  tasks = t ∷ h;
  deadline = some (clock + (t.ts - now));
  drained = false;
}

-- The second case of `sched`: the time `now` has come from the timer; the clock may have gone on.
unfoldable pub wake : Heap → ℕ → ℕ → Worker → List Task × Worker
unfolding run_due
wake H clock now w =
    let due = run_due H (length w.tasks) now w.tasks in
    (due.0, rearm clock now due.1 (record w { channel = none; drained = true }))

-- `Put`.
unfoldable pub put : Task → Sched → Sched
put t s = record s {
  prepend_tasks = s.prepend_tasks ++ (t ∷ []);
  notified = true;
  given = s.given ++ (t ∷ []);
}

-- `prepend`, when it is notified: it takes the tasks over.
unfoldable pub take_over : Sched → Sched
take_over s = record s { notified = false; tasks = s.prepend_tasks; prepend_tasks = [] }

abbrev pub at_time : ℕ → List Task → List (Task × ℕ)
at_time now [] = []
at_time now (t ∷ ts) = (t, now) ∷ at_time now ts

-- One goroutine goes on, and executes some tasks.
abbrev pub went_on : List Worker → Worker → List Worker → List Task → Sched → Sched
went_on ws w ws' out s = record s {
  workers = ws ++ (w ∷ ws');
  executed = s.executed ++ at_time s.now out;
}

-- What can happen: a goroutine of the program calls `Put` or `Close`; `prepend` is notified, or hands a
-- task to a goroutine that waits; a timer fires; a goroutine takes the time from its timer; time
-- passes; a goroutine sees the end and returns.
pub data Step (H : Heap) : Sched → Sched → Type 0 where
  puts : {s : Sched} → (t : Task) → Step H s (put t s)
  takes_over :
      {s : Sched}
      → s.has_returned ≡ false
      → s.notified ≡ true
      → s.tasks ≡ []
      → Step H s (take_over s)
  hands :
      {s : Sched}
      → (t : Task) → (ts out : List Task) → (ws ws' : List Worker) → (w w' : Worker)
      → s.has_returned ≡ false
      → s.tasks ≡ t ∷ ts
      → s.workers ≡ ws ++ (w ∷ ws')
      → w.has_returned ≡ false
      → take_task H s.now t w ≡ some (out, w')
      → Step H s (went_on ws w' ws' out (record s { tasks = ts }))
  fires :
      {s : Sched}
      → (ws ws' : List Worker) → (w : Worker) → (d : ℕ) → s.workers ≡ ws ++ (w ∷ ws')
      → w.deadline ≡ some d
      → d ≤ s.now
      → Step H s (went_on ws (fire s.now w) ws' [] s)
  wakes :
      {s : Sched}
      → (ws ws' : List Worker) → (w : Worker) → (n : ℕ) → s.workers ≡ ws ++ (w ∷ ws')
      → w.has_returned ≡ false
      → w.channel ≡ some n
      → Step H s (went_on ws (wake H s.now n w).1 ws' (wake H s.now n w).0 s)
  passes : {s : Sched} → (n : ℕ) → Step H s (record s { now = s.now + n })
  closes : {s : Sched} → Step H s (record s { died = true })
  ends : {s : Sched} → s.died ≡ true → Step H s (record s { has_returned = true })
  ends_worker :
      {s : Sched}
      → (ws ws' : List Worker) → (w : Worker) → s.died ≡ true
      → s.workers ≡ ws ++ (w ∷ ws')
      → Step H s (went_on ws (record w { has_returned = true }) ws' [] s)

pub data Reaches (H : Heap) (s : Sched) : Sched → Type 0 where
  here : Reaches H s s
  then_step : {t u : Sched} → Reaches H s t → Step H t u → Reaches H s u
