-- ===== src/Scheduler/Timing.antt =====
-- The timers of network/kcp/timesched.go run while there is a task, and no task is early.
use emt.Common.{
  ℕ, zero, suc, ◌+◌, ◌-◌, ◌≤◌, ◌<◌, ◌≡◌, refl, ap, sym, subst, ◌∙◌, inl, inr, Bool, true, false,
  Bool-cases, Option, none, some, List, [], ◌∷◌, All, length, ltb, arith,
}
use emt.Scheduler.Steps.{Task, Heap, Worker, Sched, stop_timer, take_task, run_due, rearm, wake}
use emt.Scheduler.Counting.{count, IsHeap, rearm-tasks}

-- Either the timer runs, or its time waits in the channel, or it was taken and the flag says so.
abbrev pub AreTimed : Option ℕ → Option ℕ → Bool → Type 0
AreTimed none none drained = drained ≡ true
AreTimed none (some n) drained = drained ≡ false
AreTimed (some d) none drained = drained ≡ false
AreTimed (some d) (some n) drained = ⊥

abbrev pub IsServed : List Task → Bool → Type 0
IsServed [] drained = Unit {0}
IsServed (t ∷ h) drained = drained ≡ false

abbrev pub IsPast : ℕ → Option ℕ → Type 0
IsPast now none = Unit {0}
IsPast now (some n) = n ≤ now

abbrev pub IsNotified : List Task → Bool → Type 0
IsNotified [] notified = Unit {0}
IsNotified (t ∷ ts) notified = notified ≡ true

-- All tasks come later than they were due.
abbrev pub AreDue : ℕ → List Task → Type 0
AreDue now = All (λ t. t.ts < now)

module _ {H : Heap} (c : IsHeap H) where
  -- A goroutine's heap is one, and while there are tasks in it the timer runs or has fired.
  pub record IsArmed (now : ℕ) (w : Worker) : Type 0 where
    pub ordered : c.IsOrdered w.tasks
    pub timed : AreTimed w.deadline w.channel w.drained
    pub served : IsServed w.tasks w.drained
    pub past : IsPast now w.channel

  -- Also, every task was executed behind its deadline, and `prepend` is notified while tasks wait.
  pub record IsTimely (s : Sched) : Type 0 where
    pub armed : All (IsArmed s.now) s.workers
    pub on_time : All (λ e. e.0.ts < e.1) s.executed
    pub waiting : IsNotified s.prepend_tasks s.notified

length-count : (h : List Task) → count (λ t. true) h ≡ length h
length-count [] = refl
length-count (t ∷ h) = omega (arith, length-count h)

All-later :
    (now : ℕ) (t : Task) (us : List Task)
    → now ≤ t.ts
    → All (λ u. t.ts ≤ u.ts) us
    → All (λ u. now ≤ u.ts) us
All-later now t [] l k = tt
All-later now t (u ∷ us) l (k, ks) = (omega arith, All-later now t us l ks)

-- `Stop` and the receipt never wait.
stopped :
    (w : Worker)
    → AreTimed w.deadline w.channel w.drained
    → stop_timer w ≡ some (record w { deadline = none; channel = none })
stopped w a = by_timer w.deadline w.channel w.drained refl refl refl a
  where
    by_timer :
        (d ch : Option ℕ) (dr : Bool)
        → w.deadline ≡ d
        → w.channel ≡ ch
        → w.drained ≡ dr
        → AreTimed d ch dr
        → stop_timer w ≡ some (record w { deadline = none; channel = none })
    by_timer none none dr p q r a' = ground arith
    by_timer none (some n) dr p q r a' = ground arith
    by_timer (some d) none dr p q r a' = ground arith
    by_timer (some d) (some n) dr p q r a' = absurd a'

fired :
    (w : Worker) (n : ℕ)
    → AreTimed w.deadline w.channel w.drained
    → w.channel ≡ some n
    → w.deadline ≡ none
fired w n a e = by_deadline w.deadline refl (rw e at a)
  where
    by_deadline :
        (d : Option ℕ) → w.deadline ≡ d → AreTimed d (some n) w.drained → w.deadline ≡ none
    by_deadline none p a' = p
    by_deadline (some d) p a' = absurd a'

module _ (H : Heap) (c : IsHeap H) where
  -- The loop executes what is due and leaves a heap of what is not.
  run_due_lem :
      (n now : ℕ) (h : List Task)
      → length h ≤ n
      → c.IsOrdered h
      → AreDue now (run_due H n now h).0
        × All (λ t. now ≤ t.ts) (run_due H n now h).1
        × c.IsOrdered (run_due H n now h).1
  unfolding run_due
  run_due_lem zero now [] l o = (tt, tt, o)
  run_due_lem zero now (t ∷ h) l o = absurd (omega arith)
  run_due_lem (suc n) now [] l o = (tt, tt, o)
  run_due_lem (suc n) now (t ∷ h) l o = elim (Bool-cases (ltb t.ts now)) [
    | inl due ↦
        let same : length (H.rest t h) ≡ length h =
          sym (length-count (H.rest t h)) ∙ c.count-rest (λ t. true) t h ∙ length-count h in
        let (d, k, o') = run_due_lem n now (H.rest t h) (omega arith) (c.ordered-rest t h o) in
        rw due ((ground arith, d), k, o')
    | inr later ↦ rw later (tt, (ground arith, All-later now t h (ground arith) (c.least t h o)), o)
  ]

  rearm-IsArmed :
      (clock now : ℕ) (h : List Task) (w : Worker)
      → c.IsOrdered h
      → w.deadline ≡ none
      → w.channel ≡ none
      → w.drained ≡ true
      → IsArmed c clock (rearm clock now h w)
  rearm-IsArmed clock now [] w o d ch dr = record {
    ordered = o;
    timed = rw (d, ch, dr) refl;
    served = tt;
    past = rw ch tt;
  }
  rearm-IsArmed clock now (t ∷ h) w o d ch dr = record {
    ordered = o;
    timed = rw ch refl;
    served = refl;
    past = rw ch tt;
  }

  -- When a goroutine takes the time `now` from its timer: it executes tasks that are due, all that
  -- it keeps are not, and it waits for the next one of these.
  pub wake_lem :
      (clock now : ℕ) (w : Worker)
      → IsArmed c clock w
      → w.channel ≡ some now
      → AreDue now (wake H clock now w).0
        × All (λ t. now ≤ t.ts) (wake H clock now w).1.tasks
        × IsArmed c clock (wake H clock now w).1
  unfolding wake
  wake_lem clock now w a e =
      let (d, k, o) = run_due_lem (length w.tasks) now w.tasks (omega arith) a.ordered in
      (
        d,
        subst (All (λ t. now ≤ t.ts)) (sym (rearm-tasks clock now _ _)) k,
        rearm-IsArmed clock now _ _ o (fired w now a.timed e) refl refl,
      )

  pub take_task-IsArmed :
      (now : ℕ) (t : Task) (w : Worker)
      → IsArmed c now w
      → (out : List Task) × (w' : Worker) × (take_task H now t w ≡ some (out, w'))
        × AreDue now out
        × IsArmed c now w'
  unfolding take_task
  take_task-IsArmed now t w a = elim (Bool-cases (ltb t.ts now)) [
    | inl due ↦ (t ∷ [], w, rw due refl, (ground arith, tt), a)
    | inr later ↦ by_heap later (H.push t w.tasks) refl
  ]
    where
      by_heap :
          ltb t.ts now ≡ false
          → (h : List Task) → H.push t w.tasks ≡ h
          → (out : List Task) × (w' : Worker) × (take_task H now t w ≡ some (out, w'))
            × AreDue now out
            × IsArmed c now w'
      by_heap later [] q =
          absurd (omega (arith, c.count-push (λ u. true) t w.tasks, ap (count (λ u. true)) q))
      by_heap later (u ∷ us) q = (
        [],
        record w {
          tasks = u ∷ us;
          deadline = some (now + (u.ts - now));
          channel = none;
          drained = false;
        },
        rw (later, stopped (record w { tasks = H.push t w.tasks }) a.timed, q) refl,
        tt,
        record {
          ordered = subst c.IsOrdered q (c.ordered-push t w.tasks a.ordered);
          timed = refl;
          served = refl;
          past = tt;
        },
      )
