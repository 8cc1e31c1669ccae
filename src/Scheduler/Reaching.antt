-- ===== src/Scheduler/Reaching.antt =====
-- In every state that the goroutines of network/kcp/timesched.go come to, the timers run while there
-- are tasks, and none was early.
use emt.Common.{
  ℕ, zero, suc, ◌+◌, ◌≤◌, ◌<◌, ◌≡◌, refl, sym, subst, ◌∙◌, true, Option, none, some, List, [], ◌∷◌,
  ◌++◌, All, All-append, arith,
}
use emt.Scheduler.Steps.{
  Task, Heap, Worker, Sched, new_worker, new_workers, new_timed_sched, fire, take_task, wake, put,
  take_over, at_time, went_on, Step, puts, takes_over, hands, fires, wakes, passes, closes, ends,
  ends_worker, Reaches, here, then_step,
}
use emt.Scheduler.Counting.{IsHeap}
use emt.Scheduler.Timing.{
  AreTimed, IsPast, IsNotified, AreDue, IsArmed, IsTimely, wake_lem, take_task-IsArmed,
}

All-replace {ℓ κ} :
    {A : Type ℓ} (P : A → Type κ) (xs : List A) (x x' : A) (ys : List A)
    → All P (xs ++ (x ∷ ys))
    → P x × (P x' → All P (xs ++ (x' ∷ ys)))
All-replace P [] x x' ys (h, hs) = (h, λ h'. (h', hs))
All-replace P (y ∷ xs) x x' ys (h, hs) =
    let (found, replaced) = All-replace P xs x x' ys hs in (found, λ h'. (h, replaced h'))

All-at_time :
    (now : ℕ) (ts : List Task)
    → AreDue now ts
    → All (λ (e : Task × ℕ). e.0.ts < e.1) (at_time now ts)
All-at_time now [] d = tt
All-at_time now (t ∷ ts) (d, ds) = (d, All-at_time now ts ds)

IsNotified-append : (ts : List Task) (t : Task) → IsNotified (ts ++ (t ∷ [])) true
IsNotified-append [] t = refl
IsNotified-append (u ∷ ts) t = refl

IsPast-later : (now n : ℕ) (o : Option ℕ) → IsPast now o → IsPast (now + n) o
IsPast-later now n none p = tt
IsPast-later now n (some m) p = omega arith

AreDue-le : (n now : ℕ) (ts : List Task) → n ≤ now → AreDue n ts → AreDue now ts
AreDue-le n now [] l d = tt
AreDue-le n now (t ∷ ts) l (d, ds) = (omega arith, AreDue-le n now ts l ds)

module _ (H : Heap) (c : IsHeap H) where
  went_on-IsTimely :
      (ws ws' : List Worker) (w w' : Worker) (out ts : List Task) (s : Sched)
      → s.workers ≡ ws ++ (w ∷ ws')
      → (IsArmed c s.now w → AreDue s.now out × IsArmed c s.now w')
      → IsTimely c s
      → IsTimely c (went_on ws w' ws' out (record s { tasks = ts }))
  went_on-IsTimely ws ws' w w' out ts s q k v =
      let (before, replaced) =
        All-replace (IsArmed c s.now) ws w w' ws' (subst (All (IsArmed c s.now)) q v.armed) in
      record {
        armed = replaced (k before).1;
        on_time = All-append _ s.executed _ v.on_time (All-at_time s.now out (k before).0);
        waiting = v.waiting;
      }

  fire-IsArmed :
      (now d : ℕ) (w : Worker) → w.deadline ≡ some d → IsArmed c now w → IsArmed c now (fire now w)
  unfolding fire
  fire-IsArmed now d w e a = by_channel w.channel refl (rw e at a.timed)
    where
      by_channel :
          (ch : Option ℕ)
          → w.channel ≡ ch
          → AreTimed (some d) ch w.drained
          → IsArmed c now (fire now w)
      by_channel none q t = record {
        ordered = a.ordered;
        timed = rw q t;
        served = a.served;
        past = rw q (omega arith);
      }
      by_channel (some n) q t = absurd t

  handed-IsArmed :
      (now : ℕ) (t : Task) (w w' : Worker) (out : List Task)
      → take_task H now t w ≡ some (out, w')
      → IsArmed c now w
      → AreDue now out × IsArmed c now w'
  handed-IsArmed now t w w' out k a =
      let (out1, w1, e, due, armed) = take_task-IsArmed H c now t w a in
      let same : ◌≡◌ {A = List Task × Worker} (out1, w1) (out, w') = cc (sym e ∙ k) in
      subst (λ (r : List Task × Worker). AreDue now r.0 × IsArmed c now r.1) same (due, armed)

  woken-IsArmed :
      (now n : ℕ) (w : Worker)
      → w.channel ≡ some n
      → IsArmed c now w
      → AreDue now (wake H now n w).0 × IsArmed c now (wake H now n w).1
  woken-IsArmed now n w e a =
      let (due, kept, armed) = wake_lem H c now n w a e in
      (AreDue-le n now _ (rw e at a.past) due, armed)

  later-IsArmed :
      (now n : ℕ) (ws : List Worker) → All (IsArmed c now) ws → All (IsArmed c (now + n)) ws
  later-IsArmed now n [] h = tt
  later-IsArmed now n (w ∷ ws) (a, h) = (
    record {
      ordered = a.ordered;
      timed = a.timed;
      served = a.served;
      past = IsPast-later now n w.channel a.past;
    },
    later-IsArmed now n ws h,
  )

  Step-IsTimely : {s s' : Sched} → Step H s s' → IsTimely c s → IsTimely c s'
  unfolding put take_over
  Step-IsTimely {s} (puts t) v = record {
    armed = v.armed;
    on_time = v.on_time;
    waiting = IsNotified-append s.prepend_tasks t;
  }
  Step-IsTimely {s} (takes_over r n e) v = record {
    armed = v.armed;
    on_time = v.on_time;
    waiting = tt;
  }
  Step-IsTimely {s} (hands t ts out ws ws' w w' r e q wr k) v =
      went_on-IsTimely ws ws' w w' out ts s q (handed-IsArmed s.now t w w' out k) v
  Step-IsTimely {s} (fires ws ws' w d q e le) v =
      went_on-IsTimely ws ws' w (fire s.now w) [] s.tasks s q
        (λ a. (tt, fire-IsArmed s.now d w e a)) v
  Step-IsTimely {s} (wakes ws ws' w n q r e) v =
      went_on-IsTimely ws ws' w (wake H s.now n w).1 (wake H s.now n w).0 s.tasks s q
        (woken-IsArmed s.now n w e) v
  Step-IsTimely {s} (passes n) v = record {
    armed = later-IsArmed s.now n s.workers v.armed;
    on_time = v.on_time;
    waiting = v.waiting;
  }
  Step-IsTimely closes v = record { armed = v.armed; on_time = v.on_time; waiting = v.waiting }
  Step-IsTimely (ends d) v = record { armed = v.armed; on_time = v.on_time; waiting = v.waiting }
  Step-IsTimely {s} (ends_worker ws ws' w d q) v =
      went_on-IsTimely ws ws' w (record w { has_returned = true }) [] s.tasks s q
        (λ a.
          (tt, record { ordered = a.ordered; timed = a.timed; served = a.served; past = a.past }))
        v

  new_workers-IsArmed : (now n : ℕ) → All (IsArmed c now) (new_workers now n)
  unfolding new_worker
  new_workers-IsArmed now zero = tt
  new_workers-IsArmed now (suc n) = (
    record { ordered = c.ordered-nil; timed = refl; served = tt; past = tt },
    new_workers-IsArmed now n,
  )

  -- In every state that the goroutines come to: while a goroutine has tasks in its heap, its timer
  -- runs or the timer's time waits for it; every task was executed behind its deadline; and while
  -- tasks wait for `prepend`, it is notified.
  pub Reaches-IsTimely :
      (now parallel : ℕ) {s : Sched} → Reaches H (new_timed_sched now parallel) s → IsTimely c s
  unfolding new_timed_sched
  Reaches-IsTimely now parallel here = record {
    armed = new_workers-IsArmed now parallel;
    on_time = tt;
    waiting = tt;
  }
  Reaches-IsTimely now parallel (then_step r st) =
      Step-IsTimely st (Reaches-IsTimely now parallel r)

  -- In these states no goroutine that takes a task waits for its timer or looks for a task in an
  -- empty heap: it executes the task, if it is due, or keeps it, with the timer on.
  pub Reaches-take_task :
      (now parallel : ℕ) {s : Sched}
      → Reaches H (new_timed_sched now parallel) s
      → (ws ws' : List Worker) (w : Worker) (t : Task) → s.workers ≡ ws ++ (w ∷ ws')
      → (out : List Task) × (w' : Worker) × (take_task H s.now t w ≡ some (out, w'))
        × AreDue s.now out
        × IsArmed c s.now w'
  Reaches-take_task now parallel {s} r ws ws' w t q =
      let v = Reaches-IsTimely now parallel r in
      take_task-IsArmed H c s.now t w
        (All-replace (IsArmed c s.now) ws w w ws' (subst (All (IsArmed c s.now)) q v.armed)).0
