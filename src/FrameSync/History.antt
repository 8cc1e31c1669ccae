-- ===== src/FrameSync/History.antt =====
-- What holds of the frames of util/framesync after any sequence of events.
use emt.Common.{
  ℕ, suc, ◌+◌, ◌%◌, ◌≤◌, ◌<◌, ◌≡◌, refl, ap, subst, ◌∙◌, inl, inr, Bool, true, false, not, ◌||◌,
  Option, none, some, List, [], ◌∷◌, ◌++◌, length, length-append, All, All-append, arith, ltb,
  Bool-cases, if◌then◌else◌,
}
use emt.Word.{u32_mod, add32, sub32}
use emt.FrameSync.{
  Cmd, Frame, empty_frame, FrameSync, new_frame_sync, start, close_frame, update_frame, input_cmd,
  stop, Event, on_start, on_update, on_input, on_stop, step, run,
}

-- A command came with the number of the frame it is in or one of the 20 before.
abbrev pub IsTimely : ℕ → Cmd → Type 0
IsTimely frame cmd = (cmd.frame ≤ frame) × (frame ≤ cmd.frame + 20)

-- The frames are numbered one after the other from `n` on, and their commands are timely.
abbrev pub IsNumbered : ℕ → List Frame → Type 0
IsNumbered n [] = Unit {0}
IsNumbered n (f ∷ fs) =
    (f.frame ≡ n % u32_mod) × All (IsTimely f.frame) f.cmds × IsNumbered (suc n) fs

abbrev pub IsOpen : ℕ → Option Frame → Type 0
IsOpen frame none = Unit {0}
IsOpen frame (some f) = All (IsTimely frame) f.cmds

-- The history holds the frames from 1 on, and the frame in progress is the next one.
pub record IsKept (s : FrameSync) : Type 0 where
  pub give_up : s.give_up ≡ 20
  pub frame : s.frame ≡ (1 + length s.history) % u32_mod
  pub history : IsNumbered 1 s.history
  pub current : IsOpen s.frame s.f

IsNumbered-append :
    (n : ℕ) (fs : List Frame) (f : Frame)
    → IsNumbered n fs
    → f.frame ≡ (n + length fs) % u32_mod
    → All (IsTimely f.frame) f.cmds
    → IsNumbered n (fs ++ (f ∷ []))
IsNumbered-append n [] f v e t = (e ∙ ap (λ m. m % u32_mod) (omega arith), t, tt)
IsNumbered-append n (g ∷ fs) f (eg, tg, v) e t =
    (eg, tg, IsNumbered-append (suc n) fs f v (e ∙ ap (λ m. m % u32_mod) (omega arith)) t)

new_frame_sync-IsKept :
    (interval : ℕ) (save handler : Bool) → IsKept (new_frame_sync interval save handler)
unfolding new_frame_sync
new_frame_sync-IsKept interval save handler = record {
  give_up = refl;
  frame = refl;
  history = tt;
  current = tt;
}

Kept : Option FrameSync → Type 0
Kept none = Unit
Kept (some s) = IsKept s

chosen : (b : Bool) (s s' : FrameSync) → IsKept s → IsKept s' → IsKept (if b then s else s')
chosen true s s' v v' = v
chosen false s s' v v' = v'

start-IsKept : (s : FrameSync) → IsKept s → IsKept (start s)
unfolding start
start-IsKept s v =
    let fresh = record s {
      running = true;
      ticking = true;
      frame = 1;
      f = some empty_frame;
      history = [];
    } in
    chosen s.running s fresh v
      (record { give_up = v.give_up; frame = refl; history = tt; current = tt })

stop-IsKept : (s : FrameSync) → IsKept s → IsKept (stop s)
unfolding stop
stop-IsKept s v =
    chosen s.running (record s { running = false; ticking = false }) s
      (record { give_up = v.give_up; frame = v.frame; history = v.history; current = v.current }) v

close_frame-Kept :
    (now : ℕ) (f : Frame) (s : FrameSync)
    → All (IsTimely s.frame) f.cmds
    → IsKept s
    → Kept (close_frame now f s)
unfolding close_frame Kept
close_frame-Kept now f s t v = elim (Bool-cases s.is_save_history) [
  | inr e ↦ rw e tt
  | inl e ↦ rw e (
      let done : Frame = record f { frame = s.frame; time_stamp = now } in
      record {
        give_up = v.give_up;
        frame = unfold add32 in omega (arith, v.frame, length-append {0} s.history (done ∷ []));
        history = IsNumbered-append 1 s.history done v.history v.frame t;
        current = tt;
      })
]

either : (b : Bool) (r r' : Option FrameSync) → Kept r → Kept r' → Kept (if b then r else r')
either true r r' v v' = v
either false r r' v v' = v'

update_frame-Kept : (now : ℕ) (s : FrameSync) → IsKept s → Kept (update_frame now s)
unfolding update_frame Kept
update_frame-Kept now s v = either (not s.running) (some s) _ v (opened s.f v.current)
  where
    opened :
        (o : Option Frame)
        → IsOpen s.frame o
        → Kept (elim o [ none ↦ none | some f ↦ close_frame now f s ])
    opened none t = tt
    opened (some f) t = close_frame-Kept now f s t v

input_cmd-Kept : (cmd : Cmd) (s : FrameSync) → IsKept s → Kept (input_cmd cmd s)
unfolding input_cmd Kept
input_cmd-Kept cmd s v =
    elim (Bool-cases (ltb s.frame cmd.frame || ltb s.give_up (sub32 s.frame cmd.frame))) [
      | inl late ↦ rw late v
      | inr timely ↦
          rw timely
            (opened s.f v.current (timely_lem s.frame cmd.frame s.give_up v.give_up bound timely))
    ]
  where
    bound : s.frame < u32_mod
    bound = omega (arith, v.frame)

    timely_lem :
        (frame sent give_up : ℕ)
        → give_up ≡ 20
        → frame < u32_mod
        → (ltb frame sent || ltb give_up (sub32 frame sent)) ≡ false
        → (sent ≤ frame) × (frame ≤ sent + 20)
    timely_lem frame sent give_up eg h e = unfold sub32 in ground (arith, e)

    opened :
        (o : Option Frame)
        → IsOpen s.frame o
        → IsTimely s.frame cmd
        → Kept (elim o [
          | none ↦ none
          | some f ↦ some (record s { f = some (record f { cmds = f.cmds ++ (cmd ∷ []) }) })
        ])
    opened none t h = tt
    opened (some f) t h = record {
      give_up = v.give_up;
      frame = v.frame;
      history = v.history;
      current = All-append (IsTimely s.frame) f.cmds (cmd ∷ []) t (h, tt);
    }

step-Kept : (e : Event) (s : FrameSync) → IsKept s → Kept (step e s)
unfolding step Kept
step-Kept on_start s v = start-IsKept s v
step-Kept (on_update now) s v = update_frame-Kept now s v
step-Kept (on_input cmd) s v = input_cmd-Kept cmd s v
step-Kept on_stop s v = stop-IsKept s v

after-Kept :
    (rest : FrameSync → Option FrameSync) (o : Option FrameSync)
    → ((s : FrameSync) → IsKept s → Kept (rest s))
    → Kept o
    → Kept (elim o [ none ↦ none | some s ↦ rest s ])
unfolding Kept
after-Kept rest none h w = tt
after-Kept rest (some s) h w = h s w

run-Kept : (es : List Event) (s : FrameSync) → IsKept s → Kept (run es s)
unfolding run
run-Kept [] s v = unfold Kept in v
run-Kept (e ∷ es) s v = after-Kept (run es) (step e s) (run-Kept es) (step-Kept e s v)

-- After any sequence of starts, ticks, commands and stops that does not end the program: the history
-- holds the frames from 1 on without a gap, the frame in progress is the next one, and every command
-- is in the frame whose number it came with, or in one of the 20 behind it.
pub run-IsKept :
    (interval : ℕ) (save handler : Bool) (es : List Event) (s : FrameSync)
    → run es (new_frame_sync interval save handler) ≡ some s
    → IsKept s
unfolding Kept
run-IsKept interval save handler es s e =
    subst Kept e (run-Kept es _ (new_frame_sync-IsKept interval save handler))
