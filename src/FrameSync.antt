-- ===== src/FrameSync.antt =====
-- util/framesync: the frames of a game in lock step, framesync.go and frame.go.
pub mod History
pub mod Query
pub mod Tests
use emt.Common.{
  ℕ, ◌+◌, ◌-◌, Bool, true, false, not, ◌&&◌, Option, none, some, List, [], ◌∷◌, ◌++◌, take, drop,
  length, ltb, ◌==◌, if◌then◌else◌, ◌||◌,
}
use emt.Word.{add32, sub32}

-- `Cmd`.
pub record Cmd : Type 0 where
  pub frame : ℕ
  pub cmds : List ℕ
  pub time_stamp : ℕ

-- `Frame`.
pub record Frame : Type 0 where
  pub cmds : List Cmd
  pub frame : ℕ
  pub time_stamp : ℕ

abbrev pub empty_frame : Frame
empty_frame = record { cmds = []; frame = 0; time_stamp = 0 }

-- `frameSync`. `f` is nil until the first start; `broadcast` is what the handler was called with, if
-- there is a handler, oldest first; `ticking` says whether the ticker runs. A nil history is the
-- empty one: no operation tells them apart.
pub record FrameSync : Type 0 where
  pub frame : ℕ
  pub frame_interval : ℕ
  pub give_up : ℕ
  pub is_save_history : Bool
  pub running : Bool
  pub ticking : Bool
  pub history : List Frame
  pub has_handler : Bool
  pub f : Option Frame
  pub broadcast : List Frame

-- `NewFrameSync`, with the defaults `DefaultStartFrame` and `DefaultGiveUpFrameInterval`.
unfoldable pub new_frame_sync : ℕ → Bool → Bool → FrameSync
new_frame_sync interval is_save_history has_handler = record {
  frame = 1;
  frame_interval = interval;
  give_up = 20;
  is_save_history = is_save_history;
  running = false;
  ticking = false;
  history = [];
  has_handler = has_handler;
  f = none;
  broadcast = [];
}

-- `Start`.
unfoldable pub start : FrameSync → FrameSync
start s =
    if s.running
    then s
    else record s { running = true; ticking = true; frame = 1; f = some empty_frame; history = [] }

-- The body of `update` for the frame in progress. Without a history it unlocks a mutex that is not
-- locked, which ends the program: `none`.
unfoldable pub close_frame : ℕ → Frame → FrameSync → Option FrameSync
close_frame now f s =
    let done = record f { frame = s.frame; time_stamp = now } in
    if s.is_save_history
    then some (record s {
      broadcast = if s.has_handler then s.broadcast ++ (done ∷ []) else s.broadcast;
      history = s.history ++ (done ∷ []);
      frame = add32 s.frame 1;
      f = some empty_frame;
    })
    else none

-- `update`, at the time `now`; `none` where the program ends.
unfoldable pub update_frame : ℕ → FrameSync → Option FrameSync
unfolding close_frame
update_frame now s =
    if not s.running then some s else elim s.f [ none ↦ none | some f ↦ close_frame now f s ]

-- `input`, of a command that is not nil; `none` where it reads a nil frame.
unfoldable pub input_cmd : Cmd → FrameSync → Option FrameSync
input_cmd cmd s =
    if ltb s.frame cmd.frame || ltb s.give_up (sub32 s.frame cmd.frame) then some s else elim s.f [
      | none ↦ none
      | some f ↦ some (record s { f = some (record f { cmds = f.cmds ++ (cmd ∷ []) }) })
    ]

-- `HistoryFrames`.
unfoldable pub history_frames : ℕ → FrameSync → List Frame
history_frames frame s =
    let l = length s.history in
    if frame == 0 || (l == 0 || ltb l frame) then [] else drop (frame - 1) (take (l - 1) s.history)

-- `Stop`.
unfoldable pub stop : FrameSync → FrameSync
stop s = if s.running then record s { running = false; ticking = false } else s

-- What the pipeline and the callers do, in the order in which it happens.
pub data Event : Type 0 where
  on_start : Event
  on_update : ℕ → Event
  on_input : Cmd → Event
  on_stop : Event

unfoldable pub step : Event → FrameSync → Option FrameSync
unfolding start update_frame input_cmd stop
step on_start s = some (start s)
step (on_update now) s = update_frame now s
step (on_input cmd) s = input_cmd cmd s
step on_stop s = some (stop s)

unfoldable pub run : List Event → FrameSync → Option FrameSync
unfolding step
run [] s = some s
run (e ∷ es) s = elim (step e s) [ none ↦ none | some s' ↦ run es s' ]
