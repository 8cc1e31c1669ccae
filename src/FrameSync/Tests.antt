-- ===== src/FrameSync/Tests.antt =====
-- util/framesync on a short game.
use emt.Common.{ℕ, ◌≡◌, refl, true, false, some, none, List, [], ◌∷◌}
use emt.FrameSync.{
  Cmd, Frame, FrameSync, new_frame_sync, Event, on_start, on_update, on_input, on_stop, run,
}
use emt.FrameSync.History.{IsKept, run-IsKept}

abbrev move : ℕ → Cmd
move n = record { frame = n; cmds = 7 ∷ []; time_stamp = 5 }

-- Two commands for the first frame, then one that is late and one that is early.
abbrev game : List Event
game =
    on_start
    ∷ on_input (move 1)
    ∷ on_input (move 0)
    ∷ on_update 30
    ∷ on_input (move 1)
    ∷ on_input (move 9)
    ∷ on_update 60
    ∷ on_update 90
    ∷ on_stop
    ∷ on_update 120
    ∷ []

abbrev frame_of : ℕ → ℕ → List Cmd → Frame
frame_of n time cmds = record { frame = n; time_stamp = time; cmds = cmds }

abbrev frames : List Frame
frames = frame_of 1 30 (move 1 ∷ move 0 ∷ []) ∷ frame_of 2 60 (move 1 ∷ []) ∷ frame_of 3 90 [] ∷ []

abbrev played : FrameSync
played = record {
  frame = 4;
  frame_interval = 30;
  give_up = 20;
  is_save_history = true;
  running = false;
  ticking = false;
  history = frames;
  has_handler = true;
  f = some (frame_of 0 0 []);
  broadcast = frames;
}

run-game : run game (new_frame_sync 30 true true) ≡ some played
unfolding run new_frame_sync emt.Word.add32 emt.Word.sub32
run-game = refl

run-IsKept_example : IsKept played
run-IsKept_example = run-IsKept 30 true true game played run-game

-- Without a history the first tick ends the program.
run-unsaved : run (on_start ∷ on_update 30 ∷ []) (new_frame_sync 30 false true) ≡ none
unfolding run new_frame_sync
run-unsaved = refl
