-- ===== src/Pipeline/Tests.antt =====
-- util/pipeline/pipeline.go with two handlers.
use emt.Common.{◌≡◌, refl, ap, inl, false, some, none, [], ◌∷◌}
use emt.Pipeline.{
  Message, CallMsg, replying, exec_call, Pipeline, running, draining, closing, handled, warned,
  new_pipeline, register_go, register_call, taken, full, panics, go, call, stop,
}
use emt.Pipeline.Steps.{goes, Step, accepts, runs, Steps, none_left, then_step}
use emt.Pipeline.Delivery.{Accepts, Steps-Accepts}
use emt.Pipeline.Stopping.{Ends, stop-Ends, Leaves, Steps-Leaves}

abbrev ping : Message
ping = record { kind = 5; content = 1 }

-- A pipeline with room for one message, which handles the messages of the kind 5.
abbrev pipeline : Pipeline
pipeline = record {
  go_len = 1;
  stop_ch = false;
  is_stop_ch = false;
  go_ch = [];
  call_ch = [];
  go_funcs = 5 ∷ [];
  call_funcs = [];
  has_default = false;
  is_closed = false;
  phase = running;
  went = [];
  called = [];
}

register_go-twice :
    (register_go 5 (new_pipeline 1) ≡ some pipeline) × (register_go 5 pipeline ≡ none)
unfolding register_go new_pipeline
register_go-twice = (refl, refl)

abbrev waiting : Pipeline
waiting = record pipeline { go_ch = (ping ∷ []) ∷ [] }

abbrev served : Pipeline
served = record pipeline { went = (ping ∷ [], handled) ∷ [] }

go_full : (go (ping ∷ []) pipeline ≡ (taken, waiting)) × (go (ping ∷ []) waiting ≡ (full, waiting))
unfolding go
go_full = (refl, refl)

one_message : Steps pipeline ((ping ∷ []) ∷ []) served
one_message =
    then_step (then_step none_left (accepts {p = pipeline} (ping ∷ []) (ap (λ r. r.0) go_full.0)))
      (runs serves)
  where
    serves : emt.Pipeline.Steps.RunStep (go (ping ∷ []) pipeline).1 served
    serves = rw go_full.0 (unfold emt.Pipeline.exec_go in goes (ping ∷ []) [] (inl refl) refl)

Steps-Accepts_example : Accepts pipeline ((ping ∷ []) ∷ []) served
Steps-Accepts_example = Steps-Accepts one_message

stop-Ends_example : Ends (stop waiting)
stop-Ends_example = stop-Ends waiting refl refl (tt, tt) tt

-- The same pipeline as its loops end.
abbrev late : Pipeline
late = record pipeline { phase = closing }

late_message : Steps late ((ping ∷ []) ∷ []) (go (ping ∷ []) late).1
late_message = then_step none_left (accepts {p = late} (ping ∷ []) (unfold go in refl))

Steps-Leaves_example : Leaves late ((ping ∷ []) ∷ []) (go (ping ∷ []) late).1
Steps-Leaves_example = Steps-Leaves late_message (inl refl)

-- A call without a channel: `Run` handles it, and waits for ever.
abbrev call_msg : CallMsg
call_msg = record { message = ping; has_ch = false }

abbrev calling : Pipeline
calling = record pipeline { call_funcs = 5 ∷ [] }

call-waits : (exec_call call_msg calling).phase ≡ replying false false
unfolding exec_call
call-waits = refl
