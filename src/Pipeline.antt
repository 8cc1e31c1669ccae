-- ===== src/Pipeline.antt =====
-- util/pipeline/pipeline.go: messages from any goroutines, handled by one. What each goroutine does
-- between two channel operations is one step.
pub mod Steps
pub mod Delivery
pub mod Stopping
pub mod Tests
use emt.Common.{
  ℕ, ◌+◌, Bool, true, false, Option, none, some, List, [], ◌∷◌, ◌++◌, length, ltb, ◌==◌, ◌||◌,
  if◌then◌else◌,
}

-- A value, by its type, as `reflect.TypeOf` tells it, and its content.
pub record Message : Type 0 where
  pub kind : ℕ
  pub content : ℕ

-- `CallMsgIns` in a message for `Call`: whether `Init` has made its channel. Without it the channel is
-- nil.
pub record CallMsg : Type 0 where
  pub message : Message
  pub has_ch : Bool

-- Where `Run` is: in its first loop, in the second, behind it, and returned; or it has panicked. It is
-- `replying` while it waits to send a handler's result to the caller: whether it is in its second
-- loop, and whether there is a channel.
pub data Phase : Type 0 where
  running draining closing ended crashed : Phase
  replying : Bool → Bool → Phase

-- What was done with a message: its handler ran, or the default one, or a warning was written.
pub data Handling : Type 0 where
  handled defaulted warned : Handling

-- `Pipeline`. The channels `stopCh` and `isStopCh` hold one value at most, so each is a flag.
-- `went` and `called` are what `Run` took from the channels, oldest first.
pub record Pipeline : Type 0 where
  pub go_len : ℕ
  pub stop_ch : Bool
  pub is_stop_ch : Bool
  pub go_ch : List (List Message)
  pub call_ch : List CallMsg
  pub go_funcs : List ℕ
  pub call_funcs : List ℕ
  pub has_default : Bool
  pub is_closed : Bool
  pub phase : Phase
  pub went : List (List Message × Handling)
  pub called : List (Message × Handling)

-- `NewPipeline`, and `init`.
unfoldable pub new_pipeline : ℕ → Pipeline
new_pipeline go_len = record {
  go_len = go_len;
  stop_ch = false;
  is_stop_ch = false;
  go_ch = [];
  call_ch = [];
  go_funcs = [];
  call_funcs = [];
  has_default = false;
  is_closed = false;
  phase = running;
  went = [];
  called = [];
}

abbrev pub has_kind : ℕ → List ℕ → Bool
has_kind k [] = false
has_kind k (j ∷ ks) = k == j || has_kind k ks

-- `RegisterGo`, `RegisterCall`; `none` where they panic.
unfoldable pub register_go : ℕ → Pipeline → Option Pipeline
register_go k p =
    if has_kind k p.go_funcs then none else some (record p { go_funcs = k ∷ p.go_funcs })

unfoldable pub register_call : ℕ → Pipeline → Option Pipeline
register_call k p =
    if has_kind k p.call_funcs then none else some (record p { call_funcs = k ∷ p.call_funcs })

unfoldable pub set_default_go_func : Pipeline → Pipeline
set_default_go_func p = record p { has_default = true }

-- The choice that `execGo` and `execCall` make.
abbrev pub choose : Bool → Bool → Handling
choose true has_default = handled
choose false true = defaulted
choose false false = warned

-- `execGo` on a message that was taken from the channel. It looks at the first value, and panics if
-- there is none.
unfoldable pub exec_go : List Message → Pipeline → Pipeline
exec_go [] p = record p { phase = crashed }
exec_go (m ∷ ms) p = record p {
  went = p.went ++ ((m ∷ ms, choose (has_kind m.kind p.go_funcs) p.has_default) ∷ []);
}

abbrev pub is_draining : Phase → Bool
is_draining draining = true
is_draining running = false
is_draining closing = false
is_draining ended = false
is_draining crashed = false
is_draining (replying d b) = false

-- `execCall`, up to the send of a handler's result to the caller.
unfoldable pub exec_call : CallMsg → Pipeline → Pipeline
exec_call m p =
    let known = has_kind m.message.kind p.call_funcs in
    record p {
      called = p.called ++ ((m.message, choose known p.has_default) ∷ []);
      phase = if known then replying (is_draining p.phase) m.has_ch else p.phase;
    }

-- That send: the caller waits for it, so it ends.
unfoldable pub reply : Bool → Pipeline → Pipeline
reply second p = record p { phase = if second then draining else running }

-- How a send ends.
pub data Sent : Type 0 where
  taken full panics : Sent

-- Whether the channels are closed.
abbrev pub are_closed : Phase → Bool
are_closed ended = true
are_closed running = false
are_closed draining = false
are_closed closing = false
are_closed crashed = false
are_closed (replying d b) = false

-- `Go`.
unfoldable pub go : List Message → Pipeline → Sent × Pipeline
go m p =
    if are_closed p.phase
    then (panics, p)
    else if ltb (length p.go_ch) p.go_len
    then (taken, record p { go_ch = p.go_ch ++ (m ∷ []) })
    else (full, p)

-- `Call`, up to its wait.
unfoldable pub call : CallMsg → Pipeline → Sent × Pipeline
call m p =
    if are_closed p.phase
    then (panics, p)
    else if ltb (length p.call_ch) 1
    then (taken, record p { call_ch = p.call_ch ++ (m ∷ []) })
    else (full, p)

-- `Stop`, up to its wait for `isStopCh`. The value is not sent if there is one.
unfoldable pub stop : Pipeline → Pipeline
stop p = if p.is_closed then p else record p { is_closed = true; stop_ch = true }
