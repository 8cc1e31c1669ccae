-- ===== src/Pipeline/Steps.antt =====
-- The steps of `Run` of util/pipeline/pipeline.go, and of the goroutines that use the pipeline.
use emt.Common.{◌≡◌, ◌⊎◌, Bool, true, false, List, [], ◌∷◌, ◌++◌}
use emt.Pipeline.{
  Message, CallMsg, Phase, running, draining, closing, ended, replying, Pipeline, taken, full,
  exec_go, exec_call, reply, go, call, stop,
}

-- `Run` is in one of its loops.
abbrev pub IsLooping : Phase → Type 0
IsLooping phase = (phase ≡ running) ⊎ (phase ≡ draining)

-- A step of `Run`. A `select` takes any case that is ready; the second loop has a `default`, which it
-- takes when no other is. A send to a nil channel has no step: it waits for ever.
pub data RunStep : Pipeline → Pipeline → Type 0 where
  stops :
      {p : Pipeline}
      → p.phase ≡ running
      → p.stop_ch ≡ true
      → RunStep p (record p { stop_ch = false; phase = draining })
  goes :
      {p : Pipeline}
      → (m : List Message) → (rest : List (List Message)) → IsLooping p.phase
      → p.go_ch ≡ m ∷ rest
      → RunStep p (exec_go m (record p { go_ch = rest }))
  calls :
      {p : Pipeline}
      → (m : CallMsg) → (rest : List CallMsg) → IsLooping p.phase
      → p.call_ch ≡ m ∷ rest
      → RunStep p (exec_call m (record p { call_ch = rest }))
  replies :
      {p : Pipeline} → (second : Bool) → p.phase ≡ replying second true → RunStep p (reply second p)
  drains :
      {p : Pipeline}
      → p.phase ≡ draining
      → p.go_ch ≡ []
      → p.call_ch ≡ []
      → RunStep p (record p { phase = closing; is_stop_ch = true })
  closes : {p : Pipeline} → p.phase ≡ closing → RunStep p (record p { phase = ended })

-- A step of the program; the list is what `Go` accepted in it.
pub data Step : Pipeline → List (List Message) → Pipeline → Type 0 where
  runs : {p q : Pipeline} → RunStep p q → Step p [] q
  accepts : {p : Pipeline} → (m : List Message) → (go m p).0 ≡ taken → Step p (m ∷ []) (go m p).1
  refuses : {p : Pipeline} → (m : List Message) → (go m p).0 ≡ full → Step p [] (go m p).1
  asks : {p : Pipeline} → (m : CallMsg) → Step p [] (call m p).1
  halts : {p : Pipeline} → Step p [] (stop p)

pub data Steps : Pipeline → List (List Message) → Pipeline → Type 0 where
  none_left : {p : Pipeline} → Steps p [] p
  then_step :
      {p q r : Pipeline}
      → {ms ns : List (List Message)} → Steps p ms q
      → Step q ns r
      → Steps p (ms ++ ns) r
