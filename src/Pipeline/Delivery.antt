-- ===== src/Pipeline/Delivery.antt =====
-- Which messages of util/pipeline/pipeline.go are handled.
use emt.Common.{
  ◌≡◌, ◌⊎◌, inl, inr, refl, ap, sym, ◌∙◌, Bool, true, false, List, [], ◌∷◌, ◌++◌, append_assoc,
  append-nil, length, ltb, Bool-cases, arith, if◌then◌else◌,
}
use emt.Pipeline.{
  Message, CallMsg, crashed, Handling, Pipeline, taken, full, panics, exec_go, exec_call, reply,
  are_closed, go, call, stop,
}
use emt.Pipeline.Steps.{
  RunStep, stops, goes, calls, replies, drains, closes, Step, runs, accepts, refuses, asks, halts,
  Steps, none_left, then_step,
}

-- The messages that were handled.
abbrev pub messages : List (List Message × Handling) → List (List Message)
messages [] = []
messages ((m, h) ∷ rest) = m ∷ messages rest

messages-append :
    (xs ys : List (List Message × Handling)) → messages (xs ++ ys) ≡ messages xs ++ messages ys
messages-append [] ys = refl
messages-append ((m, h) ∷ xs) ys = ap (λ t. m ∷ t) (messages-append xs ys)

-- The messages that were handled, and behind them those that wait.
abbrev pub in_order : Pipeline → List (List Message)
in_order p = messages p.went ++ p.go_ch

-- The program has panicked, or the messages of the second state are those of the first and `ms`.
abbrev pub Accepts : Pipeline → List (List Message) → Pipeline → Type 0
Accepts p ms q = (q.phase ≡ crashed) ⊎ (in_order q ≡ in_order p ++ ms)

same_order : (p q : Pipeline) → q.went ≡ p.went → q.go_ch ≡ p.go_ch → Accepts p [] q
same_order p q w g = inr (
    ap (λ t. messages t ++ q.go_ch) w
    ∙ ap (λ t. messages p.went ++ t) g
    ∙ sym (append-nil (in_order p)))

exec_go-Accepts :
    (m : List Message) (rest : List (List Message)) (p : Pipeline)
    → p.go_ch ≡ m ∷ rest
    → Accepts p [] (exec_go m (record p { go_ch = rest }))
unfolding exec_go
exec_go-Accepts [] rest p e = inl refl
exec_go-Accepts (m ∷ ms) rest p e = inr (
    ap (λ t. t ++ rest) (messages-append p.went _)
    ∙ append_assoc (messages p.went) ((m ∷ ms) ∷ []) rest
    ∙ ap (λ t. messages p.went ++ t) (sym e)
    ∙ sym (append-nil (in_order p)))

calls_lem :
    (m : CallMsg) (p p' : Pipeline)
    → p'.went ≡ p.went
    → p'.go_ch ≡ p.go_ch
    → Accepts p [] (exec_call m p')
unfolding exec_call
calls_lem m p p' w g = same_order p (exec_call m p') w g

replies_lem : (second : Bool) (p : Pipeline) → Accepts p [] (reply second p)
unfolding reply
replies_lem second p = same_order p (reply second p) refl refl

RunStep-Accepts : {p q : Pipeline} → RunStep p q → Accepts p [] q
RunStep-Accepts {p = p} (stops r s) = inr (sym (append-nil (in_order p)))
RunStep-Accepts {p = p} (goes m rest l e) = exec_go-Accepts m rest p e
RunStep-Accepts {p = p} (calls m rest l e) = calls_lem m p (record p { call_ch = rest }) refl refl
RunStep-Accepts {p = p} (replies second e) = replies_lem second p
RunStep-Accepts {p = p} (drains d g c) = inr (sym (append-nil (in_order p)))
RunStep-Accepts {p = p} (closes c) = inr (sym (append-nil (in_order p)))

go-cases :
    (m : List Message) (p : Pipeline)
    → (go m p ≡ (panics, p))
      ⊎ ((are_closed p.phase ≡ false)
          × (go m p ≡ (taken, record p { go_ch = p.go_ch ++ (m ∷ []) })))
      ⊎ (go m p ≡ (full, p))
unfolding go
go-cases m p = elim (Bool-cases (are_closed p.phase)) [
  | inl c ↦ inl (if-true _ _ _ c)
  | inr o ↦ elim (Bool-cases (ltb (length p.go_ch) p.go_len)) [
    | inl room ↦ inr (inl (o, if-false _ _ _ o ∙ if-true _ _ _ room))
    | inr no_room ↦ inr (inr (if-false _ _ _ o ∙ if-false _ _ _ no_room))
  ]
]
  where
    if-true : {A : Type 0} (b : Bool) (x y : A) → b ≡ true → (if b then x else y) ≡ x
    if-true true x y e = refl
    if-true false x y e = absurd (cc e)

    if-false : {A : Type 0} (b : Bool) (x y : A) → b ≡ false → (if b then x else y) ≡ y
    if-false false x y e = refl
    if-false true x y e = absurd (cc e)

pub go_taken :
    (m : List Message) (p : Pipeline)
    → (go m p).0 ≡ taken
    → (go m p).1 ≡ record p { go_ch = p.go_ch ++ (m ∷ []) }
go_taken m p e = elim (go-cases m p) [
  | inl a ↦ absurd (cc (sym (ap (λ r. r.0) a) ∙ e))
  | inr (inl (o, a)) ↦ ap (λ r. r.1) a
  | inr (inr a) ↦ absurd (cc (sym (ap (λ r. r.0) a) ∙ e))
]

pub go_refused : (m : List Message) (p : Pipeline) → (go m p).0 ≡ full → (go m p).1 ≡ p
go_refused m p e = elim (go-cases m p) [
  | inl a ↦ ap (λ r. r.1) a
  | inr (inl (o, a)) ↦ absurd (cc (sym (ap (λ r. r.0) a) ∙ e))
  | inr (inr a) ↦ ap (λ r. r.1) a
]

pub call-frame :
    (m : CallMsg) (p : Pipeline) → (call m p).1 ≡ record p { call_ch = (call m p).1.call_ch }
unfolding call
call-frame m p = ground arith

pub stop-frame :
    (p : Pipeline)
    → stop p ≡ record p { stop_ch = (stop p).stop_ch; is_closed = (stop p).is_closed }
unfolding stop
stop-frame p = ground arith

step-Accepts : {p q : Pipeline} {ms : List (List Message)} → Step p ms q → Accepts p ms q
step-Accepts (runs r) = RunStep-Accepts r
step-Accepts {p = p} (accepts m e) =
    inr (ap in_order (go_taken m p e) ∙ sym (append_assoc (messages p.went) p.go_ch (m ∷ [])))
step-Accepts {p = p} (refuses m e) =
    inr (ap in_order (go_refused m p e) ∙ sym (append-nil (in_order p)))
step-Accepts {p = p} (asks m) = inr (ap in_order (call-frame m p) ∙ sym (append-nil (in_order p)))
step-Accepts {p = p} halts = inr (ap in_order (stop-frame p) ∙ sym (append-nil (in_order p)))

-- Where a program has panicked it stays.
step-crashed :
    {p q : Pipeline} {ms : List (List Message)}
    → Step p ms q
    → p.phase ≡ crashed
    → q.phase ≡ crashed
step-crashed (runs (stops r s)) c = absurd (cc (sym c ∙ r))
step-crashed (runs (goes m rest (inl r) e)) c = absurd (cc (sym c ∙ r))
step-crashed (runs (goes m rest (inr r) e)) c = absurd (cc (sym c ∙ r))
step-crashed (runs (calls m rest (inl r) e)) c = absurd (cc (sym c ∙ r))
step-crashed (runs (calls m rest (inr r) e)) c = absurd (cc (sym c ∙ r))
step-crashed (runs (replies second e)) c = absurd (cc (sym c ∙ e))
step-crashed (runs (drains d g k)) c = absurd (cc (sym c ∙ d))
step-crashed (runs (closes k)) c = absurd (cc (sym c ∙ k))
step-crashed {p = p} (accepts m e) c = ap (λ q. q.phase) (go_taken m p e) ∙ c
step-crashed {p = p} (refuses m e) c = ap (λ q. q.phase) (go_refused m p e) ∙ c
step-crashed {p = p} (asks m) c = ap (λ q. q.phase) (call-frame m p) ∙ c
step-crashed {p = p} halts c = ap (λ q. q.phase) (stop-frame p) ∙ c

-- Whatever the goroutines do, and in whatever order: unless the program has panicked, the messages
-- that `Run` has handled, and behind them those that wait in the channel, are those that were there
-- before and those that `Go` accepted since, each once, in the order in which they were accepted.
pub Steps-Accepts : {p q : Pipeline} {ms : List (List Message)} → Steps p ms q → Accepts p ms q
Steps-Accepts {p = p} none_left = inr (sym (append-nil (in_order p)))
Steps-Accepts {p = p} (then_step {ms = ms} {ns = ns} before s) = elim (Steps-Accepts before) [
  | inl c ↦ inl (step-crashed s c)
  | inr e ↦ elim (step-Accepts s) [
    | inl c ↦ inl c
    | inr e' ↦ inr (e' ∙ ap (λ t. t ++ ns) e ∙ append_assoc (in_order p) ms ns)
  ]
]
