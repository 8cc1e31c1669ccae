-- ===== src/Pipeline/Stopping.antt =====
-- The end of `Run` of util/pipeline/pipeline.go.
use emt.Common.{
  ℕ, zero, suc, ◌+◌, ◌≡◌, ◌⊎◌, ◌<◌, ◌≤◌, inl, inr, refl, ap, sym, ◌∙◌, true, false, List, [], ◌∷◌,
  ◌++◌, append_assoc, append-nil, length, arith, ◌*◌, subst, Bool, All, if◌then◌else◌,
}
use emt.Pipeline.{
  Message, CallMsg, Phase, running, draining, closing, ended, crashed, replying, Pipeline,
  is_draining, has_kind, exec_go, exec_call, reply, stop,
}
use emt.Pipeline.Steps.{
  IsLooping, RunStep, stops, goes, calls, replies, drains, closes, Step, runs, accepts, refuses,
  asks, halts, Steps, none_left, then_step,
}
use emt.Pipeline.Delivery.{go_taken, go_refused, call-frame, stop-frame}

-- The message is not empty, so that `execGo` does not panic.
abbrev pub IsNonempty : List Message → Type 0
IsNonempty [] = ⊥
IsNonempty (m ∷ ms) = Unit

abbrev pub IsAnswerable : CallMsg → Type 0
IsAnswerable m = m.has_ch ≡ true

-- `Run` was told to stop, or has left its first loop; if it sends, there is a channel.
abbrev pub IsTold : Phase → Bool → Type 0
IsTold running stop_ch = stop_ch ≡ true
IsTold draining stop_ch = Unit
IsTold closing stop_ch = Unit
IsTold ended stop_ch = Unit
IsTold crashed stop_ch = ⊥
IsTold (replying true b) stop_ch = b ≡ true
IsTold (replying false b) stop_ch = (b ≡ true) × (stop_ch ≡ true)

pub record IsStopping (p : Pipeline) : Type 0 where
  pub told : IsTold p.phase p.stop_ch
  pub nonempty : All IsNonempty p.go_ch
  pub answerable : All IsAnswerable p.call_ch

abbrev pub IsFinished : Pipeline → Type 0
IsFinished p = p.phase ≡ ended

-- Every run from here on comes to an end, whichever cases the `select`s take: each step leads to such
-- a state, and where `Run` has not finished there is a step.
pub data Ends : Pipeline → Type 0 where
  ends :
      {p : Pipeline}
      → ((q : Pipeline) → RunStep p q → Ends q)
      → IsFinished p ⊎ ((q : Pipeline) × RunStep p q)
      → Ends p

abbrev weight : Phase → ℕ
weight running = 3
weight draining = 2
weight closing = 1
weight ended = 0
weight crashed = 0
weight (replying true b) = 3
weight (replying false b) = 4

-- What is left to do.
abbrev work : Pipeline → ℕ
work p = 2 * (length p.go_ch + length p.call_ch) + weight p.phase

exec_go-work : (m : List Message) (p : Pipeline) → work (exec_go m p) ≤ work p
unfolding exec_go
exec_go-work [] p = omega arith
exec_go-work (m ∷ ms) p = omega arith

call-weight :
    (known b : Bool) (phase : Phase)
    → IsLooping phase
    → weight (if known then replying (is_draining phase) b else phase) ≤ suc (weight phase)
call-weight false b phase l = omega arith
call-weight true b phase (inl r) =
    subst (λ f. weight (replying (is_draining f) b) ≤ suc (weight f)) (sym r) (omega arith)
call-weight true b phase (inr d) =
    subst (λ f. weight (replying (is_draining f) b) ≤ suc (weight f)) (sym d) (omega arith)

work-reply :
    (second : Bool) (p : Pipeline) → p.phase ≡ replying second true → work (reply second p) < work p
unfolding reply
work-reply true p e = omega (arith, ap weight e)
work-reply false p e = omega (arith, ap weight e)

RunStep-work : {p q : Pipeline} → RunStep p q → work q < work p
RunStep-work {p = p} (stops r s) = omega (arith, ap weight r)
RunStep-work {p = p} (goes m rest l e) =
    omega (arith, exec_go-work m (record p { go_ch = rest }), ap length e)
RunStep-work {p = p} (calls m rest l e) =
    unfold exec_call in
    omega
      (arith, ap length e, call-weight (has_kind m.message.kind p.call_funcs) m.has_ch p.phase l)
RunStep-work {p = p} (replies second e) = work-reply second p e
RunStep-work {p = p} (drains d g c) = omega (arith, ap weight d)
RunStep-work {p = p} (closes c) = omega (arith, ap weight c)

goes-IsStopping :
    (m : List Message) (rest : List (List Message)) (p : Pipeline)
    → p.go_ch ≡ m ∷ rest
    → IsStopping p
    → IsStopping (exec_go m (record p { go_ch = rest }))
unfolding exec_go
goes-IsStopping [] rest p e v = absurd (subst (All IsNonempty) e v.nonempty).0
goes-IsStopping (m ∷ ms) rest p e v = record {
  told = v.told;
  nonempty = (subst (All IsNonempty) e v.nonempty).1;
  answerable = v.answerable;
}

call-IsTold :
    (known b stop_ch : Bool) (phase : Phase)
    → b ≡ true
    → IsLooping phase
    → IsTold phase stop_ch
    → IsTold (if known then replying (is_draining phase) b else phase) stop_ch
call-IsTold false b stop_ch phase h l t = t
call-IsTold true b stop_ch phase h (inl r) t =
    subst (λ f. IsTold (replying (is_draining f) b) stop_ch) (sym r)
      (h, subst (λ f. IsTold f stop_ch) r t)
call-IsTold true b stop_ch phase h (inr d) t =
    subst (λ f. IsTold (replying (is_draining f) b) stop_ch) (sym d) h

reply-IsStopping :
    (second : Bool) (p : Pipeline)
    → p.phase ≡ replying second true
    → IsStopping p
    → IsStopping (reply second p)
unfolding reply
reply-IsStopping true p e v = record { told = tt; nonempty = v.nonempty; answerable = v.answerable }
reply-IsStopping false p e v = record {
  told = (subst (λ f. IsTold f p.stop_ch) e v.told).1;
  nonempty = v.nonempty;
  answerable = v.answerable;
}

RunStep-IsStopping : {p q : Pipeline} → RunStep p q → IsStopping p → IsStopping q
RunStep-IsStopping (stops r s) v = record {
  told = tt;
  nonempty = v.nonempty;
  answerable = v.answerable;
}
RunStep-IsStopping {p = p} (goes m rest l e) v = goes-IsStopping m rest p e v
RunStep-IsStopping {p = p} (calls m rest l e) v =
    let (h, hs) = subst (All IsAnswerable) e v.answerable in
    unfold exec_call in
    record {
      told =
          call-IsTold (has_kind m.message.kind p.call_funcs) m.has_ch p.stop_ch p.phase h l v.told;
      nonempty = v.nonempty;
      answerable = hs;
    }
RunStep-IsStopping {p = p} (replies second e) v = reply-IsStopping second p e v
RunStep-IsStopping (drains d g c) v = record {
  told = tt;
  nonempty = v.nonempty;
  answerable = v.answerable;
}
RunStep-IsStopping (closes c) v = record {
  told = tt;
  nonempty = v.nonempty;
  answerable = v.answerable;
}

-- A step of the second loop.
drain_step :
    (p : Pipeline) (gs : List (List Message)) (cs : List CallMsg)
    → p.phase ≡ draining
    → p.go_ch ≡ gs
    → p.call_ch ≡ cs
    → (q : Pipeline) × RunStep p q
drain_step p [] [] d g c = (_, drains d g c)
drain_step p (m ∷ rest) cs d g c = (_, goes m rest (inr d) g)
drain_step p [] (m ∷ rest) d g c = (_, calls m rest (inr d) c)

progress : (p : Pipeline) → IsStopping p → IsFinished p ⊎ ((q : Pipeline) × RunStep p q)
progress p v = by_phase p.phase refl v.told
  where
    by_phase :
        (phase : Phase)
        → p.phase ≡ phase
        → IsTold phase p.stop_ch
        → IsFinished p ⊎ ((q : Pipeline) × RunStep p q)
    by_phase running r t = inr (_, stops r t)
    by_phase draining d t = inr (drain_step p p.go_ch p.call_ch d refl refl)
    by_phase closing c t = inr (_, closes c)
    by_phase ended f t = inl f
    by_phase crashed c t = absurd t
    by_phase (replying true b) e t = inr (_, replies true (e ∙ ap (replying true) t))
    by_phase (replying false b) e t = inr (_, replies false (e ∙ ap (replying false) t.0))

work-Ends : (n : ℕ) (p : Pipeline) → work p < n → IsStopping p → Ends p
work-Ends zero p h v = absurd (omega arith)
work-Ends (suc n) p h v =
    ends (λ q r. work-Ends n q (omega (arith, RunStep-work r)) (RunStep-IsStopping r v))
      (progress p v)

stopping-Ends : (p : Pipeline) → IsStopping p → Ends p
stopping-Ends p v = work-Ends (suc (work p)) p (omega arith) v

stop-IsStopping :
    (p : Pipeline)
    → p.phase ≡ running
    → p.is_closed ≡ false
    → All IsNonempty p.go_ch
    → All IsAnswerable p.call_ch
    → IsStopping (stop p)
unfolding stop
stop-IsStopping p r c n a =
    rw c (record { told = subst (λ f. IsTold f true) (sym r) refl; nonempty = n; answerable = a })

-- Behind the first `Stop`, if no goroutine sends any more, no message that waits is empty, each that
-- waits for `Call` has its channel, and every handler returns: `Run` comes to its end and closes the
-- channels, without a panic, whatever waits in the channels and whichever cases the `select`s take.
pub stop-Ends :
    (p : Pipeline)
    → p.phase ≡ running
    → p.is_closed ≡ false
    → All IsNonempty p.go_ch
    → All IsAnswerable p.call_ch
    → Ends (stop p)
stop-Ends p r c n a = stopping-Ends (stop p) (stop-IsStopping p r c n a)

-- `Run` has left its loops.
abbrev pub IsPast : Phase → Type 0
IsPast phase = (phase ≡ closing) ⊎ (phase ≡ ended)

-- The second state has handled what the first had, and `ms` waits behind what waited there.
abbrev pub Leaves : Pipeline → List (List Message) → Pipeline → Type 0
Leaves p ms q = IsPast q.phase × (q.went ≡ p.went) × (q.go_ch ≡ p.go_ch ++ ms)

not_looping : {A : Type 0} (phase : Phase) → IsLooping phase → IsPast phase → A
not_looping phase (inl r) (inl c) = absurd (cc (sym r ∙ c))
not_looping phase (inl r) (inr e) = absurd (cc (sym r ∙ e))
not_looping phase (inr d) (inl c) = absurd (cc (sym d ∙ c))
not_looping phase (inr d) (inr e) = absurd (cc (sym d ∙ e))

step-Leaves :
    {p q : Pipeline} {ms : List (List Message)} → Step p ms q → IsPast p.phase → Leaves p ms q
step-Leaves (runs (stops r s)) v = not_looping _ (inl r) v
step-Leaves (runs (goes m rest l e)) v = not_looping _ l v
step-Leaves (runs (calls m rest l e)) v = not_looping _ l v
step-Leaves (runs (replies second e)) v = elim v [
  | inl c ↦ absurd (cc (sym e ∙ c))
  | inr f ↦ absurd (cc (sym e ∙ f))
]
step-Leaves (runs (drains d g k)) v = not_looping _ (inr d) v
step-Leaves {p = p} (runs (closes k)) v = (inr refl, refl, sym (append-nil p.go_ch))
step-Leaves {p = p} (accepts m e) v = rw (go_taken m p e) (v, refl, refl)
step-Leaves {p = p} (refuses m e) v = rw (go_refused m p e) (v, refl, sym (append-nil p.go_ch))
step-Leaves {p = p} (asks m) v = rw (call-frame m p) (v, refl, sym (append-nil p.go_ch))
step-Leaves {p = p} halts v = rw (stop-frame p) (v, refl, sym (append-nil p.go_ch))

-- A message that `Go` accepts when `Run` has left its loops, but not yet closed the channels, is
-- never handled, whatever the goroutines do: it stays in the channel.
pub Steps-Leaves :
    {p q : Pipeline} {ms : List (List Message)} → Steps p ms q → IsPast p.phase → Leaves p ms q
Steps-Leaves {p = p} none_left v = (v, refl, sym (append-nil p.go_ch))
Steps-Leaves {p = p} (then_step {ms = ms} {ns = ns} before s) v =
    let (w, e, g) = Steps-Leaves before v in
    let (w', e', g') = step-Leaves s w in
    (w', e' ∙ e, g' ∙ ap (λ t. t ++ ns) g ∙ append_assoc p.go_ch ms ns)
