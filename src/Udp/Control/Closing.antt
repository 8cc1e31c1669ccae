-- ===== src/Udp/Control/Closing.antt =====
-- A session of network/kcp/udp.go behind `Close`.
use emt.Common.{
  ◌∙◌, ◌∷◌, [], ◌+◌, length, leb, inl, inr, Bool-cases, ℕ, ◌≡◌, refl, ap, Bool, true, false, Option,
  none, some, List, [], ◌||◌, if◌then◌else◌,
}
use emt.Kcp.State.{Kcp, overhead}
use emt.Kcp.Config.{release_tx}
use emt.Kcp.Flush.{flush}
use emt.Kcp.Flush.Packets.{IsPacketed, flush-IsPacketed}
use emt.Udp.Session.{output, callback, World, Session, callbacks, with_kcp, uncork}
use emt.Udp.Input.Closed.{Post, with_kcp_lem}
use emt.Udp.Input.Open.{settings, Anything, Has, settings_closed, from_Post}
use emt.Udp.Stream.{refused, write_buffers}
use emt.Udp.Control.{update, close, closed, close_first, release_decoder}

-- What the protocol sends through the callback leaves the settings.
-- A session on which `Close` was called: nothing is left to send, writes are refused, the timer's
-- calls end, and further calls of `Close` give an error.
pub record IsClosedFor (w : World) (s : Session) : Type 0 where
  pub dead : s.die ≡ true
  pub write : (v : List (List ℕ)) → write_buffers w v s ≡ (refused, s)
  pub timer : update w s ≡ some (none, s)
  pub again : close w s ≡ some (false, s)

if-true : {A : Type 0} (b : Bool) (x y : A) → b ≡ true → (if b then x else y) ≡ x
if-true true x y e = refl
if-true false x y e = absurd (cc e)

or-true : (b d : Bool) → d ≡ true → (b || d) ≡ true
or-true true d e = refl
or-true false d e = e

write_dead :
    (w : World) (v : List (List ℕ)) (s : Session)
    → s.die ≡ true
    → write_buffers w v s ≡ (refused, s)
unfolding write_buffers
write_dead w v s d = if-true _ _ _ (or-true s.write_failed s.die d)

update_dead : (w : World) (s : Session) → s.die ≡ true → update w s ≡ some (none, s)
unfolding update
update_dead w s d = if-true s.die _ _ d

close_dead : (w : World) (s : Session) → s.die ≡ true → close w s ≡ some (false, s)
unfolding close
close_dead w s d = if-true s.die _ _ d

dead-IsClosedFor : (w : World) (s : Session) → s.die ≡ true → IsClosedFor w s
dead-IsClosedFor w s d = record {
  dead = d;
  write = λ v. write_dead w v s d;
  timer = update_dead w s d;
  again = close_dead w s d;
}

flushed-die :
    (w : World) (s : Session) (o : Option Session)
    → Post Unit (λ t. settings t ≡ settings (record s { die = true })) o
    → Post Unit
        (λ r. r.1.die ≡ true)
        (closed (elim o [
          | none ↦ none
          | some s' ↦ some (record (uncork w s') {
            kcp = release_tx (uncork w s').kcp;
            fec_decoder = release_decoder (uncork w s').fec_decoder;
          })
        ]))
flushed-die w s none d = tt
flushed-die w s (some s') d = unfold uncork in ap (λ t. t.die) d

closed-die : (w : World) (s : Session) → Post Unit (λ r. r.1.die ≡ true) (closed (close_first w s))
unfolding close_first
closed-die w s =
    let k = (flush w.clock false s.kcp).1 in
    let dying : Session = record s { die = true } in
    let start : Session = record dying { kcp = record k { sent = [] } } in
    let goal = settings start in
    flushed-die w start (with_kcp w k dying)
      (with_kcp_lem w Unit Anything Anything (Has w goal) (settings_closed w goal) k dying refl)

close-die : (w : World) (s : Session) → Post Unit (λ r. r.1.die ≡ true) (close w s)
unfolding close
close-die w s = by_die s.die refl
  where
    by_die :
        (b : Bool)
        → s.die ≡ b
        → Post Unit (λ r. r.1.die ≡ true) (if b then some (false, s) else closed (close_first w s))
    by_die true d = d
    by_die false d = closed-die w s

close-IsClosedFor :
    (w : World) (s s' : Session) (once : Bool) → close w s ≡ some (once, s') → IsClosedFor w s'
close-IsClosedFor w s s' once e =
    dead-IsClosedFor w s'
      (from_Post Unit (λ r. r.1.die ≡ true) (close w s) (once, s') e (close-die w s))

callback_plain :
    (w : World) (packet : List ℕ) (s : Session)
    → s.fec_encoder ≡ none
    → (t : Session) × (callback w packet s ≡ some t) × (t.fec_encoder ≡ none)
unfolding callback output
callback_plain w packet s p =
    elim (Bool-cases (leb (overhead + s.header_size) (s.kcp.reserved + length packet))) [
      | inl whole ↦ rw (whole, p) (_, refl, refl)
      | inr short ↦ rw short (s, refl, p)
    ]

callbacks_plain :
    (w : World) (ps : List (List ℕ)) (s : Session)
    → s.fec_encoder ≡ none
    → (t : Session) × (callbacks w ps s ≡ some t)
unfolding callbacks
callbacks_plain w [] s p = (s, refl)
callbacks_plain w (b ∷ bs) s p =
    let (t, e, q) = callback_plain w b s p in
    then_plain (callback w b s) t e (callbacks_plain w bs t q)
  where
    then_plain :
        (o : Option Session) (t : Session)
        → o ≡ some t
        → (t' : Session) × (callbacks w bs t ≡ some t')
        → (t' : Session) × ((elim o [ none ↦ none | some s' ↦ callbacks w bs s' ]) ≡ some t')
    then_plain o t e (t', r) = (
      t',
      ap (λ o. elim o as (λ x. Option Session) [ none ↦ none | some s' ↦ callbacks w bs s' ]) e ∙ r,
    )

flushed_total :
    (w : World) (o : Option Session)
    → (t : Session) × (o ≡ some t)
    → (s' : Session) × ((elim o [
      | none ↦ none
      | some s' ↦ some (record (uncork w s') {
        kcp = release_tx (uncork w s').kcp;
        fec_decoder = release_decoder (uncork w s').fec_decoder;
      })
    ])
        ≡ some s')
flushed_total w none (t, e) = absurd (cc e)
flushed_total w (some s') (t, e) = (_, refl)

with_kcp_total :
    (w : World) (k : Kcp) (s : Session)
    → k.panicked ≡ false
    → s.fec_encoder ≡ none
    → (t : Session) × (with_kcp w k s ≡ some t)
unfolding with_kcp
with_kcp_total w k s r p = by_flag k.panicked r
  where
    by_flag :
        (b : Bool)
        → b ≡ false
        → (t : Session) × ((if b
              then none
              else callbacks w k.sent (record s { kcp = record k { sent = [] } }))
            ≡ some t)
    by_flag true e = absurd (cc e)
    by_flag false e = callbacks_plain w k.sent _ p

close_first_total :
    (w : World) (s : Session)
    → s.fec_encoder ≡ none
    → IsPacketed s.kcp
    → (s' : Session) × (close_first w s ≡ some s')
unfolding close_first
close_first_total w s p v =
    flushed_total w (with_kcp w (flush w.clock false s.kcp).1 (record s { die = true })) (
      with_kcp_total w (flush w.clock false s.kcp).1 (record s { die = true })
        (flush-IsPacketed w.clock false s.kcp v).running p)

close_total :
    (w : World) (s : Session)
    → s.fec_encoder ≡ none
    → IsPacketed s.kcp
    → (once : Bool) × (s' : Session) × (close w s ≡ some (once, s'))
unfolding close
close_total w s p v = by_die s.die (close_first_total w s p v)
  where
    by_die :
        (b : Bool)
        → (t : Session) × (close_first w s ≡ some t)
        → (once : Bool) × (s' : Session) × ((if b
              then some (false, s)
              else closed (close_first w s))
            ≡ some (once, s'))
    by_die true (t, e) = (false, s, refl)
    by_die false (t, e) = (true, t, ap closed e)

-- On a session that sends without error correction, and whose sizes fit, `Close` returns, whether it is the first call or
-- not, and leaves a closed session: every write is refused, the timer's call does nothing and asks for
-- no other, and each further `Close` gives an error and changes nothing.
pub close_lem :
    (w : World) (s : Session)
    → s.fec_encoder ≡ none
    → IsPacketed s.kcp
    → (once : Bool) × (s' : Session) × (close w s ≡ some (once, s')) × IsClosedFor w s'
close_lem w s p v =
    let (once, s', e) = close_total w s p v in (once, s', e, close-IsClosedFor w s s' once e)
