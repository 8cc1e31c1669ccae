-- ===== src/Session/RoundTrip.antt =====
-- What one session of network/session writes, another handles.
use emt.Common.{ℕ, ◌≡◌, refl, ap, ◌∙◌, true, Option, none, some, List, [], ◌∷◌, ◌++◌}
use emt.Session.{
  Session, decrypted, encrypted, receive, unmarshalled, run, sent, write_bytes, write_marshalled,
  write_message,
}

module _ {M : Type 0} where
  -- What the codecs and the ciphers promise: bytes are read as what was written.
  pub record AreInverse (out into : Session M) : Type 0 where
    pub codec :
        (m : M) (d : List ℕ) → out.codec.marshal m ≡ some d → into.codec.unmarshal d ≡ some m
    pub crypt : (d e : List ℕ) → encrypted out.crypt d ≡ some e → decrypted into.crypt e ≡ some d

  -- All messages were written, as these bytes.
  abbrev pub AreSent : Session M → List M → List (List ℕ) → Type 0
  AreSent s [] [] = Unit {0}
  AreSent s [] (d ∷ ds) = ⊥
  AreSent s (m ∷ ms) [] = ⊥
  AreSent s (m ∷ ms) (d ∷ ds) = (write_message s true m ≡ sent d) × AreSent s ms ds

module _ {M : Type 0} (out into : Session M) (inverse : AreInverse out into) where
  encrypted-receive :
      (m : M) (d d1 : List ℕ) (o : Option (List ℕ))
      → out.codec.marshal m ≡ some d1
      → encrypted out.crypt d1 ≡ o
      → write_bytes true o ≡ sent d
      → receive into d ≡ some m
  unfolding receive
  encrypted-receive m d d1 none c e w = absurd (cc w)
  encrypted-receive m d d1 (some d2) c e w =
      let same : d2 ≡ d = cc w in
      ap (unmarshalled into) (inverse.crypt d1 d (e ∙ ap some same)) ∙ inverse.codec m d1 c

  marshalled-receive :
      (m : M) (d : List ℕ) (o : Option (List ℕ))
      → out.codec.marshal m ≡ o
      → write_marshalled out true o ≡ sent d
      → receive into d ≡ some m
  marshalled-receive m d none c w = absurd (cc w)
  marshalled-receive m d (some d1) c w = encrypted-receive m d d1 (encrypted out.crypt d1) c refl w

  receive-write_message :
      (m : M) (d : List ℕ) → write_message out true m ≡ sent d → receive into d ≡ some m
  unfolding write_message
  receive-write_message m d w = marshalled-receive m d (out.codec.marshal m) refl w

  -- If codecs and ciphers read back what they wrote: the messages that one session wrote, and the
  -- connection carried, come to the handler of the other, all of them and in order, with a cipher and
  -- without, and then the loop goes on with what follows.
  pub run-write_message :
      (ms : List M) (ds rest : List (List ℕ))
      → AreSent out ms ds
      → run into (ds ++ rest) ≡ ms ++ run into rest
  unfolding run
  run-write_message [] [] rest h = refl
  run-write_message [] (d ∷ ds) rest h = absurd h
  run-write_message (m ∷ ms) [] rest h = absurd h
  run-write_message (m ∷ ms) (d ∷ ds) rest (w, h) =
      rw (receive-write_message m d w) (ap (λ t. m ∷ t) (run-write_message ms ds rest h))
