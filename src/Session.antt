-- ===== src/Session.antt =====
-- network/session/session.go: a session between a connection and a handler, with a codec and, if there
-- is one, a cipher in between. The codec, the cipher and the connection are other code.
pub mod RoundTrip
pub mod Tests
use emt.Common.{
  ℕ, Bool, true, false, Option, none, some, List, [], ◌∷◌, ◌++◌, same_bytes, if◌then◌else◌,
}

-- `Codec` of the package network: `none` is an error.
pub record Codec (M : Type 0) : Type 0 where
  pub marshal : M → Option (List ℕ)
  pub unmarshal : List ℕ → Option M

-- `Crypt`.
pub record Crypt : Type 0 where
  pub encrypt : List ℕ → Option (List ℕ)
  pub decrypt : List ℕ → Option (List ℕ)

-- The options that the session reads, and its data, by their keys.
pub record Session (M : Type 0) : Type 0 where
  pub codec : Codec M
  pub crypt : Option Crypt
  pub entries : List (List ℕ × ℕ)

-- The functions in the middle of `Run` and `WriteMessage`: without a cipher the bytes stay.
abbrev pub decrypted : Option Crypt → List ℕ → Option (List ℕ)
decrypted none d = some d
decrypted (some c) d = c.decrypt d

abbrev pub encrypted : Option Crypt → List ℕ → Option (List ℕ)
encrypted none d = some d
encrypted (some c) d = c.encrypt d

module _ {M : Type 0} where
  abbrev pub unmarshalled : Session M → Option (List ℕ) → Option M
  unmarshalled s none = none
  unmarshalled s (some d) = s.codec.unmarshal d

  -- What a round of the loop of `Run` makes of a message of the connection.
  unfoldable pub receive : Session M → List ℕ → Option M
  receive s d = unmarshalled s (decrypted s.crypt d)

  -- `Run`, on what the connection gives before it fails: the messages for the handler. The loop ends
  -- at the first error.
  abbrev pub handled : Option M → List M → List M
  handled none ms = []
  handled (some m) ms = m ∷ ms

  unfoldable pub run : Session M → List (List ℕ) → List M
  unfolding receive
  run s [] = []
  run s (d ∷ ds) = let rest = run s ds in handled (receive s d) rest

-- The errors of `WriteMessage`.
pub data Failure : Type 0 where
  marshal encrypt write : Failure

pub data Written : Type 0 where
  sent : List ℕ → Written
  failed : Failure → Written

-- The part of `WriteMessage` behind the codec, with a connection that takes a message or fails.
abbrev pub write_bytes : Bool → Option (List ℕ) → Written
write_bytes takes none = failed encrypt
write_bytes true (some d) = sent d
write_bytes false (some d) = failed write

abbrev pub find : List ℕ → List (List ℕ × ℕ) → Option ℕ
find key [] = none
find key ((k, v) ∷ rest) = if same_bytes key k then some v else find key rest

module _ {M : Type 0} where
  abbrev pub write_marshalled : Session M → Bool → Option (List ℕ) → Written
  write_marshalled s takes none = failed marshal
  write_marshalled s takes (some d) = write_bytes takes (encrypted s.crypt d)

  -- `WriteMessage`: what the connection was given, or the error.
  unfoldable pub write_message : Session M → Bool → M → Written
  write_message s takes m = write_marshalled s takes (s.codec.marshal m)

  -- `GetData`, `SetData`.
  unfoldable pub get_data : List ℕ → Session M → Option ℕ
  get_data key s = find key s.entries

  unfoldable pub set_data : List ℕ → ℕ → Session M → Session M
  set_data key v s = record s { entries = (key, v) ∷ s.entries }
