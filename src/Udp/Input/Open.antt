-- ===== src/Udp/Input/Open.antt =====
-- A packet does not close a session of network/kcp/udp.go, and changes none of its settings.
use emt.Common.{
  subst, ℕ, ◌≡◌, refl, Bool, true, false, Option, none, some, List, [], ◌∷◌, All, if◌then◌else◌,
}
use emt.Word.{ℤ}
use emt.Kcp.State.{Kcp}
use emt.Kcp.Input.{input}
use emt.Fec.Encoder.{Encoder, fec_encode}
use emt.Fec.Decoder.{Decoder, fec_decode}
use emt.Udp.Session.{World, Session, enqueue, output, uncork, notify, notify_write, can_write}
use emt.Udp.Input.{decoder_of, packet_input, kcp_input}
use emt.Udp.Input.Closed.{Post, IsClosed, packet_input_lem, kcp_input_lem}

-- What the program set, whether the session is closed, and what is left to the reader.
pub record Settings : Type 0 where
  pub die : Bool
  pub has_listener : Bool
  pub header_size : ℕ
  pub dup : ℤ
  pub bufptr : List ℕ
  pub ack_no_delay : Bool
  pub write_delay : Bool

abbrev pub settings : Session → Settings
settings s = record {
  die = s.die;
  has_listener = s.has_listener;
  header_size = s.header_size;
  dup = s.dup;
  bufptr = s.bufptr;
  ack_no_delay = s.ack_no_delay;
  write_delay = s.write_delay;
}

-- No condition on the bytes.
abbrev pub Anything : List ℕ → Type 0
Anything bytes = Unit {0}

module _ (w : World) (c : Settings) where
  abbrev pub Has : Session → Type 0
  Has s = settings s ≡ c

  any_All : (rs : List (List ℕ)) → All Anything rs
  any_All [] = tt
  any_All (r ∷ rs) = (tt, any_All rs)

  input-Post :
      (s : Session) (o : Option (ℤ × Kcp))
      → Has s
      → Post Unit (λ r. Has (record s { kcp = record r.1 { sent = [] } })) o
  input-Post s none p = tt
  input-Post s (some r) p = p

  encoded-Post :
      (s : Session) (o : Option (List ℕ × List (List ℕ) × Encoder))
      → Has s
      → Post Unit Has (elim o [
        | none ↦ none
        | some (packet, ecc, enc') ↦
            some (enqueue packet ecc (record s { fec_encoder = some enc' }))
      ])
  encoded-Post s none p = tt
  encoded-Post s (some r) p = p

  output-Post :
      (packet : List ℕ) (s : Session) (encoder : Option Encoder)
      → Has s
      → Post Unit Has (elim encoder [
        | none ↦ some (enqueue packet [] s)
        | some enc ↦ elim (fec_encode w.codec packet enc) [
          | none ↦ none
          | some (packet, ecc, enc') ↦
              some (enqueue packet ecc (record s { fec_encoder = some enc' }))
        ]
      ])
  output-Post packet s none p = p
  output-Post packet s (some enc) p = encoded-Post s (fec_encode w.codec packet enc) p

  decoded-Post :
      (s : Session) (o : Option (List (List ℕ) × Decoder))
      → Has s
      → Post Unit (λ r. All Anything r.0 × Has (record s { fec_decoder = some r.1 })) o
  decoded-Post s none p = tt
  decoded-Post s (some (rs, dec)) p = (any_All rs, p)

  decodes-Post :
      (bytes : List ℕ) (s : Session) (decoder : Option Decoder)
      → Has s
      → Post Unit
          (λ dec.
            Post Unit
              (λ r. All Anything r.0 × Has (record s { fec_decoder = some r.1 }))
              (fec_decode w.codec w.fec_clock bytes dec))
          decoder
  decodes-Post bytes s none p = tt
  decodes-Post bytes s (some dec) p = decoded-Post s (fec_decode w.codec w.fec_clock bytes dec) p

  either-Has : (b : Bool) (s s' : Session) → Has s → Has s' → Has (if b then s else s')
  either-Has true s s' p p' = p
  either-Has false s s' p p' = p'

  notify_write-Has : (s : Session) → Has s → Has (notify_write s)
  unfolding notify_write
  notify_write-Has s p = either-Has (can_write s.kcp) (record s { write_event = true }) s p p

  notify-Has : (s : Session) → Has s → Has (notify s)
  unfolding notify
  notify-Has s p = notify_write-Has _ (either-Has _ (record s { read_event = true }) s p p)

  pub settings_closed : IsClosed w Unit Anything Anything Has
  settings_closed = record {
    dropped = λ n bytes b. tt;
    taken = λ n bytes b. tt;
    fed = λ bytes regular s b p. input-Post s (input w.clock bytes regular s.ack_no_delay s.kcp) p;
    runs = λ s p e. tt;
    sends = λ packet s p. unfold output in output-Post packet s s.fec_encoder p;
    decodes = λ bytes s l b h p. decodes-Post bytes s (decoder_of w.codec s.fec_decoder) p;
    writes = λ s p. unfold uncork in p;
    notifies = notify-Has;
    counts = λ k s p. p;
  }

-- A result that is there has the property.
pub from_Post :
    {A : Type 0} (Fails : Type 0) (P : A → Type 0) (o : Option A) (a : A)
    → o ≡ some a
    → Post Fails P o
    → P a
from_Post Fails P none a e h = absurd (cc e)
from_Post Fails P (some b) a e h = let same : b ≡ a = cc e in subst P same h

pub kcp_input-settings :
    (w : World) (bytes : List ℕ) (s s' : Session)
    → kcp_input w bytes s ≡ some s'
    → settings s' ≡ settings s
kcp_input-settings w bytes s s' e = from_Post Unit (Has w (settings s)) (kcp_input w bytes s) s' e (
    kcp_input_lem w Unit Anything Anything (Has w (settings s)) (settings_closed w (settings s))
      bytes s tt tt refl)

-- No packet, of any length and any bytes, closes a session, changes its settings, or touches the
-- bytes that are left to the reader of an earlier message.
pub packet_input-settings :
    (w : World) (bytes : List ℕ) (s s' : Session)
    → packet_input w bytes s ≡ some s'
    → settings s' ≡ settings s
packet_input-settings w bytes s s' e =
    from_Post Unit (Has w (settings s)) (packet_input w bytes s) s' e (
      packet_input_lem w Unit Anything Anything (Has w (settings s))
        (settings_closed w (settings s)) bytes s tt tt refl)
