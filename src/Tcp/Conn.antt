-- ===== src/Tcp/Conn.antt =====
-- network/tcp/conn.go, and network/kcp/conn.go, which is the same but for its socket and the size of
-- its channel: writes wait in a channel for a goroutine that gives them to the socket.
pub mod Order
pub mod Deadlock
pub mod Tests
use emt.Common.{
  ℕ, suc, ◌<◌, ◌≡◌, Bool, true, false, Option, none, some, List, [], ◌∷◌, ◌++◌, length, ◌==◌,
  if◌then◌else◌,
}

-- Where the goroutine of `newConn` is: in its loop, behind it, and past the assignment to `isClose`.
pub data Phase : Type 0 where
  looping left finished : Phase

abbrev pub Bytes : Type 0
Bytes = List ℕ

-- `Conn`. A call of `Close` that has the lock waits to send nil; others wait for the lock. A call of
-- `Write` that has passed its tests waits to send. `accepted` is what was sent to the channel, and
-- `written` what the socket took, oldest first.
pub record Conn : Type 0 where
  pub w_ch : List (Option Bytes)
  pub capacity : ℕ
  pub is_close : Bool
  pub locked : Bool
  pub closers : ℕ
  pub sending : List Bytes
  pub phase : Phase
  pub accepted : List Bytes
  pub written : List Bytes

-- `_defaultWriteChanLen`.
abbrev pub default_write_chan_len : ℕ
default_write_chan_len = 100

abbrev pub conn_of : ℕ → Conn
conn_of capacity = record {
  w_ch = [];
  capacity = capacity;
  is_close = false;
  locked = false;
  closers = 0;
  sending = [];
  phase = looping;
  accepted = [];
  written = [];
}

-- `newConn` of the package tcp.
unfoldable pub new_conn : Conn
new_conn = conn_of default_write_chan_len

-- `newConn` of the package kcp.
unfoldable pub new_session_conn : ℕ → Conn
new_session_conn msg_buffer_count = conn_of msg_buffer_count

-- `Write` up to its send, or its call of `Close`; nil is not written.
abbrev pub begin_write : Bytes → Conn → Conn
begin_write d c =
    if c.is_close
    then c
    else if length c.w_ch == c.capacity
    then record c { closers = suc c.closers }
    else record c { sending = c.sending ++ (d ∷ []) }

unfoldable pub write : Option Bytes → Conn → Conn
write none c = c
write (some d) c = begin_write d c

-- `Close` up to the lock.
unfoldable pub close : Conn → Conn
close c = record c { closers = suc c.closers }

-- `Close` with the lock, up to its send.
unfoldable pub lock : ℕ → Conn → Conn
lock others c =
    if c.is_close
    then record c { closers = others }
    else record c { closers = others; locked = true }

-- The end of `Close`: nil is sent.
unfoldable pub send_nil : Conn → Conn
send_nil c = record c { w_ch = c.w_ch ++ (none ∷ []); is_close = true; locked = false }

-- The end of `Write`.
unfoldable pub send : List Bytes → Bytes → List Bytes → Conn → Conn
send ds d ds' c = record c {
  w_ch = c.w_ch ++ (some d ∷ []);
  sending = ds ++ ds';
  accepted = c.accepted ++ (d ∷ []);
}

-- A round of the goroutine's loop, on what it took from the channel. The socket takes the bytes or
-- fails.
unfoldable pub take : Bool → Option Bytes → Conn → Conn
take works none c = record c { phase = left }
take true (some d) c = record c { written = c.written ++ (d ∷ []) }
take false (some d) c = record c { phase = left }

-- What can happen. A send waits while the channel is full, and the lock is held by one call.
pub data Step : Conn → Conn → Type 0 where
  writes : {c : Conn} → (d : Option Bytes) → Step c (write d c)
  sends :
      {c : Conn}
      → (ds : List Bytes) → (d : Bytes) → (ds' : List Bytes) → c.sending ≡ ds ++ (d ∷ ds')
      → length c.w_ch < c.capacity
      → Step c (send ds d ds' c)
  closes : {c : Conn} → Step c (close c)
  locks : {c : Conn} → (n : ℕ) → c.closers ≡ suc n → c.locked ≡ false → Step c (lock n c)
  sends_nil : {c : Conn} → c.locked ≡ true → length c.w_ch < c.capacity → Step c (send_nil c)
  takes :
      {c : Conn}
      → (works : Bool) → (d : Option Bytes) → (rest : List (Option Bytes)) → c.phase ≡ looping
      → c.w_ch ≡ d ∷ rest
      → Step c (take works d (record c { w_ch = rest }))
  finishes :
      {c : Conn}
      → c.phase ≡ left
      → c.locked ≡ false
      → Step c (record c { phase = finished; is_close = true })

pub data Reaches (c : Conn) : Conn → Type 0 where
  here : Reaches c c
  then_step : {c' c'' : Conn} → Reaches c c' → Step c' c'' → Reaches c c''
