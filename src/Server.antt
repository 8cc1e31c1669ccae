-- ===== src/Server.antt =====
-- network/tcp/server.go and network/kcp/server.go: the accept loop, the goroutine of each connection
-- and Stop. What a goroutine does between two waits, or with the lock, is a step. A panic is a flag,
-- and no step follows it.
pub mod Distinct
pub mod Serving
pub mod Accepting
pub mod Closing
pub mod Reaching
mod Tests
use emt.Common.{
  ℕ, zero, suc, ◌-◌, ◌%◌, ◌≡◌, Bool, true, false, Option, none, some, List, [], ◌∷◌, ◌++◌, length,
  ltb, ◌==◌, if◌then◌else◌,
}
use emt.Word.{u32_mod}

-- Which of the two files: they differ in what `run` does when Accept fails.
pub data Package : Type 0 where
  tcp kcp : Package

-- Where `run` is: not begun; in Accept; behind Accept; behind the lock with a connection that it has
-- put into the map; returned.
pub data Run : Type 0 where
  starting accepting accepted : Run
  launching : ℕ → Run
  returned : Run

-- The goroutine of a connection: in OnConnect or Run; behind Close; behind the delete.
pub data Client : Type 0 where
  serving closed deleted : ℕ → Client

-- Where Stop is: not called; behind the listener's Close; behind wgLn.Wait; behind the lock;
-- returned.
pub data Stop : Type 0 where
  idle unlistened waited cleared stopped : Stop

-- `server`. A connection is a number, in the order in which the map takes them; `conns` is the map's
-- keys, or none for the nil map; `next` is the number of the next one. `clients` are the goroutines
-- that have not ended, and `told` the connections whose Close was called.
pub record Server : Type 0 where
  pub max_conn_num : ℕ
  pub conns : Option (List ℕ)
  pub listening : Bool
  pub wg_ln : ℕ
  pub wg_conns : ℕ
  pub next : ℕ
  pub run : Run
  pub clients : List Client
  pub stop : Stop
  pub told : List ℕ
  pub panicked : Bool

-- `DefaultMaxConnNum`.
abbrev pub default_max_conn_num : ℕ
default_max_conn_num = 3000

-- `NewServer` and `Start`, with a listener that could be made, up to the call of `run`.
unfoldable pub start : ℕ → Server
start max_conn_num = record {
  max_conn_num = if max_conn_num == 0 then default_max_conn_num else max_conn_num;
  conns = some [];
  listening = true;
  wg_ln = 0;
  wg_conns = 0;
  next = 0;
  run = starting;
  clients = [];
  stop = idle;
  told = [];
  panicked = false;
}

-- The map as a list: what the nil map holds is nothing.
abbrev pub keys : Option (List ℕ) → List ℕ
keys none = []
keys (some cs) = cs

abbrev pub erase : ℕ → List ℕ → List ℕ
erase c [] = []
erase c (d ∷ ds) = let rest = erase c ds in if d == c then rest else d ∷ rest

-- `delete` does nothing with the nil map.
unfoldable pub delete : ℕ → Option (List ℕ) → Option (List ℕ)
delete c none = none
delete c (some cs) = some (erase c cs)

-- `Done` below 0 panics.
unfoldable pub done_conn : Server → Server
done_conn s =
    if s.wg_conns == 0 then record s { panicked = true } else record s { wg_conns = s.wg_conns - 1 }

unfoldable pub done_ln : Server → Server
done_ln s = if s.wg_ln == 0 then record s { panicked = true } else record s { wg_ln = s.wg_ln - 1 }

-- The first line of `run`: only the package tcp counts it.
unfoldable pub begin : Package → Server → Server
begin tcp s = record s { run = accepting; wg_ln = suc s.wg_ln }
begin kcp s = record s { run = accepting }

-- Accept gave an error.
unfoldable pub fail : Package → Server → Server
fail tcp s = done_ln (record s { run = returned })
fail kcp s = record s { panicked = true }

-- The map takes a connection; the nil map panics.
abbrev pub insert : Option (List ℕ) → Server → Server
insert none s = record s { panicked = true }
insert (some cs) s = record s {
  conns = some (cs ++ (s.next ∷ []));
  next = suc s.next;
  run = launching s.next;
}

-- `run` with the lock: a connection too many is closed.
unfoldable pub admit : Server → Server
admit s =
    if ltb (length (keys s.conns) % u32_mod) s.max_conn_num
    then insert s.conns s
    else record s { run = accepting }

-- `wgConns.Add(1)` and the start of the goroutine.
unfoldable pub launch : ℕ → Server → Server
launch c s = record s {
  wg_conns = suc s.wg_conns;
  clients = s.clients ++ (serving c ∷ []);
  run = accepting;
}

-- The goroutine of a connection, which stands between others: `co.Close`, the delete with the lock,
-- and its end.
unfoldable pub close : List Client → ℕ → List Client → Server → Server
close cs c cs' s = record s { clients = cs ++ (closed c ∷ cs'); told = s.told ++ (c ∷ []) }

unfoldable pub remove : List Client → ℕ → List Client → Server → Server
remove cs c cs' s = record s { clients = cs ++ (deleted c ∷ cs'); conns = delete c s.conns }

unfoldable pub finish : List Client → List Client → Server → Server
finish cs cs' s = done_conn (record s { clients = cs ++ cs' })

-- `Stop` with the lock: each connection of the map is closed, and the map is nil.
unfoldable pub clear : Server → Server
clear s = record s { told = s.told ++ keys s.conns; conns = none; stop = cleared }

-- What can happen. Accept gives a connection while the listener is open, and may fail at any time.
pub data Step (p : Package) : Server → Server → Type 0 where
  begins : {s : Server} → s.run ≡ starting → Step p s (begin p s)
  accepts :
      {s : Server} → s.run ≡ accepting → s.listening ≡ true → Step p s (record s { run = accepted })
  fails : {s : Server} → s.run ≡ accepting → Step p s (fail p s)
  admits : {s : Server} → s.run ≡ accepted → Step p s (admit s)
  launches : {s : Server} → (c : ℕ) → s.run ≡ launching c → Step p s (launch c s)
  closes :
      {s : Server}
      → (cs : List Client) → (c : ℕ) → (cs' : List Client) → s.clients ≡ cs ++ (serving c ∷ cs')
      → Step p s (close cs c cs' s)
  removes :
      {s : Server}
      → (cs : List Client) → (c : ℕ) → (cs' : List Client) → s.clients ≡ cs ++ (closed c ∷ cs')
      → Step p s (remove cs c cs' s)
  finishes :
      {s : Server}
      → (cs : List Client) → (c : ℕ) → (cs' : List Client) → s.clients ≡ cs ++ (deleted c ∷ cs')
      → Step p s (finish cs cs' s)
  stops :
      {s : Server} → s.stop ≡ idle → Step p s (record s { listening = false; stop = unlistened })
  waits : {s : Server} → s.stop ≡ unlistened → s.wg_ln ≡ 0 → Step p s (record s { stop = waited })
  clears : {s : Server} → s.stop ≡ waited → Step p s (clear s)
  leaves : {s : Server} → s.stop ≡ cleared → s.wg_conns ≡ 0 → Step p s (record s { stop = stopped })

pub data Reaches (p : Package) (s : Server) : Server → Type 0 where
  here : Reaches p s s
  then_step :
      {s' s'' : Server} → Reaches p s s' → s'.panicked ≡ false → Step p s' s'' → Reaches p s s''
