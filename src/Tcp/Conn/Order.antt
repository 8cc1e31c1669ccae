-- ===== src/Tcp/Conn/Order.antt =====
-- What the socket of network/tcp/conn.go gets, and a connection that is stuck.
use emt.Common.{
  ℕ, subst, ◌≡◌, refl, ap, sym, ◌∙◌, inl, inr, Bool, true, false, Bool-cases, Option, none, some,
  List, [], ◌∷◌, ◌++◌, append-nil, append_assoc, length, ◌==◌,
}
use emt.Tcp.Conn.{
  Phase, looping, left, finished, Bytes, Conn, conn_of, write, begin_write, close, lock, send_nil,
  send, take, Step, writes, sends, closes, locks, sends_nil, takes, finishes, Reaches, here,
  then_step,
}

-- The messages in the channel.
abbrev pub messages : List (Option Bytes) → List Bytes
messages [] = []
messages (none ∷ ds) = messages ds
messages (some d ∷ ds) = d ∷ messages ds

messages-append : (ds es : List (Option Bytes)) → messages (ds ++ es) ≡ messages ds ++ messages es
messages-append [] es = refl
messages-append (none ∷ ds) es = messages-append ds es
messages-append (some d ∷ ds) es = ap (λ t. d ∷ t) (messages-append ds es)

-- While the goroutine is in its loop nothing is lost, and behind it nothing more is written.
abbrev pub AreInOrder : Phase → Conn → Type 0
AreInOrder looping c = c.accepted ≡ c.written ++ messages c.w_ch
AreInOrder left c = (lost : List Bytes) × (c.accepted ≡ c.written ++ lost)
AreInOrder finished c = (lost : List Bytes) × (c.accepted ≡ c.written ++ lost)

AreInOrder-same :
    (p : Phase) (c c' : Conn)
    → c'.accepted ≡ c.accepted
    → c'.written ≡ c.written
    → messages c'.w_ch ≡ messages c.w_ch
    → AreInOrder p c
    → AreInOrder p c'
AreInOrder-same looping c c' a w m h = rw (a, w, m) h
AreInOrder-same left c c' a w m (lost, h) = (lost, rw (a, w) h)
AreInOrder-same finished c c' a w m (lost, h) = (lost, rw (a, w) h)

AreInOrder-send :
    (p : Phase) (ds ds' : List Bytes) (d : Bytes) (c : Conn)
    → AreInOrder p c
    → AreInOrder p (send ds d ds' c)
unfolding send
AreInOrder-send looping ds ds' d c h =
    rw (h, messages-append c.w_ch (some d ∷ [])) (append_assoc c.written (messages c.w_ch) (d ∷ []))
AreInOrder-send left ds ds' d c (lost, h) =
    (lost ++ (d ∷ []), rw h (append_assoc c.written lost (d ∷ [])))
AreInOrder-send finished ds ds' d c (lost, h) =
    (lost ++ (d ∷ []), rw h (append_assoc c.written lost (d ∷ [])))

abbrev pub IsOrdered : Conn → Type 0
IsOrdered c = AreInOrder c.phase c

begin_write-IsOrdered : (d : Bytes) (c : Conn) → IsOrdered c → IsOrdered (begin_write d c)
begin_write-IsOrdered d c h = elim (Bool-cases c.is_close) [
  | inl closed ↦ rw closed (AreInOrder-same c.phase c _ refl refl refl h)
  | inr opened ↦ elim (Bool-cases (length c.w_ch == c.capacity)) [
    | inl full ↦ rw (opened, full) (AreInOrder-same c.phase c _ refl refl refl h)
    | inr room ↦ rw (opened, room) (AreInOrder-same c.phase c _ refl refl refl h)
  ]
]

lock-IsOrdered : (n : ℕ) (c : Conn) → IsOrdered c → IsOrdered (lock n c)
unfolding lock
lock-IsOrdered n c h = elim (Bool-cases c.is_close) [
  | inl closed ↦ rw closed (AreInOrder-same c.phase c _ refl refl refl h)
  | inr opened ↦ rw opened (AreInOrder-same c.phase c _ refl refl refl h)
]

take-IsOrdered :
    (works : Bool) (d : Option Bytes) (rest : List (Option Bytes)) (c : Conn)
    → c.phase ≡ looping
    → c.w_ch ≡ d ∷ rest
    → IsOrdered c
    → IsOrdered (take works d (record c { w_ch = rest }))
unfolding take
take-IsOrdered works d rest c p e h = by_message works d (h' ∙ ap (λ m. c.written ++ messages m) e)
  where
    h' : c.accepted ≡ c.written ++ messages c.w_ch
    h' = subst (λ q. AreInOrder q c) p h

    by_message :
        (works : Bool) (d : Option Bytes)
        → c.accepted ≡ c.written ++ messages (d ∷ rest)
        → IsOrdered (take works d (record c { w_ch = rest }))
    by_message works none k = (messages rest, k)
    by_message true (some d) k =
        subst (λ q. AreInOrder q (record c { w_ch = rest; written = c.written ++ (d ∷ []) }))
          (sym p) (k ∙ sym (append_assoc c.written (d ∷ []) (messages rest)))
    by_message false (some d) k = (d ∷ messages rest, k)

Step-IsOrdered : {c c' : Conn} → Step c c' → IsOrdered c → IsOrdered c'
unfolding write close send_nil send
Step-IsOrdered {c} (writes none) h = h
Step-IsOrdered {c} (writes (some d)) h = begin_write-IsOrdered d c h
Step-IsOrdered {c} (sends ds d ds' e l) h = AreInOrder-send c.phase ds ds' d c h
Step-IsOrdered {c} closes h = AreInOrder-same c.phase c _ refl refl refl h
Step-IsOrdered {c} (locks n e l) h = lock-IsOrdered n c h
Step-IsOrdered {c} (sends_nil l s) h =
    AreInOrder-same c.phase c (send_nil c) refl refl
      (messages-append c.w_ch (none ∷ []) ∙ append-nil (messages c.w_ch)) h
Step-IsOrdered {c} (takes works d rest p e) h = take-IsOrdered works d rest c p e h
Step-IsOrdered {c} (finishes p l) h = subst (λ q. AreInOrder q c) p h

-- Whatever the goroutines of the program do, and whether the socket works: what it took is the
-- beginning of what the calls of Write sent, in their order. While the connection's goroutine is in
-- its loop, the rest waits in the channel.
pub Reaches-IsOrdered : (capacity : ℕ) {c : Conn} → Reaches (conn_of capacity) c → IsOrdered c
Reaches-IsOrdered capacity here = refl
Reaches-IsOrdered capacity (then_step r st) = Step-IsOrdered st (Reaches-IsOrdered capacity r)
