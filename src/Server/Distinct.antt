-- ===== src/Server/Distinct.antt =====
-- Lists of connections in the order of their numbers, for network/tcp/server.go.
use emt.Common.{
  ℕ, suc, ◌<◌, ◌≡◌, refl, ap, ◌∙◌, List, [], ◌∷◌, ◌++◌, All, length, true, false, ◌==◌, arith,
}
use emt.Server.{
  Run, starting, accepting, accepted, launching, returned, serving, closed, deleted, Client, erase,
}

-- Each number is below those behind it.
abbrev pub Rising : List ℕ → Type 0
Rising [] = Unit
Rising (c ∷ cs) = All (λ d. c < d) cs × Rising cs

-- The connections whose goroutines have not deleted them yet, and further ones behind them.
abbrev pub served : List Client → List ℕ → List ℕ
served [] ps = ps
served (serving c ∷ cs) ps = c ∷ served cs ps
served (closed c ∷ cs) ps = c ∷ served cs ps
served (deleted c ∷ cs) ps = served cs ps

-- The connection that is about to get a goroutine.
abbrev pub pending : Run → List ℕ
pending starting = []
pending accepting = []
pending accepted = []
pending (launching c) = c ∷ []
pending returned = []

pub served-append :
    (cs ds : List Client) (ps : List ℕ) → served (cs ++ ds) ps ≡ served cs (served ds ps)
served-append [] ds ps = refl
served-append (serving c ∷ cs) ds ps = ap (λ r. c ∷ r) (served-append cs ds ps)
served-append (closed c ∷ cs) ds ps = ap (λ r. c ∷ r) (served-append cs ds ps)
served-append (deleted c ∷ cs) ds ps = served-append cs ds ps

pub length-served :
    (cs : List Client) (c : ℕ) (ps : List ℕ)
    → length (served cs (c ∷ ps)) ≡ suc (length (served cs ps))
length-served [] c ps = refl
length-served (serving d ∷ cs) c ps = ap suc (length-served cs c ps)
length-served (closed d ∷ cs) c ps = ap suc (length-served cs c ps)
length-served (deleted d ∷ cs) c ps = length-served cs c ps

pub served-snoc : (cs : List Client) (n : ℕ) → served cs [] ++ (n ∷ []) ≡ served cs (n ∷ [])
served-snoc [] n = refl
served-snoc (serving c ∷ cs) n = ap (λ r. c ∷ r) (served-snoc cs n)
served-snoc (closed c ∷ cs) n = ap (λ r. c ∷ r) (served-snoc cs n)
served-snoc (deleted c ∷ cs) n = served-snoc cs n

module _ (P : ℕ → Type 0) where
  pub All-served_rest :
      (cs : List Client) (c : ℕ) (ps : List ℕ) → All P (served cs (c ∷ ps)) → All P (served cs ps)
  All-served_rest [] c ps h = h.1
  All-served_rest (serving d ∷ cs) c ps (h, hs) = (h, All-served_rest cs c ps hs)
  All-served_rest (closed d ∷ cs) c ps (h, hs) = (h, All-served_rest cs c ps hs)
  All-served_rest (deleted d ∷ cs) c ps h = All-served_rest cs c ps h

  All-served_at : (cs : List Client) (c : ℕ) (ps : List ℕ) → All P (served cs (c ∷ ps)) → P c
  All-served_at [] c ps h = h.0
  All-served_at (serving d ∷ cs) c ps h = All-served_at cs c ps h.1
  All-served_at (closed d ∷ cs) c ps h = All-served_at cs c ps h.1
  All-served_at (deleted d ∷ cs) c ps h = All-served_at cs c ps h

pub Rising-served_rest :
    (cs : List Client) (c : ℕ) (ps : List ℕ) → Rising (served cs (c ∷ ps)) → Rising (served cs ps)
Rising-served_rest [] c ps h = h.1
Rising-served_rest (serving d ∷ cs) c ps (h, hs) =
    (All-served_rest _ cs c ps h, Rising-served_rest cs c ps hs)
Rising-served_rest (closed d ∷ cs) c ps (h, hs) =
    (All-served_rest _ cs c ps h, Rising-served_rest cs c ps hs)
Rising-served_rest (deleted d ∷ cs) c ps h = Rising-served_rest cs c ps h

erase-ne : (c d : ℕ) (ds : List ℕ) → d == c ≡ false → erase c (d ∷ ds) ≡ d ∷ erase c ds
erase-ne c d ds e = rw e refl

erase-above : (c : ℕ) (ds : List ℕ) → All (λ d. c < d) ds → erase c ds ≡ ds
erase-above c [] h = refl
erase-above c (d ∷ ds) (h, hs) =
    erase-ne c d ds (ground arith) ∙ ap (λ r. d ∷ r) (erase-above c ds hs)

erase-below : (c d : ℕ) (ds es : List ℕ) → d < c → erase c ds ≡ es → erase c (d ∷ ds) ≡ d ∷ es
erase-below c d ds es l e = erase-ne c d ds (ground arith) ∙ ap (λ r. d ∷ r) e

-- To delete a connection leaves the others.
pub erase-served :
    (cs : List Client) (c : ℕ) (ps : List ℕ)
    → Rising (served cs (c ∷ ps))
    → erase c (served cs (c ∷ ps)) ≡ served cs ps
erase-served [] c ps (h, hs) =
    let same : c == c ≡ true = ground arith in rw same (erase-above c ps h)
erase-served (serving d ∷ cs) c ps (h, hs) =
    erase-below c d _ _ (All-served_at _ cs c ps h) (erase-served cs c ps hs)
erase-served (closed d ∷ cs) c ps (h, hs) =
    erase-below c d _ _ (All-served_at _ cs c ps h) (erase-served cs c ps hs)
erase-served (deleted d ∷ cs) c ps h = erase-served cs c ps h

All-snoc : (P : ℕ → Type 0) (cs : List ℕ) (n : ℕ) → All P cs → P n → All P (cs ++ (n ∷ []))
All-snoc P [] n h k = (k, tt)
All-snoc P (c ∷ cs) n (h, hs) k = (h, All-snoc P cs n hs k)

pub All-suc : (cs : List ℕ) (n : ℕ) → All (λ c. c < n) cs → All (λ c. c < suc n) (cs ++ (n ∷ []))
All-suc [] n h = (omega arith, tt)
All-suc (c ∷ cs) n (h, hs) = (omega arith, All-suc cs n hs)

pub Rising-snoc : (cs : List ℕ) (n : ℕ) → Rising cs → All (λ c. c < n) cs → Rising (cs ++ (n ∷ []))
Rising-snoc [] n h k = (tt, tt)
Rising-snoc (c ∷ cs) n (h, hs) (k, ks) = (All-snoc _ cs n h k, Rising-snoc cs n hs ks)
