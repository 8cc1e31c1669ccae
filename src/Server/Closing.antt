-- ===== src/Server/Closing.antt =====
-- The goroutines of connections of network/tcp/server.go keep what the server keeps.
use emt.Common.{
  ℕ, suc, ◌+◌, ◌≡◌, refl, sym, subst, ap, ◌∙◌, Option, some, List, ◌∷◌, ◌++◌, length, length-append,
  arith,
}
use emt.Server.{
  serving, closed, deleted, Client, Stop, idle, unlistened, waited, cleared, stopped, Server, erase,
  delete, close, remove, finish,
}
use emt.Server.Distinct.{
  served, pending, served-append, length-served, All-served_rest, Rising-served_rest, erase-served,
}
use emt.Server.Serving.{map_at, IsEmpty, IsMapped, IsServing, IsEmpty-other}
use emt.Server.Accepting.{IsMapped-same, done_conn-suc}

served-at :
    (s : Server) (cs : List Client) (x : Client) (cs' : List Client)
    → s.clients ≡ cs ++ (x ∷ cs')
    → served s.clients (pending s.run) ≡ served cs (served (x ∷ cs') (pending s.run))
served-at s cs x cs' e =
    ap (λ ds. served ds (pending s.run)) e ∙ served-append cs (x ∷ cs') (pending s.run)

length-replaced :
    (s : Server) (cs : List Client) (x y : Client) (cs' : List Client)
    → s.clients ≡ cs ++ (x ∷ cs')
    → length s.clients ≡ length (cs ++ (y ∷ cs'))
length-replaced s cs x y cs' e =
    ap length e ∙ (length-append cs (x ∷ cs') ∙ sym (length-append cs (y ∷ cs')))

IsEmpty-clients :
    (s : Server) (cs : List Client) (x : Client) (cs' ds : List Client)
    → s.clients ≡ cs ++ (x ∷ cs')
    → IsServing s
    → IsEmpty s.stop ds
IsEmpty-clients s cs x cs' ds e v =
    IsEmpty-other s.stop cs x cs' ds (subst (λ es. IsEmpty s.stop es) e v.empty)

pub close-IsServing :
    (s : Server) (cs : List Client) (c : ℕ) (cs' : List Client)
    → s.clients ≡ cs ++ (serving c ∷ cs')
    → IsServing s
    → IsServing (close cs c cs' s)
unfolding close
close-IsServing s cs c cs' e v = record {
  calm = v.calm;
  small = v.small;
  mapped =
      IsMapped-same
        (served-at s cs (serving c) cs' e ∙ sym (served-append cs (closed c ∷ cs') (pending s.run)))
        v.mapped;
  listens = v.listens;
  counted = v.counted ∙ length-replaced s cs (serving c) (closed c) cs' e;
  counted_ln = v.counted_ln;
  gone = v.gone;
  empty = IsEmpty-clients s cs (serving c) cs' _ e v;
}

delete-map_at :
    (c : ℕ) (st : Stop) (l l' : List ℕ) → erase c l ≡ l' → delete c (map_at st l) ≡ map_at st l'
unfolding delete
delete-map_at c idle l l' e = ap some e
delete-map_at c unlistened l l' e = ap some e
delete-map_at c waited l l' e = ap some e
delete-map_at c cleared l l' e = refl
delete-map_at c stopped l l' e = refl

IsMapped-delete :
    (most next : ℕ) (st : Stop) (conns : Option (List ℕ)) (cs : List Client) (c : ℕ) (ps : List ℕ)
    → IsMapped most next st conns (served cs (c ∷ ps))
    → IsMapped most next st (delete c conns) (served cs ps)
IsMapped-delete most next st conns cs c ps m = record {
  bounded = omega (arith, m.bounded, length-served cs c ps);
  rising = Rising-served_rest cs c ps m.rising;
  below = All-served_rest _ cs c ps m.below;
  listed = ap (delete c) m.listed ∙ delete-map_at c st _ _ (erase-served cs c ps m.rising);
}

pub remove-IsServing :
    (s : Server) (cs : List Client) (c : ℕ) (cs' : List Client)
    → s.clients ≡ cs ++ (closed c ∷ cs')
    → IsServing s
    → IsServing (remove cs c cs' s)
unfolding remove
remove-IsServing s cs c cs' e v = record {
  calm = v.calm;
  small = v.small;
  mapped = IsMapped-same (sym (served-append cs (deleted c ∷ cs') (pending s.run))) (
      IsMapped-delete s.max_conn_num s.next s.stop s.conns cs c (served cs' (pending s.run))
        (IsMapped-same (served-at s cs (closed c) cs' e) v.mapped));
  listens = v.listens;
  counted = v.counted ∙ length-replaced s cs (closed c) (deleted c) cs' e;
  counted_ln = v.counted_ln;
  gone = v.gone;
  empty = IsEmpty-clients s cs (closed c) cs' _ e v;
}

pub finish-IsServing :
    (s : Server) (cs : List Client) (c : ℕ) (cs' : List Client)
    → s.clients ≡ cs ++ (deleted c ∷ cs')
    → IsServing s
    → IsServing (finish cs cs' s)
unfolding finish
finish-IsServing s cs c cs' e v =
    let all : length (cs ++ (deleted c ∷ cs')) ≡ length cs + suc (length cs') =
      length-append cs (deleted c ∷ cs') in
    let fewer : length (cs ++ cs') ≡ length cs + length cs' = length-append cs cs' in
    let now : length s.clients ≡ length (cs ++ (deleted c ∷ cs')) = ap length e in
    let more : s.wg_conns ≡ suc (length (cs ++ cs')) = omega (arith, v.counted) in
    subst IsServing (sym (done_conn-suc (record s { clients = cs ++ cs' }) _ more)) (record {
      calm = v.calm;
      small = v.small;
      mapped =
          IsMapped-same
            (served-at s cs (deleted c) cs' e ∙ sym (served-append cs cs' (pending s.run)))
            v.mapped;
      listens = v.listens;
      counted = refl;
      counted_ln = v.counted_ln;
      gone = v.gone;
      empty = IsEmpty-clients s cs (deleted c) cs' _ e v;
    })
