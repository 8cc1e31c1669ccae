-- ===== src/Server/Accepting.antt =====
-- The accept loop of network/tcp/server.go keeps what the server keeps.
use emt.Common.{
  ℕ, suc, ◌-◌, ◌+◌, ◌%◌, ◌<◌, ◌≡◌, refl, sym, subst, ap, ◌∙◌, inl, inr, true, false, Bool-cases,
  Option, some, List, [], ◌∷◌, ◌++◌, length, length-append, ltb, ◌==◌, arith,
}
use emt.Word.{u32_mod}
use emt.Server.{
  tcp, Run, starting, accepting, accepted, launching, returned, serving, Client, Stop, Server, keys,
  done_conn, done_ln, begin, fail, insert, admit, launch,
}
use emt.Server.Distinct.{served, pending, served-append, served-snoc, All-suc, Rising-snoc}
use emt.Server.Serving.{
  looping, IsGone, IsMapped, IsServing, IsGone-not_holding, IsGone-idle, map_at-holding,
  IsGone-holding, IsEmpty-holding,
}

-- The connections that are served change by an equation.
pub IsMapped-same :
    {most next : ℕ} {st : Stop} {conns : Option (List ℕ)} {l l' : List ℕ}
    → l ≡ l'
    → IsMapped most next st conns l
    → IsMapped most next st conns l'
IsMapped-same {most} {next} {st} {conns} e m = subst (λ k. IsMapped most next st conns k) e m

done_ln-one : (s : Server) → s.wg_ln ≡ 1 → done_ln s ≡ record s { wg_ln = 0 }
unfolding done_ln
done_ln-one s e =
    let some_left : s.wg_ln == 0 ≡ false = ground arith in
    let rest : s.wg_ln - 1 ≡ 0 = omega arith in
    rw some_left (ap (λ (n : ℕ). record s { wg_ln = n }) rest)

pub done_conn-suc :
    (s : Server) (n : ℕ) → s.wg_conns ≡ suc n → done_conn s ≡ record s { wg_conns = n }
unfolding done_conn
done_conn-suc s n e =
    let some_left : s.wg_conns == 0 ≡ false = ground arith in
    let rest : s.wg_conns - 1 ≡ n = omega arith in
    rw some_left (ap (λ (k : ℕ). record s { wg_conns = k }) rest)

-- Steps of `run` with no connection in its hands before and behind.
moves-served :
    (s : Server) (r r' : Run)
    → s.run ≡ r
    → pending r ≡ pending r'
    → served s.clients (pending s.run) ≡ served s.clients (pending r')
moves-served s r r' e p = ap (λ q. served s.clients (pending q)) e ∙ ap (λ q. served s.clients q) p

pub begin-IsServing : (s : Server) → s.run ≡ starting → IsServing s → IsServing (begin tcp s)
unfolding begin
begin-IsServing s e v = record {
  calm = v.calm;
  small = v.small;
  mapped = IsMapped-same (moves-served s starting accepting e refl) v.mapped;
  listens = v.listens;
  counted = v.counted;
  counted_ln = ap suc (v.counted_ln ∙ ap looping e);
  gone = IsGone-not_holding s.stop accepting refl;
  empty = v.empty;
}

pub accept-IsServing :
    (s : Server)
    → s.run ≡ accepting
    → s.listening ≡ true
    → IsServing s
    → IsServing (record s { run = accepted })
accept-IsServing s e l v = record {
  calm = v.calm;
  small = v.small;
  mapped = IsMapped-same (moves-served s accepting accepted e refl) v.mapped;
  listens = v.listens;
  counted = v.counted;
  counted_ln = v.counted_ln ∙ ap looping e;
  gone = IsGone-idle s.stop accepted (sym v.listens ∙ l);
  empty = v.empty;
}

pub fail-IsServing : (s : Server) → s.run ≡ accepting → IsServing s → IsServing (fail tcp s)
unfolding fail
fail-IsServing s e v =
    let one : s.wg_ln ≡ 1 = v.counted_ln ∙ ap looping e in
    subst IsServing (sym (done_ln-one (record s { run = returned }) one)) (record {
      calm = v.calm;
      small = v.small;
      mapped = IsMapped-same (moves-served s accepting returned e refl) v.mapped;
      listens = v.listens;
      counted = v.counted;
      counted_ln = refl;
      gone = IsGone-not_holding s.stop returned refl;
      empty = v.empty;
    })

refuse-IsServing :
    (s : Server) → s.run ≡ accepted → IsServing s → IsServing (record s { run = accepting })
refuse-IsServing s e v = record {
  calm = v.calm;
  small = v.small;
  mapped = IsMapped-same (moves-served s accepted accepting e refl) v.mapped;
  listens = v.listens;
  counted = v.counted;
  counted_ln = v.counted_ln ∙ ap looping e;
  gone = IsGone-not_holding s.stop accepting refl;
  empty = v.empty;
}

IsMapped-insert :
    (most next : ℕ) (st : Stop) (conns : Option (List ℕ)) (cs : List Client)
    → IsGone st accepted
    → length (served cs []) < most
    → IsMapped most next st conns (served cs [])
    → IsMapped most (suc next) st (some (served cs [] ++ (next ∷ []))) (served cs [] ++ (next ∷ []))
IsMapped-insert most next st conns cs g l m = record {
  bounded =
      let more : length (served cs [] ++ (next ∷ [])) ≡ length (served cs []) + 1 =
        length-append (served cs []) (next ∷ []) in
      omega arith;
  rising = Rising-snoc (served cs []) next m.rising m.below;
  below = All-suc (served cs []) next m.below;
  listed = sym (map_at-holding st accepted _ refl g);
}

insert-IsServing :
    (s : Server)
    → s.run ≡ accepted
    → length (served s.clients []) < s.max_conn_num
    → IsServing s
    → IsServing (insert (some (served s.clients [])) s)
insert-IsServing s e l v =
    let g : IsGone s.stop accepted = subst (λ r. IsGone s.stop r) e v.gone in
    let m = IsMapped-same (moves-served s accepted accepted e refl) v.mapped in
    record {
      calm = v.calm;
      small = v.small;
      mapped =
          IsMapped-same (served-snoc s.clients s.next)
            (IsMapped-insert s.max_conn_num s.next s.stop s.conns s.clients g l m);
      listens = v.listens;
      counted = v.counted;
      counted_ln = v.counted_ln ∙ ap looping e;
      gone = IsGone-holding s.stop accepted (launching s.next) refl g;
      empty = v.empty;
    }

pub admit-IsServing : (s : Server) → s.run ≡ accepted → IsServing s → IsServing (admit s)
unfolding admit
admit-IsServing s e v =
    let g : IsGone s.stop accepted = subst (λ r. IsGone s.stop r) e v.gone in
    let m = IsMapped-same (moves-served s accepted accepted e refl) v.mapped in
    let known : s.conns ≡ some (served s.clients []) =
      m.listed ∙ map_at-holding s.stop accepted _ refl g in
    let small : length (served s.clients []) % u32_mod ≡ length (served s.clients []) =
      omega (arith, m.bounded, v.small) in
    elim (Bool-cases (ltb (length (keys s.conns) % u32_mod) s.max_conn_num)) [
      | inl room ↦
          let l : length (keys s.conns) % u32_mod < s.max_conn_num = ground arith in
          let l' : length (served s.clients []) < s.max_conn_num =
            subst (λ n. n < s.max_conn_num) (ap (λ o. length (keys o) % u32_mod) known ∙ small) l in
          rw room (subst (λ o. IsServing (insert o s)) (sym known) (insert-IsServing s e l' v))
      | inr full ↦ rw full (refuse-IsServing s e v)
    ]

pub launch-IsServing :
    (s : Server) (c : ℕ) → s.run ≡ launching c → IsServing s → IsServing (launch c s)
unfolding launch
launch-IsServing s c e v =
    let g : IsGone s.stop (launching c) = subst (λ r. IsGone s.stop r) e v.gone in
    record {
      calm = v.calm;
      small = v.small;
      mapped =
          IsMapped-same
            (ap (λ r. served s.clients (pending r)) e
              ∙ sym (served-append s.clients (serving c ∷ []) []))
            v.mapped;
      listens = v.listens;
      counted =
          let more : length (s.clients ++ (serving c ∷ [])) ≡ length s.clients + 1 =
            length-append s.clients (serving c ∷ []) in
          omega (arith, v.counted);
      counted_ln = v.counted_ln ∙ ap looping e;
      gone = IsGone-not_holding s.stop accepting refl;
      empty = IsEmpty-holding s.stop (launching c) _ refl g;
    }
