-- ===== src/Udp/Listener/Parity.antt =====
-- What `lsess` of network/kcp/ln.go does with a packet for a session that it has.
use emt.Common.{
  ℕ, ◌≡◌, ◌≢◌, ◌≤◌, refl, ap, sym, ◌∙◌, true, false, Option, none, some, List, ◌++◌, length, drop,
  arith, leb, ◌==◌,
}
use emt.Word.{IsU32}
use emt.Kcp.State.{overhead}
use emt.Kcp.Codec.{encode16u, encode32u}
use emt.Fec.Packet.{mark, type_parity}
use emt.Udp.Session.{World}
use emt.Udp.Input.{get32}
use emt.Udp.Listener.{
  Address, Entry, Listener, lookup, packet_ids, sn_offset, find_entry, open_session, known_session,
  lsess, packet_input,
}

-- The conversation of a parity packet is its number among the packets with error correction, and the
-- number of the segment is four bytes of the parity shard.
packet_ids-parity :
    (seqid : ℕ) (rest : List ℕ)
    → IsU32 seqid
    → let bytes = mark seqid type_parity ++ rest in
      packet_ids bytes ≡ (seqid, get32 (drop sn_offset bytes))
unfolding packet_ids mark encode16u encode32u
packet_ids-parity seqid rest h = ap (λ n. (n, get32 (drop 6 rest))) (omega arith)

module _ (w : World) (bytes : List ℕ) (a : Address) (l : Listener) (i : ℕ) (e : Entry)
    (known : find_entry (lookup a l.sessions) l.store ≡ some (i, e))
    (long : overhead ≤ length bytes) where
  lsess-known : lsess w bytes a l ≡ known_session w bytes a i e l
  unfolding lsess
  lsess-known =
      ap
        (λ o. elim o as (λ x. Option Listener) [
          | none ↦ open_session w bytes a l
          | some (i, e) ↦ known_session w bytes a i e l
        ])
        known

  -- A packet for an address that the listener knows, of another conversation than that of its session,
  -- goes nowhere, unless it begins a conversation.
  pub packet_input_other :
      (packet_ids bytes).0 ≢ e.session.kcp.conv
      → (packet_ids bytes).1 ≢ 0
      → packet_input w bytes a l ≡ some l
  unfolding packet_input known_session
  packet_input_other c n =
      let whole : leb overhead (length bytes) ≡ true = ground arith in
      let other : ((packet_ids bytes).0 == e.session.kcp.conv) ≡ false = ground arith in
      let later : ((packet_ids bytes).1 == 0) ≡ false = ground arith in
      rw (whole, lsess-known) (rw (other, later) refl)

-- A parity packet for an address that the listener knows is dropped, and its shard lost to the decoder
-- of the session, unless its number is by chance the conversation's, or four bytes of the shard are 0.
pub parity_dropped :
    (w : World) (seqid : ℕ) (rest : List ℕ) (a : Address) (l : Listener) (i : ℕ) (e : Entry)
    → find_entry (lookup a l.sessions) l.store ≡ some (i, e)
    → IsU32 seqid
    → 18 ≤ length rest
    → seqid ≢ e.session.kcp.conv
    → get32 (drop 6 rest) ≢ 0
    → packet_input w (mark seqid type_parity ++ rest) a l ≡ some l
parity_dropped w seqid rest a l i e known h long c n =
    let bytes = mark seqid type_parity ++ rest in
    let ids = packet_ids-parity seqid rest h in
    packet_input_other w bytes a l i e known
      (unfold mark encode16u encode32u in omega (arith, long))
      (λ q. c (sym (ap (λ p. p.0) ids) ∙ q))
      (λ q. n (unfold mark encode16u encode32u in (sym (ap (λ p. p.1) ids) ∙ q)))
