-- ===== src/Kcp/State.antt =====
-- The data of network/kcp/kcp.go: constants, segments, the control block and its constructor.
use emt.Common.{ℕ, ◌-◌, Bool, false, List, []}
use emt.Word.{ℤ, pos}

abbrev pub rto_ndl : ℕ
rto_ndl = 30

abbrev pub rto_min : ℕ
rto_min = 100

abbrev pub rto_def : ℕ
rto_def = 200

abbrev pub rto_max : ℕ
rto_max = 60000

abbrev pub cmd_push : ℕ
cmd_push = 81

abbrev pub cmd_ack : ℕ
cmd_ack = 82

abbrev pub cmd_wask : ℕ
cmd_wask = 83

abbrev pub cmd_wins : ℕ
cmd_wins = 84

abbrev pub ask_send : ℕ
ask_send = 1

abbrev pub ask_tell : ℕ
ask_tell = 2

abbrev pub overhead : ℕ
overhead = 24

abbrev pub thresh_min : ℕ
thresh_min = 2

abbrev pub probe_init : ℕ
probe_init = 7000

abbrev pub probe_limit : ℕ
probe_limit = 120000

-- `segment`. The field `Data` is `payload` here; nil and the empty slice are both `[]`.
pub record Segment : Type 0 where
  pub conv : ℕ
  pub cmd : ℕ
  pub frg : ℕ
  pub wnd : ℕ
  pub ts : ℕ
  pub sn : ℕ
  pub una : ℕ
  pub rto : ℕ
  pub xmit : ℕ
  pub resendts : ℕ
  pub fastack : ℕ
  pub acked : ℕ
  pub payload : List ℕ

-- The zero value of `segment`.
abbrev pub blank : Segment
blank = record {
  conv = 0;
  cmd = 0;
  frg = 0;
  wnd = 0;
  ts = 0;
  sn = 0;
  una = 0;
  rto = 0;
  xmit = 0;
  resendts = 0;
  fastack = 0;
  acked = 0;
  payload = [];
}

pub record AckItem : Type 0 where
  pub sn : ℕ
  pub ts : ℕ

-- The counters of `DefaultSnmp` that kcp.go adds to (uint64).
pub record Snmp : Type 0 where
  pub in_segs : ℕ
  pub out_segs : ℕ
  pub repeat_segs : ℕ
  pub lost_segs : ℕ
  pub fast_retrans_segs : ℕ
  pub early_retrans_segs : ℕ
  pub retrans_segs : ℕ

-- `KCP`. Of `Buffer` only the length is kept: what is written to it stands in a `Writer`.
-- `reads` counts the readings of the clock, and `sent` is what was handed to `Output`, oldest first.
-- `panicked` is set where an index is out of range, which stops the Go program.
pub record Kcp : Type 0 where
  pub conv : ℕ
  pub mtu : ℕ
  pub mss : ℕ
  pub state : ℕ
  pub snd_una : ℕ
  pub snd_nxt : ℕ
  pub rcv_nxt : ℕ
  pub ssthresh : ℕ
  pub rx_rttvar : ℤ
  pub rx_srtt : ℤ
  pub rx_rto : ℕ
  pub rx_minrto : ℕ
  pub snd_wnd : ℕ
  pub rcv_wnd : ℕ
  pub rmt_wnd : ℕ
  pub cwnd : ℕ
  pub probe : ℕ
  pub interval : ℕ
  pub ts_flush : ℕ
  pub nodelay : ℕ
  pub updated : ℕ
  pub ts_probe : ℕ
  pub probe_wait : ℕ
  pub dead_link : ℕ
  pub incr : ℕ
  pub fastresend : ℤ
  pub nocwnd : ℤ
  pub stream : ℤ
  pub snd_queue : List Segment
  pub rcv_queue : List Segment
  pub snd_buf : List Segment
  pub rcv_buf : List Segment
  pub acklist : List AckItem
  pub buffer_len : ℕ
  pub reserved : ℕ
  pub sent : List (List ℕ)
  pub panicked : Bool
  pub reads : ℕ
  pub snmp : Snmp

abbrev pub no_counts : Snmp
no_counts = record {
  in_segs = 0;
  out_segs = 0;
  repeat_segs = 0;
  lost_segs = 0;
  fast_retrans_segs = 0;
  early_retrans_segs = 0;
  retrans_segs = 0;
}

-- `NewKCP`.
unfoldable pub new_kcp : ℕ → Kcp
new_kcp conv = record {
  conv = conv;
  mtu = 1400;
  mss = 1400 - overhead;
  state = 0;
  snd_una = 0;
  snd_nxt = 0;
  rcv_nxt = 0;
  ssthresh = 2;
  rx_rttvar = pos 0;
  rx_srtt = pos 0;
  rx_rto = rto_def;
  rx_minrto = rto_min;
  snd_wnd = 32;
  rcv_wnd = 32;
  rmt_wnd = 32;
  cwnd = 0;
  probe = 0;
  interval = 100;
  ts_flush = 100;
  nodelay = 0;
  updated = 0;
  ts_probe = 0;
  probe_wait = 0;
  dead_link = 20;
  incr = 0;
  fastresend = pos 0;
  nocwnd = pos 0;
  stream = pos 0;
  snd_queue = [];
  rcv_queue = [];
  snd_buf = [];
  rcv_buf = [];
  acklist = [];
  buffer_len = 1400;
  reserved = 0;
  sent = [];
  panicked = false;
  reads = 0;
  snmp = no_counts;
}
