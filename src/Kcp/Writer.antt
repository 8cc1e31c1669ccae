-- ===== src/Kcp/Writer.antt =====
-- The output buffer of `flush` in network/kcp/kcp.go: `makeSpace`, `segment.encode`, `flushBuffer`.
-- `ptr` is the part of `Buffer` that is still free, so the part written so far stands for it; the
-- first `Reserved` bytes of a packet belong to the callback and are left out.
pub mod Bounds
use emt.Common.{ℕ, ◌+◌, Bool, ◌&&◌, List, [], ◌∷◌, ◌++◌, length, ltb, leb, if◌then◌else◌}
use emt.Kcp.State.{Segment, Kcp, overhead}
use emt.Kcp.Codec.{header}

-- `written` is `Buffer[Reserved:size]`, `sent` what `Output` was called with, and `segs` counts the
-- encoded segments. `fits` ends with the first write out of range, where Go panics.
pub record Writer : Type 0 where
  pub written : List ℕ
  pub sent : List (List ℕ)
  pub fits : Bool
  pub segs : ℕ

-- `mtu`, `Reserved` and the length of `Buffer`.
pub record Limits : Type 0 where
  pub mtu : ℕ
  pub reserved : ℕ
  pub size : ℕ

unfoldable pub make_space : Limits → ℕ → Writer → Writer
make_space l space w =
    if ltb l.mtu (l.reserved + length w.written + space)
    then record w { sent = w.sent ++ (w.written ∷ []); written = [] }
    else w

unfoldable pub encode : Limits → Segment → Writer → Writer
encode l s w = record w {
  written = header s w.written;
  fits = w.fits && leb (l.reserved + length w.written + overhead) l.size;
  segs = w.segs + 1;
}

-- `copy(ptr, segment.Data)` and the step over it.
unfoldable pub write_payload : Limits → List ℕ → Writer → Writer
write_payload l bytes w = record w {
  written = w.written ++ bytes;
  fits = w.fits && leb (l.reserved + length w.written + length bytes) l.size;
}

unfoldable pub flush_buffer : Writer → Writer
flush_buffer w =
    if ltb 0 (length w.written) then record w { sent = w.sent ++ (w.written ∷ []) } else w

-- The buffer at the start of `flush`, with `ptr := buffer[kcp.Reserved:]`.
abbrev pub start_writer : Kcp → Writer
start_writer k = record {
  written = [];
  sent = k.sent;
  fits = leb k.reserved k.buffer_len;
  segs = 0;
}

abbrev pub limits : Kcp → Limits
limits k = record { mtu = k.mtu; reserved = k.reserved; size = k.buffer_len }
