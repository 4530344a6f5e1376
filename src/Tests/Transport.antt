-- ===== src/Tests/Transport.antt =====
-- internal/transport at concrete values.
use mini.Prelude.{
  ◌≡◌, ◌≤◌, refl, Bool, true, false, [], ◌∷◌, List, Bytes, codes, All, length, arith, bytes_eq,
}
use mini.Transport.Sse.{
  SseLimits, ok, scan, scan_sse_messages_with_limits, read_line, parse_sse_data_line,
  append_bounded, flush, process_line, skip_bom,
}
use mini.Transport.Sse.Events.{collect, render, scan_sse_messages_with_limits-render}
use mini.Transport.Sse.Bounds.{Holds, Keeps, scan_sse_messages_with_limits-Keeps}
use mini.Transport.Sse.Ends.{Runs, scan_sse_messages_with_limits-Runs}

abbrev small : SseLimits
small = record { message_bytes = 4; line_bytes = 12 }

abbrev always : Bytes → Bool
always m = true

abbrev two : List Bytes
two = codes "{}" ∷ codes "[1]" ∷ []

-- A comment, CRLF, another field, and an event that the body's end cuts off.
abbrev mixed : Bytes
mixed = codes ": hi\ndata:1\r\ndata: 2\n\nid: 7\n\ndata: 3"

scan_mixed_run :
    scan_sse_messages_with_limits always collect small mixed []
    ≡ ok (record { event = codes "3"; seen_data = true; handled = codes "1\n2" ∷ [] })
unfolding scan_sse_messages_with_limits scan read_line parse_sse_data_line append_bounded flush
    process_line skip_bom bytes_eq
scan_mixed_run = refl

scan_sse_messages_with_limits-render_example :
    scan_sse_messages_with_limits always collect small (render two) []
    ≡ ok (record { event = []; seen_data = false; handled = two })
scan_sse_messages_with_limits-render_example =
    scan_sse_messages_with_limits-render always small two (
      record {
        is_valid = refl;
        one_line = refl;
        message_fits = omega arith;
        line_fits = omega arith;
      },
      (
        record {
          is_valid = refl;
          one_line = refl;
          message_fits = omega arith;
          line_fits = omega arith;
        },
        tt,
      ),
    )

abbrev Short : List Bytes → Type 0
Short = All (λ m. length m ≤ 4)

collect-Keeps : Keeps always collect small Short
unfolding Keeps
collect-Keeps m [] v le h = (le, tt)
collect-Keeps m (x ∷ xs) v le h = (h.0, collect-Keeps m xs v le h.1)

scan_sse_messages_with_limits-Keeps_example :
    Holds (λ t. Short t.handled) (scan_sse_messages_with_limits always collect small mixed [])
scan_sse_messages_with_limits-Keeps_example =
    scan_sse_messages_with_limits-Keeps always collect small Short mixed [] collect-Keeps tt

scan_sse_messages_with_limits-Runs_example :
    Runs always collect small
      (skip_bom mixed)
      (record { event = []; seen_data = false; handled = [] })
      (scan_sse_messages_with_limits always collect small mixed [])
scan_sse_messages_with_limits-Runs_example =
    scan_sse_messages_with_limits-Runs always collect small mixed []
