-- ===== src/Trace/Tests.antt =====
-- Headers that `parse_trace_context` accepts and refuses.
use remerge.Prelude.{◌≡◌, refl, true, false, none, some, all, length}
use remerge.Prelude.Text.{
  Text, codes, text_beq, to_lowercase, trim, trim_start, trim_end, is_whitespace, is_ascii_hexdigit,
}
use remerge.Types.Workorder.{TraceContext}
use remerge.Trace.{split, cons_head, is_malformed, parse_parts, parse_trace_context, zero_trace_id}
use remerge.Trace.Normal.{normalised, parse_trace_context-normal}

abbrev header : Text
header = codes " 00-0AF7651916CD43DD8448EB211C80319C-b7ad6b7169203331-01 "

abbrev context : TraceContext
context = record {
  trace_id = codes "0af7651916cd43dd8448eb211c80319c";
  traceparent = codes "00-0af7651916cd43dd8448eb211c80319c-b7ad6b7169203331-01";
}

header_parsed : parse_trace_context header ≡ some context
unfolding parse_trace_context parse_parts is_malformed split cons_head to_lowercase trim trim_start
    trim_end is_whitespace
header_parsed = refl

bad_refused : parse_trace_context (codes "00-bad-2222222222222222-01") ≡ none
unfolding parse_trace_context parse_parts is_malformed split cons_head to_lowercase trim trim_start
    trim_end is_whitespace
bad_refused = refl

zero_refused :
    parse_trace_context (codes "00-00000000000000000000000000000000-2222222222222222-01") ≡ none
unfolding parse_trace_context parse_parts is_malformed split cons_head to_lowercase trim trim_start
    trim_end is_whitespace
zero_refused = refl

parse_trace_context-normal_example :
    (context.traceparent ≡ normalised header)
    × (length context.trace_id ≡ 32)
    × (all is_ascii_hexdigit context.trace_id ≡ true)
    × (text_beq context.trace_id zero_trace_id ≡ false)
    × (parse_trace_context context.traceparent ≡ some context)
parse_trace_context-normal_example = parse_trace_context-normal header context header_parsed
