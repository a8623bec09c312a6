-- ===== src/Trace.antt =====
-- crates/observability/src/lib.rs: `parse_trace_context`, which reads the header `traceparent` of a
-- request. `to_lowercase` stands for `to_ascii_lowercase`.
use remerge.Prelude.{
  ℕ, Bool, true, false, Option, none, some, List, [], ◌∷◌, ◌++◌, if◌then◌else◌, ◌==◌, ◌||◌, not,
  length, all,
}
use remerge.Prelude.Text.{Text, codes, text_beq, to_lowercase, trim, is_ascii_hexdigit}
use remerge.Types.Workorder.{TraceContext}
pub mod Normal
pub mod Tests

-- the character put in front of the first part
unfoldable pub cons_head : ℕ → List Text → List Text
cons_head a [] = []
cons_head a (part ∷ parts) = (a ∷ part) ∷ parts

-- `str::split` on a character
unfoldable pub split : ℕ → Text → List Text
split c [] = [] ∷ []
split c (a ∷ s) = let parts = split c s in if a == c then [] ∷ parts else cons_head a parts

abbrev pub zero_trace_id : Text
zero_trace_id = codes "00000000000000000000000000000000"

abbrev pub zero_span_id : Text
zero_span_id = codes "0000000000000000"

-- `parts.next().is_some()` after the first four
abbrev pub has_next : List Text → Bool
has_next [] = false
has_next (_ ∷ _) = true

unfoldable pub is_malformed : Text → Text → Text → Text → List Text → Bool
is_malformed version trace_id span_id flags parts =
    has_next parts
    || not (text_beq version (codes "00"))
    || not (length trace_id == 32)
    || not (length span_id == 16)
    || not (length flags == 2)
    || text_beq trace_id zero_trace_id
    || text_beq span_id zero_span_id
    || not (all is_ascii_hexdigit trace_id)
    || not (all is_ascii_hexdigit span_id)
    || not (all is_ascii_hexdigit flags)

-- `format!("00-{trace_id}-{span_id}-{flags}")`
abbrev pub format_traceparent : Text → Text → Text → Text
format_traceparent trace_id span_id flags =
    codes "00-" ++ (trace_id ++ (b'-' ∷ (span_id ++ (b'-' ∷ flags))))

unfoldable pub parse_parts : List Text → Option TraceContext
parse_parts (version ∷ trace_id ∷ span_id ∷ flags ∷ parts) =
    if is_malformed version trace_id span_id flags parts
    then none
    else some
        (record { trace_id = trace_id; traceparent = format_traceparent trace_id span_id flags })
parse_parts _ = none

-- `parse_trace_context`
unfoldable pub parse_trace_context : Text → Option TraceContext
parse_trace_context traceparent = parse_parts (split b'-' (to_lowercase (trim traceparent)))
