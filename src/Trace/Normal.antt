-- ===== src/Trace/Normal.antt =====
-- crates/observability/src/lib.rs: the trimmed and lowered form of the header `traceparent`, and
-- `parse_trace_context` on it.
use remerge.Prelude.{
  ℕ, ◌≡◌, refl, ◌∙◌, ==_iff, sym, Bool, true, false, none, some, List, [], ◌∷◌, ◌++◌, inl, inr,
  ◌==◌, ◌||◌, ◌&&◌, not, length, all, Bool-cases, arith,
}
use remerge.Prelude.Text.{
  Text, codes, text_beq, text_beq_iff, to_lowercase, lower_char, trim, trim_start, trim_end,
  is_empty, is_whitespace, is_ascii_hexdigit,
}
use remerge.Types.Workorder.{TraceContext}
use remerge.Trace.{
  split, cons_head, has_next, is_malformed, parse_parts, parse_trace_context, format_traceparent,
  zero_trace_id,
}

-- the parts with the separator between them
join : ℕ → List Text → Text
join c [] = []
join c (part ∷ []) = part
join c (part ∷ next ∷ parts) = part ++ (c ∷ join c (next ∷ parts))

join-cons_head :
    (c a : ℕ) (part : Text) (parts : List Text)
    → join c (cons_head a (part ∷ parts)) ≡ a ∷ join c (part ∷ parts)
unfolding join cons_head
join-cons_head c a part [] = refl
join-cons_head c a part (next ∷ parts) = refl

split-cons : (c : ℕ) (s : Text) → (part : Text) × (parts : List Text) × (split c s ≡ part ∷ parts)
unfolding split cons_head
split-cons c [] = ([], [], refl)
split-cons c (a ∷ s) =
    let (part, parts, found) = split-cons c s in
    elim (Bool-cases (a == c)) [
      | inl same ↦ ([], split c s, rw same refl)
      | inr differs ↦ (a ∷ part, parts, rw (differs, found) refl)
    ]

join-split : (c : ℕ) (s : Text) → join c (split c s) ≡ s
unfolding join split
join-split c [] = refl
join-split c (a ∷ s) =
    let (part, parts, found) = split-cons c s in
    let joined = rw found at (join-split c s) in
    elim (Bool-cases (a == c)) [
      | inl same ↦ rw (same, found, joined) (ground arith)
      | inr differs ↦ rw (differs, found, join-cons_head c a part parts, joined) refl
    ]

lower_char_idempotent : (c : ℕ) → lower_char (lower_char c) ≡ lower_char c
lower_char_idempotent c = ground arith

is_whitespace-lower_char : (c : ℕ) → is_whitespace (lower_char c) ≡ is_whitespace c
unfolding is_whitespace
is_whitespace-lower_char c = ground arith

to_lowercase_idempotent : (s : Text) → to_lowercase (to_lowercase s) ≡ to_lowercase s
unfolding to_lowercase
to_lowercase_idempotent [] = refl
to_lowercase_idempotent (c ∷ s) = rw (lower_char_idempotent c, to_lowercase_idempotent s) refl

trim_start-to_lowercase : (s : Text) → trim_start (to_lowercase s) ≡ to_lowercase (trim_start s)
unfolding to_lowercase trim_start
trim_start-to_lowercase [] = refl
trim_start-to_lowercase (c ∷ s) = elim (Bool-cases (is_whitespace c)) [
  | inl blank ↦ rw (is_whitespace-lower_char c, blank) (trim_start-to_lowercase s)
  | inr solid ↦ rw (is_whitespace-lower_char c, solid) refl
]

is_empty-to_lowercase : (s : Text) → is_empty (to_lowercase s) ≡ is_empty s
unfolding to_lowercase
is_empty-to_lowercase [] = refl
is_empty-to_lowercase (c ∷ s) = refl

trim_end-to_lowercase : (s : Text) → trim_end (to_lowercase s) ≡ to_lowercase (trim_end s)
unfolding to_lowercase trim_end
trim_end-to_lowercase [] = refl
trim_end-to_lowercase (c ∷ s) =
    rw (is_whitespace-lower_char c, trim_end-to_lowercase s, is_empty-to_lowercase (trim_end s))
      (elim (Bool-cases (is_whitespace c && is_empty (trim_end s))) [
        | inl gone ↦ rw gone refl
        | inr kept ↦ rw kept refl
      ])

trim_end_idempotent : (s : Text) → trim_end (trim_end s) ≡ trim_end s
unfolding trim_end
trim_end_idempotent [] = refl
trim_end_idempotent (c ∷ s) = elim (Bool-cases (is_whitespace c && is_empty (trim_end s))) [
  | inl gone ↦ rw gone refl
  | inr kept ↦ rw (kept, trim_end_idempotent s, kept) refl
]

trim_start_solid : (c : ℕ) (s : Text) → is_whitespace c ≡ false → trim_start (c ∷ s) ≡ c ∷ s
unfolding trim_start
trim_start_solid c s solid = rw solid refl

trim_end_solid : (c : ℕ) (s : Text) → is_whitespace c ≡ false → trim_end (c ∷ s) ≡ c ∷ trim_end s
unfolding trim_end
trim_end_solid c s solid = rw solid refl

trim_start-trim_end : (s : Text) → trim_start (trim_end (trim_start s)) ≡ trim_end (trim_start s)
unfolding trim_start trim_end
trim_start-trim_end [] = refl
trim_start-trim_end (c ∷ s) = elim (Bool-cases (is_whitespace c)) [
  | inl blank ↦ rw blank (trim_start-trim_end s)
  | inr solid ↦ rw (solid, trim_end_solid c s solid) (trim_start_solid c (trim_end s) solid)
]

-- The header as it is compared: trimmed and in lower case
abbrev pub normalised : Text → Text
normalised s = to_lowercase (trim s)

normalised_idempotent : (s : Text) → normalised (normalised s) ≡ normalised s
unfolding trim
normalised_idempotent s =
    rw
      (
        trim_start-to_lowercase (trim_end (trim_start s)),
        trim_start-trim_end s,
        trim_end-to_lowercase (trim_end (trim_start s)),
        trim_end_idempotent (trim_start s),
        to_lowercase_idempotent (trim_end (trim_start s)),
      )
      refl

has_next-nil : (parts : List Text) → has_next parts ≡ false → parts ≡ []
has_next-nil [] h = refl
has_next-nil (_ ∷ _) h = cc

-- The tests of `is_malformed` one by one: of ten that all fail, those that matter below
tests_fail :
    (a b c d e f g h i j : Bool)
    → (a || not b || not c || not d || not e || f || g || not h || not i || not j) ≡ false
    → (a ≡ false) × (b ≡ true) × (c ≡ true) × (f ≡ false) × (h ≡ true)
tests_fail a b c d e f g h i j fail = ground arith

none_some : {c : TraceContext} → none ≡ some c → ⊥
none_some h = cc

some_same : (a b : TraceContext) → some a ≡ some b → a ≡ b
some_same a b h = cc

formatted :
    (t v i p f : Text) (rest : List Text)
    → join b'-' (v ∷ i ∷ p ∷ f ∷ rest) ≡ t
    → rest ≡ []
    → v ≡ codes "00"
    → format_traceparent i p f ≡ t
unfolding join
formatted t v i p f rest joined last version = sym (sym joined ∙ rw (last, version) refl)

parse_parts-IsWellFormed :
    (t : Text) (parts : List Text) (c : TraceContext)
    → join b'-' parts ≡ t
    → parse_parts parts ≡ some c
    → (c.traceparent ≡ t)
      × (length c.trace_id ≡ 32)
      × (all is_ascii_hexdigit c.trace_id ≡ true)
      × (text_beq c.trace_id zero_trace_id ≡ false)
unfolding parse_parts is_malformed join
parse_parts-IsWellFormed t [] c joined parsed = cc
parse_parts-IsWellFormed t (v ∷ []) c joined parsed = cc
parse_parts-IsWellFormed t (v ∷ i ∷ []) c joined parsed = cc
parse_parts-IsWellFormed t (v ∷ i ∷ p ∷ []) c joined parsed = cc
parse_parts-IsWellFormed t (v ∷ i ∷ p ∷ f ∷ rest) c joined parsed =
    elim (Bool-cases (is_malformed v i p f rest)) [
      | inl bad ↦ absurd (none_some (rw bad at parsed))
      | inr good ↦
          let (last, version, sized, not_zero, digits) = tests_fail _ _ _ _ _ _ _ _ _ _ good in
          rw (sym (some_same _ c (rw good at parsed))) (
            formatted t v i p f rest joined (has_next-nil rest last) ((text_beq_iff v _).0 version),
            (==_iff (length i) 32).0 sized,
            digits,
            not_zero,
          )
    ]

parse_trace_context-normalised :
    (s t : Text) → s ≡ normalised t → parse_trace_context s ≡ parse_trace_context t
unfolding parse_trace_context
parse_trace_context-normalised s t whole = rw (whole, normalised_idempotent t) refl

-- A header that is accepted is passed on trimmed and in lower case, with a trace id of 32
-- hexadecimal digits that are not all 0, and what is passed on is accepted again with the same result.
pub parse_trace_context-normal :
    (t : Text) (c : TraceContext)
    → parse_trace_context t ≡ some c
    → (c.traceparent ≡ normalised t)
      × (length c.trace_id ≡ 32)
      × (all is_ascii_hexdigit c.trace_id ≡ true)
      × (text_beq c.trace_id zero_trace_id ≡ false)
      × (parse_trace_context c.traceparent ≡ some c)
unfolding parse_trace_context
parse_trace_context-normal t c parsed =
    let (whole, sized, digits, not_zero) =
      parse_parts-IsWellFormed (normalised t) (split b'-' (normalised t)) c
        (join-split b'-' (normalised t)) parsed in
    (whole, sized, digits, not_zero, parse_trace_context-normalised _ t whole ∙ parsed)
