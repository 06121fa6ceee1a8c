-- ===== src/Postgres.antt =====
-- internal/proxy/db/postgres_protocol.go and postgres_audit.go: what the proxy reads of the wire
-- protocol. The messages are those of pgproto3, by the fields that the proxy uses.
pub mod Audit
pub mod Cancel
use turjmp.Prelude.{
  ℕ, zero, suc, ◌+◌, ◌-◌, ◌*◌, ◌/◌, ◌%◌, ◌^◌, ◌≤◌, ◌<◌, ◌≡◌, refl, sym, ap, ◌∙◌, ◌≢◌, ◌↔◌, ◌⊎◌, inl,
  inr, Bool, true, false, not, ◌&&◌, ◌||◌, Option, none, some, List, [], ◌∷◌, ◌++◌, append-nil,
  append_assoc, arith, ltb, leb, ◌==◌, if◌then◌else◌, ltb→lt, lt→ltb, leb→le, ==_iff, ==_refl,
  Bool-cases, Option-cases, length, get_or, take, drop, replicate, slice, null, any, all, filter,
  find?, All, length-append, take-append_length, drop-append_length, length-take, length-drop,
  length-replicate, drop-append_add, get_or-append_add, slice-append_add, slice_middle, slice_at,
  ◌∈◌, ∈-append_left, ∈-append_right, ∈-append_cases, ∈-filter, filter-∈, any-∈, ∈-any,
  length-filter_split, null-length, find?-found, find?-append, find?-none, any-append, all-append,
  Text, Bytes, IsByte, codes, text_eq, text_eq→eq, text_eq_refl, text_eq_iff, le_bytes, le_value,
  le_value-le_bytes, length-le_bytes, le_bytes-IsByte,
}
use turjmp.Strings.{fields, to_lower, one_of}

pub data ℤ : Type 0 where
  pos negsuc : ℕ → ℤ

pub data FrontendMessage : Type 0 where
  query : Text → FrontendMessage
  parse : Text → Text → FrontendMessage
  -- The portal, then the statement.
  bind : Text → Text → FrontendMessage
  execute : Text → FrontendMessage
  close : ℕ → Text → FrontendMessage
  other_frontend : FrontendMessage

pub record ErrorResponse : Type 0 where
  pub code : Text
  pub message : Text

pub data BackendMessage : Type 0 where
  command_complete : Text → BackendMessage
  error_response : ErrorResponse → BackendMessage
  ready_for_query : BackendMessage
  other_backend : BackendMessage

-- The text of the error; the last one is the program's own.
unfoldable pub postgres_error : Text → ErrorResponse → Text
postgres_error default e =
    if not (null e.code) && not (null e.message)
    then e.code ++ (codes ": " ++ e.message)
    else if not (null e.message)
    then e.message
    else default

unfoldable pub digits_value : ℕ → Text → Option ℕ
digits_value acc [] = some acc
digits_value acc (c ∷ cs) =
    let rest = digits_value (10 * acc + (c - b'0')) cs in
    if leb b'0' c && leb c b'9' then rest else none

-- The magnitude of a text that is not empty.
unfoldable pub magnitude : Text → Option ℕ
unfolding digits_value
magnitude [] = none
magnitude (c ∷ cs) = digits_value 0 (c ∷ cs)

unfoldable pub positive_int64 : Option ℕ → Option ℤ
positive_int64 none = none
positive_int64 (some n) = if ltb n (2 ^ 63) then some (ℤ.pos n) else none

unfoldable pub negative_int64 : Option ℕ → Option ℤ
negative_int64 none = none
negative_int64 (some zero) = some (ℤ.pos 0)
negative_int64 (some (suc n)) = if ltb n (2 ^ 63) then some (ℤ.negsuc n) else none

-- `strconv.ParseInt(s, 10, 64)`
unfoldable pub parse_int64 : Text → Option ℤ
unfolding magnitude positive_int64 negative_int64
parse_int64 [] = none
parse_int64 (c ∷ cs) =
    if c == b'-'
    then negative_int64 (magnitude cs)
    else if c == b'+'
    then positive_int64 (magnitude cs)
    else positive_int64 (magnitude (c ∷ cs))

-- The last field that is a number.
unfoldable pub last_number : List Text → Option ℤ
last_number [] = none
last_number (f ∷ fs) = elim (last_number fs) [ some n ↦ some n | none ↦ parse_int64 f ]

unfoldable pub parse_postgres_rows_affected : Text → ℤ
unfolding last_number
parse_postgres_rows_affected tag = elim (last_number (fields tag)) [
  | some n ↦ n
  | none ↦ ℤ.negsuc 0
]

unfoldable pub is_postgres_protocol : Text → Bool
is_postgres_protocol protocol =
    one_of (to_lower protocol) (codes "postgres" ∷ codes "postgresql" ∷ [])
