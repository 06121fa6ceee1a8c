-- ===== src/Postgres/Audit.antt =====
-- postgres_audit.go: the state machine that finds the SQL text of each execution.
pub mod Order
pub mod Prepared
use turjmp.Prelude.{
  ℕ, zero, suc, ◌+◌, ◌-◌, ◌*◌, ◌/◌, ◌%◌, ◌^◌, ◌≤◌, ◌<◌, ◌≡◌, refl, sym, ap, ◌∙◌, ◌≢◌, ◌↔◌, ◌⊎◌, inl,
  inr, Bool, true, false, not, ◌&&◌, ◌||◌, Option, none, some, List, [], ◌∷◌, ◌++◌, append-nil,
  append_assoc, arith, ltb, leb, ◌==◌, if◌then◌else◌, ltb→lt, lt→ltb, leb→le, ==_iff, ==_refl,
  Bool-cases, Option-cases, length, get_or, take, drop, replicate, slice, null, any, all, filter,
  find?, All, length-append, take-append_length, drop-append_length, length-take, length-drop,
  length-replicate, drop-append_add, get_or-append_add, slice-append_add, slice_middle, slice_at,
  ◌∈◌, ∈-append_left, ∈-append_right, ∈-append_cases, ∈-filter, filter-∈, any-∈, ∈-any,
  length-filter_split, null-length, find?-found, find?-append, find?-none, any-append, all-append,
  Text, Bytes, IsByte, codes, text_eq, text_eq→eq, text_eq_refl, text_eq_iff, le_bytes, le_value,
  le_value-le_bytes, length-le_bytes, le_bytes-IsByte,
}
use turjmp.Postgres.{
  ℤ, FrontendMessage, BackendMessage, ErrorResponse, postgres_error, parse_postgres_rows_affected,
}

-- Go's map of texts: the latest binding of a key comes first.
abbrev pub Texts : Type 0
Texts = List (Text × Text)

-- `m[key]`, which is the empty text for a missing key.
unfoldable pub lookup : Text → Texts → Text
lookup key [] = []
lookup key ((k, v) ∷ m) = if text_eq k key then v else lookup key m

unfoldable pub delete : Text → Texts → Texts
delete key [] = []
delete key ((k, v) ∷ m) = let rest = delete key m in if text_eq k key then rest else (k, v) ∷ rest

unfoldable pub insert : Text → Text → Texts → Texts
unfolding delete
insert key value m = (key, value) ∷ delete key m

pub record PostgresAuditEvent : Type 0 where
  pub query : Text
  pub start : ℕ

-- What `audit` sends to the API about one statement.
pub record AuditEntry : Type 0 where
  pub query : Text
  pub duration : ℕ
  pub rows_affected : ℤ
  pub error : Option Text

pub record PostgresAuditState : Type 0 where
  pub prepared : Texts
  pub portals : Texts
  pub pending : List PostgresAuditEvent
  -- The entries sent so far, oldest first.
  pub audited : List AuditEntry

abbrev pub new_postgres_audit_state : PostgresAuditState
new_postgres_audit_state = record { prepared = []; portals = []; pending = []; audited = [] }

unfoldable pub begin_locked : PostgresAuditState → ℕ → Text → PostgresAuditState
begin_locked s now query = record s {
  pending = s.pending ++ record { query = query; start = now } ∷ [];
}

-- The SQL text that a portal runs.
unfoldable pub portal_query : PostgresAuditState → Text → Text
unfolding lookup
portal_query s portal =
    if null (lookup portal s.portals) then lookup [] s.prepared else lookup portal s.portals

unfoldable pub observe_frontend : PostgresAuditState → ℕ → FrontendMessage → PostgresAuditState
unfolding begin_locked portal_query insert
observe_frontend s now (FrontendMessage.query q) = begin_locked s now q
observe_frontend s now (FrontendMessage.parse name q) = record s {
  prepared = insert name q s.prepared;
}
observe_frontend s now (FrontendMessage.bind portal statement) =
    if null (lookup statement s.prepared)
    then s
    else record s { portals = insert portal (lookup statement s.prepared) s.portals }
observe_frontend s now (FrontendMessage.execute portal) =
    if null (portal_query s portal) then s else begin_locked s now (portal_query s portal)
observe_frontend s now (FrontendMessage.close kind name) =
    if kind == b'S'
    then record s { prepared = delete name s.prepared }
    else if kind == b'P'
    then record s { portals = delete name s.portals }
    else s
observe_frontend s now FrontendMessage.other_frontend = s

-- A millisecond in nanoseconds.
abbrev pub millisecond : ℕ
millisecond = 10 ^ 6

unfoldable pub audit_entry : ℕ → PostgresAuditEvent → ℤ → Option Text → AuditEntry
audit_entry now event rows_affected error = record {
  query = event.query;
  duration = if now - event.start == 0 then millisecond else now - event.start;
  rows_affected = rows_affected;
  error = error;
}

unfoldable pub finish_next : PostgresAuditState → ℕ → ℤ → Option Text → PostgresAuditState
unfolding audit_entry
finish_next s now rows_affected error = elim s.pending [
  | [] ↦ s
  | event ∷ rest ↦ record s {
    pending = rest;
    audited = s.audited ++ audit_entry now event rows_affected error ∷ [];
  }
]

unfoldable pub flushed : ℕ → List PostgresAuditEvent → List AuditEntry
unfolding audit_entry
flushed now [] = []
flushed now (event ∷ events) = audit_entry now event (ℤ.pos 0) none ∷ flushed now events

unfoldable pub flush_pending : PostgresAuditState → ℕ → PostgresAuditState
unfolding flushed
flush_pending s now = record s { pending = []; audited = s.audited ++ flushed now s.pending }

-- `unknown_error` is the program's text for an error with no message.
unfoldable pub observe_backend : Text → PostgresAuditState → ℕ → BackendMessage → PostgresAuditState
unfolding finish_next flush_pending
observe_backend unknown_error s now (BackendMessage.command_complete tag) =
    finish_next s now (parse_postgres_rows_affected tag) none
observe_backend unknown_error s now (BackendMessage.error_response e) =
    finish_next s now (ℤ.pos 0) (some (postgres_error unknown_error e))
observe_backend unknown_error s now BackendMessage.ready_for_query = flush_pending s now
observe_backend unknown_error s now BackendMessage.other_backend = s
