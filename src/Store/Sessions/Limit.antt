-- ===== src/Store/Sessions/Limit.antt =====
-- The limit on the active sessions of one protocol and origin.
use turjmp.Prelude.{
  ℕ, ◌+◌, ◌≤◌, ◌<◌, ◌≡◌, refl, sym, ◌⊎◌, inl, inr, Bool, true, false, not, ◌&&◌, List, [], ◌∷◌,
  ◌++◌, arith, ltb, ◌==◌, if◌then◌else◌, ltb→lt, Bool-cases, Option-cases, length, filter, find?,
  All, find?-found, Text, text_eq,
}
use turjmp.Domain.{Session}
use turjmp.Store.{Store}
use turjmp.Store.Sessions.{
  create_session, is_active_like, active_count, create_session_under_active_limit, finish_row,
  finish_session_once,
}
use turjmp.Store.Sessions.{get_session, update_row, update_session}
use turjmp.Domain.{ok}
use turjmp.Domain.Bind.{Result-cases}
use turjmp.Sessions
use mathlib.Core.Path.{subst}
use mathlib.Core.List.{map}

-- No session with the id has ended.
abbrev pub IsOpen : ℕ → List Session → Type 0
IsOpen id = All (λ (row : Session). row.id ≡ id → row.is_finished ≡ false)

-- The ways in which the tables change: a start under the limit, the start of a session of another
-- protocol or origin, each way of ending a session, an update that leaves an open session open, and
-- whatever leaves the table of sessions alone. Not among them are the start of a session of the same
-- protocol and origin past the limit, and an update that opens an ended session again.
pub data SessionStep (protocol login_from : Text) (limit : ℕ) : Store → Store → Type 0 where
  start :
      (s : Store) (sess : Session)
      → sess.protocol ≡ protocol
      → sess.login_from ≡ login_from
      → SessionStep protocol login_from limit s ((create_session_under_active_limit s sess limit).0)
  start_other :
      (s : Store) (sess : Session)
      → (text_eq sess.protocol protocol && text_eq sess.login_from login_from) ≡ false
      → SessionStep protocol login_from limit s ((create_session s sess).0)
  finish_once :
      (s : Store) (now id : ℕ) (recording_path : Text)
      → SessionStep protocol login_from limit s ((finish_session_once s now id recording_path).0)
  finish :
      (s : Store) (now id : ℕ) (recording_path : Text)
      → SessionStep protocol login_from limit s ((Sessions.finish s now id recording_path).0)
  force_finish :
      (s : Store) (now id : ℕ)
      → SessionStep protocol login_from limit s ((Sessions.force_finish s now id).0)
  update_ended :
      (s : Store) (now id : ℕ) (recording_path : Text)
      → SessionStep protocol login_from limit s ((Sessions.update s now id true recording_path).0)
  update_open :
      (s : Store) (now id : ℕ) (recording_path : Text)
      → IsOpen id s.sessions
      → SessionStep protocol login_from limit s ((Sessions.update s now id false recording_path).0)
  elsewhere : (s t : Store) → t.sessions ≡ s.sessions → SessionStep protocol login_from limit s t

pub data SessionSteps (protocol login_from : Text) (limit : ℕ) : Store → Store → Type 0 where
  stay : (s : Store) → SessionSteps protocol login_from limit s s
  next :
      (s t u : Store)
      → SessionStep protocol login_from limit s t
      → SessionSteps protocol login_from limit t u
      → SessionSteps protocol login_from limit s u

count-append :
    (p : Session → Bool) (rows : List Session) (row : Session)
    → length (filter p (rows ++ row ∷ [])) ≡ length (filter p rows) + (if p row then 1 else 0)
count-append p [] row = ground arith
count-append p (r ∷ rows) row = ground (arith, count-append p rows row)

finish_row-inactive :
    (protocol login_from : Text) (now id : ℕ) (path : Text) (row : Session)
    → is_active_like protocol login_from row ≡ false
    → is_active_like protocol login_from (finish_row now id path row) ≡ false
unfolding is_active_like finish_row
finish_row-inactive protocol login_from now id path row h = ground (arith, h)

count-finish :
    (protocol login_from : Text) (now id : ℕ) (path : Text) (rows : List Session)
    → active_count protocol login_from (map (finish_row now id path) rows)
      ≤ active_count protocol login_from rows
unfolding active_count
count-finish protocol login_from now id path [] = omega arith
count-finish protocol login_from now id path (row ∷ rows) = ground (
  arith,
  finish_row-inactive protocol login_from now id path row,
  count-finish protocol login_from now id path rows,
)

-- The cap that a limit stands for.
abbrev pub cap : ℕ → ℕ
cap limit = if limit == 0 then 1 else limit

active_count-append :
    (protocol login_from : Text) (rows : List Session) (row : Session)
    → active_count protocol login_from (rows ++ row ∷ [])
      ≤ active_count protocol login_from rows + 1
unfolding active_count
active_count-append protocol login_from rows row =
    ground (arith, count-append (is_active_like protocol login_from) rows row)

active_count-other :
    (protocol login_from : Text) (rows : List Session) (row : Session)
    → (text_eq row.protocol protocol && text_eq row.login_from login_from) ≡ false
    → active_count protocol login_from (rows ++ row ∷ []) ≡ active_count protocol login_from rows
unfolding active_count is_active_like
active_count-other protocol login_from rows row h =
    ground (arith, h, count-append (is_active_like protocol login_from) rows row)

-- A row that takes over the values of an ended session, or of an open one if it is open itself.
update_row-inactive :
    (protocol login_from : Text) (x row : Session)
    → (x.is_finished ≡ true) ⊎ (row.id ≡ x.id → row.is_finished ≡ false)
    → is_active_like protocol login_from row ≡ false
    → is_active_like protocol login_from (update_row x row) ≡ false
unfolding is_active_like update_row
update_row-inactive protocol login_from x row (inl e) h = ground (arith, e, h)
update_row-inactive protocol login_from x row (inr o) h = elim (Bool-cases (row.id == x.id)) [
  | inl e ↦ ground (arith, e, h, o)
  | inr e ↦ rw e h
]

count-update :
    (protocol login_from : Text) (x : Session) (rows : List Session)
    → (x.is_finished ≡ true) ⊎ (IsOpen x.id rows)
    → active_count protocol login_from (map (update_row x) rows)
      ≤ active_count protocol login_from rows
unfolding active_count
count-update protocol login_from x [] o = omega arith
count-update protocol login_from x (row ∷ rows) (inl e) = ground (
  arith,
  update_row-inactive protocol login_from x row (inl e),
  count-update protocol login_from x rows (inl e),
)
count-update protocol login_from x (row ∷ rows) (inr (o, os)) = ground (
  arith,
  update_row-inactive protocol login_from x row (inr o),
  count-update protocol login_from x rows (inr os),
)

update_session-limit :
    (protocol login_from : Text) (limit : ℕ) (s : Store) (x : Session)
    → (x.is_finished ≡ true) ⊎ (IsOpen x.id s.sessions)
    → active_count protocol login_from s.sessions ≤ cap limit
    → active_count protocol login_from (update_session s x).0.sessions ≤ cap limit
unfolding update_session
update_session-limit protocol login_from limit s x o h =
    ground (arith, h, count-update protocol login_from x s.sessions o)

found_id : (s : Store) (id : ℕ) (row : Session) → get_session s id ≡ ok row → row.id ≡ id
unfolding get_session
found_id s id row h = elim (Option-cases (find? (λ r. r.id == id) s.sessions)) [
  | inl e ↦ absurd (ground (arith, e, h))
  | inr (r, e) ↦ ground (arith, e, h, find?-found (λ q. q.id == id) s.sessions r e)
]

finish-limit :
    (protocol login_from : Text) (limit : ℕ) (s : Store) (now id : ℕ) (path : Text)
    → active_count protocol login_from s.sessions ≤ cap limit
    → active_count protocol login_from (Sessions.finish s now id path).0.sessions ≤ cap limit
unfolding Sessions.finish
finish-limit protocol login_from limit s now id path h = elim (Result-cases (get_session s id)) [
  | inl (e, f) ↦ rw (f, Sessions.finish) h
  | inr (row, f) ↦
      rw (f, Sessions.finish) (update_session-limit protocol login_from limit s _ (inl refl) h)
]

update-limit :
    (protocol login_from : Text) (limit : ℕ) (s : Store) (now id : ℕ) (finished : Bool)
    (path : Text)
    → (finished ≡ true) ⊎ (IsOpen id s.sessions)
    → active_count protocol login_from s.sessions ≤ cap limit
    → active_count protocol login_from (Sessions.update s now id finished path).0.sessions
      ≤ cap limit
unfolding Sessions.update Sessions.updated
update-limit protocol login_from limit s now id finished path o h =
    elim (Result-cases (get_session s id)) [
      | inl (e, f) ↦ rw (f, Sessions.update) h
      | inr (row, f) ↦
          let same = found_id s id row f in
          rw (f, Sessions.update)
            (update_session-limit protocol login_from limit s
              (Sessions.updated now finished path row)
              (elim o [
                | inl e ↦ inl e
                | inr os ↦ inr (subst (λ i. IsOpen i s.sessions) (sym same) os)
              ])
              h)
    ]

pub SessionStep-limit :
    (protocol login_from : Text) (limit : ℕ) (s t : Store)
    → SessionStep protocol login_from limit s t
    → active_count protocol login_from s.sessions ≤ cap limit
    → active_count protocol login_from t.sessions ≤ cap limit
unfolding create_session_under_active_limit create_session finish_session_once
SessionStep-limit protocol login_from limit _ _ (SessionStep.start s sess hp hl) h =
    elim (Bool-cases (ltb (active_count sess.protocol sess.login_from s.sessions) (cap limit))) [
      | inl e ↦
          let room : active_count protocol login_from s.sessions < cap limit =
            ltb→lt _ _ (rw (sym hp, sym hl) e) in
          rw e (
            ground (
              arith,
              room,
              active_count-append protocol login_from s.sessions ((create_session s sess).1),
            ))
      | inr e ↦ rw e h
    ]
SessionStep-limit protocol login_from limit _ _ (SessionStep.start_other s sess other) h =
    rw (active_count-other protocol login_from s.sessions ((create_session s sess).1) other) h
SessionStep-limit protocol login_from limit _ _ (SessionStep.finish_once s now id path) h =
    elim (Option-cases (find? (λ row. row.id == id && not row.is_finished) s.sessions)) [
      | inl e ↦ ground (arith, e, h)
      | inr (row, e) ↦ ground (arith, e, h, count-finish protocol login_from now id path s.sessions)
    ]
SessionStep-limit protocol login_from limit _ _ (SessionStep.finish s now id path) h =
    finish-limit protocol login_from limit s now id path h
SessionStep-limit protocol login_from limit _ _ (SessionStep.force_finish s now id) h =
    unfold Sessions.force_finish in
    update-limit protocol login_from limit s now id true [] (inl refl) h
SessionStep-limit protocol login_from limit _ _ (SessionStep.update_ended s now id path) h =
    update-limit protocol login_from limit s now id true path (inl refl) h
SessionStep-limit protocol login_from limit _ _ (SessionStep.update_open s now id path o) h =
    update-limit protocol login_from limit s now id false path (inr o) h
SessionStep-limit protocol login_from limit _ _ (SessionStep.elsewhere s t same) h = rw same h

-- As long as the sessions of one protocol and origin start under the limit, and no ended session is
-- opened again, those that are active at the same time never exceed the limit, or one if the limit is
-- not positive, however sessions of other kinds start and sessions are updated and ended.
pub active_count-limit :
    (protocol login_from : Text) (limit : ℕ) (s t : Store)
    → SessionSteps protocol login_from limit s t
    → active_count protocol login_from s.sessions ≤ cap limit
    → active_count protocol login_from t.sessions ≤ cap limit
active_count-limit protocol login_from limit _ _ (SessionSteps.stay s) h = h
active_count-limit protocol login_from limit _ _ (SessionSteps.next s t u step steps) h =
    active_count-limit protocol login_from limit t u steps
      (SessionStep-limit protocol login_from limit s t step h)
