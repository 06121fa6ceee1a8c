-- ===== src/Store/Sessions.antt =====
-- The sessions of store.go.
pub mod Limit
pub mod Finish
pub mod Ids
use turjmp.Prelude.{
  ℕ, zero, suc, ◌+◌, ◌-◌, ◌*◌, ◌/◌, ◌%◌, ◌^◌, ◌≤◌, ◌<◌, ◌≡◌, refl, sym, ap, ◌∙◌, ◌≢◌, ◌↔◌, ◌⊎◌, inl,
  inr, Bool, true, false, not, ◌&&◌, ◌||◌, Option, none, some, List, [], ◌∷◌, ◌++◌, append-nil,
  append_assoc, arith, ltb, leb, ◌==◌, if◌then◌else◌, ltb→lt, lt→ltb, leb→le, ==_iff, ==_refl,
  Bool-cases, Option-cases, length, get_or, take, drop, replicate, slice, null, any, all, filter,
  find?, All, length-append, take-append_length, drop-append_length, length-take, length-drop,
  length-replicate, drop-append_add, get_or-append_add, slice-append_add, slice_middle, slice_at,
  Text, Bytes, IsByte, codes, text_eq, text_eq→eq, text_eq_refl, text_eq_iff, le_bytes, le_value,
  le_value-le_bytes, length-le_bytes, le_bytes-IsByte,
}
use turjmp.Domain.{Result, ok, err, found, Session, ◌>>=◌}
use turjmp.Store.{Store}
use mathlib.Core.List.{map}

-- The id that the database gives the next row: one more than any so far.
unfoldable pub next_session_id : List Session → ℕ
next_session_id [] = 1
next_session_id (row ∷ rows) =
    let n = next_session_id rows in if ltb row.id n then n else suc row.id

unfoldable pub create_session : Store → Session → Store × Session
unfolding next_session_id
create_session s sess =
    let row = record sess { id = next_session_id s.sessions } in
    (record s { sessions = s.sessions ++ row ∷ [] }, row)

unfoldable pub is_active_like : Text → Text → Session → Bool
is_active_like protocol login_from row =
    not row.is_finished && (text_eq row.protocol protocol && text_eq row.login_from login_from)

unfoldable pub active_count : Text → Text → List Session → ℕ
unfolding is_active_like
active_count protocol login_from rows = length (filter (is_active_like protocol login_from) rows)

-- The Boolean says whether a row was inserted. `limit` is 0 for any limit that is not positive.
unfoldable pub create_session_under_active_limit : Store → Session → ℕ → Store × (Session × Bool)
unfolding create_session active_count
create_session_under_active_limit s sess limit =
    let cap = if limit == 0 then 1 else limit in
    if ltb (active_count sess.protocol sess.login_from s.sessions) cap
    then ((create_session s sess).0, ((create_session s sess).1, true))
    else (s, (sess, false))

unfoldable pub get_session : Store → ℕ → Result Session
get_session s id = found (find? (λ row. row.id == id) s.sessions)

-- UPDATE sessions SET is_finished, date_end, recording_path WHERE id = … RETURNING *
unfoldable pub update_row : Session → Session → Session
update_row sess row =
    if row.id == sess.id
    then record row {
      is_finished = sess.is_finished;
      date_end = sess.date_end;
      recording_path = sess.recording_path;
    }
    else row

unfoldable pub update_session : Store → Session → Store × Result Session
unfolding update_row get_session
update_session s sess =
    let after = record s { sessions = map (update_row sess) s.sessions } in
    (after, get_session after sess.id)

unfoldable pub finish_row : ℕ → ℕ → Text → Session → Session
finish_row now id recording_path row =
    if row.id == id && not row.is_finished
    then record row {
      is_finished = true;
      date_end = elim row.date_end [ none ↦ some now | some d ↦ some d ];
      recording_path = if null recording_path then row.recording_path else recording_path;
    }
    else row

-- The Boolean says whether this call finished the session.
unfoldable pub finish_session_once : Store → ℕ → ℕ → Text → Store × Result (Session × Bool)
unfolding finish_row get_session
finish_session_once s now id recording_path =
    let after = record s { sessions = map (finish_row now id recording_path) s.sessions } in
    elim (find? (λ row. row.id == id && not row.is_finished) s.sessions) [
      | none ↦ (s, (get_session s id >>= λ row. ok (row, false)))
      | some row ↦ (after, ok (finish_row now id recording_path row, true))
    ]

unfoldable pub insert_id : ℕ → List ℕ → List ℕ
insert_id i [] = i ∷ []
insert_id i (j ∷ js) = let rest = insert_id i js in if leb i j then i ∷ j ∷ js else j ∷ rest

unfoldable pub sort_ids : List ℕ → List ℕ
unfolding insert_id
sort_ids [] = []
sort_ids (i ∷ is) = insert_id i (sort_ids is)

unfoldable pub list_active_native_rdp_session_ids : Store → List ℕ
unfolding sort_ids is_active_like
list_active_native_rdp_session_ids s = sort_ids (
    map (λ row. row.id)
      (filter
        (λ row.
          is_active_like (codes "rdp") (codes "rdp_client") row && text_eq row.kind (codes "rdp"))
        s.sessions))
