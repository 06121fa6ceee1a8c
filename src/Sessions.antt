-- ===== src/Sessions.antt =====
-- internal/service/sessions.go.
use turjmp.Prelude.{
  ℕ, ◌≡◌, refl, sym, ap, ◌∙◌, inl, inr, Bool, true, none, some, List, [], ◌∷◌, arith, ◌==◌,
  if◌then◌else◌, ==_refl, Bool-cases, Option-cases, null, find?, find?-found, Text, codes,
}
use turjmp.Domain.{Result, ok, err, Session}
use turjmp.Store.{Store}
use turjmp.Store.Sessions.{create_session, get_session, update_row, update_session}
use mathlib.Core.List.{map}
use mathlib.Core.Path.{subst}

unfoldable pub create : Store → Session → Store × Session
create s sess = create_session s (record sess {
  kind = if null sess.kind then codes "normal" else sess.kind;
  login_from = if null sess.login_from then codes "WT" else sess.login_from;
})

unfoldable pub finish : Store → ℕ → ℕ → Text → Store × Result Session
finish s now id recording_path = elim (get_session s id) [
  | err e ↦ (s, err e)
  | ok sess ↦
      update_session s
        (record sess { is_finished = true; date_end = some now; recording_path = recording_path })
]

-- The session as `Update` leaves it.
unfoldable pub updated : ℕ → Bool → Text → Session → Session
updated now finished recording_path sess = record sess {
  is_finished = finished;
  date_end = elim sess.date_end [ some d ↦ some d | none ↦ if finished then some now else none ];
  recording_path = if null recording_path then sess.recording_path else recording_path;
}

unfoldable pub update : Store → ℕ → ℕ → Bool → Text → Store × Result Session
unfolding updated
update s now id finished recording_path = elim (get_session s id) [
  | err e ↦ (s, err e)
  | ok sess ↦ update_session s (updated now finished recording_path sess)
]

unfoldable pub force_finish : Store → ℕ → ℕ → Store × Result Session
unfolding update
force_finish s now id = update s now id true []

update_row-id : (x row : Session) → (update_row x row).id ≡ row.id
unfolding update_row
update_row-id x row = ground arith

find-update :
    (x : Session) (id : ℕ) (rows : List Session) (row : Session)
    → find? (λ r. r.id == id) rows ≡ some row
    → find? (λ r. r.id == id) (map (update_row x) rows) ≡ some (update_row x row)
find-update x id [] row h = absurd (cc h)
find-update x id (r ∷ rows) row h = elim (Bool-cases (r.id == id)) [
  | inl e ↦ ground (arith, e, h, update_row-id x r)
  | inr e ↦
      ground (arith, e, h, update_row-id x r, find-update x id rows row (ground (arith, e, h)))
]

row_id : (s : Store) (id : ℕ) (row : Session) → get_session s id ≡ ok row → row.id ≡ id
unfolding get_session
row_id s id row h = elim (Option-cases (find? (λ r. r.id == id) s.sessions)) [
  | inl e ↦ absurd (ground (arith, e, h))
  | inr (r, e) ↦ ground (arith, e, h, find?-found (λ q. q.id == id) s.sessions r e)
]

get_session-update :
    (s : Store) (x row : Session)
    → get_session s x.id ≡ ok row
    → get_session ((update_session s x).0) x.id ≡ ok (update_row x row)
unfolding update_session get_session
get_session-update s x row h = elim (Option-cases (find? (λ r. r.id == x.id) s.sessions)) [
  | inl e ↦ absurd (ground (arith, e, h))
  | inr (r, e) ↦ ground (arith, e, h, find-update x x.id s.sessions r e)
]

updated-stored :
    (now : ℕ) (row : Session) → update_row (updated now true [] row) row ≡ updated now true [] row
unfolding update_row updated
updated-stored now row = ground (arith, ==_refl row.id)

update_session-row :
    (s : Store) (x : Session) → (update_session s x).1 ≡ get_session ((update_session s x).0) x.id
unfolding update_session
update_session-row s x = refl

stored_updated :
    (s : Store) (now : ℕ) (row : Session)
    → get_session s row.id ≡ ok row
    → get_session ((update_session s (updated now true [] row)).0) row.id
      ≡ ok (updated now true [] row)
unfolding updated
stored_updated s now row h =
    get_session-update s (updated now true [] row) row h ∙ ap ok (updated-stored now row)

-- An administrator who ends a session gets it back as ended, with the end time that it had or the
-- time of the call, and with its recording; the table then has the session in that form.
force_finish_lem :
    (s : Store) (now id : ℕ) (row : Session)
    → get_session s id ≡ ok row
    → ((force_finish s now id).1 ≡ ok (updated now true [] row))
      × (get_session ((force_finish s now id).0) id ≡ ok (updated now true [] row))
unfolding force_finish update
force_finish_lem s now id row h =
    let e = row_id s id row h in
    let stored = stored_updated s now row (subst (λ i. get_session s i ≡ ok row) (sym e) h) in
    let answer : (update_session s (updated now true [] row)).1 ≡ ok (updated now true [] row) =
      update_session-row s (updated now true [] row) ∙ (unfold updated in stored) in
    let kept =
      subst
        (λ i.
          get_session ((update_session s (updated now true [] row)).0) i
          ≡ ok (updated now true [] row))
        e stored in
    ground (arith, h, answer, kept)
