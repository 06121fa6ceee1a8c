-- ===== src/Store/Sessions/Finish.antt =====
-- The end of a session.
use turjmp.Prelude.{
  ℕ, ◌≡◌, refl, inl, inr, true, false, not, ◌&&◌, none, List, [], ◌∷◌, arith, ◌==◌, Option-cases,
  find?, Text,
}
use turjmp.Domain.{ok, ◌>>=◌, Session}
use turjmp.Store.{Store}
use turjmp.Store.Sessions.{get_session, finish_row, finish_session_once}
use mathlib.Core.List.{map}

none_active :
    (now id : ℕ) (path : Text) (rows : List Session)
    → find? (λ row. row.id == id && not row.is_finished) (map (finish_row now id path) rows) ≡ none
unfolding finish_row
none_active now id path [] = refl
none_active now id path (row ∷ rows) = ground (arith, none_active now id path rows)

after_finish :
    (s : Store) (now id : ℕ) (path : Text) (row : Session)
    → (finish_session_once s now id path).1 ≡ ok (row, true)
    → (finish_session_once s now id path).0
      ≡ record s { sessions = map (finish_row now id path) s.sessions }
unfolding finish_session_once get_session
after_finish s now id path row h =
    elim (Option-cases (find? (λ r. r.id == id && not r.is_finished) s.sessions)) [
      | inl e ↦ elim (Option-cases (find? (λ r. r.id == id) s.sessions)) [
        | inl f ↦ absurd (ground (arith, e, f, h))
        | inr (r, f) ↦ absurd (ground (arith, e, f, h))
      ]
      | inr (r, e) ↦ ground (arith, e)
    ]

none_finished :
    (s : Store) (now id : ℕ) (path : Text)
    → find? (λ r. r.id == id && not r.is_finished) s.sessions ≡ none
    → (finish_session_once s now id path ≡ (s, get_session s id >>= λ row. ok (row, false)))
unfolding finish_session_once
none_finished s now id path e = ground (arith, e)

-- Whoever ends a session first settles its end time and its recording: a second call changes nothing,
-- and gives the row as it is, with the word that this call did not end the session.
pub finish_once :
    (s : Store) (now now' id : ℕ) (path path' : Text) (row : Session)
    → (finish_session_once s now id path).1 ≡ ok (row, true)
    → finish_session_once ((finish_session_once s now id path).0) now' id path' ≡ (
      (finish_session_once s now id path).0,
      get_session ((finish_session_once s now id path).0) id >>= λ again. ok (again, false),
    )
finish_once s now now' id path path' row h =
    let after = after_finish s now id path row h in
    rw after (none_finished _ now' id path' (none_active now id path s.sessions))
