-- ===== src/Rdp/Native/Session/Cleanup.antt =====
-- The clean-up when the native RDP proxy shuts down.
use turjmp.Prelude.{
  ℕ, ◌≤◌, ◌≡◌, refl, sym, ap, ◌∙◌, inl, inr, Bool, true, false, some, List, [], ◌∷◌, ◌++◌,
  append-nil, append_assoc, arith, ◌==◌, ==_iff, ==_refl, Bool-cases, filter, find?, All, ◌∈◌,
  ∈-filter, filter-∈, find?-found, Text,
}
use turjmp.Domain.{ok, Session}
use turjmp.Store.{Store}
use turjmp.Store.Rows.{audit}
use turjmp.Store.Sessions.{
  get_session, finish_row, finish_session_once, sort_ids, list_active_native_rdp_session_ids,
}
use turjmp.Reason.{sanitize_native_rdp_reason}
use turjmp.Rdp.Native.Session.{
  audit_native_rdp, finish_audited, finish_native, finish_session, SessionCleanupResult, finish_all,
  finish_active_sessions,
}
use turjmp.Store.Sessions.Ids.{NoDup, sort-∈, ∈-sort, NoDup-sort}
use mathlib.Core.List.{map}
use mathlib.Core.Path.{subst}
use turjmp.Rdp.Native.Session.Due.{
  ids, is_due, IsDueAt, Covered, due_open, find-open, finish_row-id, Covered-finish, IsDueAt-finish,
}

found_id :
    (id : ℕ) (rows : List Session) (row : Session)
    → find? (λ r. r.id == id) rows ≡ some row
    → row.id ≡ id
found_id id rows row h = ground (arith, find?-found (λ r. r.id == id) rows row h)

audited_sessions :
    (reason : Text) (s : Store) (row : Session) (changed : Bool)
    → (finish_audited reason s (row, changed)).sessions ≡ s.sessions
unfolding finish_audited audit_native_rdp audit
audited_sessions reason s row true = refl
audited_sessions reason s row false = refl

-- Ending a session that is due succeeds.
finish_due :
    (s : Store) (now id : ℕ) (reason : Text)
    → 1 ≤ id
    → IsDueAt s.sessions id
    → ((finish_session s now id reason).0.sessions ≡ map (finish_row now id []) s.sessions)
      × ((finish_session s now id reason).1
          ≡ ok (record {
            session_id = id;
            finished = true;
            reason = sanitize_native_rdp_reason reason;
          }))
unfolding finish_session finish_native get_session finish_session_once
finish_due s now id reason l (row, (f, d)) =
    let (native, unfinished) = due_open row d in
    let first = find-open id s.sessions row f unfinished in
    let same = finish_row-id now id [] row ∙ found_id id s.sessions row f in
    ground (
      arith,
      l,
      f,
      native,
      first,
      same,
      audited_sessions (sanitize_native_rdp_reason reason)
          (record s { sessions = map (finish_row now id []) s.sessions }) (finish_row now id [] row)
          true,
    )

finish_all-Covered :
    (s : Store) (now : ℕ) (reason : Text) (is : List ℕ) (so_far : SessionCleanupResult)
    → NoDup is
    → All (λ i. 1 ≤ i) is
    → All (IsDueAt s.sessions) is
    → Covered s.sessions is
    → ((finish_all s now reason is so_far).1
        ≡ ok (record so_far { finished = so_far.finished ++ is }))
      × Covered ((finish_all s now reason is so_far).0.sessions) []
unfolding finish_all
finish_all-Covered s now reason [] so_far n l d c = (rw (append-nil so_far.finished) refl, c)
finish_all-Covered s now reason (id ∷ is) so_far (new, n) (l, ls) (d, ds) c =
    let (after, result) = finish_due s now id reason l d in
    let more =
      finish_all-Covered ((finish_session s now id reason).0) now reason is
        (record so_far { finished = so_far.finished ++ id ∷ [] }) n ls
        (rw after (IsDueAt-finish now id s.sessions is new ds))
        (rw after (Covered-finish now id s.sessions is c)) in
    rw (result, finish_all, sym (append_assoc so_far.finished (id ∷ []) is)) more

ids-∈ :
    (x : ℕ) (rows : List Session) → x ∈ ids rows → (row : Session) × ((row ∈ rows) × (x ≡ row.id))
ids-∈ x [] m = absurd m
ids-∈ x (r ∷ rows) (inl e) = (r, (inl refl, e))
ids-∈ x (r ∷ rows) (inr m) = let (row, (n, e)) = ids-∈ x rows m in (row, (inr n, e))

∈-ids : (row : Session) (rows : List Session) → row ∈ rows → row.id ∈ ids rows
∈-ids row [] m = m
∈-ids row (r ∷ rows) (inl e) = inl (ap (λ (q : Session). q.id) e)
∈-ids row (r ∷ rows) (inr m) = inr (∈-ids row rows m)

NoDup-filter : (rows : List Session) → NoDup (ids rows) → NoDup (ids (filter is_due rows))
NoDup-filter [] d = tt
NoDup-filter (r ∷ rows) (n, d) = elim (Bool-cases (is_due r)) [
  | inl e ↦ rw e (
    (λ m.
        let (row, (k, q)) = ids-∈ r.id (filter is_due rows) m in
        n (rw q (∈-ids row rows (filter-∈ is_due row rows k).0))),
    NoDup-filter rows d,
  )
  | inr e ↦ rw e (NoDup-filter rows d)
]

find-∈ :
    (rows : List Session) (row : Session)
    → NoDup (ids rows)
    → row ∈ rows
    → find? (λ r. r.id == row.id) rows ≡ some row
find-∈ [] row d m = absurd m
find-∈ (r ∷ rows) row (n, d) (inl e) = rw (sym e, ==_refl row.id) refl
find-∈ (r ∷ rows) row (n, d) (inr m) = elim (Bool-cases (r.id == row.id)) [
  | inl e ↦ absurd (n (rw ((==_iff r.id row.id).0 e) (∈-ids row rows m)))
  | inr e ↦ ground (arith, e, find-∈ rows row d m)
]

All-∈ : (P : ℕ → Type 0) (x : ℕ) (xs : List ℕ) → All P xs → x ∈ xs → P x
All-∈ P x [] h m = absurd m
All-∈ P x (y ∷ ys) h (inl e) = subst P (sym e) h.0
All-∈ P x (y ∷ ys) h (inr m) = All-∈ P x ys h.1 m

All-due :
    (rows : List Session) (is : List ℕ)
    → NoDup (ids rows)
    → All (λ i. 1 ≤ i) (ids rows)
    → ((i : ℕ) → i ∈ is → i ∈ ids (filter is_due rows))
    → All (λ i. 1 ≤ i) is × All (IsDueAt rows) is
All-due rows [] d l h = (tt, tt)
All-due rows (i ∷ is) d l h =
    let (row, (m, e)) = ids-∈ i (filter is_due rows) (h i (inl refl)) in
    let (there, due) = filter-∈ is_due row rows m in
    let (ls, ds) = All-due rows is d l (λ j k. h j (inr k)) in
    (
      (All-∈ (λ k. 1 ≤ k) i (ids rows) l (rw e (∈-ids row rows there)), ls),
      ((row, (rw e (find-∈ rows row d there), due)), ds),
    )

none_due : (rows : List Session) → Covered rows [] → filter is_due rows ≡ []
none_due [] h = refl
none_due (r ∷ rows) h = elim (Bool-cases (is_due r)) [
  | inl e ↦ absurd (h r (inl refl) e)
  | inr e ↦ rw e (none_due rows (λ row m. h row (inr m)))
]

-- With the ids of the table positive and all different, the clean-up ends every native RDP session that
-- was active, without an error and in the order of the ids; none is active after it.
pub finish_active_sessions_lem :
    (s : Store) (now : ℕ) (reason : Text)
    → NoDup (ids s.sessions)
    → All (λ i. 1 ≤ i) (ids s.sessions)
    → ((finish_active_sessions s now reason).1
        ≡ ok (record {
          reason = sanitize_native_rdp_reason reason;
          finished = list_active_native_rdp_session_ids s;
          skipped = [];
        }))
      × (list_active_native_rdp_session_ids ((finish_active_sessions s now reason).0) ≡ [])
unfolding finish_active_sessions list_active_native_rdp_session_ids sort_ids
finish_active_sessions_lem s now reason d l =
    let listed = ids (filter is_due s.sessions) in
    let (ls, ds) = All-due s.sessions (sort_ids listed) d l (λ i m. sort-∈ i listed m) in
    let kept = sanitize_native_rdp_reason reason in
    let (result, none_left) =
      finish_all-Covered s now kept (sort_ids listed)
        (record { reason = kept; finished = []; skipped = [] })
        (NoDup-sort listed (NoDup-filter s.sessions d)) ls ds
        (λ row m due.
          ∈-sort row.id listed
            (∈-ids row (filter is_due s.sessions) (∈-filter is_due row s.sessions m due))) in
    (result, rw (none_due _ none_left) refl)
