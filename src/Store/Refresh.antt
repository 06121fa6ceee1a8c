-- ===== src/Store/Refresh.antt =====
-- The users' roles and refresh tokens of store.go.
pub mod Rotation
use turjmp.Prelude.{
  ℕ, zero, suc, ◌+◌, ◌-◌, ◌*◌, ◌/◌, ◌%◌, ◌^◌, ◌≤◌, ◌<◌, ◌≡◌, refl, sym, ap, ◌∙◌, ◌≢◌, ◌↔◌, ◌⊎◌, inl,
  inr, Bool, true, false, not, ◌&&◌, ◌||◌, Option, none, some, List, [], ◌∷◌, ◌++◌, append-nil,
  append_assoc, arith, ltb, leb, ◌==◌, if◌then◌else◌, ltb→lt, lt→ltb, leb→le, ==_iff, ==_refl,
  Bool-cases, Option-cases, length, get_or, take, drop, replicate, slice, null, any, all, filter,
  find?, All, length-append, take-append_length, drop-append_length, length-take, length-drop,
  length-replicate, drop-append_add, get_or-append_add, slice-append_add, slice_middle, slice_at,
  ◌∈◌, ∈-append_left, ∈-append_right, ∈-append_cases, ∈-filter, filter-∈, any-∈, ∈-any,
  length-filter_split, null-length, find?-found, find?-append, find?-none, any-append, all-append,
  Text, Bytes, IsByte, codes, text_eq, text_eq→eq, text_eq_refl, text_eq_iff, le_bytes, le_value,
  le_value-le_bytes, length-le_bytes, le_bytes-IsByte,
}
use turjmp.Domain.{Error, Result, ok, err, found, User, RefreshToken, Role}
use turjmp.Store.{Store, Link}
use turjmp.Store.Permission.{linked}
use mathlib.Core.List.{map}

unfoldable pub user_role_names : Store → ℕ → List Text
unfolding linked
user_role_names s user_id =
    map (λ r. r.name) (filter (λ r. linked s.user_roles user_id r.id) s.roles)

unfoldable pub touch_user_login : Store → ℕ → ℕ → Store
touch_user_login s now user_id = record s {
  users = map (λ u. if u.id == user_id then record u { last_login_at = some now } else u) s.users;
}

-- The columns `id` and `token_hash` are unique.
unfoldable pub create_refresh_token : Store → RefreshToken → Store × Result (Unit {0})
create_refresh_token s t =
    if any (λ row. text_eq row.id t.id || text_eq row.token_hash t.token_hash) s.refresh_tokens
    then (s, err Error.other)
    else (record s { refresh_tokens = s.refresh_tokens ++ t ∷ [] }, ok tt)

unfoldable pub get_refresh_token_by_hash : Store → Text → Result RefreshToken
get_refresh_token_by_hash s hash =
    found (find? (λ row. text_eq row.token_hash hash) s.refresh_tokens)

unfoldable pub is_live : RefreshToken → Bool
is_live row = elim row.revoked_at [ none ↦ true | some at ↦ false ]

unfoldable pub revoke_row : ℕ → (RefreshToken → Bool) → RefreshToken → RefreshToken
unfolding is_live
revoke_row now p row = if p row && is_live row then record row { revoked_at = some now } else row

-- An UPDATE that must change one row.
unfoldable pub revoke_refresh_token : Store → ℕ → Text → Store × Result (Unit {0})
unfolding revoke_row is_live
revoke_refresh_token s now id = (
  record s { refresh_tokens = map (revoke_row now (λ row. text_eq row.id id)) s.refresh_tokens },
  (if length (filter (λ row. text_eq row.id id && is_live row) s.refresh_tokens) == 1
      then ok tt
      else err Error.unauthorized),
)

unfoldable pub revoke_user_refresh_tokens : Store → ℕ → ℕ → Store
unfolding revoke_row
revoke_user_refresh_tokens s now user_id = record s {
  refresh_tokens = map (revoke_row now (λ row. row.user_id == user_id)) s.refresh_tokens;
}
