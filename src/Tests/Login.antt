-- ===== src/Tests/Login.antt =====
-- Logins, inherited permissions and sessions.
use turjmp.Prelude.{◌≤◌, ◌≡◌, refl, ◌↔◌, true, false, some, [], ◌∷◌, arith, ◌∈◌, codes, text_eq}
use turjmp.Domain.{Error, ok, err, ◌>>=◌, User, Session}
use turjmp.Store.{Store, empty_store}
use turjmp.Store.Rows.{get_user, get_user_by_username}
use turjmp.Store.Refresh.{
  create_refresh_token, revoke_refresh_token, get_refresh_token_by_hash, user_role_names,
}
use turjmp.Store.Settings.{setting_bool}
use turjmp.Store.Refresh.Rotation.{IsUniqueHash, RefreshStep, RefreshSteps}
use turjmp.Store.Permission.{asset_nodes}
use turjmp.Store.Permission.Inherit.{IsAbove, asset_nodes_iff}
use turjmp.Store.Sessions.{
  get_session, create_session_under_active_limit, active_count, finish_session_once,
}
use turjmp.Store.Sessions.Limit.{SessionStep, SessionSteps, cap, active_count-limit}
use turjmp.Store.Sessions.Finish.{finish_once}
use turjmp.Strings.{trim_space}
use turjmp.Auth.{LoginResult, logged_in, login, refresh, mfa_required_key}
use turjmp.Auth.Login.{HasShown, login_sound}
use turjmp.Auth.Rotation.{refresh_once}
use turjmp.Sessions
use turjmp.Tests.World.{user, store, credentials, drawn, root, session}

abbrev touched : User
touched = record user { last_login_at = some 20 }

logs_in :
    (login credentials store 20 drawn (codes "ann") (codes "pw") (codes "123456")).1
    ≡ ok (logged_in false (codes "ann") (codes "two") user (codes "admin" ∷ []))
unfolding login turjmp.Auth.check_password get_user_by_username text_eq trim_space
    turjmp.Auth.finish_login turjmp.Auth.issue_tokens create_refresh_token
    turjmp.Store.Refresh.touch_user_login user_role_names
logs_in = refl

login_sound_example :
    HasShown credentials store (codes "ann") (codes "pw") (codes "123456") user false
login_sound_example =
    login_sound credentials store 20 drawn (codes "ann") (codes "pw") (codes "123456") false
      (codes "ann") (codes "two") user (codes "admin" ∷ []) logs_in

refreshes :
    (refresh credentials store 20 drawn (codes "one")).1
    ≡ ok (logged_in false (codes "ann") (codes "two") user (codes "admin" ∷ []))
unfolding refresh get_refresh_token_by_hash text_eq turjmp.Auth.is_refused revoke_refresh_token
    turjmp.Auth.reissue get_user setting_bool turjmp.Store.Rows.get_setting turjmp.Auth.issue_tokens
    create_refresh_token user_role_names
refreshes = refl

unique : IsUniqueHash store.refresh_tokens
unfolding IsUniqueHash
unique = (refl, tt)

abbrev refreshed : Store
refreshed = (refresh credentials store 20 drawn (codes "one")).0

refresh_once_example :
    refresh credentials (revoke_refresh_token refreshed 22 (codes "r2")).0 30 drawn (codes "one")
    ≡ ((revoke_refresh_token refreshed 22 (codes "r2")).0, err Error.unauthorized)
refresh_once_example =
    refresh_once credentials store ((revoke_refresh_token refreshed 22 (codes "r2")).0) 20 30 drawn
      drawn (codes "one") (logged_in false (codes "ann") (codes "two") user (codes "admin" ∷ []))
      unique refreshes
      (RefreshSteps.next refreshed _ _ (RefreshStep.revoke refreshed 22 (codes "r2"))
        (RefreshSteps.stay _))

asset_nodes_iff_example : (root ∈ asset_nodes store 2) ↔ IsAbove store 2 root
asset_nodes_iff_example = asset_nodes_iff store 2 root

abbrev started : Store
started = (create_session_under_active_limit store session 1).0

no_sessions : active_count (codes "rdp") (codes "rdp_client") store.sessions ≤ cap 1
unfolding active_count
no_sessions = omega arith

abbrev refused_start : Store
refused_start = (create_session_under_active_limit started session 1).0

active_count-limit_example :
    active_count
      (codes "rdp")
      (codes "rdp_client")
      ((Sessions.update refused_start 30 1 true []).0).sessions
    ≤ cap 1
active_count-limit_example =
    active_count-limit (codes "rdp") (codes "rdp_client") 1 store
      ((Sessions.update refused_start 30 1 true []).0)
      (SessionSteps.next store started _ (SessionStep.start store session refl refl) (
        SessionSteps.next started refused_start _ (SessionStep.start started session refl refl) (
          SessionSteps.next refused_start _ _ (SessionStep.update_ended refused_start 30 1 [])
            (SessionSteps.stay _))))
      no_sessions

abbrev ended : Session
ended = record session {
  id = 1;
  is_finished = true;
  date_end = some 50;
  recording_path = codes "a.cast";
}

ends : (finish_session_once started 50 1 (codes "a.cast")).1 ≡ ok (ended, true)
unfolding finish_session_once create_session_under_active_limit
ends = refl

finish_once_example :
    finish_session_once ((finish_session_once started 50 1 (codes "a.cast")).0) 60 1 [] ≡ (
      (finish_session_once started 50 1 (codes "a.cast")).0,
      get_session ((finish_session_once started 50 1 (codes "a.cast")).0) 1 >>= λ again.
          ok (again, false),
    )
finish_once_example = finish_once started 50 60 1 (codes "a.cast") [] ended ends
