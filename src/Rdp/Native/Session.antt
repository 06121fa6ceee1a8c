-- ===== src/Rdp/Native/Session.antt =====
-- StartSession, FinishSession and FinishActiveSessions of rdp_native.go, with their audit entries.
pub mod Started
pub mod Due
pub mod Cleanup
use turjmp.Prelude.{
  ℕ, zero, suc, ◌+◌, ◌-◌, ◌*◌, ◌/◌, ◌%◌, ◌^◌, ◌≤◌, ◌<◌, ◌≡◌, refl, sym, ap, ◌∙◌, ◌≢◌, ◌↔◌, ◌⊎◌, inl,
  inr, Bool, true, false, not, ◌&&◌, ◌||◌, Option, none, some, List, [], ◌∷◌, ◌++◌, append-nil,
  append_assoc, arith, ltb, leb, ◌==◌, if◌then◌else◌, ltb→lt, lt→ltb, leb→le, ==_iff, ==_refl,
  Bool-cases, Option-cases, length, get_or, take, drop, replicate, slice, null, any, all, filter,
  find?, All, length-append, take-append_length, drop-append_length, length-take, length-drop,
  length-replicate, drop-append_add, get_or-append_add, slice-append_add, slice_middle, slice_at,
  ◌∈◌, ∈-append_left, ∈-append_right, ∈-append_cases, ∈-filter, filter-∈, any-∈, ∈-any,
  length-filter_split, null-length, find?-found, find?-append, find?-none, any-append, all-append,
  Text, Bytes, IsByte, codes, text_eq, text_eq→eq, text_eq_refl, text_eq_iff, le_bytes, le_value,
  le_value-le_bytes, length-le_bytes, le_bytes-IsByte,
}
use turjmp.Strings.Decimal.{decimal}
use turjmp.Domain.{Error, Result, ok, err, Session}
use turjmp.Store.{Store}
use turjmp.Store.Rows.{get_user_by_username, audit}
use turjmp.Store.Sessions.{
  create_session_under_active_limit, get_session, finish_session_once,
  list_active_native_rdp_session_ids,
}
use turjmp.Config.{RdpProxyConfig, rdp_connection_limit}
use turjmp.Reason.{sanitize_native_rdp_reason, native_rdp_finish_action}
use turjmp.Rdp.Route.{RdpRouteUsername, parse_rdp_route_username}
use turjmp.Rdp.Credentials.{Hashing}
use turjmp.Rdp.Native.{
  Resolution, refused, granted, ResolveError, denied, ResolveInput, ResolveResult, ResolvedTarget,
  ResolvedAccount, resolve,
}

-- The fields that are set; protocol and source are the same for every entry. An id of 0 and an empty
-- reason are left out.
pub record AuditPayload : Type 0 where
  pub session_id : ℕ
  pub asset_id : ℕ
  pub account_id : ℕ
  pub reason : Text

quoted : Text → Text
quoted t = 34 ∷ (t ++ 34 ∷ [])

id_field : Text → ℕ → Text
unfolding quoted
id_field name n = if n == 0 then [] else quoted name ++ (b':' ∷ (decimal n ++ b',' ∷ []))

-- The JSON of a payload whose reason needs no escape, as those of this file do not.
unfoldable pub audit_detail : AuditPayload → Text
unfolding quoted id_field
audit_detail p =
    let reason =
      if null p.reason
      then []
      else quoted (codes "reason") ++ (b':' ∷ (quoted p.reason ++ b',' ∷ [])) in
    b'{'
    ∷ (id_field (codes "session_id") p.session_id
        ++ (id_field (codes "asset_id") p.asset_id
            ++ (id_field (codes "account_id") p.account_id
                ++ (reason
                    ++ (quoted (codes "protocol")
                        ++ (b':'
                            ∷ (quoted (codes "rdp")
                                ++ (b','
                                    ∷ (quoted (codes "source")
                                        ++ (b':'
                                            ∷ (quoted (codes "rdp_client") ++ b'}' ∷ [])))))))))))

unfoldable pub audit_native_rdp : Store → Option ℕ → Text → Text → AuditPayload → Store
unfolding audit_detail
audit_native_rdp s user_id action remote_addr payload =
    audit s user_id action (codes "rdp") remote_addr (audit_detail payload)

-- The user, the asset and the account of a refused request, as far as its route tells.
unfoldable pub audit_native_rdp_denied : Store → ResolveInput → ResolveError → Store
audit_native_rdp_denied s input why =
    let reason = if null why.reason then codes "denied" else why.reason in
    elim (parse_rdp_route_username input.route_username) [
      | err e ↦
          audit_native_rdp s none (codes "rdp.native.denied") input.remote_addr
            (record { session_id = 0; asset_id = 0; account_id = 0; reason = reason })
      | ok route ↦
          audit_native_rdp s
            (elim (get_user_by_username s route.username) [ ok user ↦ some user.id | err e ↦ none ])
            (codes "rdp.native.denied") input.remote_addr
            (record {
              session_id = 0;
              asset_id = route.asset_id;
              account_id = route.account_id;
              reason = reason;
            })
    ]

pub record SessionStartResult : Type 0 where
  pub session_id : ℕ
  pub user_id : ℕ
  pub asset_id : ℕ
  pub account_id : ℕ
  pub target : ResolvedTarget
  pub account : ResolvedAccount

-- The row that is asked for; the table gives its id.
abbrev pub native_session : ResolveResult → Text → Session
native_session resolved remote_addr = record {
  id = 0;
  user_id = resolved.user_id;
  asset_id = resolved.asset_id;
  account_id = resolved.account_id;
  protocol = codes "rdp";
  kind = codes "rdp";
  login_from = codes "rdp_client";
  remote_addr = remote_addr;
  recording_path = [];
  is_finished = false;
  date_end = none;
}

abbrev pub start_result : ResolveResult → ℕ → SessionStartResult
start_result resolved session_id = record {
  session_id = session_id;
  user_id = resolved.user_id;
  asset_id = resolved.asset_id;
  account_id = resolved.account_id;
  target = resolved.target;
  account = resolved.account;
}

-- StartSession after the login is resolved.
unfoldable pub start_resolved :
    Store → RdpProxyConfig → Text → ResolveResult → Store × Resolution SessionStartResult
start_resolved s cfg remote_addr resolved =
    let created =
      create_session_under_active_limit s (native_session resolved remote_addr)
        (rdp_connection_limit cfg) in
    if created.1.1
    then (
      audit_native_rdp created.0 (some resolved.user_id) (codes "rdp.native.start") remote_addr
          (record {
            session_id = created.1.0.id;
            asset_id = resolved.asset_id;
            account_id = resolved.account_id;
            reason = codes "started";
          }),
      granted (start_result resolved created.1.0.id),
    )
    else (
      audit_native_rdp created.0 (some resolved.user_id) (codes "rdp.native.denied") remote_addr
          (record {
            session_id = 0;
            asset_id = resolved.asset_id;
            account_id = resolved.account_id;
            reason = codes "max_connections";
          }),
      refused (denied (codes "max_connections") Error.forbidden),
    )

module _ (hashing : Hashing) (decrypt_string : Text → Result Text) where
  unfoldable pub start_session :
      Store → ℕ → RdpProxyConfig → ResolveInput → Store × Resolution SessionStartResult
  start_session s now cfg input = elim (resolve hashing decrypt_string s now input) [
    | refused why ↦ (audit_native_rdp_denied s input why, refused why)
    | granted resolved ↦ start_resolved s cfg input.remote_addr resolved
  ]

pub record SessionFinishResult : Type 0 where
  pub session_id : ℕ
  pub finished : Bool
  pub reason : Text

unfoldable pub is_native : Session → Bool
is_native row =
    text_eq row.protocol (codes "rdp")
    && (text_eq row.kind (codes "rdp") && text_eq row.login_from (codes "rdp_client"))

-- The audit entry of the call that ended the session.
unfoldable pub finish_audited : Text → Store → Session × Bool → Store
unfolding audit_native_rdp
finish_audited reason s (row, changed) =
    if changed
    then audit_native_rdp s (some row.user_id) (native_rdp_finish_action reason) row.remote_addr
        (record {
          session_id = row.id;
          asset_id = row.asset_id;
          account_id = row.account_id;
          reason = reason;
        })
    else s

-- FinishSession for a session that exists, with the reason that is kept.
unfoldable pub finish_native : Store → ℕ → ℕ → Text → Store × Result SessionFinishResult
unfolding finish_audited
finish_native s now id reason =
    let done = finish_session_once s now id [] in
    elim (done.1) [
      | err e ↦ (done.0, err e)
      | ok (row, changed) ↦ (
        finish_audited reason done.0 (row, changed),
        ok (record { session_id = row.id; finished = changed; reason = reason }),
      )
    ]

unfoldable pub finish_session : Store → ℕ → ℕ → Text → Store × Result SessionFinishResult
unfolding finish_native is_native
finish_session s now id reason =
    if id == 0 then (s, err Error.invalid_argument) else elim (get_session s id) [
      | err e ↦ (s, err e)
      | ok row ↦
          if is_native row
          then finish_native s now id (sanitize_native_rdp_reason reason)
          else (s, err Error.forbidden)
    ]

pub record SessionCleanupResult : Type 0 where
  pub reason : Text
  pub finished : List ℕ
  pub skipped : List ℕ

-- The loop of FinishActiveSessions, which stops at the first error.
unfoldable pub finish_all :
    Store → ℕ → Text → List ℕ → SessionCleanupResult → Store × Result SessionCleanupResult
unfolding finish_session
finish_all s now reason [] so_far = (s, ok so_far)
finish_all s now reason (id ∷ ids) so_far =
    let done = finish_session s now id reason in
    elim (done.1) [
      | err e ↦ (done.0, err e)
      | ok result ↦ finish_all done.0 now reason ids (
          if result.finished
          then record so_far { finished = so_far.finished ++ id ∷ [] }
          else record so_far { skipped = so_far.skipped ++ id ∷ [] })
    ]

unfoldable pub finish_active_sessions : Store → ℕ → Text → Store × Result SessionCleanupResult
unfolding finish_all
finish_active_sessions s now reason =
    let kept = sanitize_native_rdp_reason reason in
    finish_all s now kept (list_active_native_rdp_session_ids s)
      (record { reason = kept; finished = []; skipped = [] })
