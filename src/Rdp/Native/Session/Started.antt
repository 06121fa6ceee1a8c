-- ===== src/Rdp/Native/Session/Started.antt =====
-- What an attempt to start a native RDP session leaves behind.
use turjmp.Prelude.{
  ℕ, ◌+◌, ◌<◌, ◌≡◌, refl, ◌⊎◌, inl, inr, false, Option, none, [], ◌∷◌, ◌++◌, ltb, ltb→lt,
  Bool-cases, length, length-append, Text, codes,
}
use turjmp.Domain.{Result, Session}
use turjmp.Domain.Bind.{Result-cases}
use turjmp.Store.{Store}
use turjmp.Store.Rows.{audit}
use turjmp.Store.Sessions.{create_session, active_count, create_session_under_active_limit}
use turjmp.Store.Sessions.Limit.{cap}
use turjmp.Config.{RdpProxyConfig, rdp_connection_limit}
use turjmp.Rdp.Route.{parse_rdp_route_username}
use turjmp.Rdp.Credentials.{Hashing}
use turjmp.Rdp.Native.{
  Resolution, refused, granted, ResolveError, ResolveInput, ResolveResult, resolve,
}
use turjmp.Rdp.Native.Session.{
  AuditPayload, audit_native_rdp, audit_native_rdp_denied, SessionStartResult, start_resolved,
  start_session,
}

-- The row of a session that has started.
abbrev pub started_row : SessionStartResult → Text → Session
started_row r remote_addr = record {
  id = r.session_id;
  user_id = r.user_id;
  asset_id = r.asset_id;
  account_id = r.account_id;
  protocol = codes "rdp";
  kind = codes "rdp";
  login_from = codes "rdp_client";
  remote_addr = remote_addr;
  recording_path = [];
  is_finished = false;
  date_end = none;
}

abbrev pub native_count : Store → ℕ
native_count s = active_count (codes "rdp") (codes "rdp_client") s.sessions

-- A granted start adds one row, where there was room; a refused one adds none.
abbrev pub Kept : Store → RdpProxyConfig → Text → Store × Resolution SessionStartResult → Type 0
Kept s cfg remote_addr (after, granted r) =
    (after.sessions ≡ s.sessions ++ started_row r remote_addr ∷ [])
    × (native_count s < cap (rdp_connection_limit cfg))
Kept s cfg remote_addr (after, refused why) = after.sessions ≡ s.sessions

one_entry :
    (s : Store) (user_id : Option ℕ) (action remote_addr : Text) (payload : AuditPayload)
    → length ((audit_native_rdp s user_id action remote_addr payload).audit_logs)
      ≡ length s.audit_logs + 1
unfolding audit_native_rdp audit
one_entry s user_id action remote_addr payload = length-append s.audit_logs _

same_sessions :
    (s : Store) (user_id : Option ℕ) (action remote_addr : Text) (payload : AuditPayload)
    → (audit_native_rdp s user_id action remote_addr payload).sessions ≡ s.sessions
unfolding audit_native_rdp audit
same_sessions s user_id action remote_addr payload = refl

denied_entry :
    (s : Store) (input : ResolveInput) (why : ResolveError)
    → (length ((audit_native_rdp_denied s input why).audit_logs) ≡ length s.audit_logs + 1)
      × ((audit_native_rdp_denied s input why).sessions ≡ s.sessions)
unfolding audit_native_rdp_denied
denied_entry s input why = elim (Result-cases (parse_rdp_route_username input.route_username)) [
  | inl (e, f) ↦ rw (f, audit_native_rdp_denied) (one_entry s _ _ _ _, same_sessions s _ _ _ _)
  | inr (route, f) ↦ rw (f, audit_native_rdp_denied) (one_entry s _ _ _ _, same_sessions s _ _ _ _)
]

Resolution-cases {ℓ} :
    {A : Type ℓ} (r : Resolution A)
    → ((why : ResolveError) × (r ≡ refused why)) ⊎ ((a : A) × (r ≡ granted a))
Resolution-cases (granted a) = inr (a, refl)
Resolution-cases (refused why) = inl (why, refl)

start_resolved-audited :
    (s : Store) (cfg : RdpProxyConfig) (remote_addr : Text) (resolved : ResolveResult)
    → (length ((start_resolved s cfg remote_addr resolved).0.audit_logs) ≡ length s.audit_logs + 1)
      × Kept s cfg remote_addr (start_resolved s cfg remote_addr resolved)
unfolding start_resolved create_session_under_active_limit create_session audit_native_rdp audit
start_resolved-audited s cfg remote_addr resolved =
    elim (Bool-cases (ltb (native_count s) (cap (rdp_connection_limit cfg)))) [
      | inl e ↦ rw e (length-append s.audit_logs _, (refl, ltb→lt _ _ e))
      | inr e ↦ rw e (length-append s.audit_logs _, refl)
    ]

module _ (hashing : Hashing) (decrypt_string : Text → Result Text) where
  -- Every attempt to start a native RDP session leaves exactly one audit entry. If it is granted, the
  -- number of active sessions was below the configured limit, and the table has one more row, the
  -- active session with the ids of the answer; if it is refused, the sessions are as before.
  pub start_session-audited :
      (s : Store) (now : ℕ) (cfg : RdpProxyConfig) (input : ResolveInput)
      → (length ((start_session hashing decrypt_string s now cfg input).0.audit_logs)
          ≡ length s.audit_logs + 1)
        × Kept s cfg input.remote_addr (start_session hashing decrypt_string s now cfg input)
  unfolding start_session
  start_session-audited s now cfg input =
      elim (Resolution-cases (resolve hashing decrypt_string s now input)) [
        | inl (why, f) ↦ rw (f, start_session) (denied_entry s input why)
        | inr (resolved, f) ↦
            rw (f, start_session) (start_resolved-audited s cfg input.remote_addr resolved)
      ]
