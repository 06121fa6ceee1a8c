-- ===== src/Rdp/Native/Resolved.antt =====
-- What a granted native RDP login says.
use turjmp.Prelude.{ℕ, ◌≡◌, refl, sym, ap, Bool, true, false, not, arith, null, Text, codes}
use turjmp.Strings.{trim_space, equal_fold}
use turjmp.Domain.{Error, Result, ok, err, User, Asset, Account}
use turjmp.Store.{Store}
use turjmp.Store.Rows.{get_asset, get_asset_account, get_asset_protocol_port}
use turjmp.Store.Permission.{has_asset_permission}
use turjmp.Rdp.Route.{RdpRouteUsername, parse_rdp_route_username}
use turjmp.Rdp.Credentials.{Hashing, verify_credential}
use turjmp.Rdp.Native.{
  Resolution, refused, granted, ◌>>=◌, ◌>>◌, ResolveInput, ResolveResult, or_denied, or_missing,
  or_plain, must, resolve_result, resolve,
}

granted_injective : (a b : ResolveResult) → granted a ≡ granted b → a ≡ b
granted_injective a b e =
    ap (λ (r : Resolution ResolveResult). elim r [ granted x ↦ x | refused x ↦ a ]) e

step_granted {ℓ κ} :
    {A : Type ℓ} {B : Type κ} (m : Resolution A) (f : A → Resolution B) (b : B)
    → m >>= f ≡ granted b
    → (a : A) × ((m ≡ granted a) × (f a ≡ granted b))
step_granted (granted a) f b h = (a, (refl, h))
step_granted (refused e) f b h = absurd (cc h)

must_granted {ℓ} :
    {B : Type ℓ} (t : Bool) (reason : Text) (k : Resolution B) (b : B)
    → must t reason >> k ≡ granted b
    → (t ≡ true) × (k ≡ granted b)
must_granted true reason k b h = (refl, h)
must_granted false reason k b h = absurd (cc h)

denied_granted {ℓ} :
    {A : Type ℓ} (reason : Text) (e : Error) (r : Result A) (a : A)
    → or_denied reason e r ≡ granted a
    → r ≡ ok a
denied_granted {A = A} reason e (ok b) a h =
    ap (λ (q : Resolution A). elim q [ granted x ↦ ok x | refused w ↦ ok a ]) h
denied_granted reason e (err f) a h = absurd (cc h)

missing_granted {ℓ} :
    {A : Type ℓ} (reason : Text) (r : Result A) (a : A) → or_missing reason r ≡ granted a → r ≡ ok a
missing_granted {A = A} reason (ok b) a h =
    ap (λ (q : Resolution A). elim q [ granted x ↦ ok x | refused w ↦ ok a ]) h
missing_granted reason (err Error.not_found) a h = absurd (cc h)
missing_granted reason (err Error.unauthorized) a h = absurd (cc h)
missing_granted reason (err Error.forbidden) a h = absurd (cc h)
missing_granted reason (err Error.invalid_argument) a h = absurd (cc h)
missing_granted reason (err Error.conflict) a h = absurd (cc h)
missing_granted reason (err Error.other) a h = absurd (cc h)

plain_granted {ℓ} : {A : Type ℓ} (r : Result A) (a : A) → or_plain r ≡ granted a → r ≡ ok a
plain_granted {A = A} (ok b) a h =
    ap (λ (q : Resolution A). elim q [ granted x ↦ ok x | refused w ↦ ok a ]) h
plain_granted (err f) a h = absurd (cc h)

module _ (hashing : Hashing) (decrypt_string : Text → Result Text) (s : Store) (now : ℕ)
    (input : ResolveInput) where
  -- The conditions of a login, with the rows that its result is made of.
  pub record MayConnect (r : ResolveResult) : Type 0 where
    pub route : RdpRouteUsername
    pub user : User
    pub asset : Asset
    pub account : Account
    pub parsed : parse_rdp_route_username input.route_username ≡ ok route
    pub verified : verify_credential hashing s route.username input.password ≡ ok user
    pub asset_row : get_asset s route.asset_id ≡ ok asset
    pub account_row : get_asset_account s route.asset_id route.account_id ≡ ok account
    pub asset_active : asset.is_active ≡ true
    pub account_active : account.is_active ≡ true
    pub permitted :
        has_asset_permission s now user.id route.asset_id route.account_id (codes "connect") ≡ true
    pub port : get_asset_protocol_port s route.asset_id (codes "rdp") ≡ ok r.target.port
    pub secret_kind : equal_fold (trim_space account.secret_type) (codes "password") ≡ true
    pub secret : decrypt_string account.secret ≡ ok r.account.secret
    pub secret_given : null r.account.secret ≡ false
    pub result : r ≡ resolve_result user asset account r.target.port r.account.secret

  -- A native RDP login is resolved only for a route that names a user whose separate RDP password was
  -- given and is enabled, an active asset with the protocol rdp, and an active account of that asset
  -- with a password that is not empty, all under a permission to connect; and the result is made of
  -- these rows and of the decrypted password.
  pub resolve_sound :
      (r : ResolveResult) → resolve hashing decrypt_string s now input ≡ granted r → MayConnect r
  unfolding resolve
  resolve_sound r h0 =
      let (route, (parsed, h1)) =
        step_granted
          (or_denied (codes "malformed_route_username") Error.unauthorized
            (parse_rdp_route_username input.route_username))
          _ r h0 in
      let (user, (verified, h2)) =
        step_granted
          (or_denied (codes "front_auth_failed") Error.unauthorized
            (verify_credential hashing s route.username input.password))
          _ r h1 in
      let (asset, (asset_row, h3)) =
        step_granted (or_missing (codes "asset_not_found") (get_asset s route.asset_id)) _ r h2 in
      let (account, (account_row, h4)) =
        step_granted
          (or_missing (codes "account_not_found")
            (get_asset_account s route.asset_id route.account_id))
          _ r h3 in
      let (asset_active, h5) = must_granted asset.is_active _ _ r h4 in
      let (account_active, h6) = must_granted account.is_active _ _ r h5 in
      let (permitted, h7) =
        must_granted
          (has_asset_permission s now user.id route.asset_id route.account_id (codes "connect")) _ _
          r h6 in
      let (port, (port_row, h8)) =
        step_granted
          (or_missing (codes "rdp_protocol_not_available")
            (get_asset_protocol_port s route.asset_id (codes "rdp")))
          _ r h7 in
      let (secret_kind, h9) =
        must_granted (equal_fold (trim_space account.secret_type) (codes "password")) _ _ r h8 in
      let (secret, (decrypted, h10)) =
        step_granted (or_plain (decrypt_string account.secret)) _ r h9 in
      let (given, h11) = must_granted (not (null secret)) _ _ r h10 in
      rw (sym (granted_injective (resolve_result user asset account port secret) r h11)) (record {
        route = route;
        user = user;
        asset = asset;
        account = account;
        parsed =
            denied_granted (codes "malformed_route_username") Error.unauthorized
              (parse_rdp_route_username input.route_username) route parsed;
        verified =
            denied_granted (codes "front_auth_failed") Error.unauthorized
              (verify_credential hashing s route.username input.password) user verified;
        asset_row =
            missing_granted (codes "asset_not_found") (get_asset s route.asset_id) asset asset_row;
        account_row =
            missing_granted (codes "account_not_found")
              (get_asset_account s route.asset_id route.account_id) account account_row;
        asset_active = asset_active;
        account_active = account_active;
        permitted = permitted;
        port =
            missing_granted (codes "rdp_protocol_not_available")
              (get_asset_protocol_port s route.asset_id (codes "rdp")) port port_row;
        secret_kind = secret_kind;
        secret = plain_granted (decrypt_string account.secret) secret decrypted;
        secret_given = ground (arith, given);
        result = refl;
      })
