-- ===== src/Store/Rows.antt =====
-- The look-ups by key of store.go.
use turjmp.Prelude.{
  ℕ, ◌&&◌, Option, none, some, List, [], ◌∷◌, ◌++◌, ◌==◌, if◌then◌else◌, find?, Text, codes,
  text_eq,
}
use turjmp.Strings.{trim_space, to_lower, one_of}
use turjmp.Domain.{Result, found, User, RdpProxyCredential, Asset, Account, Setting, AuditLog}
use turjmp.Store.{Store}

unfoldable pub get_user : Store → ℕ → Result User
get_user s id = found (find? (λ u. u.id == id) s.users)

unfoldable pub get_user_by_username : Store → Text → Result User
get_user_by_username s username = found (find? (λ u. text_eq u.username username) s.users)

unfoldable pub get_rdp_proxy_credential : Store → ℕ → Result RdpProxyCredential
get_rdp_proxy_credential s user_id = found (find? (λ c. c.user_id == user_id) s.credentials)

unfoldable pub get_asset : Store → ℕ → Result Asset
get_asset s id = found (find? (λ a. a.id == id) s.assets)

unfoldable pub get_account : Store → ℕ → Result Account
get_account s id = found (find? (λ a. a.id == id) s.accounts)

unfoldable pub get_asset_account : Store → ℕ → ℕ → Result Account
get_asset_account s asset_id account_id =
    found (find? (λ a. a.id == account_id && a.asset_id == asset_id) s.accounts)

unfoldable pub get_setting : Store → Text → Result Setting
get_setting s key = found (find? (λ x. text_eq x.key key) s.settings)

unfoldable pub protocol_aliases : Text → List Text
protocol_aliases protocol =
    let p = to_lower (trim_space protocol) in
    if one_of p (codes "postgres" ∷ codes "postgresql" ∷ [])
    then codes "postgres" ∷ codes "postgresql" ∷ []
    else p ∷ []

-- The first protocol row of the asset's platform under one of the names.
unfoldable pub get_asset_protocol_port : Store → ℕ → Text → Result ℕ
unfolding protocol_aliases
get_asset_protocol_port s asset_id protocol = elim (find? (λ a. a.id == asset_id) s.assets) [
  | none ↦ found none
  | some a ↦
      elim (find?
        (λ pp. pp.platform_id == a.platform_id && one_of pp.name (protocol_aliases protocol))
        s.protocols) [ none ↦ found none | some pp ↦ Result.ok pp.port ]
]

unfoldable pub audit : Store → Option ℕ → Text → Text → Text → Text → Store
audit s user_id action resource remote_addr detail =
    let entry : AuditLog = record {
      user_id = user_id;
      action = action;
      resource = resource;
      remote_addr = remote_addr;
      detail = detail;
    } in
    record s { audit_logs = s.audit_logs ++ entry ∷ [] }
