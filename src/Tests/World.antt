-- ===== src/Tests/World.antt =====
-- A small installation: one user, one asset in a tree of nodes, one account, and a permission for the
-- root node.
use turjmp.Prelude.{
  true, false, ◌&&◌, none, some, [], ◌∷◌, ◌++◌, if◌then◌else◌, null, Text, codes, text_eq,
}
use turjmp.Domain.{
  Result, ok, User, Asset, Account, Node, AssetPermission, ConnectionToken, Session, RefreshToken,
}
use turjmp.Store.{Store, empty_store}
use turjmp.Tokens.{Net, ProxyAuthConfig}
use turjmp.Auth.{Credentials, NewRefreshToken}

abbrev pub user : User
user = record {
  id = 1;
  username = codes "ann";
  name = codes "Ann";
  email = [];
  password_hash = codes "h";
  mfa_enabled = true;
  mfa_secret = codes "k";
  is_active = true;
  last_login_at = none;
}

abbrev pub leaf : Node
leaf = record { id = 5; name = codes "leaf"; parent_id = some 4 }

abbrev pub root : Node
root = record { id = 4; name = codes "root"; parent_id = none }

abbrev pub asset : Asset
asset = record {
  id = 2;
  name = codes "db";
  address = codes "10.0.0.2";
  platform_id = 7;
  node_id = some 5;
  comment = [];
  is_active = true;
}

abbrev pub account : Account
account = record {
  id = 3;
  asset_id = 2;
  name = codes "app";
  username = codes "app";
  secret = codes "s";
  secret_type = codes "password";
  ssh_key_type = [];
  passphrase = [];
  su_enabled = false;
  su_method = [];
  su_account_id = none;
  db_name = [];
  is_active = true;
}

abbrev pub permission : AssetPermission
permission = record {
  id = 6;
  name = codes "all";
  actions = codes "upload,connect";
  date_start = some 10;
  date_expired = none;
  is_active = true;
}

abbrev pub token : ConnectionToken
token = record {
  id = 1;
  value = codes "abc";
  user_id = 1;
  asset_id = 2;
  account_id = 3;
  protocol = codes "ssh";
  connect_method = codes "web_cli";
  is_reusable = false;
  connect_options = codes "{}";
  used_at = none;
  expires_at = 1000;
}

abbrev pub refresh_row : RefreshToken
refresh_row = record {
  id = codes "r1";
  user_id = 1;
  token_hash = codes "#one";
  expires_at = 1000;
  revoked_at = none;
}

abbrev pub store : Store
store = record empty_store {
  users = user ∷ [];
  nodes = root ∷ leaf ∷ [];
  assets = asset ∷ [];
  accounts = account ∷ [];
  permissions = permission ∷ [];
  perm_users = record { owner = 6; member = 1 } ∷ [];
  perm_nodes = record { owner = 6; member = 4 } ∷ [];
  connection_tokens = token ∷ [];
  refresh_tokens = refresh_row ∷ [];
  roles = record { id = 1; name = codes "admin"; description = [] } ∷ [];
  user_roles = record { owner = 1; member = 1 } ∷ [];
}

-- Addresses are compared as texts.
abbrev pub net : Net
net = record {
  Ip = Text;
  parse_ip = λ t. if null t then none else some t;
  split_host = λ t. none;
  parse_cidr = λ t. none;
  ip_equal = text_eq;
}

abbrev pub cfg : ProxyAuthConfig
cfg = record { secret = codes "proxy"; allowed_ips = codes "10.0.0.1" ∷ [] }

abbrev pub decrypt_string : Text → Result Text
decrypt_string t = ok (codes "plain" ++ t)

abbrev pub credentials : Credentials
credentials = record {
  verify_password = λ password hash. ok (text_eq password (codes "pw") && text_eq hash (codes "h"));
  validate_totp = λ code secret. text_eq code (codes "123456");
  hash_refresh_token = λ raw. b'#' ∷ raw;
  sign_access_token = λ id name roles. ok (name, 500);
}

abbrev pub drawn : NewRefreshToken
drawn = record { id = codes "r2"; raw = codes "two"; hash = codes "#two"; expires_at = 2000 }

abbrev pub session : Session
session = record {
  id = 0;
  user_id = 1;
  asset_id = 2;
  account_id = 3;
  protocol = codes "rdp";
  kind = codes "rdp";
  login_from = codes "rdp_client";
  remote_addr = [];
  recording_path = [];
  is_finished = false;
  date_end = none;
}
