-- ===== src/Tests/Manage.antt =====
-- Users, permissions, accounts and host keys that are changed.
use turjmp.Prelude.{ℕ, ◌≡◌, refl, ◌≢◌, false, none, some, List, [], ◌∷◌, drop, Text, codes, text_eq}
use turjmp.Postgres.{ℤ}
use turjmp.Domain.{Error, Result, ok, err, Account, HostKey, AssetPermission, User}
use turjmp.Domain.Bind.{ok_injective}
use mathlib.Core.Path.{subst}
use turjmp.Store.{Store}
use turjmp.Store.Rows.{get_asset_account}
use turjmp.Store.Refresh.{get_refresh_token_by_hash}
use turjmp.Store.Grants.{PermissionLinks, permission_links}
use turjmp.Auth.{refresh}
use turjmp.Users.{UpdateUserInput, update}
use turjmp.Users.Disabled.{update-refresh}
use turjmp.Permissions.{PermissionInput, input_links, update_rule}
use turjmp.Permissions.Links.{update_rule-links}
use turjmp.Assets.{AccountInput, change_account}
use turjmp.Assets.Secrets.{change_account-decrypt}
use turjmp.HostKeys.{KeyTools, ensure_defaults}
use turjmp.HostKeys.Stable.{ensure_defaults_again}
use turjmp.Tests.World.{user, account, permission, store, refresh_row, credentials, drawn}

abbrev hash_password : Text → Result Text
hash_password t = ok (b'!' ∷ t)

abbrev switched_off : UpdateUserInput
switched_off = record {
  username = [];
  name = codes "Ann";
  email = [];
  password = [];
  is_active = some false;
  role_ids = none;
}

abbrev off_user : User
off_user = record user { is_active = false }

abbrev off_store : Store
off_store = (update hash_password (ℤ.pos 8) store 20 1 switched_off).0

is_saved : (update hash_password (ℤ.pos 8) store 20 1 switched_off).1 ≡ ok off_user
unfolding update turjmp.Store.Rows.get_user turjmp.Store.Users.update_user
is_saved = refl

is_stored :
    get_refresh_token_by_hash off_store (credentials.hash_refresh_token (codes "one"))
    ≡ ok (record refresh_row { revoked_at = some 20 })
unfolding update get_refresh_token_by_hash turjmp.Store.Rows.get_user turjmp.Store.Users.update_user
    turjmp.Store.Refresh.revoke_user_refresh_tokens text_eq
is_stored = refl

update-refresh_example :
    refresh credentials off_store 30 drawn (codes "one") ≡ (off_store, err Error.unauthorized)
update-refresh_example =
    update-refresh hash_password (ℤ.pos 8) credentials store 20 1 switched_off off_user 30 drawn
      (codes "one") (record refresh_row { revoked_at = some 20 }) refl is_saved is_stored refl

abbrev narrowed : PermissionInput
narrowed = record {
  name = codes "narrow";
  actions = codes "connect" ∷ [];
  date_start = none;
  date_expired = none;
  is_active = none;
  user_ids = 1 ∷ [];
  group_ids = [];
  asset_ids = 2 ∷ [];
  node_ids = [];
  account_ids = 3 ∷ [];
}

abbrev narrow : AssetPermission
narrow = record permission { name = codes "narrow"; actions = codes "connect"; date_start = none }

is_updated : (update_rule store 6 narrowed).1 ≡ ok narrow
unfolding update_rule turjmp.Store.Grants.get_permission turjmp.Store.Grants.update_permission
    turjmp.Store.Users.insert_links turjmp.Store.Permission.Actions.normalize_actions
    turjmp.Strings.trim_space turjmp.Strings.one_of turjmp.Strings.join
is_updated = refl

update_rule-links_example :
    (permission_links ((update_rule store 6 narrowed).0) 6 ≡ input_links narrowed)
    × ((other : ℕ)
        → other ≢ 6
        → permission_links ((update_rule store 6 narrowed).0) other ≡ permission_links store other)
update_rule-links_example = update_rule-links store 6 narrowed narrow is_updated

abbrev hidden_text : Text
hidden_text = []

-- A cipher that puts a mark in front.
abbrev encrypt_string : Text → Result Text
encrypt_string t = ok (b'#' ∷ t)

abbrev decrypt_string : Text → Result Text
decrypt_string t = ok (drop 1 t)

law : (t c : Text) → encrypt_string t ≡ ok c → decrypt_string c ≡ ok t
law t c e = subst (λ x. decrypt_string x ≡ ok t) (ok_injective (b'#' ∷ t) c e) refl

abbrev locked : Account
locked = record account { secret = codes "#s"; passphrase = codes "#p" }

abbrev vault : Store
vault = record store { accounts = locked ∷ [] }

abbrev new_secret : AccountInput
new_secret = record {
  name = codes "app";
  username = codes "app";
  secret = codes "new";
  secret_type = [];
  ssh_key_type = [];
  passphrase = [];
  su_enabled = false;
  su_method = [];
  su_account_id = none;
  db_name = [];
  is_active = none;
}

is_there : get_asset_account vault 2 3 ≡ ok locked
unfolding get_asset_account
is_there = refl

is_changed :
    (change_account encrypt_string vault 2 3 new_secret).1
    ≡ ok (record account { secret = []; passphrase = [] })
unfolding change_account get_asset_account turjmp.Store.Assets.update_account
is_changed = refl

change_account-decrypt_example :
    (hidden_text ≡ [])
    × ((hidden_text ≡ [])
        × ((after : Account) × ((get_asset_account
                  (change_account encrypt_string vault 2 3 new_secret).0
                  2
                  3
                ≡ ok after)
              × ((decrypt_string after.secret ≡ ok (codes "new"))
                  × (decrypt_string after.passphrase ≡ ok (codes "p"))))))
change_account-decrypt_example =
    change_account-decrypt encrypt_string decrypt_string vault 2 3 new_secret locked
      (record account { secret = []; passphrase = [] }) (codes "s") (codes "p") law is_there refl
      refl is_changed

-- Keys are texts that the generators draw.
abbrev tools_of : Text → KeyTools
tools_of drawn_text = record {
  PrivateKey = Text;
  Signer = Text;
  draw_ed25519 = ok (b'e' ∷ drawn_text);
  draw_rsa = λ bits. ok (b'r' ∷ drawn_text);
  marshal_pkcs8 = λ key. ok key;
  marshal_pkcs1 = λ key. key;
  new_signer = λ key. ok key;
  authorized_key = λ signer. signer;
  fingerprint_sha256 = λ signer. signer;
  encode_pem = λ kind bytes. bytes;
}

abbrev key_of : ℕ → Text → Text → HostKey
key_of id algorithm text = record {
  id = id;
  algorithm = algorithm;
  fingerprint = text;
  private_key = text;
  public_key = text;
}

abbrev made_keys : List HostKey
made_keys =
    key_of 1 (codes "ssh-ed25519") (codes "e1") ∷ key_of 2 (codes "ssh-rsa") (codes "r1") ∷ []

are_made : (ensure_defaults (tools_of (codes "1")) store).1 ≡ ok made_keys
unfolding ensure_defaults turjmp.Store.Assets.get_host_key_by_algorithm text_eq
    turjmp.Store.Assets.create_host_key turjmp.Store.next_id
are_made = refl

ensure_defaults_again_example :
    ensure_defaults (tools_of (codes "2")) (ensure_defaults (tools_of (codes "1")) store).0
    ≡ ((ensure_defaults (tools_of (codes "1")) store).0, ok made_keys)
ensure_defaults_again_example =
    ensure_defaults_again (tools_of (codes "1")) (tools_of (codes "2")) store made_keys are_made
