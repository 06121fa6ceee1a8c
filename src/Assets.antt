-- ===== src/Assets.antt =====
-- internal/service/assets.go: assets and their accounts, whose secrets are stored encrypted and are not
-- given back.
pub mod Secrets
use turjmp.Prelude.{
  ℕ, zero, suc, ◌+◌, ◌-◌, ◌*◌, ◌/◌, ◌%◌, ◌^◌, ◌≤◌, ◌<◌, ◌≡◌, refl, sym, ap, ◌∙◌, ◌≢◌, ◌↔◌, ◌⊎◌, inl,
  inr, Bool, true, false, not, ◌&&◌, ◌||◌, Option, none, some, List, [], ◌∷◌, ◌++◌, append-nil,
  append_assoc, arith, ltb, leb, ◌==◌, if◌then◌else◌, ltb→lt, lt→ltb, leb→le, ==_iff, ==_refl,
  Bool-cases, Option-cases, length, get_or, take, drop, replicate, slice, null, any, all, filter,
  find?, All, length-append, take-append_length, drop-append_length, length-take, length-drop,
  length-replicate, drop-append_add, get_or-append_add, slice-append_add, slice_middle, slice_at,
  ◌∈◌, ∈-append_left, ∈-append_right, ∈-append_cases, ∈-filter, filter-∈, any-∈, if-∈, ∈-any,
  length-filter_split, null-length, find?-found, find?-append, find?-none, any-append, all-append,
  Text, Bytes, IsByte, codes, text_eq, text_eq→eq, text_eq_refl, text_eq_iff, le_bytes, le_value,
  le_value-le_bytes, length-le_bytes, le_bytes-IsByte,
}
use turjmp.Domain.{Error, Result, ok, err, ◌>>=◌, ◌>>◌, Asset, Account, Node, Platform}
use turjmp.Store.{Store}
use turjmp.Store.Rows.{get_asset, get_asset_account}
use turjmp.Store.Assets.{
  create_asset, update_asset, delete_asset, list_assets, list_nodes, list_platforms, create_account,
  update_account, delete_account, list_accounts,
}
use turjmp.Permissions.{or_active}
use mathlib.Core.List.{map}

pub record AssetInput : Type 0 where
  pub name : Text
  pub address : Text
  pub platform_id : ℕ
  pub node_id : Option ℕ
  pub comment : Text
  pub is_active : Option Bool

pub record AccountInput : Type 0 where
  pub name : Text
  pub username : Text
  pub secret : Text
  pub secret_type : Text
  pub ssh_key_type : Text
  pub passphrase : Text
  pub su_enabled : Bool
  pub su_method : Text
  pub su_account_id : Option ℕ
  pub db_name : Text
  pub is_active : Option Bool

unfoldable pub add_asset : Store → AssetInput → Store × Result Asset
add_asset s input = create_asset s (record {
  id = 0;
  name = input.name;
  address = input.address;
  platform_id = input.platform_id;
  node_id = input.node_id;
  comment = input.comment;
  is_active = or_active input.is_active true;
})

-- The id of the input is not used.
unfoldable pub change_asset : Store → ℕ → Asset → Store × Result Asset
change_asset s id input = elim (get_asset s id) [
  | err e ↦ (s, err e)
  | ok asset ↦ update_asset s (record input { id = asset.id })
]

unfoldable pub remove_asset : Store → ℕ → Store × Result (Unit {0})
remove_asset s id = delete_asset s id

unfoldable pub tree : Store → List Node × List (Asset × Platform)
tree s = (list_nodes s, list_assets s)

abbrev pub hidden : Account → Account
hidden a = record a { secret = []; passphrase = [] }

unfoldable pub hidden_accounts : Store → ℕ → List Account
hidden_accounts s asset_id = map hidden (list_accounts s asset_id)

abbrev pub or_password : Text → Text
or_password t = if null t then codes "password" else t

-- `box.EncryptString` is a parameter.
module _ (encrypt_string : Text → Result Text) where
  abbrev pub new_account : ℕ → AccountInput → Text → Text → Account
  new_account asset_id input secret passphrase = record {
    id = 0;
    asset_id = asset_id;
    name = input.name;
    username = input.username;
    secret = secret;
    secret_type = or_password input.secret_type;
    ssh_key_type = input.ssh_key_type;
    passphrase = passphrase;
    su_enabled = input.su_enabled;
    su_method = input.su_method;
    su_account_id = input.su_account_id;
    db_name = input.db_name;
    is_active = or_active input.is_active true;
  }

  unfoldable pub encrypted : AccountInput → Result (Text × Text)
  encrypted input = do
    secret ← encrypt_string input.secret
    passphrase ← encrypt_string input.passphrase
    ok (secret, passphrase)

  unfoldable pub add_account : Store → ℕ → AccountInput → Store × Result Account
  unfolding encrypted
  add_account s asset_id input = elim (encrypted input) [
    | err e ↦ (s, err e)
    | ok (secret, passphrase) ↦
        let made = create_account s (new_account asset_id input secret passphrase) in
        (made.0, (made.1 >>= λ a. ok (hidden a)))
  ]

  -- A new secret is encrypted; an empty one leaves the stored one.
  unfoldable pub next_secret : Text → Text → Result Text
  next_secret stored given =
      let changed = encrypt_string given in if null given then ok stored else changed

  unfoldable pub changed_account : AccountInput → Account → Result Account
  unfolding next_secret
  changed_account input a = do
    secret ← next_secret a.secret input.secret
    passphrase ← next_secret a.passphrase input.passphrase
    ok (record a {
      name = input.name;
      username = input.username;
      secret = secret;
      secret_type = or_password input.secret_type;
      ssh_key_type = input.ssh_key_type;
      passphrase = passphrase;
      su_enabled = input.su_enabled;
      su_method = input.su_method;
      su_account_id = input.su_account_id;
      db_name = input.db_name;
      is_active = or_active input.is_active a.is_active;
    })

  unfoldable pub change_account : Store → ℕ → ℕ → AccountInput → Store × Result Account
  unfolding changed_account
  change_account s asset_id account_id input =
      elim (get_asset_account s asset_id account_id >>= changed_account input) [
        | err e ↦ (s, err e)
        | ok a ↦ let saved = update_account s a in (saved.0, (saved.1 >>= λ row. ok (hidden row)))
      ]

unfoldable pub remove_account : Store → ℕ → ℕ → Store × Result (Unit {0})
remove_account s asset_id account_id = delete_account s asset_id account_id
