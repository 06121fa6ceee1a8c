-- ===== src/Domain.antt =====
-- internal/domain: the records of models.go and the errors of errors.go. An instant is a number of
-- clock ticks; an id is the positive number that the database gave a row.
pub mod Bind
use turjmp.Prelude.{ℕ, Bool, if◌then◌else◌, Option, none, some, Text}

pub data Error : Type 0 where
  not_found unauthorized forbidden invalid_argument conflict : Error
  -- Any other error, of the database, of a cipher or of a parser.
  other : Error

-- What a function that returns a value and an error gives its caller: the error if it is not nil.
pub data Result {ℓ} (T : Type ℓ) : Type ℓ where
  err : (reason : Error) → Result T
  ok : (value : T) → Result T

-- `notFound`: a query with no row.
abbrev pub found {ℓ} : {T : Type ℓ} (row : Option T) → Result T
found (some row) = ok row
found none = err not_found

-- `if err != nil { return …, err }` before the rest of a function.
abbrev pub unless_failed {ℓ κ} :
    {S : Type ℓ} {T : Type κ} (rest : S → Result T) (step : Result S) → Result T
unless_failed rest (err reason) = err reason
unless_failed rest (ok value) = rest value

-- `if !pass { return …, reason }`
abbrev pub guard : (pass : Bool) (reason : Error) → Result (Unit {0})
guard pass reason = if pass then ok tt else err reason

infixl 5 ◌>>=◌
abbrev pub ◌>>=◌ {ℓ κ} :
    {S : Type ℓ} {T : Type κ} (step : Result S) (rest : S → Result T) → Result T
step >>= rest = unless_failed rest step

infixl 5 ◌>>◌
abbrev pub ◌>>◌ {κ} : {T : Type κ} (step : Result (Unit {0})) (rest : Result T) → Result T
step >> rest = unless_failed (λ passed. rest) step

pub record User : Type 0 where
  pub id : ℕ
  pub username : Text
  pub name : Text
  pub email : Text
  pub password_hash : Text
  pub mfa_enabled : Bool
  pub mfa_secret : Text
  pub is_active : Bool
  pub last_login_at : Option ℕ

pub record RdpProxyCredential : Type 0 where
  pub user_id : ℕ
  pub password_hash : Text
  pub is_enabled : Bool
  pub updated_at : ℕ
  pub disabled_at : Option ℕ

pub record PlatformProtocol : Type 0 where
  pub id : ℕ
  pub platform_id : ℕ
  pub name : Text
  pub port : ℕ

pub record Node : Type 0 where
  pub id : ℕ
  pub name : Text
  pub parent_id : Option ℕ

pub record Asset : Type 0 where
  pub id : ℕ
  pub name : Text
  pub address : Text
  pub platform_id : ℕ
  pub node_id : Option ℕ
  pub comment : Text
  pub is_active : Bool

pub record Account : Type 0 where
  pub id : ℕ
  pub asset_id : ℕ
  pub name : Text
  pub username : Text
  pub secret : Text
  pub secret_type : Text
  pub ssh_key_type : Text
  pub passphrase : Text
  pub su_enabled : Bool
  pub su_method : Text
  pub su_account_id : Option ℕ
  pub db_name : Text
  pub is_active : Bool

pub record AssetPermission : Type 0 where
  pub id : ℕ
  pub name : Text
  pub actions : Text
  pub date_start : Option ℕ
  pub date_expired : Option ℕ
  pub is_active : Bool

pub record ConnectionToken : Type 0 where
  pub id : ℕ
  pub value : Text
  pub user_id : ℕ
  pub asset_id : ℕ
  pub account_id : ℕ
  pub protocol : Text
  pub connect_method : Text
  pub is_reusable : Bool
  pub connect_options : Text
  pub used_at : Option ℕ
  pub expires_at : ℕ

pub record Session : Type 0 where
  pub id : ℕ
  pub user_id : ℕ
  pub asset_id : ℕ
  pub account_id : ℕ
  pub protocol : Text
  pub kind : Text
  pub login_from : Text
  pub remote_addr : Text
  pub recording_path : Text
  pub is_finished : Bool
  pub date_end : Option ℕ

pub record Setting : Type 0 where
  pub key : Text
  pub value : Text
  pub category : Text
  pub input_type : Text

pub record RefreshToken : Type 0 where
  pub id : Text
  pub user_id : ℕ
  pub token_hash : Text
  pub expires_at : ℕ
  pub revoked_at : Option ℕ

pub record AuditLog : Type 0 where
  pub user_id : Option ℕ
  pub action : Text
  pub resource : Text
  pub remote_addr : Text
  pub detail : Text

pub record Role : Type 0 where
  pub id : ℕ
  pub name : Text
  pub description : Text

pub record UserGroup : Type 0 where
  pub id : ℕ
  pub name : Text

pub record Platform : Type 0 where
  pub id : ℕ
  pub name : Text
  pub kind : Text
  pub description : Text

pub record HostKey : Type 0 where
  pub id : ℕ
  pub algorithm : Text
  pub fingerprint : Text
  pub private_key : Text
  pub public_key : Text
