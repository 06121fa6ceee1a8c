-- ===== src/Tests/Clients.antt =====
-- Native clients and second factors.
use turjmp.Prelude.{◌≡◌, refl, ◌⊎◌, false, some, [], ◌∷◌, ◌++◌, Text, codes, text_eq}
use turjmp.Domain.{Error, ok, err}
use turjmp.Store.{Store}
use turjmp.Store.Rows.{get_user_by_username}
use turjmp.Auth.{LoginResult, login}
use turjmp.Auth.Mfa.{verify_mfa, verify_mfa-login}
use turjmp.Sdk.{shell_quote}
use turjmp.Sdk.Url.{ssh_command, postgres_command}
use turjmp.Sdk.Quote.{word, word-shell_quote}
use turjmp.Tests.World.{user, store, credentials, drawn}

abbrev awkward : Text
awkward = codes "it's $me"

word-shell_quote_example :
    word (shell_quote awkward ++ b' ' ∷ codes "host") ≡ some (awkward, codes "host")
unfolding turjmp.Strings.has_prefix
word-shell_quote_example = word-shell_quote awkward (codes "host") refl

ssh_written :
    ssh_command (codes "10.0.0.9") 2222 (codes "app#abc") ≡ codes "ssh -p 2222 -l app#abc 10.0.0.9"
unfolding ssh_command turjmp.Strings.Decimal.decimal shell_quote
ssh_written = refl

postgres_written :
    postgres_command (codes "gw") 5437 (codes "a b#abc") (codes "db")
    ≡ codes "psql -h gw -p 5437 -U 'a b#abc' -d db"
unfolding postgres_command shell_quote turjmp.Strings.Decimal.decimal turjmp.Strings.replace_all
postgres_written = refl

abbrev unready : Store
unready = record store { users = record user { mfa_enabled = false } ∷ [] }

is_verified : (verify_mfa credentials unready 1 (codes "123456")).1 ≡ ok user
unfolding verify_mfa turjmp.Store.Rows.get_user turjmp.Strings.trim_space text_eq
    turjmp.Store.Users.update_user
is_verified = refl

is_ann :
    get_user_by_username ((verify_mfa credentials unready 1 (codes "123456")).0) (codes "ann")
    ≡ ok user
unfolding verify_mfa get_user_by_username turjmp.Store.Rows.get_user turjmp.Strings.trim_space
    text_eq turjmp.Store.Users.update_user
is_ann = refl

no_code : credentials.validate_totp (codes "0") user.mfa_secret ≡ false
unfolding text_eq
no_code = refl

verify_mfa-login_example :
    (login credentials
        ((verify_mfa credentials unready 1 (codes "123456")).0)
        20
        drawn
        (codes "ann")
        (codes "pw")
        (codes "0")
      ≡ ((verify_mfa credentials unready 1 (codes "123456")).0, ok LoginResult.require_mfa))
    ⊎ (login credentials
          ((verify_mfa credentials unready 1 (codes "123456")).0)
          20
          drawn
          (codes "ann")
          (codes "pw")
          (codes "0")
        ≡ ((verify_mfa credentials unready 1 (codes "123456")).0, err Error.unauthorized))
verify_mfa-login_example =
    verify_mfa-login credentials unready 1 (codes "123456") user user 20 drawn (codes "ann")
      (codes "pw") (codes "0") is_verified is_ann refl no_code
