-- ===== src/Tests/Services.antt =====
-- Settings, sessions, the actions of a permission, and two forms of the MySQL proxy.
use turjmp.Prelude.{◌≡◌, refl, true, false, some, List, [], ◌∷◌, ◌++◌, Text, codes, text_eq}
use turjmp.Domain.{Result, ok, Setting, Session}
use turjmp.Store.{Store, empty_store}
use turjmp.Store.Rows.{get_setting}
use turjmp.Store.Sessions.{get_session}
use turjmp.Store.Permission.Actions.{HaveNoComma}
use turjmp.Strings.{trim_space}
use turjmp.Strings.Split.{Lacks}
use turjmp.Settings.{update_setting, shown, update-shown}
use turjmp.Mysql.Ident.{quote_mysql_ident, read_ident, read_ident-quote, starts_clear}
use turjmp.Tests.World.{session}

abbrev secret_key : Setting
secret_key = record {
  key = codes "s3.secret_key";
  value = codes "cipher";
  category = codes "storage";
  input_type = codes "secret";
}

abbrev configured : Store
configured = record empty_store { settings = secret_key ∷ [] }

abbrev encrypt_string : Text → Result Text
encrypt_string t = ok (codes "enc:" ++ t)

has_key : get_setting configured (codes "s3.secret_key") ≡ ok secret_key
unfolding get_setting text_eq
has_key = refl

not_quotes : text_eq (codes "cipher") (34 ∷ 34 ∷ []) ≡ false
unfolding text_eq
not_quotes = refl

update-shown_example :
    get_setting
      ((update_setting encrypt_string configured
        (codes "s3.secret_key")
        (shown secret_key).value).0)
      (codes "s3.secret_key")
    ≡ ok secret_key
update-shown_example =
    update-shown encrypt_string configured (codes "s3.secret_key") secret_key has_key not_quotes

abbrev running : Session
running = record session { id = 4; recording_path = codes "a.cast" }

abbrev with_session : Store
with_session = record empty_store { sessions = running ∷ [] }

has_session : get_session with_session 4 ≡ ok running
unfolding get_session
has_session = refl

abbrev actions : List Text
actions = codes " connect" ∷ codes "upload" ∷ [] ∷ codes "connect" ∷ []

no_comma : HaveNoComma actions
unfolding HaveNoComma Lacks trim_space
no_comma = (
  (refl, (refl, (refl, (refl, (refl, (refl, (refl, tt))))))),
  (
    (refl, (refl, (refl, (refl, (refl, (refl, tt)))))),
    (tt, ((refl, (refl, (refl, (refl, (refl, (refl, (refl, tt))))))), tt)),
  ),
)

clear : starts_clear (codes "; drop") ≡ true
unfolding starts_clear
clear = refl

read_ident-quote_example :
    read_ident (quote_mysql_ident (97 ∷ 96 ∷ []) ++ codes "; drop")
    ≡ some (97 ∷ 96 ∷ [], codes "; drop")
read_ident-quote_example = read_ident-quote (97 ∷ 96 ∷ []) (codes "; drop") clear
