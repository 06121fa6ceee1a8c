-- ===== src/Settings.antt =====
-- internal/service/settings.go. The cache of the service is written and never read there, and is left
-- out.
use turjmp.Prelude.{
  ◌≡◌, ap, inl, inr, Bool, true, false, not, ◌&&◌, ◌||◌, some, List, [], ◌∷◌, arith, if◌then◌else◌,
  Bool-cases, Option-cases, null, find?, find?-found, Text, codes, text_eq, text_eq→eq,
  text_eq_refl,
}
use turjmp.Domain.{Result, ok, err, ◌>>=◌, found, Setting}
use turjmp.Store.{Store}
use turjmp.Store.Rows.{get_setting}
use turjmp.Store.Permission.{contains}
use turjmp.Store.Settings.{upsert_row, upsert_setting}

abbrev pub mask : Text
mask = codes "******"

unfoldable pub is_secret_setting : Setting → Bool
unfolding contains
is_secret_setting x =
    text_eq x.input_type (codes "secret")
    || (contains x.key (codes "secret") || contains x.key (codes "access_key"))

-- Two quotes are the JSON of the empty text.
unfoldable pub mask_secret : Text → Text
mask_secret value = if null value || text_eq value (34 ∷ 34 ∷ []) then value else mask

unfoldable pub shown : Setting → Setting
unfolding is_secret_setting mask_secret
shown x = if is_secret_setting x then record x { value = mask_secret x.value } else x

-- `Get`
unfoldable pub get_shown : Store → Text → Result Setting
unfolding shown
get_shown s key = get_setting s key >>= λ x. ok (shown x)

-- The value that `Update` stores; `encrypt_string` is `box.EncryptString`.
unfoldable pub stored_value : (Text → Result Text) → Setting → Text → Result Text
unfolding is_secret_setting
stored_value encrypt_string x value =
    if is_secret_setting x && (not (null value) && not (text_eq value mask))
    then encrypt_string value
    else if is_secret_setting x && text_eq value mask
    then ok x.value
    else ok value

unfoldable pub update_setting : (Text → Result Text) → Store → Text → Text → Store × Result Setting
unfolding stored_value shown
update_setting encrypt_string s key value = elim (get_setting s key) [
  | err e ↦ (s, err e)
  | ok x ↦ elim (stored_value encrypt_string x value) [
    | err e ↦ (s, err e)
    | ok v ↦ (upsert_setting s (record x { value = v }), ok (shown (record x { value = v })))
  ]
]

setting_key :
    (s : Store) (key : Text) (x : Setting) → get_setting s key ≡ ok x → text_eq x.key key ≡ true
unfolding get_setting
setting_key s key x h = elim (Option-cases (find? (λ r. text_eq r.key key) s.settings)) [
  | inl e ↦ absurd (ground (arith, e, h))
  | inr (r, e) ↦ ground (arith, e, h, find?-found (λ q. text_eq q.key key) s.settings r e)
]

find-upsert :
    (x : Setting) (key : Text) (rows : List Setting)
    → text_eq x.key key ≡ true
    → find? (λ r. text_eq r.key key) (upsert_row x rows) ≡ some x
unfolding upsert_row
find-upsert x key [] h = ground (arith, h)
find-upsert x key (r ∷ rows) h = elim (Bool-cases (text_eq r.key x.key)) [
  | inl e ↦ ground (arith, e, h)
  | inr e ↦ ground (arith, e, h, find-upsert x key rows h, text_eq→eq x.key key h)
]

get-upsert :
    (s : Store) (x : Setting) (key : Text)
    → text_eq x.key key ≡ true
    → get_setting (upsert_setting s x) key ≡ ok x
unfolding get_setting upsert_setting
get-upsert s x key h = ap found (find-upsert x key s.settings h)

-- Saving a form with the masked value of a secret that it was shown leaves the secret as it is: the
-- table has the row as before. A stored value of two quotes, which is shown as it is, is the exception.
pub update-shown :
    (encrypt_string : Text → Result Text) (s : Store) (key : Text) (x : Setting)
    → get_setting s key ≡ ok x
    → text_eq x.value (34 ∷ 34 ∷ []) ≡ false
    → get_setting ((update_setting encrypt_string s key (shown x).value).0) key ≡ ok x
unfolding update_setting stored_value shown mask_secret
update-shown encrypt_string s key x h q =
    let named = setting_key s key x h in
    elim (Bool-cases (is_secret_setting x)) [
      | inr e ↦ ground (arith, h, e, get-upsert s x key named)
      | inl e ↦ elim (Bool-cases (null x.value)) [
        | inl n ↦ ground (arith, h, e, n, get-upsert s x key named)
        | inr n ↦ ground (arith, h, e, q, n, text_eq_refl mask, get-upsert s x key named)
      ]
    ]
