-- ===== src/Store/Settings.antt =====
-- The settings of store.go and settings_policy.go.
use turjmp.Prelude.{
  ℕ, zero, suc, Bool, true, false, ◌&&◌, Option, none, some, List, [], ◌∷◌, ltb, leb, ◌==◌,
  if◌then◌else◌, null, all, Text, codes, text_eq,
}
use turjmp.Strings.{byte_length, trim_space, trim_left, trim_right, one_of}
use turjmp.Domain.{ok, err, Setting}
use turjmp.Postgres.{ℤ, parse_int64}
use turjmp.Store.{Store}
use turjmp.Store.Rows.{get_setting}

-- INSERT … ON CONFLICT (key) DO UPDATE: one row for each key.
unfoldable pub upsert_row : Setting → List Setting → List Setting
upsert_row x [] = x ∷ []
upsert_row x (row ∷ rows) =
    let rest = upsert_row x rows in if text_eq row.key x.key then x ∷ rows else row ∷ rest

unfoldable pub upsert_setting : Store → Setting → Store
unfolding upsert_row
upsert_setting s x = record s { settings = upsert_row x s.settings }

-- `json.Unmarshal` into a bool, of a text with no space at its ends; `null` leaves the zero value.
unfoldable pub json_bool : Text → Option Bool
json_bool raw =
    if text_eq raw (codes "true")
    then some true
    else if one_of raw (codes "false" ∷ codes "null" ∷ [])
    then some false
    else none

-- strconv.ParseBool
unfoldable pub parse_bool : Text → Option Bool
parse_bool raw =
    if one_of raw
      (codes "1" ∷ codes "t" ∷ codes "T" ∷ codes "TRUE" ∷ codes "true" ∷ codes "True" ∷ [])
    then some true
    else if one_of raw
        (codes "0" ∷ codes "f" ∷ codes "F" ∷ codes "FALSE" ∷ codes "false" ∷ codes "False" ∷ [])
    then some false
    else none

is_quote : ℕ → Bool
is_quote c = c == 34

unfoldable pub decode_bool : Text → Bool → Bool
unfolding json_bool parse_bool is_quote
decode_bool raw fallback = if null raw then fallback else elim (json_bool raw) [
  | some b ↦ b
  | none ↦ elim (parse_bool (trim_right is_quote (trim_left is_quote raw))) [
    | some b ↦ b
    | none ↦ fallback
  ]
]

unfoldable pub setting_bool : Store → Text → Bool → Bool
unfolding decode_bool
setting_bool s key fallback = elim (get_setting s key) [
  | err e ↦ fallback
  | ok x ↦ decode_bool (trim_space x.value) fallback
]

-- A number of JSON with no fraction and no exponent.
unfoldable pub is_json_digits : Text → Bool
is_json_digits [] = false
is_json_digits (c ∷ cs) =
    if null cs
    then leb b'0' c && leb c b'9'
    else (leb b'1' c && leb c b'9') && all (λ d. leb b'0' d && leb d b'9') cs

unfoldable pub is_json_integer : Text → Bool
unfolding is_json_digits
is_json_integer [] = false
is_json_integer (c ∷ cs) = if c == b'-' then is_json_digits cs else is_json_digits (c ∷ cs)

-- `json.Unmarshal` into an int, of a text with no space at its ends; `null` leaves the zero value.
unfoldable pub json_int : Text → Option ℤ
unfolding is_json_integer
json_int raw =
    if text_eq raw (codes "null")
    then some (ℤ.pos 0)
    else if is_json_integer raw
    then parse_int64 raw
    else none

unfoldable pub decode_int : Text → ℤ → ℤ
unfolding json_int is_quote
decode_int raw fallback = if null raw then fallback else elim (json_int raw) [
  | some n ↦ n
  | none ↦ elim (parse_int64 (trim_right is_quote (trim_left is_quote raw))) [
    | some n ↦ n
    | none ↦ fallback
  ]
]

unfoldable pub setting_int : Store → Text → ℤ → ℤ
unfolding decode_int
setting_int s key fallback = elim (get_setting s key) [
  | err e ↦ fallback
  | ok x ↦ decode_int (trim_space x.value) fallback
]

-- `effectivePasswordMinLength` of the users' and of the RDP credentials' service.
unfoldable pub effective_password_min_length : Store → ℤ → ℤ
unfolding setting_int
effective_password_min_length s password_min_length =
    elim (setting_int s (codes "security.password_min_length") password_min_length) [
      | ℤ.pos zero ↦ password_min_length
      | ℤ.pos (suc n) ↦ ℤ.pos (suc n)
      | ℤ.negsuc n ↦ password_min_length
    ]

-- `len(password) < min`, in bytes.
unfoldable pub is_shorter : Text → ℤ → Bool
unfolding byte_length
is_shorter password (ℤ.pos n) = ltb (byte_length password) n
is_shorter password (ℤ.negsuc n) = false
