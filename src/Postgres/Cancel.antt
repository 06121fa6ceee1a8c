-- ===== src/Postgres/Cancel.antt =====
-- The registry of postgres_protocol.go that forwards cancel requests.
pub mod Forward
use turjmp.Prelude.{
  ℕ, zero, suc, ◌+◌, ◌-◌, ◌*◌, ◌/◌, ◌%◌, ◌^◌, ◌≤◌, ◌<◌, ◌≡◌, refl, sym, ap, ◌∙◌, ◌≢◌, ◌↔◌, ◌⊎◌, inl,
  inr, Bool, true, false, not, ◌&&◌, ◌||◌, Option, none, some, List, [], ◌∷◌, ◌++◌, append-nil,
  append_assoc, arith, ltb, leb, ◌==◌, if◌then◌else◌, ltb→lt, lt→ltb, leb→le, ==_iff, ==_refl,
  Bool-cases, Option-cases, length, get_or, take, drop, replicate, slice, null, any, all, filter,
  find?, All, length-append, take-append_length, drop-append_length, length-take, length-drop,
  length-replicate, drop-append_add, get_or-append_add, slice-append_add, slice_middle, slice_at,
  ◌∈◌, ∈-append_left, ∈-append_right, ∈-append_cases, ∈-filter, filter-∈, any-∈, ∈-any,
  length-filter_split, null-length, find?-found, find?-append, find?-none, any-append, all-append,
  Text, Bytes, IsByte, codes, text_eq, text_eq→eq, text_eq_refl, text_eq_iff, le_bytes, le_value,
  le_value-le_bytes, length-le_bytes, le_bytes-IsByte,
}

-- A 32-bit number, most significant byte first.
unfoldable pub be_uint32 : ℕ → Bytes
be_uint32 n = n / 2 ^ 24 % 256 ∷ n / 2 ^ 16 % 256 ∷ n / 2 ^ 8 % 256 ∷ n % 256 ∷ []

unfoldable pub postgres_cancel_bytes : ℕ → Bytes → Bytes
unfolding be_uint32
postgres_cancel_bytes process_id secret_key =
    be_uint32 (12 + length secret_key)
    ++ (be_uint32 80877102 ++ (be_uint32 process_id ++ secret_key))

pub record PostgresCancelTarget : Type 0 where
  pub network : Text
  pub address : Text
  pub process_id : ℕ
  pub secret_key : Bytes

-- The decimal digits of a number, least significant first, on as much fuel as the number.
unfoldable pub digits_from : ℕ → ℕ → Text
digits_from zero n = []
digits_from (suc fuel) n =
    let rest = digits_from fuel (n / 10) in if n == 0 then [] else (b'0' + n % 10) ∷ rest

unfoldable pub reversed : Text → Text → Text
reversed [] acc = acc
reversed (c ∷ s) acc = reversed s (c ∷ acc)

-- strconv.FormatUint(n, 10); a number of 32 bits has at most 10 digits.
unfoldable pub format_uint : ℕ → Text
unfolding digits_from reversed
format_uint n = if n == 0 then b'0' ∷ [] else reversed (digits_from 10 n) []

unfoldable pub hex_digit : ℕ → ℕ
hex_digit d = if ltb d 10 then b'0' + d else b'a' + (d - 10)

-- hex.EncodeToString
unfoldable pub hex : Bytes → Text
unfolding hex_digit
hex [] = []
hex (b ∷ bs) = hex_digit (b / 16) ∷ hex_digit (b % 16) ∷ hex bs

unfoldable pub postgres_cancel_key : ℕ → Bytes → Text
unfolding format_uint hex
postgres_cancel_key process_id secret_key = format_uint process_id ++ (b':' ∷ hex secret_key)

-- The map `entries`.
abbrev pub PostgresCancelRegistry : Type 0
PostgresCancelRegistry = List (Text × PostgresCancelTarget)

unfoldable pub remove_key : Text → PostgresCancelRegistry → PostgresCancelRegistry
remove_key key [] = []
remove_key key ((k, t) ∷ r) =
    let rest = remove_key key r in if text_eq k key then rest else (k, t) ∷ rest

unfoldable pub find_key : Text → PostgresCancelRegistry → Option PostgresCancelTarget
find_key key [] = none
find_key key ((k, t) ∷ r) = if text_eq k key then some t else find_key key r

unfoldable pub add : PostgresCancelRegistry → PostgresCancelTarget → PostgresCancelRegistry
unfolding remove_key postgres_cancel_key
add r target =
    let key = postgres_cancel_key target.process_id target.secret_key in
    (key, target) ∷ remove_key key r

-- The function that `add` returns.
unfoldable pub remove : PostgresCancelRegistry → PostgresCancelTarget → PostgresCancelRegistry
unfolding remove_key postgres_cancel_key
remove r target = remove_key (postgres_cancel_key target.process_id target.secret_key) r

-- What `forward` dials and writes: network, address and bytes. None is its error.
unfoldable pub forward : PostgresCancelRegistry → ℕ → Bytes → Option (Text × (Text × Bytes))
unfolding find_key postgres_cancel_key
forward r process_id secret_key = elim (find_key (postgres_cancel_key process_id secret_key) r) [
  | none ↦ none
  | some t ↦ some (t.network, (t.address, postgres_cancel_bytes t.process_id t.secret_key))
]
