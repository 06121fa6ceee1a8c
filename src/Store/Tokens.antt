-- ===== src/Store/Tokens.antt =====
-- The connection tokens of store.go.
pub mod Once
use turjmp.Prelude.{
  ℕ, zero, suc, ◌+◌, ◌-◌, ◌*◌, ◌/◌, ◌%◌, ◌^◌, ◌≤◌, ◌<◌, ◌≡◌, refl, sym, ap, ◌∙◌, ◌≢◌, ◌↔◌, ◌⊎◌, inl,
  inr, Bool, true, false, not, ◌&&◌, ◌||◌, Option, none, some, List, [], ◌∷◌, ◌++◌, append-nil,
  append_assoc, arith, ltb, leb, ◌==◌, if◌then◌else◌, ltb→lt, lt→ltb, leb→le, ==_iff, ==_refl,
  Bool-cases, Option-cases, length, get_or, take, drop, replicate, slice, null, any, all, filter,
  find?, All, length-append, take-append_length, drop-append_length, length-take, length-drop,
  length-replicate, drop-append_add, get_or-append_add, slice-append_add, slice_middle, slice_at,
  Text, Bytes, IsByte, codes, text_eq, text_eq→eq, text_eq_refl, text_eq_iff, le_bytes, le_value,
  le_value-le_bytes, length-le_bytes, le_bytes-IsByte,
}
use turjmp.Domain.{Error, Result, ok, err, found, ConnectionToken}
use turjmp.Store.{Store, next_id}
use mathlib.Core.List.{map}

-- The row gets its id from the table.
abbrev pub new_row : Store → ConnectionToken → ConnectionToken
new_row s t = record t {
  id = next_id (map (λ (row : ConnectionToken). row.id) s.connection_tokens);
}

-- INSERT … RETURNING *; the column `value` is UNIQUE.
unfoldable pub create_connection_token : Store → ConnectionToken → Store × Result ConnectionToken
create_connection_token s t =
    if any (λ row. text_eq row.value t.value) s.connection_tokens then (s, err Error.other) else (
      record s { connection_tokens = s.connection_tokens ++ new_row s t ∷ [] },
      ok (new_row s t),
    )

unfoldable pub get_connection_token : Store → Text → Result ConnectionToken
get_connection_token s value = found (find? (λ row. text_eq row.value value) s.connection_tokens)

-- The condition of the UPDATE.
unfoldable pub is_consumable : ℕ → Text → ConnectionToken → Bool
is_consumable now value row =
    text_eq row.value value
    && (not row.is_reusable
        && ((elim row.used_at [ none ↦ true | some u ↦ false ]) && ltb now row.expires_at))

unfoldable pub use_row : ℕ → Text → ConnectionToken → ConnectionToken
unfolding is_consumable
use_row now value row =
    if is_consumable now value row then record row { used_at = some now } else row

-- The row that the UPDATE returns, if one meets the condition.
unfoldable pub returned_row : ℕ → Option ConnectionToken → Result ConnectionToken
returned_row now none = err Error.not_found
returned_row now (some row) = ok (record row { used_at = some now })

-- UPDATE … WHERE … RETURNING *, at the instant `now`.
unfoldable pub consume_connection_token : Store → ℕ → Text → Store × Result ConnectionToken
unfolding is_consumable use_row returned_row
consume_connection_token s now value = (
  record s { connection_tokens = map (use_row now value) s.connection_tokens },
  returned_row now (find? (is_consumable now value) s.connection_tokens),
)
