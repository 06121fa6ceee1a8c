-- ===== src/Postgres/Cancel/Forward.antt =====
-- A cancel request reaches the session that it names, and no other.
use turjmp.Prelude.{
  ℕ, ◌+◌, ◌*◌, ◌^◌, ◌<◌, ◌≡◌, refl, ◌&&◌, Option, none, some, [], ◌∷◌, ◌++◌, arith, ◌==◌,
  if◌then◌else◌, length, get_or, drop, Text, Bytes, text_eq_refl,
}
use turjmp.Postgres.Cancel.{
  PostgresCancelTarget, be_uint32, postgres_cancel_bytes, PostgresCancelRegistry, remove_key,
  find_key, add, remove, forward, postgres_cancel_key,
}

be_value : Bytes → ℕ
be_value bs =
    get_or bs 0 0 * 2 ^ 24 + get_or bs 1 0 * 2 ^ 16 + get_or bs 2 0 * 2 ^ 8 + get_or bs 3 0

be_value-be_uint32 : (n : ℕ) (rest : Bytes) → n < 2 ^ 32 → be_value (be_uint32 n ++ rest) ≡ n
unfolding be_value be_uint32
be_value-be_uint32 n rest h = omega arith

-- What a server reads of a CancelRequest: its length, its code, then the process and the key.
unfoldable pub read_cancel : Bytes → Option (ℕ × Bytes)
unfolding be_value
read_cancel bs =
    if be_value bs == length bs && be_value (drop 4 bs) == 80877102
    then some (be_value (drop 8 bs), drop 12 bs)
    else none

length-cancel :
    (process_id : ℕ) (secret_key : Bytes)
    → length (postgres_cancel_bytes process_id secret_key) ≡ 12 + length secret_key
unfolding postgres_cancel_bytes be_uint32
length-cancel process_id secret_key = omega arith

magic : (rest : Bytes) → be_value (be_uint32 80877102 ++ rest) ≡ 80877102
magic rest = be_value-be_uint32 80877102 rest (omega arith)

read_cancel-bytes :
    (process_id : ℕ) (secret_key : Bytes)
    → process_id < 2 ^ 32
    → 12 + length secret_key < 2 ^ 32
    → read_cancel (postgres_cancel_bytes process_id secret_key) ≡ some (process_id, secret_key)
unfolding read_cancel postgres_cancel_bytes be_uint32
read_cancel-bytes process_id secret_key h k = ground (
  arith,
  be_value-be_uint32 (12 + length secret_key)
      (be_uint32 80877102 ++ (be_uint32 process_id ++ secret_key)) k,
  be_value-be_uint32 process_id secret_key h,
  magic (be_uint32 process_id ++ secret_key),
)

find_key-removed :
    (key : Text) (r : PostgresCancelRegistry) → find_key key (remove_key key r) ≡ none
unfolding find_key remove_key
find_key-removed key [] = refl
find_key-removed key ((k, t) ∷ r) = ground (arith, find_key-removed key r)

-- A request for a registered session goes to that session's server, and the server reads from it the
-- session's process and key.
forward-add :
    (r : PostgresCancelRegistry) (t : PostgresCancelTarget)
    → t.process_id < 2 ^ 32
    → 12 + length t.secret_key < 2 ^ 32
    → (bytes : Bytes) × (forward (add r t) t.process_id t.secret_key
          ≡ some (t.network, (t.address, bytes))
        × (read_cancel bytes ≡ some (t.process_id, t.secret_key)))
unfolding forward add find_key
forward-add r t h k = (
  postgres_cancel_bytes t.process_id t.secret_key,
  (
    ground (arith, text_eq_refl (postgres_cancel_key t.process_id t.secret_key)),
    read_cancel-bytes t.process_id t.secret_key h k,
  ),
)

-- After the session has ended a request for it is refused.
forward-remove :
    (r : PostgresCancelRegistry) (t : PostgresCancelTarget)
    → forward (remove (add r t) t) t.process_id t.secret_key ≡ none
unfolding forward remove
forward-remove r t =
    ground (arith, find_key-removed (postgres_cancel_key t.process_id t.secret_key) (add r t))
