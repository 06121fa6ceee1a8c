-- ===== src/Connection/Token.antt =====
-- extractConnectionToken of internal/proxy/db/types.go and internal/proxy/ssh/token.go: how a native
-- client hands its connection token over.
use turjmp.Prelude.{
  ℕ, ◌≡◌, refl, Bool, false, not, Option, none, some, [], ◌∷◌, ◌++◌, arith, ◌==◌, if◌then◌else◌,
  null, Text,
}
use turjmp.Strings.{is_space, trim_func, trim_space, trim_left, after_last}
use turjmp.Strings.Trim.{StartsKept, EndsKept, trim_func_kept, trim_func-append}
use turjmp.Strings.Split.{Lacks, after_last-append, after_last-none}

-- The null bytes that `strings.Trim(s, "\x00")` takes off.
unfoldable pub is_nul : ℕ → Bool
is_nul c = c == 0

unfoldable pub normalize_token_candidate : Text → Text
unfolding is_nul
normalize_token_candidate candidate = trim_space (trim_func is_nul (trim_space candidate))

-- The token behind the last `#`, unless nothing follows it.
unfoldable pub token_after_hash : Text → Option Text
token_after_hash candidate = elim (after_last b'#' candidate) [
  | none ↦ none
  | some t ↦ if null t then none else some (trim_space t)
]

unfoldable pub extract_connection_token : Text → Text → Text
extract_connection_token username password =
    let u = normalize_token_candidate username in
    let p = normalize_token_candidate password in
    elim (token_after_hash u) [
      | some t ↦ t
      | none ↦ elim (token_after_hash p) [ some t ↦ t | none ↦ if not (null p) then p else u ]
    ]

-- A token value that survives the clean-up: not empty, no `#`, and nothing at its ends that is trimmed.
pub record IsToken (t : Text) : Type 0 where
  pub not_empty : null t ≡ false
  pub no_hash : Lacks b'#' t
  pub starts : StartsKept is_space t
  pub ends : EndsKept is_space t
  pub ends_nul : EndsKept is_nul t

hash_ends : (p : ℕ → Bool) (t : Text) → null t ≡ false → EndsKept p t → EndsKept p (b'#' ∷ t)
hash_ends p [] n h = absurd (cc n)
hash_ends p (c ∷ t) n h = h

normalize-append :
    (s t : Text)
    → IsToken t
    → (front : Text) × (normalize_token_candidate (s ++ b'#' ∷ t) ≡ front ++ b'#' ∷ t)
unfolding normalize_token_candidate trim_space
normalize-append s t h = (
  trim_left is_space (trim_left is_nul (trim_left is_space s)),
  rw (
    trim_func-append is_space s t b'#' (unfold is_space in refl)
        (hash_ends is_space t h.not_empty h.ends),
    trim_func-append is_nul (trim_left is_space s) t b'#' (unfold is_nul in refl)
        (hash_ends is_nul t h.not_empty h.ends_nul),
    trim_func-append is_space (trim_left is_nul (trim_left is_space s)) t b'#'
        (unfold is_space in refl) (hash_ends is_space t h.not_empty h.ends),
  ),
)

token_after_hash-append :
    (front t : Text) → IsToken t → token_after_hash (front ++ b'#' ∷ t) ≡ some t
unfolding token_after_hash trim_space
token_after_hash-append front t h = ground (
  arith,
  after_last-append b'#' front t h.no_hash,
  h.not_empty,
  trim_func_kept is_space t h.starts h.ends,
)

-- A token in the form `name#token`, as the program writes it for native clients, is found in the user
-- name, whatever stands before the mark and whatever the password is.
pub extract-username_token :
    (name t password : Text) → IsToken t → extract_connection_token (name ++ b'#' ∷ t) password ≡ t
unfolding extract_connection_token
extract-username_token name t password h =
    let (front, e) = normalize-append name t h in
    rw (e, token_after_hash-append front t h, extract_connection_token)

-- With no mark in the user name, a token in the form `name#token` is found in the password.
extract-password_token :
    (username name t : Text)
    → IsToken t
    → Lacks b'#' (normalize_token_candidate username)
    → extract_connection_token username (name ++ b'#' ∷ t) ≡ t
unfolding extract_connection_token
extract-password_token username name t h lacks =
    let (front, e) = normalize-append name t h in
    let plain : token_after_hash (normalize_token_candidate username) ≡ none =
      unfold token_after_hash in
      rw (after_last-none b'#' (normalize_token_candidate username) lacks, token_after_hash) in
    rw (plain, e, token_after_hash-append front t h, extract_connection_token)

-- With no mark anywhere the whole password is the token, and the user name if there is no password.
extract_plain :
    (username password : Text)
    → Lacks b'#' (normalize_token_candidate username)
    → Lacks b'#' (normalize_token_candidate password)
    → extract_connection_token username password ≡ (
        if null (normalize_token_candidate password)
        then normalize_token_candidate username
        else normalize_token_candidate password)
unfolding extract_connection_token
extract_plain username password a b =
    let u = normalize_token_candidate username in
    let p = normalize_token_candidate password in
    unfold token_after_hash in ground (arith, after_last-none b'#' u a, after_last-none b'#' p b)
