-- ===== src/Reason.antt =====
-- internal/service/rdp_native.go: the reason that a native RDP session ended for, and the audit action
-- that is named after it. The case of letters outside ASCII is left as it is.
use turjmp.Prelude.{
  ℕ, ◌-◌, ◌≤◌, ◌≡◌, refl, inl, inr, Bool, true, false, ◌&&◌, ◌||◌, Option, none, some, [], ◌∷◌,
  ◌++◌, arith, leb, ◌==◌, if◌then◌else◌, Bool-cases, Option-cases, length, null, all, Text, codes,
}
use turjmp.Strings.{trim_space, to_lower, has_prefix, one_of}
use turjmp.Postgres.{parse_int64}

-- What the loop writes for a rune.
unfoldable pub kept_rune : ℕ → Option ℕ
kept_rune r =
    if leb b'a' r && leb r b'z'
    then some r
    else if leb b'0' r && leb r b'9'
    then some r
    else if r == b'_' || (r == b'-' || r == b'.')
    then some r
    else if r == b' '
    then some b'_'
    else none

-- The loop, with room for so many bytes; it ends when none is left.
unfoldable pub keep_runes : ℕ → Text → Text
unfolding kept_rune
keep_runes room [] = []
keep_runes room (r ∷ rs) =
    let skipped = keep_runes room rs in
    let more = keep_runes (room - 1) rs in
    elim (kept_rune r) [ none ↦ skipped | some c ↦ if leb room 1 then c ∷ [] else c ∷ more ]

unfoldable pub or_disconnect : Text → Text
or_disconnect t = if null t then codes "disconnect" else t

unfoldable pub sanitize_native_rdp_reason : Text → Text
unfolding keep_runes or_disconnect
sanitize_native_rdp_reason reason = or_disconnect (keep_runes 64 (trim_space (to_lower reason)))

unfoldable pub native_rdp_finish_action : Text → Text
native_rdp_finish_action reason =
    let named =
      codes "target_login_failed"
      ∷ codes "target_connect_failed"
      ∷ codes "target_dial_failed"
      ∷ codes "idle_timeout"
      ∷ codes "proxy_shutdown"
      ∷ [] in
    if one_of reason named
    then codes "rdp.native." ++ reason
    else if has_prefix reason (codes "target_")
    then codes "rdp.native.target_failure"
    else elim (parse_int64 reason) [
      | some n ↦ codes "rdp.native.disconnect"
      | none ↦ codes "rdp.native.complete"
    ]

-- A character that a reason may have.
unfoldable pub is_plain : ℕ → Bool
is_plain c =
    (leb b'a' c && leb c b'z')
    || ((leb b'0' c && leb c b'9') || (c == b'_' || (c == b'-' || c == b'.')))

kept_plain : (r c : ℕ) → kept_rune r ≡ some c → is_plain c ≡ true
unfolding kept_rune is_plain
kept_plain r c h = ground (arith, h)

keep_runes-fits :
    (room : ℕ) (rs : Text)
    → 1 ≤ room
    → (length (keep_runes room rs) ≤ room) × (all is_plain (keep_runes room rs) ≡ true)
unfolding keep_runes
keep_runes-fits room [] h = (omega arith, refl)
keep_runes-fits room (r ∷ rs) h = elim (Option-cases (kept_rune r)) [
  | inl e ↦ ground (arith, e, keep_runes-fits room rs h)
  | inr (c, e) ↦ elim (Bool-cases (leb room 1)) [
    | inl f ↦ ground (arith, e, f, h, kept_plain r c e)
    | inr f ↦
        ground (arith, e, f, kept_plain r c e, keep_runes-fits (room - 1) rs (ground (arith, f)))
  ]
]

-- Whatever a client or a child process reports, the reason that is stored is not empty, has at most 64
-- characters, and has only lower-case letters, digits, `_`, `-` and `.`.
sanitize_native_rdp_reason_lem :
    (reason : Text)
    → (null (sanitize_native_rdp_reason reason) ≡ false)
      × ((length (sanitize_native_rdp_reason reason) ≤ 64)
          × (all is_plain (sanitize_native_rdp_reason reason) ≡ true))
unfolding sanitize_native_rdp_reason or_disconnect
sanitize_native_rdp_reason_lem reason =
    let kept = keep_runes 64 (trim_space (to_lower reason)) in
    let fits = keep_runes-fits 64 (trim_space (to_lower reason)) (omega arith) in
    elim (Bool-cases (null kept)) [
      | inl e ↦ rw e (refl, (omega arith, unfold is_plain in refl))
      | inr e ↦ rw e (e, fits)
    ]
