-- ===== src/Rdp/Route.antt =====
-- ParseRDPRouteUsername: the user name `<user>#<asset>#<account>` that a native RDP client sends.
use turjmp.Prelude.{
  ℕ, zero, suc, ◌^◌, ◌≤◌, ◌<◌, ◌≡◌, refl, ap, ◌∙◌, false, not, Option, none, some, List, [], ◌∷◌,
  ◌++◌, arith, if◌then◌else◌, null, Text,
}
use turjmp.Strings.{trim_space, is_space, split}
use turjmp.Strings.Trim.{StartsKept, EndsKept, trim_func_kept}
use turjmp.Strings.Split.{Lacks, split-Lacks, split-append}
use turjmp.Strings.Decimal.{
  decimal, decimal-IsDigits, decimal-null, parse-decimal, digits-StartsKept, digits-EndsKept,
  digits-Lacks,
}
use turjmp.Postgres.{ℤ, parse_int64}
use turjmp.Domain.{Error, Result, ok, err, ◌>>=◌, ◌>>◌, guard}

pub record RdpRouteUsername : Type 0 where
  pub username : Text
  pub asset_id : ℕ
  pub account_id : ℕ

-- A number that is positive.
unfoldable pub positive : Option ℤ → Result ℕ
positive none = err Error.invalid_argument
positive (some (ℤ.pos zero)) = err Error.invalid_argument
positive (some (ℤ.pos (suc n))) = ok (suc n)
positive (some (ℤ.negsuc n)) = err Error.invalid_argument

unfoldable pub parse_positive_route_id : Text → Result ℕ
unfolding positive
parse_positive_route_id raw =
    let t = trim_space raw in
    if null t then err Error.invalid_argument else positive (parse_int64 t)

unfoldable pub route_of_parts : Text → Text → Text → Result RdpRouteUsername
unfolding parse_positive_route_id
route_of_parts user asset account = do
  asset_id ← parse_positive_route_id asset
  guard (not (null (trim_space user))) Error.invalid_argument
  account_id ← parse_positive_route_id account
  ok (record { username = trim_space user; asset_id = asset_id; account_id = account_id })

unfoldable pub route_of : List Text → Result RdpRouteUsername
unfolding route_of_parts
route_of [] = err Error.invalid_argument
route_of (user ∷ []) = err Error.invalid_argument
route_of (user ∷ asset ∷ []) = err Error.invalid_argument
route_of (user ∷ asset ∷ account ∷ []) = route_of_parts user asset account
route_of (user ∷ asset ∷ account ∷ more ∷ rest) = err Error.invalid_argument

unfoldable pub parse_rdp_route_username : Text → Result RdpRouteUsername
unfolding route_of
parse_rdp_route_username raw = route_of (split b'#' raw)

-- `fmt.Sprintf("%s#%d#%d", …)`
unfoldable pub route_username : Text → ℕ → ℕ → Text
route_username username asset_id account_id =
    username ++ b'#' ∷ (decimal asset_id ++ b'#' ∷ decimal account_id)

parse_id-decimal : (n : ℕ) → 1 ≤ n → n < 2 ^ 63 → parse_positive_route_id (decimal n) ≡ ok n
unfolding parse_positive_route_id positive trim_space
parse_id-decimal zero l h = absurd (omega (arith, l))
parse_id-decimal (suc n) l h =
    let d = decimal-IsDigits (suc n) in
    let trimmed =
      trim_func_kept is_space (decimal (suc n)) (digits-StartsKept _ d) (digits-EndsKept _ d) in
    rw (trimmed, decimal-null (suc n), parse-decimal (suc n) h) refl

no_mark : (n : ℕ) → Lacks b'#' (decimal n)
no_mark n = digits-Lacks b'#' (decimal n) refl (decimal-IsDigits n)

split-route :
    (u : Text) (a c : ℕ)
    → Lacks b'#' u
    → split b'#' (route_username u a c) ≡ u ∷ decimal a ∷ decimal c ∷ []
unfolding route_username
split-route u a c h =
    split-append b'#' u (decimal a ++ b'#' ∷ decimal c) h
    ∙ ap (◌∷◌ u) (
        split-append b'#' (decimal a) (decimal c) (no_mark a)
        ∙ ap (◌∷◌ (decimal a)) (split-Lacks b'#' (decimal c) (no_mark c)))

-- The user name that is written into the .rdp file of a user, an asset and an account is parsed to
-- these three, if the user's name is not empty, has no `#` and no space at its ends, and the ids are
-- positive 64-bit integers.
pub parse-route_username :
    (u : Text) (a c : ℕ)
    → null u ≡ false
    → Lacks b'#' u
    → StartsKept is_space u
    → EndsKept is_space u
    → 1 ≤ a
    → a < 2 ^ 63
    → 1 ≤ c
    → c < 2 ^ 63
    → parse_rdp_route_username (route_username u a c)
      ≡ ok (record { username = u; asset_id = a; account_id = c })
unfolding parse_rdp_route_username route_of route_of_parts trim_space
parse-route_username u a c n m sk ek la ha lc hc =
    let trimmed = trim_func_kept is_space u sk ek in
    rw (split-route u a c m, parse_id-decimal a la ha, parse_id-decimal c lc hc, trimmed, n) refl
