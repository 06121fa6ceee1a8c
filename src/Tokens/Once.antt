-- ===== src/Tokens/Once.antt =====
-- A one-time token is good for one connection, whatever else happens to the store in between.
use turjmp.Prelude.{
  ℕ, ◌≡◌, refl, sym, inl, inr, true, false, none, List, [], ◌∷◌, arith, Bool-cases, Option-cases,
  find?, find?-found, Text, text_eq, text_eq→eq,
}
use turjmp.Domain.{Error, Result, ok, err, ConnectionToken}
use turjmp.Domain.Bind.{Result-cases}
use turjmp.Store.{Store}
use turjmp.Store.Tokens.{
  get_connection_token, consume_connection_token, is_consumable, use_row, returned_row,
}
use turjmp.Store.Tokens.Once.{
  IsUnique, IsSpent, is_used, Steps, Steps-IsSpent, consume-IsSpent, IsSpent-consume, IsSpent-known,
}
use turjmp.Tokens.{Net, ProxyAuthConfig, authorize_proxy}
use turjmp.Tokens.Verify.{
  VerifyTokenOptions, VerifyTokenResult, is_expired, lost_race, check_token, consume_checked,
  verify_with_options,
}
use turjmp.Tokens.Verified.{check_token_sound}
use mathlib.Core.List.{map}

module _ (net : Net) (decrypt_string : Text → Result Text) (cfg : ProxyAuthConfig) where
  -- A used token is not accepted again.
  spent_refused :
      (s : Store) (now : ℕ) (v proxy_secret remote_ip : Text) (opts : VerifyTokenOptions)
      → IsSpent v s.connection_tokens
      → check_token net decrypt_string cfg s now v proxy_secret remote_ip opts
        ≡ err Error.unauthorized
  unfolding check_token is_expired
  spent_refused s now v proxy_secret remote_ip opts spent =
      let (row, (e, used)) = IsSpent-known s v spent in
      elim (Bool-cases (authorize_proxy net cfg proxy_secret remote_ip)) [
        | inl a ↦ elim (Option-cases row.used_at) [
          | inl f ↦ absurd (unfold is_used in ground (arith, used, f))
          | inr (u, f) ↦ ground (arith, a, e, f)
        ]
        | inr a ↦ ground (arith, a)
      ]

  abbrev Wins : Store → ℕ → VerifyTokenOptions → VerifyTokenResult → VerifyTokenResult → Type 0
  Wins s at opts checked r = (consume_checked net decrypt_string cfg s at opts checked).1 ≡ ok r

  consume_checked-IsSpent :
      (s : Store) (at : ℕ) (opts : VerifyTokenOptions) (checked r : VerifyTokenResult)
      → opts.consume ≡ true
      → checked.token.is_reusable ≡ false
      → IsUnique s.connection_tokens
      → Wins s at opts checked r
      → IsSpent checked.token.value
          ((consume_checked net decrypt_string cfg s at opts checked).0).connection_tokens
  unfolding consume_checked
  consume_checked-IsSpent s at opts checked r c one u h =
      elim (Result-cases (consume_connection_token s at checked.token.value).1) [
        | inl (e, f) ↦ absurd (ground (arith, c, one, f, h))
        | inr (row, f) ↦ ground (arith, c, one, f, consume-IsSpent s at checked.token.value row u f)
      ]

  -- Of two requests that have both checked the same token, which is not reusable, and both consume it,
  -- the second is refused as unauthorized once the first has been served, whatever tokens were created
  -- or consumed in between, as long as the values in the table are distinct.
  pub one_winner :
      (s t : Store) (at at' : ℕ) (opts opts' : VerifyTokenOptions)
      (checked checked' r : VerifyTokenResult)
      → IsUnique s.connection_tokens
      → opts.consume ≡ true
      → opts'.consume ≡ true
      → checked.token.is_reusable ≡ false
      → checked'.token.is_reusable ≡ false
      → checked'.token.value ≡ checked.token.value
      → (consume_checked net decrypt_string cfg s at opts checked).1 ≡ ok r
      → Steps ((consume_checked net decrypt_string cfg s at opts checked).0) t
      → (consume_checked net decrypt_string cfg t at' opts' checked').1 ≡ err Error.unauthorized
  one_winner s t at at' opts opts' checked checked' r u c c' one one' same h steps =
      let spent =
        Steps-IsSpent _ t checked.token.value steps
          (consume_checked-IsSpent s at opts checked r c one u h) in
      let lost = IsSpent-consume t at' checked'.token.value (rw same spent) in
      unfold consume_checked lost_race in ground (arith, c', one', lost)

  verified_cases :
      (s : Store) (now at : ℕ) (v proxy_secret remote_ip : Text) (opts : VerifyTokenOptions)
      (r : VerifyTokenResult)
      → (verify_with_options net decrypt_string cfg s now at v proxy_secret remote_ip opts).1 ≡ ok r
      → (checked : VerifyTokenResult) × ((check_token net decrypt_string cfg s now v proxy_secret
              remote_ip opts
            ≡ ok checked)
          × Wins s at opts checked r)
  unfolding verify_with_options
  verified_cases s now at v proxy_secret remote_ip opts r h =
      elim (Result-cases (check_token net decrypt_string cfg s now v proxy_secret remote_ip opts)) [
        | inl (e, f) ↦ absurd (ground (arith, f, h))
        | inr (checked, f) ↦ (checked, (f, ground (arith, f, h)))
      ]

  named_value :
      (s : Store) (v : Text) (row : ConnectionToken)
      → get_connection_token s v ≡ ok row
      → row.value ≡ v
  unfolding get_connection_token
  named_value s v row h = elim (Option-cases (find? (λ r. text_eq r.value v) s.connection_tokens)) [
    | inl e ↦ absurd (ground (arith, e, h))
    | inr (r, e) ↦ ground (
      arith,
      e,
      h,
      find?-found (λ q. text_eq q.value v) s.connection_tokens r e,
      text_eq→eq r.value v,
    )
  ]

  Wins-one_time :
      (s : Store) (at : ℕ) (opts : VerifyTokenOptions) (checked r : VerifyTokenResult)
      → r.token.is_reusable ≡ false
      → Wins s at opts checked r
      → checked.token.is_reusable ≡ false
  unfolding consume_checked
  Wins-one_time s at opts checked r one w = elim (Bool-cases checked.token.is_reusable) [
    | inl e ↦ absurd (ground (arith, e, one, w))
    | inr e ↦ e
  ]

  -- Once a token that is not reusable has been accepted by a request that consumes it, every later
  -- request with the same value is refused as unauthorized, whoever makes it and whatever tokens were
  -- created or consumed in between, as long as the values in the table are distinct.
  pub verify_once :
      (s t : Store) (now at now' at' : ℕ) (v proxy_secret remote_ip proxy_secret' remote_ip' : Text)
      (opts opts' : VerifyTokenOptions) (r : VerifyTokenResult)
      → IsUnique s.connection_tokens
      → opts.consume ≡ true
      → (verify_with_options net decrypt_string cfg s now at v proxy_secret remote_ip opts).1 ≡ ok r
      → r.token.is_reusable ≡ false
      → Steps
          ((verify_with_options net decrypt_string cfg s now at v proxy_secret remote_ip opts).0)
          t
      → (verify_with_options net decrypt_string cfg t now' at' v proxy_secret' remote_ip' opts').1
        ≡ err Error.unauthorized
  verify_once s t now at now' at' v proxy_secret remote_ip proxy_secret' remote_ip' opts opts' r u c
        h one steps =
      let (checked, (f, w)) = verified_cases s now at v proxy_secret remote_ip opts r h in
      let known =
        check_token_sound net decrypt_string cfg s now v proxy_secret remote_ip opts checked f in
      let after : (verify_with_options net decrypt_string cfg s now at v proxy_secret remote_ip
            opts).0
          ≡ (consume_checked net decrypt_string cfg s at opts checked).0 =
        unfold verify_with_options in ground (arith, f) in
      let spent =
        consume_checked-IsSpent s at opts checked r c (Wins-one_time s at opts checked r one w) u
          w in
      let spent_v : IsSpent v
          ((consume_checked net decrypt_string cfg s at opts checked).0).connection_tokens =
        rw (sym (named_value s v checked.token known.token_row)) spent in
      let later = Steps-IsSpent _ t v steps (rw after spent_v) in
      unfold verify_with_options in
      ground (arith, spent_refused t now' v proxy_secret' remote_ip' opts' later)

  unused_kept :
      (now : ℕ) (v : Text) (rows : List ConnectionToken)
      → find? (is_consumable now v) rows ≡ none
      → map (use_row now v) rows ≡ rows
  unfolding use_row
  unused_kept now v [] h = refl
  unused_kept now v (row ∷ rows) h = elim (Bool-cases (is_consumable now v row)) [
    | inl e ↦ absurd (ground (arith, e, h))
    | inr e ↦ ground (arith, e, unused_kept now v rows (ground (arith, e, h)))
  ]

  lost-unchanged :
      (s : Store) (at : ℕ) (v : Text) (e : Error)
      → (consume_connection_token s at v).1 ≡ err e
      → (consume_connection_token s at v).0 ≡ s
  unfolding consume_connection_token returned_row
  lost-unchanged s at v e h = elim (Option-cases (find? (is_consumable at v) s.connection_tokens)) [
    | inl f ↦ rw (unused_kept at v s.connection_tokens f) refl
    | inr (row, f) ↦ absurd (ground (arith, f, h))
  ]

  -- A request that is refused, for whatever reason, leaves the store as it was, so it does not use up
  -- the token.
  pub refused_unchanged :
      (s : Store) (now at : ℕ) (v proxy_secret remote_ip : Text) (opts : VerifyTokenOptions)
      (e : Error)
      → (verify_with_options net decrypt_string cfg s now at v proxy_secret remote_ip opts).1
        ≡ err e
      → (verify_with_options net decrypt_string cfg s now at v proxy_secret remote_ip opts).0 ≡ s
  unfolding verify_with_options consume_checked
  refused_unchanged s now at v proxy_secret remote_ip opts e h =
      elim (Result-cases (check_token net decrypt_string cfg s now v proxy_secret remote_ip opts)) [
        | inl (e', f) ↦ ground (arith, f)
        | inr (checked, f) ↦
            elim (Result-cases (consume_connection_token s at checked.token.value).1) [
              | inl (e', g) ↦ ground (arith, f, g, lost-unchanged s at checked.token.value e' g)
              | inr (row, g) ↦ ground (arith, f, g, h)
            ]
      ]

  -- A preflight request, which does not ask to consume, never changes the store.
  preflight_unchanged :
      (s : Store) (now at : ℕ) (v proxy_secret remote_ip : Text) (opts : VerifyTokenOptions)
      → opts.consume ≡ false
      → (verify_with_options net decrypt_string cfg s now at v proxy_secret remote_ip opts).0 ≡ s
  unfolding verify_with_options consume_checked
  preflight_unchanged s now at v proxy_secret remote_ip opts h =
      elim (Result-cases (check_token net decrypt_string cfg s now v proxy_secret remote_ip opts)) [
        | inl (e, f) ↦ ground (arith, f)
        | inr (checked, f) ↦ ground (arith, f, h)
      ]
