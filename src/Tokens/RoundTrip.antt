-- ===== src/Tokens/RoundTrip.antt =====
-- A token that Issue returns is accepted by Verify.
use turjmp.Prelude.{
  ℕ, ◌+◌, ◌≤◌, ◌<◌, ◌≡◌, refl, ap, ◌∙◌, inl, inr, Bool, true, false, not, ◌&&◌, none, some, List,
  [], ◌∷◌, ◌++◌, arith, ◌==◌, if◌then◌else◌, Bool-cases, Option-cases, any, find?, find?-found,
  find?-append, find?-none, Text, codes, text_eq, text_eq_refl,
}
use turjmp.Domain.{Result, ok, User, Asset, Account, ConnectionToken}
use turjmp.Store.{Store}
use turjmp.Store.Rows.{get_user, get_asset, get_account, get_asset_account, get_asset_protocol_port}
use turjmp.Store.Permission.{
  has_asset_permission, grants, covers_user, covers_asset, covers_account, asset_nodes, own_node,
}
use turjmp.Store.Tokens.{
  new_row, create_connection_token, get_connection_token, consume_connection_token, is_consumable,
  returned_row,
}
use turjmp.Tokens.{Net, ProxyAuthConfig, authorize_proxy}
use turjmp.Tokens.Issue.{IssueTokenInput, token_lifetime, may_issue, new_token, issue}
use turjmp.Tokens.Verify.{
  VerifyTokenOptions, protocol_fits, port_or_default, checked_result, check_token, consume_checked,
  verify_with_options,
}
use turjmp.Tokens.Verified.{check_token_complete}
use turjmp.Domain.Bind.{Result-cases}

abbrev with_token : Store → ConnectionToken → Store
with_token s token = record s { connection_tokens = s.connection_tokens ++ token ∷ [] }

issued_cases :
    (s : Store) (now : ℕ) (value : Text) (user_id : ℕ) (input : IssueTokenInput)
    (token : ConnectionToken)
    → (issue s now value user_id input).1 ≡ ok token
    → (may_issue s now user_id input ≡ ok tt)
      × ((token ≡ new_row s (new_token now value user_id input))
          × ((any (λ row. text_eq row.value value) s.connection_tokens ≡ false)
              × ((issue s now value user_id input).0
                  ≡ with_token s (new_row s (new_token now value user_id input)))))
unfolding issue create_connection_token
issued_cases s now value user_id input token h =
    unfold new_token in
    elim (Bool-cases (any (λ row. text_eq row.value value) s.connection_tokens)) [
      | inl e ↦ elim (Result-cases (may_issue s now user_id input)) [
        | inl (x, f) ↦ absurd (ground (arith, e, f, h))
        | inr (u, f) ↦ absurd (ground (arith, e, f, h))
      ]
      | inr e ↦ elim (Result-cases (may_issue s now user_id input)) [
        | inl (x, f) ↦ absurd (ground (arith, e, f, h))
        | inr (u, f) ↦ (f, (ground (arith, e, f, h), (e, ground (arith, e, f))))
      ]
    ]

fresh-get :
    (s : Store) (token : ConnectionToken)
    → any (λ row. text_eq row.value token.value) s.connection_tokens ≡ false
    → get_connection_token (with_token s token) token.value ≡ ok token
unfolding get_connection_token
fresh-get s token h = ground (
  arith,
  find?-append (λ row. text_eq row.value token.value) s.connection_tokens token,
  find?-none (λ row. text_eq row.value token.value) s.connection_tokens h,
  text_eq_refl token.value,
)

unnamed-consumable :
    (now : ℕ) (v : Text) (rows : List ConnectionToken)
    → any (λ row. text_eq row.value v) rows ≡ false
    → find? (is_consumable now v) rows ≡ none
unfolding is_consumable
unnamed-consumable now v [] h = refl
unnamed-consumable now v (row ∷ rows) h = ground (arith, h, unnamed-consumable now v rows)

fresh-consume :
    (s : Store) (at : ℕ) (token : ConnectionToken)
    → any (λ row. text_eq row.value token.value) s.connection_tokens ≡ false
    → token.used_at ≡ none
    → token.is_reusable ≡ false
    → at < token.expires_at
    → (consume_connection_token (with_token s token) at token.value).1
      ≡ ok (record token { used_at = some at })
unfolding consume_connection_token is_consumable returned_row
fresh-consume s at token h unused one live = ground (
  arith,
  find?-append (is_consumable at token.value) s.connection_tokens token,
  unnamed-consumable at token.value s.connection_tokens h,
  text_eq_refl token.value,
  unused,
  one,
  live,
)

-- The token table has no part in the permissions and the ports.
permission_kept :
    (s : Store) (t : ConnectionToken) (now user_id asset_id account_id : ℕ) (action : Text)
    → has_asset_permission (with_token s t) now user_id asset_id account_id action
      ≡ has_asset_permission s now user_id asset_id account_id action
unfolding has_asset_permission grants covers_user covers_asset covers_account asset_nodes own_node
permission_kept s t now user_id asset_id account_id action = refl

port_kept :
    (s : Store) (t : ConnectionToken) (asset_id : ℕ) (protocol : Text)
    → get_asset_protocol_port (with_token s t) asset_id protocol
      ≡ get_asset_protocol_port s asset_id protocol
unfolding get_asset_protocol_port
port_kept s t asset_id protocol = refl

asset_named :
    (s : Store) (id : ℕ) (asset : Asset) → get_asset s id ≡ ok asset → (asset.id == id) ≡ true
unfolding get_asset
asset_named s id asset h = elim (Option-cases (find? (λ a. a.id == id) s.assets)) [
  | inl e ↦ absurd (ground (arith, e, h))
  | inr (a, e) ↦ ground (arith, e, h, find?-found (λ a. a.id == id) s.assets a e)
]

account_named :
    (s : Store) (asset_id id : ℕ) (account : Account)
    → get_asset_account s asset_id id ≡ ok account
    → (account.id == id && account.asset_id == asset_id) ≡ true
unfolding get_asset_account
account_named s asset_id id account h =
    let p : Account → Bool = λ a. a.id == id && a.asset_id == asset_id in
    elim (Option-cases (find? p s.accounts)) [
      | inl e ↦ absurd (ground (arith, e, h))
      | inr (a, e) ↦ ground (arith, e, h, find?-found p s.accounts a e)
    ]

may_issue-active :
    (s : Store) (now user_id : ℕ) (input : IssueTokenInput) (asset : Asset) (account : Account)
    → get_asset s input.asset_id ≡ ok asset
    → get_asset_account s input.asset_id input.account_id ≡ ok account
    → may_issue s now user_id input ≡ ok tt
    → (asset.is_active ≡ true) × (account.is_active ≡ true)
unfolding may_issue
may_issue-active s now user_id input asset account ha hc h =
    elim (Bool-cases (asset.is_active && account.is_active)) [
      | inl e ↦ ground (arith, e)
      | inr e ↦ absurd (ground (arith, ha, hc, e, h))
    ]

module _ (net : Net) (decrypt_string : Text → Result Text) (cfg : ProxyAuthConfig) (s : Store)
    (now now' : ℕ) (value proxy_secret remote_ip : Text) (opts : VerifyTokenOptions) (user : User)
    (asset : Asset) (account : Account) (port : ℕ) (secret passphrase : Text)
    (input : IssueTokenInput) where
  abbrev token : ConnectionToken
  token = new_row s (new_token now value user.id input)

  abbrev stored : Store
  stored = with_token s token

  -- What has to hold, besides the issue itself, when the token is used.
  pub record IsUsable : Type 0 where
    pub from_proxy : authorize_proxy net cfg proxy_secret remote_ip ≡ true
    pub fits : protocol_fits opts token ≡ true
    pub user_row : get_user s user.id ≡ ok user
    pub user_active : user.is_active ≡ true
    pub asset_row : get_asset s input.asset_id ≡ ok asset
    pub account_row : get_account s input.account_id ≡ ok account
    pub asset_account_row : get_asset_account s input.asset_id input.account_id ≡ ok account
    pub permitted :
        has_asset_permission s now' user.id input.asset_id input.account_id (codes "connect") ≡ true
    pub port_row :
        port_or_default token.protocol (get_asset_protocol_port s input.asset_id token.protocol)
        ≡ ok port
    pub opens_secret : decrypt_string account.secret ≡ ok secret
    pub opens_passphrase : decrypt_string account.passphrase ≡ ok passphrase

  issued_checks :
      IsUsable
      → may_issue s now user.id input ≡ ok tt
      → any (λ row. text_eq row.value value) s.connection_tokens ≡ false
      → now' ≤ now + token_lifetime
      → check_token net decrypt_string cfg stored now' value proxy_secret remote_ip opts
        ≡ ok (checked_result token user asset account port secret passphrase)
  unfolding new_token
  issued_checks h may new live =
      check_token_complete net decrypt_string cfg stored now' value proxy_secret remote_ip opts
        (checked_result token user asset account port secret passphrase)
        (let (asset_active, account_active) =
            may_issue-active s now user.id input asset account h.asset_row h.asset_account_row
              may in
          record {
            from_proxy = h.from_proxy;
            token_row = fresh-get s token new;
            not_expired = live;
            not_used = refl;
            fits = h.fits;
            user_row = unfold get_user in h.user_row;
            user_active = h.user_active;
            asset_row = unfold get_asset in h.asset_row;
            asset_active = asset_active;
            account_row = unfold get_account in h.account_row;
            account_active = account_active;
            account_of_asset = ground (
              arith,
              asset_named s input.asset_id asset h.asset_row,
              account_named s input.asset_id input.account_id account h.asset_account_row,
            );
            permitted =
                permission_kept s token now' user.id input.asset_id input.account_id
                  (codes "connect")
                ∙ h.permitted;
            port =
                ap (port_or_default token.protocol)
                  (port_kept s token input.asset_id token.protocol)
                ∙ h.port_row;
            address = refl;
            protocol = refl;
            secret = h.opens_secret;
            passphrase = h.opens_passphrase;
          })

  -- The token as Verify returns it.
  abbrev pub accepted : ℕ → ConnectionToken
  accepted at =
      if opts.consume && not input.is_reusable then record token { used_at = some at } else token

  -- A token that Issue returns is accepted by the next request, within its lifetime, with its user, its
  -- asset, its account's decrypted secrets and its port, and marked as used if the request consumes it
  -- and it is not reusable. The caller is a proxy that may ask and expects the token's protocol or none;
  -- the user is active and permitted; the rows, the port and the secrets can be read.
  pub issue-verify :
      (at : ℕ) (t : ConnectionToken)
      → IsUsable
      → (issue s now value user.id input).1 ≡ ok t
      → now' ≤ now + token_lifetime
      → at < now + token_lifetime
      → (verify_with_options net decrypt_string cfg
          ((issue s now value user.id input).0)
          now'
          at
          value
          proxy_secret
          remote_ip
          opts).1
        ≡ ok (checked_result (accepted at) user asset account port secret passphrase)
  issue-verify at t h issued live live_at =
      let (may, (same, (new, after))) = issued_cases s now value user.id input t issued in
      let checks = issued_checks h may new live in
      rw after (elim (Bool-cases (opts.consume && not input.is_reusable)) [
        | inl e ↦
            unfold verify_with_options consume_checked new_token in
            ground (arith, checks, e, fresh-consume s at token new refl (ground (arith, e)) live_at)
        | inr e ↦ unfold verify_with_options consume_checked new_token in ground (arith, checks, e)
      ])
