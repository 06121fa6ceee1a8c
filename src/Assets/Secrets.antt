-- ===== src/Assets/Secrets.antt =====
-- What becomes of the secrets of an account.
use turjmp.Prelude.{
  ℕ, ◌≡◌, refl, sym, ap, ◌∙◌, inl, inr, true, not, ◌&&◌, ◌||◌, none, some, List, [], ◌∷◌, arith,
  ◌==◌, if◌then◌else◌, ==_refl, Bool-cases, Option-cases, null, any, find?, find?-found, Text,
}
use turjmp.Domain.{Result, ok, found, Account}
use turjmp.Domain.Bind.{Result-cases, ok_injective}
use turjmp.Store.{Store}
use turjmp.Store.Rows.{get_asset_account}
use turjmp.Store.Assets.{update_account, update_account_row}
use turjmp.Assets.{AccountInput, next_secret, changed_account, change_account, hidden}
use mathlib.Core.List.{map}

find-update :
    (a : Account) (rows : List Account) (row : Account)
    → find? (λ r. r.id == a.id && r.asset_id == a.asset_id) rows ≡ some row
    → find? (λ r. r.id == a.id && r.asset_id == a.asset_id) (map (update_account_row a) rows)
      ≡ some a
unfolding update_account_row
find-update a [] row h = absurd (cc h)
find-update a (r ∷ rows) row h = elim (Bool-cases (r.id == a.id && r.asset_id == a.asset_id)) [
  | inl e ↦ ground (arith, e, ==_refl a.id, ==_refl a.asset_id)
  | inr e ↦ ground (arith, e, h, find-update a rows row (ground (arith, e, h)))
]

-- An account that is found has the ids it was asked for by.
found_ids :
    (s : Store) (asset_id account_id : ℕ) (row : Account)
    → get_asset_account s asset_id account_id ≡ ok row
    → (row.id ≡ account_id) × (row.asset_id ≡ asset_id)
unfolding get_asset_account
found_ids s asset_id account_id row h =
    elim (Option-cases (find? (λ r. r.id == account_id && r.asset_id == asset_id) s.accounts)) [
      | inl e ↦ absurd (ground (arith, e, h))
      | inr (r, e) ↦ ground (
        arith,
        e,
        h,
        find?-found (λ q. q.id == account_id && q.asset_id == asset_id) s.accounts r e,
      )
    ]

get-update :
    (s : Store) (a row : Account)
    → get_asset_account s a.asset_id a.id ≡ ok row
    → get_asset_account
        (record s { accounts = map (update_account_row a) s.accounts })
        a.asset_id
        a.id
      ≡ ok a
unfolding get_asset_account
get-update s a row h =
    elim (Option-cases (find? (λ r. r.id == a.id && r.asset_id == a.asset_id) s.accounts)) [
      | inl e ↦ absurd (ground (arith, e, h))
      | inr (r, e) ↦ ap found (find-update a s.accounts r e)
    ]

update_saved :
    (s : Store) (a row got : Account)
    → get_asset_account s a.asset_id a.id ≡ ok row
    → (update_account s a).1 ≡ ok got
    → (got ≡ a) × (get_asset_account (update_account s a).0 a.asset_id a.id ≡ ok a)
unfolding update_account
update_saved s a row got there h =
    let kept = get-update s a row there in
    elim (Bool-cases (
      not (any (λ r. r.id == a.id && r.asset_id == a.asset_id) s.accounts)
      || (elim a.su_account_id [ none ↦ true | some n ↦ any (λ r. r.id == n) s.accounts ]))) [
        | inr e ↦ absurd (ground (arith, e, h))
        | inl e ↦
            let seen : get_asset_account
                  (record s { accounts = map (update_account_row a) s.accounts }) a.asset_id a.id
                ≡ ok got =
              ground (arith, e, h) in
            rw e (ok_injective got a (sym seen ∙ kept), kept)
      ]

module _ (encrypt_string decrypt_string : Text → Result Text) where
  -- A stored secret and the one that is given, after an update: the given one if it is not empty.
  abbrev pub wanted : Text → Text → Text → Text
  wanted plain given stored = if null given then plain else given

  next_secret-decrypt :
      (stored plain given kept : Text)
      → ((t c : Text) → encrypt_string t ≡ ok c → decrypt_string c ≡ ok t)
      → decrypt_string stored ≡ ok plain
      → next_secret encrypt_string stored given ≡ ok kept
      → decrypt_string kept ≡ ok (if null given then plain else given)
  unfolding next_secret
  next_secret-decrypt stored plain [] kept law d h = rw (sym (ok_injective stored kept h)) d
  next_secret-decrypt stored plain (c ∷ cs) kept law d h = law (c ∷ cs) kept h

  changed_secrets :
      (input : AccountInput) (a changed : Account)
      → changed_account encrypt_string input a ≡ ok changed
      → (next_secret encrypt_string a.secret input.secret ≡ ok changed.secret)
        × ((next_secret encrypt_string a.passphrase input.passphrase ≡ ok changed.passphrase)
            × ((changed.id ≡ a.id) × (changed.asset_id ≡ a.asset_id)))
  unfolding changed_account
  changed_secrets input a changed h =
      elim (Result-cases (next_secret encrypt_string a.secret input.secret)) [
        | inl (e, f) ↦ absurd (ground (arith, f, h))
        | inr (secret, f) ↦
            elim (Result-cases (next_secret encrypt_string a.passphrase input.passphrase)) [
              | inl (e, g) ↦ absurd (ground (arith, f, g, h))
              | inr (passphrase, g) ↦ ground (arith, f, g, h)
            ]
      ]

  -- An update of an account that succeeds gives back no secret; the table then has an account whose
  -- secret decrypts to the given one, or to the one before if none was given, and the same holds of its
  -- passphrase, as long as decryption undoes encryption.
  pub change_account-decrypt :
      (s : Store) (asset_id account_id : ℕ) (input : AccountInput) (before shown : Account)
      (secret passphrase : Text)
      → ((t c : Text) → encrypt_string t ≡ ok c → decrypt_string c ≡ ok t)
      → get_asset_account s asset_id account_id ≡ ok before
      → decrypt_string before.secret ≡ ok secret
      → decrypt_string before.passphrase ≡ ok passphrase
      → (change_account encrypt_string s asset_id account_id input).1 ≡ ok shown
      → (shown.secret ≡ [])
        × ((shown.passphrase ≡ [])
            × ((after : Account) × ((get_asset_account
                      (change_account encrypt_string s asset_id account_id input).0
                      asset_id
                      account_id
                    ≡ ok after)
                  × ((decrypt_string after.secret
                        ≡ ok (if null input.secret then secret else input.secret))
                      × (decrypt_string after.passphrase
                          ≡ ok (if null input.passphrase then passphrase else input.passphrase))))))
  unfolding change_account
  change_account-decrypt s asset_id account_id input before shown secret passphrase law there ds dp
        h =
      elim (Result-cases (changed_account encrypt_string input before)) [
        | inl (e, f) ↦ absurd (ground (arith, there, f, h))
        | inr (changed, f) ↦
            let (ks, (kp, (same_id, same_asset))) = changed_secrets input before changed f in
            let (is_id, is_asset) = found_ids s asset_id account_id before there in
            elim (Result-cases (update_account s changed).1) [
              | inl (e, g) ↦ absurd (ground (arith, there, f, g, h))
              | inr (got, g) ↦
                  let asked : get_asset_account s changed.asset_id changed.id
                      ≡ get_asset_account s asset_id account_id =
                    rw (same_asset, same_id, is_asset, is_id) refl in
                  let (_, stored) = update_saved s changed before got (asked ∙ there) g in
                  let sd =
                    next_secret-decrypt before.secret secret input.secret changed.secret law ds
                      ks in
                  let pd =
                    next_secret-decrypt before.passphrase passphrase input.passphrase
                      changed.passphrase law dp kp in
                  let final : get_asset_account (update_account s changed).0 asset_id account_id
                      ≡ ok changed =
                    rw (sym (same_asset ∙ is_asset), sym (same_id ∙ is_id)) stored in
                  let shown_is : hidden got ≡ shown = ground (arith, there, f, g, h) in
                  (
                    ap (λ (x : Account). x.secret) (sym shown_is),
                    (
                      ap (λ (x : Account). x.passphrase) (sym shown_is),
                      (changed, (rw (there, f, change_account) final, (sd, pd))),
                    ),
                  )
            ]
      ]
