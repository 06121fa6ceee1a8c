-- ===== src/HostKeys/Stable.antt =====
-- The host keys of the proxy stay the same from one start to the next.
use turjmp.Prelude.{
  ◌≡◌, refl, sym, ap, ◌∙◌, inl, inr, Bool, true, none, some, List, [], ◌∷◌, ◌++◌, arith, Bool-cases,
  Option-cases, any, find?, find?-append, Text, text_eq, text_eq_refl,
}
use turjmp.Domain.{Error, Result, ok, err, HostKey}
use turjmp.Domain.Bind.{bind_ok, Result-cases, ok_injective}
use turjmp.Store.{Store, next_id}
use turjmp.Store.Assets.{get_host_key_by_algorithm, create_host_key}
use mathlib.Core.List.{map}
use mathlib.Core.Path.{subst}
use turjmp.HostKeys.{
  KeyTools, drawn_block, generate_host_key, default_algorithms, ensure_key, ensure_keys,
  ensure_defaults,
}

-- A key that is found stays the one that is found.
abbrev Keeps : Store → Store → Type 0
Keeps s t =
    (algorithm : Text) (key : HostKey)
    → get_host_key_by_algorithm s algorithm ≡ ok key
    → get_host_key_by_algorithm t algorithm ≡ ok key

-- The keys that are found for the algorithms.
abbrev Found : Store → List Text → List HostKey → Type 0
Found s [] [] = Unit
Found s [] (k ∷ ks) = ⊥
Found s (a ∷ rest) [] = ⊥
Found s (a ∷ rest) (k ∷ ks) = (get_host_key_by_algorithm s a ≡ ok k) × Found s rest ks

find-grow :
    (p : HostKey → Bool) (rows : List HostKey) (row key : HostKey)
    → find? p rows ≡ some key
    → find? p (rows ++ row ∷ []) ≡ some key
find-grow p rows row key h = ground (arith, find?-append p rows row, h)

find-new :
    (p : HostKey → Bool) (rows : List HostKey) (row : HostKey)
    → find? p rows ≡ none
    → p row ≡ true
    → find? p (rows ++ row ∷ []) ≡ some row
find-new p rows row h t = ground (arith, find?-append p rows row, h, t)

grown-Keeps :
    (s : Store) (row : HostKey) → Keeps s (record s { host_keys = s.host_keys ++ row ∷ [] })
unfolding get_host_key_by_algorithm
grown-Keeps s row algorithm key h =
    elim (Option-cases (find? (λ k. text_eq k.algorithm algorithm) s.host_keys)) [
      | inl e ↦ absurd (ground (arith, e, h))
      | inr (k, e) ↦
          ground (arith, e, h, find-grow (λ q. text_eq q.algorithm algorithm) s.host_keys row k e)
    ]

grown-found :
    (s : Store) (row : HostKey)
    → get_host_key_by_algorithm s row.algorithm ≡ err Error.not_found
    → get_host_key_by_algorithm (record s { host_keys = s.host_keys ++ row ∷ [] }) row.algorithm
      ≡ ok row
unfolding get_host_key_by_algorithm
grown-found s row h =
    elim (Option-cases (find? (λ k. text_eq k.algorithm row.algorithm) s.host_keys)) [
      | inl e ↦ ground (
        arith,
        e,
        h,
        find-new (λ q. text_eq q.algorithm row.algorithm) s.host_keys row e
            (text_eq_refl row.algorithm),
      )
      | inr (k, e) ↦ absurd (ground (arith, e, h))
    ]

-- The only error of the look-up.
missing :
    (s : Store) (algorithm : Text) (e : Error)
    → get_host_key_by_algorithm s algorithm ≡ err e
    → get_host_key_by_algorithm s algorithm ≡ err Error.not_found
unfolding get_host_key_by_algorithm
missing s algorithm e h =
    elim (Option-cases (find? (λ k. text_eq k.algorithm algorithm) s.host_keys)) [
      | inl f ↦ ground (arith, f)
      | inr (k, f) ↦ absurd (ground (arith, f, h))
    ]

module _ (tools : KeyTools) where
  of_algorithm : (a : Text) (key : HostKey) → generate_host_key tools a ≡ ok key → key.algorithm ≡ a
  unfolding generate_host_key
  of_algorithm a key h =
      let (block, (_, signed)) = bind_ok (drawn_block tools a) _ key h in
      let (signer, (_, made)) = bind_ok (tools.new_signer (block.0)) _ key signed in
      ap (λ (k : HostKey). k.algorithm) (sym (ok_injective _ key made))

  ensure_key-Keeps :
      (s : Store) (algorithm : Text) (key : HostKey)
      → (ensure_key tools s algorithm).1 ≡ ok key
      → Keeps s (ensure_key tools s algorithm).0
        × (get_host_key_by_algorithm (ensure_key tools s algorithm).0 algorithm ≡ ok key)
  unfolding ensure_key create_host_key
  ensure_key-Keeps s algorithm key h = elim (Result-cases (get_host_key_by_algorithm s algorithm)) [
    | inr (k, e) ↦ rw (e, ensure_key) ((λ a q g. g), ground (arith, e, h))
    | inl (w, f) ↦
        let e = missing s algorithm w f in
        elim (Result-cases (generate_host_key tools algorithm)) [
          | inl (x, g) ↦ absurd (ground (arith, e, g, h))
          | inr (made, g) ↦
              elim (Bool-cases (any (λ k. text_eq k.fingerprint made.fingerprint) s.host_keys)) [
                | inl t ↦ absurd (ground (arith, e, g, t, h))
                | inr t ↦
                    let row = record made {
                      id = next_id (map (λ (k : HostKey). k.id) s.host_keys);
                    } in
                    let after = record s { host_keys = s.host_keys ++ row ∷ [] } in
                    let equal : ensure_key tools s algorithm ≡ (after, ok row) =
                      ground (arith, e, g, t) in
                    let is_key : row ≡ key =
                      ok_injective row key
                        (ap (λ (q : Store × Result HostKey). q.1) (sym equal) ∙ h) in
                    let named = of_algorithm algorithm made g in
                    let there : get_host_key_by_algorithm after algorithm ≡ ok row =
                      subst (λ a. get_host_key_by_algorithm after a ≡ ok row) named
                        (grown-found s row (
                          subst (λ a. get_host_key_by_algorithm s a ≡ err Error.not_found)
                            (sym named) e)) in
                    rw equal (grown-Keeps s row, there ∙ ap ok is_key)
              ]
        ]
  ]

  Found-Keeps :
      (s t : Store) (algorithms : List Text) (keys : List HostKey)
      → Keeps s t
      → Found s algorithms keys
      → Found t algorithms keys
  Found-Keeps s t [] [] k f = tt
  Found-Keeps s t [] (x ∷ xs) k f = absurd f
  Found-Keeps s t (a ∷ rest) [] k f = absurd f
  Found-Keeps s t (a ∷ rest) (x ∷ xs) k (f, fs) = (k a x f, Found-Keeps s t rest xs k fs)

  ensure_keys-Found :
      (s : Store) (algorithms : List Text) (keys : List HostKey)
      → (ensure_keys tools s algorithms).1 ≡ ok keys
      → Keeps s (ensure_keys tools s algorithms).0
        × Found (ensure_keys tools s algorithms).0 algorithms keys
  unfolding ensure_keys
  ensure_keys-Found s [] keys h = (λ a k g. g, rw (sym (ok_injective [] keys h)) tt)
  ensure_keys-Found s (a ∷ rest) keys h = elim (Result-cases (ensure_key tools s a).1) [
    | inl (e, f) ↦ absurd (ground (arith, f, h))
    | inr (key, f) ↦
        let next = (ensure_key tools s a).0 in
        let (kept, there) = ensure_key-Keeps s a key f in
        elim (Result-cases (ensure_keys tools next rest).1) [
          | inl (e, g) ↦ absurd (ground (arith, f, g, h))
          | inr (more, g) ↦
              let (kept', found') = ensure_keys-Found next rest more g in
              let equal : ensure_keys tools s (a ∷ rest)
                  ≡ ((ensure_keys tools next rest).0, ok (key ∷ more)) =
                ground (arith, f, g) in
              let is_keys : key ∷ more ≡ keys =
                ok_injective (key ∷ more) keys
                  (ap (λ (q : Store × Result (List HostKey)). q.1) (sym equal) ∙ h) in
              rw (equal, sym is_keys)
                ((λ b k q. kept' b k (kept b k q)), (kept' a key there, found'))
        ]
  ]

  ensure_keys_again :
      (s : Store) (algorithms : List Text) (keys : List HostKey)
      → Found s algorithms keys
      → ensure_keys tools s algorithms ≡ (s, ok keys)
  unfolding ensure_keys ensure_key
  ensure_keys_again s [] [] f = refl
  ensure_keys_again s [] (x ∷ xs) f = absurd f
  ensure_keys_again s (a ∷ rest) [] f = absurd f
  ensure_keys_again s (a ∷ rest) (x ∷ xs) (f, fs) =
      ground (arith, f, ensure_keys_again s rest xs fs)

-- Once the default host keys have been made sure of, doing it again gives the same keys and changes
-- nothing, whatever keys the generators would draw then: clients do not see a new host key after a
-- restart.
pub ensure_defaults_again :
    (tools later : KeyTools) (s : Store) (keys : List HostKey)
    → (ensure_defaults tools s).1 ≡ ok keys
    → ensure_defaults later (ensure_defaults tools s).0 ≡ ((ensure_defaults tools s).0, ok keys)
unfolding ensure_defaults
ensure_defaults_again tools later s keys h =
    ensure_keys_again later (ensure_keys tools s default_algorithms).0 default_algorithms keys
      (ensure_keys-Found tools s default_algorithms keys h).1
