-- ===== src/HostKeys.antt =====
-- internal/service/host_keys.go. What the generator of keys uses of Go's packages is the parameter KeyTools.
pub mod Stable
use turjmp.Prelude.{
  ℕ, zero, suc, ◌+◌, ◌-◌, ◌*◌, ◌/◌, ◌%◌, ◌^◌, ◌≤◌, ◌<◌, ◌≡◌, refl, sym, ap, ◌∙◌, ◌≢◌, ◌↔◌, ◌⊎◌, inl,
  inr, Bool, true, false, not, ◌&&◌, ◌||◌, Option, none, some, List, [], ◌∷◌, ◌++◌, append-nil,
  append_assoc, arith, ltb, leb, ◌==◌, if◌then◌else◌, ltb→lt, lt→ltb, leb→le, ==_iff, ==_refl,
  Bool-cases, Option-cases, length, get_or, take, drop, replicate, slice, null, any, all, filter,
  find?, All, length-append, take-append_length, drop-append_length, length-take, length-drop,
  length-replicate, drop-append_add, get_or-append_add, slice-append_add, slice_middle, slice_at,
  ◌∈◌, ∈-append_left, ∈-append_right, ∈-append_cases, ∈-filter, filter-∈, any-∈, if-∈, ∈-any,
  length-filter_split, null-length, find?-found, find?-append, find?-none, any-append, all-append,
  Text, Bytes, IsByte, codes, text_eq, text_eq→eq, text_eq_refl, text_eq_iff, le_bytes, le_value,
  le_value-le_bytes, length-le_bytes, le_bytes-IsByte,
}
use turjmp.Domain.{Error, Result, ok, err, found, ◌>>=◌, HostKey}
use turjmp.Domain.Bind.{Result-cases}
use turjmp.Store.{Store, next_id}
use turjmp.Store.Assets.{get_host_key_by_algorithm, create_host_key, list_host_keys}
use mathlib.Core.List.{map}

abbrev pub default_algorithms : List Text
default_algorithms = codes "ssh-ed25519" ∷ codes "ssh-rsa" ∷ []

-- What generateHostKey uses of Go's packages crypto, x509, pem and ssh, in one run: the key that each
-- generator draws, and the forms of a key.
pub record KeyTools : Type 1 where
  pub PrivateKey : Type 0
  pub Signer : Type 0
  pub draw_ed25519 : Result PrivateKey
  pub draw_rsa : ℕ → Result PrivateKey
  pub marshal_pkcs8 : PrivateKey → Result Bytes
  pub marshal_pkcs1 : PrivateKey → Bytes
  pub new_signer : PrivateKey → Result Signer
  pub authorized_key : Signer → Text
  pub fingerprint_sha256 : Signer → Text
  pub encode_pem : Text → Bytes → Text

module _ (tools : KeyTools) where
  -- The private key and the text of its block.
  unfoldable pub drawn_block : Text → Result (tools.PrivateKey × Text)
  drawn_block algorithm =
      if text_eq algorithm (codes "ssh-ed25519")
      then (tools.draw_ed25519 >>= λ key.
          (tools.marshal_pkcs8 key >>= λ der. ok (key, tools.encode_pem (codes "PRIVATE KEY") der)))
      else if text_eq algorithm (codes "ssh-rsa")
      then (tools.draw_rsa 3072 >>= λ key.
          ok (key, tools.encode_pem (codes "RSA PRIVATE KEY") (tools.marshal_pkcs1 key)))
      else err Error.invalid_argument

  unfoldable pub generate_host_key : Text → Result HostKey
  unfolding drawn_block
  generate_host_key algorithm = drawn_block algorithm >>= λ block.
      (tools.new_signer (block.0) >>= λ signer. ok (record {
        id = 0;
        algorithm = algorithm;
        fingerprint = tools.fingerprint_sha256 signer;
        private_key = block.1;
        public_key = tools.authorized_key signer;
      }))

  -- The key of one algorithm: the stored one, or a new one that is stored.
  unfoldable pub ensure_key : Store → Text → Store × Result HostKey
  unfolding generate_host_key
  ensure_key s algorithm = elim (get_host_key_by_algorithm s algorithm) [
    | ok key ↦ (s, ok key)
    | err Error.not_found ↦ elim (generate_host_key algorithm) [
      | err e ↦ (s, err e)
      | ok key ↦ create_host_key s key
    ]
    | err e ↦ (s, err e)
  ]

  -- The loop, which keeps what it has stored when it fails.
  unfoldable pub ensure_keys : Store → List Text → Store × Result (List HostKey)
  unfolding ensure_key
  ensure_keys s [] = (s, ok [])
  ensure_keys s (algorithm ∷ algorithms) =
      let done = ensure_key s algorithm in
      elim (done.1) [
        | err e ↦ (done.0, err e)
        | ok key ↦
            let rest = ensure_keys done.0 algorithms in
            (rest.0, (rest.1 >>= λ keys. ok (key ∷ keys)))
      ]

  unfoldable pub ensure_defaults : Store → Store × Result (List HostKey)
  unfolding ensure_keys
  ensure_defaults s = ensure_keys s default_algorithms

  unfoldable pub list_keys : Store → Store × Result (List HostKey)
  unfolding ensure_defaults
  list_keys s = elim ((ensure_defaults s).1) [
    | err e ↦ ((ensure_defaults s).0, err e)
    | ok keys ↦ ((ensure_defaults s).0, ok (list_host_keys (ensure_defaults s).0))
  ]
