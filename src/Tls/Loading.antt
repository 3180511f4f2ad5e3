-- ===== src/Tls/Loading.antt =====
-- When `initialize` of tls_handler.cpp answers with success.
use zero_trust_secure_sessio.Common.{
  ℕ, ◌≡◌, refl, sym, ap, subst, ◌∙◌, ◌↔◌, inl, inr, Bool, true, false, ◌||◌, List, [], ◌∷◌, ◌++◌,
  String, some, arith, nat_eq, string_eq, ◌==◌, codes, Bool-cases, Option-cases,
}
use zero_trust_secure_sessio.Config.Files.{Disk}
use zero_trust_secure_sessio.Tls.{
  Ssl, TlsError, cert_file_not_found, invalid_cert_format, cert_chain_load_failed,
  key_file_not_found, invalid_key_format, key_load_failed, TlsResult, success, failure, TlsHandler,
  VerifyMode, starts_with, occurs, opened, pem_certificate_header, pem_private_key_header,
  has_header, validate_pem, use_checked, validate_certificate_file, validate_key_file,
  load_certificate_chain, load_private_key, apply_ciphers, after_key, after_chain, initialize,
}

-- A text that stands somewhere in another.
abbrev pub Contains : List ℕ → List ℕ → Type 0
Contains ds cs = (before : List ℕ) × (after : List ℕ) × (cs ≡ before ++ (ds ++ after))

starts_with_iff :
    (ds cs : List ℕ) → (starts_with ds cs ≡ true) ↔ ((after : List ℕ) × (cs ≡ ds ++ after))
starts_with_iff [] cs = (λ h. (cs, refl), λ h. refl)
starts_with_iff (d ∷ ds) [] =
    (λ h. absurd (ground (arith, h)), λ (after, e). absurd (ground (arith, e)))
starts_with_iff (d ∷ ds) (c ∷ cs) = (
  λ h.
      let (after, e) = (starts_with_iff ds cs).0 (ground (arith, h)) in
      (after, ground (arith, e, h, nat_eq.equal_iff d c)),
  λ (after, e).
      let rest : starts_with ds cs ≡ true = (starts_with_iff ds cs).1 (after, ground (arith, e)) in
      ground (arith, rest, e, nat_eq.equal_iff d c),
)

occurs_complete : (ds cs before after : List ℕ) → cs ≡ before ++ (ds ++ after) → occurs ds cs ≡ true
unfolding occurs
occurs_complete ds [] [] after e = (starts_with_iff ds []).1 (after, e)
occurs_complete ds [] (b ∷ before) after e = absurd (ground (arith, e))
occurs_complete ds (c ∷ cs) [] after e =
    let found : starts_with ds (c ∷ cs) ≡ true = (starts_with_iff ds (c ∷ cs)).1 (after, e) in
    rw (found, occurs) refl
occurs_complete ds (c ∷ cs) (b ∷ before) after e =
    let later : occurs ds cs ≡ true = occurs_complete ds cs before after (ground (arith, e)) in
    elim (Bool-cases (starts_with ds (c ∷ cs))) [
      | inl s ↦ rw (s, occurs) refl
      | inr s ↦ rw (s, later, occurs) refl
    ]

-- The search finds a text exactly if it stands somewhere.
occurs_iff : (ds cs : List ℕ) → (occurs ds cs ≡ true) ↔ Contains ds cs
unfolding occurs
occurs_iff ds [] = (
  λ h. let (after, e) = (starts_with_iff ds []).0 h in ([], after, e),
  λ (before, after, e). occurs_complete ds [] before after e,
)
occurs_iff ds (c ∷ cs) = (
  λ h. elim (Bool-cases (starts_with ds (c ∷ cs))) [
    | inl s ↦ let (after, e) = (starts_with_iff ds (c ∷ cs)).0 s in ([], after, e)
    | inr s ↦
        let (before, after, e) = (occurs_iff ds cs).0 (ground (arith, s, h)) in
        (c ∷ before, after, ap (λ t. c ∷ t) e)
  ],
  λ (before, after, e). occurs_complete ds (c ∷ cs) before after e,
)

module _ (ssl : Ssl) (is_readable : String → Bool) (disk : Disk) where
  -- A file that opens and whose text contains a header.
  abbrev pub IsPem : String → String → Type 0
  IsPem header file =
      (content : String) × (opened is_readable disk file ≡ some content)
      × Contains (codes header) (codes content)

  validate_pem_iff :
      (header file : String) (missing malformed : TlsError)
      → (validate_pem header missing malformed is_readable disk file ≡ success tt)
        ↔ IsPem header file
  validate_pem_iff header file missing malformed = (
    λ h. elim (Option-cases (opened is_readable disk file)) [
      | inl e ↦ absurd (ground (arith, h, e))
      | inr (content, e) ↦ elim (Bool-cases (has_header header content)) [
        | inl f ↦ (content, e, (occurs_iff (codes header) (codes content)).0 f)
        | inr f ↦ absurd (ground (arith, h, e, f))
      ]
    ],
    λ (content, e, inside).
        let f : has_header header content ≡ true =
          (occurs_iff (codes header) (codes content)).1 inside in
        ground (arith, e, f),
  )

  -- The ciphers of a handler are none, or are accepted.
  abbrev pub HasCiphers : TlsHandler → Type 0
  HasCiphers h = (h.cipher_list == "" || ssl.sets_ciphers h.cipher_list) ≡ true

  -- What `initialize` needs.
  abbrev pub IsLoadable : TlsHandler → String → String → Type 0
  IsLoadable h cert_file key_file =
      IsPem pem_certificate_header cert_file
      × (ssl.use_chain cert_file ≡ true)
      × IsPem pem_private_key_header key_file
      × (ssl.use_key key_file ≡ true)
      × HasCiphers h

  apply_ciphers_iff :
      (h : TlsHandler) → ((apply_ciphers ssl is_readable disk h).1 ≡ success tt) ↔ HasCiphers h
  unfolding apply_ciphers
  apply_ciphers_iff h = (λ a. ground (arith, a), λ c. ground (arith, c))

  use_checked_iff :
      (r : TlsResult (Unit {0})) (taken : Bool) (h' h : TlsHandler) (refused : TlsError)
      → ((use_checked r taken h' h refused).1 ≡ success tt) ↔ ((r ≡ success tt) × (taken ≡ true))
  use_checked_iff (failure e) taken h' h refused =
      (λ a. absurd (ground (arith, a)), λ p. absurd (ground (arith, p.0)))
  use_checked_iff (success tt) true h' h refused = (λ a. (refl, refl), λ p. refl)
  use_checked_iff (success tt) false h' h refused =
      (λ a. absurd (ground (arith, a)), λ p. absurd (ground (arith, p.1)))

  -- What no step of `initialize` changes.
  abbrev settings : TlsHandler → String × VerifyMode × Bool
  settings h = (h.cipher_list, h.verify_mode, h.has_callback)

  settings-use_checked :
      (r : TlsResult (Unit {0})) (taken : Bool) (h' h : TlsHandler) (refused : TlsError)
      → settings h' ≡ settings h
      → settings (use_checked r taken h' h refused).0 ≡ settings h
  settings-use_checked (failure e) taken h' h refused k = refl
  settings-use_checked (success tt) true h' h refused k = k
  settings-use_checked (success tt) false h' h refused k = refl

  after_key_iff :
      (r : TlsHandler × TlsResult (Unit {0}))
      → ((after_key ssl is_readable disk r).1 ≡ success tt) ↔ ((r.1 ≡ success tt) × HasCiphers r.0)
  after_key_iff (h, failure e) =
      (λ a. absurd (ground (arith, a)), λ p. absurd (ground (arith, p.0)))
  after_key_iff (h, success tt) =
      (λ a. (refl, (apply_ciphers_iff h).0 a), λ p. (apply_ciphers_iff h).1 p.1)

  after_chain_iff :
      (key_file : String) (r : TlsHandler × TlsResult (Unit {0}))
      → ((after_chain ssl is_readable disk key_file r).1 ≡ success tt) ↔ (
          (r.1 ≡ success tt)
          × ((after_key ssl is_readable disk (load_private_key ssl is_readable disk r.0 key_file)).1
              ≡ success tt))
  after_chain_iff key_file (h, failure e) =
      (λ a. absurd (ground (arith, a)), λ p. absurd (ground (arith, p.0)))
  after_chain_iff key_file (h, success tt) = (λ a. (refl, a), λ p. p.1)

  chain_iff :
      (h : TlsHandler) (file : String)
      → ((load_certificate_chain ssl is_readable disk h file).1 ≡ success tt)
        ↔ (IsPem pem_certificate_header file × (ssl.use_chain file ≡ true))
  unfolding load_certificate_chain validate_certificate_file
  chain_iff h file =
      let pem =
        validate_pem_iff pem_certificate_header file (cert_file_not_found file)
          (invalid_cert_format file) in
      let checked =
        use_checked_iff (validate_certificate_file is_readable disk file) (ssl.use_chain file)
          (record h { chain = some file }) h (cert_chain_load_failed file) in
      (λ a. let (v, t) = checked.0 a in (pem.0 v, t), λ p. checked.1 (pem.1 p.0, p.1))

  key_iff :
      (h : TlsHandler) (file : String)
      → ((load_private_key ssl is_readable disk h file).1 ≡ success tt)
        ↔ (IsPem pem_private_key_header file × (ssl.use_key file ≡ true))
  unfolding load_private_key validate_key_file
  key_iff h file =
      let pem =
        validate_pem_iff pem_private_key_header file (key_file_not_found file)
          (invalid_key_format file) in
      let checked =
        use_checked_iff (validate_key_file is_readable disk file) (ssl.use_key file)
          (record h { private_key = some file }) h (key_load_failed file) in
      (λ a. let (v, t) = checked.0 a in (pem.0 v, t), λ p. checked.1 (pem.1 p.0, p.1))

  settings-load_certificate_chain :
      (h : TlsHandler) (file : String)
      → settings (load_certificate_chain ssl is_readable disk h file).0 ≡ settings h
  unfolding load_certificate_chain
  settings-load_certificate_chain h file =
      settings-use_checked (validate_certificate_file is_readable disk file) (ssl.use_chain file)
        (record h { chain = some file }) h (cert_chain_load_failed file) refl

  settings-load_private_key :
      (h : TlsHandler) (file : String)
      → settings (load_private_key ssl is_readable disk h file).0 ≡ settings h
  unfolding load_private_key
  settings-load_private_key h file =
      settings-use_checked (validate_key_file is_readable disk file) (ssl.use_key file)
        (record h { private_key = some file }) h (key_load_failed file) refl

  HasCiphers-eq : (h h' : TlsHandler) → settings h' ≡ settings h → HasCiphers h → HasCiphers h'
  HasCiphers-eq h h' e c = subst (λ s. (s.0 == "" || ssl.sets_ciphers s.0) ≡ true) (sym e) c

  -- `initialize` succeeds exactly if both files open and contain their headers, Boost.Asio takes both,
  -- and OpenSSL takes the ciphers, where there are any.
  pub initialize_iff :
      (h : TlsHandler) (cert_file key_file : String)
      → ((initialize ssl is_readable disk h cert_file key_file).1 ≡ success tt)
        ↔ IsLoadable h cert_file key_file
  unfolding initialize
  initialize_iff h cert_file key_file =
      let r = load_certificate_chain ssl is_readable disk h cert_file in
      let q = load_private_key ssl is_readable disk r.0 key_file in
      let same : settings q.0 ≡ settings h =
        settings-load_private_key r.0 key_file ∙ settings-load_certificate_chain h cert_file in
      (
        λ a.
            let (chained, rest) = (after_chain_iff key_file r).0 a in
            let (keyed, ciphers) = (after_key_iff q).0 rest in
            let (pem, taken) = (chain_iff h cert_file).0 chained in
            let (key_pem, key_taken) = (key_iff r.0 key_file).0 keyed in
            (pem, taken, key_pem, key_taken, HasCiphers-eq q.0 h (sym same) ciphers),
        λ (pem, taken, key_pem, key_taken, ciphers). (after_chain_iff key_file r).1 (
          (chain_iff h cert_file).1 (pem, taken),
          (after_key_iff q).1
              ((key_iff r.0 key_file).1 (key_pem, key_taken), HasCiphers-eq h q.0 same ciphers),
        ),
      )
