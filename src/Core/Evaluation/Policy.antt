-- ===== src/Core/Evaluation/Policy.antt =====
-- When the two policies accept, why they reject, and how they differ on one input.
use fixrepro.Base.{
  ◌≡◌, ◌≢◌, ◌⊎◌, some, refl, sym, ◌∙◌, subst, ap, inl, inr, ◌↔◌, arith, nat_eq, string_eq, list_eq,
  list_beq_iff, eq_iff, length, Bytes,
}
use fixrepro.Core.Errors.{
  PyError, Result, ok, raise, recursion_error, Returns, Result-cases, ok-injective,
}
use fixrepro.Core.Primitives.{Primitives, verified}
use fixrepro.Core.Canonical.{canonical_manifest_bytes}
use fixrepro.Core.Package.{
  DecodedPackage, digits_exceeded, parse_and_decode_package, verify_payload_integrity,
  signer_fingerprint, verify_manifest_signature,
}
use fixrepro.Core.Package.Decoded.{
  IsIntact, json_escape, escape_cases, parse-sizes, parse-raises, integrity_ok, integrity_sound,
  integrity_raises,
}
use fixrepro.Core.Evaluation.{
  accepted, rejected, error, ReasonCode, checksum_only_accepted, trusted_signature_accepted,
  untrusted_signer, payload_hash_mismatch, payload_size_mismatch, malformed_package, PolicyResult,
  reason_of, bare_result, rejected_from_error, package_result, catch_parse, catch_integrity,
  evaluate_vulnerable_policy, check_signer, evaluate_patched_policy,
}

-- A result that is no ERROR, and an acceptance exactly if the reason says so.
pub record IsSettled (reason : ReasonCode) (r : PolicyResult) : Type 0 where
  pub decided : r.decision ≢ error
  pub reasoned : (r.decision ≡ accepted) ↔ (r.reason_code ≡ reason)

module _ (prim : Primitives) where
  -- The package is signed by the holder of `key`: its declared key is `key`, the fingerprint is of
  -- that key, and the signature over the manifest's canonical bytes verifies.
  pub record IsSignedBy (key : Bytes) (p : DecodedPackage) : Type 0 where
    pub fingerprint : prim.sha256_hex p.signer_public_key ≡ p.envelope.signer_fingerprint
    pub signer : p.signer_public_key ≡ key
    pub signature :
        prim.ed25519_verify p.signer_public_key p.signature
          (canonical_manifest_bytes p.envelope.manifest)
        ≡ verified

  check_signer_ok :
      (key : Bytes) (p : DecodedPackage)
      → length p.signer_public_key ≡ 32
      → IsSignedBy key p
      → check_signer prim p key ≡ ok (package_result accepted trusted_signature_accepted p)
  unfolding check_signer signer_fingerprint verify_manifest_signature
  check_signer_ok key p size s = ground (
    arith,
    eq_iff (prim.sha256_hex p.signer_public_key) p.envelope.signer_fingerprint,
    list_beq_iff p.signer_public_key key,
  )

  check_signer_sound :
      (key : Bytes) (p : DecodedPackage) (r : PolicyResult)
      → check_signer prim p key ≡ ok r
      → r.decision ≡ accepted
      → IsSignedBy key p × (r ≡ package_result accepted trusted_signature_accepted p)
  unfolding check_signer signer_fingerprint verify_manifest_signature package_result
  check_signer_sound key p r h a = ground (
    arith,
    eq_iff (prim.sha256_hex p.signer_public_key) p.envelope.signer_fingerprint,
    list_beq_iff p.signer_public_key key,
  )

  signer_untrusted :
      (key : Bytes) (p : DecodedPackage)
      → length p.signer_public_key ≡ 32
      → prim.sha256_hex p.signer_public_key ≡ p.envelope.signer_fingerprint
      → p.signer_public_key ≢ key
      → check_signer prim p key ≡ ok (package_result rejected untrusted_signer p)
  unfolding check_signer signer_fingerprint
  signer_untrusted key p size f n = ground (
    arith,
    eq_iff (prim.sha256_hex p.signer_public_key) p.envelope.signer_fingerprint,
    list_beq_iff p.signer_public_key key,
  )

  pub patched_sound :
      (raw key : Bytes) (r : PolicyResult)
      → evaluate_patched_policy prim raw key ≡ ok r
      → r.decision ≡ accepted
      → (p : DecodedPackage) × (parse_and_decode_package prim raw ≡ ok p)
        × IsIntact prim p
        × IsSignedBy key p
        × (r ≡ package_result accepted trusted_signature_accepted p)
  unfolding evaluate_patched_policy catch_parse catch_integrity rejected_from_error bare_result
      package_result
  patched_sound raw key r h a = elim (Result-cases (parse_and_decode_package prim raw)) [
    | inr (e, parsed) ↦ ground arith
    | inl (p, parsed) ↦ elim (Result-cases (verify_payload_integrity prim p)) [
      | inr (e, broken) ↦ ground arith
      | inl (u, intact) ↦
          let (signed, named) = check_signer_sound key p r (ground arith) a in
          (p, parsed, integrity_sound prim p u intact, signed, named)
    ]
  ]

  -- A package that parses is accepted by the patched policy exactly if its payload is intact and it
  -- is signed by the holder of the trusted key; the result then names the package's fields.
  pub patched-accepts_iff :
      (raw key : Bytes) (p : DecodedPackage)
      → parse_and_decode_package prim raw ≡ ok p
      → (evaluate_patched_policy prim raw key
          ≡ ok (package_result accepted trusted_signature_accepted p))
        ↔ (IsIntact prim p × IsSignedBy key p)
  unfolding evaluate_patched_policy catch_parse catch_integrity
  patched-accepts_iff raw key p parsed = (
    λ h.
        let (q, parsed', intact, signed, _) =
          patched_sound raw key _ h (unfold package_result in refl) in
        subst (λ d. IsIntact prim d × IsSignedBy key d) (ok-injective (sym parsed' ∙ parsed))
          (intact, signed),
    λ (intact, signed).
        rw (parsed, integrity_ok prim p intact)
          (check_signer_ok key p (parse-sizes prim raw p parsed).0 signed),
  )

  pub vulnerable_sound :
      (raw : Bytes) (r : PolicyResult)
      → evaluate_vulnerable_policy prim raw ≡ ok r
      → r.decision ≡ accepted
      → (p : DecodedPackage) × (parse_and_decode_package prim raw ≡ ok p)
        × IsIntact prim p
        × (r ≡ package_result accepted checksum_only_accepted p)
  unfolding evaluate_vulnerable_policy catch_parse catch_integrity rejected_from_error bare_result
      package_result
  vulnerable_sound raw r h a = elim (Result-cases (parse_and_decode_package prim raw)) [
    | inr (e, parsed) ↦ ground arith
    | inl (p, parsed) ↦ elim (Result-cases (verify_payload_integrity prim p)) [
      | inr (e, broken) ↦ ground arith
      | inl (u, intact) ↦ (p, parsed, integrity_sound prim p u intact, ground arith)
    ]
  ]

  -- A package that parses is accepted by the vulnerable policy exactly if its payload is intact,
  -- whoever signed it.
  pub vulnerable-accepts_iff :
      (raw : Bytes) (p : DecodedPackage)
      → parse_and_decode_package prim raw ≡ ok p
      → (evaluate_vulnerable_policy prim raw
          ≡ ok (package_result accepted checksum_only_accepted p))
        ↔ IsIntact prim p
  unfolding evaluate_vulnerable_policy catch_parse catch_integrity package_result
  vulnerable-accepts_iff raw p parsed = (
    λ h. elim (Result-cases (verify_payload_integrity prim p)) [
      | inl (u, e) ↦ integrity_sound prim p u e
      | inr (x, e) ↦ ground arith
    ],
    λ intact. rw (parsed, integrity_ok prim p intact),
  )

  -- The security regression on one input: an intact package whose fingerprint is right and whose
  -- signer is not the trusted one is accepted by the vulnerable policy, and rejected as
  -- UNTRUSTED_SIGNER by the patched one, with the same four package fields.
  pub policies_differ :
      (raw key : Bytes) (p : DecodedPackage)
      → parse_and_decode_package prim raw ≡ ok p
      → IsIntact prim p
      → prim.sha256_hex p.signer_public_key ≡ p.envelope.signer_fingerprint
      → p.signer_public_key ≢ key
      → (evaluate_vulnerable_policy prim raw
          ≡ ok (package_result accepted checksum_only_accepted p))
        × (evaluate_patched_policy prim raw key ≡ ok (package_result rejected untrusted_signer p))
  unfolding evaluate_patched_policy catch_parse catch_integrity
  policies_differ raw key p parsed intact f n = (
    (vulnerable-accepts_iff raw p parsed).1 intact,
    rw (parsed, integrity_ok prim p intact)
        (signer_untrusted key p (parse-sizes prim raw p parsed).0 f n),
  )

  -- What the patched policy accepts, the vulnerable one accepts too, with the same package fields:
  -- the patch only takes acceptances away.
  pub patched_narrows :
      (raw key : Bytes) (r : PolicyResult)
      → evaluate_patched_policy prim raw key ≡ ok r
      → r.decision ≡ accepted
      → evaluate_vulnerable_policy prim raw ≡ ok (record r { reason_code = checksum_only_accepted })
  unfolding package_result
  patched_narrows raw key r h a =
      let (p, parsed, intact, _, named) = patched_sound raw key r h a in
      (vulnerable-accepts_iff raw p parsed).1 intact
      ∙ ap (λ (s : PolicyResult). ok (record s { reason_code = checksum_only_accepted }))
          (sym named)

  -- The integrity check returns, or `catch_integrity` turns its exception into a rejection.
  catch_integrity_total :
      (p : DecodedPackage) (P : PolicyResult → Type 0) (k : Result PolicyResult)
      → P (package_result rejected payload_size_mismatch p)
      → P (package_result rejected payload_hash_mismatch p)
      → Returns k P
      → Returns (catch_integrity p (verify_payload_integrity prim p) k) P
  unfolding catch_integrity reason_of
  catch_integrity_total p P k size hash rest =
      elim (Result-cases (verify_payload_integrity prim p)) [
        | inl (u, intact) ↦ rw intact rest
        | inr (x, broken) ↦ elim (integrity_raises prim p x broken) [
          | inl (_, me) ↦ rw (broken, me.1) size
          | inr (_, _, me) ↦ rw (broken, me.1) hash
        ]
      ]

  -- A result that satisfies `P`, or the exception of `json.loads` that nothing catches.
  abbrev pub Answers : Bytes → Result PolicyResult → (PolicyResult → Type 0) → Type 0
  Answers raw r P = Returns r P ⊎ ((x : PyError) × (json_escape prim raw ≡ some x) × (r ≡ raise x))

  escape-catch_parse :
      (k : DecodedPackage → Result PolicyResult) (x : PyError)
      → (x ≡ digits_exceeded) ⊎ (x ≡ recursion_error)
      → catch_parse (raise x) k ≡ raise x
  unfolding catch_parse
  escape-catch_parse k x (inl is) = rw is refl
  escape-catch_parse k x (inr is) = rw is refl

  catch_parse_total :
      (raw : Bytes) (P : PolicyResult → Type 0) (k : DecodedPackage → Result PolicyResult)
      → P (bare_result rejected malformed_package)
      → ((p : DecodedPackage) → parse_and_decode_package prim raw ≡ ok p → Returns (k p) P)
      → Answers raw (catch_parse (parse_and_decode_package prim raw) k) P
  unfolding catch_parse rejected_from_error reason_of
  catch_parse_total raw P k bad rest = elim (Result-cases (parse_and_decode_package prim raw)) [
    | inl (p, parsed) ↦ inl (rw parsed (rest p parsed))
    | inr (x, broken) ↦ elim (parse-raises prim raw x broken) [
      | inl (message, named) ↦ inl (rw (broken, named) bad)
      | inr escapes ↦
          inr (x, escapes, rw broken (escape-catch_parse k x (escape_cases prim raw x escapes)))
    ]
  ]

  check_signer_total :
      (key : Bytes) (p : DecodedPackage)
      → length p.signer_public_key ≡ 32
      → Returns (check_signer prim p key) (IsSettled trusted_signature_accepted)
  unfolding check_signer signer_fingerprint package_result
  check_signer_total key p size = ground arith

  -- The vulnerable policy returns on every input, malformed ones included, unless an exception escapes from
  -- `json.loads`; the decision is no ERROR, and it is ACCEPTED exactly with the reason
  -- CHECKSUM_ONLY_ACCEPTED.
  pub vulnerable_total :
      (raw : Bytes)
      → Answers raw (evaluate_vulnerable_policy prim raw) (IsSettled checksum_only_accepted)
  unfolding evaluate_vulnerable_policy package_result bare_result
  vulnerable_total raw =
      catch_parse_total raw (IsSettled checksum_only_accepted) _ (ground arith) λ p _.
        catch_integrity_total p (IsSettled checksum_only_accepted) _ (ground arith) (ground arith)
          (ground arith)

  -- The patched policy returns on every input and for every trusted key, unless an exception escapes from
  -- `json.loads`; the decision is no ERROR, and it is ACCEPTED exactly with the reason TRUSTED_SIGNATURE_ACCEPTED.
  pub patched_total :
      (raw key : Bytes)
      → Answers raw (evaluate_patched_policy prim raw key) (IsSettled trusted_signature_accepted)
  unfolding evaluate_patched_policy package_result bare_result
  patched_total raw key =
      catch_parse_total raw (IsSettled trusted_signature_accepted) _ (ground arith) λ p parsed.
        catch_integrity_total p (IsSettled trusted_signature_accepted) _ (ground arith)
          (ground arith) (check_signer_total key p (parse-sizes prim raw p parsed).0)
