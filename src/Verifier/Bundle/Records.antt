-- ===== src/Verifier/Bundle/Records.antt =====
-- When the record checks find nothing.
use fixrepro.Base.{
  ℕ, ◌≡◌, ◌≢◌, ◌↔◌, refl, inl, inr, String, true, none, some, nat_eq, string_eq, option_eq, eq_iff,
  Option-cases, arith, List, [], length, contains, Bytes,
}
use fixrepro.Core.Errors.{ok, Result-cases}
use fixrepro.Core.Primitives.{Primitives}
use fixrepro.Core.Package.{
  DecodedPackage, parse_and_decode_package, verify_payload_integrity, signer_fingerprint,
  verify_manifest_signature,
}
use fixrepro.Core.Package.Decoded.{IsIntact, integrity_ok, integrity_sound, parse-sizes}
use fixrepro.Verifier.Models.{ExecutionEvidence, ArtifactRecord, role_eq, state_eq}
use fixrepro.Verifier.Paths.{safe_relative_path}
use fixrepro.Verifier.Bundle.{
  BundleFiles, artifact_content, record_failures, package_mismatches, parse_checked,
  package_content, package_record_failures,
}

module _ (prim : Primitives) (files : BundleFiles) where
  -- A file that is there.
  content_iff :
      (r : ArtifactRecord) (content : Bytes)
      → files r.path ≡ some content
      → (artifact_content prim files r ≡ [])
        ↔ ((length content ≡ r.size_bytes) × (prim.sha256_hex content ≡ r.sha256))
  unfolding artifact_content
  content_iff r content found = ground (arith, found, eq_iff (prim.sha256_hex content) r.sha256)

  content_absent : (r : ArtifactRecord) → files r.path ≡ none → artifact_content prim files r ≢ []
  unfolding artifact_content
  content_absent r absent h = ground arith

  artifact_content_iff :
      (r : ArtifactRecord)
      → (artifact_content prim files r ≡ []) ↔ (
          (content : Bytes) × (files r.path ≡ some content)
          × (length content ≡ r.size_bytes)
          × (prim.sha256_hex content ≡ r.sha256))
  artifact_content_iff r = (
    λ h. elim (Option-cases (files r.path)) [
      | inl absent ↦ absurd (content_absent r absent h)
      | inr (content, found) ↦
          let (size, hash) = (content_iff r content found).0 h in (content, found, size, hash)
    ],
    λ (content, found, size, hash). (content_iff r content found).1 (size, hash),
  )

  -- No failure is reported of an artifact record exactly if its path is safe and listed in the
  -- manifest, and the file there, no symlink, has the size and the SHA-256 that are recorded.
  pub record_failures_iff :
      (r : ArtifactRecord) (manifest_paths : List String)
      → (record_failures prim files r manifest_paths ≡ []) ↔ (
          (parts : List (List ℕ)) × (content : Bytes) × (safe_relative_path r.path ≡ inr parts)
          × (contains manifest_paths r.path ≡ true)
          × (files r.path ≡ some content)
          × (length content ≡ r.size_bytes)
          × (prim.sha256_hex content ≡ r.sha256))
  unfolding record_failures
  record_failures_iff r manifest_paths = ground (arith, artifact_content_iff r)

  -- The package `p` is the one that the execution describes, and its own signer signed it.
  pub record IsPackageOf (e : ExecutionEvidence) (raw : Bytes) (p : DecodedPackage) : Type 0 where
    pub parsed : parse_and_decode_package prim raw ≡ ok p
    pub intact : IsIntact prim p
    pub envelope : prim.sha256_hex raw ≡ e.package_evidence.envelope_sha256
    pub payload : p.envelope.manifest.payload_sha256 ≡ e.package_evidence.sha256
    pub fingerprint : prim.sha256_hex p.signer_public_key ≡ e.package_evidence.signer_fingerprint
    pub signature :
        verify_manifest_signature prim p.signer_public_key p.envelope.manifest p.signature ≡ true

  parse_checked_ok :
      (raw : Bytes) (p : DecodedPackage)
      → parse_and_decode_package prim raw ≡ ok p
      → IsIntact prim p
      → parse_checked prim raw ≡ ok p
  unfolding parse_checked
  parse_checked_ok raw p parsed intact = rw (parsed, integrity_ok prim p intact) refl

  parse_checked_sound :
      (raw : Bytes) (p : DecodedPackage)
      → parse_checked prim raw ≡ ok p
      → (parse_and_decode_package prim raw ≡ ok p) × (verify_payload_integrity prim p ≡ ok tt)
  unfolding parse_checked
  parse_checked_sound raw p h = ground arith

  -- A package that parses.
  mismatches_iff :
      (e : ExecutionEvidence) (p : DecodedPackage)
      → length p.signer_public_key ≡ 32
      → (package_mismatches prim e p ≡ ok []) ↔ (
          (p.envelope.manifest.payload_sha256 ≡ e.package_evidence.sha256)
          × (prim.sha256_hex p.signer_public_key ≡ e.package_evidence.signer_fingerprint)
          × (verify_manifest_signature prim p.signer_public_key p.envelope.manifest p.signature
              ≡ true))
  unfolding package_mismatches signer_fingerprint
  mismatches_iff e p size = ground (
    arith,
    eq_iff p.envelope.manifest.payload_sha256 e.package_evidence.sha256,
    eq_iff (prim.sha256_hex p.signer_public_key) e.package_evidence.signer_fingerprint,
  )

  content_ok_iff :
      (e : ExecutionEvidence) (raw : Bytes) (p : DecodedPackage)
      → parse_and_decode_package prim raw ≡ ok p
      → IsIntact prim p
      → (package_content prim e raw ≡ ok []) ↔ (
          (p.envelope.manifest.payload_sha256 ≡ e.package_evidence.sha256)
          × (prim.sha256_hex p.signer_public_key ≡ e.package_evidence.signer_fingerprint)
          × (verify_manifest_signature prim p.signer_public_key p.envelope.manifest p.signature
              ≡ true))
  unfolding package_content
  content_ok_iff e raw p parsed intact =
      rw (parse_checked_ok raw p parsed intact, package_content)
        (mismatches_iff e p (parse-sizes prim raw p parsed).0)

  content_sound :
      (e : ExecutionEvidence) (raw : Bytes)
      → package_content prim e raw ≡ ok []
      → (p : DecodedPackage) × (parse_and_decode_package prim raw ≡ ok p) × IsIntact prim p
  unfolding package_content
  content_sound e raw h = elim (Result-cases (parse_checked prim raw)) [
    | inl (p, parsed) ↦
        let (decoded, intact) = parse_checked_sound raw p parsed in
        (p, decoded, integrity_sound prim p tt intact)
    | inr (x, raised) ↦ absurd (ground arith)
  ]

  -- The checks around the content.
  around_iff :
      (e : ExecutionEvidence) (manifest_paths : List String) (parts : List (List ℕ)) (raw : Bytes)
      → safe_relative_path e.package_evidence.filename ≡ inr parts
      → files e.package_evidence.filename ≡ some raw
      → (package_record_failures prim files e manifest_paths ≡ ok []) ↔ (
          (contains manifest_paths e.package_evidence.filename ≡ true)
          × (prim.sha256_hex raw ≡ e.package_evidence.envelope_sha256)
          × (package_content prim e raw ≡ ok []))
  unfolding package_record_failures
  around_iff e manifest_paths parts raw safe found =
      ground (arith, safe, found, eq_iff (prim.sha256_hex raw) e.package_evidence.envelope_sha256)

  found_file :
      (e : ExecutionEvidence) (manifest_paths : List String)
      → package_record_failures prim files e manifest_paths ≡ ok []
      → (parts : List (List ℕ)) × (raw : Bytes) × (safe_relative_path e.package_evidence.filename
          ≡ inr parts)
        × (files e.package_evidence.filename ≡ some raw)
  unfolding package_record_failures
  found_file e manifest_paths h = ground arith

  -- No failure is reported of an execution's package exactly if its path is safe and listed in the
  -- manifest, and the file there, no symlink, is the package that the execution describes: the hash
  -- of the envelope and of the payload, and the signer's fingerprint are the recorded ones, and the
  -- package is intact and carries a valid signature of the signer that it declares.
  pub package_record_failures_iff :
      (e : ExecutionEvidence) (manifest_paths : List String)
      → (package_record_failures prim files e manifest_paths ≡ ok []) ↔ (
          (parts : List (List ℕ)) × (raw : Bytes) × (p : DecodedPackage) × (safe_relative_path
              e.package_evidence.filename
            ≡ inr parts)
          × (contains manifest_paths e.package_evidence.filename ≡ true)
          × (files e.package_evidence.filename ≡ some raw)
          × IsPackageOf e raw p)
  package_record_failures_iff e manifest_paths = (
    λ h.
        let (parts, raw, safe, found) = found_file e manifest_paths h in
        let (listed, envelope, content) = (around_iff e manifest_paths parts raw safe found).0 h in
        let (p, parsed, intact) = content_sound e raw content in
        let (payload, fingerprint, signature) = (content_ok_iff e raw p parsed intact).0 content in
        let described : IsPackageOf e raw p = record {
          parsed = parsed;
          intact = intact;
          envelope = envelope;
          payload = payload;
          fingerprint = fingerprint;
          signature = signature;
        } in
        (parts, raw, p, safe, listed, found, described),
    λ (parts, raw, p, safe, listed, found, is).
        (around_iff e manifest_paths parts raw safe found).1 (
          listed,
          is.envelope,
          (content_ok_iff e raw p is.parsed is.intact).1 (is.payload, is.fingerprint, is.signature),
        ),
  )
