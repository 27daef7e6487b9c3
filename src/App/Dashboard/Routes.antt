-- ===== src/App/Dashboard/Routes.antt =====
-- What the routes of the dashboard let through.
use Prim.Native.String.{◌++◌ as concat}
use fixrepro.Base.{
  ℕ, ◌≡◌, ◌≢◌, ◌⊎◌, ◌↔◌, inl, inr, refl, String, Bool, true, false, ◌==◌, ==→≡, ≡→==, nat_eq,
  list_eq, eq_iff, string_eq, option_eq, is_none, Option, none, some, List, codes, arith,
  Bool-cases,
}
use fixrepro.Core.Errors.{Result, ok}
use fixrepro.Core.Json.{obj, end}
use fixrepro.Core.Primitives.{JsonLoads, loaded}
use fixrepro.Targets.{media_type}
use fixrepro.Verifier.BundleVerifier.Verify.{BundleVerificationResult}
use fixrepro.App.Jobs.{VerificationJobManager, start_job}
use fixrepro.App.Presentation.{
  PresentationError, PathFacts, BundleRegistry, resolve_bundle, verify_registered_bundle,
  registered_bundle_verified,
}
use fixrepro.App.Dashboard.{
  RouteReply, success, failure, internal_error, status_of, is_empty_object, is_nested, start_reply,
  start_verification, Artifact, allowed_artifact, FileFacts, guard_failure, send_file,
  artifact_response,
}

-- The request is one for a run: a JSON content type, the action header, and an empty JSON object.
abbrev pub IsRunRequest : Option (List ℕ) → Option String → JsonLoads → Type 0
IsRunRequest content_type action body =
    (media_type content_type ≡ codes "application/json")
    × (action ≡ some "run-verification")
    × (body ≡ loaded (obj end))

not_empty : (body : JsonLoads) → body ≡ loaded (obj end) → is_empty_object body ≡ false → ⊥
unfolding is_empty_object
not_empty body empty other = ground arith

nested_object : (body : JsonLoads) → body ≡ loaded (obj end) → is_nested body ≡ true → ⊥
unfolding is_nested
nested_object body empty deep = ground arith

empty_object : (body : JsonLoads) → is_empty_object body ≡ true → body ≡ loaded (obj end)
unfolding is_empty_object
empty_object body h = ground arith

module _ {R : Type 0} where
  -- The manager can start a job.
  abbrev pub IsReady : Bool → VerificationJobManager R → Type 0
  IsReady thread_starts m =
      (m.shutting_down ≡ false) × (m.active_job_id ≡ none) × (thread_starts ≡ true)

  -- A request that passes the checks is decided by the manager.
  manager_decides :
      (job_id now : String) (thread_starts : Bool) (m : VerificationJobManager R)
      → let (started, m') = start_job job_id now thread_starts m in
        ((status_of (start_reply started) ≡ 202) ↔ IsReady thread_starts m)
        × (status_of (start_reply started) ≢ 400)
        × (status_of (start_reply started) ≡ 409 → (m' ≡ m) × (m.active_job_id ≢ none))
        × (status_of (start_reply started) ≡ 503 → (m' ≡ m) × (m.shutting_down ≡ true))
        × (status_of (start_reply started) ≢ 202 → m'.active_job_id ≡ m.active_job_id)
  unfolding start_reply start_job
  manager_decides job_id now thread_starts m = ground arith

  -- What an answer says, where `P` is that the request is one for a run.
  abbrev pub Decides :
      Type 0
      → Bool
      → VerificationJobManager R
      → RouteReply String × VerificationJobManager R
      → Type 0
  Decides P thread_starts m x =
      ((status_of x.0 ≡ 202) ↔ (P × IsReady thread_starts m))
      × (status_of x.0 ≡ 400 → x.1 ≡ m)
      × (status_of x.0 ≡ 409 → (x.1 ≡ m) × (m.active_job_id ≢ none))
      × (status_of x.0 ≡ 503 → (x.1 ≡ m) × (m.shutting_down ≡ true))
      × (status_of x.0 ≢ 202 → x.1.active_job_id ≡ m.active_job_id)

  refused :
      (P : Type 0) (code : String) (thread_starts : Bool) (m : VerificationJobManager R)
      → (P → ⊥)
      → Decides P thread_starts m (failure 400 code, m)
  refused P code thread_starts m never = (
    (λ h. absurd (omega (arith, h)), λ (p, _). absurd (never p)),
    λ h. refl,
    λ h. absurd (omega (arith, h)),
    λ h. absurd (omega (arith, h)),
    λ h. refl,
  )

  crashed :
      (P : Type 0) (thread_starts : Bool) (m : VerificationJobManager R)
      → (P → ⊥)
      → Decides P thread_starts m (internal_error, m)
  crashed P thread_starts m never = (
    (λ h. absurd (omega (arith, h)), λ (p, _). absurd (never p)),
    λ h. refl,
    λ h. absurd (omega (arith, h)),
    λ h. absurd (omega (arith, h)),
    λ h. refl,
  )

  -- Starting a verification: the answer is 202 exactly if the content type is JSON, the action header is
  -- there, the body is an empty object, and the manager is not shutting down, runs no job and its thread
  -- starts. A 400 leaves the manager as it was, and so do a 409, which means that a job is running, and a
  -- 503, which means that it is shutting down; any other answer than 202 leaves the running job.
  pub start_verification_decides :
      (content_type : Option (List ℕ)) (action : Option String) (body : JsonLoads)
      (job_id now : String) (thread_starts : Bool) (m : VerificationJobManager R)
      → Decides
          (IsRunRequest content_type action body)
          thread_starts
          m
          (start_verification content_type action body job_id now thread_starts m)
  unfolding start_verification
  start_verification_decides content_type action body job_id now thread_starts m =
      let P = IsRunRequest content_type action body in
      elim (Bool-cases (media_type content_type == codes "application/json")) [
        | inr e ↦
            rw (e, start_verification)
              (refused P "INVALID_REQUEST" thread_starts m (λ (json, _, _).
                ground (arith, ≡→== (media_type content_type) (codes "application/json") json)))
        | inl e ↦ elim (Bool-cases (action == some "run-verification")) [
          | inr e' ↦
              rw (e, e', start_verification)
                (refused P "ACTION_HEADER_REQUIRED" thread_starts m
                  (λ (_, named, _). ground (arith, ≡→== action (some "run-verification") named)))
          | inl e' ↦ elim (Bool-cases (is_nested body)) [
            | inl deep ↦
                rw (e, e', deep, start_verification)
                  (crashed P thread_starts m (λ (_, _, empty). nested_object body empty deep))
            | inr flat ↦ elim (Bool-cases (is_empty_object body)) [
              | inr e'' ↦
                  rw (e, e', flat, e'', start_verification)
                    (refused P "INVALID_REQUEST" thread_starts m
                      (λ (_, _, empty). not_empty body empty e''))
              | inl e'' ↦
                  rw (e, e', flat, e'', start_verification)
                    (let (iff, no_400, running, closing, keeps) =
                        manager_decides job_id now thread_starts m in
                      let json = ==→≡ (media_type content_type) (codes "application/json") e in
                      let named = ==→≡ action (some "run-verification") e' in
                      let empty = empty_object body e'' in
                      (
                        (λ h. ((json, named, empty), iff.0 h), λ (_, ready). iff.1 ready),
                        λ h. absurd (no_400 h),
                        running,
                        closing,
                        keeps,
                      ))
            ]
          ]
        ]
      ]

never_served : (e : PresentationError) (x : String × String) → guard_failure e ≡ success 200 x → ⊥
unfolding guard_failure
never_served e x h = ground arith

module _ (paths : PathFacts) (files : FileFacts)
    (verify : String → Result BundleVerificationResult) where
  -- The bundle is registered under the identifier and no symlink, its verification is valid with an outcome
  -- and a manifest digest, and the file is the artifact's, a regular file that is no symlink and lies
  -- directly in the bundle's directory.
  pub record IsServed (registry : BundleRegistry) (bundle_id : String) (artifact : Artifact)
      (path media : String) : Type 0 where
    pub bundle_path : String
    pub verification : BundleVerificationResult
    pub registered : resolve_bundle bundle_id registry ≡ inr bundle_path
    pub bundle_no_symlink : paths.is_symlink bundle_path ≡ false
    pub verified : verify bundle_path ≡ ok verification
    pub valid : verification.valid ≡ true
    pub has_outcome : is_none verification.verification_outcome ≡ false
    pub has_digest : is_none verification.manifest_sha256 ≡ false
    pub named : path ≡ concat (concat bundle_path "/") (allowed_artifact artifact).0
    pub typed : media ≡ (allowed_artifact artifact).1
    pub regular : files.is_file path ≡ true
    pub no_symlink : paths.is_symlink path ≡ false
    pub inside : files.parent path ≡ bundle_path

  file_checked :
      (bundle_path file media path media' : String)
      → send_file paths files verify bundle_path file media ≡ success 200 (path, media')
      → (path ≡ file)
        × (media' ≡ media)
        × (files.is_file file ≡ true)
        × (paths.is_symlink file ≡ false)
        × (files.parent file ≡ bundle_path)
  unfolding send_file
  file_checked bundle_path file media path media' h =
      ground (arith, eq_iff (files.parent file) bundle_path)

  -- A file of a bundle is sent only if the bundle is registered under the identifier and no symlink, its
  -- verification just now is valid with an outcome and a manifest digest, and the file is one of the four
  -- fixed ones, a regular file that is no symlink and lies directly in the bundle's directory.
  pub artifact_response-IsServed :
      (registry : BundleRegistry) (bundle_id : String) (artifact : Artifact) (path media : String)
      → artifact_response paths files verify registry bundle_id artifact ≡ success 200 (path, media)
      → IsServed registry bundle_id artifact path media
  unfolding artifact_response
  artifact_response-IsServed registry bundle_id artifact path media served =
      by_guard (verify_registered_bundle paths verify registry bundle_id) refl
    where
      by_guard :
          (g : PresentationError ⊎ (String × BundleVerificationResult))
          → verify_registered_bundle paths verify registry bundle_id ≡ g
          → IsServed registry bundle_id artifact path media
      by_guard (inl e) guard = absurd (never_served e (path, media) (ground arith))
      by_guard (inr (bundle_path, v)) guard =
          let (resolved, no_link, verified, valid, outcome, digest) =
            registered_bundle_verified paths verify registry bundle_id bundle_path v guard in
          let file = concat (concat bundle_path "/") (allowed_artifact artifact).0 in
          let (named, typed, regular, plain, inside) =
            file_checked bundle_path file (allowed_artifact artifact).1 path media (ground arith) in
          record {
            bundle_path = bundle_path;
            verification = v;
            registered = resolved;
            bundle_no_symlink = no_link;
            verified = verified;
            valid = valid;
            has_outcome = outcome;
            has_digest = digest;
            named = named;
            typed = typed;
            regular = rw named regular;
            no_symlink = rw named plain;
            inside = rw named inside;
          }
