-- ===== src/App/Dashboard.antt =====
-- app/main.py and app/security.py: the routes of the dashboard and the headers of every answer.
pub mod Routes
use Prim.Native.String.{◌++◌ as concat}
use fixrepro.Base.{
  ℕ, ◌⊎◌, inl, inr, String, Bool, true, false, not, ◌&&◌, ◌||◌, ◌==◌, nat_eq, list_eq, string_eq,
  option_eq, Option, none, some, List, [], ◌∷◌, codes, if◌then◌else◌,
}
use fixrepro.Core.Errors.{PyError, Result, os_error, value_error, package_validation}
use fixrepro.Core.Json.{obj, end}
use fixrepro.Core.Primitives.{JsonLoads, loaded, nesting_error}
use fixrepro.Targets.{media_type}
use fixrepro.Verifier.Models.{EvidenceDocument}
use fixrepro.Verifier.BundleVerifier.Verify.{BundleVerificationResult}
use fixrepro.App.Jobs.{
  JobRecord, VerificationJobManager, StartError, shutting_down_error, already_running_error,
  thread_error, start_job, get_job,
}
use fixrepro.App.Presentation.{
  PresentationError, bundle_not_found, verifier_error, PathFacts, BundleRegistry,
  verify_registered_bundle,
}
use fixrepro.App.Presentation.Present.{BundlePresentation, demo, present_bundle}

-- The status, and the content or the code of an `ErrorResponse`.
pub data RouteReply (A : Type 0) : Type 0 where
  success : (status_code : ℕ) → A → RouteReply A
  failure : (status_code : ℕ) → (code : String) → RouteReply A

abbrev pub status_of : {A : Type 0} → RouteReply A → ℕ
status_of (success status_code _) = status_code
status_of (failure status_code _) = status_code

-- `except (BundleNotFoundError, BundleIntegrityError, OSError, ValueError)`; any other exception is for
-- the handler of internal errors.
unfoldable pub is_caught : PresentationError → Bool
is_caught (verifier_error (os_error _)) = true
is_caught (verifier_error (value_error _)) = true
is_caught (verifier_error (package_validation _ _)) = true
is_caught (verifier_error _) = false
is_caught _ = true

abbrev pub internal_error : {A : Type 0} → RouteReply A
internal_error = failure 500 "INTERNAL_ERROR"

unfoldable pub demo_route : PresentationError ⊎ BundlePresentation → RouteReply BundlePresentation
unfolding is_caught
demo_route (inr presentation) = success 200 presentation
demo_route (inl e) = if is_caught e then failure 503 "DEMO_BUNDLE_UNAVAILABLE" else internal_error

-- A JSON object without members.
unfoldable pub is_empty_object : JsonLoads → Bool
is_empty_object (loaded (obj end)) = true
is_empty_object _ = false

-- No clause catches the `RecursionError` of `json.loads`; the handler of internal errors answers it.
unfoldable pub is_nested : JsonLoads → Bool
is_nested nesting_error = true
is_nested _ = false

unfoldable pub start_reply : StartError ⊎ String → RouteReply String
start_reply (inr job_id) = success 202 job_id
start_reply (inl already_running_error) = failure 409 "VERIFICATION_ALREADY_RUNNING"
start_reply (inl shutting_down_error) = failure 503 "VERIFICATION_START_FAILED"
start_reply (inl thread_error) = failure 500 "VERIFICATION_START_FAILED"

module _ {R : Type 0} where
  -- The two headers, the body, and what `start_job` draws.
  unfoldable pub start_verification :
      Option (List ℕ)
      → Option String
      → JsonLoads
      → String
      → String
      → Bool
      → VerificationJobManager R
      → RouteReply String × VerificationJobManager R
  unfolding start_reply
  start_verification content_type action body job_id now thread_starts m =
      if not (media_type content_type == codes "application/json")
      then (failure 400 "INVALID_REQUEST", m)
      else if not (action == some "run-verification")
      then (failure 400 "ACTION_HEADER_REQUIRED", m)
      else if is_nested body
      then (internal_error, m)
      else if not (is_empty_object body)
      then (failure 400 "INVALID_REQUEST", m)
      else (let (started, m') = start_job job_id now thread_starts m in (start_reply started, m'))

  unfoldable pub verification_status : String → VerificationJobManager R → RouteReply (JobRecord R)
  verification_status job_id m = elim (get_job job_id m) [
    | none ↦ failure 404 "JOB_NOT_FOUND"
    | some job ↦ success 200 job
  ]

pub data Artifact : Type 0 where
  report evidence manifest digest : Artifact

-- `ALLOWED_ARTIFACTS`
unfoldable pub allowed_artifact : Artifact → String × String
allowed_artifact report = ("report.html", "text/html")
allowed_artifact evidence = ("evidence.json", "application/json")
allowed_artifact manifest = ("manifest.json", "application/json")
allowed_artifact digest = ("manifest.sha256", "text/plain")

-- What the route asks of a file.
pub record FileFacts : Type 0 where
  pub is_file : String → Bool
  pub parent : String → String

unfoldable pub guard_failure : PresentationError → RouteReply (String × String)
unfolding is_caught
guard_failure bundle_not_found = failure 404 "BUNDLE_NOT_FOUND"
guard_failure e = if is_caught e then failure 409 "BUNDLE_INTEGRITY_FAILURE" else internal_error

module _ (paths : PathFacts) (files : FileFacts)
    (verify : String → Result BundleVerificationResult) where
  unfoldable pub send_file : String → String → String → RouteReply (String × String)
  send_file bundle_path path media =
      if not (files.is_file path) || paths.is_symlink path || not (files.parent path == bundle_path)
      then failure 409 "BUNDLE_INTEGRITY_FAILURE"
      else success 200 (path, media)

  -- The file that is sent, and its media type.
  unfoldable pub artifact_response :
      BundleRegistry → String → Artifact → RouteReply (String × String)
  unfolding guard_failure send_file
  artifact_response registry bundle_id artifact =
      elim (verify_registered_bundle paths verify registry bundle_id) [
        | inl e ↦ guard_failure e
        | inr (bundle_path, _) ↦
            let (filename, media) = allowed_artifact artifact in
            send_file bundle_path (concat (concat bundle_path "/") filename) media
      ]

-- `request.url.path.endswith("/report")`
unfoldable pub ends_with : List ℕ → List ℕ → Bool
ends_with suffix [] = suffix == []
ends_with suffix (c ∷ cs) = suffix == c ∷ cs || ends_with suffix cs

abbrev pub dashboard_csp : String
dashboard_csp =
    "default-src 'self'; script-src 'self'; style-src 'self'; img-src 'self' data:; connect-src 'self'; font-src 'none'; object-src 'none'; base-uri 'none'; frame-ancestors 'none'; form-action 'self'"

abbrev pub report_csp : String
report_csp =
    "default-src 'none'; style-src 'unsafe-inline'; img-src data:; object-src 'none'; base-uri 'none'; frame-ancestors 'none'"

-- `SecurityHeadersMiddleware.dispatch`: the headers that every answer gets.
unfoldable pub security_headers : String → List (String × String)
unfolding ends_with
security_headers path =
    (
      "Content-Security-Policy",
      if ends_with (codes "/report") (codes path) then report_csp else dashboard_csp,
    )
    ∷ ("X-Content-Type-Options", "nosniff")
    ∷ ("X-Frame-Options", "DENY")
    ∷ ("Referrer-Policy", "no-referrer")
    ∷ ("Permissions-Policy", "camera=(), microphone=(), geolocation=(), payment=(), usb=()")
    ∷ ("Cross-Origin-Opener-Policy", "same-origin")
    ∷ ("Cache-Control", "no-store")
    ∷ []
