-- ===== src/Tests/Dashboard.antt =====
-- A presented bundle, a started verification, and a file that is sent.
use fixrepro.Base.{ℕ, ◌≡◌, refl, inr, true, some, codes, String}
use fixrepro.Core.Errors.{ok}
use fixrepro.Core.Json.{obj, end}
use fixrepro.Core.Primitives.{loaded}
use fixrepro.Targets.{media_type, before_semicolon, strip_left, strip_right, lower}
use fixrepro.Verifier.Models.{one_execution_per_role}
use fixrepro.Verifier.Report.{same_input}
use fixrepro.Verifier.BundleVerifier.Verify.{BundleVerificationResult}
use fixrepro.App.Jobs.{VerificationJobManager, new_manager, start_job}
use fixrepro.App.Presentation.{resolve_bundle, verify_registered_bundle, accept_verification}
use fixrepro.App.Presentation.Present.{
  BundlePresentation, demo, present_bundle, present_evidence, present_executions, make_presentation,
  last_of_role, Shows, presented_sound,
}
use fixrepro.App.Dashboard.{
  FileFacts, report, success, start_verification, start_reply, is_nested, is_empty_object,
  artifact_response, send_file, allowed_artifact,
}
use fixrepro.App.Dashboard.Routes.{
  Decides, IsRunRequest, start_verification_decides, IsServed, artifact_response-IsServed,
}
use fixrepro.Tests.Verdicts.{v_run, p_run, c_run}
use fixrepro.Tests.Presentation.{paths, registry, checked}
use fixrepro.Tests.Report.{plain}

abbrev shown : BundlePresentation
shown = make_presentation "demo" demo checked plain v_run p_run c_run

presented_sound_example :
    (path : String) × (v : BundleVerificationResult) × (resolve_bundle "demo" registry ≡ inr path)
    × (ok checked ≡ ok v)
    × (v.valid ≡ true)
    × Shows paths (λ _. ok checked) (λ _. some plain) (λ _. true) v shown
unfolding present_bundle present_evidence present_executions verify_registered_bundle resolve_bundle
    accept_verification last_of_role one_execution_per_role same_input
presented_sound_example =
    presented_sound paths (λ _. ok checked) (λ _. some plain) (λ _. true) registry "demo" demo shown
      refl

abbrev idle : VerificationJobManager ℕ
idle = new_manager ℕ

start_verification_decides_example :
    Decides
      (IsRunRequest
        (some (codes "Application/JSON; charset=utf-8"))
        (some "run-verification")
        (loaded (obj end)))
      true
      idle
      (start_verification
        (some (codes "Application/JSON; charset=utf-8"))
        (some "run-verification")
        (loaded (obj end))
        "JOB-00000001"
        "now"
        true
        idle)
start_verification_decides_example =
    start_verification_decides (some (codes "Application/JSON; charset=utf-8"))
      (some "run-verification") (loaded (obj end)) "JOB-00000001" "now" true idle

job_started :
    (start_verification
      (some (codes "Application/JSON; charset=utf-8"))
      (some "run-verification")
      (loaded (obj end))
      "JOB-00000001"
      "now"
      true
      idle).0
    ≡ success 202 "JOB-00000001"
unfolding start_verification start_reply start_job is_nested is_empty_object media_type
    before_semicolon strip_left strip_right lower new_manager
job_started = refl

abbrev files : FileFacts
files = record { is_file = λ _. true; parent = λ _. "evidence/demo-bundle" }

artifact_response-IsServed_example :
    IsServed paths files
      (λ _. ok checked)
      registry
      "demo"
      report
      "evidence/demo-bundle/report.html"
      "text/html"
unfolding artifact_response send_file allowed_artifact verify_registered_bundle resolve_bundle
    accept_verification
artifact_response-IsServed_example =
    artifact_response-IsServed paths files (λ _. ok checked) registry "demo" report
      "evidence/demo-bundle/report.html" "text/html" refl
