-- ===== src/Verifier/Report/Page.antt =====
-- verifier/report.py: the page of `render_report`, from its template.
use fixrepro.Base.{String, Option, some, List, [], ◌∷◌, ◌++◌, ℕ, false}
use fixrepro.Core.Models.{◌>>=◌}
use fixrepro.Verifier.Models.{
  ExecutionEvidence, EvidenceDocument, vulnerable, patched, positive_control,
}
use fixrepro.Verifier.Bundle.{decision_text}
use fixrepro.Verifier.Report.{
  Segment, markup, cell, artifact_rows, result_card, outcome_label, vulnerable_label, patched_label,
  positive_label, same_input, replay_text, verification_command, find_execution, page_text,
  splitlines, join_lines,
}

unfoldable pub page_start : List Segment
page_start =
    (markup "<!doctype html>\n"
      ∷ markup "<html lang=\"en\">\n"
      ∷ markup "<head>\n"
      ∷ markup "  <meta charset=\"utf-8\">\n"
      ∷ markup "  <meta name=\"viewport\" content=\"width=device-width, initial-scale=1\">\n"
      ∷ markup "  <title>FixRepro verification report</title>\n"
      ∷ [])

unfoldable pub page_style : List Segment
page_style =
    (markup "  <style>\n"
      ∷ markup
          "    :root { color-scheme: light; --ink:#17202a; --muted:#536273; --line:#d9e1e8; --surface:#f5f7f9; --pass:#12633a; --warn:#8a3b12; --accent:#174ea6; }\n"
      ∷ markup "    * { box-sizing:border-box; }\n"
      ∷ markup
          "    body { margin:0; font:16px/1.5 system-ui,sans-serif; color:var(--ink); background:#fff; }\n"
      ∷ markup "    main { width:min(1120px,100%); margin:auto; padding:clamp(20px,4vw,52px); }\n"
      ∷ markup "    h1 { margin:.15rem 0; font-size:clamp(2rem,6vw,4rem); line-height:1; }\n"
      ∷ markup "    h2 { margin-top:2.25rem; }\n"
      ∷ markup
          "    .eyebrow,.status { font-weight:800; letter-spacing:.05em; text-transform:uppercase; }\n"
      ∷ markup "    .hero { border-bottom:4px solid var(--accent); padding-bottom:1.5rem; }\n"
      ∷ markup
          "    .outcome { display:inline-block; margin:1rem 0; padding:.55rem .8rem; color:#fff; background:var(--pass); border-radius:.35rem; font-weight:900; }\n"
      ∷ markup "    .meta { color:var(--muted); overflow-wrap:anywhere; }\n"
      ∷ markup
          "    .grid { display:grid; grid-template-columns:repeat(3,minmax(0,1fr)); gap:1rem; }\n"
      ∷ markup
          "    .card { border:1px solid var(--line); border-top:7px solid var(--pass); border-radius:.6rem; padding:1rem; background:var(--surface); }\n"
      ∷ markup "    .card.unsafe { border-top-color:var(--warn); }\n"
      ∷ markup "    .card h3 { margin:.2rem 0 .8rem; }\n"
      ∷ markup "    .card .status { font-size:.8rem; }\n"
      ∷ markup "    .card.unsafe .status { color:var(--warn); }\n"
      ∷ markup "    .card.safe .status { color:var(--pass); }\n"
      ∷ markup
          "    dl div { display:grid; grid-template-columns:6rem 1fr; gap:.5rem; border-top:1px solid var(--line); padding:.45rem 0; }\n"
      ∷ markup "    dt { font-weight:700; } dd { margin:0; overflow-wrap:anywhere; }\n"
      ∷ markup "    code { font-family:ui-monospace,monospace; overflow-wrap:anywhere; }\n"
      ∷ markup
          "    .proof { border-left:5px solid var(--accent); padding:1rem 1.2rem; background:#eef4ff; }\n"
      ∷ markup "    table { width:100%; border-collapse:collapse; font-size:.9rem; }\n"
      ∷ markup
          "    th,td { text-align:left; vertical-align:top; padding:.6rem; border:1px solid var(--line); overflow-wrap:anywhere; }\n"
      ∷ markup "    th { background:var(--surface); }\n"
      ∷ markup "    .table-wrap { overflow-x:auto; }\n"
      ∷ markup
          "    @media (max-width:760px) { .grid { grid-template-columns:1fr; } main { padding:20px; } }\n"
      ∷ markup "  </style>\n"
      ∷ [])

unfoldable pub page_hero : EvidenceDocument → List Segment
page_hero evidence =
    (markup "</head>\n"
      ∷ markup "<body>\n"
      ∷ markup "<main>\n"
      ∷ markup "  <header class=\"hero\">\n"
      ∷ markup "    <p class=\"eyebrow\">Reproducible Security Patch Verification.</p>\n"
      ∷ markup "    <h1>FixRepro</h1>\n"
      ∷ markup "    <p class=\"outcome\" role=\"status\"><span aria-hidden=\"true\">●</span> "
      ∷ cell (outcome_label evidence.verification_outcome)
      ∷ markup "</p>\n"
      ∷ markup "    <p class=\"meta\">Verification ID: <code>"
      ∷ cell evidence.verification_id
      ∷ markup "</code><br>Created: "
      ∷ cell evidence.created_at
      ∷ markup "</p>\n"
      ∷ markup "    <p><strong>Tested security property:</strong> "
      ∷ cell evidence.test_case.security_property
      ∷ markup "</p>\n"
      ∷ markup "  </header>\n"
      ∷ markup "\n"
      ∷ [])

unfoldable pub page_results :
    ExecutionEvidence → ExecutionEvidence → ExecutionEvidence → List Segment
page_results v p c =
    (markup "  <h2>Result at a glance</h2>\n"
      ∷ markup "  <section class=\"grid\" aria-label=\"Verification results\">\n"
      ∷ markup "    "
      ∷ [])
    ++ result_card (vulnerable_label v) "Vulnerable baseline" v "unsafe"
    ++ (markup "\n" ∷ markup "    " ∷ [])
    ++ result_card (patched_label p) "Patched security test" p "safe"
    ++ (markup "\n" ∷ markup "    " ∷ [])
    ++ result_card (positive_label c) "Trusted positive control" c "safe"
    ++ (markup "\n" ∷ markup "  </section>\n" ∷ markup "\n" ∷ [])

unfoldable pub page_proof : ExecutionEvidence → ExecutionEvidence → ExecutionEvidence → List Segment
page_proof v p c =
    (markup "  <h2>Same-input proof</h2>\n"
      ∷ markup "  <div class=\"proof\">\n"
      ∷ markup "    <p><strong>"
      ∷ markup (replay_text (same_input v p))
      ∷ markup "</strong></p>\n"
      ∷ markup "    <p>Full untrusted package envelope SHA-256:<br><code>"
      ∷ cell v.package_evidence.envelope_sha256
      ∷ markup "</code></p>\n"
      ∷ markup "    <p>The trusted positive control was "
      ∷ cell (decision_text c.observed_decision)
      ∷ markup " and changed the device to "
      ∷ cell c.device_state_after.firmware_version
      ∷ markup ".</p>\n"
      ∷ markup "  </div>\n"
      ∷ markup "\n"
      ∷ [])

unfoldable pub table_start : List Segment
table_start =
    (markup "  <h2>Evidence artifacts</h2>\n"
      ∷ markup "  <div class=\"table-wrap\"><table>\n"
      ∷ markup
          "    <thead><tr><th>Path</th><th>Media type</th><th>Bytes</th><th>SHA-256</th></tr></thead>\n"
      ∷ markup "    <tbody>"
      ∷ [])

unfoldable pub table_end : List Segment
table_end = (markup "</tbody>\n" ∷ markup "  </table></div>\n" ∷ markup "\n" ∷ [])

unfoldable pub page_artifacts : EvidenceDocument → List Segment
page_artifacts evidence = table_start ++ (artifact_rows evidence.bundle_files ++ table_end)

unfoldable pub page_digest : String → List Segment
page_digest bundle_relative_path =
    (markup "  <h2>Bundle root digest</h2>\n"
      ∷ markup
          "  <p>The final bundle digest is stored in <code>manifest.sha256</code>. It is intentionally not embedded here because <code>report.html</code> is itself covered by <code>manifest.json</code>.</p>\n"
      ∷ markup "  <p>Verify this bundle locally with:</p>\n"
      ∷ markup "  <pre><code>"
      ∷ cell (verification_command bundle_relative_path)
      ∷ markup "</code></pre>\n"
      ∷ markup "\n"
      ∷ [])

unfoldable pub page_end : List Segment
page_end =
    (markup "  <h2>Safety scope</h2>\n"
      ∷ markup
          "  <p>This is a controlled synthetic IoT OTA demonstration. It uses localhost services, harmless test firmware, generated in-memory signing identities, and deterministic observations. It does not test external systems or real vendor firmware.</p>\n"
      ∷ markup "\n"
      ∷ markup "  <h2>Limitations</h2>\n"
      ∷ markup
          "  <p>PATCH VERIFIED applies only to this defined regression case under the recorded test conditions. It does not show that every vulnerability is fixed or that the build is generally secure.</p>\n"
      ∷ markup
          "  <p>The bundle is tamper-evident when its published manifest digest is retained separately. It is not a substitute for an externally trusted digital signature or independent laboratory validation.</p>\n"
      ∷ markup "</main>\n"
      ∷ markup "</body>\n"
      ∷ markup "</html>\n"
      ∷ [])

unfoldable pub page :
    EvidenceDocument
    → String
    → ExecutionEvidence
    → ExecutionEvidence
    → ExecutionEvidence
    → List Segment
page evidence bundle_relative_path v p c =
    page_start
    ++ (page_style
        ++ (page_hero evidence
            ++ (page_results v p c
                ++ (page_proof v p c
                    ++ (page_artifacts evidence
                        ++ (page_digest bundle_relative_path ++ page_end))))))

-- The code points of `render_report`; none if an execution is missing.
unfoldable pub render_report : EvidenceDocument → String → Option (List ℕ)
render_report evidence bundle_relative_path = do
  v ← find_execution vulnerable evidence.executions
  p ← find_execution patched evidence.executions
  c ← find_execution positive_control evidence.executions
  some (join_lines (splitlines false [] (page_text (page evidence bundle_relative_path v p c))))
