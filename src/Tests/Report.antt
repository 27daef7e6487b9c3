-- ===== src/Tests/Report.antt =====
-- Two documents, one of them with hostile texts, and their reports.
use fixrepro.Base.{ℕ, ◌≡◌, refl, false, some, List, [], ◌∷◌, codes}
use fixrepro.Verifier.Models.{EvidenceDocument, one_execution_per_role, patch_verified}
use fixrepro.Verifier.Report.{
  cell, markup, escape_html, escape_cell, segment_text, page_text, rstrip, splitlines, join_lines,
}
use fixrepro.Verifier.Report.Page.{render_report}
use fixrepro.Verifier.Report.Markup.{markups}
use fixrepro.Verifier.Report.Frame.{report_markup_fixed}
use fixrepro.Tests.Verdicts.{v_run, p_run, c_run}

abbrev pub plain : EvidenceDocument
plain = record {
  schema_version = "1.1";
  verification_id = "FR-1";
  created_at = "2026-01-01T00:00:00.000Z";
  test_case = record {
    case_id = "a";
    title = "t";
    security_property = "p";
    positive_control_case_id = "b";
  };
  executions = v_run ∷ p_run ∷ c_run ∷ [];
  verification_outcome = patch_verified;
  bundle_files = [];
}

abbrev hostile : EvidenceDocument
hostile = record plain { verification_id = "<script src=\"x\">"; created_at = "'&amp;'" }

report_markup_fixed_example :
    (r : List ℕ) × (r' : List ℕ) × (render_report plain "evidence/runs/a" ≡ some r)
    × (render_report hostile "evidence/runs/<b>" ≡ some r')
    × (markups r ≡ markups r')
unfolding one_execution_per_role
report_markup_fixed_example =
    report_markup_fixed plain hostile "evidence/runs/a" "evidence/runs/<b>" refl refl refl

hostile_cell :
    page_text (markup "<p>" ∷ cell "<i a='1'> & \"" ∷ [])
    ≡ codes "<p>&lt;i a=&#x27;1&#x27;&gt; &amp; &quot;"
unfolding page_text segment_text escape_cell escape_html
hostile_cell = refl

lines_stripped : join_lines (splitlines false [] (codes "a  \r\nb \t\n\n c")) ≡ codes "a\nb\n\n c\n"
unfolding join_lines splitlines rstrip
lines_stripped = refl
