-- ===== src/Verifier/Report.antt =====
-- verifier/report.py: the HTML report of a finished evidence document.
pub mod Page
pub mod Markup
pub mod Frame
use Prim.Native.String.{◌++◌ as concat}
use fixrepro.Base.{
  ℕ, zero, suc, String, Bool, true, false, not, ◌&&◌, ◌||◌, ◌==◌, nat_eq, string_eq, leb, any,
  contains, Option, none, some, List, [], ◌∷◌, ◌++◌, codes, if◌then◌else◌,
}
use fixrepro.Core.Canonical.{decimal}
use fixrepro.Core.Models.{◌>>=◌}
use fixrepro.Verifier.Models.{
  ExecutionRole, vulnerable, patched, positive_control, ObservedDecision, accepted, rejected,
  SecurityVerdict, pass, fail, VerificationOutcome, patch_verified, patch_not_verified,
  ExecutionEvidence, EvidenceDocument, ArtifactRecord, role_eq, decision_eq, verdict_eq,
}
use fixrepro.Verifier.Bundle.{decision_text}

-- A piece of the page: text of the template, a value that `_cell` escapes, or a number.
pub data Segment : Type 0 where
  markup : String → Segment
  cell : String → Segment
  number : ℕ → Segment

-- `html.escape(value, quote=True)`
unfoldable pub escape_html : ℕ → List ℕ
escape_html c =
    if c == b'&'
    then codes "&amp;"
    else if c == b'<'
    then codes "&lt;"
    else if c == b'>'
    then codes "&gt;"
    else if c == 34
    then codes "&quot;"
    else if c == 39
    then codes "&#x27;"
    else c ∷ []

unfoldable pub escape_cell : List ℕ → List ℕ
unfolding escape_html
escape_cell [] = []
escape_cell (c ∷ cs) = escape_html c ++ escape_cell cs

unfoldable pub segment_text : Segment → List ℕ
segment_text (markup s) = codes s
segment_text (cell s) = escape_cell (codes s)
segment_text (number n) = decimal (suc n) n []

unfoldable pub page_text : List Segment → List ℕ
page_text [] = []
page_text (s ∷ rest) = segment_text s ++ page_text rest

-- `str.isspace` of a character, and what `str.splitlines` takes for the end of a line.
abbrev pub space_characters : List ℕ
space_characters =
    9 ∷ 10 ∷ 11 ∷ 12 ∷ 13 ∷ 28 ∷ 29 ∷ 30 ∷ 31 ∷ 32 ∷ 133 ∷ 160 ∷ 5760 ∷ 8192 ∷ 8193 ∷ 8194 ∷ 8195
    ∷ 8196 ∷ 8197 ∷ 8198 ∷ 8199 ∷ 8200 ∷ 8201 ∷ 8202 ∷ 8232 ∷ 8233 ∷ 8239 ∷ 8287 ∷ 12288 ∷ []

abbrev pub line_ends : List ℕ
line_ends = 10 ∷ 11 ∷ 12 ∷ 13 ∷ 28 ∷ 29 ∷ 30 ∷ 133 ∷ 8232 ∷ 8233 ∷ []

-- `line.rstrip()`
unfoldable pub rstrip : List ℕ → List ℕ
rstrip [] = []
rstrip (c ∷ cs) = elim (rstrip cs) [
  | [] ↦ if contains space_characters c then [] else c ∷ []
  | d ∷ ds ↦ c ∷ d ∷ ds
]

-- `document.splitlines()`: the line so far, and whether a carriage return ended the one before.
unfoldable pub splitlines : Bool → List ℕ → List ℕ → List (List ℕ)
splitlines after_cr [] [] = []
splitlines after_cr (c ∷ cs) [] = (c ∷ cs) ∷ []
splitlines after_cr line (c ∷ cs) = elim (after_cr && c == 10) [
  | true ↦ splitlines false line cs
  | false ↦ elim (contains line_ends c) [
    | true ↦ line ∷ splitlines (c == 13) [] cs
    | false ↦ splitlines false (line ++ (c ∷ [])) cs
  ]
]

-- Each line stripped, and ended by a line feed.
unfoldable pub join_lines : List (List ℕ) → List ℕ
join_lines [] = []
join_lines (line ∷ rest) = rstrip line ++ (10 ∷ join_lines rest)

abbrev pub verdict_text : SecurityVerdict → String
verdict_text pass = "PASS"
verdict_text fail = "FAIL"
verdict_text SecurityVerdict.inconclusive = "INCONCLUSIVE"

-- `next(item for item in evidence.executions if item.role == role)`; none is `StopIteration`.
unfoldable pub find_execution : ExecutionRole → List ExecutionEvidence → Option ExecutionEvidence
find_execution role [] = none
find_execution role (e ∷ es) =
    let rest = find_execution role es in if e.role == role then some e else rest

unfoldable pub verification_command : String → String
verification_command bundle_relative_path =
    if any (contains space_characters) (codes bundle_relative_path)
    then concat (concat "python scripts/verify_bundle.py \"" bundle_relative_path) "\""
    else concat "python scripts/verify_bundle.py " bundle_relative_path

unfoldable pub same_input : ExecutionEvidence → ExecutionEvidence → Bool
same_input v p =
    v.package_evidence.envelope_sha256 == p.package_evidence.envelope_sha256
    && v.request.body_sha256 == p.request.body_sha256

abbrev pub replay_text : Bool → String
replay_text true = "The exact same package bytes were replayed."
replay_text false = "The package replay hashes do not match."

abbrev pub outcome_label : VerificationOutcome → String
outcome_label patch_verified = "PATCH VERIFIED"
outcome_label patch_not_verified = "PATCH NOT VERIFIED"
outcome_label VerificationOutcome.inconclusive = "INCONCLUSIVE"

unfoldable pub vulnerable_label : ExecutionEvidence → String
vulnerable_label v =
    if v.security_verdict == fail
    then "UNSAFE BEHAVIOR REPRODUCED"
    else "UNSAFE BASELINE NOT REPRODUCED"

unfoldable pub patched_label : ExecutionEvidence → String
patched_label p =
    if p.observed_decision == rejected && p.security_verdict == pass
    then "PATCH BLOCKED SAME INPUT"
    else "PATCH DID NOT BLOCK SAME INPUT"

unfoldable pub positive_label : ExecutionEvidence → String
positive_label c =
    if c.observed_decision == accepted && c.security_verdict == pass
    then "LEGITIMATE UPDATE PRESERVED"
    else "LEGITIMATE UPDATE NOT PRESERVED"

unfoldable pub artifact_row : ArtifactRecord → List Segment
artifact_row item =
    (markup "<tr><td><code>"
      ∷ cell item.path
      ∷ markup "</code></td><td>"
      ∷ cell item.media_type
      ∷ markup "</td><td>"
      ∷ number item.size_bytes
      ∷ markup "</td><td><code>"
      ∷ cell item.sha256
      ∷ markup "</code></td></tr>"
      ∷ [])

unfoldable pub artifact_rows : List ArtifactRecord → List Segment
artifact_rows [] = []
artifact_rows (item ∷ rest) = artifact_row item ++ artifact_rows rest

unfoldable pub result_card : String → String → ExecutionEvidence → String → List Segment
result_card label title execution tone =
    (markup "\n"
      ∷ markup "        <article class=\"card "
      ∷ markup tone
      ∷ markup "\">\n"
      ∷ markup "          <p class=\"status\"><span aria-hidden=\"true\">●</span> "
      ∷ cell label
      ∷ markup "</p>\n"
      ∷ markup "          <h3>"
      ∷ cell title
      ∷ markup "</h3>\n"
      ∷ markup "          <dl>\n"
      ∷ markup "            <div><dt>Build</dt><dd>"
      ∷ cell execution.build_id
      ∷ markup "</dd></div>\n"
      ∷ markup "            <div><dt>Decision</dt><dd>"
      ∷ cell (decision_text execution.observed_decision)
      ∷ markup "</dd></div>\n"
      ∷ markup "            <div><dt>Reason</dt><dd>"
      ∷ cell execution.response.reason_code
      ∷ markup "</dd></div>\n"
      ∷ markup "            <div><dt>Device</dt><dd>"
      ∷ cell execution.device_state_before.firmware_version
      ∷ markup " → "
      ∷ cell execution.device_state_after.firmware_version
      ∷ markup "</dd></div>\n"
      ∷ markup "            <div><dt>Verdict</dt><dd>"
      ∷ cell (verdict_text execution.security_verdict)
      ∷ markup "</dd></div>\n"
      ∷ markup "          </dl>\n"
      ∷ markup "        </article>"
      ∷ [])
