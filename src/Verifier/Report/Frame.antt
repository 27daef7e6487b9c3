-- ===== src/Verifier/Report/Frame.antt =====
-- No text of the evidence changes the markup of the report.
use fixrepro.Base.{
  ℕ, suc, ◌≡◌, refl, sym, ap, ◌∙◌, inl, inr, String, Bool, true, false, ◌==◌, nat_eq, ≡→==, ==→≡,
  Bool-cases, Option-cases, contains, length, map, arith, some, List, [], ◌∷◌, ◌++◌, codes,
}
use mathlib.Core.List.{append_assoc}
use fixrepro.Core.Canonical.{decimal}
use fixrepro.Verifier.Models.{
  ExecutionRole, vulnerable, patched, positive_control, role_eq, ExecutionEvidence,
  EvidenceDocument, ArtifactRecord, one_execution_per_role,
}
use fixrepro.Verifier.Report.{
  Segment, markup, cell, number, escape_cell, segment_text, page_text, splitlines, join_lines,
  find_execution, artifact_row, artifact_rows, result_card, same_input, replay_text,
}
use fixrepro.Verifier.Report.Page.{
  page_start, page_style, page_hero, page_results, page_proof, page_artifacts, table_start,
  table_end, page_digest, page_end, page, render_report,
}
use fixrepro.Verifier.Report.Markup.{
  markups, markups-append, markups-escape_cell, markups-decimal, markups-lines,
}

-- The markup of a page is that of its template.
unfoldable pub frame : List Segment → List ℕ
frame [] = []
frame (markup s ∷ rest) = markups (codes s) ++ frame rest
frame (_ ∷ rest) = frame rest

markups-page : (segments : List Segment) → markups (page_text segments) ≡ frame segments
unfolding page_text segment_text frame markups
markups-page [] = refl
markups-page (markup s ∷ rest) =
    markups-append (codes s) (page_text rest) ∙ ap (λ m. markups (codes s) ++ m) (markups-page rest)
markups-page (cell s ∷ rest) =
    rw (markups-append (escape_cell (codes s)) (page_text rest), markups-escape_cell (codes s))
      (markups-page rest)
markups-page (number n ∷ rest) =
    rw (markups-append (decimal (suc n) n []) (page_text rest), markups-decimal (suc n) n [])
      (markups-page rest)

frame-append : (xs ys : List Segment) → frame (xs ++ ys) ≡ frame xs ++ frame ys
unfolding frame
frame-append [] ys = refl
frame-append (markup s ∷ xs) ys =
    ap (λ m. markups (codes s) ++ m) (frame-append xs ys)
    ∙ sym (append_assoc (markups (codes s)) (frame xs) (frame ys))
frame-append (cell s ∷ xs) ys = frame-append xs ys
frame-append (number n ∷ xs) ys = frame-append xs ys

frame-artifact_rows :
    (xs ys : List ArtifactRecord)
    → length xs ≡ length ys
    → frame (artifact_rows xs) ≡ frame (artifact_rows ys)
unfolding artifact_rows artifact_row frame
frame-artifact_rows [] [] h = refl
frame-artifact_rows [] (y ∷ ys) h = absurd (omega (arith, h))
frame-artifact_rows (x ∷ xs) [] h = absurd (omega (arith, h))
frame-artifact_rows (x ∷ xs) (y ∷ ys) h =
    frame-append (artifact_row x) (artifact_rows xs)
    ∙ ap (λ m. frame (artifact_row y) ++ m) (frame-artifact_rows xs ys (omega (arith, h)))
    ∙ sym (frame-append (artifact_row y) (artifact_rows ys))

both_frames :
    (xs xs' ys ys' : List Segment)
    → frame xs ≡ frame xs'
    → frame ys ≡ frame ys'
    → frame (xs ++ ys) ≡ frame (xs' ++ ys')
both_frames xs xs' ys ys' h k = rw (frame-append xs ys, frame-append xs' ys', h, k) refl

frame-page_hero : (e e' : EvidenceDocument) → frame (page_hero e) ≡ frame (page_hero e')
unfolding frame page_hero
frame-page_hero e e' = refl

frame-page_results :
    (v p c v' p' c' : ExecutionEvidence)
    → frame (page_results v p c) ≡ frame (page_results v' p' c')
unfolding frame page_results result_card
frame-page_results v p c v' p' c' = refl

markups-replay_text : (b : Bool) → markups (codes (replay_text b)) ≡ []
unfolding markups
markups-replay_text true = refl
markups-replay_text false = refl

frame-page_proof :
    (v p c v' p' c' : ExecutionEvidence) → frame (page_proof v p c) ≡ frame (page_proof v' p' c')
unfolding frame page_proof
frame-page_proof v p c v' p' c' =
    rw (markups-replay_text (same_input v p), markups-replay_text (same_input v' p')) refl

frame-page_artifacts :
    (e e' : EvidenceDocument)
    → length e.bundle_files ≡ length e'.bundle_files
    → frame (page_artifacts e) ≡ frame (page_artifacts e')
unfolding page_artifacts
frame-page_artifacts e e' files = both_frames table_start table_start _ _ refl (
    both_frames (artifact_rows e.bundle_files) (artifact_rows e'.bundle_files) table_end table_end
      (frame-artifact_rows e.bundle_files e'.bundle_files files) refl)

frame-page_digest : (path path' : String) → frame (page_digest path) ≡ frame (page_digest path')
unfolding frame page_digest
frame-page_digest path path' = refl

-- The pages of two documents with equally many files have the same frame.
frame-page :
    (e e' : EvidenceDocument) (path path' : String) (v p c v' p' c' : ExecutionEvidence)
    → length e.bundle_files ≡ length e'.bundle_files
    → frame (page e path v p c) ≡ frame (page e' path' v' p' c')
unfolding page
frame-page e e' path path' v p c v' p' c' files = both_frames page_start page_start _ _ refl (
    both_frames page_style page_style _ _ refl (
      both_frames (page_hero e) (page_hero e') _ _ (frame-page_hero e e') (
        both_frames (page_results v p c) (page_results v' p' c') _ _
          (frame-page_results v p c v' p' c')
          (both_frames (page_proof v p c) (page_proof v' p' c') _ _
            (frame-page_proof v p c v' p' c')
            (both_frames (page_artifacts e) (page_artifacts e') _ _
              (frame-page_artifacts e e' files)
              (both_frames (page_digest path) (page_digest path') page_end page_end
                (frame-page_digest path path') refl))))))

nothing_before : (text : List ℕ) → markups [] ++ markups text ≡ markups text
unfolding markups
nothing_before text = refl

-- The code points of a rendered page have the frame's markup.
markups-render_report :
    (e : EvidenceDocument) (path : String) (r : List ℕ)
    → render_report e path ≡ some r
    → (v : ExecutionEvidence) × (p : ExecutionEvidence) × (c : ExecutionEvidence) × (markups r
        ≡ frame (page e path v p c))
unfolding render_report
markups-render_report e path r h = elim (Option-cases (find_execution vulnerable e.executions)) [
  | inl none_is ↦ absurd (ground arith)
  | inr (v, found_v) ↦ elim (Option-cases (find_execution patched e.executions)) [
    | inl none_is ↦ absurd (ground arith)
    | inr (p, found_p) ↦ elim (Option-cases (find_execution positive_control e.executions)) [
      | inl none_is ↦ absurd (ground arith)
      | inr (c, found_c) ↦
          let text = page_text (page e path v p c) in
          let rendered : join_lines (splitlines false [] text) ≡ r = ground arith in
          (
            v,
            p,
            c,
            ap markups (sym rendered)
                ∙ markups-lines false [] text
                ∙ nothing_before text
                ∙ markups-page (page e path v p c),
          )
    ]
  ]
]

find_present :
    (role : ExecutionRole) (es : List ExecutionEvidence)
    → contains (map (λ (e : ExecutionEvidence). e.role) es) role ≡ true
    → (e : ExecutionEvidence) × (find_execution role es ≡ some e)
unfolding find_execution
find_present role [] h = absurd (ground arith)
find_present role (e ∷ es) h = elim (Bool-cases (e.role == role)) [
  | inl found ↦ (e, rw (found, find_execution) refl)
  | inr other ↦
      let (x, later) = find_present role es (ground (arith, ≡→== e.role role, ==→≡ role e.role)) in
      (x, rw (other, find_execution) later)
]

-- A document with one execution of each role has a report.
render_report_total :
    (e : EvidenceDocument) (path : String)
    → one_execution_per_role e.executions ≡ true
    → (r : List ℕ) × (render_report e path ≡ some r)
unfolding render_report one_execution_per_role
render_report_total e path complete =
    let (v, has_v) = find_present vulnerable e.executions (ground arith) in
    let (p, has_p) = find_present patched e.executions (ground arith) in
    let (c, has_c) = find_present positive_control e.executions (ground arith) in
    (
      join_lines (splitlines false [] (page_text (page e path v p c))),
      rw (has_v, has_p, has_c, render_report) refl,
    )

-- No text of the evidence adds markup to the report: two evidence documents with one execution of each
-- role and with equally many files both have a report, and the reports have the same sequence of `<`,
-- `>`, `"` and `'`, whatever the texts and the paths are.
pub report_markup_fixed :
    (e e' : EvidenceDocument) (path path' : String)
    → one_execution_per_role e.executions ≡ true
    → one_execution_per_role e'.executions ≡ true
    → length e.bundle_files ≡ length e'.bundle_files
    → (r : List ℕ) × (r' : List ℕ) × (render_report e path ≡ some r)
      × (render_report e' path' ≡ some r')
      × (markups r ≡ markups r')
report_markup_fixed e e' path path' complete complete' files =
    let (r, h) = render_report_total e path complete in
    let (r', h') = render_report_total e' path' complete' in
    let (v, p, c, m) = markups-render_report e path r h in
    let (v', p', c', m') = markups-render_report e' path' r' h' in
    (r, r', h, h', m ∙ frame-page e e' path path' v p c v' p' c' files ∙ sym m')
