-- ===== src/Tests/Output.antt =====
-- Output directories in a repository with no links, and in one with a link back to the repository.
use fixrepro.Base.{
  ◌≡◌, ◌≢◌, ◌↔◌, refl, Option, none, some, true, false, ◌==◌, nat_eq, list_eq, if◌then◌else◌, [],
  ◌∷◌, codes, String,
}
use fixrepro.Core.Errors.{ok}
use fixrepro.Verifier.Paths.{split_slash, components}
use fixrepro.Verifier.Orchestrator.Output.{
  PathParts, FileSystem, parent, join_path, is_relative_to, output_parts, check_parents,
  check_candidate, resolve_output_directory,
}
use fixrepro.Verifier.Orchestrator.Output.Confined.{IsConfined, resolve_output_directory_iff}

abbrev repository : PathParts
repository = codes "repo" ∷ []

abbrev plain : FileSystem
plain = record { resolve = λ path. path; exists = λ _. true; is_symlink = λ _. false }

abbrev demo : Option String
demo = some "evidence/demo-bundle"

resolve_output_directory_iff_example :
    (resolve_output_directory plain repository [] demo ≢ none)
    × ((directory : PathParts)
        → (resolve_output_directory plain repository [] demo ≡ some (ok directory)) ↔ (
            (parts : PathParts) × (output_parts [] demo ≡ ok parts)
            × IsConfined plain repository (join_path repository parts) directory))
resolve_output_directory_iff_example = resolve_output_directory_iff plain repository [] demo

demo_accepted :
    resolve_output_directory plain repository [] demo
    ≡ some (ok (codes "demo-bundle" ∷ codes "evidence" ∷ repository))
unfolding resolve_output_directory output_parts check_candidate check_parents is_relative_to
    join_path parent split_slash components
demo_accepted = refl

abbrev link : PathParts
link = codes "link" ∷ codes "evidence" ∷ repository

-- `evidence/link` leads to the repository.
unfoldable follow : PathParts → PathParts
follow [] = []
follow (part ∷ above) =
    let rest = follow above in if (part ∷ above) == link then repository else part ∷ rest

abbrev linked : FileSystem
linked = record { resolve = follow; exists = λ _. true; is_symlink = λ path. path == link }

-- The loop stops at the link, which resolves to the repository, before it asks whether it is one.
link_accepted :
    resolve_output_directory linked repository [] (some "evidence/link/evidence/x")
    ≡ some (ok (codes "x" ∷ codes "evidence" ∷ repository))
unfolding resolve_output_directory output_parts check_candidate check_parents is_relative_to
    join_path parent split_slash components follow
link_accepted = refl
