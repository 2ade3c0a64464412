-- ===== src/Workspace/Tests.antt =====
-- web/src/modules/workspace on concrete names, and the theorems applied to them.
use scylladb_grpc_microservi.Common.{String, ◌≡◌, refl}
use scylladb_grpc_microservi.Workspace.Slug.{build_workspace_slug}

abbrev same_case : String → String
same_case s = s

slugs :
    (build_workspace_slug same_case "  my team & co!  " ≡ "my-team-co")
    × (build_workspace_slug same_case " ?! " ≡ "workspace")
unfolding build_workspace_slug
slugs = (refl, refl)
