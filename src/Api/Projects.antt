-- ===== src/Api/Projects.antt =====
-- internal/api/api.go: the creation of projects.
use meshbridge.Base.{ℕ, Bool, ◌&&◌, Option, none, some, [], ◌∷◌, if◌then◌else◌, any}
use meshbridge.Base.Text.{Text, codes, text_eq, eq_text}
use meshbridge.Api.{Server, Project, Membership, AuthUser, log, new_row, new_id, named_text}
use meshbridge.Api.Action.{Action, pure, or_refuse, exec, try, ◌>>=◌, ◌>>◌}
use meshbridge.Policy.{slugify}

unfoldable pub insert_project : Text → Text → Text → ℕ → Server → Option Server
unfolding new_row text_eq
insert_project id name slug now s =
    if any (λ (e : Text × Project). text_eq e.1.slug slug) s.projects
    then none
    else elim (new_row id (record { name = name; slug = slug; created_at = now }) s.projects) [
      | none ↦ none
      | some projects ↦ some (record s { projects = projects })
    ]

-- INSERT OR IGNORE of the creator's membership.
unfoldable pub join_project : Text → Text → Server → Server
unfolding text_eq
join_project project user s =
    if any (λ (m : Membership). text_eq m.project_id project && text_eq m.user_id user)
      s.memberships
    then s
    else record s { memberships = record { project_id = project; user_id = user } ∷ s.memberships }

module _ (hash_token : Text → Text) where
  -- POST of handleProjects.
  unfoldable pub create_project :
      (ℕ → Bool) → AuthUser → Option Text → ℕ → ℕ → Action Server (Text × Text)
  unfolding named_text new_id insert_project join_project log slugify
  create_project up me body nano now = do
    name ← or_refuse (named_text body) 400 (codes "bad_request")
    exec (up 0) (insert_project (new_id hash_token name nano) name (slugify name) now) 409
        (codes "conflict")
    try (up 1) (join_project (new_id hash_token name nano) me.id)
    try (up 2)
        (log (codes "api") (codes "project created") (new_id hash_token name nano) [] [] name)
    pure (new_id hash_token name nano, slugify name)
