-- ===== src/Api/Transfers.antt =====
-- internal/api/api.go: transferPathOK and the creation of transfer jobs. The controller runs on Linux,
-- where filepath.ToSlash changes nothing.
pub mod Guarded
use meshbridge.Base.{
  ℕ, Bool, true, false, ◌&&◌, ◌||◌, Option, none, some, List, [], ◌∷◌, ◌++◌, ◌==◌, if◌then◌else◌,
  any, not, all,
}
use meshbridge.Base.Dict.{Dict, lookup}
use meshbridge.Base.Decimal.{format_nat}
use meshbridge.Base.Text.{Text, codes, text_eq, eq_text, has_prefix, split}
use meshbridge.Api.{Server, Job, Membership, AuthUser, log, new_row, new_id}
use meshbridge.Api.Action.{Action, pure, gets, or_refuse, refuse_if, exec, try, ◌>>=◌, ◌>>◌}
use meshbridge.Api.Sessions.{has}
use meshbridge.Api.Devices.{device_owner}

-- A path that starts with a drive letter.
unfoldable pub has_drive : Text → Bool
has_drive [] = false
has_drive (c ∷ []) = false
has_drive (c ∷ d ∷ p) = d == b':'

unfoldable pub good_segment : Text → Bool
unfolding text_eq
good_segment seg = not (text_eq seg (codes "..")) && not (text_eq seg [])

unfoldable pub transfer_path_ok : Text → Bool
unfolding text_eq has_prefix has_drive good_segment split
transfer_path_ok p =
    if text_eq p [] || has_prefix p (codes "/") || has_prefix p (codes "\\")
    then false
    else if has_drive p
    then false
    else all good_segment (split p b'/')

pub record NewJob : Type 0 where
  pub project_id : Text
  pub src : Text
  pub dst : Text
  pub src_path : Text
  pub dst_path : Text

-- `err != nil || in.Src == "" || in.Dst == ""`.
unfoldable pub complete_job : Option NewJob → Option NewJob
unfolding text_eq
complete_job none = none
complete_job (some j) = if text_eq j.src [] || text_eq j.dst [] then none else some j

unfoldable pub is_member : Bool → Text → Text → Server → Bool
unfolding text_eq
is_member up project user s =
    up
    && any (λ (m : Membership). text_eq m.project_id project && text_eq m.user_id user)
        s.memberships

-- What a user who is not an administrator needs.
unfoldable pub shut_out : Bool → AuthUser → NewJob → Text → Text → Server → Bool
unfolding text_eq is_member
shut_out up me j src_owner dst_owner s =
    not (text_eq me.role (codes "admin"))
    && (not (is_member up j.project_id me.id s)
        || not (text_eq src_owner me.id)
        || not (text_eq dst_owner me.id))

-- INSERT INTO transfer_jobs, whose project must exist.
unfoldable pub insert_job : Text → NewJob → ℕ → Server → Option Server
unfolding has new_row
insert_job id j now s =
    let row : Job = record {
      project_id = j.project_id;
      src_device_id = j.src;
      dst_device_id = j.dst;
      src_path = j.src_path;
      dst_path = j.dst_path;
      state = codes "QUEUED";
      created_at = now;
    } in
    if has j.project_id s.projects
    then elim (new_row id row s.jobs) [ none ↦ none | some jobs ↦ some (record s { jobs = jobs }) ]
    else none

module _ (hash_token : Text → Text) where
  -- POST of handleTransfers; `raw` is the random text of the id.
  unfoldable pub create_transfer :
      (ℕ → Bool) → AuthUser → Option NewJob → Text → ℕ → ℕ → Action Server Text
  unfolding complete_job text_eq transfer_path_ok device_owner has shut_out insert_job new_id log
  create_transfer up me body raw nano now = do
    j ← or_refuse (complete_job body) 400 (codes "bad_request")
    refuse_if (text_eq j.src j.dst) 400 (codes "bad_request")
    refuse_if (not (transfer_path_ok j.src_path) || not (transfer_path_ok j.dst_path)) 400
        (codes "bad_request")
    src ← gets (device_owner (up 0) j.src)
    src_owner ← or_refuse src 404 (codes "not_found")
    dst ← gets (device_owner (up 1) j.dst)
    dst_owner ← or_refuse dst 404 (codes "not_found")
    known ← gets (λ s. up 2 && has j.project_id s.projects)
    refuse_if (not known) 404 (codes "not_found")
    barred ← gets (shut_out (up 3) me j src_owner dst_owner)
    refuse_if barred 403 (codes "forbidden")
    exec (up 4) (insert_job (new_id hash_token raw nano) j now) 500 (codes "db")
    try (up 5) (
        log (codes "api") (codes "transfer created") j.project_id j.src (new_id hash_token raw nano)
          j.dst)
    pure (new_id hash_token raw nano)
