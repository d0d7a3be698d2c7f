-- ===== src/Api/Transfers/Guarded.antt =====
-- internal/api/api.go: who may create a transfer, and between which paths.
use meshbridge.Base.{
  ℕ, ◌≡◌, ◌≢◌, ◌⊎◌, refl, Bool, true, false, ◌||◌, Option, none, some, List, [], ◌∷◌, arith,
  Option-cases, Bool-cases, inl, inr, any, if_elim, all,
}
use meshbridge.Base.Dict.{lookup, lookup-insert_self, lookup-insert}
use meshbridge.Base.Text.{Text, codes, text_eq, text_eq_iff, eq_text, split, has_prefix}
use meshbridge.Api.{Server, Job, AuthUser, DeviceRow, log, new_row, new_id}
use meshbridge.Api.Action.{
  Ends, gets_step, refuse_step, or_refuse_step, exec_step, try_step, pure_end,
}
use meshbridge.Api.Devices.Revoked.{device_owner_lem}
use meshbridge.Api.Sessions.{has}
use meshbridge.Api.Transfers.{
  NewJob, complete_job, transfer_path_ok, good_segment, has_drive, is_member, shut_out, insert_job,
  create_transfer,
}

-- Relative, without a drive letter, and no segment empty or `..`.
abbrev pub Relative : Text → Type 0
Relative p =
    (p ≢ [])
    × (has_prefix p (codes "/") ≡ false)
    × (has_drive p ≡ false)
    × (any (λ seg. text_eq seg (codes "..") || text_eq seg []) (split p b'/') ≡ false)

no_bad_segment :
    (segs : List Text)
    → all good_segment segs ≡ true
    → any (λ seg. text_eq seg (codes "..") || text_eq seg []) segs ≡ false
unfolding good_segment
no_bad_segment [] h = refl
no_bad_segment (seg ∷ segs) h = ground (arith, no_bad_segment segs)

transfer_path_ok-Relative : (p : Text) → transfer_path_ok p ≡ true → Relative p
unfolding transfer_path_ok
transfer_path_ok-Relative p =
    if_elim (λ (b : Bool). b ≡ true → Relative p)
      (text_eq p [] || has_prefix p (codes "/") || has_prefix p (codes "\\")) (λ _ h. absurd (cc))
      (λ start.
        if_elim (λ (b : Bool). b ≡ true → Relative p) (has_drive p) (λ _ h. absurd (cc))
          (λ free good. (
            ground (arith, text_eq_iff p []),
            ground arith,
            free,
            no_bad_segment (split p b'/') good,
          )))

-- The job is stored as it was asked for, between two devices and within a project that exist, and, for
-- anyone but an administrator, between devices of one's own in a project one is a member of.
abbrev pub Fitting : AuthUser → NewJob → Server → Type 0
Fitting me j s =
    (j.src ≢ j.dst)
    × Relative j.src_path
    × Relative j.dst_path
    × (has j.project_id s.projects ≡ true)
    × ((d : DeviceRow) × (e : DeviceRow) × (lookup j.src s.devices ≡ some d)
        × (lookup j.dst s.devices ≡ some e)
        × ((me.role ≡ codes "admin")
            ⊎ ((d.owner_user_id ≡ me.id)
                × (e.owner_user_id ≡ me.id)
                × (is_member true j.project_id me.id s ≡ true))))

abbrev pub job_of : NewJob → ℕ → Job
job_of j now = record {
  project_id = j.project_id;
  src_device_id = j.src;
  dst_device_id = j.dst;
  src_path = j.src_path;
  dst_path = j.dst_path;
  state = codes "QUEUED";
  created_at = now;
}

insert_job_lem :
    (id : Text) (j : NewJob) (now : ℕ) (s s' : Server)
    → insert_job id j now s ≡ some s'
    → (lookup id s.jobs ≡ none)
      × (lookup id s'.jobs ≡ some (job_of j now))
      × ((k : Text) → k ≢ id → lookup k s'.jobs ≡ lookup k s.jobs)
unfolding insert_job new_row
insert_job_lem id j now s s' h = elim (Option-cases (lookup id s.jobs)) [
  | inl free ↦ (
    free,
    ground (arith, lookup-insert_self id (job_of j now) s.jobs),
    λ k other. ground (arith, text_eq_iff id k, lookup-insert id k (job_of j now) s.jobs),
  )
  | inr (t, taken) ↦ absurd (ground arith)
]

shut_out_lem :
    (up : Bool) (me : AuthUser) (j : NewJob) (a b : Text) (s : Server)
    → shut_out up me j a b s ≡ false
    → (me.role ≡ codes "admin")
      ⊎ ((a ≡ me.id) × (b ≡ me.id) × (is_member true j.project_id me.id s ≡ true))
unfolding shut_out is_member
shut_out_lem up me j a b s h = elim (Bool-cases (text_eq me.role (codes "admin"))) [
  | inl admin ↦ inl ((text_eq_iff me.role (codes "admin")).0 admin)
  | inr user ↦
      inr (
        (text_eq_iff a me.id).0 (ground arith),
        (text_eq_iff b me.id).0 (ground arith),
        ground arith,
      )
]

complete_job_lem : (o : Option NewJob) (j : NewJob) → complete_job o ≡ some j → o ≡ some j
unfolding complete_job
complete_job_lem none j h = absurd (cc)
complete_job_lem (some k) j h = ground arith

module _ (hash_token : Text → Text) where
  -- A transfer is created only between two different devices that exist, along relative paths without
  -- `..`, in a project that exists, and by an administrator or by the owner of both devices who is a
  -- member of the project; its row is new, waits in the queue and replaces no other. Every other answer
  -- leaves the jobs as they were.
  pub create_transfer-Fitting :
      (up : ℕ → Bool) (me : AuthUser) (body : Option NewJob) (raw : Text) (nano now : ℕ)
      (s : Server)
      → Ends
          (λ id s'.
            (j : NewJob) × (body ≡ some j)
            × Fitting me j s
            × (lookup id s.jobs ≡ none)
            × (lookup id s'.jobs ≡ some (job_of j now))
            × ((k : Text) → k ≢ id → lookup k s'.jobs ≡ lookup k s.jobs))
          (λ s'. s'.jobs ≡ s.jobs)
          (create_transfer hash_token up me body raw nano now)
          s
  unfolding create_transfer log
  create_transfer-Fitting up me body raw nano now s = or_refuse_step refl (λ j asked.
      refuse_step refl (λ differ. refuse_step refl (λ paths. gets_step (
        or_refuse_step refl (λ a src. gets_step (
          or_refuse_step refl (λ b dst. gets_step (
            refuse_step refl (λ known. gets_step (
              refuse_step refl (λ inside. exec_step refl (λ s' stored.
                let (d, here, own_d) = device_owner_lem (up 0) j.src a s src in
                let (e, there, own_e) = device_owner_lem (up 1) j.dst b s dst in
                let fits : Fitting me j s = (
                  ground (arith, text_eq_iff j.src j.dst),
                  transfer_path_ok-Relative j.src_path (ground arith),
                  transfer_path_ok-Relative j.dst_path (ground arith),
                  ground arith,
                  (d, e, here, there, ground (arith, shut_out_lem (up 3) me j a b s inside)),
                ) in
                let rows = insert_job_lem (new_id hash_token raw nano) j now s s' stored in
                let result = complete_job_lem body j asked in
                try_step (pure_end (j, result, fits, rows.0, rows.1, rows.2))
                  (pure_end (j, result, fits, rows.0, rows.1, rows.2))))))))))))))
