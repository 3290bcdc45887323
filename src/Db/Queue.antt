-- ===== src/Db/Queue.antt =====
-- The queues of delayed jobs behave as tables of jobs by kind and entity.
use campusgig_backend.Prelude.{
  ℕ, ◌==◌, ◌&&◌, leb, if◌then◌else◌, ◌≡◌, ◌∙◌, refl, Bool, List, [], ◌∷◌, arith, inl, inr,
  Bool-cases, true, false,
}
use campusgig_backend.Db.World.{
  JobKind, Job, World, is_job, has_job, remove_job_from, schedule, job_kind_code,
}

-- The two name one job.
unfoldable pub same_job : JobKind → ℕ → JobKind → ℕ → Bool
same_job k i k' i' = job_kind_code k == job_kind_code k' && i == i'

agrees : (a b c i i' e : ℕ) → (a == b && i == i') ≡ true → (c == b && e == i') ≡ (c == a && e == i)
agrees a b c i i' e h =
    let kind : a ≡ b = ground (arith, h) in
    let entity : i ≡ i' = ground (arith, h) in rw (kind, entity)

differs :
    (a b c i i' e : ℕ)
    → (a == b && i == i') ≡ false
    → (c == a && e == i) ≡ true
    → (c == b && e == i') ≡ false
differs a b c i i' e h hit =
    let kind : c ≡ a = ground (arith, hit) in
    let entity : e ≡ i = ground (arith, hit) in rw (kind, entity) h

is_job-same :
    (k k' : JobKind) (i i' : ℕ) (j : Job)
    → same_job k i k' i' ≡ true
    → is_job k' i' j ≡ is_job k i j
unfolding is_job same_job
is_job-same k k' i i' j h = agrees (job_kind_code k) (job_kind_code k') _ i i' _ h

is_job-other :
    (k k' : JobKind) (i i' : ℕ) (j : Job)
    → same_job k i k' i' ≡ false
    → is_job k i j ≡ true
    → is_job k' i' j ≡ false
unfolding is_job same_job
is_job-other k k' i i' j h hit = differs (job_kind_code k) (job_kind_code k') _ i i' _ h hit

has_job-same :
    (k k' : JobKind) (i i' : ℕ) (js : List Job)
    → same_job k i k' i' ≡ true
    → has_job k' i' js ≡ has_job k i js
unfolding has_job
has_job-same k k' i i' [] h = refl
has_job-same k k' i i' (j ∷ js) h = rw (is_job-same k k' i i' j h, has_job-same k k' i i' js h)

-- The job that scheduling adds is the one named, and no other.
is_job-new :
    (k k' : JobKind) (i i' t : ℕ)
    → is_job k' i' (record { kind = k; entity_id = i; due = t }) ≡ same_job k i k' i'
unfolding is_job same_job
is_job-new k k' i i' t = refl

-- Scheduling a job queues it, and leaves every other job as it was.
pub has_job-schedule :
    (now : ℕ) (k k' : JobKind) (i i' t : ℕ) (w : World)
    → has_job k' i' (schedule now k i t w).jobs
      ≡ (if same_job k i k' i' then true else has_job k' i' w.jobs)
unfolding has_job schedule
has_job-schedule now k k' i i' t w = elim (Bool-cases (has_job k i w.jobs)) [
  | inr new ↦
      let added = is_job-new k k' i i' (if leb now t then t else now) in
      elim (Bool-cases (same_job k i k' i')) [
        | inl same ↦ rw (new, added, same)
        | inr other ↦ rw (new, added, other)
      ]
  | inl queued ↦ elim (Bool-cases (same_job k i k' i')) [
    | inr other ↦ rw (queued, other)
    | inl same ↦ rw (queued, same) (has_job-same k k' i i' w.jobs same ∙ queued)
  ]
]

-- Removing a job takes it off the queue, and leaves every other job as it was.
pub has_job-remove_job_from :
    (k k' : JobKind) (i i' : ℕ) (js : List Job)
    → has_job k' i' (remove_job_from k i js)
      ≡ (if same_job k i k' i' then false else has_job k' i' js)
unfolding has_job remove_job_from
has_job-remove_job_from k k' i i' [] = elim (Bool-cases (same_job k i k' i')) [
  | inl same ↦ rw same
  | inr other ↦ rw other
]
has_job-remove_job_from k k' i i' (j ∷ js) =
    let rest = has_job-remove_job_from k k' i i' js in
    elim (Bool-cases (same_job k i k' i')) [
      | inl same ↦
          let alike = is_job-same k k' i i' j same in
          let rest' = rw same at rest in
          elim (Bool-cases (is_job k i j)) [
            | inl hit ↦ rw (same, hit) rest'
            | inr miss ↦
                let gone : is_job k' i' j ≡ false = alike ∙ miss in rw (same, miss, gone, rest')
          ]
      | inr other ↦
          let rest' = rw other at rest in
          elim (Bool-cases (is_job k i j)) [
            | inl hit ↦ rw (other, hit, is_job-other k k' i i' j other hit) rest'
            | inr miss ↦ rw (other, miss, rest')
          ]
    ]
