-- ===== src/Gigs/Status.antt =====
-- The life cycle of a gig (src/modules/gigs/domain/value-objects/gig-status.ts) against what the
-- handlers do.
use campusgig_backend.Prelude.{
  ℕ, ◌==◌, ◌≡◌, if◌then◌else◌, List, [], ◌∷◌, Option, none, some, Bool, true, false, Option-cases,
  Bool-cases, inl, inr, arith, refl, sym, ap, ◌∙◌, done, Outcome-cases,
}
use campusgig_backend.Db.Types.{Text, GigStatus}
use campusgig_backend.Db.Table.{find, put, find_key}
use campusgig_backend.Gigs.Rows.{GigRow, GigStore, gig_row_keyed, gig_is, gig_status_code}
use campusgig_backend.Gigs.Sensitive.{Amount, Patch, is_sensitive_change}
use campusgig_backend.Gigs.Edit.{content_of}
use campusgig_backend.Gigs.Update.{
  update_gig, check_patch, next_status, patched, has_field, UpdateGigResult, patch_images, or_else,
}
use campusgig_backend.Gigs.Moderate.{
  approve_gig, reject_gig, pause_gig, resume_gig, soft_delete_gig, approved_row, rejected_row,
  trimmed_reason,
}

-- The documented transitions, with the one that a review forbids left out: a pending gig is not
-- deleted by its seller.
pub data Edge : GigStatus → GigStatus → Type 0 where
  stays : (t : GigStatus) → Edge t t
  approved : Edge GigStatus.pending GigStatus.active
  rejected : Edge GigStatus.pending GigStatus.rejected
  paused : Edge GigStatus.active GigStatus.paused
  resumed : Edge GigStatus.paused GigStatus.active
  edited_active : Edge GigStatus.active GigStatus.pending
  edited_paused : Edge GigStatus.paused GigStatus.pending
  resubmitted : Edge GigStatus.rejected GigStatus.pending
  deleted_active : Edge GigStatus.active GigStatus.deleted
  deleted_paused : Edge GigStatus.paused GigStatus.deleted
  deleted_rejected : Edge GigStatus.rejected GigStatus.deleted

-- Gig `id` alone is written, keeps its seller, and its status goes along an edge.
abbrev pub Moved : ℕ → GigStore → GigStore → Type 0
Moved id s s' =
    (g : GigRow) × (g' : GigRow) × (find id s.gigs ≡ some g)
    × Edge g.status g'.status
    × (s'.gigs ≡ put g' s.gigs)
    × (g'.id ≡ g.id)
    × (g'.seller_id ≡ g.seller_id)

status_of : ℕ → GigStatus
status_of n =
    if n == 0
    then GigStatus.pending
    else if n == 1
    then GigStatus.active
    else if n == 2
    then GigStatus.paused
    else if n == 3
    then GigStatus.rejected
    else GigStatus.deleted

status_of-code : (t : GigStatus) → status_of (gig_status_code t) ≡ t
unfolding status_of
status_of-code GigStatus.pending = refl
status_of-code GigStatus.active = refl
status_of-code GigStatus.paused = refl
status_of-code GigStatus.rejected = refl
status_of-code GigStatus.deleted = refl

gig_is-eq : (a b : GigStatus) → gig_is a b ≡ true → a ≡ b
gig_is-eq a b h =
    let same : gig_status_code a ≡ gig_status_code b = ground (arith, h) in
    sym (status_of-code a) ∙ ap status_of same ∙ status_of-code b

pub approve_gig-Moved :
    (now id : ℕ) (s s' : GigStore) (r : GigRow)
    → approve_gig now id s ≡ done (r, s')
    → Moved id s s'
unfolding approve_gig
approve_gig-Moved now id s s' r h = elim (Option-cases (find id s.gigs)) [
  | inl e ↦ absurd (ground (arith, e, h))
  | inr (g, e) ↦
      let from : gig_is g.status GigStatus.pending ≡ true = ground (arith, e, h) in
      (
        g,
        approved_row now g,
        e,
        rw (gig_is-eq g.status GigStatus.pending from) approved,
        ground (arith, e, h),
        refl,
        refl,
      )
]

pub reject_gig-Moved :
    (id : ℕ) (category : Text) (reason : Option Text) (s s' : GigStore) (r : GigRow)
    → reject_gig id category reason s ≡ done (r, s')
    → Moved id s s'
unfolding reject_gig
reject_gig-Moved id category reason s s' r h = elim (Option-cases (find id s.gigs)) [
  | inl e ↦ absurd (ground (arith, e, h))
  | inr (g, e) ↦
      let from : gig_is g.status GigStatus.pending ≡ true = ground (arith, e, h) in
      (
        g,
        rejected_row category (trimmed_reason reason) g,
        e,
        rw (gig_is-eq g.status GigStatus.pending from) rejected,
        ground (arith, e, h),
        refl,
        refl,
      )
]

pub pause_gig-Moved :
    (now caller id : ℕ) (s s' : GigStore) (r : GigRow)
    → pause_gig now caller id s ≡ done (r, s')
    → Moved id s s'
unfolding pause_gig
pause_gig-Moved now caller id s s' r h = elim (Option-cases (find id s.gigs)) [
  | inl e ↦ absurd (ground (arith, e, h))
  | inr (g, e) ↦
      let from : gig_is g.status GigStatus.active ≡ true = ground (arith, e, h) in
      (
        g,
        record g { status = GigStatus.paused; paused_at = some now },
        e,
        rw (gig_is-eq g.status GigStatus.active from) paused,
        ground (arith, e, h),
        refl,
        refl,
      )
]

pub resume_gig-Moved :
    (caller id : ℕ) (s s' : GigStore) (r : GigRow)
    → resume_gig caller id s ≡ done (r, s')
    → Moved id s s'
unfolding resume_gig
resume_gig-Moved caller id s s' r h = elim (Option-cases (find id s.gigs)) [
  | inl e ↦ absurd (ground (arith, e, h))
  | inr (g, e) ↦
      let from : gig_is g.status GigStatus.paused ≡ true = ground (arith, e, h) in
      (
        g,
        record g { status = GigStatus.active; paused_at = none },
        e,
        rw (gig_is-eq g.status GigStatus.paused from) resumed,
        ground (arith, e, h),
        refl,
        refl,
      )
]

put_same : (id : ℕ) (g : GigRow) (gs : List GigRow) → find id gs ≡ some g → put g gs ≡ gs
unfolding find put
put_same id g [] h = refl
put_same id g (x ∷ xs) h = elim (Bool-cases (x.id == id)) [
  | inl e ↦ let same : x ≡ g = ground (arith, e, h) in ground (arith, same)
  | inr e ↦
      let later : find id xs ≡ some g = ground (arith, e, h) in
      let key = find_key id xs g later in ground (arith, e, key, put_same id g xs later)
]

-- A gig that is not under review may be deleted.
delete_edge : (t : GigStatus) → gig_is t GigStatus.pending ≡ false → Edge t GigStatus.deleted
delete_edge GigStatus.pending h = absurd (ground (arith, h))
delete_edge GigStatus.active h = deleted_active
delete_edge GigStatus.paused h = deleted_paused
delete_edge GigStatus.rejected h = deleted_rejected
delete_edge GigStatus.deleted h = stays GigStatus.deleted

pub soft_delete_gig-Moved :
    (now caller id : ℕ) (s s' : GigStore) (r : GigRow)
    → soft_delete_gig now caller id s ≡ done (r, s')
    → Moved id s s'
unfolding soft_delete_gig
soft_delete_gig-Moved now caller id s s' r h = elim (Option-cases (find id s.gigs)) [
  | inl e ↦ absurd (ground (arith, e, h))
  | inr (g, e) ↦ elim (Bool-cases (gig_is g.status GigStatus.deleted)) [
    | inl d ↦
        let same = put_same id g s.gigs e in
        (g, g, e, stays g.status, ground (arith, e, d, h, same), refl, refl)
    | inr d ↦ (
      g,
      record g { status = GigStatus.deleted; deleted_at = some now; deleted_by = some caller },
      e,
      delete_edge g.status (ground (arith, e, d, h)),
      ground (arith, e, d, h),
      refl,
      refl,
    )
  ]
]

-- Every status that an edit may lead to.
next_status-Edge :
    (sensitive has_fields : Bool) (t : GigStatus)
    → Edge t (or_else (next_status sensitive has_fields t) t)
unfolding next_status
next_status-Edge true f GigStatus.pending = stays GigStatus.pending
next_status-Edge false f GigStatus.pending = stays GigStatus.pending
next_status-Edge true f GigStatus.active = edited_active
next_status-Edge false f GigStatus.active = stays GigStatus.active
next_status-Edge true f GigStatus.paused = edited_paused
next_status-Edge false f GigStatus.paused = stays GigStatus.paused
next_status-Edge true f GigStatus.rejected = resubmitted
next_status-Edge false true GigStatus.rejected = resubmitted
next_status-Edge false false GigStatus.rejected = stays GigStatus.rejected
next_status-Edge true f GigStatus.deleted = stays GigStatus.deleted
next_status-Edge false f GigStatus.deleted = stays GigStatus.deleted

pub update_gig-Moved :
    (now caller id : ℕ) (p : Patch Amount) (s s' : GigStore) (r : UpdateGigResult)
    → update_gig now caller id p s ≡ done (r, s')
    → Moved id s s'
unfolding update_gig
update_gig-Moved now caller id p s s' r h = elim (Option-cases (find id s.gigs)) [
  | inl e ↦ absurd (ground (arith, e, h))
  | inr (g, e) ↦ elim (Outcome-cases (check_patch caller g s p)) [
    | inl (x, c) ↦ absurd (ground (arith, e, c, h))
    | inr (clean, c) ↦
        let sensitive = is_sensitive_change (content_of s g) clean in
        let next = next_status sensitive (has_field clean) g.status in
        elim (Outcome-cases (patch_images id clean.image_ids s.images)) [
          | inl (x, i) ↦ absurd (ground (arith, e, c, i, h))
          | inr (images, i) ↦ (
            g,
            patched now clean next g,
            e,
            next_status-Edge sensitive (has_field clean) g.status,
            ground (arith, e, c, i, h),
            refl,
            refl,
          )
        ]
  ]
]
