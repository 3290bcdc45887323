-- ===== src/Gigs/Moderate.antt =====
-- The handlers of src/modules/gigs/application/commands that only change a gig's status, and the
-- repository's method that each calls: approve, reject, pause, resume and soft-delete.
use campusgig_backend.Prelude.{
  ℕ, ◌==◌, ◌||◌, not, List, [], ◌∷◌, Option, none, some, Bool, true, false, if◌then◌else◌, length,
  trim, text, Outcome, done, and_then, refuse_if, present,
}
use campusgig_backend.Db.Types.{Text, GigStatus}
use campusgig_backend.Db.Table.{find, put}
use campusgig_backend.Gigs.Rows.{
  GigRow, GigStore, GigError, bad_gig, rejection_category, rejection_length, gig_not_found,
  gig_not_pending, gig_locked_for_review, invalid_status_transition, gig_row_keyed, gig_is, is_none,
}
use campusgig_backend.Gigs.Validate.{outside}
use campusgig_backend.Gigs.Sensitive.{text_eq}

-- `findById`: the row with this id, unless it is deleted. The id is the primary key.
unfoldable pub find_live : ℕ → List GigRow → Option GigRow
find_live id gs = elim (find id gs) [
  | none ↦ none
  | some g ↦ if is_none g.deleted_at then some g else none
]

abbrev pub write_row : GigRow → GigStore → Outcome GigError (GigRow × GigStore)
write_row g s = done (g, record s { gigs = put g s.gigs })

abbrev pub approved_row : ℕ → GigRow → GigRow
approved_row now g = record g {
  status = GigStatus.active;
  approved_at = some now;
  rejection_category = none;
  rejection_reason = none;
}

-- `ApproveGigHandler.execute`, up to the activity log and the event
unfoldable pub approve_gig : ℕ → ℕ → GigStore → Outcome GigError (GigRow × GigStore)
unfolding find_live
approve_gig now id s = and_then (present (find_live id s.gigs) (gig_not_found id)) λ g.
    refuse_if (not (gig_is g.status GigStatus.pending)) (gig_not_pending id g.status)
      (write_row (approved_row now g) s)

abbrev pub any_text : Text → List Text → Bool
any_text t [] = false
any_text t (u ∷ us) = text_eq u t || any_text t us

-- `isRejectionCategory`
unfoldable pub is_rejection_category : Text → Bool
is_rejection_category t = any_text t (
    text "Pricing"
    ∷ text "Description"
    ∷ text "Image quality"
    ∷ text "Policy violation"
    ∷ text "Other"
    ∷ [])

abbrev pub rejected_row : Text → Text → GigRow → GigRow
rejected_row category reason g = record g {
  status = GigStatus.rejected;
  rejection_category = some category;
  rejection_reason = some reason;
}

abbrev pub trimmed_reason : Option Text → Text
trimmed_reason none = []
trimmed_reason (some t) = trim t

-- `RejectGigHandler.execute`, up to the activity log and the event
unfoldable pub reject_gig : ℕ → Text → Option Text → GigStore → Outcome GigError (GigRow × GigStore)
unfolding find_live
reject_gig id category reason s =
    refuse_if (not (is_rejection_category category)) (bad_gig rejection_category) (
      refuse_if (outside 20 1000 (length (trimmed_reason reason))) (bad_gig rejection_length) (
        and_then (present (find_live id s.gigs) (gig_not_found id)) λ g.
          refuse_if (not (gig_is g.status GigStatus.pending)) (gig_not_pending id g.status)
            (write_row (rejected_row category (trimmed_reason reason) g) s)))

-- `PauseGigHandler.execute`
unfoldable pub pause_gig : ℕ → ℕ → ℕ → GigStore → Outcome GigError (GigRow × GigStore)
unfolding find_live
pause_gig now caller_id id s = and_then (present (find_live id s.gigs) (gig_not_found id)) λ g.
    refuse_if (not (g.seller_id == caller_id)) (gig_not_found id) (
      refuse_if (not (gig_is g.status GigStatus.active))
        (invalid_status_transition g.status GigStatus.paused)
        (write_row (record g { status = GigStatus.paused; paused_at = some now }) s))

-- `ResumeGigHandler.execute`
unfoldable pub resume_gig : ℕ → ℕ → GigStore → Outcome GigError (GigRow × GigStore)
unfolding find_live
resume_gig caller_id id s = and_then (present (find_live id s.gigs) (gig_not_found id)) λ g.
    refuse_if (not (g.seller_id == caller_id)) (gig_not_found id) (
      refuse_if (not (gig_is g.status GigStatus.paused))
        (invalid_status_transition g.status GigStatus.active)
        (write_row (record g { status = GigStatus.active; paused_at = none }) s))

-- `SoftDeleteGigHandler.execute`; a gig that is deleted already is left as it is.
unfoldable pub soft_delete_gig : ℕ → ℕ → ℕ → GigStore → Outcome GigError (GigRow × GigStore)
unfolding find_live
soft_delete_gig now caller_id id s =
    and_then (present (find_live id s.gigs) (gig_not_found id)) λ g.
      refuse_if (not (g.seller_id == caller_id)) (gig_not_found id)
        (elim (gig_is g.status GigStatus.deleted) [
          | true ↦ done (g, s)
          | false ↦ refuse_if (gig_is g.status GigStatus.pending) (gig_locked_for_review id) (
              write_row
                (record g {
                  status = GigStatus.deleted;
                  deleted_at = some now;
                  deleted_by = some caller_id;
                })
                s)
        ])
