-- ===== src/Gigs/Commands.antt =====
-- Every command on a gig that exists, against the life cycle of a gig.
use campusgig_backend.Prelude.{ℕ, ◌≡◌, Option, done}
use campusgig_backend.Db.Types.{Text}
use campusgig_backend.Gigs.Rows.{GigRow, GigStore}
use campusgig_backend.Gigs.Sensitive.{Amount, Patch}
use campusgig_backend.Gigs.Update.{update_gig, UpdateGigResult}
use campusgig_backend.Gigs.Moderate.{
  approve_gig, reject_gig, pause_gig, resume_gig, soft_delete_gig,
}
use campusgig_backend.Gigs.Status.{
  Moved, approve_gig-Moved, reject_gig-Moved, pause_gig-Moved, resume_gig-Moved,
  soft_delete_gig-Moved, update_gig-Moved,
}

-- A command on a gig that exists: those of its seller and those of an administrator.
pub data GigCall : Type 0 where
  approve : (now : ℕ) → GigCall
  reject : (category : Text) (reason : Option Text) → GigCall
  pause : (now caller_id : ℕ) → GigCall
  resume : (caller_id : ℕ) → GigCall
  soft_delete : (now caller_id : ℕ) → GigCall
  update : (now caller_id : ℕ) (patch : Patch Amount) → GigCall

-- A call that returned with these tables.
unfoldable pub Performed : GigCall → ℕ → GigStore → GigStore → Type 0
Performed (approve now) id s s' = (r : GigRow) × (approve_gig now id s ≡ done (r, s'))
Performed (reject category reason) id s s' =
    (r : GigRow) × (reject_gig id category reason s ≡ done (r, s'))
Performed (pause now caller) id s s' = (r : GigRow) × (pause_gig now caller id s ≡ done (r, s'))
Performed (resume caller) id s s' = (r : GigRow) × (resume_gig caller id s ≡ done (r, s'))
Performed (soft_delete now caller) id s s' =
    (r : GigRow) × (soft_delete_gig now caller id s ≡ done (r, s'))
Performed (update now caller patch) id s s' =
    (r : UpdateGigResult) × (update_gig now caller id patch s ≡ done (r, s'))

-- Every command that returns writes the row of its gig alone, keeps the gig's id and seller, and
-- takes its status along a documented transition or leaves it.
pub Performed-Moved : (c : GigCall) (id : ℕ) (s s' : GigStore) → Performed c id s s' → Moved id s s'
unfolding Performed
Performed-Moved (approve now) id s s' (r, h) = approve_gig-Moved now id s s' r h
Performed-Moved (reject category reason) id s s' (r, h) =
    reject_gig-Moved id category reason s s' r h
Performed-Moved (pause now caller) id s s' (r, h) = pause_gig-Moved now caller id s s' r h
Performed-Moved (resume caller) id s s' (r, h) = resume_gig-Moved caller id s s' r h
Performed-Moved (soft_delete now caller) id s s' (r, h) =
    soft_delete_gig-Moved now caller id s s' r h
Performed-Moved (update now caller patch) id s s' (r, h) =
    update_gig-Moved now caller id patch s s' r h
