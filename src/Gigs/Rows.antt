-- ===== src/Gigs/Rows.antt =====
-- The rows of prisma/models/gigs.prisma that the gig commands read and write, and the exceptions of
-- src/modules/gigs/domain/exceptions.
use campusgig_backend.Prelude.{ℕ, ◌==◌, Option, none, some, List, Bool, true, false}
use campusgig_backend.Db.Types.{Text, GigStatus}
use campusgig_backend.Db.Table.{Keyed}

pub record GigRow : Type 0 where
  pub id : ℕ
  pub seller_id : ℕ
  pub category_id : ℕ
  pub title : Text
  pub description : Text
  pub price_vnd : ℕ
  pub delivery_days : ℕ
  pub status : GigStatus
  pub rejection_category : Option Text
  pub rejection_reason : Option Text
  pub cover_image_id : Option ℕ
  pub submitted_at : Option ℕ
  pub approved_at : Option ℕ
  pub paused_at : Option ℕ
  pub deleted_at : Option ℕ
  pub deleted_by : Option ℕ

pub record GigImage : Type 0 where
  pub id : ℕ
  pub gig_id : Option ℕ
  pub image_key : Text
  pub position : ℕ
  pub uploader_id : ℕ

pub record Faq : Type 0 where
  pub question : Text
  pub answer : Text

-- A row that belongs to a gig and has a place among the gig's rows: a bullet or a FAQ entry.
pub record Child (A : Type 0) : Type 0 where
  pub gig_id : ℕ
  pub value : A
  pub position : ℕ

pub record GigStore : Type 0 where
  pub gigs : List GigRow
  pub images : List GigImage
  pub bullets : List (Child Text)
  pub faqs : List (Child Faq)
  -- the ids of the categories, which other commands write
  pub categories : List ℕ

-- The messages of a `BadRequestException`.
pub data BadGig : Type 0 where
  title_length description_length price_range delivery_range image_required : BadGig
  bullet_length question_length answer_length rejection_category rejection_length : BadGig
  image_ids_empty : BadGig
  duplicate_image : ℕ → BadGig

pub data GigError : Type 0 where
  admin_cannot_create_gig gig_image_cap_reached gig_bullet_cap_reached : GigError
  gig_faq_cap_reached gig_record_not_found length_mismatch : GigError
  category_not_found image_not_owned gig_not_found gig_locked_for_review : ℕ → GigError
  gig_not_pending : ℕ → GigStatus → GigError
  invalid_status_transition : GigStatus → GigStatus → GigError
  bad_gig : BadGig → GigError

instance abbrev pub gig_row_keyed : Keyed GigRow
gig_row_keyed = record { key = λ r. r.id }

instance abbrev pub gig_image_keyed : Keyed GigImage
gig_image_keyed = record { key = λ r. r.id }

abbrev pub gig_status_code : GigStatus → ℕ
gig_status_code GigStatus.pending = 0
gig_status_code GigStatus.active = 1
gig_status_code GigStatus.paused = 2
gig_status_code GigStatus.rejected = 3
gig_status_code GigStatus.deleted = 4

abbrev pub gig_is : GigStatus → GigStatus → Bool
gig_is a b = gig_status_code a == gig_status_code b

abbrev pub is_none : {A : Type 0} → Option A → Bool
is_none none = true
is_none (some a) = false

-- `isDeleted`
unfoldable pub is_deleted : GigRow → Bool
is_deleted g = elim g.deleted_at [ none ↦ false | some _ ↦ true ]

-- `isOrphan`
unfoldable pub is_orphan : GigImage → Bool
is_orphan i = is_none i.gig_id
