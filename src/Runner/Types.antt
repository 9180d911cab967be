-- ===== src/Runner/Types.antt =====
-- services/browser_runner/src/voyagent_browser_runner/job.py, and the exceptions of a handler.
use voyagent.Prelude.{ℕ, Bool, false, Option, none, some, List, leb}
use voyagent.Prelude.Text.{Text, codes}

pub data JobKind : Type 0 where
  vfs_checklist_prepare vfs_fill_form vfs_upload_document vfs_book_appointment : JobKind
  vfs_read_status generic_screenshot generic_goto_and_extract : JobKind

-- `str(job.kind)`
unfoldable pub kind_text : JobKind → Text
kind_text vfs_checklist_prepare = codes "vfs.checklist_prepare"
kind_text vfs_fill_form = codes "vfs.fill_form"
kind_text vfs_upload_document = codes "vfs.upload_document"
kind_text vfs_book_appointment = codes "vfs.book_appointment"
kind_text vfs_read_status = codes "vfs.read_status"
kind_text generic_screenshot = codes "generic.screenshot"
kind_text generic_goto_and_extract = codes "generic.goto_and_extract"

pub data JobStatus : Type 0 where
  queued running succeeded failed cancelled : JobStatus

-- `J` is the type of JSON values, of which inputs and outputs are made.
pub record Job (J : Type 0) : Type 0 where
  pub id : Text
  pub tenant_id : Text
  pub kind : JobKind
  pub inputs : J
  pub tenant_credentials_ref : Text
  pub attempts : ℕ
  pub created_at : ℕ
  pub deadline_at : Option ℕ

pub record JobResult (J : Type 0) : Type 0 where
  pub job_id : Text
  pub status : JobStatus
  pub outputs : Option J
  pub error : Option Text
  pub artifact_uris : List Text
  pub duration_ms : ℕ
  pub completed_at : Option ℕ

-- `Job.is_expired`
unfoldable pub is_expired : {J : Type 0} → Job J → ℕ → Bool
is_expired job now = elim job.deadline_at [ none ↦ false | some deadline ↦ leb deadline now ]

-- An exception: whether it is a `TimeoutError` or a `ConnectionError`, its class and its text.
pub record Failure : Type 0 where
  pub is_timeout_or_connection : Bool
  pub name : Text
  pub message : Text
