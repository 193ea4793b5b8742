-- ===== src/Workflow/Steps.antt =====
-- The steps of a static submission's life: all the code that creates rows of its history. The
-- serializer of an update is any function that leaves the history alone; `update_with_history` is the
-- view's handler where no other step comes between its reads and its writes (Workflow/Overlap has the
-- other case), the two verdicts are those of `validate_gtfs_feed_task`, which lock the row, and
-- `advance_to_next_stage` is the action of the admin site. The deletion of single rows by an Admin in
-- the admin site (`FeedSubmissionHistoryAdmin`) is no step.
use otwarte_dane_transportow.Common.{ℕ, ◌≡◌, Bool, List, Text}
use otwarte_dane_transportow.Roles.{User}
use otwarte_dane_transportow.History.{new_table}
use otwarte_dane_transportow.Review.Answers.{Outcome, done}
use otwarte_dane_transportow.Review.Submissions.{StaticSubmission, Job}
use otwarte_dane_transportow.Review.Static.{Body, perform_create, update_with_history}
use otwarte_dane_transportow.Gtfs.{record_rejection, record_success}
use otwarte_dane_transportow.Workflow.Advance.{advance_to_next_stage}

abbrev pub Serializer : Type 0
Serializer = Bool → Bool → StaticSubmission → Outcome (StaticSubmission × List Job)

-- What is saved has the history, and the owner, of what it was given.
abbrev pub KeepsHistory : Serializer → Type 0
KeepsHistory serializer =
    (restricted deferred : Bool) (s : StaticSubmission) (saved : StaticSubmission × List Job)
    → serializer restricted deferred s ≡ done saved
    → saved.0.table ≡ s.table

pub data Step : StaticSubmission → StaticSubmission → Type 0 where
  created :
      (u : User) (elapsed : ℕ) (s : StaticSubmission)
      → s.table ≡ new_table
      → Step s (perform_create u elapsed s)
  updated :
      (u : User) (serializer : Serializer) (elapsed : ℕ) (b : Body) (s s' : StaticSubmission)
      (jobs : List Job)
      → KeepsHistory serializer
      → update_with_history u serializer elapsed b s ≡ done (s', jobs)
      → Step s s'
  gtfs_rejected :
      (reason : Text) (elapsed : ℕ) (s : StaticSubmission)
      → Step s (record s { table = record_rejection reason elapsed s.table })
  gtfs_accepted :
      (elapsed : ℕ) (s : StaticSubmission)
      → Step s (record s { table = record_success elapsed s.table })
  advanced :
      (actor elapsed : ℕ) (s : StaticSubmission)
      → Step s (record s { table = advance_to_next_stage actor elapsed s.table })

pub data Reach (s : StaticSubmission) : StaticSubmission → Type 0 where
  here : Reach s s
  next : {t u : StaticSubmission} → Reach s t → Step t u → Reach s u
