-- ===== src/Write/Results.antt =====
-- What a successful `FeedSubmissionWriteSerializer` returned: the parts of its answer.
use otwarte_dane_transportow.Common.{ℕ, ◌≡◌, Bool, Option, some, List}
use otwarte_dane_transportow.Review.Answers.{Outcome, done, >>=-eq-done, done_injective}
use otwarte_dane_transportow.Review.Submissions.{Entry, StaticSubmission, Job}
use otwarte_dane_transportow.Review.Static.{ContentKey}
use otwarte_dane_transportow.Write.Sent.{Attrs, readable}
use otwarte_dane_transportow.Write.Checking.{validate}
use otwarte_dane_transportow.Write.Saving.{update_entry, write_serializer, with_attrs}

-- The two shapes of the answer of `update_entry`.
abbrev pub answer : Option Entry → List Job → Outcome (Option Entry × List Job)
answer o jobs = done (o, jobs)

abbrev pub answer_of : Entry × List Job → Outcome (Option Entry × List Job)
answer_of r = done (some (r.0), r.1)

abbrev entry_saved : Bool → ℕ → Bool → Attrs → StaticSubmission → Outcome (Option Entry × List Job)
entry_saved partial pk deferred a s =
    update_entry s.id (with_attrs a s).data_type partial deferred pk a.static_entry s.entry

abbrev pub with_entry :
    Attrs → StaticSubmission → Option Entry × List Job → StaticSubmission × List Job
with_entry a s saved = (record (with_attrs a s) { entry = saved.0 }, saved.1)

-- The data were valid, the entry was saved, and the answer is the submission with it.
pub write_serializer-done :
    (sent : List ContentKey) (a : Attrs) (partial : Bool) (pk : ℕ) (restricted deferred : Bool)
    (s : StaticSubmission) (result : StaticSubmission × List Job)
    → write_serializer sent a partial pk restricted deferred s ≡ done result
    → (validate restricted sent (readable restricted a) s ≡ done tt)
      × ((saved : Option Entry × List Job) × (entry_saved partial pk deferred
              (readable restricted a)
              s
            ≡ done saved)
          × (with_entry (readable restricted a) s saved ≡ result))
unfolding write_serializer with_attrs
write_serializer-done sent a partial pk restricted deferred s result h =
    let attrs = readable restricted a in
    let (_, valid, rest) = >>=-eq-done (validate restricted sent attrs s) _ h in
    let finish : Option Entry × List Job → Outcome (StaticSubmission × List Job) =
      λ saved. done (with_entry attrs s saved) in
    let (saved, stored, q) = >>=-eq-done (entry_saved partial pk deferred attrs s) finish rest in
    (valid, (saved, stored, done_injective q))
