-- ===== src/Write/Cleaning.antt =====
-- `StaticFeedEntry.clean`: one source of the two, and what goes with it.
use otwarte_dane_transportow.Common.{Bool, true, not, ◌&&◌, ◌||◌, if◌then◌else◌, non_empty}
use otwarte_dane_transportow.Review.Answers.{Outcome, done, invalid, bad_content}
use otwarte_dane_transportow.Review.Submissions.{Entry}
use otwarte_dane_transportow.Write.Sent.{is_sent}

-- `if self.auth_type: self.hide_original = True`
unfoldable pub hide_authenticated : Entry → Entry
hide_authenticated e = if non_empty e.auth_type then record e { hide_original = true } else e

-- The rules of an entry without a URL; its caller has set `hide_original`.
unfoldable pub clean_upload : Entry → Outcome Entry
clean_upload e =
    if e.hide_original
    then invalid bad_content
    else if is_sent e.download_time_1 || is_sent e.download_time_2
    then invalid bad_content
    else if is_sent e.cached_file || is_sent e.cached_at
    then invalid bad_content
    else done e

-- Where `clean` looks at the schedule.
unfoldable pub schedule_fits : Entry → Bool
schedule_fits e =
    if non_empty e.url
    then is_sent e.download_time_1
    else not (is_sent e.download_time_1) && not (is_sent e.download_time_2)

unfoldable pub clean : Entry → Outcome Entry
unfolding hide_authenticated clean_upload schedule_fits
clean e =
    let e' = hide_authenticated e in
    if non_empty e.url && is_sent e.file
    then invalid bad_content
    else if not (non_empty e.url) && not (is_sent e.file)
    then invalid bad_content
    else if not (schedule_fits e)
    then invalid bad_content
    else if non_empty e'.url
    then done e'
    else clean_upload e'
