-- ===== src/Tests/Store.antt =====
-- The store at concrete inputs.
use mathlib.Core.List.{Memᴰ}
use claude_code_reviewer.Prelude.{
  ◌+◌, ◌≡◌, refl, String, true, false, not, ◌&&◌, ◌||◌, none, some, [], any, all, leb, ◌==◌, nat_eq,
  string_eq, if◌then◌else◌,
}
use claude_code_reviewer.Gates.{State}
use claude_code_reviewer.Db.Tables.{Verdict}
use claude_code_reviewer.Db.Reviews.{
  sha_was_judged, finish_review, record_hold, expire_ci_watch, watching_ci, watched,
}
use claude_code_reviewer.Db.Reviews.Columns.{Given, nothing_given}
use claude_code_reviewer.Db.Reviews.Judged.{
  sha_was_judged-record_hold, finish_review-finish_review, merge,
}
use claude_code_reviewer.Db.Reviews.Watch.{watching_ci-expire_ci_watch}
use claude_code_reviewer.Db.Board.{is_ready, settle_done, is_swept, of_pr, is_newest}
use claude_code_reviewer.Db.Board.Rows.{is_ready_unique, settle_done_retires}
use claude_code_reviewer.Db.Money.{record_spend, spend_since, dollars, read_meter, meter_failed}
use claude_code_reviewer.Db.Money.Laws.{
  spend_since-record_spend, read_meter-meter_failed, failed_row,
}
use claude_code_reviewer.Tests.Data.{store, second_approval}

sha_was_judged-record_hold_example :
    sha_was_judged
      (record_hold 6000 "k9" "acme/shop" 12 "fff" "t" "changes no files" store)
      "acme/shop"
      12
      "fff"
    ≡ true
sha_was_judged-record_hold_example =
    sha_was_judged-record_hold 6000 "k9" "acme/shop" 12 "fff" "t" "changes no files" store

abbrev priced : Given
priced = record nothing_given { cost_usd = some 500000 }

abbrev approved : Given
approved = record nothing_given { verdict = some Verdict.ok }

finish_review-finish_review_example :
    finish_review 7000 "k4" State.published approved
      (finish_review 6000 "k4" State.running priced store)
    ≡ finish_review 7000 "k4" State.published (merge approved priced) store
finish_review-finish_review_example =
    finish_review-finish_review 6000 7000 "k4" State.running State.published approved priced store

watching_ci-expire_ci_watch_example :
    (watching_ci 3200 (expire_ci_watch 3200 store).1 ≡ watching_ci 3200 store)
    × (all (λ r. not (watched r) || leb 3200 r.created_at) (expire_ci_watch 3200 store).1.reviews
        ≡ true)
    × ((expire_ci_watch 3200 (expire_ci_watch 3200 store).1).0 ≡ 0)
watching_ci-expire_ci_watch_example = watching_ci-expire_ci_watch 3200 store

is_ready_unique_example :
    (second_approval.created_at ≡ second_approval.created_at)
    × (second_approval.id ≡ second_approval.id)
unfolding is_ready is_newest
is_ready_unique_example =
    is_ready_unique 1000 store second_approval second_approval (Memᴰ.tail (Memᴰ.head refl))
      (Memᴰ.tail (Memᴰ.head refl)) refl refl refl refl

settle_done_retires_example :
    (any
        (λ r.
          of_pr "acme/shop" 7 r && is_swept "acme/shop" 1000 (settle_done "acme/shop" 7 store).1 r)
        (settle_done "acme/shop" 7 store).1.reviews
      ≡ false)
    × (any
          (λ r. of_pr "acme/shop" 7 r && is_ready 1000 (settle_done "acme/shop" 7 store).1 r)
          (settle_done "acme/shop" 7 store).1.reviews
        ≡ false)
    × ((settle_done "acme/shop" 7 (settle_done "acme/shop" 7 store).1).0 ≡ 0)
settle_done_retires_example = settle_done_retires "acme/shop" 7 1000 store

spend_since-record_spend_example :
    spend_since 1000 [] (record_spend 6000 "acme/shop" 7 "triage" (some 40000) none store)
    ≡ spend_since 1000 [] store + (if leb 1000 6000 then dollars (some 40000) else 0)
spend_since-record_spend_example =
    spend_since-record_spend 6000 "acme/shop" 7 "triage" (some 40000) none 1000 [] store

abbrev meter : String
meter = "plan"

read_meter-meter_failed_example : read_meter (meter_failed 6000 meter "timed out" store) meter ≡ (
    if meter == meter
    then some (elim (read_meter store meter) [
      | none ↦ failed_row 6000 meter "timed out"
      | some m ↦ record m { error = some "timed out"; error_at = some 6000 }
    ])
    else read_meter store meter)
read_meter-meter_failed_example = read_meter-meter_failed 6000 meter "timed out" meter store
