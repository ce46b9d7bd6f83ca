-- ===== src/Session/Transfers.antt =====
-- apps/client/src/features/sftp/transfersStore.ts: the queue of file transfers. `now` is the clock.
pub mod Counting
use trominal.Shared.{
  ℕ, suc, Bool, true, false, not, List, [], ◌∷◌, ◌++◌, map, filter, Option, none, some, Text,
  text_eq, if◌then◌else◌,
}

pub data TransferDirection : Type 0 where
  upload download : TransferDirection

pub data TransferStatus : Type 0 where
  pending active done error cancelled : TransferStatus

pub record EnqueueInput : Type 0 where
  pub id : Text
  pub direction : TransferDirection
  pub name : Text
  pub from_path : Text
  pub to_path : Text
  pub host_label : Text

pub record Transfer : Type 0 where
  pub input : EnqueueInput
  pub status : TransferStatus
  pub error_message : Option Text
  pub started_at : Option ℕ
  pub finished_at : Option ℕ

abbrev pub enqueue : EnqueueInput → List Transfer → List Transfer
enqueue input items =
    items
    ++ (record {
      input = input;
      status = pending;
      error_message = none;
      started_at = none;
      finished_at = none;
    }
        ∷ [])

abbrev pub update_by_id : Text → (Transfer → Transfer) → List Transfer → List Transfer
update_by_id id patch items =
    map (λ (item : Transfer). if text_eq item.input.id id then patch item else item) items

abbrev pub mark_started : ℕ → Text → List Transfer → List Transfer
mark_started now id =
    update_by_id id (λ item. record item { status = active; started_at = some now })

abbrev pub mark_done : ℕ → Text → List Transfer → List Transfer
mark_done now id = update_by_id id (λ item. record item { status = done; finished_at = some now })

abbrev pub mark_error : ℕ → Text → Text → List Transfer → List Transfer
mark_error now id message =
    update_by_id id
      (λ item. record item { status = error; error_message = some message; finished_at = some now })

abbrev pub mark_cancelled : ℕ → Text → List Transfer → List Transfer
mark_cancelled now id =
    update_by_id id (λ item. record item { status = cancelled; finished_at = some now })

abbrev pub is_unfinished : Transfer → Bool
is_unfinished item = elim item.status [
  | pending ↦ true
  | active ↦ true
  | done ↦ false
  | error ↦ false
  | cancelled ↦ false
]

abbrev pub clear : List Transfer → List Transfer
clear items = filter is_unfinished items

abbrev pub remove : Text → List Transfer → List Transfer
remove id items = filter (λ (item : Transfer). not (text_eq item.input.id id)) items

pub record TransferSummary : Type 0 where
  pub active_count : ℕ
  pub pending_count : ℕ
  pub done_count : ℕ
  pub failed_count : ℕ

abbrev pub counted : TransferStatus → TransferSummary → TransferSummary
counted active s = record s { active_count = suc s.active_count }
counted pending s = record s { pending_count = suc s.pending_count }
counted done s = record s { done_count = suc s.done_count }
counted error s = record s { failed_count = suc s.failed_count }
counted cancelled s = record s { failed_count = suc s.failed_count }

abbrev pub count_from : List Transfer → TransferSummary → TransferSummary
count_from [] s = s
count_from (item ∷ items) s = count_from items (counted item.status s)

abbrev pub summarize_transfers : List Transfer → TransferSummary
summarize_transfers items =
    count_from items
      (record { active_count = 0; pending_count = 0; done_count = 0; failed_count = 0 })
