-- ===== src/Session/Transfers/Counting.antt =====
-- The summary of the queue counts each transfer once (apps/client/src/features/sftp/transfersStore.ts).
use trominal.Shared.{ℕ, ◌+◌, List, [], ◌∷◌, length, ◌≡◌, refl, arith}
use trominal.Session.Transfers.{
  Transfer, TransferStatus, pending, active, done, error, cancelled, clear, TransferSummary,
  counted, count_from, summarize_transfers,
}

abbrev total : TransferSummary → ℕ
total s = s.active_count + s.pending_count + s.done_count + s.failed_count

abbrev waiting : TransferSummary → ℕ
waiting s = s.active_count + s.pending_count

-- The counts that start from `s` grow by the items.
abbrev Counts : List Transfer → TransferSummary → Type 0
Counts items s =
    (total (count_from items s) ≡ total s + length items)
    × (waiting (count_from items s) ≡ waiting s + length (clear items))

count_next :
    (item : Transfer) (items : List Transfer) (s : TransferSummary) (status : TransferStatus)
    → item.status ≡ status
    → ((t : TransferSummary) → Counts items t)
    → Counts (item ∷ items) s
count_next item items s pending e h =
    let (a, b) = h (counted pending s) in rw e (omega (arith, a), omega (arith, b))
count_next item items s active e h =
    let (a, b) = h (counted active s) in rw e (omega (arith, a), omega (arith, b))
count_next item items s done e h =
    let (a, b) = h (counted done s) in rw e (omega (arith, a), omega (arith, b))
count_next item items s error e h =
    let (a, b) = h (counted error s) in rw e (omega (arith, a), omega (arith, b))
count_next item items s cancelled e h =
    let (a, b) = h (counted cancelled s) in rw e (omega (arith, a), omega (arith, b))

count_from_lem : (items : List Transfer) (s : TransferSummary) → Counts items s
count_from_lem [] s = (omega arith, omega arith)
count_from_lem (item ∷ items) s = count_next item items s item.status refl (count_from_lem items)

-- The four counts of the summary add up to the number of transfers, and those of the active and the
-- pending ones to the number that is left when the finished ones are cleared.
pub summarize_transfers-counts :
    (items : List Transfer)
    → ((summarize_transfers items).active_count
          + (summarize_transfers items).pending_count
          + (summarize_transfers items).done_count
          + (summarize_transfers items).failed_count
        ≡ length items)
      × ((summarize_transfers items).active_count + (summarize_transfers items).pending_count
          ≡ length (clear items))
summarize_transfers-counts items =
    let (a, b) = count_from_lem items none_counted in (omega (arith, a), omega (arith, b))
  where
    none_counted : TransferSummary
    none_counted = record { active_count = 0; pending_count = 0; done_count = 0; failed_count = 0 }
