-- ===== src/Startup/Checking.antt =====
-- What the exit code of cmd/assert-queue says.
use traffic_backend_queue.Common.{
  ℕ, ◌≡◌, refl, Option, none, some, List, [], ◌∷◌, arith, Bool, false, if◌then◌else◌, AllPairs,
}
use traffic_backend_queue.Storage.{Db, Store}
use traffic_backend_queue.Auth.{Jwt}
use traffic_backend_queue.WaitingRoom.Entries.{Inv}
use traffic_backend_queue.WaitingRoom.History.{Call, run}
use traffic_backend_queue.WaitingRoom.Fairness.{Ascending, IsOrderedBy, run-inversions}
use traffic_backend_queue.AssertQueue.{Row, rows_of, inversions}
use traffic_backend_queue.AssertQueue.Fairness.{IsFair, inversions-IsFair}
use traffic_backend_queue.Config.{Environment, load}
use traffic_backend_queue.Startup.{
  Outside, Connected, connect, database_fails, redis_fails, connected,
}
use traffic_backend_queue.Startup.Programs.{check_queue, exit_code}

exit_code-IsFair : (rows : List Row) → exit_code rows ≡ 0 → AllPairs IsFair rows
unfolding exit_code
exit_code-IsFair [] h = tt
exit_code-IsFair (r ∷ rows) h = inversions-IsFair (r ∷ rows) (ground arith)

exit_code-zero : (rows : List Row) → inversions rows ≡ 0 → exit_code rows ≡ 0
unfolding exit_code
exit_code-zero [] h = refl
exit_code-zero (r ∷ rows) h = ground arith

-- The exit code after the flag.
abbrev code_after : Connected → Bool → ℕ → ℕ
code_after c query_fails n = elim c [ connected ↦ if query_fails then 1 else n | _ ↦ 1 ]

code_zero : (c : Connected) (query_fails : Bool) (n : ℕ) → code_after c query_fails n ≡ 0 → n ≡ 0
code_zero database_fails b n h = absurd (omega (arith, h))
code_zero redis_fails b n h = absurd (omega (arith, h))
code_zero connected b n h = ground arith

-- If the check exits with 0, no one in the queue of the sale stands behind a user who came later:
-- neither a missing flag nor a connection or a query that fails is taken for a fair queue.
pub check_queue-IsFair :
    (outside : Outside) (env : Environment) (flag : Option ℕ) (query_fails : Bool) (d : Db)
    → check_queue outside env flag query_fails d ≡ 0
    → (sale : ℕ) × (flag ≡ some sale) × AllPairs IsFair (rows_of sale d.queue_entries)
unfolding check_queue
check_queue-IsFair outside env none query_fails d h = absurd (omega (arith, h))
check_queue-IsFair outside env (some sale) query_fails d h =
    let rows = rows_of sale d.queue_entries in
    (
      sale,
      refl,
      exit_code-IsFair rows (code_zero (connect outside (load env)) query_fails (exit_code rows) h),
    )

-- While the clock of the database does not go back, and starting from a queue in order, the check
-- exits with 0 after any joins, polls and moves of the window that run one at a time, each to its end
-- before the next begins, if it can read the queue.
pub check_queue-run :
    (jwt : Jwt) (sale t : ℕ) (s : Store) (cs : List Call) (outside : Outside) (env : Environment)
    → Inv s
    → Ascending t cs
    → IsOrderedBy sale t s.db.queue_entries
    → connect outside (load env) ≡ connected
    → check_queue outside env (some sale) false (run jwt s cs).db ≡ 0
unfolding check_queue
check_queue-run jwt sale t s cs outside env v a h c =
    rw (c, check_queue)
      (exit_code-zero (rows_of sale (run jwt s cs).db.queue_entries)
        (run-inversions jwt sale t s cs v a h))
