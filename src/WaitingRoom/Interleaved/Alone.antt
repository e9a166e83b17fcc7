-- ===== src/WaitingRoom/Interleaved/Alone.antt =====
-- A request that runs alone.
use traffic_backend_queue.Common.{ℕ, ◌≡◌, refl, arith, inl, inr, ◌⊎◌}
use traffic_backend_queue.Storage.{Store}
use traffic_backend_queue.WaitingRoom.{
  Error, Result, ok, err, Faults, join, before_join, get_sale, check_existing, sale_open_for_queue,
  record_entry,
}
use traffic_backend_queue.WaitingRoom.Interleaved.{reads_sale, answered, run_alone}

pub Result-cases {ℓ} :
    {A : Type ℓ} (r : Result A) → ((e : Error) × (r ≡ err e)) ⊎ ((a : A) × (r ≡ ok a))
Result-cases (ok a) = inr (a, refl)
Result-cases (err e) = inl (e, refl)

-- A request whose calls are not interrupted does what `join` does: six calls are enough for it to
-- answer, and its answer and the store are those of `join`.
pub run_alone-join :
    (f : Faults) (now db_now sale user : ℕ) (s : Store)
    → run_alone f now db_now sale user 6 reads_sale s
      ≡ ((join f now db_now sale user s).0, answered (join f now db_now sale user s).1)
unfolding run_alone join record_entry before_join get_sale check_existing sale_open_for_queue
run_alone-join f now db_now sale user s = ground arith
