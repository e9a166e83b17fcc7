-- ===== src/Loadtest/Files.antt =====
-- The directories of internal/loadtest/store.go as maps.
use traffic_backend_queue.Common.{
  List, [], none, ℕ, ◌≡◌, refl, some, [], ◌∷◌, ◌==◌, if◌then◌else◌, arith,
}
use traffic_backend_queue.Loadtest.{Dir, read_file, write_file, remove_file}

pub read_file-write_file :
    {A : Type 0} (i j : ℕ) (a : A) (d : Dir A)
    → read_file j (write_file i a d) ≡ (if i == j then some a else read_file j d)
unfolding read_file write_file
read_file-write_file i j a [] = refl
read_file-write_file i j a ((k, b) ∷ d) = ground (arith, read_file-write_file i j a d)

pub read_file-remove_file :
    {A : Type 0} (i : ℕ) (d : List (ℕ × A)) → read_file i (remove_file i d) ≡ none
unfolding read_file remove_file
read_file-remove_file i [] = refl
read_file-remove_file i ((k, b) ∷ d) = ground (arith, read_file-remove_file i d)
