-- ===== src/Tests/Processes.antt =====
-- Runs of the life of a child process.
use adbncfs.Prelude.{◌≡◌, refl, true, false, some, [], ◌∷◌, ◌++◌, if◌then◌else◌}
use adbncfs.Spawn.{is_open, Spawn, parent_ends, destroy, wait}
use adbncfs.Spawn.Waiting.{wait-Ends}
use adbncfs.Spawn.Descriptors.{is_end, destroy_closes}

-- A child that is stopped, goes on and exits with status 2.
wait-Ends_example : wait ((some 4991 ∷ some 65535 ∷ []) ++ some 512 ∷ []) ≡ some 512
wait-Ends_example =
    wait-Ends (some 4991 ∷ some 65535 ∷ []) [] (some 512) 512 (refl, (refl, tt)) (refl, refl)

abbrev spawn : Spawn
spawn = record {
  write_pipe = record { read_fd = 3; write_fd = 4 };
  read_pipe = record { read_fd = 5; write_fd = 6 };
}

-- Another thread opens a file and gets the number of an end that the parent has closed.
destroy_closes_example :
    is_open (destroy true (3 ∷ parent_ends (3 ∷ 4 ∷ 5 ∷ 6 ∷ []) spawn) spawn) 3
    ≡ (if is_end spawn 3 then false else is_open (3 ∷ parent_ends (3 ∷ 4 ∷ 5 ∷ 6 ∷ []) spawn) 3)
destroy_closes_example = destroy_closes spawn true (3 ∷ parent_ends (3 ∷ 4 ∷ 5 ∷ 6 ∷ []) spawn) 3
