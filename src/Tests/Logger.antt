-- ===== src/Tests/Logger.antt =====
-- A log of at most four bytes, written twice.
use heartpost.Common.{◌≡◌, refl, true, false, none, List, [], ◌∷◌, arith}
use heartpost.Common.Text.{codes}
use heartpost.Common.Int.{pos}
use heartpost.Signature.{Bytes}
use heartpost.Agent.Logger.{RotatingWriter, Os, write_all, close_file}
use heartpost.Agent.Logger.Bounded.{Fits, write_all-Fits, failed_rotation_ends}

abbrev works : Os
works = record { stats = true; reopens = true; short_write = none }

abbrev no_reopen : Os
no_reopen = record works { reopens = false }

abbrev four : RotatingWriter
four = record { contents = codes "abcd"; max_size = pos 4; is_open = true }

abbrev two_lines : List (Os × Bytes)
two_lines = (works, codes "xyz") ∷ (works, codes "uvw") ∷ []

written_anew : (write_all four two_lines).contents ≡ codes "xyzuvw"
unfolding write_all
written_anew = refl

write_all-Fits_example : Fits 3 (write_all four two_lines)
write_all-Fits_example =
    write_all-Fits 3 four two_lines ((refl, omega arith), ((refl, omega arith), tt)) (omega arith)

failed_rotation_ends_example :
    write_all four ((no_reopen, codes "xyz") ∷ two_lines) ≡ close_file four
failed_rotation_ends_example = failed_rotation_ends four no_reopen (codes "xyz") two_lines refl refl
