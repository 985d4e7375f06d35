-- ===== src/HttpOutcome/Paths/Ends.antt =====
-- The walk over the ancestors has fuel enough.
use heartpost.Common.{
  ℕ, ◌≡◌, ◌≢◌, ◌⊎◌, inl, inr, refl, ap, ◌∙◌, Bool, true, false, not, List, [], ◌∷◌, drop, arith,
  if◌then◌else◌,
}
use heartpost.Common.Text.{Text}
use heartpost.FilePath.Parts.{path_of}
use heartpost.HttpOutcome.Paths.{
  Host, FileInfo, Check, passed, out_of_fuel, refused, PathError, and_then, check_absolute_clean,
  check_above, check_ancestor, check_parent, check_file, check_file_info_with, check_owner_and_mode,
  verify_trusted_path_with_owners, with_stat, symlink, not_directory, no_directory, is_missing,
}
use heartpost.HttpOutcome.Paths.Trusted.{above, passed_is_clean}
use heartpost.HttpOutcome.Paths.Accepted.{Stat-cases, below, verify-below, verify-parts}

is_answer : Check → Bool
is_answer passed = true
is_answer out_of_fuel = false
is_answer (refused e) = true

and_then-answers :
    (c d : Check) → is_answer c ≡ true → is_answer d ≡ true → is_answer (and_then c d) ≡ true
unfolding is_answer
and_then-answers passed d x y = y
and_then-answers out_of_fuel d x y = x
and_then-answers (refused e) d x y = refl

owner-answers :
    (h : Host) (fi : FileInfo) (owners : List ℕ)
    → is_answer (check_owner_and_mode h fi owners) ≡ true
unfolding check_owner_and_mode is_answer
owner-answers h fi owners = ground arith

ancestor-answers :
    (h : Host) (fi : FileInfo) (owners : List ℕ) → is_answer (check_ancestor h fi owners) ≡ true
unfolding check_ancestor is_answer
ancestor-answers h fi owners = ground arith

info-answers :
    (h : Host) (fi : FileInfo) (want_dir : Bool) (owners : List ℕ)
    → is_answer (check_file_info_with h fi want_dir owners) ≡ true
unfolding check_file_info_with is_answer
info-answers h fi want_dir owners = ground (arith, owner-answers h fi owners)

stat-answers :
    (h : Host) (path : Text) (e : PathError) (f : FileInfo → Check)
    → ((fi : FileInfo) → is_answer (f fi) ≡ true)
    → is_answer (with_stat h path e f) ≡ true
unfolding is_answer
stat-answers h path e f k = elim (Stat-cases (h.lstat path)) [
  | inl (fi, s) ↦ ground (arith, k fi)
  | inr (inl s) ↦ ground arith
  | inr (inr s) ↦ ground arith
]

check_above-answers :
    (h : Host) (owners : List ℕ) (dir : Text) → is_answer (check_above h owners dir) ≡ true
unfolding check_above is_answer
check_above-answers h owners dir =
    stat-answers h dir no_directory
      (λ fi. and_then (if not fi.is_symlink then passed else refused symlink) (
        and_then (if fi.is_dir then passed else refused not_directory)
          (check_ancestor h fi owners)))
      (λ fi. ground (arith, ancestor-answers h fi owners))

above-answers : (h : Host) (owners : List ℕ) (rs : List Text) → is_answer (above h owners rs) ≡ true
above-answers h owners [] = check_above-answers h owners (path_of [])
above-answers h owners (r ∷ rs) =
    and_then-answers (check_above h owners (path_of (r ∷ rs))) (above h owners rs)
      (check_above-answers h owners (path_of (r ∷ rs))) (above-answers h owners rs)

below-answers :
    (h : Host) (owners : List ℕ) (path dir : Text) (c : Check)
    → is_answer c ≡ true
    → is_answer (below h owners path c dir) ≡ true
unfolding check_parent check_file
below-answers h owners path dir c x =
    and_then-answers c (and_then (check_parent h dir owners) (check_file h path owners)) x (
      and_then-answers (check_parent h dir owners) (check_file h path owners)
        (stat-answers h dir no_directory (λ fi. check_file_info_with h fi true owners)
          (λ fi. info-answers h fi true owners))
        (stat-answers h path is_missing (λ fi. check_file_info_with h fi false owners)
          (λ fi. info-answers h fi false owners)))

pub Check-cases :
    (c : Check) → (c ≡ passed) ⊎ ((c ≡ out_of_fuel) ⊎ ((e : PathError) × (c ≡ refused e)))
Check-cases passed = inl refl
Check-cases out_of_fuel = inr (inl refl)
Check-cases (refused e) = inr (inr (e, refl))

clean-answers : (path : Text) → is_answer (check_absolute_clean path) ≡ true
unfolding check_absolute_clean is_answer
clean-answers path = ground arith

verify-answers :
    (h : Host) (owners : List ℕ) (path : Text)
    → is_answer (verify_trusted_path_with_owners h owners path) ≡ true
unfolding is_answer
verify-answers h owners path = elim (Check-cases (check_absolute_clean path)) [
  | inl e ↦
      let (rs, good, whole) = passed_is_clean path e in
      ap (λ p. is_answer (verify_trusted_path_with_owners h owners p)) whole
      ∙ ap is_answer (verify-parts h owners rs good)
      ∙ below-answers h owners (path_of rs) (path_of (drop 1 rs))
          (above h owners (drop 1 (drop 1 rs))) (above-answers h owners (drop 1 (drop 1 rs)))
  | inr (inl o) ↦ let answers = clean-answers path in ground arith
  | inr (inr (x, r)) ↦ rw (verify-below h owners path, r) refl
]

-- The loop over the ancestors ends for every path, host and list of owners: the fuel that the model
-- gives it, the number of the path's characters, never runs out.
pub verify_trusted_path_ends :
    (h : Host) (owners : List ℕ) (path : Text)
    → verify_trusted_path_with_owners h owners path ≢ out_of_fuel
unfolding is_answer
verify_trusted_path_ends h owners path e =
    let answers = verify-answers h owners path in ground arith
