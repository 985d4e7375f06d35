-- ===== src/HttpOutcome/Paths.antt =====
-- httpoutcome/sink.go and perm_unix.go: which paths a receipt file may have. A mode is its kind, its
-- nine permission bits and its sticky bit.
pub mod Trusted
pub mod Accepted
pub mod Ends
use heartpost.Common.{
  ℕ, zero, suc, ◌/◌, ◌%◌, Bool, true, false, ◌&&◌, ◌||◌, not, Option, none, some, List, [], ◌∷◌,
  ◌==◌, length, if◌then◌else◌,
}
use heartpost.Common.Text.{Text, text_eq, is_empty}
use heartpost.FilePath.{split_from, dot_dot, is_rooted, clean, dir_of}

pub record FileInfo : Type 0 where
  pub is_symlink : Bool
  pub is_dir : Bool
  pub is_regular : Bool
  pub owner : Option ℕ
  pub perm : ℕ
  pub sticky : Bool

-- os.Lstat
pub data Stat : Type 0 where
  found : FileInfo → Stat
  missing unreadable : Stat

-- The files, and the user who runs the program.
pub record Host : Type 0 where
  pub lstat : Text → Stat
  pub uid : ℕ

pub data PathError : Type 0 where
  not_absolute not_clean is_missing no_directory not_stated symlink not_directory not_regular
        no_owner untrusted_owner writable changed not_opened :
      PathError

-- Whether a path passed; `out_of_fuel` is no answer of the program.
pub data Check : Type 0 where
  passed out_of_fuel : Check
  refused : PathError → Check

abbrev pub and_then : Check → Check → Check
and_then passed next = next
and_then out_of_fuel next = out_of_fuel
and_then (refused e) next = refused e

abbrev pub require : Bool → PathError → Check
require b e = if b then passed else refused e

unfoldable pub no_dot_dot : List Text → Bool
no_dot_dot [] = true
no_dot_dot (el ∷ els) = not (text_eq el dot_dot) && no_dot_dot els

-- CheckAbsoluteClean
unfoldable pub check_absolute_clean : Text → Check
unfolding no_dot_dot
check_absolute_clean path =
    and_then (require (not (is_empty path) && is_rooted path) not_absolute) (
      and_then (require (text_eq (clean path) path) not_clean)
        (require (no_dot_dot (split_from [] path)) not_clean))

unfoldable pub is_member : ℕ → List ℕ → Bool
is_member uid [] = false
is_member uid (o ∷ owners) = (o == uid) || is_member uid owners

-- uidAllowed
unfoldable pub uid_allowed : Host → ℕ → List ℕ → Bool → Bool
unfolding is_member
uid_allowed h uid owners allow_root =
    (uid == h.uid) || (allow_root && (uid == 0)) || is_member uid owners

-- perm & 0o022 != 0
abbrev pub others_write : ℕ → Bool
others_write perm = (perm / 16 % 2 == 1) || (perm / 2 % 2 == 1)

-- checkOwnerAndMode
unfoldable pub check_owner_and_mode : Host → FileInfo → List ℕ → Check
unfolding uid_allowed
check_owner_and_mode h fi owners = elim fi.owner [
  | none ↦ refused no_owner
  | some uid ↦
      and_then (require (uid_allowed h uid owners false) untrusted_owner)
        (require (not (others_write fi.perm)) writable)
]

-- checkAncestor
unfoldable pub check_ancestor : Host → FileInfo → List ℕ → Check
unfolding uid_allowed
check_ancestor h fi owners = elim fi.owner [
  | none ↦ refused no_owner
  | some uid ↦
      and_then (require (uid_allowed h uid owners true) untrusted_owner)
        (require (not (others_write fi.perm && not fi.sticky)) writable)
]

-- checkFileInfoWith; checkFileInfo has no owners.
unfoldable pub check_file_info_with : Host → FileInfo → Bool → List ℕ → Check
unfolding check_owner_and_mode
check_file_info_with h fi want_dir owners = and_then (require (not fi.is_symlink) symlink) (
    and_then (require (not (want_dir && not fi.is_dir)) not_directory) (
      and_then (require (not (not want_dir && not fi.is_regular)) not_regular)
        (check_owner_and_mode h fi owners)))

abbrev with_stat : Host → Text → PathError → (FileInfo → Check) → Check
with_stat h path e f = elim (h.lstat path) [
  | found fi ↦ f fi
  | missing ↦ refused e
  | unreadable ↦ refused not_stated
]

unfoldable pub check_parent : Host → Text → List ℕ → Check
unfolding check_file_info_with
check_parent h dir owners =
    with_stat h dir no_directory (λ fi. check_file_info_with h fi true owners)

unfoldable pub check_file : Host → Text → List ℕ → Check
unfolding check_file_info_with
check_file h path owners =
    with_stat h path is_missing (λ fi. check_file_info_with h fi false owners)

-- VerifyTrustedPath
unfoldable pub verify_trusted_path : Host → Text → Check
unfolding check_absolute_clean check_parent check_file
verify_trusted_path h path =
    and_then (check_absolute_clean path)
      (and_then (check_parent h (dir_of path) []) (check_file h path []))

-- The body of the loop over the ancestors.
unfoldable pub check_above : Host → List ℕ → Text → Check
unfolding check_ancestor
check_above h owners anc = with_stat h anc no_directory (λ fi.
    and_then (require (not fi.is_symlink) symlink)
      (and_then (require fi.is_dir not_directory) (check_ancestor h fi owners)))

-- The loop, which ends at a directory that is its own parent.
unfoldable pub check_ancestors : ℕ → Host → List ℕ → Text → Check
unfolding check_above
check_ancestors zero h owners anc = out_of_fuel
check_ancestors (suc n) h owners anc =
    let rest = check_ancestors n h owners (dir_of anc) in
    and_then (check_above h owners anc) (if text_eq (dir_of anc) anc then passed else rest)

-- VerifyTrustedPathWithOwners. A path has fewer ancestors than characters.
unfoldable pub verify_trusted_path_with_owners : Host → List ℕ → Text → Check
unfolding check_absolute_clean check_ancestors check_parent check_file
verify_trusted_path_with_owners h owners path =
    let parent = dir_of path in
    and_then (check_absolute_clean path) (
      and_then (check_ancestors (length path) h owners (dir_of parent))
        (and_then (check_parent h parent owners) (check_file h path owners)))

-- What opening the file for append met: whether it opened, and whether it is the file of the path.
pub record Opening : Type 0 where
  pub opens : Bool
  pub reads : Bool
  pub after : Stat
  pub same : Bool

-- verifyOpened
unfoldable pub verify_opened : Host → Opening → Check
unfolding check_file_info_with
verify_opened h o = elim o.after [
  | missing ↦ refused is_missing
  | unreadable ↦ refused not_stated
  | found fi ↦
      and_then (require o.reads not_stated)
        (and_then (require o.same changed) (check_file_info_with h fi false []))
]

-- NewFileSink: the file may be missing before it is opened, and so may its directory, whose error
-- wraps the same one.
unfoldable pub new_file_sink : Host → Opening → Text → Check
unfolding check_absolute_clean verify_trusted_path verify_opened
new_file_sink h o path =
    let opened = and_then (require o.opens not_opened) (verify_opened h o) in
    and_then (check_absolute_clean path) (elim (verify_trusted_path h path) [
      | passed ↦ opened
      | out_of_fuel ↦ out_of_fuel
      | refused is_missing ↦ opened
      | refused no_directory ↦ opened
      | refused e ↦ refused e
    ])
