-- ===== src/HttpOutcome/Paths/Accepted.antt =====
-- A path is trusted if it, its directory and everything above are.
use heartpost.Common.{
  ℕ, ◌<◌, ◌≡◌, ◌↔◌, ◌⊎◌, inl, inr, refl, sym, ap, ◌∙◌, Bool, true, false, ◌&&◌, not, List, [], ◌∷◌,
  length, drop, All, arith, some, Option-cases, if◌then◌else◌,
}
use heartpost.Common.Text.{Text}
use heartpost.FilePath.{dir_of}
use heartpost.HttpOutcome.Paths.Trusted.{
  above, clean_passes, passed_is_clean, dir_of-drop, drop-Good, check_ancestors-above,
}
use heartpost.FilePath.Parts.{Good, path_of, path_of-long}
use heartpost.HttpOutcome.Paths.{
  Host, FileInfo, Stat, found, missing, unreadable, check_ancestor, uid_allowed, others_write,
  Check, passed, out_of_fuel, refused, and_then, check_absolute_clean, check_above, check_ancestors,
  check_parent, check_file, verify_trusted_path_with_owners, check_file_info_with,
  check_owner_and_mode,
}

and_then_passed : (c d : Check) → (and_then c d ≡ passed) ↔ ((c ≡ passed) × (d ≡ passed))
and_then_passed passed d = (λ e. (refl, e), λ e. e.1)
and_then_passed out_of_fuel d = (λ e. ground arith, λ e. ground arith)
and_then_passed (refused x) d = (λ e. ground arith, λ e. ground arith)

-- The directory is one of this path, no symbolic link, of root, the user or a listed owner, and not
-- writable by others unless sticky.
pub record SafeAbove (h : Host) (owners : List ℕ) (dir : Text) : Type 0 where
  pub info : FileInfo
  pub stat : h.lstat dir ≡ found info
  pub no_link : info.is_symlink ≡ false
  pub directory : info.is_dir ≡ true
  pub uid : ℕ
  pub owned : info.owner ≡ some uid
  pub trusted : uid_allowed h uid owners true ≡ true
  pub closed : (others_write info.perm && not info.sticky) ≡ false

-- The directory or file itself: neither root nor the sticky bit makes an exception.
pub record Safe (h : Host) (owners : List ℕ) (want_dir : Bool) (path : Text) : Type 0 where
  pub info : FileInfo
  pub stat : h.lstat path ≡ found info
  pub no_link : info.is_symlink ≡ false
  pub kind : (if want_dir then info.is_dir else info.is_regular) ≡ true
  pub uid : ℕ
  pub owned : info.owner ≡ some uid
  pub trusted : uid_allowed h uid owners false ≡ true
  pub closed : others_write info.perm ≡ false

unfoldable pub EachAbove : Host → List ℕ → List Text → Type 0
EachAbove h owners [] = SafeAbove h owners (path_of [])
EachAbove h owners (r ∷ rs) = SafeAbove h owners (path_of (r ∷ rs)) × EachAbove h owners rs

pub Stat-cases :
    (s : Stat) → ((fi : FileInfo) × (s ≡ found fi)) ⊎ ((s ≡ missing) ⊎ (s ≡ unreadable))
Stat-cases (found fi) = inl (fi, refl)
Stat-cases missing = inr (inl refl)
Stat-cases unreadable = inr (inr refl)

check_above_iff :
    (h : Host) (owners : List ℕ) (dir : Text)
    → (check_above h owners dir ≡ passed) ↔ SafeAbove h owners dir
unfolding check_above check_ancestor
check_above_iff h owners dir = (
  λ e. elim (Stat-cases (h.lstat dir)) [
    | inl (fi, s) ↦ elim (Option-cases fi.owner) [
      | inl n ↦ ground arith
      | inr (uid, o) ↦ record {
        info = fi;
        stat = s;
        no_link = ground arith;
        directory = ground arith;
        uid = uid;
        owned = o;
        trusted = ground arith;
        closed = ground arith;
      }
    ]
    | inr (inl s) ↦ ground arith
    | inr (inr s) ↦ ground arith
  ],
  λ safe.
      ground
        (arith, safe.stat, safe.no_link, safe.directory, safe.owned, safe.trusted, safe.closed),
)

check_parent_iff :
    (h : Host) (owners : List ℕ) (path : Text)
    → (check_parent h path owners ≡ passed) ↔ Safe h owners true path
unfolding check_parent check_file_info_with check_owner_and_mode
check_parent_iff h owners path = (
  λ e. elim (Stat-cases (h.lstat path)) [
    | inl (fi, s) ↦ elim (Option-cases fi.owner) [
      | inl n ↦ ground arith
      | inr (uid, o) ↦ record {
        info = fi;
        stat = s;
        no_link = ground arith;
        kind = ground arith;
        uid = uid;
        owned = o;
        trusted = ground arith;
        closed = ground arith;
      }
    ]
    | inr (inl s) ↦ ground arith
    | inr (inr s) ↦ ground arith
  ],
  λ safe. ground (arith, safe.stat, safe.no_link, safe.kind, safe.owned, safe.trusted, safe.closed),
)

check_file_iff :
    (h : Host) (owners : List ℕ) (path : Text)
    → (check_file h path owners ≡ passed) ↔ Safe h owners false path
unfolding check_file check_file_info_with check_owner_and_mode
check_file_iff h owners path = (
  λ e. elim (Stat-cases (h.lstat path)) [
    | inl (fi, s) ↦ elim (Option-cases fi.owner) [
      | inl n ↦ ground arith
      | inr (uid, o) ↦ record {
        info = fi;
        stat = s;
        no_link = ground arith;
        kind = ground arith;
        uid = uid;
        owned = o;
        trusted = ground arith;
        closed = ground arith;
      }
    ]
    | inr (inl s) ↦ ground arith
    | inr (inr s) ↦ ground arith
  ],
  λ safe. ground (arith, safe.stat, safe.no_link, safe.kind, safe.owned, safe.trusted, safe.closed),
)

above_iff :
    (h : Host) (owners : List ℕ) (rs : List Text)
    → (above h owners rs ≡ passed) ↔ EachAbove h owners rs
unfolding EachAbove
above_iff h owners [] = check_above_iff h owners (path_of [])
above_iff h owners (r ∷ rs) =
    let here = check_above_iff h owners (path_of (r ∷ rs)) in
    let rest = above_iff h owners rs in
    let both = and_then_passed (check_above h owners (path_of (r ∷ rs))) (above h owners rs) in
    (λ e. let (x, y) = both.0 e in (here.0 x, rest.0 y), λ (x, y). both.1 (here.1 x, rest.1 y))

-- The parts of a path that the checks accept, the last first, with what they found on the way down.
pub record IsVetted (h : Host) (owners : List ℕ) (path : Text) : Type 0 where
  pub parts : List Text
  pub good : All Good parts
  pub whole : path ≡ path_of parts
  pub higher : EachAbove h owners (drop 1 (drop 1 parts))
  pub parent : Safe h owners true (path_of (drop 1 parts))
  pub file : Safe h owners false path

enough : (rs : List Text) → All Good rs → length (drop 1 (drop 1 rs)) < length (path_of rs)
enough [] good = ground arith
enough (r ∷ []) good = ground arith
enough (r ∷ q ∷ rs) good = let long = path_of-long (r ∷ q ∷ rs) good in omega arith

-- The checks of the directory and of the file, after that of what is above.
abbrev pub below : Host → List ℕ → Text → Check → Text → Check
below h owners path c dir =
    and_then c (and_then (check_parent h dir owners) (check_file h path owners))

pub verify-below :
    (h : Host) (owners : List ℕ) (path : Text)
    → verify_trusted_path_with_owners h owners path
      ≡ and_then (check_absolute_clean path) (
          below h owners path
            (check_ancestors (length path) h owners (dir_of (dir_of path)))
            (dir_of path))
unfolding verify_trusted_path_with_owners
verify-below h owners path = refl

pub verify-parts :
    (h : Host) (owners : List ℕ) (rs : List Text)
    → All Good rs
    → verify_trusted_path_with_owners h owners (path_of rs)
      ≡ below h owners (path_of rs) (above h owners (drop 1 (drop 1 rs))) (path_of (drop 1 rs))
verify-parts h owners rs good =
    let path = path_of rs in
    let walk = λ (a : Text). check_ancestors (length path) h owners a in
    let good' = drop-Good rs good in
    verify-below h owners path
    ∙ ap (λ c. and_then c (below h owners path (walk (dir_of (dir_of path))) (dir_of path)))
        (clean_passes rs good)
    ∙ ap (λ d. below h owners path (walk (dir_of d)) d) (dir_of-drop rs good)
    ∙ ap (λ a. below h owners path (walk a) (path_of (drop 1 rs))) (dir_of-drop (drop 1 rs) good')
    ∙ ap (λ c. below h owners path c (path_of (drop 1 rs)))
        (check_ancestors-above (length path) h owners (drop 1 (drop 1 rs))
          (drop-Good (drop 1 rs) good') (enough rs good))

below_iff :
    (h : Host) (owners : List ℕ) (rs : List Text) (path : Text)
    → (below h owners path (above h owners (drop 1 (drop 1 rs))) (path_of (drop 1 rs)) ≡ passed) ↔ (
        EachAbove h owners (drop 1 (drop 1 rs))
        × Safe h owners true (path_of (drop 1 rs))
        × Safe h owners false path)
below_iff h owners rs path =
    let dir = path_of (drop 1 rs) in
    let outer =
      and_then_passed (above h owners (drop 1 (drop 1 rs)))
        (and_then (check_parent h dir owners) (check_file h path owners)) in
    let inner = and_then_passed (check_parent h dir owners) (check_file h path owners) in
    let a = above_iff h owners (drop 1 (drop 1 rs)) in
    let p = check_parent_iff h owners dir in
    let f = check_file_iff h owners path in
    (
      λ e. let (x, yz) = outer.0 e in let (y, z) = inner.0 yz in (a.0 x, p.0 y, f.0 z),
      λ (x, y, z). outer.1 (a.1 x, inner.1 (p.1 y, f.1 z)),
    )

-- A path passes with a list of owners exactly when it is an absolute clean path to a regular file,
-- each directory above its own is a directory of root, the user or a listed owner that others cannot
-- write or that is sticky, its directory and the file are the user's or a listed owner's and others
-- cannot write them, and none is a symbolic link.
pub verify_trusted_path_iff :
    (h : Host) (owners : List ℕ) (path : Text)
    → (verify_trusted_path_with_owners h owners path ≡ passed) ↔ IsVetted h owners path
verify_trusted_path_iff h owners path = (
  λ e.
      let first = and_then_passed (check_absolute_clean path) (
        below h owners path (check_ancestors (length path) h owners (dir_of (dir_of path)))
          (dir_of path)) in
      let (parts, good, whole) =
        passed_is_clean path (first.0 (sym (verify-below h owners path) ∙ e)).0 in
      let found_so =
        ap (λ p. below h owners p (above h owners (drop 1 (drop 1 parts))) (path_of (drop 1 parts)))
          whole
        ∙ sym (verify-parts h owners parts good)
        ∙ ap (verify_trusted_path_with_owners h owners) (sym whole)
        ∙ e in
      let (higher, parent, file) = (below_iff h owners parts path).0 found_so in
      record {
        parts = parts;
        good = good;
        whole = whole;
        higher = higher;
        parent = parent;
        file = file;
      },
  λ t.
      ap (verify_trusted_path_with_owners h owners) t.whole
      ∙ verify-parts h owners t.parts t.good
      ∙ ap
          (λ p.
            below h owners p (above h owners (drop 1 (drop 1 t.parts))) (path_of (drop 1 t.parts)))
          (sym t.whole)
      ∙ (below_iff h owners t.parts path).1 (t.higher, t.parent, t.file),
)
