-- ===== src/HttpOutcome/Paths/Trusted.antt =====
-- The walk over the ancestors of a clean path, which are its parts taken away one by one.
use heartpost.Common.{
  ℕ, zero, suc, ◌<◌, ◌≡◌, ◌≢◌, inl, inr, refl, sym, ap, ◌∙◌, true, false, List, [], ◌∷◌, length,
  drop, All, arith, ==_iff, Bool-cases,
}
use heartpost.Common.Text.{Text, text_eq, text_eq_iff, text_eq_refl}
use heartpost.FilePath.{slash, is_rooted, clean, dir_of, split_from, join_parts}
use mathlib.Core.List.{reverse}
use heartpost.FilePath.Parts.{
  split-path_of, reverse-All, Good, path_of, clean-path_of, clean-Good, dir_of-path_of, dir_of-root,
  path_of-injective,
}
use heartpost.HttpOutcome.Paths.{
  Host, Check, passed, out_of_fuel, refused, and_then, check_absolute_clean, check_above,
  check_ancestors, no_dot_dot,
}

-- The checks of these directories, the innermost first, down from the root's.
abbrev pub above : Host → List ℕ → List Text → Check
above h owners [] = check_above h owners (path_of [])
above h owners (r ∷ rs) = and_then (check_above h owners (path_of (r ∷ rs))) (above h owners rs)

too_long : (r : Text) (rs : List Text) → rs ≢ r ∷ rs
too_long r rs e = let same = ap length e in omega arith

not_own_parent :
    (r : Text) (rs : List Text)
    → All Good (r ∷ rs)
    → text_eq (path_of rs) (path_of (r ∷ rs)) ≡ false
not_own_parent r rs good = elim (Bool-cases (text_eq (path_of rs) (path_of (r ∷ rs)))) [
  | inl e ↦
      elim (too_long r rs (
        path_of-injective rs (r ∷ rs) good.1 good
          ((text_eq_iff (path_of rs) (path_of (r ∷ rs))).0 e))) [ ]
  | inr e ↦ e
]

and_then-passed : (c : Check) → and_then c passed ≡ c
and_then-passed passed = refl
and_then-passed out_of_fuel = refl
and_then-passed (refused e) = refl

check_ancestors-stop :
    (n : ℕ) (h : Host) (owners : List ℕ) (anc : Text)
    → text_eq (dir_of anc) anc ≡ true
    → check_ancestors (suc n) h owners anc ≡ check_above h owners anc
unfolding check_ancestors
check_ancestors-stop n h owners anc e = rw e (and_then-passed (check_above h owners anc))

check_ancestors-step :
    (n : ℕ) (h : Host) (owners : List ℕ) (anc : Text)
    → text_eq (dir_of anc) anc ≡ false
    → check_ancestors (suc n) h owners anc
      ≡ and_then (check_above h owners anc) (check_ancestors n h owners (dir_of anc))
unfolding check_ancestors
check_ancestors-step n h owners anc e = rw e refl

-- With more fuel than ancestors, the walk does the checks of all of them.
pub check_ancestors-above :
    (n : ℕ) (h : Host) (owners : List ℕ) (rs : List Text)
    → All Good rs
    → length rs < n
    → check_ancestors n h owners (path_of rs) ≡ above h owners rs
check_ancestors-above zero h owners rs good l = ground arith
check_ancestors-above (suc n) h owners [] good l =
    check_ancestors-stop n h owners (path_of []) (rw dir_of-root (text_eq_refl (path_of [])))
check_ancestors-above (suc n) h owners (r ∷ rs) good l =
    let up = dir_of-path_of r rs good in
    check_ancestors-step n h owners (path_of (r ∷ rs)) (rw up (not_own_parent r rs good))
    ∙ ap (and_then (check_above h owners (path_of (r ∷ rs)))) (
        ap (check_ancestors n h owners) up
        ∙ check_ancestors-above n h owners rs good.1 (omega arith))

pub dir_of-drop : (rs : List Text) → All Good rs → dir_of (path_of rs) ≡ path_of (drop 1 rs)
dir_of-drop [] good = dir_of-root
dir_of-drop (r ∷ rs) good = dir_of-path_of r rs good

pub drop-Good : (rs : List Text) → All Good rs → All Good (drop 1 rs)
drop-Good [] good = tt
drop-Good (r ∷ rs) good = good.1

no_dot_dot-Good : (ps : List Text) → All Good ps → no_dot_dot ps ≡ true
unfolding no_dot_dot
no_dot_dot-Good [] good = refl
no_dot_dot-Good (p ∷ ps) good = ground (arith, no_dot_dot-Good ps)

no_dot_dot-root : no_dot_dot (split_from [] (path_of [])) ≡ true
unfolding no_dot_dot split_from text_eq join_parts
no_dot_dot-root = refl

no_dot_dot-empty : (ps : List Text) → no_dot_dot ([] ∷ ps) ≡ no_dot_dot ps
unfolding no_dot_dot text_eq
no_dot_dot-empty ps = refl

no_dot_dot-split : (rs : List Text) → All Good rs → no_dot_dot (split_from [] (path_of rs)) ≡ true
no_dot_dot-split [] good = no_dot_dot-root
no_dot_dot-split (r ∷ rs) good =
    ap no_dot_dot (split-path_of r rs good)
    ∙ no_dot_dot-empty (reverse (r ∷ rs))
    ∙ no_dot_dot-Good (reverse (r ∷ rs)) (reverse-All Good (r ∷ rs) good)

pub clean_passes : (rs : List Text) → All Good rs → check_absolute_clean (path_of rs) ≡ passed
unfolding check_absolute_clean
clean_passes rs good =
    rw (clean-path_of rs good, text_eq_refl (path_of rs), no_dot_dot-split rs good) refl

passed_clean :
    (path : Text)
    → check_absolute_clean path ≡ passed
    → (text_eq (clean path) path ≡ true) × (is_rooted path ≡ true)
unfolding check_absolute_clean
passed_clean path e = ground arith

pub passed_is_clean :
    (path : Text)
    → check_absolute_clean path ≡ passed
    → (rs : List Text) × All Good rs × (path ≡ path_of rs)
passed_is_clean [] e = ground (arith, passed_clean [] e)
passed_is_clean (c ∷ s) e =
    let (same, rooted) = passed_clean (c ∷ s) e in
    let first : c ≡ slash = (==_iff c slash).0 rooted in
    let (rs, good, cleaned) = clean-Good s in
    (
      rs,
      good,
      sym ((text_eq_iff (clean (c ∷ s)) (c ∷ s)).0 same) ∙ ap (λ d. clean (d ∷ s)) first ∙ cleaned,
    )
