-- ===== src/Collector/Tail/Last.antt =====
-- The ring holds the last lines, in their order.
use native.Mathlib.Nat.{mod-lt, mod-eq_of_lt, mod-eq-sub-mod, mod-add-mod, add-mod_right}
use heartpost.Common.{
  ℕ, zero, suc, ◌+◌, ◌-◌, ◌%◌, ◌≡◌, ◌≢◌, ◌≤◌, ◌<◌, refl, sym, ap, ◌∙◌, inl, inr, none, some, List,
  [], ◌∷◌, leb, length, take, drop, arith, Bool-cases, if◌then◌else◌,
}
use heartpost.Common.Int.{pos}
use heartpost.Signature.{Bytes}
use heartpost.Collector.Tail.{make, at, set, fill, read_ring, tail_ring, tail_lines, scan}

module _ {ℓ} {A : Type ℓ} where
  length-make : (n : ℕ) (a : A) → length (make n a) ≡ n
  unfolding make
  length-make zero a = refl
  length-make (suc n) a = ap suc (length-make n a)

  length-set : (xs : List A) (i : ℕ) (a : A) → length (set xs i a) ≡ length xs
  unfolding set
  length-set [] i a = refl
  length-set (x ∷ xs) zero a = refl
  length-set (x ∷ xs) (suc i) a = ap suc (length-set xs i a)

  at-set : (xs : List A) (i : ℕ) (a d : A) → i < length xs → at (set xs i a) i d ≡ a
  unfolding at set
  at-set [] i a d h = absurd (omega arith)
  at-set (x ∷ xs) zero a d h = refl
  at-set (x ∷ xs) (suc i) a d h = at-set xs i a d (omega arith)

  at-set_ne : (xs : List A) (i j : ℕ) (a d : A) → i ≢ j → at (set xs i a) j d ≡ at xs j d
  unfolding at set
  at-set_ne [] i j a d h = refl
  at-set_ne (x ∷ xs) zero zero a d h = absurd (h refl)
  at-set_ne (x ∷ xs) zero (suc j) a d h = refl
  at-set_ne (x ∷ xs) (suc i) zero a d h = refl
  at-set_ne (x ∷ xs) (suc i) (suc j) a d h = at-set_ne xs i j a d (λ e. h (ap suc e))

  drop-at : (xs : List A) (p : ℕ) (d : A) → p < length xs → drop p xs ≡ at xs p d ∷ drop (suc p) xs
  unfolding at
  drop-at [] p d h = absurd (omega arith)
  drop-at (x ∷ xs) zero d h = refl
  drop-at (x ∷ xs) (suc p) d h = drop-at xs p d (omega arith)

  drop_all : (xs : List A) → drop (length xs) xs ≡ []
  drop_all [] = refl
  drop_all (x ∷ xs) = drop_all xs

  -- A list is the start of another where it is as long and they agree there.
  take_same :
      (xs ys : List A) (d : A)
      → length xs ≤ length ys
      → ((j : ℕ) → j < length xs → at ys j d ≡ at xs j d)
      → take (length xs) ys ≡ xs
  unfolding at
  take_same [] ys d h same = refl
  take_same (x ∷ xs) [] d h same = absurd (omega arith)
  take_same (x ∷ xs) (y ∷ ys) d h same =
      let e = same 0 (omega arith) in
      let es = take_same xs ys d (omega arith) (λ j lt. same (suc j) (omega arith)) in cc

-- Two indices less than a round apart have different places in the ring.
mod_apart : (n i k : ℕ) → 0 < k → k < n → (i + k) % n ≢ i % n
mod_apart n i k p h e =
    let r = i % n in
    let small : r < n = mod-lt i (omega arith) in
    let same : (r + k) % n ≡ r = mod-add-mod i n k ∙ e in
    elim (Bool-cases (leb n (r + k))) [
      | inr below ↦
          (let kept = mod-eq_of_lt {n = r + k} {m = n} (ground arith) in omega (arith, kept, same))
      | inl above ↦
          let le : n ≤ r + k = ground arith in
          let once = mod-eq-sub-mod {n = r + k} {m = n} le in
          let kept = mod-eq_of_lt {n = r + k - n} {m = n} (omega arith) in
          omega (arith, once, kept, same)
    ]

shift : (i j : ℕ) → i + suc j ≡ suc i + j
shift i j = omega arith

no_shift : (i : ℕ) → i + 0 ≡ i
no_shift i = omega arith

fill_keeps :
    (n i k : ℕ) (ls ring : List Bytes)
    → ((j : ℕ) → j < length ls → (i + j) % n ≢ k)
    → at (fill n i ls ring) k [] ≡ at ring k []
unfolding fill
fill_keeps n i k [] ring h = refl
fill_keeps n i k (l ∷ ls) ring h =
    fill_keeps n (suc i) k ls (set ring (i % n) l)
      (λ j lt e. h (suc j) (omega arith) (rw (shift i j) e))
    ∙ at-set_ne ring (i % n) k l [] (λ e. h 0 (omega arith) (rw (no_shift i) e))

-- Filling writes each line at its place, where it writes no more than a round.
at-fill :
    (n i j : ℕ) (ls ring : List Bytes)
    → length ring ≡ n
    → j < length ls
    → length ls ≤ j + n
    → at (fill n i ls ring) ((i + j) % n) [] ≡ at ls j []
unfolding fill at
at-fill n i j [] ring e lt le = absurd (omega arith)
at-fill n i zero (l ∷ ls) ring e lt le =
    let place : i % n < length ring = rw e (mod-lt i (omega arith)) in
    let kept =
      fill_keeps n (suc i) (i % n) ls (set ring (i % n) l)
        (λ j' lt' q. mod_apart n i (suc j') (omega arith) (omega arith) (rw (shift i j') q)) in
    rw (no_shift i) (kept ∙ at-set ring (i % n) l [] place)
at-fill n i (suc j) (l ∷ ls) ring e lt le = rw (shift i j) (
    at-fill n (suc i) j ls (set ring (i % n) l) (length-set ring (i % n) l ∙ e) (omega arith)
      (omega arith))

length-fill : (n i : ℕ) (ls ring : List Bytes) → length (fill n i ls ring) ≡ length ring
unfolding fill
length-fill n i [] ring = refl
length-fill n i (l ∷ ls) ring =
    length-fill n (suc i) ls (set ring (i % n) l) ∙ length-set ring (i % n) l

-- The place that the copy reads: `c` lines were written, of which `j` come after the oldest.
place : (n c j : ℕ) → n ≤ c → (c % n + j) % n ≡ (0 + (c - n + j)) % n
place n c j h =
    let k = c - n + j in
    let whole : c + j ≡ k + n = omega arith in
    let start : 0 + k ≡ k = omega arith in
    mod-add-mod c n j ∙ ap (λ m. m % n) whole ∙ add-mod_right k n ∙ ap (λ m. m % n) (sym start)

read_ring-drop :
    (n : ℕ) (lines ring : List Bytes) (left j : ℕ)
    → left + j ≡ n
    → n ≤ length lines
    → ((p : ℕ) → p < length lines → length lines ≤ p + n → at ring ((0 + p) % n) [] ≡ at lines p [])
    → read_ring n (length lines % n) ring left j ≡ drop (length lines - n + j) lines
unfolding read_ring
read_ring-drop n lines ring zero j e h written =
    let all : length lines - n + j ≡ length lines = omega arith in rw all (sym (drop_all lines))
read_ring-drop n lines ring (suc left) j e h written =
    let p = length lines - n + j in
    let next : length lines - n + suc j ≡ suc p = omega arith in
    let here =
      ap (λ m. at ring m []) (place n (length lines) j h) ∙ written p (omega arith) (omega arith) in
    let rest =
      read_ring-drop n lines ring left (suc j) (omega arith) h written
      ∙ ap (λ m. drop m lines) next in
    let cut = drop-at lines p [] (omega arith) in cc

zero_plus : (j : ℕ) → 0 + j ≡ j
zero_plus j = omega arith

tail_ring-drop :
    (n : ℕ) (lines : List Bytes) → 0 < n → tail_ring n lines ≡ drop (length lines - n) lines
unfolding tail_ring
tail_ring-drop n lines p =
    let ring = fill n 0 lines (make n []) in
    let size : length (make {A = Bytes} n []) ≡ n = length-make n [] in
    elim (Bool-cases (leb (length lines) n)) [
      | inl few ↦
          let none_cut : length lines - n ≡ 0 = ground arith in
          let as_long : length lines ≤ length ring =
            rw (length-fill n 0 lines (make n [])) (ground (arith, size)) in
          let same : (j : ℕ) → j < length lines → at ring j [] ≡ at lines j [] = λ j lt.
            ap (λ m. at ring m [])
              (sym (ap (λ m. m % n) (zero_plus j) ∙ mod-eq_of_lt (ground arith)))
            ∙ at-fill n 0 j lines (make n []) size lt (ground arith) in
          rw (few, none_cut) (take_same lines ring [] as_long same)
      | inr many ↦ rw many (
          read_ring-drop n lines ring n 0 (omega arith) (ground arith)
            (λ j lt le. at-fill n 0 j lines (make n []) size lt le)
          ∙ ap (λ m. drop m lines) (omega arith))
    ]

-- TailLinesReader returns the last lines of a file that its scanner reads to the end, as many as
-- were asked for or all there are, in their order; of any other file it returns an error.
pub tail_lines_last :
    (s : Bytes) (n : ℕ)
    → tail_lines s (pos (suc n))
      ≡ (if (scan s).1 then some (drop (length (scan s).0 - suc n) (scan s).0) else none)
unfolding tail_lines
tail_lines_last s n = rw (tail_ring-drop (suc n) (scan s).0 (omega arith)) refl
