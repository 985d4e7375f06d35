-- ===== src/Collector/Tail.antt =====
-- collector/jsonl.go: the lines of a file as bufio.Scanner gives them, and TailLinesReader, which
-- keeps the last of them in a ring.
pub mod Last
use heartpost.Common.{
  ℕ, zero, suc, ◌+◌, ◌*◌, ◌%◌, Bool, true, false, ◌||◌, not, Option, none, some, List, [], ◌∷◌,
  ◌==◌, leb, length, take, if◌then◌else◌,
}
use heartpost.Common.Int.{ℤ, pos, negsuc}
use heartpost.Signature.{Bytes}

-- The text between the newlines. An end without one ends a line that is not empty.
abbrev pub onto_head : ℕ → List Bytes → List Bytes
onto_head c [] = (c ∷ []) ∷ []
onto_head c (l ∷ ls) = (c ∷ l) ∷ ls

unfoldable pub split_lines : Bytes → List Bytes
split_lines [] = []
split_lines (c ∷ s) = if c == 10 then [] ∷ split_lines s else onto_head c (split_lines s)

-- The one carriage return that ends a line is not part of it.
unfoldable pub drop_cr : Bytes → Bytes
drop_cr [] = []
drop_cr (c ∷ []) = if c == 13 then [] else c ∷ []
drop_cr (c ∷ d ∷ s) = c ∷ drop_cr (d ∷ s)

-- ScannerBufferBytes
abbrev pub buffer : ℕ
buffer = 1024 * 1024

-- The scanner stops with an error at a line that does not fit its buffer with its newline: the
-- lines before it, and whether it came to the end.
unfoldable pub scan_lines : List Bytes → List Bytes × Bool
unfolding drop_cr
scan_lines [] = ([], true)
scan_lines (l ∷ ls) =
    let rest = scan_lines ls in
    if leb (suc (length l)) buffer then (drop_cr l ∷ rest.0, rest.1) else ([], false)

unfoldable pub scan : Bytes → List Bytes × Bool
unfolding split_lines scan_lines
scan s = scan_lines (split_lines s)

module _ {ℓ} {A : Type ℓ} where
  -- make([]A, n), with the zero value
  unfoldable pub make : ℕ → A → List A
  make zero a = []
  make (suc n) a = a ∷ make n a

  -- xs[i], which the loops below keep in range
  unfoldable pub at : List A → ℕ → A → A
  at [] i d = d
  at (x ∷ xs) zero d = x
  at (x ∷ xs) (suc i) d = at xs i d

  -- xs[i] = a
  unfoldable pub set : List A → ℕ → A → List A
  set [] i a = []
  set (x ∷ xs) zero a = a ∷ xs
  set (x ∷ xs) (suc i) a = x ∷ set xs i a

-- The loop over the lines: `ring[i%n] = line`.
unfoldable pub fill : ℕ → ℕ → List Bytes → List Bytes → List Bytes
unfolding set
fill n i [] ring = ring
fill n i (l ∷ ls) ring = fill n (suc i) ls (set ring (i % n) l)

-- The loop that copies the ring, from its oldest line on; so many lines are left.
unfoldable pub read_ring : ℕ → ℕ → List Bytes → ℕ → ℕ → List Bytes
unfolding at
read_ring n start ring zero j = []
read_ring n start ring (suc left) j =
    at ring ((start + j) % n) [] ∷ read_ring n start ring left (suc j)

unfoldable pub tail_ring : ℕ → List Bytes → List Bytes
unfolding make fill read_ring
tail_ring n lines =
    let ring = fill n 0 lines (make n []) in
    let count = length lines in
    if leb count n then take count ring else read_ring n (count % n) ring n 0

-- TailLinesReader: `none` is the scanner's error.
unfoldable pub tail_lines : Bytes → ℤ → Option (List Bytes)
unfolding tail_ring scan
tail_lines s (negsuc n) = some []
tail_lines s (pos zero) = some []
tail_lines s (pos (suc n)) =
    let (lines, whole) = scan s in if whole then some (tail_ring (suc n) lines) else none
