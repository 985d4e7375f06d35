-- ===== src/Collector/Jsonl/Lines.antt =====
-- A JSONL file reads back line by line.
use heartpost.Common.{
  suc, ◌≡◌, ◌≤◌, refl, sym, true, false, some, List, [], ◌∷◌, ◌++◌, ◌==◌, map, length, arith, All,
  All-append,
}
use mathlib.Core.List.{append_assoc}
use heartpost.Signature.{Bytes}
use heartpost.Collector.Tail.{split_lines, scan_lines, scan, drop_cr, buffer}
use heartpost.Collector.Jsonl.{Template, keys_of, encode}

-- A line that the scanner gives back as it is.
abbrev pub IsLine : Bytes → Type 0
IsLine l = All (λ c. (c == 10) ≡ false) l × (drop_cr l ≡ l) × (suc (length l) ≤ buffer)

abbrev pub unlines : List Bytes → Bytes
unlines [] = []
unlines (l ∷ ls) = l ++ 10 ∷ unlines ls

split-line :
    (l rest : Bytes)
    → All (λ c. (c == 10) ≡ false) l
    → split_lines (l ++ 10 ∷ rest) ≡ l ∷ split_lines rest
unfolding split_lines
split-line [] rest h = refl
split-line (c ∷ l) rest h = rw (h.0, split-line l rest h.1) refl

split-unlines : (ls : List Bytes) → All IsLine ls → split_lines (unlines ls) ≡ ls
unfolding split_lines
split-unlines [] h = refl
split-unlines (l ∷ ls) h = rw (split-line l (unlines ls) h.0.0, split-unlines ls h.1) refl

scan_lines-IsLine : (ls : List Bytes) → All IsLine ls → scan_lines ls ≡ (ls, true)
unfolding scan_lines
scan_lines-IsLine [] h = refl
scan_lines-IsLine (l ∷ ls) h = ground (arith, h.0, scan_lines-IsLine ls h.1)

pub scan-unlines : (ls : List Bytes) → All IsLine ls → scan (unlines ls) ≡ (ls, true)
unfolding scan
scan-unlines ls h = rw (split-unlines ls h) (scan_lines-IsLine ls h)

pub unlines-append : (xs ys : List Bytes) → unlines (xs ++ ys) ≡ unlines xs ++ unlines ys
unlines-append [] ys = refl
unlines-append (l ∷ xs) ys =
    rw (unlines-append xs ys) (sym (append_assoc l (10 ∷ unlines xs) (unlines ys)))

module _ {T : Type 0} (c : Template T) where
  -- The record's JSON is one line, and reads back as a record with the same key.
  pub record Writes (v : T) : Type 0 where
    pub line : Bytes
    pub marshals : c.marshal v ≡ some line
    pub is_line : IsLine line
    pub back : T
    pub reads : c.unmarshal line ≡ some back
    pub same_key : c.seen_key back ≡ c.seen_key v

  abbrev lines_of : (vs : List T) → All Writes vs → List Bytes
  lines_of [] w = []
  lines_of (v ∷ vs) w = w.0.line ∷ lines_of vs w.1

  encode-cons :
      (v : T) (vs : List T) (b : Bytes)
      → c.marshal v ≡ some b
      → encode c (v ∷ vs) ≡ b ++ 10 ∷ encode c vs
  unfolding encode
  encode-cons v vs b e = ground arith

  encode-unlines : (vs : List T) (w : All Writes vs) → encode c vs ≡ unlines (lines_of vs w)
  unfolding encode
  encode-unlines [] w = refl
  encode-unlines (v ∷ vs) w =
      rw (encode-cons v vs w.0.line w.0.marshals, encode-unlines vs w.1) refl

  lines_of-IsLine : (vs : List T) (w : All Writes vs) → All IsLine (lines_of vs w)
  lines_of-IsLine [] w = tt
  lines_of-IsLine (v ∷ vs) w = (w.0.is_line, lines_of-IsLine vs w.1)

  keys-lines_of : (vs : List T) (w : All Writes vs) → keys_of c (lines_of vs w) ≡ map c.seen_key vs
  unfolding keys_of
  keys-lines_of [] w = refl
  keys-lines_of (v ∷ vs) w = rw (w.0.reads, w.0.same_key, keys-lines_of vs w.1) refl

  keys_of-append : (xs ys : List Bytes) → keys_of c (xs ++ ys) ≡ keys_of c xs ++ keys_of c ys
  unfolding keys_of
  keys_of-append [] ys = refl
  keys_of-append (l ∷ xs) ys = ground (arith, keys_of-append xs ys)

  -- A file of whole lines, as every run leaves it.
  abbrev pub IsJsonl : Bytes → Type 0
  IsJsonl s = (ls : List Bytes) × All IsLine ls × (s ≡ unlines ls)

  -- After new records are appended, the keys that are read are those before and those of the records.
  pub seen-append :
      (s : Bytes) (vs : List T)
      → IsJsonl s
      → All Writes vs
      → IsJsonl (s ++ encode c vs)
        × (keys_of c (scan (s ++ encode c vs)).0 ≡ keys_of c (scan s).0 ++ map c.seen_key vs)
  seen-append s vs (ls, good, e) w =
      let bs = lines_of vs w in
      let both : All IsLine (ls ++ bs) = All-append IsLine ls bs good (lines_of-IsLine vs w) in
      let whole : s ++ encode c vs ≡ unlines (ls ++ bs) =
        rw (e, encode-unlines vs w) (sym (unlines-append ls bs)) in
      (
        (ls ++ bs, both, whole),
        rw
            (
              whole,
              e,
              scan-unlines (ls ++ bs) both,
              scan-unlines ls good,
              keys_of-append ls bs,
              keys-lines_of vs w,
            )
            refl,
      )
