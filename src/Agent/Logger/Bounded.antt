-- ===== src/Agent/Logger/Bounded.antt =====
-- How large the log grows, and when it no longer does.
use heartpost.Common.{
  ℕ, zero, suc, ◌+◌, ◌≤◌, ◌≡◌, refl, inl, inr, true, false, some, List, [], ◌∷◌, length,
  length-append, take, All, arith, Bool-cases, Option-cases,
}
use heartpost.Common.Int.{ℤ, pos, negsuc, pos_part, ltb_ℤ}
use heartpost.Signature.{Bytes}
use heartpost.Agent.Logger.{
  RotatingWriter, Os, write_failed, write_file, write, is_full, close_file, write_all,
}

length-take : (n : ℕ) (p : Bytes) → length (take n p) ≤ length p
length-take zero p = omega arith
length-take (suc n) [] = omega arith
length-take (suc n) (c ∷ p) = let rest = length-take n p in omega arith

write_file-bound :
    (w : RotatingWriter) (os : Os) (p : Bytes)
    → length (write_file w os p).0.contents ≤ length w.contents + length p
unfolding write_file
write_file-bound w os p = elim (Bool-cases w.is_open) [
  | inr shut ↦ rw shut (omega arith)
  | inl opened ↦ elim (Option-cases os.short_write) [
    | inl whole ↦ rw (opened, whole, length-append w.contents p) (omega arith)
    | inr (n, part) ↦
        let less = length-take n p in
        rw (opened, part, length-append w.contents (take n p)) (omega arith)
  ]
]

write_file-max :
    (w : RotatingWriter) (os : Os) (p : Bytes) → (write_file w os p).0.max_size ≡ w.max_size
unfolding write_file
write_file-max w os p = elim (Bool-cases w.is_open) [
  | inr shut ↦ rw shut refl
  | inl opened ↦ elim (Option-cases os.short_write) [
    | inl whole ↦ rw (opened, whole) refl
    | inr (n, part) ↦ rw (opened, part) refl
  ]
]

closed_same :
    (w : RotatingWriter) (os : Os) (p : Bytes)
    → w.is_open ≡ false
    → (write_file w os p).0.contents ≡ w.contents
unfolding write_file
closed_same w os p shut = rw shut refl

small : (n : ℕ) (max : ℤ) → ltb_ℤ (pos n) max ≡ true → n ≤ pos_part max
small n (pos m) h = ground arith
small n (negsuc m) h = ground arith

-- What a write keeps: the size below the limit and a longest write, and the limit.
abbrev pub Fits : ℕ → RotatingWriter → Type 0
Fits b w = length w.contents ≤ pos_part w.max_size + b

write-Fits :
    (b : ℕ) (w : RotatingWriter) (os : Os) (p : Bytes)
    → os.stats ≡ true
    → length p ≤ b
    → Fits b w
    → Fits b (write w os p).0
unfolding write
write-Fits b w os p works short h = elim (Bool-cases (is_full w os)) [
  | inl full ↦ elim (Bool-cases os.reopens) [
    | inr fails ↦ rw (full, fails) h
    | inl anew ↦
        let empty = record w { contents = [] } in
        let size = write_file-bound empty os p in
        let max = write_file-max empty os p in rw (full, anew) (rw max (omega arith))
  ]
  | inr room ↦
      let size = write_file-bound w os p in
      let max = write_file-max w os p in
      rw room (
        rw max (elim (Bool-cases w.is_open) [
          | inr shut ↦ rw (closed_same w os p shut) h
          | inl opened ↦
              let under : length w.contents ≤ pos_part w.max_size =
                small (length w.contents) w.max_size (ground arith) in
              omega arith
        ]))
]

-- A log that is not above its limit by more than the longest write stays so over any run of writes,
-- whatever fails of them, as long as its size can be read.
pub write_all-Fits :
    (b : ℕ) (w : RotatingWriter) (ps : List (Os × Bytes))
    → All (λ x. (x.0.stats ≡ true) × (length x.1 ≤ b)) ps
    → Fits b w
    → Fits b (write_all w ps)
unfolding write_all
write_all-Fits b w [] each h = h
write_all-Fits b w ((os, p) ∷ ps) each h =
    write_all-Fits b (write w os p).0 ps each.1 (write-Fits b w os p each.0.0 each.0.1 h)

write_closed :
    (w : RotatingWriter) (os : Os) (p : Bytes)
    → w.is_open ≡ false
    → write w os p ≡ (w, some write_failed)
unfolding write write_file
write_closed w os p shut = rw shut refl

-- A closed file stays as it is.
write_all-closed :
    (w : RotatingWriter) (ps : List (Os × Bytes)) → w.is_open ≡ false → write_all w ps ≡ w
unfolding write_all
write_all-closed w [] shut = refl
write_all-closed w ((os, p) ∷ ps) shut = rw (write_closed w os p shut) (write_all-closed w ps shut)

-- A write that finds the log full and cannot open the file anew closes it, and no later write adds
-- anything, whatever then works: only a new process logs again.
pub failed_rotation_ends :
    (w : RotatingWriter) (os : Os) (p : Bytes) (ps : List (Os × Bytes))
    → is_full w os ≡ true
    → os.reopens ≡ false
    → write_all w ((os, p) ∷ ps) ≡ close_file w
unfolding write write_all
failed_rotation_ends w os p ps full fails =
    rw (full, fails) (write_all-closed (close_file w) ps refl)
