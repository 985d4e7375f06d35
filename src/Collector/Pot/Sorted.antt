-- ===== src/Collector/Pot/Sorted.antt =====
-- The order of the addresses that buildResult sorts.
use heartpost.Common.{
  ℕ, zero, suc, ◌≤◌, ◌≡◌, refl, ◌∙◌, inl, inr, Bool, List, [], ◌∷◌, length, take, select, All,
  All-mono, arith, Bool-cases,
}
use heartpost.Common.Text.{Text}
use heartpost.Collector.Pot.{Counts, more_hits, insert_count, sort_counts}
use heartpost.Collector.Pot.Summary.{All-take}

-- The later the entry, the smaller its count.
abbrev pub Desc : List (Text × ℕ) → Type 0
Desc [] = Unit
Desc (x ∷ xs) = All (λ y. y.1 ≤ x.1) xs × Desc xs

-- The entries of a map, each as often as there, in any order.
abbrev pub SameEntries : List (Text × ℕ) → Counts → Type 0
SameEntries xs m = (p : Text × ℕ → Bool) → length (select p xs) ≡ length (select p m)

insert_count-All :
    (P : Text × ℕ → Type 0) (e : Text × ℕ) (xs : List (Text × ℕ))
    → P e
    → All P xs
    → All P (insert_count e xs)
unfolding insert_count
insert_count-All P e [] h g = (h, tt)
insert_count-All P e (x ∷ xs) h g = elim (Bool-cases (more_hits x e)) [
  | inl more ↦ rw more (g.0, insert_count-All P e xs h g.1)
  | inr other ↦ rw other (h, g)
]

insert_count-Desc : (e : Text × ℕ) (xs : List (Text × ℕ)) → Desc xs → Desc (insert_count e xs)
unfolding insert_count
insert_count-Desc e [] h = (tt, tt)
insert_count-Desc e (x ∷ xs) h = elim (Bool-cases (more_hits x e)) [
  | inl more ↦
      rw more
        (insert_count-All (λ y. y.1 ≤ x.1) e xs (ground arith) h.0, insert_count-Desc e xs h.1)
  | inr other ↦
      let below : x.1 ≤ e.1 = ground arith in
      rw other ((below, All-mono (λ y. y.1 ≤ x.1) (λ y. y.1 ≤ e.1) xs (λ y h'. omega arith) h.0), h)
]

pub sort_counts-Desc : (xs : List (Text × ℕ)) → Desc (sort_counts xs)
unfolding sort_counts
sort_counts-Desc [] = tt
sort_counts-Desc (x ∷ xs) = insert_count-Desc x (sort_counts xs) (sort_counts-Desc xs)

select-insert_count :
    (p : Text × ℕ → Bool) (e : Text × ℕ) (xs : List (Text × ℕ))
    → length (select p (insert_count e xs)) ≡ length (select p (e ∷ xs))
unfolding insert_count
select-insert_count p e [] = refl
select-insert_count p e (x ∷ xs) = ground (arith, select-insert_count p e xs)

select-sort_counts :
    (p : Text × ℕ → Bool) (xs : List (Text × ℕ))
    → length (select p (sort_counts xs)) ≡ length (select p xs)
unfolding sort_counts
select-sort_counts p [] = refl
select-sort_counts p (x ∷ xs) =
    ground (arith, select-insert_count p x (sort_counts xs), select-sort_counts p xs)

pub sort_counts-SameEntries :
    (xs : List (Text × ℕ)) (m : Counts) → SameEntries xs m → SameEntries (sort_counts xs) m
sort_counts-SameEntries xs m same p = select-sort_counts p xs ∙ same p

pub take-Desc : (n : ℕ) (xs : List (Text × ℕ)) → Desc xs → Desc (take n xs)
take-Desc zero xs h = tt
take-Desc (suc n) [] h = tt
take-Desc (suc n) (x ∷ xs) h = (All-take (λ y. y.1 ≤ x.1) n xs h.0, take-Desc n xs h.1)
