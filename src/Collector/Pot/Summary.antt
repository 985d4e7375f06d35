-- ===== src/Collector/Pot/Summary.antt =====
-- What the summary of the honeypot's log says of the records.
use heartpost.Common.{
  ℕ, zero, suc, ◌+◌, ◌-◌, ◌≤◌, ◌≡◌, refl, sym, ap, ◌∙◌, inl, inr, Bool, false, some, List, [], ◌∷◌,
  ◌++◌, length, take, drop, select, All, All-mono, ◌==◌, not, arith, Bool-cases, if◌then◌else◌,
}
use heartpost.Common.Text.{Text, text_eq, text_eq_iff, text_eq_refl, is_empty}
use heartpost.Common.Assoc.{lookup, insert, lookup-insert, WellKeyed}
use heartpost.Collector.Pot.{HpRecord, Counts, or_zero, count_key, count_by}

abbrev pub has_key_of : (HpRecord → Text) → Text → HpRecord → Bool
has_key_of key k r = text_eq (key r) k

bump-lookup :
    (k j : Text) (counts : Counts)
    → or_zero (lookup j (insert k (suc (or_zero (lookup k counts))) counts))
      ≡ (if text_eq k j then suc (or_zero (lookup j counts)) else or_zero (lookup j counts))
bump-lookup k j counts =
    let put = lookup-insert k j (suc (or_zero (lookup k counts))) counts in
    elim (Bool-cases (text_eq k j)) [
      | inr other ↦ rw (put, other) refl
      | inl same ↦
          rw (put, same) (ap (λ i. suc (or_zero (lookup i counts))) ((text_eq_iff k j).0 same))
    ]

count_key-lookup :
    (k j : Text) (counts : Counts)
    → is_empty j ≡ false
    → or_zero (lookup j (count_key k counts))
      ≡ (if text_eq k j then suc (or_zero (lookup j counts)) else or_zero (lookup j counts))
unfolding count_key text_eq
count_key-lookup [] [] counts named = ground arith
count_key-lookup [] (d ∷ j) counts named = refl
count_key-lookup (c ∷ k) j counts named = bump-lookup (c ∷ k) j counts

pub count_by-lookup :
    (key : HpRecord → Text) (k : Text) (rs : List HpRecord) (counts : Counts)
    → is_empty k ≡ false
    → or_zero (lookup k (count_by key rs counts))
      ≡ or_zero (lookup k counts) + length (select (has_key_of key k) rs)
unfolding count_by
count_by-lookup key k [] counts named = omega arith
count_by-lookup key k (r ∷ rs) counts named =
    let ih = count_by-lookup key k rs (count_key (key r) counts) named in
    let one = count_key-lookup (key r) k counts named in
    elim (Bool-cases (text_eq (key r) k)) [
      | inl same ↦ rw (ih, one, same) (omega arith)
      | inr other ↦ rw (ih, one, other) (omega arith)
    ]

-- The entries of the counts have keys that are not empty and counts that are not 0, and no key stands
-- twice.
abbrev pub HasNames : Counts → Type 0
HasNames = WellKeyed (λ k n. (is_empty k ≡ false) × (1 ≤ n))

insert-HasNames :
    (k : Text) (n : ℕ) (m : Counts)
    → (is_empty k ≡ false) × (1 ≤ n)
    → HasNames m
    → HasNames (insert k n m)
unfolding insert lookup
insert-HasNames k n [] h w = (h, refl, tt)
insert-HasNames k n ((j, x) ∷ m) h w =
    ground
      (arith, text_eq_iff j k, text_eq_iff k j, lookup-insert k j n m, insert-HasNames k n m h w.2)

count_key-HasNames : (k : Text) (m : Counts) → HasNames m → HasNames (count_key k m)
unfolding count_key
count_key-HasNames [] m w = w
count_key-HasNames (c ∷ k) m w =
    insert-HasNames (c ∷ k) (suc (or_zero (lookup (c ∷ k) m))) m (refl, omega arith) w

pub count_by-HasNames :
    (key : HpRecord → Text) (rs : List HpRecord) (m : Counts)
    → HasNames m
    → HasNames (count_by key rs m)
unfolding count_by
count_by-HasNames key [] m w = w
count_by-HasNames key (r ∷ rs) m w =
    count_by-HasNames key rs (count_key (key r) m) (count_key-HasNames (key r) m w)

entries-All :
    (f : Text → ℕ) (m : Counts)
    → HasNames m
    → ((k : Text) (n : ℕ) → is_empty k ≡ false → lookup k m ≡ some n → n ≡ f k)
    → All (λ e. e.1 ≡ f e.0) m
unfolding lookup
entries-All f [] w h = tt
entries-All f ((k, v) ∷ m) w h = (
  h k v w.0.0 (rw (text_eq_refl k) refl),
  entries-All f m w.2 (λ j n named found. h j n named (ground (arith, text_eq_iff k j))),
)

-- How many of the records have a key.
abbrev pub hits : (HpRecord → Text) → List HpRecord → Text → ℕ
hits key rs k = length (select (has_key_of key k) rs)

pub count_by-All :
    (key : HpRecord → Text) (rs : List HpRecord)
    → All (λ e. e.1 ≡ hits key rs e.0) (count_by key rs [])
unfolding lookup
count_by-All key rs =
    entries-All (hits key rs) (count_by key rs []) (count_by-HasNames key rs [] tt)
      (λ k n named found.
        let whole = count_by-lookup key k rs [] named in
        sym (ap or_zero found) ∙ whole ∙ (omega arith))

abbrev pub key_is : Text → Text × ℕ → Bool
key_is k e = text_eq e.0 k

module _ {ℓ} {A : Type ℓ} where
  pub take-drop : (n : ℕ) (xs : List A) → xs ≡ take n xs ++ drop n xs
  take-drop zero xs = refl
  take-drop (suc n) [] = refl
  take-drop (suc n) (x ∷ xs) = ap (λ ys. x ∷ ys) (take-drop n xs)

  pub length-drop : (n : ℕ) (xs : List A) → length (drop n xs) ≡ length xs - n
  length-drop zero xs = omega arith
  length-drop (suc n) [] = omega arith
  length-drop (suc n) (x ∷ xs) = let rest = length-drop n xs in omega arith

  pub select-take-drop :
      (p : A → Bool) (n : ℕ) (xs : List A)
      → length (select p xs) ≡ length (select p (take n xs)) + length (select p (drop n xs))
  select-take-drop p zero xs = omega arith
  select-take-drop p (suc n) [] = omega arith
  select-take-drop p (suc n) (x ∷ xs) = ground (arith, select-take-drop p n xs)

  -- What the members of one list satisfy, those of a list with the same members do.
  none_selected :
      (p : A → Bool) (xs : List A) → All (λ x. p x ≡ false) xs → length (select p xs) ≡ 0
  none_selected p [] h = refl
  none_selected p (x ∷ xs) h = ground (arith, none_selected p xs h.1)

  pub none_selected_All :
      (p : A → Bool) (xs : List A) → length (select p xs) ≡ 0 → All (λ x. p x ≡ false) xs
  none_selected_All p [] h = tt
  none_selected_All p (x ∷ xs) h = (ground arith, none_selected_All p xs (ground arith))

-- A count is wrong if it is not that of the records.
abbrev pub is_wrong : (Text → ℕ) → Text × ℕ → Bool
is_wrong f e = not (e.1 == f e.0)

right_of : (f : Text → ℕ) (e : Text × ℕ) → is_wrong f e ≡ false → e.1 ≡ f e.0
right_of f e h = ground arith

wrong_of : (f : Text → ℕ) (e : Text × ℕ) → e.1 ≡ f e.0 → is_wrong f e ≡ false
wrong_of f e h = ground arith

pub ordered-All :
    (f : Text → ℕ) (xs : List (Text × ℕ)) (m : Counts)
    → ((p : Text × ℕ → Bool) → length (select p xs) ≡ length (select p m))
    → All (λ e. e.1 ≡ f e.0) m
    → All (λ e. e.1 ≡ f e.0) xs
ordered-All f xs m same h =
    let no_wrong : length (select (is_wrong f) m) ≡ 0 =
      none_selected (is_wrong f) m
        (All-mono (λ e. e.1 ≡ f e.0) (λ e. is_wrong f e ≡ false) m (wrong_of f) h) in
    All-mono (λ e. is_wrong f e ≡ false) (λ e. e.1 ≡ f e.0) xs (right_of f)
      (none_selected_All (is_wrong f) xs (same (is_wrong f) ∙ no_wrong))

pub All-take : (P : Text × ℕ → Type 0) (n : ℕ) (xs : List (Text × ℕ)) → All P xs → All P (take n xs)
All-take P zero xs h = tt
All-take P (suc n) [] h = tt
All-take P (suc n) (x ∷ xs) h = (h.0, All-take P n xs h.1)

pub All-drop : (P : Text × ℕ → Type 0) (n : ℕ) (xs : List (Text × ℕ)) → All P xs → All P (drop n xs)
All-drop P zero xs h = h
All-drop P (suc n) [] h = tt
All-drop P (suc n) (x ∷ xs) h = All-drop P n xs h.1
