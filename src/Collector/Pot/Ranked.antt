-- ===== src/Collector/Pot/Ranked.antt =====
-- The addresses that the summary names, and the records that it keeps.
use heartpost.Common.{
  ℕ, zero, suc, ◌-◌, ◌≤◌, ◌≡◌, ◌⊎◌, refl, sym, ap, ◌∙◌, none, inl, inr, min, Bool, true, List, [],
  ◌∷◌, ◌++◌, length, take, drop, select, All, All-mono, leb, arith, Bool-cases,
}
use heartpost.Common.Text.{Text, text_eq_iff}
use heartpost.Common.Assoc.{lookup}
use heartpost.Common.Int.{ℤ}
use heartpost.Collector.Pot.{
  HpRecord, CollectResult, Counts, World, or_zero, count_by, sort_counts, last_of, build_result,
}
use heartpost.Collector.Pot.Sorted.{
  Desc, SameEntries, sort_counts-Desc, sort_counts-SameEntries, take-Desc,
}
use heartpost.Collector.Pot.Summary.{
  HasNames, count_by-HasNames, key_is, hits, take-drop, length-drop, select-take-drop, ordered-All,
  All-take, All-drop, count_by-All, count_by-lookup,
}

all_tt : {A : Type 0} (xs : List A) → All (λ x. Unit {0}) xs
all_tt [] = tt
all_tt (x ∷ xs) = (tt, all_tt xs)

All-both :
    {A : Type 0} (P Q : A → Type 0) (xs : List A) → All P xs → All Q xs → All (λ x. P x × Q x) xs
All-both P Q [] h g = tt
All-both P Q (x ∷ xs) h g = ((h.0, g.0), All-both P Q xs h.1 g.1)

-- What is left out is no larger than what is taken.
Desc-drop :
    (n : ℕ) (xs : List (Text × ℕ))
    → Desc xs
    → All (λ y. All (λ x. y.1 ≤ x.1) (take n xs)) (drop n xs)
Desc-drop zero xs h = all_tt xs
Desc-drop (suc n) [] h = tt
Desc-drop (suc n) (x ∷ xs) h =
    All-both (λ y. y.1 ≤ x.1) (λ y. All (λ z. y.1 ≤ z.1) (take n xs)) (drop n xs)
      (All-drop (λ y. y.1 ≤ x.1) n xs h.0) (Desc-drop n xs h.1)

-- One of the entries that a test selects.
selected :
    (P : Text × ℕ → Type 0) (p : Text × ℕ → Bool) (xs : List (Text × ℕ))
    → 1 ≤ length (select p xs)
    → All P xs
    → (e : Text × ℕ) × (p e ≡ true) × P e
selected P p [] h g = ground arith
selected P p (x ∷ xs) h g = elim (Bool-cases (p x)) [
  | inl it ↦ (x, it, g.0)
  | inr not_it ↦ selected P p xs (rw not_it at h) g.1
]

found_selected :
    (k : Text) (m : Counts) → 1 ≤ or_zero (lookup k m) → 1 ≤ length (select (key_is k) m)
unfolding lookup
found_selected k [] h = h
found_selected k ((j, v) ∷ m) h = ground (arith, found_selected k m)

-- An address stands among the first entries, or it has no more hits than each of them.
module _ (f : Text → ℕ) (xs : List (Text × ℕ)) (m : Counts) where
  abbrev LowEntry : ℕ → Text × ℕ → Type 0
  LowEntry n e = (e.1 ≡ f e.0) × All (λ x. e.1 ≤ x.1) (take n xs)

  left_out :
      (n : ℕ) (j : Text)
      → ((e : Text × ℕ) × (key_is j e ≡ true) × LowEntry n e)
      → All (λ x. f j ≤ x.1) (take n xs)
  left_out n j (e, is, (counts, least)) =
      let named : e.0 ≡ j = (text_eq_iff e.0 j).0 is in
      All-mono (λ x. e.1 ≤ x.1) (λ x. f j ≤ x.1) (take n xs)
        (λ x below. rw (← named, ← counts) below) least

  ranked :
      (n : ℕ) (k : Text)
      → SameEntries xs m
      → Desc xs
      → All (λ e. e.1 ≡ f e.0) xs
      → or_zero (lookup k m) ≡ f k
      → (1 ≤ length (select (key_is k) (take n xs))) ⊎ All (λ e. f k ≤ e.1) (take n xs)
  ranked n k same desc right count =
      elim (Bool-cases (leb 1 (length (select (key_is k) (take n xs))))) [
        | inl taken ↦ inl (ground arith)
        | inr missing ↦ elim (Bool-cases (leb 1 (f k))) [
          | inr no_hits ↦ inr (
              All-mono (λ e. Unit {0}) (λ e. f k ≤ e.1) (take n xs) (λ e _. ground arith)
                (all_tt (take n xs)))
          | inl some_hits ↦
              let stands : 1 ≤ length (select (key_is k) m) = found_selected k m (ground arith) in
              let all = same (key_is k) in
              let parts = select-take-drop (key_is k) n xs in
              let dropped : 1 ≤ length (select (key_is k) (drop n xs)) = ground arith in
              inr (
                left_out n k (
                  selected (LowEntry n) (key_is k) (drop n xs) dropped (
                    All-both (λ e. e.1 ≡ f e.0) (λ y. All (λ x. y.1 ≤ x.1) (take n xs)) (drop n xs)
                      (All-drop (λ e. e.1 ≡ f e.0) n xs right) (Desc-drop n xs desc))))
        ]
      ]

counted :
    (key : HpRecord → Text) (rs : List HpRecord) (c : ℕ) (k : Text)
    → or_zero (lookup (c ∷ k) (count_by key rs [])) ≡ hits key rs (c ∷ k)
unfolding lookup
counted key rs c k = count_by-lookup key (c ∷ k) rs [] refl ∙ (omega arith)

not_listed : (k : Text) (m : Counts) → lookup k m ≡ none → length (select (key_is k) m) ≡ 0
unfolding lookup
not_listed k [] h = refl
not_listed k ((j, v) ∷ m) h = ground (arith, not_listed k m)

key_once : (k : Text) (m : Counts) → HasNames m → length (select (key_is k) m) ≤ 1
unfolding lookup
key_once k [] w = omega arith
key_once k ((j, v) ∷ m) w = ground (arith, text_eq_iff j k, not_listed k m, key_once k m w.2)

length-take : {A : Type 0} (n : ℕ) (xs : List A) → length (take n xs) ≡ min n (length xs)
length-take zero xs = omega arith
length-take (suc n) [] = omega arith
length-take (suc n) (x ∷ xs) = let rest = length-take n xs in omega arith

every : Text × ℕ → Bool
every e = true

length-every : (xs : List (Text × ℕ)) → length (select every xs) ≡ length xs
unfolding every
length-every [] = refl
length-every (x ∷ xs) = ap suc (length-every xs)

SameEntries-length : (xs : List (Text × ℕ)) (m : Counts) → SameEntries xs m → length xs ≡ length m
SameEntries-length xs m same = sym (length-every xs) ∙ same every ∙ length-every m

first_ten_once :
    (k : Text) (xs : List (Text × ℕ)) (m : Counts)
    → SameEntries xs m
    → HasNames m
    → length (select (key_is k) (take 10 xs)) ≤ 1
first_ten_once k xs m same w =
    let whole = same (key_is k) in
    let once = key_once k m w in let parts = select-take-drop (key_is k) 10 xs in omega arith

abbrev ip_counts : List HpRecord → Counts
ip_counts rs = count_by (λ r. r.ip) rs []

-- What a summary says of the records. The addresses are the keys of a map that has every address
-- that was hit, and no other, once.
pub record IsRight (rs : List HpRecord) (s : CollectResult) : Type 0 where
  pub triggers :
      (c : ℕ) (k : Text)
      → or_zero (lookup (c ∷ k) s.trigger_counts) ≡ hits (λ r. r.trigger) rs (c ∷ k)
  pub total : s.total_hits ≡ length rs
  pub addresses :
      (m : Counts) × HasNames m
      × ((c : ℕ) (k : Text) → or_zero (lookup (c ∷ k) m) ≡ hits (λ r. r.ip) rs (c ∷ k))
      × (s.unique_ips ≡ length m)
  pub top_kept : length s.top_ips ≡ min 10 s.unique_ips
  pub top_descends : Desc s.top_ips
  pub top_once : (k : Text) → length (select (key_is k) s.top_ips) ≤ 1
  pub counts_of_top : All (λ e. e.1 ≡ hits (λ r. r.ip) rs e.0) s.top_ips
  pub top :
      (c : ℕ) (k : Text)
      → (1 ≤ length (select (key_is (c ∷ k)) s.top_ips))
        ⊎ All (λ e. hits (λ r. r.ip) rs (c ∷ k) ≤ e.1) s.top_ips
  pub latest : (older : List HpRecord) × (rs ≡ older ++ s.events)
  pub events_kept : length s.events ≡ min 200 (length rs)
  pub recent : (older : List HpRecord) × (rs ≡ older ++ s.recent_hits)
  pub recent_kept : length s.recent_hits ≡ min 20 (length rs)

last_of-append :
    (n : ℕ) (rs : List HpRecord) → (older : List HpRecord) × (rs ≡ older ++ last_of n rs)
unfolding last_of
last_of-append n rs = (take (length rs - n) rs, take-drop (length rs - n) rs)

length-last_of : (n : ℕ) (rs : List HpRecord) → length (last_of n rs) ≡ min n (length rs)
unfolding last_of
length-last_of n rs = let rest = length-drop (length rs - n) rs in omega arith

-- Where the loop over the map of addresses gives its entries, each once, in whatever order, the
-- summary counts all records, the records of each trigger and the addresses that were hit; it names
-- ten of these, or all of fewer, each once, with as many hits as it says, the most first, and an
-- address that it does not name has no more hits than any of them; its events and its recent hits
-- are the last 200 and the last 20 of the records, or all of fewer.
pub build_result-IsRight :
    (w : World) (rs : List HpRecord) (days : ℤ) (path : Text)
    → SameEntries (w.ranged (count_by (λ r. r.ip) rs [])) (count_by (λ r. r.ip) rs [])
    → IsRight rs (build_result w rs days path)
unfolding build_result
build_result-IsRight w rs days path ranges =
    let m = ip_counts rs in
    let xs = sort_counts (w.ranged m) in
    let same = sort_counts-SameEntries (w.ranged m) m ranges in
    let desc = sort_counts-Desc (w.ranged m) in
    let named = count_by-HasNames (λ r. r.ip) rs [] tt in
    let right = ordered-All (hits (λ r. r.ip) rs) xs m same (count_by-All (λ r. r.ip) rs) in
    record {
      triggers = λ c k. counted (λ r. r.trigger) rs c k;
      total = refl;
      addresses = (m, named, (λ c k. counted (λ r. r.ip) rs c k), refl);
      top_kept = length-take 10 xs ∙ ap (min 10) (SameEntries-length xs m same);
      top_descends = take-Desc 10 xs desc;
      top_once = λ k. first_ten_once k xs m same named;
      counts_of_top = All-take (λ e. e.1 ≡ hits (λ r. r.ip) rs e.0) 10 xs right;
      top = λ c k.
          ranked (hits (λ r. r.ip) rs) xs m 10 (c ∷ k) same desc right (counted (λ r. r.ip) rs c k);
      latest = last_of-append 200 rs;
      events_kept = length-last_of 200 rs;
      recent = last_of-append 20 rs;
      recent_kept = length-last_of 20 rs;
    }
