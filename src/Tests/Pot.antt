-- ===== src/Tests/Pot.antt =====
-- The honeypot's log of three requests, read and summed up.
use heartpost.Common.{
  ℕ, ◌≡◌, refl, Bool, false, none, some, List, [], ◌∷◌, arith, if◌then◌else◌, length, select,
}
use heartpost.Common.Text.{Text, codes, text_eq}
use heartpost.Common.Int.{pos}
use heartpost.Collector.Pot.{
  HpRecord, World, Counts, present, missing, count_by, build_result, sort_counts, collect_pot,
  summed, count_key, records_of, is_recent,
}
use heartpost.Collector.Pot.Ranked.{IsRight, build_result-IsRight}
use heartpost.Collector.Tail.{split_lines, drop_cr}

abbrev hit : Text → Text → HpRecord
hit ip trigger = record {
  schema = codes "honeypot.v1";
  ts = [];
  ip = ip;
  method = codes "GET";
  path = codes "/";
  query = [];
  trigger = trigger;
  is_whitelisted = false;
  headers = [];
  post_body = [];
  dedupe_key = [];
}

-- A loop that meets the first two entries the other way round.
abbrev exchange : Counts → List (Text × ℕ)
exchange (a ∷ (b ∷ m)) = b ∷ (a ∷ m)
exchange m = m

-- A line is the address of a request for WordPress.
abbrev world : World
world = record {
  stat = λ path. if text_eq path (codes "/pot.jsonl") then present else missing;
  read_dir = λ path. none;
  read_file = λ path. some (codes "a\nb\nb\n");
  unmarshal = λ line. some (hit line (codes "wordpress"));
  parse_time = λ ts. some 5;
  cutoff = λ days. 5;
  ranged = exchange;
}

abbrev three : List HpRecord
three =
    hit (codes "a") (codes "wordpress")
    ∷ hit (codes "b") (codes "wordpress")
    ∷ hit (codes "b") (codes "wordpress")
    ∷ []

two_counts : count_by (λ r. r.ip) three [] ≡ (codes "a", 1) ∷ (codes "b", 2) ∷ []
unfolding count_by count_key text_eq
two_counts = refl

exchange-length :
    (a b : Text × ℕ) (p : Text × ℕ → Bool)
    → length (select p (b ∷ a ∷ [])) ≡ length (select p (a ∷ b ∷ []))
exchange-length a b p = ground arith

build_result-IsRight_example : IsRight three (build_result world three (pos 7) (codes "/pot.jsonl"))
build_result-IsRight_example =
    build_result-IsRight world three (pos 7) (codes "/pot.jsonl")
      (rw two_counts (exchange-length (codes "a", 1) (codes "b", 2)))

collected :
    collect_pot world
      (record { jsonl_path = codes "/pot.jsonl"; data_dir = []; honeypot_days = pos 7 })
    ≡ summed (build_result world three (pos 7) (codes "/pot.jsonl"))
unfolding collect_pot text_eq split_lines records_of is_recent drop_cr
collected = refl

-- Both orders of the loop come out sorted.
three_sorted :
    sort_counts ((codes "a", 1) ∷ (codes "b", 2) ∷ [])
      ∷ sort_counts ((codes "b", 2) ∷ (codes "a", 1) ∷ [])
      ∷ []
    ≡ ((codes "b", 2) ∷ (codes "a", 1) ∷ []) ∷ ((codes "b", 2) ∷ (codes "a", 1) ∷ []) ∷ []
unfolding sort_counts
three_sorted = refl
