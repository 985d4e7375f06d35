-- ===== src/Collector/Jsonl/Again.antt =====
-- A second run over the same log finds nothing new.
use heartpost.Common.{
  ◌≡◌, ◌≢◌, ◌⊎◌, refl, ap, sym, ◌∙◌, inl, inr, true, false, ◌||◌, not, Option, none, some, List, [],
  ◌∷◌, ◌++◌, map, leb, length, arith, All, Bool-cases, Option-cases, if◌then◌else◌,
}
use mathlib.Core.List.{append-nil}
use heartpost.Common.Text.{Text, text_eq_refl}
use heartpost.Common.Int.{ℤ}
use heartpost.Signature.{Bytes}
use heartpost.Collector.Tail.{scan, tail_lines}
use heartpost.Collector.Jsonl.{
  Template, Files, Os, ran, failed, has_key, or_empty, keys_of, load_seen, parse_lines, parse_tail,
  encode, append_jsonl, rotate, max_size, keep, run, is_none, log_not_read,
}
use heartpost.Collector.Jsonl.Seen.{
  parsed_keys, parse_skip, parse_dup, parse_new, keys_cons, keys_skip, parse_lines-seen,
  parse_lines-keys, has_key-append,
}
use heartpost.Collector.Jsonl.Lines.{Writes, IsJsonl, seen-append}

jsonl_of : Files → Option Bytes
jsonl_of f = f.jsonl

log_of : Files → Option Bytes
log_of f = f.log

none_is_empty : {T : Type 0} (vs : List T) → is_none vs ≡ true → vs ≡ []
none_is_empty [] h = refl
none_is_empty (v ∷ vs) h = absurd (ground arith)

module _ {T : Type 0} (c : Template T) where
  -- A batch whose keys were all seen has nothing new.
  parse_lines_old :
      (ls : List Bytes) (seen : List Text)
      → ((k : Text) → has_key k (parsed_keys c ls) ≡ true → has_key k seen ≡ true)
      → parse_lines c ls seen ≡ ([], seen)
  unfolding parse_lines
  parse_lines_old [] seen h = refl
  parse_lines_old (l ∷ ls) seen h = elim (Option-cases (c.parse_line l)) [
    | inl e ↦
        parse_skip c l ls seen e ∙ parse_lines_old ls seen (λ k g. h k (rw (keys_skip c l ls e) g))
    | inr (v, e) ↦
        let k0 = c.seen_key v in
        let more : (k : Text)
            → has_key k (parsed_keys c ls) ≡ true
            → has_key k (k0 ∷ parsed_keys c ls) ≡ true =
          λ k g. unfold has_key in ground (arith, g) in
        let first : has_key k0 (k0 ∷ parsed_keys c ls) ≡ true =
          unfold has_key in ground (arith, text_eq_refl k0) in
        parse_dup c l ls seen v e (h k0 (rw (keys_cons c l ls v e) first))
        ∙ parse_lines_old ls seen (λ k g. h k (rw (keys_cons c l ls v e) (more k g)))
  ]

  -- What a run that returns records has done.
  pub record Did (os : Os) (n : ℤ) (f f' : Files) (vs : List T) : Type 0 where
    pub log : Bytes
    pub has_log : f.log ≡ some log
    pub reads : os.reads_log ≡ true
    pub lines : List Bytes
    pub tails : tail_lines log n ≡ some lines
    pub new : vs ≡ (parse_lines c lines (load_seen c os f)).0
    pub kept : ((vs ≡ []) × (f' ≡ f)) ⊎ ((is_none vs ≡ false) × (keep c os vs f ≡ (f', ran vs)))

  -- The ways in which the two steps of keep end.
  keep-ran : (os : Os) (vs ws : List T) (f f' : Files) → keep c os vs f ≡ (f', ran ws) → ws ≡ vs
  unfolding keep
  keep-ran os vs ws f f' h = elim (Option-cases (append_jsonl c os vs f).1) [
    | inr (e, bad) ↦ absurd (ground arith)
    | inl ok ↦ elim (Option-cases (rotate c os (append_jsonl c os vs f).0).1) [
      | inr (e, bad) ↦ absurd (ground arith)
      | inl fine ↦ ground arith
    ]
  ]

  parse_tail-cases :
      (os : Os) (n : ℤ) (f : Files) (seen : List Text)
      → (parse_tail c os f n seen ≡ none)
        ⊎ ((log : Bytes) × (lines : List Bytes) × (f.log ≡ some log)
            × (os.reads_log ≡ true)
            × (tail_lines log n ≡ some lines)
            × (parse_tail c os f n seen ≡ some (parse_lines c lines seen)))
  unfolding parse_tail
  parse_tail-cases os n f seen = elim (Bool-cases os.reads_log) [
    | inr bad ↦ inl (rw bad refl)
    | inl good ↦ elim (Option-cases f.log) [
      | inl e ↦ inl (rw (good, e) refl)
      | inr (log, e) ↦ elim (Option-cases (tail_lines log n)) [
        | inl t ↦ inl (rw (good, e, t) refl)
        | inr (lines, t) ↦ inr (log, lines, e, good, t, rw (good, e, t) refl)
      ]
    ]
  ]

  run_failed :
      (os : Os) (n : ℤ) (f : Files)
      → parse_tail c os f n (load_seen c os f) ≡ none
      → run c os n f ≡ (f, failed log_not_read)
  unfolding run
  run_failed os n f e = ground arith

  run_parsed :
      (os : Os) (n : ℤ) (f : Files) (vs : List T) (seen : List Text)
      → parse_tail c os f n (load_seen c os f) ≡ some (vs, seen)
      → run c os n f ≡ (if is_none vs then (f, ran []) else keep c os vs f)
  unfolding run
  run_parsed os n f vs seen e = ground arith

  run-Did :
      (os : Os) (n : ℤ) (f f' : Files) (vs : List T)
      → run c os n f ≡ (f', ran vs)
      → Did os n f f' vs
  run-Did os n f f' vs h = elim (parse_tail-cases os n f (load_seen c os f)) [
    | inl e ↦ absurd (ground (arith, run_failed os n f e))
    | inr (log, lines, has_log, reads, tails, e) ↦
        let (new, seen) = parse_lines c lines (load_seen c os f) in
        let ends = run_parsed os n f new seen e in
        elim (Bool-cases (is_none new)) [
          | inl empty ↦
              (let nothing : new ≡ [] = none_is_empty new empty in
                let same : vs ≡ [] = ground (arith, ends) in
                record {
                  log = log;
                  has_log = has_log;
                  reads = reads;
                  lines = lines;
                  tails = tails;
                  new = same ∙ sym nothing;
                  kept = inl (same, ground (arith, ends));
                })
          | inr some_new ↦
              (let did : keep c os new f ≡ (f', ran vs) = ground (arith, ends) in
                let same = keep-ran os new vs f f' did in
                record {
                  log = log;
                  has_log = has_log;
                  reads = reads;
                  lines = lines;
                  tails = tails;
                  new = same;
                  kept = inr (ap is_none same ∙ some_new, ap (λ ws. keep c os ws f) same ∙ did);
                })
        ]
  ]

  -- A run that kept new records, and after which the file is there, has appended them.
  keep_appended :
      (os : Os) (vs : List T) (f f' : Files)
      → is_none vs ≡ false
      → keep c os vs f ≡ (f', ran vs)
      → f'.jsonl ≢ none
      → (f'.jsonl ≡ some (or_empty f.jsonl ++ encode c vs)) × (f'.log ≡ f.log)
  unfolding keep append_jsonl rotate jsonl_of log_of
  keep_appended os vs f f' full did there =
      let s = or_empty f.jsonl ++ encode c vs in
      let g : Files = record f { jsonl = some s } in
      elim (Bool-cases os.opens) [
        | inr shut ↦ absurd (ground arith)
        | inl opens ↦ elim (Option-cases os.short_write) [
          | inr (k, short) ↦ absurd (ground arith)
          | inl whole ↦ elim (Bool-cases (not os.stats || leb (length s) (max_size c))) [
            | inl stays ↦
                (let same : g ≡ f' = ground arith in (ap jsonl_of (sym same), ap log_of (sym same)))
            | inr big ↦ elim (Bool-cases os.renames) [
              | inl moved ↦
                  (let gone : f' ≡ record g { jsonl = none; rotated = some s } = ground arith in
                    absurd (there (ap jsonl_of gone)))
              | inr stuck ↦ absurd (ground arith)
            ]
          ]
        ]
      ]

  parse_tail_ok :
      (os : Os) (n : ℤ) (f : Files) (seen : List Text) (log : Bytes) (lines : List Bytes)
      → f.log ≡ some log
      → os.reads_log ≡ true
      → tail_lines log n ≡ some lines
      → parse_tail c os f n seen ≡ some (parse_lines c lines seen)
  unfolding parse_tail
  parse_tail_ok os n f seen log lines has_log reads tails = rw (reads, has_log, tails) refl

  -- A run over a log whose keys were all seen.
  run_old :
      (os : Os) (n : ℤ) (f : Files) (log : Bytes) (lines : List Bytes)
      → f.log ≡ some log
      → os.reads_log ≡ true
      → tail_lines log n ≡ some lines
      → ((k : Text) → has_key k (parsed_keys c lines) ≡ true → has_key k (load_seen c os f) ≡ true)
      → run c os n f ≡ (f, ran [])
  run_old os n f log lines has_log reads tails old =
      let parsed : parse_tail c os f n (load_seen c os f)
          ≡ some (parse_lines c lines (load_seen c os f)) =
        parse_tail_ok os n f (load_seen c os f) log lines has_log reads tails in
      run_parsed os n f [] (load_seen c os f)
        (parsed ∙ ap some (parse_lines_old lines (load_seen c os f) old))

  load_seen_read :
      (os : Os) (f : Files)
      → os.reads_jsonl ≡ true
      → load_seen c os f ≡ keys_of c (scan (or_empty f.jsonl)).0
  unfolding load_seen
  load_seen_read os f e = rw e refl

  covered :
      (k : Text) (lines : List Bytes) (seen : List Text) (vs : List T)
      → vs ≡ (parse_lines c lines seen).0
      → has_key k (parsed_keys c lines) ≡ true
      → has_key k (seen ++ map c.seen_key vs) ≡ true
  covered k lines seen vs new h =
      let seen_now = parse_lines-seen c k lines seen in
      let all_keys = parse_lines-keys c k lines seen in
      rw (new, has_key-append k seen (map c.seen_key (parse_lines c lines seen).0))
        (ground (arith, seen_now, all_keys, h))

  -- After a run over a well-formed file that writes its records and does not rotate the file away,
  -- another run over the same log returns nothing new and changes no file.
  pub run_again :
      (os os' : Os) (n : ℤ) (f f' : Files) (vs : List T)
      → IsJsonl c (or_empty f.jsonl)
      → All (Writes c) vs
      → os.reads_jsonl ≡ true
      → os'.reads_jsonl ≡ true
      → os'.reads_log ≡ true
      → run c os n f ≡ (f', ran vs)
      → f'.jsonl ≢ none
      → run c os' n f' ≡ (f', ran [])
  unfolding log_of
  run_again os os' n f f' vs good w reads reads' reads_log h there =
      let d = run-Did os n f f' vs h in
      let before = load_seen_read os f reads in
      let after = load_seen_read os' f' reads' in
      let known : (k : Text)
          → has_key k (parsed_keys c d.lines) ≡ true
          → has_key k (load_seen c os f ++ map c.seen_key vs) ≡ true =
        λ k g. covered k d.lines (load_seen c os f) vs d.new g in
      elim d.kept [
        | inl (empty, same) ↦
            let seen : load_seen c os' f' ≡ load_seen c os f ++ map c.seen_key vs =
              rw (after, before, same, empty) (sym (append-nil _)) in
            run_old os' n f' d.log d.lines (ap log_of same ∙ d.has_log) reads_log d.tails
              (λ k g. rw seen (known k g))
        | inr (full, did) ↦
            let (whole, log) = keep_appended os vs f f' full did there in
            let seen : load_seen c os' f' ≡ load_seen c os f ++ map c.seen_key vs =
              rw (after, before, whole) (seen-append c (or_empty f.jsonl) vs good w).1 in
            run_old os' n f' d.log d.lines (log ∙ d.has_log) reads_log d.tails
              (λ k g. rw seen (known k g))
      ]

  parse_lines-parsed :
      (ls : List Bytes) (seen : List Text)
      → All (λ v. (l : Bytes) × (c.parse_line l ≡ some v)) (parse_lines c ls seen).0
  unfolding parse_lines
  parse_lines-parsed [] seen = tt
  parse_lines-parsed (l ∷ ls) seen = elim (Option-cases (c.parse_line l)) [
    | inl e ↦ rw (parse_skip c l ls seen e) (parse_lines-parsed ls seen)
    | inr (v, e) ↦ elim (Bool-cases (has_key (c.seen_key v) seen)) [
      | inl dup ↦ rw (parse_dup c l ls seen v e dup) (parse_lines-parsed ls seen)
      | inr new ↦
          rw (parse_new c l ls seen v e new) ((l, e), parse_lines-parsed ls (c.seen_key v ∷ seen))
    ]
  ]

  -- What a run returns are records of lines.
  pub run-parsed :
      (os : Os) (n : ℤ) (f : Files) (vs : List T)
      → (run c os n f).1 ≡ ran vs
      → All (λ v. (l : Bytes) × (c.parse_line l ≡ some v)) vs
  run-parsed os n f vs h =
      let d = run-Did os n f (run c os n f).0 vs (λ i. ((run c os n f).0, h i)) in
      rw d.new (parse_lines-parsed d.lines (load_seen c os f))
