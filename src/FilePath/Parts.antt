-- ===== src/FilePath/Parts.antt =====
-- The parts of a clean path from the root, and the directory that holds it.
use heartpost.Common.{
  ◌≡◌, refl, sym, ap, ◌∙◌, inl, inr, true, false, ◌||◌, List, [], ◌∷◌, ◌++◌, ◌==◌, ◌≤◌, ◌<◌, length,
  length-append, length-reverse, All, All-append, All-mono, arith, Bool-cases,
}
use heartpost.Common.Text.{Text, text_eq, is_empty}
use heartpost.FilePath.{
  slash, dot, dot_dot, split_from, pop_part, push_parts, join_parts, clean, up_to_slash, dir_of,
}
use mathlib.Core.List.{reverse, reverse-append, reverse-reverse, append_assoc, append-nil}

abbrev NoSlash : Text → Type 0
NoSlash = All (λ c. (c == slash) ≡ false)

-- What stands between the slashes of a clean path.
abbrev pub Good : Text → Type 0
Good x = NoSlash x × (is_empty x ≡ false) × (text_eq x dot ≡ false) × (text_eq x dot_dot ≡ false)

-- The path of these parts, the last first.
abbrev pub path_of : List Text → Text
path_of rs = slash ∷ join_parts (reverse rs)

-- Every part with a slash after it.
abbrev slashed : List Text → Text
slashed [] = []
slashed (x ∷ ps) = x ++ (slash ∷ slashed ps)

reverse-cons : {A : Type 0} (x : A) (xs : List A) → reverse (x ∷ xs) ≡ reverse xs ++ (x ∷ [])
reverse-cons x xs = reverse-append (x ∷ []) xs

reverse-onto :
    {A : Type 0} (x : A) (xs ys : List A) → reverse (x ∷ xs) ++ ys ≡ reverse xs ++ (x ∷ ys)
reverse-onto x xs ys = rw (reverse-cons x xs) (append_assoc (reverse xs) (x ∷ []) ys)

pub reverse-All : {A : Type 0} (P : A → Type 0) (xs : List A) → All P xs → All P (reverse xs)
reverse-All P [] h = tt
reverse-All P (x ∷ xs) h =
    rw (reverse-cons x xs) (All-append P (reverse xs) (x ∷ []) (reverse-All P xs h.1) (h.0, tt))

split-part :
    (cur x rest : Text)
    → NoSlash x
    → split_from cur (x ++ (slash ∷ rest)) ≡ (reverse cur ++ x) ∷ split_from [] rest
unfolding split_from
split-part cur [] rest h = rw (append-nil (reverse cur)) refl
split-part cur (c ∷ x) rest h = rw (h.0, split-part (c ∷ cur) x rest h.1, reverse-onto c cur x) refl

split-last : (cur x : Text) → NoSlash x → split_from cur x ≡ (reverse cur ++ x) ∷ []
unfolding split_from
split-last cur [] h = rw (append-nil (reverse cur)) refl
split-last cur (c ∷ x) h = rw (h.0, split-last (c ∷ cur) x h.1, reverse-onto c cur x) refl

split-slashed :
    (ps : List Text) (x : Text)
    → All NoSlash ps
    → NoSlash x
    → split_from [] (slashed ps ++ x) ≡ ps ++ (x ∷ [])
split-slashed [] x h k = split-last [] x k
split-slashed (p ∷ ps) x h k =
    rw
      (
        append_assoc p (slash ∷ slashed ps) x,
        split-part [] p (slashed ps ++ x) h.0,
        split-slashed ps x h.1 k,
      )
      refl

push-one :
    (p : Text) (st qs : List Text)
    → Good p
    → push_parts true st (p ∷ qs) ≡ push_parts true (p ∷ st) qs
unfolding push_parts
push-one p st qs h = ground arith

push-good :
    (st ps qs : List Text)
    → All Good ps
    → push_parts true st (ps ++ qs) ≡ push_parts true (reverse ps ++ st) qs
push-good st [] qs h = refl
push-good st (p ∷ ps) qs h =
    push-one p st (ps ++ qs) h.0
    ∙ push-good (p ∷ st) ps qs h.1
    ∙ ap (λ s. push_parts true s qs) (sym (reverse-onto p ps st))

join-snoc : (ps : List Text) (x : Text) → join_parts (ps ++ (x ∷ [])) ≡ slashed ps ++ x
unfolding join_parts
join-snoc [] x = refl
join-snoc (p ∷ []) x = sym (append_assoc p (slash ∷ []) x)
join-snoc (p ∷ q ∷ ps) x =
    rw (join-snoc (q ∷ ps) x) (sym (append_assoc p (slash ∷ slashed (q ∷ ps)) x))

up_to-none : (x : Text) → NoSlash x → up_to_slash x ≡ []
unfolding up_to_slash
up_to-none [] h = refl
up_to-none (c ∷ x) h = rw (up_to-none x h.1, h.0) refl

up_to-part : (x t : Text) → up_to_slash (x ++ (slash ∷ t)) ≡ x ++ (slash ∷ up_to_slash t)
unfolding up_to_slash
up_to-part [] t = ground arith
up_to-part (c ∷ []) t = rw (up_to-part [] t) refl
up_to-part (c ∷ d ∷ x) t = rw (up_to-part (d ∷ x) t) refl

up_to-slashed : (ps : List Text) (x : Text) → NoSlash x → up_to_slash (slashed ps ++ x) ≡ slashed ps
up_to-slashed [] x h = up_to-none x h
up_to-slashed (p ∷ ps) x h =
    rw (append_assoc p (slash ∷ slashed ps) x, up_to-part p (slashed ps ++ x), up_to-slashed ps x h)
      refl

NoSlash-of : (ps : List Text) → All Good ps → All NoSlash ps
NoSlash-of ps h = All-mono Good NoSlash ps (λ x g. g.0) h

push_empty : (st : List Text) → push_parts true st ([] ∷ []) ≡ st
unfolding push_parts
push_empty st = refl

clean-rooted : (s : Text) → clean (slash ∷ s) ≡ path_of (push_parts true [] (split_from [] s))
unfolding clean push_parts split_from
clean-rooted s = refl

parts_of :
    (ps : List Text) (x : Text)
    → All Good ps
    → NoSlash x
    → push_parts true [] (split_from [] (slashed ps ++ x)) ≡ push_parts true (reverse ps) (x ∷ [])
parts_of ps x h k =
    rw (split-slashed ps x (NoSlash-of ps h) k, push-good [] ps (x ∷ []) h, append-nil (reverse ps))
      refl

clean-slashed : (ps : List Text) → All Good ps → clean (slash ∷ slashed ps) ≡ path_of (reverse ps)
clean-slashed ps h =
    clean-rooted (slashed ps)
    ∙ ap path_of (
        ap (λ s. push_parts true [] (split_from [] s)) (sym (append-nil (slashed ps)))
        ∙ parts_of ps [] h tt
        ∙ push_empty (reverse ps))

path_of-cons : (x : Text) (rs : List Text) → path_of (x ∷ rs) ≡ slash ∷ (slashed (reverse rs) ++ x)
path_of-cons x rs = ap (λ s. slash ∷ s) (rw (reverse-cons x rs) (join-snoc (reverse rs) x))

-- The parts that Clean reads in a path of good parts are these.
read_parts : Text → List Text
unfolding push_parts split_from
read_parts s = push_parts true [] (split_from [] s)

read-path_of : (rs : List Text) → All Good rs → read_parts (join_parts (reverse rs)) ≡ rs
unfolding read_parts join_parts
read-path_of [] h = refl
read-path_of (x ∷ rs) h =
    ap read_parts (ap join_parts (reverse-cons x rs) ∙ join-snoc (reverse rs) x)
    ∙ parts_of (reverse rs) x (reverse-All Good rs h.1) h.0.0
    ∙ push-one x (reverse (reverse rs)) [] h.0
    ∙ ap (λ s. x ∷ s) (reverse-reverse rs)

-- A path of good parts is clean.
pub clean-path_of : (rs : List Text) → All Good rs → clean (path_of rs) ≡ path_of rs
unfolding read_parts
clean-path_of rs h = clean-rooted (join_parts (reverse rs)) ∙ ap path_of (read-path_of rs h)

-- Split gives the parts after an empty one.
pub split-path_of :
    (x : Text) (rs : List Text)
    → All Good (x ∷ rs)
    → split_from [] (path_of (x ∷ rs)) ≡ [] ∷ reverse (x ∷ rs)
unfolding split_from
split-path_of x rs h =
    let good = NoSlash-of (reverse rs) (reverse-All Good rs h.1) in
    ap (split_from []) (path_of-cons x rs)
    ∙ ap (λ s. [] ∷ s) (split-slashed (reverse rs) x good h.0.0 ∙ sym (reverse-cons x rs))

tail_of : Text → Text
tail_of [] = []
tail_of (c ∷ s) = s

-- A path of good parts has them.
pub path_of-injective :
    (rs ss : List Text) → All Good rs → All Good ss → path_of rs ≡ path_of ss → rs ≡ ss
unfolding tail_of
path_of-injective rs ss h k e =
    sym (read-path_of rs h) ∙ ap (λ s. read_parts (tail_of s)) e ∙ read-path_of ss k

filled-long : (p : Text) → is_empty p ≡ false → 1 ≤ length p
filled-long p h = ground arith

-- It has more characters than parts.
join_parts-long : (ps : List Text) → All Good ps → length ps ≤ length (join_parts ps)
unfolding join_parts
join_parts-long [] h = ground arith
join_parts-long (p ∷ []) h = filled-long p h.0.1
join_parts-long (p ∷ q ∷ ps) h =
    let rest = join_parts-long (q ∷ ps) h.1 in
    let here = filled-long p h.0.1 in
    rw (length-append p (slash ∷ join_parts (q ∷ ps))) (omega arith)

pub path_of-long : (rs : List Text) → All Good rs → length rs < length (path_of rs)
path_of-long rs h =
    let long = join_parts-long (reverse rs) (reverse-All Good rs h) in
    let same = length-reverse rs in omega arith

-- Dir of such a path takes its last part away, and the root's is the root.
pub dir_of-path_of :
    (x : Text) (rs : List Text) → All Good (x ∷ rs) → dir_of (path_of (x ∷ rs)) ≡ path_of rs
unfolding dir_of
dir_of-path_of x rs h =
    ap dir_of (path_of-cons x rs)
    ∙ ap clean (
        up_to-part [] (slashed (reverse rs) ++ x)
        ∙ ap (λ s. slash ∷ s) (up_to-slashed (reverse rs) x h.0.0))
    ∙ clean-slashed (reverse rs) (reverse-All Good rs h.1)
    ∙ ap path_of (reverse-reverse rs)

pub dir_of-root : dir_of (path_of []) ≡ path_of []
unfolding dir_of up_to_slash clean push_parts split_from join_parts
dir_of-root = refl

split_from-NoSlash : (cur s : Text) → NoSlash cur → All NoSlash (split_from cur s)
unfolding split_from
split_from-NoSlash cur [] h = (reverse-All (λ c. (c == slash) ≡ false) cur h, tt)
split_from-NoSlash cur (c ∷ s) h = elim (Bool-cases (c == slash)) [
  | inl e ↦ rw e (reverse-All (λ c. (c == slash) ≡ false) cur h, split_from-NoSlash [] s tt)
  | inr e ↦ rw e (split_from-NoSlash (c ∷ cur) s (e, h))
]

pop-Good : (st : List Text) → All Good st → All Good (pop_part true st)
unfolding pop_part
pop-Good [] h = tt
pop-Good (x ∷ st) h = let (good, filled, not_dot, not_dots) = h.0 in rw not_dots h.1

push_parts-Good :
    (st ps : List Text) → All Good st → All NoSlash ps → All Good (push_parts true st ps)
unfolding push_parts
push_parts-Good st [] h k = h
push_parts-Good st (p ∷ ps) h k = elim (Bool-cases (is_empty p || text_eq p dot)) [
  | inl e ↦ rw e (push_parts-Good st ps h k.1)
  | inr e ↦ elim (Bool-cases (text_eq p dot_dot)) [
    | inl d ↦ rw (e, d) (push_parts-Good (pop_part true st) ps (pop-Good st h) k.1)
    | inr d ↦ rw (e, d) (push_parts-Good (p ∷ st) ps ((k.0, ground arith, ground arith, d), h) k.1)
  ]
]

-- What Clean gives for a path from the root.
pub clean-Good : (s : Text) → (rs : List Text) × All Good rs × (clean (slash ∷ s) ≡ path_of rs)
clean-Good s = (
  push_parts true [] (split_from [] s),
  push_parts-Good [] (split_from [] s) tt (split_from-NoSlash [] s tt),
  clean-rooted s,
)
