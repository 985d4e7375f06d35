-- ===== src/License/Key/Issued.antt =====
-- Which license keys verify.
use heartpost.Common.{
  ℕ, ◌≡◌, ◌↔◌, refl, ap, sym, ◌∙◌, inl, inr, true, false, none, some, [], ◌∷◌, ◌++◌, arith,
  Bool-cases, Option-cases, ◌==◌, ==_iff, some_injective,
}
use heartpost.Common.Text.{Text, text_eq_iff, is_empty, has_prefix}
use mathlib.Core.Path.{subst}
use heartpost.Signature.{Mac, utf8}
use heartpost.License.Base64.Laws.{NoDots}
use heartpost.License.Jwt.{full_stop}
use heartpost.License.PublicKeys.{cut_at}
use heartpost.License.Key.{license_sig, split_three, check_parts, verify_key}

-- Cutting at a character that the first part lacks, and back.
cut_at-part : (s rest : Text) → NoDots s → cut_at full_stop (s ++ full_stop ∷ rest) ≡ some (s, rest)
unfolding cut_at
cut_at-part [] rest h = refl
cut_at-part (c ∷ s) rest h = rw (h.0, cut_at-part s rest h.1) refl

cut_here : (c : ℕ) (s : Text) → (c == full_stop) ≡ true → cut_at full_stop (c ∷ s) ≡ some ([], s)
unfolding cut_at
cut_here c s e = rw e refl

cut_later :
    (c : ℕ) (s a b : Text)
    → (c == full_stop) ≡ false
    → cut_at full_stop s ≡ some (a, b)
    → cut_at full_stop (c ∷ s) ≡ some (c ∷ a, b)
unfolding cut_at
cut_later c s a b e h = rw (e, h) refl

cut_at_lem : (s a b : Text) → cut_at full_stop s ≡ some (a, b) → (s ≡ a ++ full_stop ∷ b) × NoDots a
unfolding cut_at
cut_at_lem [] a b h = absurd (ground arith)
cut_at_lem (c ∷ s) a b h = elim (Bool-cases (c == full_stop)) [
  | inl dot ↦
      let same = some_injective (a, b) ([], s) (sym h ∙ cut_here c s dot) in
      let none_before : a ≡ [] = ap (λ p. p.0) same in
      let after : b ≡ s = ap (λ p. p.1) same in
      let is_dot : c ≡ full_stop = (==_iff c full_stop).0 dot in
      rw (none_before, after, is_dot) (refl, tt)
  | inr other ↦ elim (Option-cases (cut_at full_stop s)) [
    | inl e ↦ absurd (ground arith)
    | inr (p, e) ↦
        let same = some_injective (a, b) (c ∷ p.0, p.1) (sym h ∙ cut_later c s p.0 p.1 other e) in
        let before : a ≡ c ∷ p.0 = ap (λ q. q.0) same in
        let after : b ≡ p.1 = ap (λ q. q.1) same in
        let ih = cut_at_lem s p.0 p.1 e in rw (before, after) (ap (λ t. c ∷ t) ih.0, (other, ih.1))
  ]
]

-- The key of an agent of a tenant: its three parts, of which the first two hold no dot, and the
-- vendor's signature.
pub record IsIssued (mac : Mac) (secret agent_id key : Text) : Type 0 where
  pub tenant : Text
  pub sig : Text
  pub has_secret : is_empty secret ≡ false
  pub parts : key ≡ tenant ++ (full_stop ∷ (agent_id ++ (full_stop ∷ sig)))
  pub tenant_part : NoDots tenant
  pub agent_part : NoDots agent_id
  pub of_tenant : has_prefix agent_id (tenant ++ b'-' ∷ []) ≡ true
  pub signed : utf8 sig ≡ utf8 (license_sig mac secret tenant agent_id)

split_three-parts :
    (a b c : Text)
    → NoDots a
    → NoDots b
    → split_three (a ++ (full_stop ∷ (b ++ (full_stop ∷ c)))) ≡ some (a, b, c)
unfolding split_three
split_three-parts a b c p q =
    ground (arith, cut_at-part a (b ++ (full_stop ∷ c)) p, cut_at-part b c q)

split_three_lem :
    (s a b c : Text)
    → split_three s ≡ some (a, b, c)
    → (s ≡ a ++ (full_stop ∷ (b ++ (full_stop ∷ c)))) × NoDots a × NoDots b
unfolding split_three
split_three_lem s a b c h = elim (Option-cases (cut_at full_stop s)) [
  | inl e ↦ absurd (ground arith)
  | inr (p, e) ↦ elim (Option-cases (cut_at full_stop p.1)) [
    | inl g ↦ absurd (ground arith)
    | inr (q, g) ↦
        let first = cut_at_lem s p.0 p.1 e in
        let second = cut_at_lem p.1 q.0 q.1 g in
        let found : split_three s ≡ some (p.0, q.0, q.1) = ground arith in
        let same = some_injective (a, b, c) (p.0, q.0, q.1) (sym h ∙ found) in
        let ea : a ≡ p.0 = ap (λ t. t.0) same in
        let eb : b ≡ q.0 = ap (λ t. t.1) same in
        let ec : c ≡ q.1 = ap (λ t. t.2) same in
        rw (ea, eb, ec, first.0, second.0) (refl, first.1, second.1)
  ]
]

full_key : (a b : Text) → is_empty (a ++ full_stop ∷ b) ≡ false
full_key [] b = refl
full_key (c ∷ a) b = refl

verify_key_parts :
    (mac : Mac) (secret agent_id key : Text) (p : Text × Text × Text)
    → is_empty secret ≡ false
    → is_empty key ≡ false
    → split_three key ≡ some p
    → verify_key mac secret agent_id key ≡ check_parts mac secret agent_id p
unfolding verify_key
verify_key_parts mac secret agent_id key p s k e = ground arith

-- Which parts pass.
check_parts_iff :
    (mac : Mac) (secret agent_id tenant id sig : Text)
    → (check_parts mac secret agent_id (tenant, id, sig) ≡ none) ↔ (
        (has_prefix agent_id (tenant ++ b'-' ∷ []) ≡ true)
        × (id ≡ agent_id)
        × (utf8 sig ≡ utf8 (license_sig mac secret tenant agent_id)))
unfolding check_parts
check_parts_iff mac secret agent_id tenant id sig = ground (
  arith,
  text_eq_iff id agent_id,
  text_eq_iff (utf8 sig) (utf8 (license_sig mac secret tenant agent_id)),
)

issued_verifies :
    (mac : Mac) (secret agent_id key : Text)
    → IsIssued mac secret agent_id key
    → verify_key mac secret agent_id key ≡ none
issued_verifies mac secret agent_id key k =
    let split : split_three key ≡ some (k.tenant, agent_id, k.sig) =
      rw k.parts (split_three-parts k.tenant agent_id k.sig k.tenant_part k.agent_part) in
    verify_key_parts mac secret agent_id key (k.tenant, agent_id, k.sig) k.has_secret
      (rw k.parts (full_key k.tenant (agent_id ++ (full_stop ∷ k.sig)))) split
    ∙ (check_parts_iff mac secret agent_id k.tenant agent_id k.sig).1 (k.of_tenant, refl, k.signed)

verify_key_split :
    (mac : Mac) (secret agent_id key : Text)
    → verify_key mac secret agent_id key ≡ none
    → (is_empty secret ≡ false)
      × (is_empty key ≡ false)
      × ((p : Text × Text × Text) × (split_three key ≡ some p))
unfolding verify_key
verify_key_split mac secret agent_id key h = elim (Bool-cases (is_empty secret)) [
  | inl s ↦ absurd (ground arith)
  | inr s ↦ elim (Bool-cases (is_empty key)) [
    | inl k ↦ absurd (ground arith)
    | inr k ↦ elim (Option-cases (split_three key)) [
      | inl e ↦ absurd (ground arith)
      | inr (p, e) ↦ (s, k, (p, e))
    ]
  ]
]

verified-IsIssued :
    (mac : Mac) (secret agent_id key : Text)
    → verify_key mac secret agent_id key ≡ none
    → IsIssued mac secret agent_id key
verified-IsIssued mac secret agent_id key h =
    let (s, k, (p, e)) = verify_key_split mac secret agent_id key h in
    let checked = sym (verify_key_parts mac secret agent_id key p s k e) ∙ h in
    let (of_tenant, same, signed) = (check_parts_iff mac secret agent_id p.0 p.1 p.2).0 checked in
    let (whole, first, second) = split_three_lem key p.0 p.1 p.2 e in
    record {
      tenant = p.0;
      sig = p.2;
      has_secret = s;
      parts = whole ∙ ap (λ i. p.0 ++ (full_stop ∷ (i ++ (full_stop ∷ p.2)))) same;
      tenant_part = first;
      agent_part = subst NoDots same second;
      of_tenant = of_tenant;
      signed = signed;
    }

-- A license key verifies for an agent exactly when the verifier has a secret and the key is the
-- agent's own: a tenant, whose name and a dash begin the agent's id, that id, and the signature of
-- both, with no dot in either.
pub verify_key_iff :
    (mac : Mac) (secret agent_id key : Text)
    → (verify_key mac secret agent_id key ≡ none) ↔ IsIssued mac secret agent_id key
verify_key_iff mac secret agent_id key =
    (verified-IsIssued mac secret agent_id key, issued_verifies mac secret agent_id key)
