-- ===== src/License/Offline/Accepted.antt =====
-- Which offline files are accepted, and that issued ones are.
use heartpost.Common.{
  ◌≡◌, ◌↔◌, refl, ap, sym, ◌∙◌, inl, inr, true, false, Option, none, some, arith, Bool-cases,
  Option-cases, some_injective,
}
use mathlib.Core.Path.{subst}
use heartpost.Common.Text.{Text, text_eq, text_eq_iff}
use heartpost.Common.Assoc.{Assoc}
use heartpost.Common.Int.{ℤ, ltb_ℤ, eqb_ℤ, eqb_ℤ_iff}
use heartpost.Signature.{Bytes}
use heartpost.License.Base64.{decode}
use heartpost.License.Jwt.{
  Claims, Crypto, Result, ok, err, malformed, unknown_kid, bad_signature, check_times,
}
use heartpost.License.Jwt.Verified.{InForce, get_then, require_then, check_times_ok}
use heartpost.License.PublicKeys.{Decoders, parse_public_keys, resolver_of}
use heartpost.License.Offline.{
  OfflineFile, file_version, Codec, parse_offline, verify_offline_file, max_future_skew, add_ℕ,
  Verified, verified, rejected, for_subject, not_future, verify_offline,
}

-- The bytes are a file of the known version whose header and claims are signed under a known key,
-- and whose claims are in force.
pub record IsSignedFile (x : Crypto) (j : Codec) (now : ℤ) (resolver : Text → Option Bytes)
    (bytes : Bytes) (claims : Claims) : Type 0 where
  pub file : OfflineFile
  pub reads : j.unmarshal_file bytes ≡ some file
  pub version : file.version ≡ file_version
  pub key : Bytes
  pub known : resolver file.header.kid ≡ some key
  pub sig : Bytes
  pub decodes : decode file.signature ≡ some sig
  pub target : Bytes
  pub writes : j.marshal_target file.header file.claims ≡ some target
  pub authentic : x.verify key target sig ≡ true
  pub same : file.claims ≡ claims
  pub in_force : InForce now claims

version_of : OfflineFile → ℤ
version_of f = f.version

parse_known :
    (x : Crypto) (j : Codec) (bytes : Bytes) (g : OfflineFile)
    → j.unmarshal_file bytes ≡ some g
    → eqb_ℤ g.version file_version ≡ true
    → parse_offline x j bytes ≡ some g
unfolding parse_offline
parse_known x j bytes g e v = ground arith

parse_other :
    (x : Crypto) (j : Codec) (bytes : Bytes) (g : OfflineFile)
    → j.unmarshal_file bytes ≡ some g
    → eqb_ℤ g.version file_version ≡ false
    → parse_offline x j bytes ≡ none
unfolding parse_offline
parse_other x j bytes g e v = ground arith

parse_offline_lem :
    (x : Crypto) (j : Codec) (bytes : Bytes) (f : OfflineFile)
    → (parse_offline x j bytes ≡ some f)
      ↔ ((j.unmarshal_file bytes ≡ some f) × (f.version ≡ file_version))
unfolding parse_offline version_of
parse_offline_lem x j bytes f = elim (Option-cases (j.unmarshal_file bytes)) [
  | inl e ↦ (λ h. absurd (ground arith), λ h. absurd (ground (arith, h.0)))
  | inr (g, e) ↦ elim (Bool-cases (eqb_ℤ g.version file_version)) [
    | inr other ↦
        let refused : parse_offline x j bytes ≡ none = parse_other x j bytes g e other in
        (
          λ h. absurd (ground (arith, refused)),
          λ h.
              (let same = some_injective f g (sym h.0 ∙ e) in
                absurd (
                  ground (
                    arith,
                    (eqb_ℤ_iff g.version file_version).1 (ap version_of (sym same) ∙ h.1),
                  ))),
        )
    | inl known ↦
        let parsed : parse_offline x j bytes ≡ some g = parse_known x j bytes g e known in
        let right = (eqb_ℤ_iff g.version file_version).0 known in
        (
          λ h.
              (let same = some_injective g f (sym parsed ∙ h) in
                (e ∙ ap some same, ap version_of (sym same) ∙ right)),
          λ h. parsed ∙ sym e ∙ h.0,
        )
  ]
]

module _ (x : Crypto) (j : Codec) (now : ℤ) (resolver : Text → Option Bytes) where
  file-IsSignedFile :
      (bytes : Bytes) (claims : Claims)
      → verify_offline_file x j now resolver bytes ≡ ok claims
      → IsSignedFile x j now resolver bytes claims
  unfolding verify_offline_file
  file-IsSignedFile bytes claims h =
      get_then malformed (parse_offline x j bytes) _ claims h λ f parsed h.
        get_then unknown_kid (resolver f.header.kid) _ claims h λ key known h.
          get_then malformed (decode f.signature) _ claims h λ sig decodes h.
            get_then malformed (j.marshal_target f.header f.claims) _ claims h λ target writes h.
              require_then (x.verify key target sig) bad_signature _ claims h λ authentic h.
                let (same, in_force) = check_times_ok now f.claims claims h in
                let (reads, version) = (parse_offline_lem x j bytes f).0 parsed in
                record {
                  file = f;
                  reads = reads;
                  version = version;
                  key = key;
                  known = known;
                  sig = sig;
                  decodes = decodes;
                  target = target;
                  writes = writes;
                  authentic = authentic;
                  same = same;
                  in_force = subst (InForce now) same in_force;
                }

  signed_file_verifies :
      (bytes : Bytes) (claims : Claims)
      → IsSignedFile x j now resolver bytes claims
      → verify_offline_file x j now resolver bytes ≡ ok claims
  unfolding verify_offline_file check_times
  signed_file_verifies bytes claims s =
      let parsed = (parse_offline_lem x j bytes s.file).1 (s.reads, s.version) in
      rw (parsed, s.known, s.decodes, s.writes, s.authentic, s.same)
        (rw (s.in_force.0, s.in_force.1) refl)

-- An offline file is accepted for an agent where the verifier's keys parse, the file is signed under
-- one of them with claims in force, for that agent, and not issued a day ahead.
pub record IsAccepted (x : Crypto) (ds : Decoders) (public_keys : Text) (j : Codec) (now : ℤ)
    (agent_id : Text) (bytes : Bytes) (claims : Claims) : Type 0 where
  pub keys : Assoc Bytes
  pub parses : parse_public_keys ds public_keys ≡ some keys
  pub signed : IsSignedFile x j now (resolver_of keys) bytes claims
  pub subject : claims.subject ≡ agent_id
  pub not_ahead : ltb_ℤ (add_ℕ now max_future_skew) claims.issued_at ≡ false

ok_or : Claims → Result Claims → Claims
ok_or d (ok c) = c
ok_or d (err e) = d

ok_injective : (c d : Claims) → ok c ≡ ok d → c ≡ d
unfolding ok_or
ok_injective c d e = λ i. ok_or c (e i)

verified_or : Claims → Verified → Claims
verified_or d (verified c) = c
verified_or d (rejected e) = d

verified_injective : (c d : Claims) → verified c ≡ verified d → c ≡ d
unfolding verified_or
verified_injective c d e = λ i. verified_or c (e i)

subject_of : Claims → Text
subject_of c = c.subject

issued_of : Claims → ℤ
issued_of c = c.issued_at

pub for_subject_lem :
    (agent_id : Text) (m : Result Claims) (claims : Claims)
    → (for_subject agent_id m ≡ verified claims) ↔ ((m ≡ ok claims) × (claims.subject ≡ agent_id))
unfolding for_subject subject_of
for_subject_lem agent_id (err e) claims =
    (λ h. absurd (ground arith), λ h. absurd (ground (arith, h.0)))
for_subject_lem agent_id (ok c) claims = elim (Bool-cases (text_eq c.subject agent_id)) [
  | inr other ↦ (
    λ h. absurd (ground arith),
    λ h. absurd (
        ground (
          arith,
          (text_eq_iff c.subject agent_id).1 (ap subject_of (ok_injective c claims h.0) ∙ h.1),
        )),
  )
  | inl own ↦
      let is : for_subject agent_id (ok c) ≡ verified c = rw own refl in
      (
        λ h.
            (let same = verified_injective c claims (sym is ∙ h) in
              (ap ok same, ap subject_of (sym same) ∙ (text_eq_iff c.subject agent_id).0 own)),
        λ h. is ∙ ap verified (ok_injective c claims h.0),
      )
]

not_future_lem :
    (now : ℤ) (m : Verified) (claims : Claims)
    → (not_future now m ≡ verified claims)
      ↔ ((m ≡ verified claims) × (ltb_ℤ (add_ℕ now max_future_skew) claims.issued_at ≡ false))
unfolding not_future issued_of
not_future_lem now (rejected e) claims =
    (λ h. absurd (ground arith), λ h. absurd (ground (arith, h.0)))
not_future_lem now (verified c) claims =
    elim (Bool-cases (ltb_ℤ (add_ℕ now max_future_skew) c.issued_at)) [
      | inl ahead ↦ (
        λ h. absurd (ground arith),
        λ h. absurd (
            ground (
              arith,
              ap (λ t. ltb_ℤ (add_ℕ now max_future_skew) t)
                    (ap issued_of (verified_injective c claims h.0))
                  ∙ h.1,
            )),
      )
      | inr past ↦
          let is : not_future now (verified c) ≡ verified c = rw past refl in
          (
            λ h.
                (let same = verified_injective c claims (sym is ∙ h) in
                  (
                    ap verified same,
                    ap (λ t. ltb_ℤ (add_ℕ now max_future_skew) t) (ap issued_of (sym same)) ∙ past,
                  )),
            λ h. is ∙ h.0,
          )
    ]

module _ (x : Crypto) (ds : Decoders) (public_keys : Text) (j : Codec) (now : ℤ)
    (agent_id : Text) where
  verify_offline_keys :
      (keys : Assoc Bytes) (bytes : Bytes)
      → parse_public_keys ds public_keys ≡ some keys
      → verify_offline x ds public_keys j now agent_id (some bytes)
        ≡ not_future now
            (for_subject agent_id (verify_offline_file x j now (resolver_of keys) bytes))
  unfolding verify_offline
  verify_offline_keys keys bytes e = ground arith

  verify_offline-cases :
      (file : Option Bytes) (claims : Claims)
      → verify_offline x ds public_keys j now agent_id file ≡ verified claims
      → ((keys : Assoc Bytes) × (parse_public_keys ds public_keys ≡ some keys))
        × ((bytes : Bytes) × (file ≡ some bytes))
  unfolding verify_offline
  verify_offline-cases file claims h = elim (Option-cases (parse_public_keys ds public_keys)) [
    | inl e ↦ absurd (ground arith)
    | inr (keys, e) ↦ elim (Option-cases file) [
      | inl g ↦ absurd (ground arith)
      | inr (bytes, g) ↦ ((keys, e), (bytes, g))
    ]
  ]

  -- An offline file is accepted, with these claims, exactly when it can be read and its bytes are
  -- signed for them, under a key of the verifier, for the agent, in force and not a day ahead.
  pub verify_offline_iff :
      (file : Option Bytes) (claims : Claims)
      → (verify_offline x ds public_keys j now agent_id file ≡ verified claims) ↔ (
          (bytes : Bytes) × (file ≡ some bytes)
          × IsAccepted x ds public_keys j now agent_id bytes claims)
  verify_offline_iff file claims = (
    λ h.
        (let ((keys, e), (bytes, g)) = verify_offline-cases file claims h in
          let checked =
            sym (verify_offline_keys keys bytes e)
            ∙ ap (verify_offline x ds public_keys j now agent_id) (sym g)
            ∙ h in
          let (judged, not_ahead) = (not_future_lem now _ claims).0 checked in
          let (signed, subject) = (for_subject_lem agent_id _ claims).0 judged in
          (
            bytes,
            g,
            record {
              keys = keys;
              parses = e;
              signed = file-IsSignedFile x j now (resolver_of keys) bytes claims signed;
              subject = subject;
              not_ahead = not_ahead;
            },
          )),
    λ h.
        (let a = h.2 in
          let signed = signed_file_verifies x j now (resolver_of a.keys) h.0 claims a.signed in
          let judged =
            (for_subject_lem agent_id (verify_offline_file x j now (resolver_of a.keys) h.0)
                claims).1
              (signed, a.subject) in
          rw (h.1, verify_offline_keys a.keys h.0 a.parses)
            ((not_future_lem now _ claims).1 (judged, a.not_ahead))),
  )
