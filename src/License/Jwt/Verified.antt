-- ===== src/License/Jwt/Verified.antt =====
-- Which tokens verify, and that signed tokens do.
use heartpost.Common.{
  ◌≡◌, ◌↔◌, refl, ap, sym, ◌∙◌, inl, inr, Bool, true, false, ◌&&◌, Option, none, some, List, [],
  ◌∷◌, ◌++◌, arith, Bool-cases, Option-cases, some_injective,
}
use mathlib.Core.List.{append_assoc}
use mathlib.Core.Path.{subst}
use heartpost.Common.Text.{Text, codes, text_eq, text_eq_refl}
use heartpost.Common.Int.{ℤ, pos, ltb_ℤ}
use heartpost.Signature.{Bytes, utf8}
use heartpost.License.Base64.{encode, decode}
use heartpost.License.Base64.Laws.{IsBytes, NoDots, decode-encode, encode-NoDots}
use heartpost.License.Jwt.{
  Claims, Header, Crypto, JwtError, Result, ok, malformed, bad_signature, unknown_kid, ◌>>=◌, ◌>>◌,
  get, require, full_stop, split_at, three_parts, eddsa, check_times, sign_jwt, verify_jwt,
  extract_kid,
}

-- The claims are in force: neither too early nor too late.
abbrev pub InForce : ℤ → Claims → Type 0
InForce now c =
    ((ltb_ℤ (pos 0) c.not_before && ltb_ℤ now c.not_before) ≡ false)
    × ((ltb_ℤ (pos 0) c.expires_at && ltb_ℤ c.expires_at now) ≡ false)

-- Three parts, of which the first is the header of an EdDSA token under a known key, the third the
-- signature of the first two, and the second claims that are in force.
pub record IsSigned (x : Crypto) (now : ℤ) (resolver : Text → Option Bytes) (token : Text)
    (claims : Claims) : Type 0 where
  pub head : Text
  pub body : Text
  pub tail : Text
  pub parts : split_at full_stop token ≡ head ∷ body ∷ tail ∷ []
  pub header_json : Bytes
  pub decodes_head : decode head ≡ some header_json
  pub header : Header
  pub reads_head : x.unmarshal_header header_json ≡ some header
  pub is_eddsa : text_eq header.alg eddsa ≡ true
  pub key : Bytes
  pub known : resolver header.kid ≡ some key
  pub sig : Bytes
  pub decodes_tail : decode tail ≡ some sig
  pub authentic : x.verify key (utf8 (head ++ full_stop ∷ body)) sig ≡ true
  pub claims_json : Bytes
  pub decodes_body : decode body ≡ some claims_json
  pub reads_body : x.unmarshal_claims claims_json ≡ some claims
  pub in_force : InForce now claims

pub get_then :
    {A B P : Type 0} (e : JwtError) (m : Option A) (f : A → Result B) (b : B)
    → (get e m >>= f) ≡ ok b
    → ((a : A) → m ≡ some a → f a ≡ ok b → P)
    → P
get_then e none f b h k = absurd (ground arith)
get_then e (some a) f b h k = k a refl h

pub require_then :
    {B P : Type 0} (c : Bool) (e : JwtError) (m : Result B) (b : B)
    → (require c e >> m) ≡ ok b
    → (c ≡ true → m ≡ ok b → P)
    → P
require_then true e m b h k = k refl h
require_then false e m b h k = absurd (ground arith)

three_parts_lem :
    (ts : List Text) (a b c : Text) → three_parts ts ≡ some (a, b, c) → ts ≡ a ∷ b ∷ c ∷ []
unfolding three_parts
three_parts_lem [] a b c h = absurd (ground arith)
three_parts_lem (x ∷ []) a b c h = absurd (ground arith)
three_parts_lem (x ∷ y ∷ []) a b c h = absurd (ground arith)
three_parts_lem (x ∷ y ∷ z ∷ []) a b c h = ground arith
three_parts_lem (x ∷ y ∷ z ∷ w ∷ ts) a b c h = absurd (ground arith)

pub check_times_ok : (now : ℤ) (c d : Claims) → check_times now c ≡ ok d → (c ≡ d) × InForce now c
unfolding check_times
check_times_ok now c d h =
    elim (Bool-cases (ltb_ℤ (pos 0) c.not_before && ltb_ℤ now c.not_before)) [
      | inl early ↦ absurd (ground arith)
      | inr begun ↦ elim (Bool-cases (ltb_ℤ (pos 0) c.expires_at && ltb_ℤ c.expires_at now)) [
        | inl late ↦ absurd (ground arith)
        | inr left ↦ (ground arith, (begun, left))
      ]
    ]

module _ (x : Crypto) (now : ℤ) (resolver : Text → Option Bytes) where
  verified-IsSigned :
      (token : Text) (claims : Claims)
      → verify_jwt x now resolver token ≡ ok claims
      → IsSigned x now resolver token claims
  unfolding verify_jwt
  verified-IsSigned token claims h =
      get_then malformed (three_parts (split_at full_stop token)) _ claims h λ parts e_parts h.
        get_then malformed (decode parts.0) _ claims h λ header_json e_head h.
          get_then malformed (x.unmarshal_header header_json) _ claims h λ header e_header h.
            require_then (text_eq header.alg eddsa) malformed _ claims h λ is_eddsa h.
              get_then unknown_kid (resolver header.kid) _ claims h λ key known h.
                get_then malformed (decode parts.2) _ claims h λ sig e_sig h.
                  require_then (x.verify key (utf8 (parts.0 ++ full_stop ∷ parts.1)) sig)
                    bad_signature _ claims h
                    λ authentic h. get_then malformed (decode parts.1) _ claims h λ body e_body h.
                      get_then malformed (x.unmarshal_claims body) _ claims h λ found e_found h.
                        let (same, in_force) = check_times_ok now found claims h in
                        record {
                          head = parts.0;
                          body = parts.1;
                          tail = parts.2;
                          parts = three_parts_lem _ parts.0 parts.1 parts.2 e_parts;
                          header_json = header_json;
                          decodes_head = e_head;
                          header = header;
                          reads_head = e_header;
                          is_eddsa = is_eddsa;
                          key = key;
                          known = known;
                          sig = sig;
                          decodes_tail = e_sig;
                          authentic = authentic;
                          claims_json = body;
                          decodes_body = e_body;
                          reads_body = e_found ∙ ap some same;
                          in_force = subst (InForce now) same in_force;
                        }

  signed_verifies :
      (token : Text) (claims : Claims)
      → IsSigned x now resolver token claims
      → verify_jwt x now resolver token ≡ ok claims
  unfolding verify_jwt three_parts check_times
  signed_verifies token claims s =
      rw
        (
          s.parts, s.decodes_head, s.reads_head, s.is_eddsa, s.known, s.decodes_tail, s.authentic,
          s.decodes_body, s.reads_body,
        )
        (rw (s.in_force.0, s.in_force.1) refl)

  -- A token verifies, with these claims, exactly when it has three parts, an EdDSA header under a
  -- known key, a third part that is the key's signature of the first two, and a second that reads as
  -- these claims, which are in force.
  pub verify_jwt_iff :
      (token : Text) (claims : Claims)
      → (verify_jwt x now resolver token ≡ ok claims) ↔ IsSigned x now resolver token claims
  verify_jwt_iff token claims = (verified-IsSigned token claims, signed_verifies token claims)

split-part :
    (s rest : Text)
    → NoDots s
    → split_at full_stop (s ++ full_stop ∷ rest) ≡ s ∷ split_at full_stop rest
unfolding split_at
split-part [] rest h = refl
split-part (c ∷ s) rest h = rw (h.0, split-part s rest h.1) refl

split-last : (s : Text) → NoDots s → split_at full_stop s ≡ s ∷ []
unfolding split_at
split-last [] h = refl
split-last (c ∷ s) h = rw (h.0, split-last s h.1) refl

-- What the token code relies on: a signature verifies under the public key, JSON reads back what it
-- wrote, and all of it is bytes.
pub record IsLawful (x : Crypto) (public : Bytes → Bytes) : Type 0 where
  pub verifies : (key msg : Bytes) → x.verify (public key) msg (x.sign key msg) ≡ true
  pub sign_bytes : (key msg : Bytes) → IsBytes (x.sign key msg)
  pub header_back :
      (h : Header) (b : Bytes)
      → x.marshal_header h ≡ some b
      → IsBytes b × (x.unmarshal_header b ≡ some h)
  pub claims_back :
      (c : Claims) (b : Bytes)
      → x.marshal_claims c ≡ some b
      → IsBytes b × (x.unmarshal_claims b ≡ some c)

sign_jwt_made :
    (x : Crypto) (key : Bytes) (kid : Text) (claims : Claims) (hb cb : Bytes)
    → x.marshal_header (record { alg = eddsa; typ = codes "JWT"; kid = kid }) ≡ some hb
    → x.marshal_claims claims ≡ some cb
    → let msg = encode hb ++ full_stop ∷ encode cb in
      sign_jwt x key kid claims ≡ some (msg ++ full_stop ∷ encode (x.sign key (utf8 msg)))
unfolding sign_jwt
sign_jwt_made x key kid claims hb cb e d = ground arith

parts_made :
    (a b c : Text)
    → NoDots a
    → NoDots b
    → NoDots c
    → split_at full_stop ((a ++ full_stop ∷ b) ++ full_stop ∷ c) ≡ a ∷ b ∷ c ∷ []
parts_made a b c p q r =
    rw
      (
        append_assoc a (full_stop ∷ b) (full_stop ∷ c),
        split-part a (b ++ full_stop ∷ c) p,
        split-part b c q,
        split-last c r,
      )
      refl

extract_kid_lem :
    (x : Crypto) (token a b c : Text) (json : Bytes) (h : Header)
    → split_at full_stop token ≡ a ∷ b ∷ c ∷ []
    → decode a ≡ some json
    → x.unmarshal_header json ≡ some h
    → extract_kid x token ≡ ok h.kid
unfolding extract_kid three_parts
extract_kid_lem x token a b c json h parts decodes reads = rw (parts, decodes, reads) refl

module _ (x : Crypto) (public : Bytes → Bytes) (law : IsLawful x public) where
  -- A token that was signed with a key verifies under its public key while its claims are in force,
  -- with those claims, and names the key.
  pub verify-sign_jwt :
      (key : Bytes) (kid token : Text) (claims : Claims) (now : ℤ) (resolver : Text → Option Bytes)
      → sign_jwt x key kid claims ≡ some token
      → resolver kid ≡ some (public key)
      → InForce now claims
      → (verify_jwt x now resolver token ≡ ok claims) × (extract_kid x token ≡ ok kid)
  verify-sign_jwt key kid token claims now resolver made known in_force =
      let header : Header = record { alg = eddsa; typ = codes "JWT"; kid = kid } in
      elim (Option-cases (x.marshal_header header)) [
        | inl e ↦ absurd (unfold sign_jwt in ground arith)
        | inr (hb, e_header) ↦ elim (Option-cases (x.marshal_claims claims)) [
          | inl e ↦ absurd (unfold sign_jwt in ground arith)
          | inr (cb, e_claims) ↦
              let hl = law.header_back header hb e_header in
              let cl = law.claims_back claims cb e_claims in
              let msg = encode hb ++ full_stop ∷ encode cb in
              let sig = x.sign key (utf8 msg) in
              let whole : token ≡ msg ++ full_stop ∷ encode sig =
                some_injective token _
                  (sym made ∙ sign_jwt_made x key kid claims hb cb e_header e_claims) in
              let parts : split_at full_stop token ≡ encode hb ∷ encode cb ∷ encode sig ∷ [] =
                rw whole (
                  parts_made (encode hb) (encode cb) (encode sig) (encode-NoDots hb hl.0)
                    (encode-NoDots cb cl.0) (encode-NoDots sig (law.sign_bytes key (utf8 msg)))) in
              (
                signed_verifies x now resolver token claims (record {
                  head = encode hb;
                  body = encode cb;
                  tail = encode sig;
                  parts = parts;
                  header_json = hb;
                  decodes_head = decode-encode hb hl.0;
                  header = header;
                  reads_head = hl.1;
                  is_eddsa = text_eq_refl eddsa;
                  key = public key;
                  known = known;
                  sig = sig;
                  decodes_tail = decode-encode sig (law.sign_bytes key (utf8 msg));
                  authentic = law.verifies key (utf8 msg);
                  claims_json = cb;
                  decodes_body = decode-encode cb cl.0;
                  reads_body = cl.1;
                  in_force = in_force;
                }),
                extract_kid_lem x token (encode hb) (encode cb) (encode sig) hb header parts
                    (decode-encode hb hl.0) hl.1,
              )
        ]
      ]
