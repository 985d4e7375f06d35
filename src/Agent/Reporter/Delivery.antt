-- ===== src/Agent/Reporter/Delivery.antt =====
-- The agent's request meets the monitor's checks: agent/reporter.go against core/receiver/handler.go.
use heartpost.Common.{
  ℕ, ◌<◌, ◌≤◌, ◌≡◌, ◌≢◌, refl, true, false, some, [], ◌∷◌, arith, length, All, All-mono,
}
use heartpost.Common.Text.{Text, NoSpaces, is_space, trim_space, trim_space-NoSpaces, text_eq_refl}
use heartpost.Common.Assoc.{lookup}
use heartpost.Common.Int.{pos, max_int64}
use heartpost.Common.Decimal.{print_ℤ, print_ℕ, IsNumeral, is_digit, print-IsNumeral, parse-print_ℤ}
use heartpost.Clock.{Time, unix}
use heartpost.Signature.{Bytes, Mac, compute, verify, hex}
use heartpost.Receiver.AgentId.{valid_agent_id, all_id_codes}
use heartpost.Receiver.Source.{remote_ip, ip_allowed}
use heartpost.Receiver.Handler.{Handler, Request, Env, Payload, in_window, max_body, post}
use heartpost.Receiver.Handler.Admission.{IsAdmitted}
use heartpost.Agent.Reporter.{Target, Attempt, Post, post_of}

all_id_codes-NoSpaces : (s : Text) → all_id_codes s ≡ true → NoSpaces s
unfolding all_id_codes is_space
all_id_codes-NoSpaces [] h = tt
all_id_codes-NoSpaces (c ∷ s) h = ground (arith, all_id_codes-NoSpaces s)

valid_agent_id-NoSpaces : (s : Text) → valid_agent_id s ≡ true → NoSpaces s
unfolding valid_agent_id is_space
valid_agent_id-NoSpaces [] h = tt
valid_agent_id-NoSpaces (c ∷ s) h = ground (arith, all_id_codes-NoSpaces s)

numeral-NoSpaces : (s : Text) → IsNumeral s → NoSpaces s
unfolding is_space
numeral-NoSpaces s =
    All-mono (λ c. is_digit c ≡ true) (λ c. is_space c ≡ false) s (λ c h. ground arith)

hex-NoSpaces : (bytes : Bytes) → All (λ b. b < 256) bytes → NoSpaces (hex bytes)
unfolding hex is_space
hex-NoSpaces [] h = tt
hex-NoSpaces (b ∷ bs) h = (ground arith, (ground arith, hex-NoSpaces bs h.1))

-- Every signature verifies under its own key, timestamp and body.
pub verify-compute :
    (mac : Mac) (key ts : Text) (body : Bytes)
    → verify mac key ts body (compute mac key ts body) ≡ true
unfolding verify
verify-compute mac key ts body = text_eq_refl _

-- HMAC-SHA256 gives bytes, and some.
pub record IsMac (mac : Mac) : Type 0 where
  pub bytes : (key message : Bytes) → All (λ b. b < 256) (mac key message)
  pub not_empty : (key message : Bytes) → mac key message ≢ []

-- The request as the handler reads it.
abbrev pub received : Post → Text → Text → Request
received p remote_addr forwarded = record {
  method = post;
  agent_id = p.agent_id;
  timestamp = p.timestamp;
  signature = p.signature;
  forwarded_for = forwarded;
  remote_addr = remote_addr;
  body = p.body;
  broken = false;
}

hex_not_empty : (bytes : Bytes) → bytes ≢ [] → hex bytes ≢ []
unfolding hex
hex_not_empty [] h = absurd (h refl)
hex_not_empty (b ∷ bs) h = λ e. cc

module _ {D : Type 0} (env : Env D) (law : IsMac env.mac) (t : Target) (body : Bytes)
    (agent_id token : Text) (a : Attempt) where
  signature-NoSpaces : (ts : Text) → NoSpaces (compute env.mac t.api_key ts body)
  unfolding compute
  signature-NoSpaces ts = hex-NoSpaces _ (law.bytes _ _)

  signature_not_empty : (ts : Text) → compute env.mac t.api_key ts body ≢ []
  unfolding compute
  signature_not_empty ts = hex_not_empty _ (law.not_empty _ _)

  -- A report that the agent sends is admitted by a monitor that holds the target's key for it,
  -- allows its source and the size of its body, and whose clock is within the skew of the agent's.
  pub delivery-IsAdmitted :
      (h : Handler) (now : Time) (remote_addr forwarded : Text) (n : ℕ) (payload : Payload)
      → valid_agent_id agent_id ≡ true
      → unix a.now ≡ pos n
      → n ≤ max_int64
      → in_window h.cfg now (pos n) ≡ true
      → lookup agent_id h.cfg.agent_keys ≡ some t.api_key
      → t.api_key ≢ []
      → ip_allowed h.allowed (remote_ip env.net h.cfg.trust_forwarded_for remote_addr forwarded)
        ≡ true
      → length body ≤ max_body h.cfg
      → env.payload body ≡ some payload
      → payload.agent_id ≡ agent_id
      → IsAdmitted env h now
          (received (post_of env.mac t body agent_id token a) remote_addr forwarded)
          (pos n)
          payload
  unfolding post_of
  delivery-IsAdmitted h now remote_addr forwarded n payload valid clock fits fresh key full source
        small decodes same =
      let ts = print_ℤ (pos n) in
      let id_kept = trim_space-NoSpaces agent_id (valid_agent_id-NoSpaces agent_id valid) in
      let ts_kept : trim_space ts ≡ ts =
        trim_space-NoSpaces ts
          (unfold print_ℤ in numeral-NoSpaces (print_ℕ n) (print-IsNumeral n)) in
      let sig_kept =
        trim_space-NoSpaces (compute env.mac t.api_key ts body) (signature-NoSpaces ts) in
      record {
        posted = refl;
        id_valid = rw id_kept valid;
        source_allowed = source;
        fits = small;
        whole = refl;
        has_timestamp = rw (clock, ts_kept) (parse-print_ℤ n fits);
        has_signature = rw (clock, sig_kept) (signature_not_empty ts);
        fresh = fresh;
        has_key = rw (id_kept, key) full;
        authentic =
            rw (id_kept, key, clock, ts_kept, sig_kept) (verify-compute env.mac t.api_key ts body);
        decodes = decodes;
        same_agent = rw id_kept same;
      }
