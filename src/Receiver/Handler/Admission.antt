-- ===== src/Receiver/Handler/Admission.antt =====
-- Which requests are let through, and what a refusal shows.
use heartpost.Common.{
  ◌≡◌, ◌≢◌, ◌↔◌, Option-cases, refl, inl, inr, true, false, some, [], ◌∷◌, arith, length, ◌≤◌,
}
use heartpost.Common.Text.{Text, text_eq_iff, is_empty, trim_space}
use heartpost.Common.Assoc.{lookup}
use heartpost.Common.Int.{ℤ}
use heartpost.Common.Decimal.{parse_int64}
use heartpost.Clock.{Time}
use heartpost.Calendar.{format_rfc3339}
use heartpost.Signature.{verify}
use heartpost.Receiver.AgentId.{valid_agent_id}
use heartpost.Receiver.State.{Record}
use heartpost.Receiver.Source.{remote_ip, ip_allowed}
use heartpost.Receiver.Handler.{
  Handler, Request, Env, Payload, pass, validate, signed, in_window, max_body, or_empty, post,
}

-- The record of a payload that arrived at that time.
abbrev pub record_of : Time → Payload → Record
record_of now payload = record {
  received_at = format_rfc3339 now;
  agent_id = payload.agent_id;
  agent_label = payload.agent_label;
  agent_type = payload.agent_type;
  reported_at = payload.reported_at;
  collectors = payload.collectors;
}

parsed_not_empty : (s : Text) (ts : ℤ) → parse_int64 s ≡ some ts → is_empty s ≡ false
unfolding parse_int64
parsed_not_empty [] ts h = ground arith
parsed_not_empty (c ∷ s) ts h = refl

valid_not_empty : (s : Text) → valid_agent_id s ≡ true → is_empty s ≡ false
unfolding valid_agent_id
valid_not_empty [] h = ground arith
valid_not_empty (c ∷ s) h = refl

module _ {D : Type 0} (env : Env D) (h : Handler) (now : Time) (r : Request) where
  -- What a request must be to get through.
  pub record IsAdmitted (ts : ℤ) (payload : Payload) : Type 0 where
    pub posted : r.method ≡ post
    pub id_valid : valid_agent_id (trim_space r.agent_id) ≡ true
    pub source_allowed :
        ip_allowed h.allowed
          (remote_ip env.net h.cfg.trust_forwarded_for r.remote_addr r.forwarded_for)
        ≡ true
    pub fits : length r.body ≤ max_body h.cfg
    pub whole : r.broken ≡ false
    pub has_timestamp : parse_int64 (trim_space r.timestamp) ≡ some ts
    pub has_signature : trim_space r.signature ≢ []
    pub fresh : in_window h.cfg now ts ≡ true
    pub has_key : or_empty (lookup (trim_space r.agent_id) h.cfg.agent_keys) ≢ []
    pub authentic :
        verify env.mac
          (or_empty (lookup (trim_space r.agent_id) h.cfg.agent_keys))
          (trim_space r.timestamp)
          r.body
          (trim_space r.signature)
        ≡ true
    pub decodes : env.payload r.body ≡ some payload
    pub same_agent : payload.agent_id ≡ trim_space r.agent_id

  pass-IsAdmitted :
      (rec : Record) (ts : ℤ) (payload : Payload)
      → parse_int64 (trim_space r.timestamp) ≡ some ts
      → env.payload r.body ≡ some payload
      → validate env h now r ≡ pass rec
      → IsAdmitted ts payload
  unfolding validate signed
  pass-IsAdmitted rec ts payload parsed decoded e =
      ground
        (arith, text_eq_iff r.method post, text_eq_iff payload.agent_id (trim_space r.agent_id))

  pass-record_of :
      (rec : Record) (payload : Payload)
      → env.payload r.body ≡ some payload
      → validate env h now r ≡ pass rec
      → rec ≡ record_of now payload
  unfolding validate
  pass-record_of rec payload decoded e = ground arith

  pass_parses :
      (rec : Record)
      → validate env h now r ≡ pass rec
      → (ts : ℤ) × (parse_int64 (trim_space r.timestamp) ≡ some ts)
  unfolding validate
  pass_parses rec e = elim (Option-cases (parse_int64 (trim_space r.timestamp))) [
    | inl bad ↦ absurd (ground (arith, bad))
    | inr found ↦ found
  ]

  pass_decodes :
      (rec : Record)
      → validate env h now r ≡ pass rec
      → (payload : Payload) × (env.payload r.body ≡ some payload)
  unfolding validate
  pass_decodes rec e = elim (Option-cases (env.payload r.body)) [
    | inl bad ↦ absurd (ground (arith, bad))
    | inr found ↦ found
  ]

  IsAdmitted-pass :
      (ts : ℤ) (payload : Payload)
      → IsAdmitted ts payload
      → validate env h now r ≡ pass (record_of now payload)
  unfolding validate signed
  IsAdmitted-pass ts payload a = ground (
    arith,
    text_eq_iff r.method post,
    text_eq_iff payload.agent_id (trim_space r.agent_id),
    parsed_not_empty (trim_space r.timestamp) ts a.has_timestamp,
    valid_not_empty (trim_space r.agent_id) a.id_valid,
    a.has_signature,
    a.posted,
    a.id_valid,
    a.source_allowed,
    a.fits,
    a.whole,
    a.has_timestamp,
    a.fresh,
    a.has_key,
    a.authentic,
    a.decodes,
    a.same_agent,
  )

  -- A request gets through exactly when it is admitted, and the record to be stored holds the
  -- values of its signed body.
  pub validate_iff :
      (rec : Record)
      → (validate env h now r ≡ pass rec)
        ↔ ((ts : ℤ) × (payload : Payload) × IsAdmitted ts payload × (rec ≡ record_of now payload))
  validate_iff rec = (
    λ e.
        let (ts, parsed) = pass_parses rec e in
        let (payload, decoded) = pass_decodes rec e in
        (
          ts,
          payload,
          pass-IsAdmitted rec ts payload parsed decoded e,
          pass-record_of rec payload decoded e,
        ),
    λ (ts, payload, a, same). rw same (IsAdmitted-pass ts payload a),
  )
