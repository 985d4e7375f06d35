-- ===== src/Agent/Reporter/Attempts.antt =====
-- How many requests a delivery sends, when it succeeds, and that each request is signed.
use heartpost.Common.{
  ℕ, zero, suc, ◌≤◌, ◌≡◌, ◌≢◌, ◌↔◌, ◌⊎◌, inl, inr, refl, true, false, Option, none, some, arith,
  length, All, Option-cases,
}
use heartpost.Common.Text.{Text}
use heartpost.Common.Int.{pos, ltb_ℤ, pos_part}
use heartpost.Signature.{Bytes, Mac, compute}
use heartpost.Agent.Reporter.{
  Target, Attempt, Post, SendError, outcome, post_of, attempts, send_one, canceled,
}

-- Some attempt from `i` on, of so many, is answered with success.
abbrev pub Succeeds : (ℕ → Attempt) → ℕ → ℕ → Type 0
Succeeds meets i zero = ⊥
Succeeds meets i (suc left) = (outcome (meets i).status ≡ none) ⊎ Succeeds meets (suc i) left

module _ (mac : Mac) (t : Target) (body : Bytes) (agent_id token : Text) (meets : ℕ → Attempt) where
  abbrev pub IsSigned : Post → Type 0
  IsSigned p = (p.signature ≡ compute mac t.api_key p.timestamp p.body) × (p.body ≡ body)

  attempts-IsSigned :
      (left i : ℕ) (last : Option SendError)
      → All IsSigned (attempts mac t body agent_id token meets left i last).1
  unfolding attempts post_of
  attempts-IsSigned zero i last = tt
  attempts-IsSigned (suc left) i last =
      ground (arith, attempts-IsSigned left (suc i) (outcome (meets i).status))

  length-attempts :
      (left i : ℕ) (last : Option SendError)
      → length (attempts mac t body agent_id token meets left i last).1 ≤ left
  unfolding attempts
  length-attempts zero i last = omega arith
  length-attempts (suc left) i last =
      ground (arith, length-attempts left (suc i) (outcome (meets i).status))

  -- Every delivery sends at most one request more than its retries, and each request is signed
  -- with the target's key for its own timestamp and the same body.
  pub send_one_requests :
      let posts = (send_one mac t body agent_id token meets).1 in
      (length posts ≤ suc (pos_part t.retry_count)) × All IsSigned posts
  unfolding send_one
  send_one_requests = ground (
    arith,
    attempts-IsSigned (suc (pos_part t.retry_count)) 0 none,
    length-attempts (suc (pos_part t.retry_count)) 0 none,
  )

  module _ (goes_on : t.stop_on_cancel ≡ false) (builds : (i : ℕ) → (meets i).built ≡ true) where
    attempts_iff :
        (left i : ℕ) (last : Option SendError)
        → last ≢ none
        → ((attempts mac t body agent_id token meets left i last).0 ≡ none) ↔ Succeeds meets i left
    unfolding attempts
    attempts_iff zero i last failed = (λ e. absurd (failed e), λ h. absurd h)
    attempts_iff (suc left) i last failed = elim (Option-cases (outcome (meets i).status)) [
      | inl ok ↦ (λ e. inl ok, λ h. ground (arith, builds i))
      | inr (e, bad) ↦
          let ih = attempts_iff left (suc i) (some e) (λ q. cc) in
          (λ h. inr (ih.0 (ground (arith, builds i))), λ h. ground (arith, builds i, ih.1))
    ]

    attempts_start :
        (left i : ℕ) (e : SendError)
        → attempts mac t body agent_id token meets (suc left) i none
          ≡ attempts mac t body agent_id token meets (suc left) i (some e)
    unfolding attempts
    attempts_start left i e = rw goes_on refl

    -- A delivery that no cancellation stops and whose requests can be built succeeds exactly when
    -- one of its attempts, the first and its retries, is answered with a status of success.
    pub send_one_iff :
        ltb_ℤ t.retry_count (pos 0) ≡ false
        → ltb_ℤ t.timeout (pos 0) ≡ false
        → ((send_one mac t body agent_id token meets).0 ≡ none)
          ↔ Succeeds meets 0 (suc (pos_part t.retry_count))
    unfolding send_one
    send_one_iff nonneg timed =
        rw (nonneg, timed, attempts_start (pos_part t.retry_count) 0 canceled)
          (attempts_iff (suc (pos_part t.retry_count)) 0 (some canceled) (λ e. cc))
