-- ===== src/Honeypot/Server/Hidden.antt =====
-- What the honeypot's log does not tell of a body.
use heartpost.Common.{
  ℕ, zero, suc, ◌≤◌, ◌≡◌, refl, ap, Bool, true, false, Option, List, [], ◌∷◌, length, take, arith,
  if◌then◌else◌,
}
use heartpost.Common.Int.{ℤ, pos, pos_part, ltb_ℤ}
use heartpost.Signature.{Bytes}
use heartpost.Honeypot.Mask.{mask_body}
use heartpost.Honeypot.Mask.Secrets.{Alike, mask_body-Alike}
use heartpost.Honeypot.Server.{
  Config, World, Os, Request, read_limited, without_key, event_of, handle,
}

take-all : {A : Type 0} (xs : List A) (n : ℕ) → length xs ≤ n → take n xs ≡ xs
take-all [] zero h = refl
take-all [] (suc n) h = refl
take-all (x ∷ xs) zero h = ground arith
take-all (x ∷ xs) (suc n) h = ap (λ ys. x ∷ ys) (take-all xs n (omega arith))

masked_read :
    {a b : Bytes} (limit : ℤ)
    → Alike a b
    → length a ≤ pos_part limit
    → length b ≤ pos_part limit
    → mask_body (read_limited a limit) ≡ mask_body (read_limited b limit)
unfolding read_limited
masked_read {a} {b} limit alike fits_a fits_b =
    rw (take-all a (pos_part limit) fits_a, take-all b (pos_part limit) fits_b)
      (choice (ltb_ℤ (pos 0) limit))
  where
    choice : (t : Bool) → mask_body (if t then a else []) ≡ mask_body (if t then b else [])
    choice true = mask_body-Alike alike
    choice false = refl

-- Two requests whose bodies are within the limit, and differ only in what stands after `name=`, up to
-- the next space or ampersand or the end, get the same answer and leave the same log. The name is
-- password, passwd, token, secret, api_key, api-key or apikey, in lower case, at the start of the
-- body or right after a space or an ampersand, and what stands after it is empty in neither body.
pub handle-Alike :
    (w : World) (c : Config) (os : Os) (req : Request) (log : Option Bytes) {a b : Bytes}
    → Alike a b
    → length a ≤ pos_part c.max_body_bytes
    → length b ≤ pos_part c.max_body_bytes
    → handle w c os (record req { body = a }) log ≡ handle w c os (record req { body = b }) log
unfolding handle event_of without_key
handle-Alike w c os req log alike fits_a fits_b =
    rw (masked_read c.max_body_bytes alike fits_a fits_b) refl
