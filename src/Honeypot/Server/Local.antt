-- ===== src/Honeypot/Server/Local.antt =====
-- The settings that New leaves.
use heartpost.Common.{
  ◌≡◌, ◌≢◌, ◌⊎◌, refl, inl, inr, true, false, Option, none, some, List, [], ◌∷◌, Bool-cases, arith,
}
use mathlib.Core.Path.{subst}
use heartpost.Common.Text.{Text, codes, text_eq, text_eq_sound, is_empty}
use heartpost.Common.Int.{pos, ltb_ℤ}
use heartpost.Receiver.Source.{Net}
use heartpost.Honeypot.Server.{
  Config, Made, made, not_made, with_limits, with_listen, is_local, new_on, new_server,
}

abbrev pub IsLocalHost : Text → Type 0
IsLocalHost host = (host ≡ codes "127.0.0.1") ⊎ ((host ≡ codes "localhost") ⊎ (host ≡ codes "::1"))

abbrev pub IsMade : Net → Config → Type 0
IsMade net c =
    ((host : Text) × (net.split_host c.listen ≡ some host) × IsLocalHost host)
    × (is_empty c.jsonl_path ≡ false)
    × (ltb_ℤ (pos 0) c.max_body_bytes ≡ true)
    × (c.allowed_headers ≢ [])

is_local-IsLocalHost : (host : Text) → is_local host ≡ true → IsLocalHost host
unfolding is_local
is_local-IsLocalHost host h = elim (Bool-cases (text_eq host (codes "127.0.0.1"))) [
  | inl four ↦ inl (text_eq_sound host (codes "127.0.0.1") four)
  | inr other ↦ elim (Bool-cases (text_eq host (codes "localhost"))) [
    | inl named ↦ inr (inl (text_eq_sound host (codes "localhost") named))
    | inr third ↦ inr (inr (text_eq_sound host (codes "::1") (rw (other, third) at h)))
  ]
]

with_limits-pos : (c : Config) → ltb_ℤ (pos 0) (with_limits c).max_body_bytes ≡ true
unfolding with_limits
with_limits-pos c = elim (Bool-cases (ltb_ℤ (pos 0) c.max_body_bytes)) [
  | inl h ↦ rw h h
  | inr h ↦ rw h refl
]

cons_not_empty : (k : Text) (ks : List Text) → (k ∷ ks) ≢ []
cons_not_empty k ks e = ground arith

or_defaults :
    (keys : List Text)
    → (elim keys [ [] ↦ codes "user-agent" ∷ codes "referer" ∷ [] | key ∷ ks ↦ key ∷ ks ]) ≢ []
or_defaults [] = cons_not_empty (codes "user-agent") (codes "referer" ∷ [])
or_defaults (k ∷ ks) = cons_not_empty k ks

with_limits-headers : (c : Config) → (with_limits c).allowed_headers ≢ []
unfolding with_limits
with_limits-headers c = or_defaults c.allowed_headers

split_limits :
    (net : Net) (c : Config) (host : Text)
    → net.split_host c.listen ≡ some host
    → net.split_host (with_limits c).listen ≡ some host
unfolding with_limits
split_limits net c host h = h

path_limits :
    (c : Config) → is_empty c.jsonl_path ≡ false → is_empty (with_limits c).jsonl_path ≡ false
unfolding with_limits
path_limits c h = h

-- A property of the configuration that New makes, if it makes one.
abbrev Then : (Config → Type 0) → Made → Type 0
Then P (made c) = P c
Then P (not_made e) = Unit

new_on-IsMade :
    (net : Net) (o : Option Text) (c : Config)
    → net.split_host c.listen ≡ o
    → Then (IsMade net) (new_on o c)
unfolding new_on
new_on-IsMade net none c split = tt
new_on-IsMade net (some host) c split = elim (Bool-cases (is_local host)) [
  | inr far ↦ rw far tt
  | inl near ↦ elim (Bool-cases (is_empty c.jsonl_path)) [
    | inl missing ↦ rw (near, missing) tt
    | inr named ↦
        rw (near, named)
          (
            (host, split_limits net c host split, is_local-IsLocalHost host near),
            path_limits c named,
            with_limits-pos c,
            with_limits-headers c,
          )
  ]
]

-- A server that New makes listens on 127.0.0.1, localhost or ::1, writes to a named file, keeps at
-- least one byte of a body and has a list of headers to keep that is not empty.
pub new_server-IsMade : (net : Net) (c c' : Config) → new_server net c ≡ made c' → IsMade net c'
unfolding new_server
new_server-IsMade net c c' h =
    subst (Then (IsMade net)) h
      (new_on-IsMade net (net.split_host (with_listen c).listen) (with_listen c) refl)
