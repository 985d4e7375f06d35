-- ===== src/Receiver/Handler/Serving.antt =====
-- What ServeHTTP leaves in the store, and what its answer tells the sender.
use heartpost.Common.{Option-cases, ◌≡◌, ◌≢◌, refl, ◌⊎◌, inl, inr, Bool, false, none, some, arith}
use heartpost.Common.Text.{Text, trim_space}
use heartpost.Common.Assoc.{Assoc}
use heartpost.Common.Int.{ℤ}
use heartpost.Clock.{Time}
use heartpost.Receiver.Disk.{Os}
use heartpost.Receiver.Store.{Store, append}
use heartpost.Receiver.Source.{Ip, Net, is_loopback, remote_ip, or_host}
use heartpost.Receiver.Handler.{
  Handler, Request, Response, Env, Payload, Check, pass, refuse, validate, serve_http, store_report,
  signed, in_window, skew, max_body,
}
use heartpost.Receiver.Handler.Admission.{IsAdmitted, record_of, validate_iff}

Check-cases :
    {A : Type 0} (c : Check A) → ((a : A) × (c ≡ pass a)) ⊎ ((r : Response) × (c ≡ refuse r))
Check-cases (pass a) = inl (a, refl)
Check-cases (refuse r) = inr (r, refl)

remote_ip-forwarded :
    (net : Net) (trust : Bool) (addr forged header : Text)
    → (trust ≡ false)
      ⊎ ((ip : Ip)
          → net.parse_ip (trim_space (or_host (net.split_host addr) addr)) ≡ some ip
          → is_loopback ip ≡ false)
    → remote_ip net trust addr forged ≡ remote_ip net trust addr header
unfolding remote_ip
remote_ip-forwarded net trust addr forged header direct =
    elim (Option-cases (net.parse_ip (trim_space (or_host (net.split_host addr) addr)))) [
      | inl bad ↦ rw bad
      | inr (ip, parsed) ↦
          rw parsed (elim direct [ inl off ↦ rw off | inr far ↦ ground (arith, far ip parsed) ])
    ]

module _ {D : Type 0} (env : Env D) where
  refusal_status :
      (h : Handler) (now : Time) (r : Request) (resp : Response)
      → validate env h now r ≡ refuse resp
      → resp.status ≢ 200
  unfolding validate
  refusal_status h now r resp e = ground arith

  module _ (h : Handler) (os : Os) (now : Time) (r : Request) (s : Store D) where
    -- A request that is answered 200 was admitted, and its record was appended without an error.
    pub serve_http_ok :
        (serve_http env h os now r s).1.status ≡ 200
        → (ts : ℤ) × (payload : Payload) × IsAdmitted env h now r ts payload
          × ((append env.json os (record_of now payload) now s).1 ≡ none)
          × ((serve_http env h os now r s).0 ≡ (append env.json os (record_of now payload) now s).0)
    unfolding serve_http store_report
    serve_http_ok ok = elim (Check-cases (validate env h now r)) [
      | inr (resp, e) ↦ absurd (refusal_status h now r resp e (rw e at ok))
      | inl (rec, e) ↦
          let (ts, payload, admitted, same) = (validate_iff env h now r rec).0 e in
          (ts, payload, admitted, ground (arith, e, same), ground (arith, e, same))
    ]

    -- Any answer but 200 and 500 leaves the store as it was.
    pub refused_unchanged :
        (serve_http env h os now r s).1.status ≢ 200
        → (serve_http env h os now r s).1.status ≢ 500
        → (serve_http env h os now r s).0 ≡ s
    unfolding serve_http store_report
    refused_unchanged not_ok not_failed = ground arith

    -- An id that is not registered and a wrong signature get the same answer: where the keys of
    -- the handler, and other keys, both fail to verify the request, they answer alike.
    pub unsigned_alike :
        (keys : Assoc Text)
        → let other = record h { cfg = record h.cfg { agent_keys = keys } } in
          signed env h.cfg
              (trim_space r.agent_id)
              (trim_space r.timestamp)
              r.body
              (trim_space r.signature)
            ≡ false
          → signed env other.cfg
              (trim_space r.agent_id)
              (trim_space r.timestamp)
              r.body
              (trim_space r.signature)
            ≡ false
          → serve_http env h os now r s ≡ serve_http env other os now r s
    unfolding serve_http validate in_window skew max_body
    unsigned_alike keys bad bad' = ground arith

    -- X-Forwarded-For changes nothing unless the handler trusts it and the peer is this host.
    pub forwarded_ignored :
        (forged : Text)
        → (h.cfg.trust_forwarded_for ≡ false)
          ⊎ ((ip : Ip)
              → env.net.parse_ip
                  (trim_space (or_host (env.net.split_host r.remote_addr) r.remote_addr))
                ≡ some ip
              → is_loopback ip ≡ false)
        → serve_http env h os now (record r { forwarded_for = forged }) s
          ≡ serve_http env h os now r s
    unfolding serve_http validate
    forwarded_ignored forged direct = rw (
        remote_ip-forwarded env.net h.cfg.trust_forwarded_for r.remote_addr forged r.forwarded_for
          direct)
