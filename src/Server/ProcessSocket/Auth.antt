-- ===== src/Server/ProcessSocket/Auth.antt =====
-- Who gets into the register, and what is left in it (server/src/process_socket.rs with
-- `authenticate`, `handle` and `close_connection` of server/src/proxy_handler.rs).
use craftip_crosscompiletest.Prelude.{
  ℕ, ◌≡◌, ◌≢◌, inl, inr, ◌↔◌, refl, subst, List, Option, none, some, Bool, true, false, Outcome, ok,
  err, panic, arith, if◌then◌else◌, Bool-cases,
}
use craftip_crosscompiletest.Prelude.Maps
use craftip_crosscompiletest.Prelude.Maps.{bytes_eq, bytes_beq, bytes_beq_iff}
use craftip_crosscompiletest.Shared.Utf8.{RustString}
use craftip_crosscompiletest.Shared.Proxy.{ServerPublicKey, ProxyHelloPacket}
use craftip_crosscompiletest.Shared.SocketPacket.{proxy_auth_response}
use craftip_crosscompiletest.Shared.Crypto.{
  CryptoCrates, CryptoError, create_challange, verify, get_hostname,
}
use craftip_crosscompiletest.Shared.Addressing.{Channel, Register, DistributorError}
use craftip_crosscompiletest.Server.Socket.{Received, packet, failed, ended, Output}
use craftip_crosscompiletest.Server.ProxyHandler.{
  Flow, go_on, break, fail, panicked, key_of, check_reply, check_signature, same_hostname,
  authenticate, enter_register, close_connection,
}
use craftip_crosscompiletest.Server.ProcessSocket.{
  finished, Served, refused, running, returned, failed_with, panicked_at, report, admit,
  serve_admitted,
}

abbrev pub register_of : Served → Register
register_of (refused e r) = r
register_of (running r) = r
register_of (returned r) = r
register_of (failed_with e r) = r
register_of (panicked_at r) = r

module _ (crypto : CryptoCrates) where
  -- The reply signs the challenge with the key of the hello, and the hello claims that key's name.
  pub record Proves (challenge : List ℕ) (reply : Received) (hello : ProxyHelloPacket)
      : Type 0 where
    pub signature : List ℕ
    pub answered : reply ≡ packet (proxy_auth_response signature)
    pub signed : verify crypto (key_of hello.auth) challenge signature ≡ true
    pub named : get_hostname crypto (key_of hello.auth) ≡ ok hello.hostname

  same_hostname-ok :
      (o : Outcome CryptoError RustString) (hostname : RustString)
      → same_hostname o hostname ≡ ok tt
      → o ≡ ok hostname
  same_hostname-ok (ok name) hostname h = ground (arith, bytes_beq_iff name hostname)
  same_hostname-ok (err e) hostname h = cc
  same_hostname-ok panic hostname h = cc

  check_signature-ok :
      (key : ServerPublicKey) (challenge signature : List ℕ) (hostname : RustString)
      → check_signature crypto key challenge signature hostname ≡ ok tt
      → (verify crypto key challenge signature ≡ true) × (get_hostname crypto key ≡ ok hostname)
  check_signature-ok key challenge signature hostname h =
      elim (Bool-cases (verify crypto key challenge signature)) [
        | inl e ↦ (e, same_hostname-ok (get_hostname crypto key) hostname (ground arith))
        | inr e ↦ ground arith
      ]

  check_reply-Proves :
      (challenge : List ℕ) (reply : Received) (hello : ProxyHelloPacket)
      → check_reply crypto (key_of hello.auth) challenge reply hello.hostname ≡ ok tt
      → Proves challenge reply hello
  check_reply-Proves challenge (packet (proxy_auth_response signature)) hello h =
      let (signed, named) =
        check_signature-ok (key_of hello.auth) challenge signature hello.hostname h in
      record { signature = signature; answered = refl; signed = signed; named = named }
  check_reply-Proves challenge (packet _) hello h = cc
  check_reply-Proves challenge failed hello h = cc
  check_reply-Proves challenge ended hello h = cc

  signature-check :
      (key : ServerPublicKey) (challenge signature : List ℕ) (hostname : RustString)
      → verify crypto key challenge signature ≡ true
      → get_hostname crypto key ≡ ok hostname
      → check_signature crypto key challenge signature hostname ≡ ok tt
  signature-check key challenge signature hostname signed named =
      ground (arith, bytes_beq_iff hostname hostname)

  Proves-check_reply :
      (challenge : List ℕ) (reply : Received) (hello : ProxyHelloPacket)
      → Proves challenge reply hello
      → check_reply crypto (key_of hello.auth) challenge reply hello.hostname ≡ ok tt
  Proves-check_reply challenge reply hello v =
      rw v.answered
        (signature-check (key_of hello.auth) challenge v.signature hello.hostname v.signed v.named)

module _ (crypto : CryptoCrates) (shown : DistributorError → RustString) where
  report-ok :
      (error_ok : Bool) (r : Outcome DistributorError (Unit {0}) × List Output)
      → (report crypto shown error_ok r).0 ≡ ok tt
      → r.0 ≡ ok tt
  report-ok error_ok (ok tt, out) h = refl
  report-ok true (err e, out) h = cc
  report-ok false (err e, out) h = cc
  report-ok error_ok (panic, out) h = cc

  report-err :
      (error_ok : Bool) (e : DistributorError) (out : List Output)
      → (report crypto shown error_ok (err e, out)).0 ≢ ok tt
  report-err true e out h = cc
  report-err false e out h = cc

  ok-report :
      (error_ok : Bool) (r : Outcome DistributorError (Unit {0}) × List Output)
      → r.0 ≡ ok tt
      → (report crypto shown error_ok r).0 ≡ ok tt
  ok-report error_ok (ok tt, out) h = refl
  ok-report error_ok (err e, out) h = cc
  ok-report error_ok (panic, out) h = cc

  -- A client whose authentication is over within the ten seconds is admitted exactly when the random
  -- generator gave a challenge, the request could be sent, and the next packet is a signature of
  -- that challenge by the key of the hello, whose host name is the one that the hello claims.
  pub admit_iff :
      (random : Option (List ℕ)) (framed_ok : Bool) (reply : Received) (error_ok : Bool)
      (hello : ProxyHelloPacket)
      → ((admit crypto shown (finished random framed_ok reply) error_ok hello).0 ≡ ok tt) ↔ (
          (challenge : List ℕ) × (random ≡ some challenge)
          × (framed_ok ≡ true)
          × Proves crypto challenge reply hello)
  unfolding admit authenticate create_challange
  admit_iff none framed_ok reply error_ok hello =
      ((λ h. absurd (report-err error_ok _ _ h)), (λ p. cc (p.1)))
  admit_iff (some c) false reply error_ok hello =
      ((λ h. absurd (report-err error_ok _ _ h)), (λ p. cc (p.2)))
  admit_iff (some c) true reply error_ok hello = (
    (λ h. (c, refl, refl, check_reply-Proves crypto c reply hello (report-ok error_ok _ h))),
    (λ p. ok-report error_ok _ (
        Proves-check_reply crypto c reply hello
          (subst (λ x. Proves crypto x reply hello) (same_challenge c p.0 p.1) p.3))),
  )
    where
      same_challenge : (a b : List ℕ) → some a ≡ some b → b ≡ a
      same_challenge a b e = cc

  -- When the handler of an admitted client is over, by a break or by an error, its host name is in
  -- the register no more, whatever the other tasks have entered under it meanwhile; the other host
  -- names are as those tasks left them.
  pub register-after_handle :
      (hello : ProxyHelloPacket) (tx : Channel) (flow : Flow) (others : Register → Register)
      (r : Register) (name : RustString)
      → flow ≢ go_on
      → flow ≢ panicked
      → Maps.get name
          (register_of
            (serve_admitted crypto shown (ok tt) hello.hostname tx flow others r)).servers
        ≡ (if bytes_beq hello.hostname name
            then none
            else Maps.get name (others (enter_register r hello.hostname tx)).servers)
  unfolding close_connection
  register-after_handle hello tx go_on others r name a b = absurd (a refl)
  register-after_handle hello tx break others r name a b = Maps.get-remove hello.hostname name _
  register-after_handle hello tx (fail e) others r name a b = Maps.get-remove hello.hostname name _
  register-after_handle hello tx panicked others r name a b = absurd (b refl)
