-- ===== src/Server/Sessions/Live.antt =====
-- Where the host names in the register lead, while the tasks of server/src/main.rs come and go.
use craftip_crosscompiletest.Prelude.{
  ap, ◌≡◌, ◌≢◌, refl, sym, ◌∙◌, subst, subst₂, inl, inr, ◌⊎◌, List, [], ◌∷◌, ◌++◌, some, Bool, true,
  false, arith,
}
use craftip_crosscompiletest.Prelude.Maps
use craftip_crosscompiletest.Prelude.Maps.{bytes_eq, bytes_beq, bytes_beq_iff}
use craftip_crosscompiletest.Shared.Utf8.{RustString}
use craftip_crosscompiletest.Shared.Crypto.{CryptoCrates}
use craftip_crosscompiletest.Shared.Addressing.{Channel, Register, register_new, DistributorError}
use craftip_crosscompiletest.Server.ProxyHandler.{
  Flow, go_on, break, fail, panicked, handle, enter_register, close_connection,
}
use craftip_crosscompiletest.Server.ProxyHandler.NoPanic.{handle-flow}
use craftip_crosscompiletest.Server.ProcessSocket.{after_handle}
use craftip_crosscompiletest.Server.ProcessSocket.Auth.{register_of}
use craftip_crosscompiletest.Server.Sessions.{
  Session, Ended, World, started, Step, Reach, here, next, enters, ends, closes,
}

-- One of the list has a session for the host name, on the channel.
abbrev pub Among : {A : Type 0} → (A → Session) → RustString → Channel → List A → Type 0
Among f name tx [] = ⊥
Among f name tx (x ∷ xs) = (((f x).hostname ≡ name) × ((f x).tx ≡ tx)) ⊎ Among f name tx xs

-- A handler that was started for the host name, on the channel, runs.
abbrev pub Runs : RustString → Channel → List Session → Type 0
Runs = Among (λ x. x)

-- A handler that was started for the host name, on the channel, is over and its session not closed.
abbrev pub Closing : RustString → Channel → List Ended → Type 0
Closing = Among (λ e. e.session)

-- Every host name in the register leads to the channel of a handler that runs, or of one that is
-- over and still has to be closed.
abbrev pub Live : Register → List Session → List Ended → Type 0
Live r sessions closing =
    (name : RustString) (tx : Channel)
    → Maps.get name r.servers ≡ some tx
    → Runs name tx sessions ⊎ Closing name tx closing

Among-split :
    {A : Type 0} (f : A → Session) (before : List A) (x : A) (after : List A) (name : RustString)
    (tx : Channel)
    → Among f name tx (before ++ (x ∷ after))
    → (((f x).hostname ≡ name) × ((f x).tx ≡ tx)) ⊎ Among f name tx (before ++ after)
Among-split f [] x after name tx (inl h) = inl h
Among-split f [] x after name tx (inr h) = inr h
Among-split f (y ∷ ys) x after name tx (inl h) = inr (inl h)
Among-split f (y ∷ ys) x after name tx (inr h) = elim (Among-split f ys x after name tx h) [
  | inl itself ↦ inl itself
  | inr other ↦ inr (inr other)
]

module _ (crypto : CryptoCrates) (shown : DistributorError → RustString) where
  over :
      (f : Flow) (x : RustString) (r : Register)
      → f ≢ go_on
      → f ≢ panicked
      → register_of (after_handle crypto shown f x (λ r. r) r) ≡ close_connection r x
  over go_on x r a b = absurd (a refl)
  over break x r a b = refl
  over (fail e) x r a b = refl
  over panicked x r a b = absurd (b refl)

  enters-Live :
      (r : Register) (sessions : List Session) (closing : List Ended) (hostname : RustString)
      (new : Channel)
      → Live r sessions closing
      → Live
          (enter_register r hostname new)
          (record { hostname = hostname; tx = new } ∷ sessions)
          closing
  unfolding enter_register
  enters-Live r sessions closing hostname new live name tx h = go (bytes_beq hostname name) refl
    where
      go :
          (b : Bool)
          → bytes_beq hostname name ≡ b
          → Runs name tx (record { hostname = hostname; tx = new } ∷ sessions)
            ⊎ Closing name tx closing
      go true e = inl (
          inl (
            (bytes_beq_iff hostname name).0 e,
            ground (arith, Maps.get-insert hostname name new r.servers),
          ))
      go false e =
          elim (live name tx (ground (arith, Maps.get-insert hostname name new r.servers))) [
            | inl running ↦ inl (inr running)
            | inr closed ↦ inr closed
          ]

  ends-Live :
      (r : Register) (before after : List Session) (closing : List Ended) (e : Ended)
      → Live r (before ++ (e.session ∷ after)) closing
      → Live r (before ++ after) (e ∷ closing)
  ends-Live r before after closing e live name tx h = elim (live name tx h) [
    | inl running ↦ elim (Among-split (λ x. x) before e.session after name tx running) [
      | inl itself ↦ inr (inl itself)
      | inr other ↦ inl other
    ]
    | inr closed ↦ inr (inr closed)
  ]

  closes-Live :
      (r : Register) (sessions : List Session) (before after : List Ended) (e : Ended)
      → Live r sessions (before ++ (e ∷ after))
      → Live (close_connection r e.session.hostname) sessions (before ++ after)
  unfolding close_connection
  closes-Live r sessions before after e live name tx h = go (bytes_beq e.session.hostname name) refl
    where
      go :
          (b : Bool)
          → bytes_beq e.session.hostname name ≡ b
          → Runs name tx sessions ⊎ Closing name tx (before ++ after)
      go true same = ground (arith, Maps.get-remove e.session.hostname name r.servers)
      go false differ =
          elim (live name tx (ground (arith, Maps.get-remove e.session.hostname name r.servers))) [
            | inl running ↦ inl running
            | inr closed ↦ elim (Among-split (λ x. x.session) before e after name tx closed) [
              | inl itself ↦ cc (differ, (bytes_beq_iff e.session.hostname name).1 itself.0)
              | inr other ↦ inr other
            ]
          ]

  -- The register, the running and the ended handlers of a world are what a step says they are.
  Live-world :
      (t : World) (r : Register) (sessions : List Session) (closing : List Ended)
      → t.register ≡ r
      → t.sessions ≡ sessions
      → t.closing ≡ closing
      → Live r sessions closing
      → Live t.register t.sessions t.closing
  Live-world t r sessions closing p q w live name tx h =
      subst₂ (λ x y. Runs name tx x ⊎ Closing name tx y) (sym q) (sym w)
        (live name tx (ap (λ x. Maps.get name x.servers) (sym p) ∙ h))

  Step-Live :
      (s t : World)
      → Live s.register s.sessions s.closing
      → Step crypto shown s t
      → Live t.register t.sessions t.closing
  Step-Live s t live (enters wait error_ok hello tx admitted p q w) =
      Live-world t _ _ _ p q w (enters-Live s.register s.sessions s.closing hello.hostname tx live)
  Step-Live s t live (ends before after e found p q w) = Live-world t _ _ _ p q w (
      ends-Live s.register before after s.closing e
        (subst (λ x. Live s.register x s.closing) found live))
  Step-Live s t live (closes before after e found p q w) =
      Live-world t _ _ _
        (p
          ∙ over (handle e.framed_ok e.events).flow e.session.hostname s.register e.over
              (handle-flow e.framed_ok e.events))
        q w
        (closes-Live s.register s.sessions before after e
          (subst (λ x. Live s.register s.sessions x) found live))

  started-Live : Live started.register started.sessions started.closing
  unfolding register_new Maps.get
  started-Live name tx h = cc

  Reach-Live : (t : World) → Reach crypto shown started t → Live t.register t.sessions t.closing
  Reach-Live t here = started-Live
  Reach-Live t (next {t = s} r step) = Step-Live s t (Reach-Live s r) step

  -- Whatever clients are admitted, end and are closed, in any order, also under the same host name,
  -- where a handler has failed, and while others wait for the register: a host name in the register
  -- leads to the channel of a handler that was started for this name and either runs, or is over and
  -- its `close_connection` is still to come.
  pub register_live :
      (t : World) (name : RustString) (tx : Channel)
      → Reach crypto shown started t
      → Maps.get name t.register.servers ≡ some tx
      → Runs name tx t.sessions ⊎ Closing name tx t.closing
  register_live t name tx r h = Reach-Live t r name tx h
