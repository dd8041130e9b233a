-- ===== src/Gui/Port/Name.antt =====
-- The local address behind a click on `Connect`, and what the controller of client-gui/src/backend.rs makes
-- of the name of the server.
use craftip_crosscompiletest.Prelude.{
  Bool, false, lt→ltb, le→ltb_false, ℕ, zero, suc, ◌+◌, ◌-◌, ◌*◌, ◌/◌, ◌%◌, ◌^◌, ◌≤◌, ◌<◌, ◌≡◌,
  refl, sym, ap, ◌∙◌, inl, inr, List, [], ◌∷◌, ◌++◌, Option, none, some, ltb, arith, bytes_of,
  Bool-cases, ltb→lt, ltb_false→le,
}
use craftip_crosscompiletest.Client.Structs.{Server}
use craftip_crosscompiletest.Gui.Channel.{GuiTriggeredEvent}
use craftip_crosscompiletest.Gui.Panels.{ServerPanel, panel_of, press}
use craftip_crosscompiletest.Shared.Addressing.{Channel}
use craftip_crosscompiletest.Gui.Controller.{App, on_gui, spawn, with_port}
use craftip_crosscompiletest.Gui.Port.{digits_from, parse_u16, decimal, localhost}

digit : (n d : ℕ) → d < 10 → n * 10 + d < 65536 → digits_from n ((48 + d) ∷ []) ≡ some (n * 10 + d)
unfolding digits_from
digit n d h fits = ground arith

digits_from-append :
    (n m : ℕ) (xs ys : List ℕ)
    → digits_from n xs ≡ some m
    → digits_from n (xs ++ ys) ≡ digits_from m ys
unfolding digits_from
digits_from-append n m [] ys h = ap (λ o. after o ys) h
  where
    after : Option ℕ → List ℕ → Option ℕ
    after none ys = none
    after (some k) ys = digits_from k ys
digits_from-append n m (c ∷ cs) ys h =
    ground (arith, digits_from-append (n * 10 + (c - 48)) m cs ys)

decimal-last : (k n : ℕ) → n < 10 → decimal (suc k) n ≡ (48 + n) ∷ []
unfolding decimal
decimal-last k n h = rw (lt→ltb n 10 h)

decimal-more : (k n : ℕ) → 10 ≤ n → decimal (suc k) n ≡ decimal k (n / 10) ++ ((48 + n % 10) ∷ [])
unfolding decimal
decimal-more k n h = rw (le→ltb_false n 10 h)

one_digit : (n : ℕ) → n < 10 → digits_from 0 ((48 + n) ∷ []) ≡ some n
one_digit n h = digit 0 n h (omega arith) ∙ ap some (omega arith)

digits_from-decimal :
    (k n : ℕ) → n < 10 ^ suc k → n < 65536 → digits_from 0 (decimal (suc k) n) ≡ some n
digits_from-decimal zero n h fits =
    ap (digits_from 0) (decimal-last 0 n (omega arith)) ∙ one_digit n (omega arith)
digits_from-decimal (suc k) n h fits = elim (Bool-cases (ltb n 10)) [
  | inl small ↦
      ap (digits_from 0) (decimal-last (suc k) n (ltb→lt n 10 small))
      ∙ one_digit n (ltb→lt n 10 small)
  | inr large ↦
      ap (digits_from 0) (decimal-more (suc k) n (ltb_false→le n 10 large))
      ∙ digits_from-append 0 (n / 10) (decimal (suc k) (n / 10)) ((48 + n % 10) ∷ [])
          (digits_from-decimal k (n / 10) (omega arith) (omega arith))
      ∙ digit (n / 10) (n % 10) (omega arith) (omega arith)
      ∙ ap some (omega arith)
]

-- The text starts with a digit.
digit_first : (k n : ℕ) → (c : ℕ) × (cs : List ℕ) × (decimal (suc k) n ≡ c ∷ cs) × (48 ≤ c)
digit_first zero n = elim (Bool-cases (ltb n 10)) [
  | inl small ↦ (48 + n, [], decimal-last 0 n (ltb→lt n 10 small), omega arith)
  | inr large ↦ (
    48 + n % 10,
    [],
    decimal-more 0 n (ltb_false→le n 10 large) ∙ (unfold decimal in refl),
    omega arith,
  )
]
digit_first (suc k) n = elim (Bool-cases (ltb n 10)) [
  | inl small ↦ (48 + n, [], decimal-last (suc k) n (ltb→lt n 10 small), omega arith)
  | inr large ↦
      let (c, cs, e, h) = digit_first k (n / 10) in
      (
        c,
        cs ++ ((48 + n % 10) ∷ []),
        decimal-more (suc k) n (ltb_false→le n 10 large) ∙ ap (λ ds. ds ++ ((48 + n % 10) ∷ [])) e,
        h,
      )
]

parse_u16-digit : (c : ℕ) (cs : List ℕ) → 48 ≤ c → parse_u16 (c ∷ cs) ≡ digits_from 0 (c ∷ cs)
unfolding parse_u16
parse_u16-digit c cs h = ground arith

parse_u16-decimal : (n : ℕ) → n < 65536 → parse_u16 (decimal 5 n) ≡ some n
parse_u16-decimal n h =
    let (c, cs, e, first) = digit_first 4 n in
    ap parse_u16 e
    ∙ parse_u16-digit c cs first
    ∙ sym (ap (digits_from 0) e)
    ∙ digits_from-decimal 4 n (omega arith) h

-- The server that a click on `Connect` sends to the controller.
abbrev sent : Server → Server
sent s = record s { local = localhost s.local }

port_keeps_name :
    (s : Server) (port : ℕ)
    → port < 65536
    → s.local ≡ decimal 5 port
    → with_port (sent s)
      ≡ record { server = s.server; local = bytes_of "localhost:" ++ decimal 5 port; auth = s.auth }
unfolding localhost
port_keeps_name s port h e = rw (e, parse_u16-decimal port h) refl

-- Where the local address is the decimal text of a port of 16 bits: a click on the button of the panel,
-- when no server is connected, makes the controller start a client whose local server is that port of the
-- own machine, under the same name and with the same key.
pub click_starts_port :
    (s : Server) (port : ℕ) (new_tx : Channel) (send_ok : Bool) (a : App)
    → port < 65536
    → s.local ≡ decimal 5 port
    → (q : ServerPanel) × (e : GuiTriggeredEvent) × (press localhost false (panel_of s)
        ≡ some (q, e))
      × ((on_gui new_tx send_ok (some e) a).output
          ≡ spawn
              (record {
                server = s.server;
                local = bytes_of "localhost:" ++ decimal 5 port;
                auth = s.auth;
              })
              new_tx
            ∷ [])
unfolding press panel_of on_gui
click_starts_port s port new_tx send_ok a h e =
    (_, _, refl, ap (λ x. spawn x new_tx ∷ []) (port_keeps_name s port h e))
