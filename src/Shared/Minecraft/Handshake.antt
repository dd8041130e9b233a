-- ===== src/Shared/Minecraft/Handshake.antt =====
-- The handshake of a current Minecraft client, as the protocol writes it, and what the parsers of
-- shared/src/minecraft.rs make of it.
use craftip_crosscompiletest.Prelude.{
  Outcome, ne→==_false, ==_refl, lt→ltb, ℕ, ◌+◌, ◌*◌, ◌/◌, ◌%◌, ◌^◌, ◌≤◌, ◌<◌, ◌≡◌, ◌≢◌, refl, ap,
  subst, ◌∙◌, sym, List, [], ◌∷◌, ◌++◌, ok, err, length, arith, true, ◌==◌, append_assoc,
  length-append,
}
use craftip_crosscompiletest.Shared.Bytes.{Read, BytesCrate, at}
use craftip_crosscompiletest.Shared.Utf8.{RustString, is_utf8}
use craftip_crosscompiletest.Shared.Datatypes.{
  PacketError, not_matching, IsI32, not_valid, as_usize,
}
use craftip_crosscompiletest.Shared.Datatypes.Varint.{encode_varint}
use craftip_crosscompiletest.Shared.Cursor.Exact.{
  throw_ok, read_varint_ok, read_varint_small, get_utf8_string_ok,
}
use craftip_crosscompiletest.Shared.Cursor.{◌>>=◌, ◌>>◌, ensure, pure, position}
use craftip_crosscompiletest.Shared.Minecraft.Skips.{hello_new_by_new_pkg}
use craftip_crosscompiletest.Shared.Datatypes.Varint.{encode_varint_small, encode_varint_two}
use craftip_crosscompiletest.Shared.Minecraft.{
  MinecraftHelloPacket, or_next, hello_new, new_pkg, read_new_pkg, Header,
}

-- The packet without the length at its front and the next state at its end.
abbrev pub handshake_fields : ℕ → RustString → ℕ → List ℕ
handshake_fields version hostname port =
    0 ∷ encode_varint version
    ++ (encode_varint (length hostname) ++ (hostname ++ port / 256 ∷ port % 256 ∷ []))

abbrev pub handshake_length : ℕ → RustString → ℕ → ℕ
handshake_length version hostname port = length (handshake_fields version hostname port) + 1

-- The bytes up to the next state.
abbrev pub handshake_head : ℕ → RustString → ℕ → List ℕ
handshake_head version hostname port =
    encode_varint (handshake_length version hostname port) ++ handshake_fields version hostname port

module _ (bytes : BytesCrate) (version : ℕ) (hostname : RustString) (port : ℕ) (n : ℕ)
    (rest : List ℕ) (version_fits : IsI32 version) (name_valid : is_utf8 hostname ≡ true)
    (name_fits : length hostname < 2 ^ 31) (port_fits : port < 2 ^ 16) (n_fits : IsI32 n) where
  open bytes use {get_u16_lem, split_to, split_to_lem}

  abbrev before_name : List ℕ
  before_name = (encode_varint n ++ 0 ∷ []) ++ encode_varint version

  abbrev with_name : List ℕ
  with_name = (before_name ++ encode_varint (length hostname)) ++ hostname

  abbrev with_port : List ℕ
  with_port = with_name ++ port / 256 ∷ port % 256 ∷ []

  abbrev from_start : List ℕ
  from_start =
      encode_varint n
      ++ (0
          ∷ (encode_varint version
              ++ (encode_varint (length hostname) ++ (hostname ++ port / 256 ∷ port % 256 ∷ rest))))

  abbrev fields_read : Read Header
  fields_read = do
    p ← position
    ensure (p == as_usize n) not_valid
    pure (record { id = 0; version = version; hostname = hostname; port = port })

  -- All fields are read, and what is left is the test of the length.
  read_fields : read_new_pkg bytes (at [] from_start) ≡ fields_read (at with_port rest)
  unfolding read_new_pkg
  read_fields =
      rw
        (
          read_varint_ok []
              (0
                ∷ (encode_varint version
                    ++ (encode_varint (length hostname)
                        ++ (hostname ++ port / 256 ∷ port % 256 ∷ rest))))
              n n_fits,
          read_varint_small (encode_varint n)
              (encode_varint version
                ++ (encode_varint (length hostname)
                    ++ (hostname ++ port / 256 ∷ port % 256 ∷ rest)))
              0 (omega arith),
          read_varint_ok (encode_varint n ++ 0 ∷ [])
              (encode_varint (length hostname) ++ (hostname ++ port / 256 ∷ port % 256 ∷ rest))
              version version_fits,
          get_utf8_string_ok bytes before_name hostname (port / 256 ∷ port % 256 ∷ rest) name_valid
              name_fits,
          throw_ok bytes with_name (port / 256 ∷ port % 256 ∷ rest) 2 (omega arith),
          get_u16_lem with_name rest (port / 256) (port % 256),
          whole_port,
        )
        refl
    where
      whole_port : port / 256 * 256 + port % 256 ≡ port
      whole_port = omega arith

  with_port-head : with_port ≡ encode_varint n ++ handshake_fields version hostname port
  with_port-head = simp append_assoc

  from_start_split : from_start ≡ with_port ++ rest
  from_start_split = simp append_assoc

  taken : length with_port ≡ n → split_to n from_start ≡ ok (with_port, rest)
  taken whole =
      ap (λ k. split_to k from_start) (sym whole)
      ∙ ap (split_to (length with_port)) from_start_split
      ∙ split_to_lem with_port rest

  new_pkg_ok :
      length with_port ≡ n
      → n < 2 ^ 31
      → new_pkg bytes from_start ≡ (
        ok (record {
          packet_length = n;
          id = 0;
          version = version;
          hostname = hostname;
          port = port;
          body = with_port;
        }),
        rest,
      )
  unfolding new_pkg
  new_pkg_ok whole small =
      rw (read_fields, lt→ltb n (2 ^ 31) small, whole, ==_refl n, taken whole) refl

  new_pkg_refused :
      length with_port ≢ n → n < 2 ^ 31 → new_pkg bytes from_start ≡ (err not_valid, from_start)
  unfolding new_pkg
  new_pkg_refused other small =
      rw (read_fields, lt→ltb n (2 ^ 31) small, ne→==_false (length with_port) n other) refl

  hello_new-from_start :
      (b : ℕ) (tail : List ℕ)
      → from_start ≡ b ∷ tail
      → b ≢ 0xfe
      → b ≢ 0x02
      → hello_new bytes from_start
        ≡ or_next (new_pkg bytes from_start) (λ buf. (err not_matching, buf))
  hello_new-from_start b tail e h k =
      subst (λ l. hello_new bytes l ≡ or_next (new_pkg bytes l) (λ buf. (err not_matching, buf)))
        (sym e) (hello_new_by_new_pkg bytes b tail h k)

handshake_length-ge :
    (version : ℕ) (hostname : RustString) (port : ℕ)
    → length hostname + 4 ≤ handshake_length version hostname port
handshake_length-ge version hostname port = omega (
  arith,
  length-append (encode_varint version)
      (encode_varint (length hostname) ++ (hostname ++ port / 256 ∷ port % 256 ∷ [])),
  length-append (encode_varint (length hostname)) (hostname ++ port / 256 ∷ port % 256 ∷ []),
  length-append hostname (port / 256 ∷ port % 256 ∷ []),
)

module _ (bytes : BytesCrate) (version : ℕ) (hostname : RustString) (port next : ℕ) (rest : List ℕ)
    (version_fits : IsI32 version) (name_valid : is_utf8 hostname ≡ true)
    (port_fits : port < 2 ^ 16) where
  -- The handshake of a current client, for any version, host name and port, is parsed back with its
  -- fields if the packet is at most 127 bytes long; the hello carries the bytes of the handshake but
  -- for the last, the next state, which stays in the buffer with what follows.
  pub hello_new-handshake :
      handshake_length version hostname port < 128
      → hello_new bytes (handshake_head version hostname port ++ next ∷ rest) ≡ (
        ok (record {
          packet_length = handshake_length version hostname port;
          id = 0;
          version = version;
          hostname = hostname;
          port = port;
          body = handshake_head version hostname port;
        }),
        next ∷ rest,
      )
  hello_new-handshake short =
      ap (hello_new bytes) same_start
      ∙ hello_new-from_start bytes version hostname port n (next ∷ rest) version_fits name_valid
          name_fits port_fits n_fits n (handshake_fields version hostname port ++ next ∷ rest)
          (rw one_byte (simp append_assoc)) (omega (arith, short)) (omega (arith, least))
      ∙ ap (λ r. or_next r (λ buf. (err not_matching, buf)))
          (new_pkg_ok bytes version hostname port n (next ∷ rest) version_fits name_valid name_fits
            port_fits n_fits whole (omega (arith, short)))
      ∙ ap with_body (
          with_port-head bytes version hostname port n (next ∷ rest) version_fits name_valid
            name_fits port_fits n_fits)
    where
      n : ℕ
      n = handshake_length version hostname port

      n_fits : IsI32 n
      n_fits = omega (arith, short)

      least : length hostname + 4 ≤ n
      least = handshake_length-ge version hostname port

      name_fits : length hostname < 2 ^ 31
      name_fits = omega (arith, short, least)

      one_byte : encode_varint n ≡ n ∷ []
      one_byte = encode_varint_small n short

      same_start :
          handshake_head version hostname port ++ next ∷ rest
          ≡ from_start bytes version hostname port n
              (next ∷ rest)
              version_fits
              name_valid
              name_fits
              port_fits
              n_fits
      same_start = simp append_assoc

      whole :
          length (
            with_port bytes version hostname port n
              (next ∷ rest)
              version_fits
              name_valid
              name_fits
              port_fits
              n_fits)
          ≡ n
      whole =
          ap length (
            with_port-head bytes version hostname port n (next ∷ rest) version_fits name_valid
              name_fits port_fits n_fits)
          ∙ rw one_byte (omega arith)

      with_body : List ℕ → Outcome PacketError MinecraftHelloPacket × List ℕ
      with_body b = (
        ok (record {
          packet_length = n;
          id = 0;
          version = version;
          hostname = hostname;
          port = port;
          body = b;
        }),
        next ∷ rest,
      )

  -- A handshake of 128 to 253 bytes is refused: its length takes two bytes, and the test compares it
  -- with a position that counts only one.
  pub hello_new-long_handshake :
      128 ≤ handshake_length version hostname port
      → handshake_length version hostname port < 254
      → hello_new bytes (handshake_head version hostname port ++ next ∷ rest)
        ≡ (err not_valid, handshake_head version hostname port ++ next ∷ rest)
  hello_new-long_handshake long short =
      ap (hello_new bytes) same_start
      ∙ hello_new-from_start bytes version hostname port n (next ∷ rest) version_fits name_valid
          name_fits port_fits n_fits (n % 128 + 128)
          (n / 128 ∷ (handshake_fields version hostname port ++ next ∷ rest))
          (rw two_bytes (simp append_assoc)) (omega (arith, long, short)) (omega arith)
      ∙ ap (λ r. or_next r (λ buf. (err not_matching, buf)))
          (new_pkg_refused bytes version hostname port n (next ∷ rest) version_fits name_valid
            name_fits port_fits n_fits longer (omega (arith, short)))
      ∙ ap refused (sym same_start)
    where
      n : ℕ
      n = handshake_length version hostname port

      n_fits : IsI32 n
      n_fits = omega (arith, short)

      name_fits : length hostname < 2 ^ 31
      name_fits = omega (arith, short, handshake_length-ge version hostname port)

      two_bytes : encode_varint n ≡ (n % 128 + 128) ∷ n / 128 ∷ []
      two_bytes = encode_varint_two n long (omega (arith, short))

      same_start :
          handshake_head version hostname port ++ next ∷ rest
          ≡ from_start bytes version hostname port n
              (next ∷ rest)
              version_fits
              name_valid
              name_fits
              port_fits
              n_fits
      same_start = simp append_assoc

      one_more :
          length (
            with_port bytes version hostname port n
              (next ∷ rest)
              version_fits
              name_valid
              name_fits
              port_fits
              n_fits)
          ≡ n + 1
      one_more =
          ap length (
            with_port-head bytes version hostname port n (next ∷ rest) version_fits name_valid
              name_fits port_fits n_fits)
          ∙ rw two_bytes (omega arith)

      longer :
          length (
            with_port bytes version hostname port n
              (next ∷ rest)
              version_fits
              name_valid
              name_fits
              port_fits
              n_fits)
          ≢ n
      longer h = absurd (omega (arith, one_more, h))

      refused : List ℕ → Outcome PacketError MinecraftHelloPacket × List ℕ
      refused b = (err not_valid, b)
