-- ===== src/Tests/Crates.antt =====
-- Stand-ins for the crates that the program uses, which show that what is assumed of them can hold.
use craftip_crosscompiletest.Prelude.{
  ℕ, suc, ◌+◌, ◌-◌, ◌*◌, ◌≡◌, refl, ap, List, [], ◌∷◌, ◌++◌, Option, some, true, none, Outcome, ok,
  panic, length, take, drop, arith, length-append, append_assoc, drop-length_append,
  take-length_append, ltb, ◌==◌, if◌then◌else◌,
}
use craftip_crosscompiletest.Prelude.Maps.{bytes_beq, bytes_beq_iff}
use craftip_crosscompiletest.Shared.Datatypes.{PacketError}
use craftip_crosscompiletest.Shared.Bytes.{Cursor, Read, BytesCrate, at}
use craftip_crosscompiletest.Shared.SocketPacket.{
  SocketPacket, proxy_auth_response, proxy_join, proxy_disconnect, proxy_error, proxy_data,
  proxy_ping, Bincode,
}
use craftip_crosscompiletest.Shared.Crypto.{CryptoCrates}

-- The number of the first `n` bytes, most significant first.
abbrev pub be_value : ℕ → List ℕ → ℕ → Option ℕ
be_value acc bs ℕ.zero = some acc
be_value acc [] (suc n) = none
be_value acc (b ∷ bs) (suc n) = be_value (acc * 256 + b) bs n

abbrev pub number_at : ℕ → Option ℕ → Read ℕ
number_at n none c = (panic, c)
number_at n (some v) c = (ok v, record c { position = c.position + n })

abbrev pub read_be : ℕ → Read ℕ
read_be n c = number_at n (be_value 0 (drop c.position c.buf) n) c

-- A read of `front` moves the cursor behind it.
moved :
    (pre front rest : List ℕ) (n : ℕ)
    → length front ≡ n
    → ◌≡◌ {A = Cursor}
        (record { buf = pre ++ (front ++ rest); position = length pre + n })
        (at (pre ++ front) rest)
moved pre front rest n h = rw (append_assoc pre front rest, length-append pre front, h)

abbrev pub split_at : ℕ → List ℕ → Outcome PacketError (List ℕ × List ℕ)
split_at n buf = if ltb (length buf) n then panic else ok (take n buf, drop n buf)

abbrev pub advance_by : ℕ → List ℕ → Outcome PacketError (List ℕ)
advance_by n buf = if ltb (length buf) n then panic else ok (drop n buf)

pub split_at-append : (pre rest : List ℕ) → split_at (length pre) (pre ++ rest) ≡ ok (pre, rest)
split_at-append pre rest =
    ground (arith, length-append pre rest, take-length_append pre rest, drop-length_append pre rest)

pub advance_by-append : (pre rest : List ℕ) → advance_by (length pre) (pre ++ rest) ≡ ok rest
advance_by-append pre rest = ground (arith, length-append pre rest, drop-length_append pre rest)

pub remaining-at : (pre rest : List ℕ) → length (pre ++ rest) - length pre ≡ length rest
remaining-at pre rest = omega (arith, length-append pre rest)

pub read_u8 :
    (pre rest : List ℕ) (a : ℕ) → read_be 1 (at pre (a ∷ rest)) ≡ (ok a, at (pre ++ (a ∷ [])) rest)
read_u8 pre rest a =
    rw (drop-length_append pre (a ∷ rest), moved pre (a ∷ []) rest 1 refl)
      (ap (λ n. (ok n, at (pre ++ (a ∷ [])) rest)) (omega arith))

pub read_u16 :
    (pre rest : List ℕ) (a b : ℕ)
    → read_be 2 (at pre (a ∷ b ∷ rest)) ≡ (ok (a * 256 + b), at (pre ++ (a ∷ b ∷ [])) rest)
read_u16 pre rest a b =
    rw (drop-length_append pre (a ∷ b ∷ rest), moved pre (a ∷ b ∷ []) rest 2 refl)
      (ap (λ n. (ok n, at (pre ++ (a ∷ b ∷ [])) rest)) (omega arith))

pub read_u32 :
    (pre rest : List ℕ) (a b c d : ℕ)
    → read_be 4 (at pre (a ∷ b ∷ c ∷ d ∷ rest))
      ≡ (ok (((a * 256 + b) * 256 + c) * 256 + d), at (pre ++ (a ∷ b ∷ c ∷ d ∷ [])) rest)
read_u32 pre rest a b c d =
    rw (drop-length_append pre (a ∷ b ∷ c ∷ d ∷ rest), moved pre (a ∷ b ∷ c ∷ d ∷ []) rest 4 refl)
      (ap (λ n. (ok n, at (pre ++ (a ∷ b ∷ c ∷ d ∷ [])) rest)) (omega arith))

abbrev pub bytes : BytesCrate
bytes = record {
  remaining = λ c. length c.buf - c.position;
  get_u8 = read_be 1;
  get_u16 = read_be 2;
  get_u32 = read_be 4;
  split_to = split_at;
  advance = advance_by;
  remaining_lem = remaining-at;
  get_u8_lem = read_u8;
  get_u16_lem = read_u16;
  get_u32_lem = read_u32;
  split_to_lem = split_at-append;
  advance_lem = advance_by-append;
}

-- A serializer for six kinds of packets: a number for the kind, and the content.
abbrev pub write_packet : SocketPacket → Option (List ℕ)
write_packet (proxy_auth_response s) = some (4 ∷ s)
write_packet (proxy_join n) = some (6 ∷ n ∷ [])
write_packet (proxy_disconnect n) = some (7 ∷ n ∷ [])
write_packet (proxy_error s) = some (9 ∷ s)
write_packet (proxy_data p) = some (10 ∷ p.client_id ∷ p.packet.body)
write_packet (proxy_ping n) = some (11 ∷ n ∷ [])
write_packet _ = none

abbrev pub read_number : (ℕ → SocketPacket) → List ℕ → Option SocketPacket
read_number f (n ∷ []) = some (f n)
read_number f _ = none

abbrev pub read_data : List ℕ → Option SocketPacket
read_data [] = none
read_data (id ∷ bs) = some (proxy_data (record { client_id = id; packet = record { body = bs } }))

abbrev pub read_packet : List ℕ → Option SocketPacket
read_packet [] = none
read_packet (t ∷ bs) =
    if t == 4
    then some (proxy_auth_response bs)
    else if t == 6
    then read_number proxy_join bs
    else if t == 7
    then read_number proxy_disconnect bs
    else if t == 9
    then some (proxy_error bs)
    else if t == 10
    then read_data bs
    else if t == 11
    then read_number proxy_ping bs
    else none

over :
    (x bs : List ℕ) {p : SocketPacket}
    → some x ≡ some bs
    → read_packet x ≡ some p
    → read_packet bs ≡ some p
over x bs e h = rw (same x bs e) at h
  where
    same : (x y : List ℕ) → some x ≡ some y → x ≡ y
    same x y e = cc

pub read-write :
    (p : SocketPacket) (bs : List ℕ) → write_packet p ≡ some bs → read_packet bs ≡ some p
read-write (proxy_auth_response s) bs h = over _ bs h refl
read-write (proxy_join n) bs h = over _ bs h refl
read-write (proxy_disconnect n) bs h = over _ bs h refl
read-write (proxy_error s) bs h = over _ bs h refl
read-write (proxy_data p) bs h = over _ bs h refl
read-write (proxy_ping n) bs h = over _ bs h refl
read-write p bs h = cc

abbrev pub bincode : Bincode
bincode = record {
  serialize = write_packet;
  deserialize = read_packet;
  deserialize-serialize = read-write;
}

-- A signature is the key and the message; host names are not hashed.
abbrev pub crypto : CryptoCrates
crypto = record {
  sha256 = λ bs. bs;
  base36_encode = λ bs. bs;
  base36_decode = λ bs. some bs;
  hex_encode = λ bs. bs;
  hex_decode = λ bs. some bs;
  is_key_pair = λ key. true;
  sign_with = λ key message. key ++ message;
  public_key_of = λ key. key;
  verify_with = λ key message signature. bytes_beq (key ++ message) signature;
  base36_decode-encode = λ bs. refl;
  hex_decode-encode = λ bs. refl;
  verify-sign = λ key message h. (bytes_beq_iff (key ++ message) (key ++ message)).1 refl;
}
