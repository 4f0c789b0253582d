-- ===== src/Tests/Instance.antt =====
-- A small implementation of the interfaces, on which the model runs: JSON values without a real
-- encoding, signatures that are checksums, streams that are byte strings.
use text.Mathlib.Text.{◌==◌ as str_eq}
use devicectrl_server.Prelude.{
  ℕ, zero, suc, ◌+◌, ◌*◌, ◌/◌, ◌%◌, ◌^◌, ◌<◌, ◌≡◌, ℤ, pos, String, Option, none, some, List, [],
  ◌∷◌, ◌++◌, ◌==◌, if◌then◌else◌, Result, ok, err, library, take, drop, length, leb, length-take,
  length-append, take-length_append, drop-length_append, arith,
}
use devicectrl_server.Deps.{Deps, Bytes}
use devicectrl_server.Common.{ServerBoundSimpleMessage, DeviceBoundSimpleMessage}
use devicectrl_server.App.{Env}
use devicectrl_server.Simple.Codec.{SimpleCodec, Reader, Delivers, to_be_bytes}
use devicectrl_server.Simple.Connection.{Wire}
use devicectrl_server.Tasks.Join.{Scheduler}
use mathlib.Core.List.{append_assoc}

pub data Json : Type 0 where
  null : Json
  num : ℕ → Json
  str : String → Json
  field : String → Json → Json → Json

abbrev pub json_object : List (String × Json) → Json
json_object [] = null
json_object ((k, v) ∷ fields) = field k v (json_object fields)

abbrev pub json_index : Json → String → Json
json_index (field k v rest) j = if str_eq k j then v else json_index rest j
json_index _ j = null

abbrev json_as_i64 : Json → Option ℤ
json_as_i64 (num n) = some (pos n)
json_as_i64 _ = none

abbrev json_as_u64 : Json → Option ℕ
json_as_u64 (num n) = some n
json_as_u64 _ = none

-- the answers of a switch: `0 ∷ n` reports an error code, `1 ∷ n` the state of the relay
abbrev json_from_slice : Bytes → Result Json
json_from_slice (zero ∷ n ∷ []) =
    ok (field "system" (field "set_relay_state" (field "err_code" (num n) null) null) null)
json_from_slice (suc zero ∷ n ∷ []) =
    ok (field "system" (field "get_sysinfo" (field "relay_state" (num n) null) null) null)
json_from_slice _ = err (library "expected value")

abbrev checksum : Bytes → ℕ
checksum [] = 7
checksum (b ∷ bytes) = (checksum bytes + b) % 256

abbrev check : Bytes → Bytes → Result (Unit {0})
check bytes (a ∷ b ∷ []) = if a == checksum bytes then ok tt else err (library "signature error")
check _ _ = err (library "signature error")

instance abbrev pub plain : Deps
plain = record {
  Value = Json;
  object = json_object;
  number = num;
  text = str;
  index = json_index;
  as_i64 = json_as_i64;
  as_u64 = json_as_u64;
  to_vec = λ v. ok (123 ∷ 125 ∷ []);
  from_slice = json_from_slice;
  NumericState = ℕ;
  ColorLightState = ℕ;
  BrightnessUpdate = ℕ;
  FailureText = String;
  OtherState = Unit;
  OtherType = Unit;
  OtherNumeric = Unit;
  OtherUpdate = Unit;
  OtherMessage = String;
  to_state = λ props n. n;
  color_brightness = λ s. s;
  apply_to = λ update state. num update;
  device_id_of =
      λ name. if str_eq name "lamp" then some 1 else if str_eq name "plug" then some 2 else none;
  Coordinate = ℕ;
  VerifyingKey = Unit;
  SigningKey = Unit;
  signature_len = 2;
  verify = λ key bytes signature. check bytes signature;
  sign = λ key bytes. ok (checksum bytes ∷ 0 ∷ []);
}

-- every effect succeeds, and every answer within the time reports success
instance abbrev pub calm : Env
calm = record {
  attempt = λ t effect. ok tt;
  receive = λ t socket limit. some (ok (0xab ∷ 0xab ∷ []));
}

abbrev decode_message : Bytes → Result ServerBoundSimpleMessage
decode_message (zero ∷ id ∷ []) = ok (ServerBoundSimpleMessage.identify id)
decode_message (suc zero ∷ []) = ok ServerBoundSimpleMessage.request_received
decode_message _ = err (library "expected value")

instance abbrev pub codec : SimpleCodec
codec = record {
  decode = decode_message;
  encode = λ m. ok (1 ∷ []);
  failure_of = λ x. DeviceBoundSimpleMessage.other "failure";
}

abbrev bytes_read_u32 : Bytes → Result (ℕ × Bytes)
bytes_read_u32 (a ∷ b ∷ c ∷ d ∷ s) = ok (a * 2 ^ 24 + b * 2 ^ 16 + c * 2 ^ 8 + d, s)
bytes_read_u32 _ = err (library "unexpected end of file")

abbrev bytes_read_exact : ℕ → Bytes → Result (Bytes × Bytes)
bytes_read_exact n s =
    if leb n (length s) then ok (take n s, drop n s) else err (library "unexpected end of file")

pub length-bytes_read_exact :
    (n : ℕ) (s : Bytes) {bytes t : Bytes} → bytes_read_exact n s ≡ ok (bytes, t) → length bytes ≡ n
length-bytes_read_exact n s h = ground (arith, length-take n s)

instance abbrev pub byte_reader : Reader
byte_reader = record {
  Stream = Bytes;
  read_u32 = bytes_read_u32;
  read_exact = bytes_read_exact;
  length-read_exact = length-bytes_read_exact;
}

be_value :
    (n : ℕ)
    → n < 2 ^ 32
    → n / 2 ^ 24 % 256 * 2 ^ 24 + n / 2 ^ 16 % 256 * 2 ^ 16 + n / 2 ^ 8 % 256 * 2 ^ 8 + n % 256 ≡ n
be_value n small = omega arith

pub bytes_read_u32-feed :
    (n : ℕ) (bytes s : Bytes)
    → n < 2 ^ 32
    → bytes_read_u32 ((to_be_bytes n ++ bytes) ++ s) ≡ ok (n, bytes ++ s)
bytes_read_u32-feed n bytes s small = rw (be_value n small)

pub bytes_read_exact-feed :
    (n : ℕ) (front back s : Bytes)
    → length front ≡ n
    → bytes_read_exact n ((front ++ back) ++ s) ≡ ok (front, back ++ s)
bytes_read_exact-feed n front back s size = rw (append_assoc front back s) (
    ground (
      arith,
      length-append front (back ++ s),
      take-length_append n front (back ++ s) size,
      drop-length_append n front (back ++ s) size,
    ))

abbrev pub byte_line : Delivers byte_reader
byte_line = record {
  feed = λ bytes s. bytes ++ s;
  read_u32-feed = bytes_read_u32-feed;
  read_exact-feed = bytes_read_exact-feed;
}

instance abbrev pub open_wire : Wire
open_wire = record { write_all = λ n bytes. ok tt }

-- the future with the next turn is another one at each turn
instance abbrev pub in_turn : Scheduler
in_turn = record { choose = λ start round. round }
