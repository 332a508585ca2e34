-- ===== src/Crates.antt =====
-- The third-party crates that the sources call, as interfaces with their documented behaviour:
-- hex (lower-case encoding; decoding of either case, of even length), sha2 and serde_json's text.
use spore_peer.Prelude.{◌≡◌, refl, Option, none, [], Bytes, IsByte, All, length, replicate, arith}
use spore_peer.Text.{lower_hex, from_hex}
use spore_peer.Json.{Value}

pub record Hex : Type 0 where
  pub encode : Bytes → Bytes
  pub decode : Bytes → Option Bytes
  pub encode_lem : (b : Bytes) → encode b ≡ lower_hex b
  pub decode_lem : (s : Bytes) → decode s ≡ from_hex s

pub record Sha256 : Type 0 where
  pub digest : Bytes → Bytes
  pub length-digest : (b : Bytes) → length (digest b) ≡ 32
  pub digest-IsByte : (b : Bytes) → All IsByte (digest b)

-- `serde_json::from_slice` and `Value::to_string`.
pub record JsonText : Type 0 where
  pub from_slice : Bytes → Option Value
  pub to_string : Value → Bytes

-- Everything that the sources take from outside: the crates, and of the standard library's Unicode
-- tables the two functions that the code applies to texts that need not be ASCII.
pub record Crates : Type 0 where
  pub hex : Hex
  pub sha : Sha256
  pub json : JsonText
  pub lower : Bytes → Bytes
  pub from_utf8_lossy : Bytes → Bytes

-- Concrete functions that meet the interfaces, for instances and tests.
abbrev pub plain_hex : Hex
plain_hex = record {
  encode = lower_hex;
  decode = from_hex;
  encode_lem = λ b. refl;
  decode_lem = λ s. refl;
}

abbrev zero_digest : Bytes
zero_digest = replicate 32 0

abbrev pub constant_sha : Sha256
constant_sha = record {
  digest = λ b. zero_digest;
  length-digest = λ b. refl;
  digest-IsByte = λ b. omega arith;
}

abbrev pub plain_crates : Crates
plain_crates = record {
  hex = plain_hex;
  sha = constant_sha;
  json = record { from_slice = λ b. none; to_string = λ v. [] };
  lower = λ s. s;
  from_utf8_lossy = λ s. s;
}
