-- ===== src/Platform.antt =====
-- What the program takes from Go's standard library and does not implement: cryptography, Base64,
-- JSON, and the readers of URLs and network addresses. They are parameters of the model; `Laws`
-- names the documented behaviour that some theorems rely on.
use virtual_cloud_help_servi.Prelude.{
  ℕ, ◌+◌, ◌*◌, ◌/◌, ◌%◌, ◌<◌, ◌≡◌, Bool, true, Option, some, [], length, take, drop,
}
use virtual_cloud_help_servi.Prelude.Text.{Text}
use virtual_cloud_help_servi.Manifest.Types.{
  Catalog, Document, Envelope, KeyPolicy, KeyPolicyPayload,
}
use virtual_cloud_help_servi.Issuance.State.{IssuerState}

-- What `json.Decoder.Decode(&trailing)` finds after the first value.
pub data Trailing : Type 0 where
  eof malformed value : Trailing

-- The fields of url.URL that the program reads.
pub record Url : Type 0 where
  pub scheme : Text
  pub host : Text
  pub hostname : Text
  pub port : Text
  pub has_user : Bool
  pub raw_query : Text
  pub fragment : Text

pub record Platform : Type 0 where
  pub sha256 : Text → Text
  -- base64.RawURLEncoding
  pub encode64 : Text → Text
  pub decode64 : Text → Option Text
  -- ed25519: private key and message, public key and message and signature, seed
  pub sign : Text → Text → Text
  pub verify_signature : Text → Text → Text → Bool
  pub key_from_seed : Text → Text
  -- json.Marshal, or none where it returns an error
  pub marshal_document : Document → Option Text
  pub marshal_catalog : Catalog → Option Text
  pub marshal_policy : KeyPolicy → Option Text
  pub marshal_policy_payload : KeyPolicyPayload → Option Text
  -- json.Encoder.Encode with no HTML escapes
  pub write_state : IssuerState → Option Text
  -- The first value of a JSON text with its rest, unknown fields refused; and what the rest holds.
  pub read_document : Text → Option (Document × Text)
  pub read_policy : Text → Option (KeyPolicy × Text)
  pub read_envelope : Text → Option (Envelope × Text)
  pub read_catalog : Text → Option (Catalog × Text)
  pub read_state : Text → Option (IssuerState × Text)
  pub next_value : Text → Trailing
  -- url.ParseRequestURI, net.SplitHostPort, net.ParseIP(s) != nil
  pub parse_request_uri : Text → Option Url
  pub split_host_port : Text → Option (Text × Text)
  pub is_ip : Text → Bool

-- base64.RawURLEncoding.EncodedLen
abbrev pub encoded_len : ℕ → ℕ
encoded_len n = n / 3 * 4 + (n % 3 * 8 + 5) / 6

-- An Ed25519 private key is its seed and its public key.
abbrev pub public_of : Text → Text
public_of private_key = drop 32 private_key

pub record Laws (p : Platform) : Type 0 where
  pub decode-encode : (x : Text) → p.decode64 (p.encode64 x) ≡ some x
  pub length-encode : (x : Text) → length (p.encode64 x) ≡ encoded_len (length x)
  pub length-sha256 : (x : Text) → length (p.sha256 x) ≡ 32
  pub length-sign : (key message : Text) → length (p.sign key message) ≡ 64
  pub verify-sign :
      (key message : Text)
      → length key ≡ 64
      → p.key_from_seed (take 32 key) ≡ key
      → p.verify_signature (public_of key) message (p.sign key message) ≡ true
  pub next_value-nil : p.next_value [] ≡ eof

-- Encoding this document and decoding it strictly gives it back, from a text that is not empty.
pub record JsonRoundTrip (p : Platform) (document : Document) : Type 0 where
  pub read-marshal :
      (payload : Text)
      → p.marshal_document document ≡ some payload
      → (0 < length payload) × (p.read_document payload ≡ some (document, []))
