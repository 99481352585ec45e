-- ===== src/Tests/Toy.antt =====
-- A platform that meets `Laws`: Base64 pads with zeros, the digest is the first 32 bytes, a
-- signature carries the public key and the message, and JSON keeps a document's version and
-- issuance time, and of a state what the running issuer changes.
use virtual_cloud_help_servi.Prelude.{
  ℕ, ◌+◌, ◌-◌, ◌*◌, ◌/◌, ◌≡◌, refl, sym, false, Option, none, some, [], ◌∷◌, ◌++◌, arith, length,
  take, drop, replicate, length-append, length-replicate, length-take, take-append, ◌∙◌, ap, ◌≤◌,
}
use virtual_cloud_help_servi.Prelude.Text.{Text, bytes, text_eq, text_eq_refl}
use virtual_cloud_help_servi.Platform.{Platform, Laws, Trailing, eof, value, Url, encoded_len}
use virtual_cloud_help_servi.Issuance.State.{IssuerState}
use virtual_cloud_help_servi.Manifest.Types.{Document}
use virtual_cloud_help_servi.Manifest.KeyPolicy.{key_id_of}
use virtual_cloud_help_servi.Manifest.Envelope.Encoded.{UniqueKeyId}

abbrev pub toy_encode : Text → Text
toy_encode x = x ++ replicate (encoded_len (length x) - length x) 0

abbrev pub toy_sha256 : Text → Text
toy_sha256 x = take 32 (x ++ replicate 32 0)

abbrev pub toy_sign : Text → Text → Text
toy_sign key message = take 64 (drop 32 key ++ message ++ replicate 64 0)

abbrev toy_next : Text → Trailing
toy_next [] = eof
toy_next (c ∷ cs) = value

abbrev pub toy_url : Url
toy_url = record {
  scheme = bytes "https";
  host = bytes "a.example";
  hostname = bytes "a.example";
  port = [];
  has_user = false;
  raw_query = [];
  fragment = [];
}

abbrev read_two : {A : Type 0} → (ℕ → ℕ → A) → Text → Option (A × Text)
read_two values [] = none
read_two values (version ∷ []) = none
read_two values (version ∷ time ∷ rest) = some (values version time, rest)

abbrev read_state_text : (ℕ → ℕ → ℕ → Text → IssuerState) → Text → Option (IssuerState × Text)
read_state_text values [] = none
read_state_text values (version ∷ []) = none
read_state_text values (version ∷ revision ∷ []) = none
read_state_text values (version ∷ revision ∷ time ∷ digest) =
    some (values version revision time digest, [])

-- The state that a stored text stands for.
abbrev pub toy_state : ℕ → ℕ → ℕ → Text → IssuerState
toy_state version revision time digest = record {
  key_id = toy_encode (toy_sha256 (replicate 32 1));
  key_epoch = 1;
  policy_version = 1;
  policy_sha256 = toy_encode (toy_sha256 (1 ∷ []));
  last_version = version;
  catalog_revision = revision;
  catalog_sha256 = digest;
  last_issued_at = time;
}

-- `documents version time` is the document that a payload of those stands for.
abbrev pub toy : (ℕ → ℕ → Document) → Platform
toy documents = record {
  sha256 = toy_sha256;
  encode64 = toy_encode;
  decode64 = λ y. some (take (length y * 3 / 4) y);
  sign = toy_sign;
  verify_signature = λ public_key message signature.
      text_eq signature (take 64 (public_key ++ message ++ replicate 64 0));
  key_from_seed = λ seed. seed ++ seed;
  marshal_document = λ d. some (d.version ∷ d.issued_at ∷ []);
  marshal_catalog = λ c. some (c.revision ∷ []);
  marshal_policy = λ q. some (q.version ∷ []);
  marshal_policy_payload = λ q. some (q.version ∷ []);
  read_document = read_two documents;
  read_policy = λ x. none;
  read_envelope = λ x. none;
  read_catalog = λ x. none;
  read_state = read_state_text toy_state;
  write_state =
      λ s. some (s.last_version ∷ s.catalog_revision ∷ s.last_issued_at ∷ s.catalog_sha256);
  next_value = toy_next;
  parse_request_uri = λ x. some toy_url;
  split_host_port = λ x. some (x, bytes "443");
  is_ip = λ x. false;
}

encode_length : (n : ℕ) → n + (encoded_len n - n) ≡ encoded_len n
encode_length n = omega arith

decode_length : (n : ℕ) → encoded_len n * 3 / 4 ≡ n
decode_length n = omega arith

length-toy_encode : (x : Text) → length (toy_encode x) ≡ encoded_len (length x)
length-toy_encode x =
    length-append x (replicate (encoded_len (length x) - length x) 0)
    ∙ omega (
      arith,
      length-replicate {A = ℕ} (encoded_len (length x) - length x) 0,
      encode_length (length x),
    )

decode-toy_encode : (x : Text) → take (length (toy_encode x) * 3 / 4) (toy_encode x) ≡ x
decode-toy_encode x =
    ap (λ (n : ℕ). take (n * 3 / 4) (toy_encode x)) (length-toy_encode x)
    ∙ ap (λ (n : ℕ). take n (toy_encode x)) (decode_length (length x))
    ∙ take-append x (replicate (encoded_len (length x) - length x) 0)

length-padded : (n : ℕ) (x y : Text) → n ≤ length y → length (take n (x ++ y)) ≡ n
length-padded n x y h = length-take n (x ++ y) (omega (arith, length-append x y))

pub toy-Laws : (documents : ℕ → ℕ → Document) → Laws (toy documents)
toy-Laws documents = record {
  decode-encode = λ x. ap some (decode-toy_encode x);
  length-encode = length-toy_encode;
  length-sha256 = λ x. length-padded 32 x (replicate 32 0) (omega arith);
  length-sign =
      λ key message. length-padded 64 (drop 32 key ++ message) (replicate 64 0) (omega arith);
  verify-sign = λ key message sized derived. text_eq_refl (toy_sign key message);
  next_value-nil = refl;
}

sha256_id : (x : Text) → length x ≡ 32 → toy_sha256 x ≡ x
sha256_id x h =
    ap (λ (n : ℕ). take n (x ++ replicate 32 0)) (sym h) ∙ take-append x (replicate 32 0)

encode_injective : (documents : ℕ → ℕ → Document) (x y : Text) → toy_encode x ≡ toy_encode y → x ≡ y
encode_injective documents x y e =
    sym (decode-toy_encode x) ∙ ap (λ (z : Text). take (length z * 3 / 4) z) e ∙ decode-toy_encode y

-- The digest of 32 bytes is those bytes, so key ids are unique.
pub toy-UniqueKeyId :
    (documents : ℕ → ℕ → Document) (public_key : Text)
    → length public_key ≡ 32
    → UniqueKeyId (toy documents) public_key
unfolding key_id_of
toy-UniqueKeyId documents public_key sized = record {
  same = λ raw h e.
      sym (sha256_id raw h)
      ∙ encode_injective documents (toy_sha256 raw) (toy_sha256 public_key) e
      ∙ sha256_id public_key sized;
}
