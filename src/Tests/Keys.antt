-- ===== src/Tests/Keys.antt =====
-- A pair of key files.
use virtual_cloud_help_servi.Prelude.{
  ℕ, ◌+◌, ◌-◌, ◌≡◌, refl, true, [], ◌∷◌, some, ok, arith, length, take, length-append, take-append,
}
use virtual_cloud_help_servi.Prelude.Text.{Text, bytes, text_eq}
use virtual_cloud_help_servi.Platform.{public_of}
use virtual_cloud_help_servi.SigningKey.{
  WriteCalls, GenerateCalls, file_at, write_exclusive, ensure_parent, prepare_keys, write_keys,
  generate_files, load_private, load_public, key_text,
}
use virtual_cloud_help_servi.SigningKey.Generated.{generate_files-load}
use virtual_cloud_help_servi.Tests.Toy.{toy-Laws}
use virtual_cloud_help_servi.Tests.Manifests.{sample, sample_document, root_key}

-- It drops the newline.
abbrev trim : Text → Text
trim s = take (length s - 1) s

abbrev clean : Text → Text
clean path = path

trims : (x : Text) → trim (key_text sample trim clean x) ≡ sample.encode64 x
trims x =
    let encoded = sample.encode64 x in
    let long = length-append encoded (10 ∷ []) in
    rw (long, add_sub (length encoded)) (take-append encoded (10 ∷ []))
  where
    add_sub : (n : ℕ) → n + 1 - 1 ≡ n
    add_sub n = omega arith

abbrev working : WriteCalls
working = record {
  opens = true;
  writes = true;
  syncs = true;
  closes = true;
  removes = true;
  left = [];
}

abbrev calls : GenerateCalls
calls = record {
  key = some root_key;
  private_parent = some (record { is_dir = true; mode = 0o700 });
  public_parent = some (record { is_dir = true; mode = 0o755 });
  private_calls = working;
  public_calls = working;
  removes_private = true;
}

generated :
    (generate_files sample trim clean calls (bytes "key") (bytes "key.pub") []).1
    ≡ ok (public_of root_key)
unfolding generate_files prepare_keys write_keys write_exclusive ensure_parent file_at text_eq
generated = refl

generate_files-load_example :
    (public_of root_key ≡ public_of root_key)
    × (load_private sample trim clean true
          (bytes "key")
          (generate_files sample trim clean calls (bytes "key") (bytes "key.pub") []).0
        ≡ ok root_key)
    × (load_public sample trim clean true
          (bytes "key.pub")
          (generate_files sample trim clean calls (bytes "key") (bytes "key.pub") []).0
        ≡ ok (public_of root_key))
generate_files-load_example =
    generate_files-load sample (toy-Laws sample_document) trim clean trims calls (bytes "key")
      (bytes "key.pub") [] refl refl refl generated
