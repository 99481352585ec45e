-- ===== src/SigningKey/Generated.antt =====
-- Key files that were generated are loaded back.
use virtual_cloud_help_servi.Prelude.{
  ℕ, ◌+◌, ◌≤◌, ◌≡◌, refl, true, false, List, [], ◌∷◌, some, length, take, arith, Result, ok, err,
  if◌then◌else◌, ap, ◌∙◌, length-append, zero, suc, length-drop,
}
use virtual_cloud_help_servi.Prelude.Text.{Text, text_eq, text_eq_iff, text_eq_refl}
use virtual_cloud_help_servi.Platform.{Platform, Laws, public_of, encoded_len}
use virtual_cloud_help_servi.SigningKey.{
  KeyFault, KeyFile, WriteCalls, GenerateCalls, file_at, without, write_exclusive, private_of,
  load_private, load_public, key_text, prepare_keys, write_keys, generate_files,
  write_private_failed, write_public_failed,
}

write_exclusive-file :
    (fault : KeyFault) (calls : WriteCalls) (path contents : Text) (mode : ℕ)
    (files : List (Text × KeyFile))
    → (write_exclusive fault calls path contents mode files).1 ≡ ok tt
    → (write_exclusive fault calls path contents mode files).0
      ≡ (path, record { regular = true; mode = mode; contents = contents }) ∷ files
unfolding write_exclusive
write_exclusive-file fault calls path contents mode files h = ground arith

first_file :
    (path : Text) (file : KeyFile) (rest : List (Text × KeyFile))
    → file_at path ((path, file) ∷ rest) ≡ some file
unfolding file_at
first_file path file rest = ground (arith, text_eq_refl path)

second_file :
    (private_path public_path : Text) (public_file private_file : KeyFile)
    (rest : List (Text × KeyFile))
    → text_eq private_path public_path ≡ false
    → file_at private_path ((public_path, public_file) ∷ (private_path, private_file) ∷ rest)
      ≡ some private_file
unfolding file_at
second_file private_path public_path public_file private_file rest apart = ground (
  arith,
  text_eq_refl private_path,
  text_eq_iff public_path private_path,
  text_eq_iff private_path public_path,
  apart,
)

take_short : {A : Type 0} (n : ℕ) (xs : List A) → length xs ≤ n → take n xs ≡ xs
take_short zero [] h = refl
take_short zero (x ∷ xs) h = absurd (omega arith)
take_short (suc n) [] h = refl
take_short (suc n) (x ∷ xs) h = ap (λ ys. x ∷ ys) (take_short n xs (omega arith))

module _ (p : Platform) (laws : Laws p) (trim_space clean : Text → Text)
    (trims : (x : Text) → trim_space (key_text p trim_space clean x) ≡ p.encode64 x) where
  length-key_text : (x : Text) → length (key_text p trim_space clean x) ≡ encoded_len (length x) + 1
  length-key_text x = omega (arith, length-append (p.encode64 x) (10 ∷ []), laws.length-encode x)

  private_of-own :
      (key : Text)
      → length key ≡ 64
      → p.key_from_seed (take 32 key) ≡ key
      → private_of p trim_space clean key ≡ ok key
  unfolding private_of
  private_of-own key sized own = ground (arith, sized, own, text_eq_refl key)

  load_private-file :
      (path key : Text) (files : List (Text × KeyFile))
      → length key ≡ 64
      → p.key_from_seed (take 32 key) ≡ key
      → file_at (clean path) files
        ≡ some (record { regular = true; mode = 0o600; contents = key_text p trim_space clean key })
      → load_private p trim_space clean true path files ≡ ok key
  unfolding load_private
  load_private-file path key files sized own found =
      let long = length-key_text key in
      let whole = take_short 257 (key_text p trim_space clean key) (omega (arith, long, sized)) in
      let accepted = private_of-own key sized own in
      let bytes_87 : length (key_text p trim_space clean key) ≡ 87 = omega (arith, long, sized) in
      rw (found, whole, trims key, laws.decode-encode key, accepted, bytes_87) refl

  load_public-file :
      (path key : Text) (files : List (Text × KeyFile))
      → length key ≡ 32
      → file_at (clean path) files
        ≡ some (record { regular = true; mode = 0o644; contents = key_text p trim_space clean key })
      → load_public p trim_space clean true path files ≡ ok key
  unfolding load_public
  load_public-file path key files sized found =
      let long = length-key_text key in
      let whole = take_short 129 (key_text p trim_space clean key) (omega (arith, long, sized)) in
      let bytes_44 : length (key_text p trim_space clean key) ≡ 44 = omega (arith, long, sized) in
      rw (found, whole, trims key, laws.decode-encode key, bytes_44, sized) refl

  prepared :
      (calls : GenerateCalls) (private_path public_path : Text) {key : Text}
      → prepare_keys p trim_space clean calls private_path public_path ≡ ok key
      → (calls.key ≡ some key) × (text_eq (clean private_path) (clean public_path) ≡ false)
  unfolding prepare_keys
  prepared calls private_path public_path h = ground arith

  write_keys-files :
      (calls : GenerateCalls) (key private_path public_path : Text) (files : List (Text × KeyFile))
      {public_key : Text}
      → let out = write_keys p trim_space clean calls key private_path public_path files in
        out.1 ≡ ok public_key
        → (public_key ≡ public_of key)
          × (out.0
              ≡ (
                clean public_path,
                record {
                  regular = true;
                  mode = 0o644;
                  contents = key_text p trim_space clean (public_of key);
                },
              )
                ∷ (
                  clean private_path,
                  record {
                    regular = true;
                    mode = 0o600;
                    contents = key_text p trim_space clean key;
                  },
                )
                ∷ files)
  unfolding write_keys
  write_keys-files calls key private_path public_path files {public_key} h =
      by_private
        (write_exclusive write_private_failed calls.private_calls (clean private_path)
          (key_text p trim_space clean key) 0o600 files)
        (write_exclusive-file write_private_failed calls.private_calls (clean private_path)
          (key_text p trim_space clean key) 0o600 files)
        h
    where
      private_file : Text × KeyFile
      private_file = (
        clean private_path,
        record { regular = true; mode = 0o600; contents = key_text p trim_space clean key },
      )

      public_file : Text × KeyFile
      public_file = (
        clean public_path,
        record {
          regular = true;
          mode = 0o644;
          contents = key_text p trim_space clean (public_of key);
        },
      )

      publish : List (Text × KeyFile) → List (Text × KeyFile) × Result KeyFault (Unit {0})
      publish one =
          write_exclusive write_public_failed calls.public_calls (clean public_path)
            (key_text p trim_space clean (public_of key)) 0o644 one

      last :
          List (Text × KeyFile) × Result KeyFault (Unit {0})
          → List (Text × KeyFile) × Result KeyFault Text
      last (two, err fault) =
          (if calls.removes_private then without (clean private_path) two else two, err fault)
      last (two, ok done) = (two, ok (public_of key))

      by_public :
          (one : List (Text × KeyFile)) (out : List (Text × KeyFile) × Result KeyFault (Unit {0}))
          → (out.1 ≡ ok tt → out.0 ≡ public_file ∷ one)
          → (last out).1 ≡ ok public_key
          → (public_key ≡ public_of key) × ((last out).0 ≡ public_file ∷ one)
      by_public one (two, err fault) is k = absurd (ground arith)
      by_public one (two, ok done) is k = (ground arith, is refl)

      by_private :
          (out : List (Text × KeyFile) × Result KeyFault (Unit {0}))
          → (out.1 ≡ ok tt → out.0 ≡ private_file ∷ files)
          → (let result : List (Text × KeyFile) × Result KeyFault Text = elim out.1 [
            | err fault ↦ (out.0, err fault)
            | ok done ↦ last (publish out.0)
          ] in
              result.1 ≡ ok public_key
              → (public_key ≡ public_of key) × (result.0 ≡ public_file ∷ private_file ∷ files))
      by_private (one, err fault) is k = absurd (ground arith)
      by_private (one, ok done) is k =
          let (same, two) =
            by_public one (publish one)
              (write_exclusive-file write_public_failed calls.public_calls (clean public_path)
                (key_text p trim_space clean (public_of key)) 0o644 one)
              k in
          (same, two ∙ ap (λ (fs : List (Text × KeyFile)). public_file ∷ fs) (is refl))

  -- Where the platform's laws hold, trimming the encoding and its newline gives the encoding, and
  -- the generator gives a key of 64 bytes made from its seed: the files of a generation that
  -- succeeds are loaded back, by calls that work, as the private key and its public half.
  pub generate_files-load :
      (calls : GenerateCalls) (private_path public_path : Text) (files : List (Text × KeyFile))
      {key public_key : Text}
      → calls.key ≡ some key
      → length key ≡ 64
      → p.key_from_seed (take 32 key) ≡ key
      → let out = generate_files p trim_space clean calls private_path public_path files in
        out.1 ≡ ok public_key
        → (public_key ≡ public_of key)
          × (load_private p trim_space clean true private_path out.0 ≡ ok key)
          × (load_public p trim_space clean true public_path out.0 ≡ ok public_key)
  unfolding generate_files
  generate_files-load calls private_path public_path files {key = key} {public_key = public_key}
        made sized own =
      by_key (prepare_keys p trim_space clean calls private_path public_path) refl
    where
      public_entry : KeyFile
      public_entry = record {
        regular = true;
        mode = 0o644;
        contents = key_text p trim_space clean (public_of key);
      }

      private_entry : KeyFile
      private_entry = record {
        regular = true;
        mode = 0o600;
        contents = key_text p trim_space clean key;
      }

      by_key :
          (prepared_key : Result KeyFault Text)
          → prepare_keys p trim_space clean calls private_path public_path ≡ prepared_key
          → (let out : List (Text × KeyFile) × Result KeyFault Text = elim prepared_key [
            | err fault ↦ (files, err fault)
            | ok k ↦ write_keys p trim_space clean calls k private_path public_path files
          ] in
              out.1 ≡ ok public_key
              → (public_key ≡ public_of key)
                × (load_private p trim_space clean true private_path out.0 ≡ ok key)
                × (load_public p trim_space clean true public_path out.0 ≡ ok public_key))
      by_key (err fault) e h = absurd (ground arith)
      by_key (ok k) e h =
          let (drawn, apart) = prepared calls private_path public_path {key = k} e in
          let same_key : k ≡ key = ground (arith, made) in
          let (half, written_files) =
            write_keys-files calls k private_path public_path files {public_key = public_key} h in
          (
            half ∙ ap (λ (x : Text). public_of x) same_key,
            rw (written_files, same_key)
                (load_private-file private_path key
                  ((clean public_path, public_entry) ∷ (clean private_path, private_entry) ∷ files)
                  sized own
                  (second_file (clean private_path) (clean public_path) public_entry private_entry
                    files apart)),
            rw (written_files, half, same_key)
                (load_public-file public_path (public_of key)
                  ((clean public_path, public_entry) ∷ (clean private_path, private_entry) ∷ files)
                  (omega (arith, length-drop 32 key, sized))
                  (first_file (clean public_path) public_entry
                    ((clean private_path, private_entry) ∷ files))),
          )
