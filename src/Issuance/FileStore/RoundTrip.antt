-- ===== src/Issuance/FileStore/RoundTrip.antt =====
-- What `Save` leaves in the file, whichever system calls fail, and that `Load` reads it back.
use Prim.Native.Nat.{bit_and}
use virtual_cloud_help_servi.Prelude.{
  ◌<◌, ◌≤◌, ◌≡◌, ◌⊎◌, inl, inr, refl, Bool, Bool-cases, if◌then◌else◌, not, true, false, Option,
  none, some, [], ◌∷◌, List, take, ◌∙◌, ap, arith, length, ok, err, Result, ◌==◌,
}
use virtual_cloud_help_servi.Prelude.Text.{Text, text_eq}
use virtual_cloud_help_servi.Platform.{Platform}
use virtual_cloud_help_servi.Manifest.KeyPolicy.{decode_strict}
use virtual_cloud_help_servi.Issuance.State.{
  IssuerState, StoreFault, path_required, create_directory, restrict_temporary, encode_failed,
  sync_failed, close_failed, replace_failed,
}
use virtual_cloud_help_servi.Issuance.FileStore.{
  max_state_bytes, StateFile, Disk, Calls, check_directory, check_existing_directory,
  validate_state, read_state_file, load, made, cleanup, sync_replaced, write_and_rename, save_in,
  save,
}

-- Encoding this state and decoding it strictly gives it back, within the size limit.
pub record StateRoundTrip (p : Platform) (state : IssuerState) : Type 0 where
  pub read-write :
      (contents : Text)
      → p.write_state state ≡ some contents
      → (0 < length contents)
        × (length contents ≤ max_state_bytes)
        × (decode_strict p.read_state p.next_value contents ≡ some state)

-- No system call of `Load` fails.
pub record Healthy (calls : Calls) : Type 0 where
  pub stat_directory : calls.stat_directory ≡ true
  pub open_file : calls.open_file ≡ true
  pub stat_file : calls.stat_file ≡ true
  pub read_file : calls.read_file ≡ true

abbrev pub file_of : Text → StateFile
file_of contents = record { regular = true; mode = 0o600; contents = contents }

module _ (p : Platform) where
  -- No temporary file is added, but one by an error where its removal fails too.
  pub data Clean (calls : Calls) (disk : Disk) (out : Disk × Result StoreFault (Unit {0}))
      : Type 0 where
    none_added : out.0.temporaries ≡ disk.temporaries → Clean calls disk out
    one_added :
        (fault : StoreFault) (left : Text)
        → calls.remove ≡ false
        → out.1 ≡ err fault
        → out.0.temporaries ≡ left ∷ disk.temporaries
        → Clean calls disk out

  -- The file after a save is the file before it, or it holds the whole new state.
  pub record Replaced (calls : Calls) (disk after : Disk) (state : IssuerState)
      (r : Result StoreFault (Unit {0})) : Type 0 where
    pub atomic :
        (after.file ≡ disk.file)
        ⊎ ((contents : Text) × (p.write_state state ≡ some contents)
            × (after.file ≡ some (file_of contents)))
    pub clean : Clean calls disk (after, r)
    pub done :
        r ≡ ok tt
        → (contents : Text) × (p.write_state state ≡ some contents)
          × (after.file ≡ some (file_of contents))

  cleanup-Clean :
      (calls : Calls) (left : Text) (disk : Disk) (fault : StoreFault)
      → Clean calls disk (cleanup calls left disk, err fault)
  cleanup-Clean calls left disk fault = by_removal calls.remove refl
    where
      by_removal :
          (removed : Bool)
          → calls.remove ≡ removed
          → Clean calls disk (
            if removed then disk else record disk { temporaries = left ∷ disk.temporaries },
            err fault,
          )
      by_removal true e = none_added refl
      by_removal false e = one_added fault left e refl refl

  if-Clean :
      (b : Bool) (calls : Calls) (disk : Disk) {x y : Disk × Result StoreFault (Unit {0})}
      → Clean calls disk x
      → Clean calls disk y
      → Clean calls disk (if b then x else y)
  if-Clean true calls disk {x} {y} hx hy = hx
  if-Clean false calls disk {x} {y} hx hy = hy

  same-Clean :
      (calls : Calls) (disk before : Disk) {out : Disk × Result StoreFault (Unit {0})}
      → disk.temporaries ≡ before.temporaries
      → Clean calls disk out
      → Clean calls before out
  same-Clean calls disk before e (none_added same) = none_added (same ∙ e)
  same-Clean calls disk before e (one_added fault left r f added) =
      one_added fault left r f (added ∙ ap (λ (x : List Text). left ∷ x) e)

  write_and_rename-Clean :
      (calls : Calls) (disk : Disk) (encoded : Option Text)
      → Clean calls disk (write_and_rename calls disk encoded)
  unfolding write_and_rename sync_replaced
  write_and_rename-Clean calls disk none =
      if-Clean (not calls.create_file) calls disk (none_added refl) (
        if-Clean (not calls.chmod) calls disk (cleanup-Clean calls [] disk restrict_temporary)
          (cleanup-Clean calls [] disk encode_failed))
  write_and_rename-Clean calls disk (some contents) =
      if-Clean (not calls.create_file) calls disk (none_added refl) (
        if-Clean (not calls.chmod) calls disk (cleanup-Clean calls [] disk restrict_temporary) (
          if-Clean (not calls.write) calls disk
            (cleanup-Clean calls (take calls.written contents) disk encode_failed)
            (if-Clean (not calls.sync) calls disk (cleanup-Clean calls contents disk sync_failed) (
              if-Clean (not calls.close) calls disk (cleanup-Clean calls contents disk close_failed)
                (if-Clean (not calls.rename) calls disk
                  (cleanup-Clean calls contents disk replace_failed)
                  (if-Clean (not calls.open_parent) calls disk (none_added refl) (
                    if-Clean (not calls.sync_parent) calls disk (none_added refl)
                      (none_added refl))))))))

  write_and_rename-Replaced :
      (calls : Calls) (disk before : Disk) (state : IssuerState) (encoded : Option Text)
      → disk.file ≡ before.file
      → disk.temporaries ≡ before.temporaries
      → p.write_state state ≡ encoded
      → Replaced calls before
          (write_and_rename calls disk encoded).0
          state
          (write_and_rename calls disk encoded).1
  unfolding write_and_rename
  write_and_rename-Replaced calls disk before state none f t e = record {
    atomic = inl (ground arith);
    clean = same-Clean calls disk before t (write_and_rename-Clean calls disk none);
    done = λ h. absurd (ground arith);
  }
  write_and_rename-Replaced calls disk before state (some contents) f t e =
      let either : ((write_and_rename calls disk (some contents)).0.file ≡ before.file)
          ⊎ ((write_and_rename calls disk (some contents)).0.file ≡ some (file_of contents)) =
        ground arith in
      record {
        atomic = elim either [ inl h ↦ inl h | inr h ↦ inr (contents, e, h) ];
        clean = same-Clean calls disk before t (write_and_rename-Clean calls disk (some contents));
        done = λ h. (contents, e, ground arith);
      }

  unchanged :
      (calls : Calls) (disk : Disk) (state : IssuerState) (fault : StoreFault)
      → Replaced calls disk disk state (err fault)
  unchanged calls disk state fault = record {
    atomic = inl refl;
    clean = none_added refl;
    done = λ h. absurd (cc h);
  }

  save_in-Replaced :
      (calls : Calls) (disk before : Disk) (state : IssuerState)
      → disk.file ≡ before.file
      → disk.temporaries ≡ before.temporaries
      → Replaced calls before (save_in p calls disk state).0 state (save_in p calls disk state).1
  unfolding save_in
  save_in-Replaced calls disk before state f t = by_check (check_directory calls disk.directory)
    where
      by_check :
          (r : Result StoreFault (Unit {0}))
          → let s : Disk × Result StoreFault (Unit {0}) = elim r [
            | err fault ↦ (disk, err fault)
            | ok checked ↦ write_and_rename calls disk (p.write_state state)
          ] in
            Replaced calls before s.0 state s.1
      by_check (err fault) = record {
        atomic = inl f;
        clean = none_added t;
        done = λ h. absurd (cc h);
      }
      by_check (ok checked) =
          write_and_rename-Replaced calls disk before state (p.write_state state) f t refl

  -- Whichever system calls fail, a save leaves the old file or the whole new state; where it
  -- succeeds, it leaves the new state. It adds one temporary file where it fails and the removal
  -- of the file fails too, and otherwise none.
  pub save-Replaced :
      (disk : Disk) (calls : Calls) (path : Text) (state : IssuerState)
      → Replaced calls disk (save p disk calls path state).0 state (save p disk calls path state).1
  unfolding save
  save-Replaced disk calls path state = elim (Bool-cases (text_eq path [])) [
    | inl e ↦ rw e (unchanged calls disk state path_required)
    | inr e ↦ rw e (by_validity (validate_state p state false))
  ]
    where
      by_validity :
          (r : Result StoreFault (Unit {0}))
          → let s : Disk × Result StoreFault (Unit {0}) = elim r [
            | err fault ↦ (disk, err fault)
            | ok valid ↦
                if not calls.make_directory
                then (disk, err create_directory)
                else save_in p calls (record disk { directory = some (made disk.directory) }) state
          ] in
            Replaced calls disk s.0 state s.1
      by_validity (err fault) = unchanged calls disk state fault
      by_validity (ok valid) = elim (Bool-cases calls.make_directory) [
        | inl e ↦ simp e (
            save_in-Replaced calls (record disk { directory = some (made disk.directory) }) disk
              state refl refl)
        | inr e ↦ simp e (unchanged calls disk state create_directory)
      ]

  kept_directory :
      (calls : Calls) (disk : Disk) (encoded : Option Text)
      → (write_and_rename calls disk encoded).0.directory ≡ disk.directory
  unfolding write_and_rename
  kept_directory calls disk encoded = ground arith

  -- What a save that returned no error has checked.
  record Saved (disk : Disk) (path : Text) (state : IssuerState) (after : Disk) : Type 0 where
    named : text_eq path [] ≡ false
    valid : validate_state p state false ≡ ok tt
    directory : after.directory ≡ some (made disk.directory)
    kind : (made disk.directory).is_dir ≡ true
    mode : (bit_and (made disk.directory).mode 0o022 == 0) ≡ true

  save-Saved :
      (disk : Disk) (calls : Calls) (path : Text) (state : IssuerState)
      → (save p disk calls path state).1 ≡ ok tt
      → Saved disk path state (save p disk calls path state).0
  unfolding save save_in check_directory
  save-Saved disk calls path state h = record {
    named = ground arith;
    valid = ground arith;
    directory = ground (
      arith,
      kept_directory calls (record disk { directory = some (made disk.directory) })
          (p.write_state state),
    );
    kind = ground arith;
    mode = ground arith;
  }

  valid_legacy :
      (state : IssuerState)
      → validate_state p state false ≡ ok tt
      → validate_state p state true ≡ ok tt
  unfolding validate_state
  valid_legacy state h = ground arith

  -- A state that was saved without an error is loaded back, where its JSON round trips within the
  -- size limit and no system call of the load fails.
  pub load-save :
      (disk : Disk) (calls later : Calls) (path : Text) (state : IssuerState)
      → StateRoundTrip p state
      → Healthy later
      → (save p disk calls path state).1 ≡ ok tt
      → load p (save p disk calls path state).0 later path ≡ ok (some state)
  unfolding load read_state_file check_existing_directory
  load-save disk calls later path state json healthy h =
      let s = save-Saved disk calls path state h in
      let (contents, written, stored) = (save-Replaced disk calls path state).done h in
      let (pos, fits, reads) = json.read-write contents written in
      ground (
        arith,
        s.named,
        s.directory,
        s.kind,
        s.mode,
        valid_legacy state s.valid,
        stored,
        pos,
        fits,
        reads,
      )
