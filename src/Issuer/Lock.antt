-- ===== src/Issuer/Lock.antt =====
-- The process lock around the life of an issuer.
use virtual_cloud_help_servi.Prelude.{
  ◌≡◌, refl, Bool, true, false, not, ◌&&◌, Option, none, some, Result, ok, err, arith, ltb, leb,
  ◌==◌, if◌then◌else◌, ℕ,
}
use virtual_cloud_help_servi.Prelude.Text.{Text, text_eq}
use virtual_cloud_help_servi.Platform.{Platform, public_of}
use virtual_cloud_help_servi.Manifest.Types.{KeyGrant, max_u64}
use virtual_cloud_help_servi.Manifest.Fault.{Fault}
use virtual_cloud_help_servi.Manifest.KeyPolicy.{key_policy_grant, key_id_of}
use virtual_cloud_help_servi.Issuance.State.{IssuerState, StoreFault, no_state}
use virtual_cloud_help_servi.Issuance.FileStore.{Disk, Calls, load, save}
use virtual_cloud_help_servi.Issuer.{
  IssuerFault, Issuer, versions_exhausted, durable_policy_rollback, durable_policy_changed,
  durable_key_inconsistent, durable_epoch_changed, durable_epoch_not_advanced, migrate_state,
  key_refused, load_state, lock_unavailable,
}
use virtual_cloud_help_servi.Issuer.Start.{
  IssuerOptions, World, StartCalls, release, started, then_do, migrated, migrate, same_epoch,
  check_policy_of, current_grant, check_epoch_of, start_locked, start_over, start_loaded,
  check_options, new_issuer, close,
}

-- The lock is held where a part of the start went well, with a value as it has to be, and free
-- where it did not.
data Held {A : Type 0} (P : A → Type 0) (out : World × Result IssuerFault A) : Type 0 where
  freed : (fault : IssuerFault) → out.1 ≡ err fault → out.0.locked ≡ false → Held P out
  held : (value : A) → out.1 ≡ ok value → out.0.locked ≡ true → P value → Held P out

abbrev Anything : {A : Type 0} → A → Type 0
Anything value = Unit {0}

then_do-Held :
    {A B : Type 0} (P : A → Type 0) (Q : B → Type 0) (out : World × Result IssuerFault A)
    (next : World → A → World × Result IssuerFault B)
    → Held P out
    → ((world : World) (value : A) → world.locked ≡ true → Held Q (next world value))
    → Held Q (then_do out next)
unfolding then_do
then_do-Held P Q (world, err fault) next (freed f e l) h = freed fault refl l
then_do-Held P Q (world, err fault) next (held v e l good) h = absurd (ground (arith, e))
then_do-Held P Q (world, ok value) next (freed f e l) h = absurd (ground (arith, e))
then_do-Held P Q (world, ok value) next (held v e l good) h = h world value l

if-Held :
    {A : Type 0} (P : A → Type 0) (b : Bool) (world : World) (fault : IssuerFault)
    (rest : World × Result IssuerFault A)
    → Held P rest
    → Held P (if b then (record world { locked = false }, err fault) else rest)
if-Held P true world fault rest h = freed fault refl refl
if-Held P false world fault rest h = h

abbrev Open : Issuer → Type 0
Open issuer = issuer.closed ≡ false

-- What `Held` says of the lock, of a start and of the close after it.
Held-locked :
    (out : World × Result IssuerFault Issuer)
    → Held Open out
    → ((fault : IssuerFault) → out.1 ≡ err fault → out.0.locked ≡ false)
      × ((issuer : Issuer)
          → out.1 ≡ ok issuer
          → (out.0.locked ≡ true) × ((close out.0 issuer).0.locked ≡ false))
unfolding close
Held-locked (world, r) (freed fault e l) = (λ f k. l, λ issuer k. absurd (ground (arith, e)))
Held-locked (world, r) (held issuer e l kept) =
    (λ f k. absurd (ground (arith, e)), λ other k. (l, ground (arith, e, kept)))

module _ (p : Platform) (options : IssuerOptions) where
  migrate-Held :
      (world : World) (calls : Calls) (digest : Text) (state : IssuerState)
      → world.locked ≡ true
      → Held Anything (migrate p options world calls digest state)
  unfolding migrate
  migrate-Held world calls digest state l = by_legacy (not (state.policy_version == 0))
    where
      by_save :
          (next : IssuerState) (after : Disk) (saved : Result StoreFault (Unit {0}))
          → Held Anything (elim saved as (λ s. World × Result IssuerFault IssuerState) [
            | err fault ↦ (release (record world { disk = after }), err (migrate_state fault))
            | ok done ↦ (record world { disk = after }, ok next)
          ])
      by_save next after (err fault) = freed (migrate_state fault) refl refl
      by_save next after (ok done) = held next refl l tt

      by_migrated :
          (found : Result IssuerFault IssuerState)
          → Held Anything (elim found as (λ s. World × Result IssuerFault IssuerState) [
            | err fault ↦ (release world, err fault)
            | ok next ↦
                let (after, saved) = save p world.disk calls options.state_path next in
                elim saved [
                  | err fault ↦ (release (record world { disk = after }), err (migrate_state fault))
                  | ok done ↦ (record world { disk = after }, ok next)
                ]
          ])
      by_migrated (err fault) = freed fault refl refl
      by_migrated (ok next) =
          let (after, saved) = save p world.disk calls options.state_path next in
          by_save next after saved

      by_legacy :
          (current : Bool)
          → Held Anything (
              if current then (world, ok state) else elim (migrated p options digest state) [
                | err fault ↦ (release world, err fault)
                | ok next ↦
                    let (after, saved) = save p world.disk calls options.state_path next in
                    elim saved [
                      | err fault ↦
                          (release (record world { disk = after }), err (migrate_state fault))
                      | ok done ↦ (record world { disk = after }, ok next)
                    ]
              ])
      by_legacy true = held state refl l tt
      by_legacy false = by_migrated (migrated p options digest state)

  check_policy_of-Held :
      (world : World) (digest : Text) (state : IssuerState)
      → world.locked ≡ true
      → Held Anything (check_policy_of p options world digest state)
  unfolding check_policy_of
  check_policy_of-Held world digest state l =
      if-Held Anything (state.last_version == max_u64) world versions_exhausted _ (
        if-Held Anything (ltb options.key_policy.version state.policy_version) world
          durable_policy_rollback _
          (if-Held Anything
            (options.key_policy.version == state.policy_version
              && not (text_eq digest state.policy_sha256))
            world durable_policy_changed _
            (if-Held Anything
              (options.key_policy.version == state.policy_version
                && not (
                    same_epoch p options
                      (key_policy_grant p options.key_policy state.key_id state.last_version)
                      state.key_epoch))
              world durable_key_inconsistent _ (held _ refl l tt))))

  current_grant-Held :
      (world : World) (n : ℕ)
      → world.locked ≡ true
      → Held Anything (current_grant p options world n)
  unfolding current_grant
  current_grant-Held world n l =
      by_grant
        (key_policy_grant p options.key_policy (key_id_of p (public_of options.private_key)) n)
    where
      by_grant :
          (granted : Result Fault (KeyGrant × Text))
          → Held Anything (elim granted as (λ s. World × Result IssuerFault (KeyGrant × Text)) [
            | err fault ↦ (release world, err (key_refused fault))
            | ok granted ↦ (world, ok granted)
          ])
      by_grant (err fault) = freed (key_refused fault) refl refl
      by_grant (ok granted) = held granted refl l tt

  check_epoch_of-Held :
      (world : World) (key_id : Text) (epoch : ℕ) (state : IssuerState)
      → world.locked ≡ true
      → Held Anything (check_epoch_of p options world key_id epoch state)
  unfolding check_epoch_of
  check_epoch_of-Held world key_id epoch state l =
      if-Held Anything (text_eq key_id state.key_id && not (epoch == state.key_epoch)) world
        durable_epoch_changed _
        (if-Held Anything (not (text_eq key_id state.key_id) && leb epoch state.key_epoch) world
          durable_epoch_not_advanced _ (held tt refl l tt))

  start_over-Held :
      (world : World) (digest : Text) (found : Option IssuerState)
      → world.locked ≡ true
      → Held Open (start_over p options world digest found)
  unfolding start_over started
  start_over-Held world digest none l =
      then_do-Held Anything Open _ _ (current_grant-Held world 1 l)
        (λ w g h. held (started p options digest g.0.epoch no_state) refl h refl)
  start_over-Held world digest (some state) l =
      then_do-Held Anything Open _ _ (check_policy_of-Held world digest state l) (λ w n h.
        then_do-Held Anything Open _ _ (current_grant-Held w n h) (λ v g k.
          then_do-Held Anything Open _ _ (check_epoch_of-Held v _ _ state k)
            (λ u c m. held (started p options digest g.0.epoch state) refl m refl)))

  start_loaded-Held :
      (world : World) (calls : Calls) (digest : Text) (found : Option IssuerState)
      → world.locked ≡ true
      → Held Open (start_loaded p options world calls digest found)
  unfolding start_loaded
  start_loaded-Held world calls digest none l = start_over-Held world digest none l
  start_loaded-Held world calls digest (some state) l =
      then_do-Held Anything Open _ _ (migrate-Held world calls digest state l)
        (λ w current h. start_over-Held w digest (some current) h)

  start_locked-Held :
      (world : World) (calls : StartCalls) (digest : Text)
      → world.locked ≡ true
      → Held Open (start_locked p options world calls digest)
  unfolding start_locked
  start_locked-Held world calls digest l =
      by_load (load p world.disk calls.load_calls options.state_path)
    where
      by_load :
          (found : Result StoreFault (Option IssuerState))
          → Held Open (elim found as (λ s. World × Result IssuerFault Issuer) [
            | err fault ↦ (release world, err (load_state fault))
            | ok found ↦ start_loaded p options world calls.save_calls digest found
          ])
      by_load (err fault) = freed (load_state fault) refl refl
      by_load (ok found) = start_loaded-Held world calls.save_calls digest found l

  -- A start from a world in which this process holds no lock: on every error it holds none after,
  -- and where an issuer is returned the lock was free, the process holds it, and `Close` of that
  -- issuer releases it.
  pub new_issuer-lock :
      (world : World) (calls : StartCalls)
      → world.locked ≡ false
      → ((fault : IssuerFault)
          → (new_issuer p options world calls).1 ≡ err fault
          → (new_issuer p options world calls).0.locked ≡ false)
        × ((issuer : Issuer)
            → (new_issuer p options world calls).1 ≡ ok issuer
            → (calls.lock_free ≡ true)
              × ((new_issuer p options world calls).0.locked ≡ true)
              × ((close (new_issuer p options world calls).0 issuer).0.locked ≡ false))
  unfolding new_issuer
  new_issuer-lock world calls h = by_options (check_options p options)
    where
      locked : World
      locked = record world { locked = true }

      by_lock :
          (digest : Text) (free : Bool)
          → let out : World × Result IssuerFault Issuer =
              if not free
              then (world, err lock_unavailable)
              else start_locked p options locked calls digest in
            ((fault : IssuerFault) → out.1 ≡ err fault → out.0.locked ≡ false)
            × ((issuer : Issuer)
                → out.1 ≡ ok issuer
                → (free ≡ true) × (out.0.locked ≡ true) × ((close out.0 issuer).0.locked ≡ false))
      by_lock digest false = (λ fault e. h, λ issuer e. absurd (ground arith))
      by_lock digest true =
          let (failed, went) = Held-locked _ (start_locked-Held locked calls digest refl) in
          (failed, λ issuer e. (refl, (went issuer e).0, (went issuer e).1))

      by_options :
          (r : Result IssuerFault Text)
          → let out : World × Result IssuerFault Issuer = elim r [
            | err fault ↦ (world, err fault)
            | ok digest ↦
                if not calls.lock_free
                then (world, err lock_unavailable)
                else start_locked p options locked calls digest
          ] in
            ((fault : IssuerFault) → out.1 ≡ err fault → out.0.locked ≡ false)
            × ((issuer : Issuer)
                → out.1 ≡ ok issuer
                → (calls.lock_free ≡ true)
                  × (out.0.locked ≡ true)
                  × ((close out.0 issuer).0.locked ≡ false))
      by_options (err fault) = (λ f e. h, λ issuer e. absurd (ground arith))
      by_options (ok digest) = by_lock digest calls.lock_free
