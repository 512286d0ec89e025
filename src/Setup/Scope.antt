-- ===== src/Setup/Scope.antt =====
-- The operator's selection bounds what backend/app/setup_integration/runtime.py admits.
use gjallar.Prelude.{
  ℕ, ◌≡◌, refl, String, Bool, true, ◌&&◌, ◌⊎◌, inl, inr, some, List, [], ◌∷◌, ◌++◌, any, arith,
  nat_eq, str_eq_iff, if◌then◌else◌, Option-cases,
}
use gjallar.Setup.{
  Connection, managed, TargetScope, Credential, SetupState, contains, is_active, has_feature,
  required_feature, feature_targets, find_credential, admit_credential, admit_mutation,
}
use gjallar.Result.{ok}

-- Every VM that the operator selected, under any heading.
abbrev pub selected : TargetScope → List ℕ
selected scope =
    scope.vmids ++ scope.create_vmids ++ scope.restore_vmids ++ scope.clone_vmids
    ++ scope.image_vmids

-- What an admitted change of a managed connection rests on.
pub record Permitted (credential : Credential) (vmid : ℕ) (operation_type : String) : Type 0 where
  pub feature : String
  pub required : required_feature operation_type ≡ some feature
  pub usable : (is_active credential.state ≡ true) × (credential.decrypts ≡ true)
  pub granted :
      (has_feature feature credential.configuration ≡ true)
      ⊎ ((feature ≡ "power")
          × ((has_feature "create" credential.configuration ≡ true)
                × (contains vmid credential.configuration.scope.create_vmids ≡ true)
              ⊎ (has_feature "restore" credential.configuration ≡ true)
                × (contains vmid credential.configuration.scope.restore_vmids ≡ true)))
  pub in_scope :
      (credential.configuration.cluster_wide ≡ true)
      ⊎ (contains vmid (selected credential.configuration.scope) ≡ true)

any-append :
    (test : ℕ → Bool) (xs ys : List ℕ)
    → any test (xs ++ ys) ≡ (if any test xs then true else any test ys)
any-append test [] ys = refl
any-append test (x ∷ xs) ys = ground (arith, any-append test xs ys)

-- Whatever the feature, its targets are among the selected VMs.
targets-selected :
    (vmid : ℕ) (feature : String) (restored : Bool) (s : TargetScope)
    → contains vmid (feature_targets feature restored s) ≡ true
    → contains vmid (selected s) ≡ true
unfolding feature_targets
targets-selected vmid feature restored s h =
    let test = nat_eq vmid in
    ground (
      arith,
      any-append test s.vmids s.create_vmids,
      any-append test (s.vmids ++ s.create_vmids) s.restore_vmids,
      any-append test (s.vmids ++ s.create_vmids ++ s.restore_vmids) s.clone_vmids,
      any-append test (s.vmids ++ s.create_vmids ++ s.restore_vmids ++ s.clone_vmids) s.image_vmids,
      any-append test s.create_vmids s.restore_vmids,
      any-append test s.image_vmids s.restore_vmids,
      any-append test s.vmids s.restore_vmids,
      any-append test s.vmids s.clone_vmids,
    )

admit_credential-Permitted :
    (credential : Credential) (vmid : ℕ) (operation_type : String)
    → is_active credential.state ≡ true
    → admit_credential credential vmid operation_type ≡ ok tt
    → Permitted credential vmid operation_type
unfolding admit_credential
admit_credential-Permitted credential vmid operation_type live h =
    elim (Option-cases (required_feature operation_type)) [
      | inl missing ↦ ground (arith, missing)
      | inr (feature, required) ↦ record {
        feature = feature;
        required = required;
        usable = (live, ground (arith, required));
        granted = ground (arith, required, str_eq_iff feature "power");
        in_scope =
            let restored =
              has_feature "restore" credential.configuration
              && contains vmid credential.configuration.scope.restore_vmids in
            ground (
              arith,
              required,
              targets-selected vmid feature restored credential.configuration.scope,
            );
      }
    ]

-- A managed connection admits a change only if it is open, for its own cluster, and its active
-- credential can be decrypted, was granted the operation's feature (or, for power, created or
-- restored the VM), and covers the cluster or has the VM among the selected ones.
pub admit_mutation-Permitted :
    (state : SetupState) (connection : Connection) (cluster_id : String) (vmid : ℕ)
    (operation_type : String)
    → state.connection ≡ some connection
    → connection.source ≡ managed
    → admit_mutation state cluster_id vmid operation_type ≡ ok tt
    → (connection.cluster_id ≡ cluster_id)
      × (connection.admission_open ≡ true)
      × (credential : Credential) × (find_credential connection.active_revision_id state.credentials
          ≡ some credential)
      × Permitted credential vmid operation_type
unfolding admit_mutation
admit_mutation-Permitted state connection cluster_id vmid operation_type e m h =
    elim (Option-cases (find_credential connection.active_revision_id state.credentials)) [
      | inl missing ↦ ground (arith, e, m, missing)
      | inr (credential, found) ↦
          let live : is_active credential.state ≡ true = ground (arith, e, m, found) in
          let admits : admit_credential credential vmid operation_type ≡ ok tt =
            ground (arith, e, m, found) in
          let same : connection.cluster_id ≡ cluster_id =
            ground (arith, e, m, found, str_eq_iff connection.cluster_id cluster_id) in
          let opened : connection.admission_open ≡ true = ground (arith, e, m, found) in
          (
            same,
            opened,
            credential,
            found,
            admit_credential-Permitted credential vmid operation_type live admits,
          )
    ]
