-- ===== src/Workspace/Sessions.antt =====
-- A session: any calls of the workspace, one after another.
use remotish.Shared.{
  Text, Bytes, Result, ok, err, Failure, Method, Option, [], ◌∷◌, Bool, ◌≡◌, refl, ◌>>=◌, ◌>>◌,
  Bool-cases, inl, inr, is_some, lookup, if◌then◌else◌, Dict, pure, modify,
}
use remotish.Sdk.{Branch}
use remotish.Workspace.{
  Host, Workspace, WorkspaceSnapshot, require_writable, restore_workspaces, restore, roll_back,
  rethrow, changed, run_local_mutation, mutate, mutate_remote_with_result, snapshot,
}
use remotish.Workspace.Branches.{
  call_get_branches, remote_branch, ensure_workspace, switch_to, switch_branch, refresh_remote_head,
  refresh, call_create_branch, add_branch, create_branch, create,
}
use remotish.Workspace.Facade
use remotish.Workspace.Facade.{Resolution}
use remotish.Workspace.Journal.{
  Keeps, IsJournaled, bind-Keeps, pure-Keeps, attempt-Keeps, modify-Keeps, guard-Keeps,
  method_rules, require_expected_state-Keeps, emit_changed-Keeps, save_snapshot-Keeps,
  changed_after-Keeps,
}
use remotish.WorkingTree.{WorkingTreeSnapshot}

pub restore_workspaces-Keeps : (s : Dict WorkingTreeSnapshot) → Keeps (restore_workspaces s)
unfolding restore_workspaces
restore_workspaces-Keeps [] = pure-Keeps tt
restore_workspaces-Keeps ((branch, s) ∷ rest) =
    bind-Keeps _ _ (attempt-Keeps _)
      (λ o. bind-Keeps _ _ (modify-Keeps _ (λ w j. j)) (λ d. restore_workspaces-Keeps rest))

pub restore-Keeps : (s : WorkspaceSnapshot) → Keeps (restore s)
unfolding restore
restore-Keeps s =
    bind-Keeps _ _ (modify-Keeps _ (λ w j. j))
      (λ d. bind-Keeps _ _ (restore_workspaces-Keeps s.branches) (λ e. modify-Keeps _ (λ w j. j)))

pub trace-rethrow {ℓ} :
    (A : Type ℓ) (e : Failure) (x : Result (Unit {0}) × Workspace) → (rethrow {A = A} e x).1 ≡ x.1
unfolding rethrow
trace-rethrow A e (ok done, w) = refl
trace-rethrow A e (err f, w) = refl

roll_back-IsJournaled {ℓ} :
    {A : Type ℓ} (s : WorkspaceSnapshot) (x : Result A × Workspace)
    → IsJournaled x.1.trace
    → IsJournaled (roll_back s x).1.trace
unfolding roll_back
roll_back-IsJournaled s (ok a, w) j = j
roll_back-IsJournaled {A = A} s (err e, w) j =
    rw (trace-rethrow A e (restore s w)) ((restore-Keeps s).at w j)

module _ (host : Host) where
  changed-Keeps : Keeps (changed host)
  unfolding changed
  changed-Keeps = bind-Keeps _ _ (save_snapshot-Keeps host) (λ d. emit_changed-Keeps)

  operate-Keeps {ℓ} :
      {A : Type ℓ} (m : Method Workspace A) (p : A → Bool)
      → Keeps m
      → Keeps (do a ← m; (if p a then changed host else pure tt); pure a)
  operate-Keeps m p k = search (method_rules, changed-Keeps)

  run_local_mutation-Keeps {ℓ} :
      {A : Type ℓ} (m : Method Workspace A) (p : A → Bool)
      → Keeps m
      → Keeps (run_local_mutation host m p)
  unfolding run_local_mutation
  run_local_mutation-Keeps m p k = record {
    at = λ w j. roll_back-IsJournaled (snapshot host w) _ ((operate-Keeps m p k).at w j);
  }

  mutate-Keeps : (m : Method Workspace (Unit {0})) → Keeps m → Keeps (mutate host m)
  unfolding mutate
  mutate-Keeps m k = search (method_rules, run_local_mutation-Keeps)

  ruleset mutation_rules = (method_rules, require_expected_state-Keeps, mutate-Keeps)

  pub write_file-Keeps :
      (path : Text) (content : Bytes) (c o : Bool) → Keeps (Facade.write_file host path content c o)
  unfolding Facade.write_file require_writable
  write_file-Keeps path content c o = search mutation_rules

  pub create_directory-Keeps : (path : Text) → Keeps (Facade.create_directory host path)
  unfolding Facade.create_directory require_writable
  create_directory-Keeps path = search mutation_rules

  pub delete-Keeps : (path : Text) (recursive : Bool) → Keeps (Facade.delete host path recursive)
  unfolding Facade.delete require_writable
  delete-Keeps path recursive = search mutation_rules

  pub rename-Keeps : (source target : Text) (o : Bool) → Keeps (Facade.rename host source target o)
  unfolding Facade.rename require_writable
  rename-Keeps source target o = search mutation_rules

  pub revert-Keeps : (path : Text) (e : Option (Text × Text)) → Keeps (Facade.revert host path e)
  unfolding Facade.revert
  revert-Keeps path e = search mutation_rules

  pub revert_all-Keeps : (e : Option (Text × Text)) → Keeps (Facade.revert_all host e)
  unfolding Facade.revert_all
  revert_all-Keeps e = search mutation_rules

  pub call_get_branches-Keeps : Keeps (call_get_branches host)
  unfolding call_get_branches
  call_get_branches-Keeps = record { at = λ w j. j }

  remote_branch-Keeps : (name : Text) → Keeps (remote_branch host name)
  unfolding remote_branch
  remote_branch-Keeps name = search (method_rules, call_get_branches-Keeps)

  pub ensure_workspace-Keeps : (branch : Text) → Keeps (ensure_workspace host branch)
  unfolding ensure_workspace
  ensure_workspace-Keeps branch = record {
    at = λ w j. elim (Bool-cases (is_some (lookup branch w.workspaces))) [
      | inl y ↦ rw y j
      | inr n ↦
          rw n
            ((bind-Keeps _ _ (remote_branch-Keeps branch) (λ b. modify-Keeps _ (λ v k. k))).at w j)
    ];
  }

  switch_to-Keeps : (branch : Text) → Keeps (switch_to host branch)
  unfolding switch_to
  switch_to-Keeps branch =
      bind-Keeps _ _ (ensure_workspace-Keeps branch) (λ d. modify-Keeps _ (λ w j. j))

  pub switch_branch-Keeps : (branch : Text) → Keeps (switch_branch host branch)
  unfolding switch_branch
  switch_branch-Keeps branch = search (mutation_rules, switch_to-Keeps)

  pub refresh-Keeps : Keeps (refresh_remote_head host)
  unfolding refresh_remote_head refresh
  refresh-Keeps = search (method_rules, run_local_mutation-Keeps, remote_branch-Keeps)

  call_create_branch-Keeps : (name revision : Text) → Keeps (call_create_branch host name revision)
  unfolding call_create_branch
  call_create_branch-Keeps name revision = record { at = λ w j. j }

  add_branch-Keeps : (b : Branch) → Keeps (modify (add_branch b))
  unfolding add_branch
  add_branch-Keeps b = modify-Keeps _ (λ w j. j)

  create-Keeps : (name : Text) (switch : Bool) → Keeps (create host name switch)
  unfolding create
  create-Keeps name switch = bind-Keeps _ _ (guard-Keeps _ _) λ d.
      bind-Keeps _ _ (attempt-Keeps _) λ t.
        bind-Keeps _ _ (call_create_branch-Keeps name _)
          λ b. search (method_rules, add_branch-Keeps, switch_to-Keeps)

  pub create_branch-Keeps :
      (name : Text) (switch : Bool) (e : Option (Text × Text))
      → Keeps (create_branch host name switch e)
  unfolding create_branch mutate_remote_with_result
  create_branch-Keeps name switch e =
      search (method_rules, require_expected_state-Keeps, create-Keeps, changed_after-Keeps)
