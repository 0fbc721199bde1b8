-- ===== src/Workspace/Journal.antt =====
-- packages/core/src/workspace/workspace.ts: the journal of a publication in the trace of a workspace,
-- and the methods that keep the trace as the journal wants it.
use remotish.Shared.{
  Text, Result, ok, err, Method, Option, none, some, [], ◌∷◌, Bool, true, false, ◌≡◌, arith, ◌>>=◌,
  resume, if◌then◌else◌, RemotishErrorCode, attempt, guard, pure, throw, modify,
}
use remotish.Sdk.{CommitRequest, CommitResult}
use remotish.WorkingTree.{WorkingTree}
use remotish.Workspace.{
  Host, Workspace, WorkspaceSnapshot, save_call, commit_call, Trace, PendingCommitPublication,
  prepared, on_current, require_no_pending, require_expected_state, save_snapshot, try_save,
  emit_changed, changed_after_remote_success,
}
use remotish.Workspace.Commits.{expected_remote_revision, set_pending}

-- A trace in which every commit call comes right after a save that succeeded, of a snapshot with
-- the journal of that very publication: its branch and the revision that the remote must be at.
abbrev pub IsJournaled : Trace → Type 0
IsJournaled [] = Unit
IsJournaled (commit_call request r ∷ save_call s (ok done) ∷ trace) =
    (s.pending_commit_publication
      ≡ some (prepared request.branch (expected_remote_revision request)))
    × IsJournaled trace
IsJournaled (commit_call request r ∷ trace) = ⊥
IsJournaled (e ∷ trace) = IsJournaled trace

pub IsJournaled-call :
    (request : CommitRequest) (r : Result CommitResult) (s : WorkspaceSnapshot)
    (saved : Result (Unit {0})) (done : Unit {0}) (trace : Trace)
    → saved ≡ ok done
    → s.pending_commit_publication
      ≡ some (prepared request.branch (expected_remote_revision request))
    → IsJournaled trace
    → IsJournaled (commit_call request r ∷ save_call s saved ∷ trace)
IsJournaled-call request r s saved done trace e h j = rw e (h, j)

module _ (host : Host) where
  pub save-IsJournaled :
      (w : Workspace) → IsJournaled w.trace → IsJournaled (save_snapshot host w).1.trace
  unfolding save_snapshot
  save-IsJournaled w j = j

-- The method keeps the trace journaled, whether it returns or throws.
pub record Keeps {ℓ} {A : Type ℓ} (m : Method Workspace A) : Type ℓ where
  pub at : (w : Workspace) → IsJournaled w.trace → IsJournaled (m w).1.trace

module _ {ℓ κ} {A : Type ℓ} {B : Type κ} where
  pub resume-Keeps :
      (r : Result A) (f : A → Method Workspace B) (w : Workspace)
      → ((a : A) → Keeps (f a))
      → IsJournaled w.trace
      → IsJournaled (resume r f w).1.trace
  resume-Keeps (ok a) f w k j = (k a).at w j
  resume-Keeps (err e) f w k j = j

  pub bind-Keeps :
      (m : Method Workspace A) (f : A → Method Workspace B)
      → Keeps m
      → ((a : A) → Keeps (f a))
      → Keeps (m >>= f)
  unfolding ◌>>=◌
  bind-Keeps m f k l = record { at = λ w j. resume-Keeps (m w).0 f (m w).1 l (k.at w j) }

module _ {ℓ} {A : Type ℓ} where
  pub pure-Keeps : (a : A) → Keeps (pure a)
  unfolding pure
  pure-Keeps a = record { at = λ w j. j }

  pub throw-Keeps : (c : RemotishErrorCode) → Keeps (throw {A = A} c)
  unfolding throw
  throw-Keeps c = record { at = λ w j. j }

  pub attempt-Keeps : (f : Workspace → Result A) → Keeps (attempt f)
  unfolding attempt
  attempt-Keeps f = record { at = λ w j. j }

  pub if-Keeps :
      (b : Bool) (m n : Method Workspace A) → Keeps m → Keeps n → Keeps (if b then m else n)
  if-Keeps true m n k l = k
  if-Keeps false m n k l = l

  -- What leaves the trace alone keeps it.
  pub same_trace-Keeps :
      (m : Method Workspace A) → ((w : Workspace) → (m w).1.trace ≡ w.trace) → Keeps m
  same_trace-Keeps m h = record { at = λ w j. rw (h w) j }

  pub trace-on_current :
      (m : Method WorkingTree A) (w : Workspace) → (on_current m w).1.trace ≡ w.trace
  unfolding on_current
  trace-on_current m w = ground arith

  pub on_current-Keeps : (m : Method WorkingTree A) → Keeps (on_current m)
  on_current-Keeps m = same_trace-Keeps (on_current m) (trace-on_current m)

pub guard-Keeps : (b : Bool) (c : RemotishErrorCode) → Keeps (guard b c)
unfolding guard
guard-Keeps true c = record { at = λ w j. j }
guard-Keeps false c = record { at = λ w j. j }

trace-require_no_pending : (w : Workspace) → (require_no_pending w).1.trace ≡ w.trace
unfolding require_no_pending
trace-require_no_pending w = ground arith

pub require_no_pending-Keeps : Keeps require_no_pending
require_no_pending-Keeps = same_trace-Keeps require_no_pending trace-require_no_pending

pub modify-Keeps :
    (f : Workspace → Workspace)
    → ((w : Workspace) → IsJournaled w.trace → IsJournaled (f w).trace)
    → Keeps (modify f)
unfolding modify
modify-Keeps f h = record { at = h }

pub ruleset method_rules = (
  bind-Keeps, pure-Keeps, throw-Keeps, attempt-Keeps, if-Keeps, on_current-Keeps, guard-Keeps,
  require_no_pending-Keeps,
)

pub require_expected_state-Keeps : (e : Option (Text × Text)) → Keeps (require_expected_state e)
unfolding require_expected_state
require_expected_state-Keeps none = search method_rules
require_expected_state-Keeps (some (branch, revision)) = search method_rules

pub emit_changed-Keeps : Keeps emit_changed
unfolding emit_changed
emit_changed-Keeps = bind-Keeps _ _ (attempt-Keeps _) (λ t. modify-Keeps _ (λ w j. j))

module _ (host : Host) where
  pub save_snapshot-Keeps : Keeps (save_snapshot host)
  save_snapshot-Keeps = record { at = save-IsJournaled host }

  pub try_save-Keeps : Keeps (try_save host)
  unfolding try_save
  try_save-Keeps = record { at = save-IsJournaled host }

  pub changed_after-Keeps : Keeps (changed_after_remote_success host)
  unfolding changed_after_remote_success
  changed_after-Keeps = search (method_rules, try_save-Keeps, emit_changed-Keeps)

  pub set_pending-Keeps : (p : Option PendingCommitPublication) → Keeps (set_pending p)
  set_pending-Keeps p = modify-Keeps _ (λ w j. j)
