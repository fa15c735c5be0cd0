-- ===== src/Approvals/Examples.antt =====
-- The theorems about the approval engine, each applied to a small set of tables.
use time_sync_be.Prelude.{
  ℕ, ◌<◌, true, false, none, some, List, [], ◌∷◌, ◌≡◌, refl, ◌↔◌, ◌⊎◌, inr, arith, ◌≢◌, ◌==◌, ◌&&◌,
  ◌||◌, find_first, All, Updated, ok,
}
use time_sync_be.Approvals.Types.{
  ApprovalStatus, WorkflowStepType, WorkforceStatus, Actor, WorkflowStep, Workflow, StepInstance,
  ApprovalRequest, ReturnNote, WorkforceAction, Delegation, Tables, is_pending,
}
use time_sync_be.Approvals.Steps.{current_pending_step, steps_of, advance_automated_steps}
use time_sync_be.Approvals.Passing.{needs_nobody, may_pass, Passed, IsDone}
use time_sync_be.Approvals.Advance.{is_request, Settled, advance-Settled}
use time_sync_be.Approvals.Assignment.{
  assert_actor_can_act_on_step, actor_role_ids, holds_role, has_delegation, delegates_to,
  assignment_where_for_actor, active_delegated_from_user_ids,
}
use time_sync_be.Approvals.Assignees.{
  Submission, step_instances_for_workflow, resolve_step_assignee,
}
use time_sync_be.Approvals.Access.{Among, here, CanAct, assigned, passes-iff-CanAct}
use time_sync_be.Approvals.Requests.{Env}
use time_sync_be.Approvals.Decisions.{
  approve, reject, return, withdraw, process_current_step, terminate_request,
}
use time_sync_be.Approvals.Tasks.{TaskQuery, filter_current_steps, task_where, list_tasks}
use time_sync_be.Approvals.Listing.{IsCurrent, filter-IsCurrent}
use time_sync_be.Approvals.Shown.{can_act_is_shown, later_step_is_shown}
use time_sync_be.Approvals.Gates.{Admitted, decision-Admitted}
use time_sync_be.Approvals.Finality.{
  HasOutcome, decided, ended, handed_to, run, Reach, next, decided_is_final,
}
use time_sync_be.Approvals.Outcomes.{awaits_approval, ending_closes}
use time_sync_be.Approvals.Verdicts.{return_keeps, rejection_ends, approval_settles}
use time_sync_be.Approvals.Submissions.{HasApprover, Mirrors, instances-HasApprover}
use time_sync_be.Approvals.Amendments.{update-IsSound}
use time_sync_be.Approvals.Delegations.{
  DelegationPatch, update_delegation, NewDelegation, create_delegation, delete_delegation, disable,
}
use time_sync_be.Approvals.Windows.{
  IsSound, is_delegation, create-IsSound, deleted_hands_nothing, deleted_early_is_unsound,
}

abbrev manager : Actor
manager = record { id = 7; tenant_id = some 1; permissions = [] }

abbrev director : Actor
director = record { id = 8; tenant_id = some 1; permissions = [] }

abbrev to_manager : WorkflowStep
to_manager = record {
  id = 30;
  step_order = 1;
  name = "Manager";
  type = WorkflowStepType.approval;
  approver_user_id = some 7;
  approver_role_id = none;
  approver_expression = none;
  is_required = true;
  allow_delegation = true;
  sla_hours = none;
}

abbrev to_director : WorkflowStep
to_director = record to_manager {
  id = 31;
  step_order = 3;
  name = "Director";
  approver_user_id = some 8;
}

abbrev to_notify : WorkflowStep
to_notify = record to_manager {
  id = 32;
  step_order = 2;
  name = "Notify";
  type = WorkflowStepType.notification;
  approver_user_id = none;
}

abbrev route : Workflow
route = record {
  id = 40;
  tenant_id = 1;
  is_active = true;
  is_deleted = false;
  code = "LEAVE";
  workflow_module = "leave";
  trigger_key = none;
  steps = to_manager ∷ to_notify ∷ to_director ∷ [];
}

abbrev step_for : ℕ → WorkflowStep → StepInstance
step_for k w = record {
  id = k;
  approval_request_id = 10;
  workflow_step = some w;
  step_order = w.step_order;
  name = w.name;
  assigned_user_id = w.approver_user_id;
  assigned_role_id = none;
  status = ApprovalStatus.pending;
  due_at = none;
  completed_at = none;
  created_at = 5;
  return_note = none;
}

abbrev manager_step : StepInstance
manager_step = step_for 20 to_manager

abbrev director_step : StepInstance
director_step = step_for 22 to_director

abbrev asked : ApprovalRequest
asked = record {
  id = 10;
  tenant_id = 1;
  workflow_id = some 40;
  request_module = "leave";
  entity_type = "Other";
  entity_id = 3;
  title = "Leave";
  description = none;
  status = ApprovalStatus.pending;
  submitted_by_id = some 9;
  submitted_at = some 5;
  completed_at = none;
}

abbrev awaiting : WorkforceAction
awaiting = record {
  id = 50;
  tenant_id = 1;
  employee_id = 3;
  workflow_request_id = some 10;
  status = WorkforceStatus.pending_approval;
  completed_at = none;
}

-- from the manager to the director, from 200 to 300
abbrev holiday : Delegation
holiday = record {
  id = 60;
  tenant_id = 1;
  from_user_id = 7;
  to_user_id = 8;
  delegated_module = none;
  starts_at = 200;
  ends_at = 300;
  is_active = true;
  reason = none;
}

abbrev tables : Tables
tables = record {
  requests = asked ∷ [];
  steps = manager_step ∷ step_for 21 to_notify ∷ director_step ∷ [];
  actions = [];
  workforce_actions = awaiting ∷ [];
  delegations = holiday ∷ [];
  users =
      record { id = 7; tenant_id = 1; is_deleted = false }
      ∷ record { id = 8; tenant_id = 1; is_deleted = false }
      ∷ [];
  roles = [];
  user_roles = [];
  workflows = route ∷ [];
  log = [];
}

-- the manager has approved, and the notice is next
abbrev notifying : Tables
notifying = record tables { steps = step_for 21 to_notify ∷ director_step ∷ [] }

-- no entity of another service
abbrev env : Env
env = record {
  now = 100;
  new_request_id = 11;
  new_step_id = λ n. n;
  directory = record {
    employee_exists = λ t k. false;
    assignment_employee = λ t k. none;
    leave_request_employee = λ t k. none;
    position_exists = λ t k. false;
    person_exists = λ t k. false;
    assignments = [];
  };
}

advance-Settled_example : Settled 100 1 10 notifying (advance_automated_steps 100 1 10 notifying)
advance-Settled_example = advance-Settled 100 1 10 notifying asked refl

passes-iff-CanAct_example :
    ((assert_actor_can_act_on_step 100 manager 1 asked manager_step tables).0 ≡ ok tt)
    ↔ CanAct 100 manager 1 "leave" tables manager_step
passes-iff-CanAct_example = passes-iff-CanAct 100 manager 1 asked manager_step tables

filter-IsCurrent_example :
    Among (λ t. t ≡ manager_step) (filter_current_steps tables.steps)
    ↔ (IsCurrent tables.steps manager_step × Among (λ t. t ≡ manager_step) tables.steps)
filter-IsCurrent_example = filter-IsCurrent tables.steps manager_step

can_act_is_shown_example :
    assignment_where_for_actor 250 director 1 (some "leave") tables manager_step ≡ true
unfolding assert_actor_can_act_on_step actor_role_ids holds_role has_delegation delegates_to
can_act_is_shown_example =
    can_act_is_shown 250 director 1 asked manager_step tables (some "leave") (inr refl) refl refl

abbrev my_tasks : TaskQuery
my_tasks = record {
  status = none;
  request_module = none;
  assigned_to_me = true;
  current_only = true;
  limit = none;
}

abbrev two_steps : Tables
two_steps = record tables { steps = manager_step ∷ director_step ∷ [] }

later_step_is_shown_example :
    Among (λ s. s ≡ director_step) (list_tasks 100 director 1 my_tasks two_steps).items
    × (current_pending_step (steps_of 10 two_steps.steps) ≢ some director_step)
unfolding task_where assignment_where_for_actor active_delegated_from_user_ids actor_role_ids
    holds_role current_pending_step
later_step_is_shown_example =
    later_step_is_shown 100 director 1 my_tasks two_steps manager_step director_step refl
      (omega arith) refl refl refl (omega arith) (here refl) (λ same pending. omega arith, tt)

may_act : CanAct 100 manager 1 "leave" tables manager_step
may_act = assigned 7 refl refl

current : current_pending_step (steps_of 10 tables.steps) ≡ some manager_step
unfolding current_pending_step
current = refl

abbrev asked_approved : ApprovalRequest
asked_approved = record asked { status = ApprovalStatus.approved; completed_at = some 100 }

approval_settles_example :
    let (result, db') = process_current_step env manager 10 approve none tables in
    Passed 100 (λ k. (k == 20) || may_pass 10 tables.steps k) tables.steps db'.steps
    × All (IsDone 100 20) db'.steps
    × (((result ≡ ok asked_approved) × (current_pending_step (steps_of 10 db'.steps) ≡ none))
        ⊎ ((next : StepInstance) × (result ≡ ok asked)
            × (current_pending_step (steps_of 10 db'.steps) ≡ some next)
            × (needs_nobody next.workflow_step ≡ false)
            × (db'.requests ≡ tables.requests)))
approval_settles_example =
    approval_settles env manager 1 10 none tables asked manager_step refl refl refl current may_act

rejection_ends_example :
    let (result, db') = process_current_step env manager 10 reject none tables in
    let ended = record asked { status = ApprovalStatus.rejected; completed_at = some 100 } in
    (result ≡ ok ended)
    × (find_first (is_request 1 10) db'.requests ≡ some ended)
    × Updated
        (λ s. s.id == 20)
        (λ s. record s { status = ApprovalStatus.rejected; completed_at = some 100 })
        tables.steps
        db'.steps
rejection_ends_example =
    rejection_ends env manager 1 10 none tables asked manager_step refl refl refl current may_act

return_keeps_example :
    let (result, db') = process_current_step env manager 10 return none tables in
    let note : ReturnNote = record {
      returned_by_id = 7;
      returned_at = 100;
      return_comment = none;
    } in
    (result ≡ ok asked)
    × (db'.requests ≡ tables.requests)
    × Updated (λ s. s.id == 20) (λ s. record s { return_note = some note }) tables.steps db'.steps
return_keeps_example =
    return_keeps env manager 1 10 none tables asked manager_step refl refl refl current may_act

returned : (process_current_step env manager 10 return none tables).0 ≡ ok asked
returned = return_keeps_example.0

decision-Admitted_example :
    (request : ApprovalRequest) × (step : StepInstance) × (tenant_id : ℕ) × Admitted 100 manager 10
      tables request step tenant_id
decision-Admitted_example = decision-Admitted env manager 10 tables return none {r = asked} returned

abbrev decided_tables : Tables
decided_tables = record tables { requests = asked_approved ∷ [] }

-- The manager rejects the approved request, hands it to the director, and withdraws it.
abbrev called_on : Tables
called_on = run env manager 10 none (ended withdraw) (
    run env manager 10 none (handed_to 8) (run env manager 10 none (decided reject) decided_tables))

decided_is_final_example : HasOutcome 10 ApprovalStatus.approved (some 100) called_on
decided_is_final_example =
    decided_is_final 10 ApprovalStatus.approved (some 100) decided_tables called_on refl
      (λ _. (refl, refl), tt)
      (next
        (next (next Reach.here env manager 10 none (decided reject)) env manager 10 none
          (handed_to 8))
        env manager 10 none (ended withdraw))

ending_closes_example :
    let (result, db') = terminate_request env manager 10 withdraw none tables in
    let ended = record asked { status = ApprovalStatus.withdrawn; completed_at = some 100 } in
    (result ≡ ok ended)
    × (find_first (is_request 1 10) db'.requests ≡ some ended)
    × (current_pending_step (steps_of 10 db'.steps) ≡ none)
    × Updated
        (λ s. (s.approval_request_id == 10) && is_pending s.status)
        (λ s. record s { status = ApprovalStatus.withdrawn; completed_at = some 100 })
        tables.steps
        db'.steps
    × Updated
        (awaits_approval 1 10)
        (λ w. record w { status = WorkforceStatus.cancelled; completed_at = some 100 })
        tables.workforce_actions
        db'.workforce_actions
ending_closes_example = ending_closes env manager 1 10 withdraw none tables asked refl refl refl

abbrev leave_submission : Submission
leave_submission = record {
  workflow_id = some 40;
  workflow_code = none;
  trigger_key = none;
  submission_module = "leave";
  entity_type = "Other";
  entity_id = 3;
  title = "Leave";
  description = none;
  employee_id = none;
  allow_auto_approval = false;
}

abbrev made_step : ℕ → WorkflowStep → StepInstance
made_step k w = record (step_for k w) { approval_request_id = 11; created_at = 100 }

abbrev made_steps : List StepInstance
made_steps = made_step 0 to_manager ∷ made_step 1 to_notify ∷ made_step 2 to_director ∷ []

made :
    step_instances_for_workflow 100 1 11 (λ n. n) 0 [] leave_submission tables route.steps
    ≡ ok made_steps
unfolding step_instances_for_workflow resolve_step_assignee
made = refl

instances-HasApprover_example : All HasApprover made_steps × Mirrors 11 route.steps made_steps
instances-HasApprover_example =
    instances-HasApprover 100 1 11 (λ n. n) [] leave_submission tables 0 route.steps made_steps made

abbrev new_holiday : NewDelegation
new_holiday = record {
  from_user_id = 7;
  to_user_id = 8;
  delegated_module = none;
  starts_at = 400;
  ends_at = 500;
  is_active = none;
  reason = none;
}

holidays-IsSound : All IsSound tables.delegations
holidays-IsSound = ((ground arith, ground arith), tt)

create-IsSound_example : All IsSound (create_delegation 61 manager new_holiday tables).1.delegations
create-IsSound_example = create-IsSound 61 manager new_holiday tables holidays-IsSound

deleted_hands_nothing_example :
    (find_first (is_delegation 1 60) (delete_delegation 250 manager 60 tables).1.delegations
      ≡ some (disable 250 holiday))
    × (delegates_to 250 1 7 8 "leave" (disable 250 holiday) ≡ false)
deleted_hands_nothing_example =
    deleted_hands_nothing 250 manager 1 60 tables holiday refl refl 250 1 7 8 "leave"

deleted_early_is_unsound_example :
    (d : Delegation) × (find_first
        (is_delegation 1 60)
        (delete_delegation 100 manager 60 tables).1.delegations
      ≡ some d)
    × (d.ends_at < d.starts_at)
    × ¬ IsSound d
deleted_early_is_unsound_example =
    deleted_early_is_unsound 100 manager 1 60 tables holiday refl refl (omega arith) (omega arith)

abbrev longer : DelegationPatch
longer = record {
  from_user_id = none;
  to_user_id = none;
  delegated_module = some "leave";
  starts_at = none;
  ends_at = some 400;
  is_active = none;
  reason = none;
}

update-IsSound_example : All IsSound (update_delegation manager 60 longer tables).1.delegations
update-IsSound_example =
    update-IsSound manager 1 60 longer tables holiday refl refl (inr refl, tt) holidays-IsSound
