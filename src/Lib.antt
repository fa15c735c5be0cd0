-- ===== src/Lib.antt =====
-- timeSync, an HR backend: its approval engine, workflow definitions, leave and attendance,
-- modelled and proved.
--
-- The program's parts. ApprovalsService (apps/api-gateway/src/workflows/approvals.service.ts) runs
-- approval requests through the steps of a workflow: it assigns each step, lets the assigned user,
-- the holder of its role or a delegate act on it, passes over automated and optional steps, and
-- ends the request with its workforce actions. LeaveService
-- (apps/api-gateway/src/leave/leave.service.ts) files leave requests against balances, hands them
-- to the approval engine, and settles the balance and its ledger when the engine comes to an
-- outcome. WorkflowsService (apps/api-gateway/src/workflows/workflows.service.ts) keeps the
-- workflows that the engine runs and the orders of their steps. AttendanceService
-- (apps/api-gateway/src/attendance/attendance.service.ts) records punches, works out the minutes
-- of a record, raises exceptions and draws up timesheets.
--
-- Which file models which part. Prelude and the modules below it: lists, tests and text over the
-- native numbers, signed minutes (Int), and handlers (Monad): a handler takes the tables to a
-- result and the tables, $transaction takes back what a throw has written. Approvals/Types: the
-- rows. Steps: currentPendingStep, setRequestTerminal, advanceAutomatedSteps. Assignment:
-- assertActorCanActOnStep, actorRoleIds, assignmentWhereForActor. Assignees: resolveStepAssignee,
-- stepInstancesForWorkflow. Requests and Submit: resolveEntityContext, resolveWorkflow,
-- submitRequest. Tasks: listTasks, filterCurrentSteps. Decisions: processCurrentStep,
-- terminateRequest, withdrawRequest, commentOnRequest, delegateCurrentStep. Delegations:
-- createDelegation, updateDelegation, deleteDelegation. Leave/Types: the rows. Rules:
-- assertBalanceAvailable, validateRequestWindow, assertNoOverlap. Outcome: applyLeaveOutcome,
-- ensureBalance. Adjust: adjustBalance. Filing: createRequest from the check of the window to the
-- end of its transaction. Decisions: approveRequest, rejectRequest, cancelRequest, which call the
-- engine. Requesting: createRequest from the check of its documents to its end, around Filing.
-- Calendar: resolveCalendarForEmployee. Days: evaluateCalendarWindow. Coverage:
-- coverageImpactForWindow. Workflows/Types: the rows. Orders: makeStepOrderRoom,
-- compactStepOrders, nextStepOrder and the loops of reorderSteps, with the unique index on the
-- orders. Definitions: the checks of a definition, updateWorkflow, transitionWorkflow. Creation:
-- createWorkflow. Steps: addStep, updateStep, deleteStep, reorderSteps. Attendance/Types: the
-- rows. Metrics: calculateMetrics. Policy: evaluateAttendancePolicy. Controls:
-- evaluateAttendanceControls, resolveGeofenceCandidates. Exceptions: upsertException,
-- syncRecordExceptions, syncControlExceptions. OpenRecords: resolvePunchAssignment,
-- findOrCreateOpenRecord and the guards of recordPunch. Clocking: applyPunchToRecord.
-- PunchRequests and Punches: recordPunch. Timesheets: upsertTimesheetEntry, recalculateTimesheet.
-- Generation: generateTimesheets for one employee, submitTimesheet, decideTimesheet. The other
-- modules hold proofs, and the modules named Examples, DayExamples and RequestExamples apply the
-- theorems to small tables.
--
-- How state and operations correspond. The tables are lists of rows in the order in which the
-- queries read them; a row is found by the first that fits, and an update changes every row that
-- fits. Ids are numbers, as the code only compares them; times are in milliseconds; minutes on a
-- balance are signed. The clock, and the ids that the database gives to new rows, are given to a
-- handler in its Env. Tables of other services that a submission is checked against are functions
-- in a Directory. A unique index that the code relies on is a check of the write
-- (unique_violation). Days are those of UTC, in which the process is taken to run. JSON metadata
-- and snapshots are not kept, but for the note that a return leaves on its step, which is kept
-- without the caller's own metadata, taken to name none of the note's keys.
--
-- Fuel. advance_automated_steps runs its loop with one round more than the request has pending
-- steps; each round but the last completes one, so that is enough. The loop over the days of a
-- window runs as many rounds as the window has days.
--
-- Not modelled: the look-ups at the start of createRequest, the choice of the approval route among
-- them, whose results Requesting takes as given; the choice of the active attendance policy, which
-- a punch takes as given; the distances to geofences, worked out in floating point, which come
-- with the position of a punch; manual records, corrections, offline punches and payroll exports;
-- the scope of a user over employees, a parameter of the timesheet handlers; listings with cursors
-- and reports; and the other services of the gateway. Handlers run one at a time.
pub mod Prelude
pub mod Approvals
pub mod Leave
pub mod Workflows
pub mod Attendance
