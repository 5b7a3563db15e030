-- ===== src/Lib.antt =====
-- Bauhinia-Agent: a model of its control plane, the part that decides what an agent may do and
-- keeps the plan that it follows.
--
-- Task plans (bauhinia_agent/planning, and the part of bauhinia_agent/context that stores plans).
-- A session is a log of events. The service reads the current plan from the log, reduces a command on
-- it, and appends the new plan as one event; the log is the only state.
--   Planning/Values, Errors   the data of models.py and reducer.py, Python objects, exceptions
--   Planning/Models           models.py: Task and TaskPlan, from_dict and to_dict
--   Planning/Projection       projection.py: display order, dependencies, ready and blocked tasks,
--                             levels
--   Planning/Validation       validation.py: validate_plan; Spec says what a valid plan is
--   Planning/Views            what the views of a plan are
--   Planning/Commands         the parsers of reducer.py
--   Planning/Reducer          create_tasks, update_tasks and revise_tasks of reducer.py
--   Planning/Session          append_task_plan_updated of context/writer.py and the replay of
--                             task_plan_updated in context/store.py; another event holds its type, and the
--                             error, if any, that reading it raises
--   Planning/Service          create, update and revise of service.py, as functions of the log
--   Planning/Samples, Examples  concrete plans, commands and logs
-- A function that raises returns a Result; a constructor of an error stands for a message. Python
-- objects that a parser is given are a data type, Value, with the cases that the parsers tell apart. A
-- mutation takes the log and returns its result with the log after it: the locks of service.py make
-- that one step, and are not modelled otherwise. Sorting by order and position is a stable insertion
-- sort. Strings are the language's own, and strip removes the white space of Python's str.strip.
-- topological_levels runs on fuel, as many rounds as tasks, since each round completes a task.
--
-- Permissions (bauhinia_agent/permissions). Before a tool acts the manager checks its request: the saved
-- grants that match decide, a deny grant first, and otherwise the default policy. If the check asks, the
-- answer of the user settles the request, and may save a grant.
--   Permissions/Types         types.py, and Platform: what the source takes from pathlib, os.path,
--                             urllib, ipaddress and the Unicode tables of str, as a parameter
--   Permissions/Commands      the texts of commands and targets: control characters, prefixes, lines
--   Permissions/Policy        DefaultPermissionPolicy of policy.py
--   Permissions/Grants        PermissionGrantStore of grants.py
--   Permissions/Grants/Files  the dictionaries of saved grants
--   Permissions/Manager       preflight and resolve_confirmation of manager.py; the manager with its
--                             grants is passed in and returned
--   Permissions/Dialog        the dialogs of manager.py
--   Permissions/Examples      a small platform and requests on it
-- The platform is an arbitrary record of functions, so the theorems hold for each; that one of these
-- functions raises is not modelled. Of the metadata of a request only the truth of a value is read.
--
-- Node graphs (bauhinia_agent/planning/evo.py). A graph of nodes with budgets and attempts is kept in an
-- append-only log of events, and is read back by replaying them.
--   Evo/Graph                 PlanBudget, PlanNode, PlanGraph and require_evo_id; the search for a cycle
--                             runs on fuel, as many rounds as nodes
--   Evo/Store                 EvoPlanningService: create, update_node, synchronize, replan and get, as
--                             functions of the log, whose events hold nodes and graphs themselves: to_dict and
--                             from_dict of these are not modelled
--   Evo/Examples              small graphs and logs
--
-- Context policies (bauhinia_agent/context).
--   Context/Retry             retry_policy.py and triggers.py
--   Context/ToolSequence      tool_sequence.py; the set of open calls is a list without repetitions
--   Context/Pairs, Results, Histories, Accepted  the histories that it accepts
--   Context/Examples          concrete limits and histories
--
-- Background jobs (bauhinia_agent/agent/background.py). A manager starts jobs in a pool of threads, and
-- hands out a notification of each one that ended. Every critical section, and every step of the pool,
-- is a move; a history is any list of moves. A collection is a move that takes the queued jobs and then a
-- move for each job that is told of, and collections run one after the other, as collect_completed asks
-- of its caller.
--   Background                the jobs, their notifications and the manager
--   Background/Operations     start, the pool's begin and finish (_run and _finish), cancel, get, list
--   Background/Collect, Collected  collect_completed, as a whole and in the moves that it makes, and the
--                             parts of shutdown
--   Background/Report         summaries, snapshots and notifications
--   Background/Notice         the text of a notification, with the escape of html and texts of numbers
--   Background/Controls       the control fields in the arguments of a call
--   Background/Steps          moves and histories, and shutdown
--   Background/Invariant, Kept  what holds between moves
--   Background/Limits, Delivery, Cancelling  limits, the end of every job, and cancellation
--   Background/Examples       small histories
-- What a tool or a callback of a job returns or raises is part of the move that ends it, so that any
-- value is covered. The identifier of a job is the number in its text, which Notice makes. The pool
-- takes functions in their order, with at most max_workers threads.
--
-- Learned artifacts (bauhinia_agent/evolution, mainly promotion.py). An artifact goes from Candidate
-- through Shadow and Validated to Promoted, or is Rejected or Deprecated. Its state is read from the
-- log of events, and each change is one more event.
--   Promotion                 the events, and state
--   Promotion/Trials          resolve_evidence_records of evidence.py, and valid shadow trials
--   Promotion/Store           append of store.py, and the look-ups in the log
--   Promotion/Service, Service/Change  CandidateLifecycleService, and its _transition
--   Promotion/Gate            PromotionGate and active_promoted
--   Promotion/Calls, History, Approval, Walks, Unattended  what calls do
--   Promotion/Lineage, Rollback  the earlier versions of a lineage, and what a rollback goes back to
--   Promotion/Samples, Examples  small logs
-- A call reads the log once: no other writer comes between its reading and its appending. Redaction,
-- the comparison of two variants and the check of a report's facts are arguments. New identifiers, the
-- time and failures of the store are the moment of a call.
--
-- The registry of learned artifacts (bauhinia_agent/evolution/candidate_artifacts.py). It makes an
-- artifact of reviewed candidates, or the next version of one, and appends it to the same log.
--   Artifacts                 the draft of an artifact, its checks, and _artifact_payload
--   Artifacts/Registry        CandidateArtifactRegistry.create, and the manifest with its versions
--   Artifacts/Registry/Outcome, Reviews, Sources, Accepted  what create goes through and makes
--   Artifacts/Registry/Numbered, Latest, Versions  the versions of a lineage
--   Artifacts/Registry/Examples  a log with two versions
-- Redaction, the lower case of a text and the hash of a content are arguments. A new identifier names
-- no artifact of the log. Infinities and NaN are left out of the confidences, and drafts have the types
-- that are declared for them.
--
-- Not modelled: files (also the one that grants are saved to), locks and JSON text, the other events
-- of a session, decision records and task contracts, the observer that mirrors plans into the evolution
-- store (a function of the plan and the operation that raises nothing), and the parts of the program
-- that orchestrate model calls, tools and the user interface.
pub mod Common
pub mod Planning
pub mod Permissions
pub mod Evo
pub mod Context
pub mod Background
pub mod Promotion
pub mod Artifacts
