-- ===== src/Lib.antt =====
-- Return Atlas: refunds and returns that an agent proposes, people review, and one ledger pays.
--
-- A buyer opens a case; the agent's runs propose a decision; gates and a human authorize it;
-- fulfillment waits for the goods where a return is required; the refund ledger pays each item once.
--
-- Prelude models what Python is used for: tests on numbers, comprehensions on lists, and exceptions as
-- values of Result. A table is a list of rows, an UPDATE replaces the row of its key, and a
-- transaction is a function to a result: one that raises is rolled back, so an error carries no
-- tables. References, digests and texts that are only compared are numbers, and so are instants,
-- amounts and decimals.
--
-- Case models CaseStatus (apps/contracts/src/return_agent_contracts/ui.py), ALLOWED_TRANSITIONS and
-- CaseStore (apps/api/src/return_agent/store.py) over the tables of
-- apps/api/src/return_agent/db/case.py: create, lock, append_turn, transition, latest_interrupt and
-- append_event have those names here.
--
-- Gates.Money is evaluate_review_gate with its validator (review_gates.py), and Gates.Risk is
-- evaluate_user_risk with its validators (user_risk.py), both of the contracts. The validators raise
-- where a Boolean test on the record fails; the digest of a configuration is a parameter.
--
-- Policy is policy_v2.py of the contracts: Policy has the paths and the facts, Policy.Predicates is
-- _predicate_values, and Policy.Evaluate is evaluate_policy with the validators of PolicyEvaluation,
-- up to the digests of its result. Policy.Laws.Terms says of the facts themselves what makes an item
-- refundable.
--
-- Worker is apps/agent_service: Worker.Journal is PostgresCommandJournal and Worker.Memory is
-- InMemoryCommandJournal (journal.py), Worker.Consume is AgentWorker.run_once (worker.py). The runtime
-- is a function from a command to the nodes that it reports and its result; the broker fails where a
-- parameter says so; what other workers write in the journal during a run is any function of its rows.
--
-- Refund is SqlAlchemyRefundExecutionRepository (apps/api/src/return_agent/capabilities/refund.py):
-- Refund.Start opens and rejects executions, Refund.Reserve is mark_application_started and the part
-- of register_authorization that opens and reserves (capabilities/fulfillment.py), Refund.Complete is
-- complete with append_risk_event (capabilities/user_risk.py). Refund.Ownership.Once takes a ledger
-- through any sequence of these transactions, which are serialized by row locks in the program. There,
-- complete is called, as the provider calls it, on an execution whose mutation was marked as started.
--
-- Fulfillment has the rows and messages of a return, Fulfillment.Returns is confirm_return
-- (policy_routes.py) and accept_return_event, Fulfillment.Release is the end of
-- register_authorization, check_release and the two transactions of FulfillmentWorker.run_once
-- (capabilities/fulfillment.py). The look-up of an event before its authorization is locked is an
-- argument of accept_return_event, so a concurrent delivery may have committed in between.
--
-- Runtime is the graph of packages/agent_runtime (graph.py, policy.py, state.py): Runtime has the
-- state that the routing reads and the budgets, Runtime.Intake, Runtime.Assess and Runtime.Decide have
-- the nodes by the names of their functions, and Runtime.Graph runs the node that _route names. What
-- the model, a provider or the buyer answers, and whether the validation of the answer accepts it, is
-- an argument of the node; a node that interrupts the run is marked, with the reply that resumes it.
--
-- Evidence is _resolve_initial_evidence and _merge_evidence of the same graph.py, whose provider is a
-- function from a reference to an item that its contract accepts, or none.
--
-- HumanReview is the review by a person: HumanReview.Messages has the messages (models.py of the
-- contracts), HumanReview.Rules is validate_human_review_entry, validate_human_decision and
-- human_corrected_decision (validation.py), HumanReview.Provider is SqlAlchemyHumanReviewProvider
-- (capabilities/human_review.py) with validate_persisted_dossier_snapshot (capabilities/user_risk.py),
-- and HumanReview.Provider.Complete its complete_for_case. A completed refund on a v2 bundle is
-- evaluated by Policy, and its dossier's gates are those of Gates.
--
-- Refund.Authorization, with its Rules, decides whether a resolution may be paid:
-- _authorization_rejection with its helpers and _validate_human_edit (capabilities/refund.py), over
-- the rows of HumanReview and the gates of Gates. Refund.Provider is SqlAlchemyRefundExecutionProvider
-- of the same file: decide is execute up to its last rejection, and in Refund.Provider.Execute attempt
-- and resume are _resume, and execute is itself. Other transactions may run between the decision and
-- its transaction, and while the application runs. The depth of the calls of execute through _resume
-- is the only fuel, and Refund.Provider.Returns says how much is enough; all other recursion is on
-- lists.
--
-- Bridge is apps/api/src/return_agent/agent_bridge.py over the tables of db/agent_bridge.py:
-- Bridge.Project has the index and the record of an event, and Bridge.Project.Apply is
-- AgentEventProjector.project with _apply, _project_node, _project_interrupt, _project_resolution and
-- _complete_refund, one function for each of its two transactions; Bridge.Reject is reject;
-- Bridge.Consume is consume_event_once on a message that was read; Bridge.Outbox is the claim and the
-- record of a command's publication, and dispatch_completion_once. It moves the cases of Case. The
-- refund provider, the digest of an event, register_authorization and the JSON of a transcript's event
-- are parameters, and so is what other transactions do between the two of a refund.
--
-- Not modelled: prompts and the content of what the model returns, the validation of contracts by
-- pydantic beyond the validators named above, the checks of register_authorization on a proposal, the
-- rest of validation.py, the safety verification, learning records and operational memory, the web
-- application, migrations, brokers and databases. Sharing of sessions between threads is left to the
-- database's locks.
pub mod Prelude
pub mod Case
pub mod Gates
pub mod Refund
pub mod Policy
pub mod Worker
pub mod Fulfillment
pub mod Evidence
pub mod Bridge
pub mod Runtime
pub mod HumanReview
