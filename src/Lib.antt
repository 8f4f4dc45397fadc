-- ===== src/Lib.antt =====
-- FragChain core: who may see what, what a detection plan holds, and how a rule is reviewed.
--
-- The program collects vulnerabilities, runs three loops of assessment on them and drafts
-- detection rules that a person reviews. These modules follow its decisions:
--   * Tlp, Access (fragchain/security/tlp.py): the levels, `parse`, `max_tlp` and `can_user_access`
--     over the stored grants and participants;
--   * Embargo, Embargo/Release (fragchain/security/embargo.py): the effective level of an embargoed
--     entity and the release of embargoes, over a store of tables, participants and audit rows;
--   * TlpFilter (fragchain/api/middleware/tlp_filter.py): the filters of the endpoints, which combine
--     the two, and the tier guards;
--   * AssessmentAccess (fragchain/assessments/access.py): reads, writes and the list of assessments;
--   * Detectability (fragchain/assessments/detectability.py): the classification and its validator;
--   * Router (fragchain/assessments/artifact_router.py): `build_plan`, which reads a classification;
--   * LoopState (fragchain/assessments/state_machine.py, loop_chain.py): which loop may run next;
--   * Gate (fragchain/assessments/loops/stubs.py, gating.py): the gate on the output of Loop 2 and the
--     classes for which Loop 3 makes no rules;
--   * PostLoop (fragchain/assessments/loops/post_loop.py): the hooks that follow a loop;
--   * Orchestrator (fragchain/assessments/orchestrator.py, active_rows.py; Worker is
--     fragchain/worker/tasks/run_assessment_loop.py, reaper.py, and service.py of assessments): the
--     runs of the loops. Its Invariant and Reach hold of every sequence of operations, and Shown is
--     the abstract view that Refines compares `execute_run` with;
--   * RuleSupersession (fragchain/assessments/rule_supersession.py): what a new rule replaces;
--   * Chunking (fragchain/vector/embedder.py): `chunk_text`;
--   * TokenBudget (fragchain/assessments/loops/token_budget.py): the sources that fit a prompt;
--   * WebhookHardening (fragchain/security/webhook_hardening.py): size and depth of a body, and the
--     store of answers to repeated requests;
--   * Routing (fragchain/sigma/targets.py): conditions over a rule, and the target they select;
--   * Ingest (fragchain/ingest/state.py, rate_limit.py, budget.py, filters.py, service.py): the stages
--     of a CVE, the limits, the filters of an import, and the merge of enrichments (Merge);
--   * Prompts (fragchain/prompts/store.py; Router is ab.py): the versions of a template, the cache of
--     the active ones, and A/B tests;
--   * PromptEval (fragchain/prompts/eval.py): the scores of a benchmark case;
--   * Structured (fragchain/llm/structured.py): the repair loop and the vote over a model's answers;
--   * Events (fragchain/notifications/events.py, bridge.py, fragchain/api/routers/websocket.py): the
--     bus, and what the pump sends to a subscriber;
--   * GitUrl (fragchain/security/git_url.py): the validation of hosts, URLs, branches and paths;
--   * Commons (fragchain/commons/sources.py, contribute.py): the ranking of sources, the chain that
--     wins, and contributions;
--   * Evaluations (fragchain/evaluations/store.py): the evaluations of a rule in the field;
--   * Coverage (fragchain/coverage/mapper.py): which rules cover a technique, its priority,
--     and the row that keeps them (Persist);
--   * Queue (fragchain/queue/manager.py): assignment, approval, rejection and edit of a queue item;
--   * Tickets (fragchain/api/ws_tickets.py): the tickets that open a WebSocket.
-- Prelude has the shared helpers, Counting the lemmas on how many rows pass a test, and Examples the runs on small inputs.
--
-- Identifiers and instants are natural numbers, a confidence is in thousandths, and a text is
-- stripped and lowered over its code points, `lower` on ASCII only. An exception is a result:
-- `none`, or a constructor of a result type. Every function is structurally recursive but
-- `windows`, which takes the length of the text and one more as fuel, since each round moves on by
-- a positive step, and `repair_loop`, whose fuel is twice the number of repairs and three, since
-- each round uses up one of two budgets. The cache of templates is that of one process. An operation on the rows of runs is one transaction, so that two of them do not
-- overlap; the ids of new runs are fresh. The clock, `datetime.fromisoformat`, `uuid.UUID`, the
-- formatting of a number, the order of a set, the parsing of conditions, the tokeniser, the loops
-- and the collaborators of their hooks, the transport of a pull request, the transport and the
-- branch names of a contribution, the provider of a model with the validation and the dump of its
-- schema, `urlparse`, `ip_address`, the ISO parsers, floating-point arithmetic, the pySigma
-- validator and the hash are arguments.
--
-- Not modelled: the database and its transactions beyond the rows above, HTTP, the decoding of
-- tokens, the text of prompts and the calls of language models, the connectors, the generators of
-- chains and rules, the synchronisation of the commons, the vector index, the queues of the workers, and the frontend; they are input and output around
-- these decisions, or work that is still to come.
pub mod Prelude
pub mod Counting
pub mod Tlp
pub mod Access
pub mod Embargo
pub mod TlpFilter
pub mod AssessmentAccess
pub mod Detectability
pub mod Router
pub mod LoopState
pub mod Gate
pub mod PostLoop
pub mod Orchestrator
pub mod RuleSupersession
pub mod Chunking
pub mod Commons
pub mod WebhookHardening
pub mod Routing
pub mod Ingest
pub mod Coverage
pub mod TokenBudget
pub mod PromptEval
pub mod Prompts
pub mod GitUrl
pub mod Evaluations
pub mod Events
pub mod Structured
pub mod Queue
pub mod Tickets
pub mod Examples
