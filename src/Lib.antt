-- ===== src/Lib.antt =====
-- A model of the core of xibi, an assistant that runs tools on its user's behalf, and what was
-- proved of it. The source files are named by their paths in the repository.
--
-- The parts, and how they meet. A tool call passes the command layer (CommandLayer, for
-- xibi/command_layer.py), which asks for the tool's permission tier and the faults of its input
-- (Tools, for xibi/tools.py), for sensitive content (ContentScan, for
-- xibi/security/content_scan.py) and for a duplicate in its own log. The executor (Executor, for
-- xibi/executor.py) then runs it, if the breaker of that tool lets it. The scheduler (Scheduling,
-- for xibi/scheduling) runs stored actions on each tick, and passes their tool calls to the same
-- command layer with nobody present. Large tool outputs are kept behind handles (Handles, for
-- xibi/handles.py). A provider that fails is shut off by a circuit breaker (CircuitBreaker, for
-- xibi/circuit_breaker.py), and how often a role's outputs are audited follows its record
-- (TrustGradient, for xibi/trust/gradient.py). On every heartbeat the registered sweeps run
-- (SweepRegistry, for xibi/heartbeat/sweep_registry.py), and the caretaker's pulse tells the user
-- what has gone wrong (Caretaker, for xibi/caretaker). The actions that a subagent's step declares
-- pass two gates of their own (ActionGate, for xibi/subagent/trust.py); the run of a subagent's
-- steps itself, with its budgets, costs and cancellations, is Subagent (for xibi/subagent/models.py,
-- db.py, checklist.py and runtime.py). External text enters a prompt through the trust gate
-- (TrustGate, for xibi/security/trust_gate.py), which sanitizes it (TrustGate/Sanitizer, for
-- xibi/security/sanitize.py), has it graded (TrustGate/Grading, for xibi/security/risk_grader.py)
-- and frames it. The user's lists are Checklists (for xibi/checklists): which item a hint means,
-- edits of lists (Checklists/Editing), and what becomes of open items when a list starts anew
-- (Checklists/Rollover).
--
-- The user's own requests run in the agent's loop (React, for xibi/react.py and xibi/types.py; its
-- errors are Errors, for xibi/errors.py): each round asks a model, parses what it says
-- (React/Thinking), and has a tool called (React/Acting) through the command layer and the executor,
-- with handles for large outputs (React/Dispatching, React/Wrapping); React/Loop has the rounds and
-- the exits, React/Rendering the text that is salvaged when a run fails, and React/Opening what can
-- end a run before its loop. The model, the executor and the parsers are arguments there, with a
-- state of the executor's own; the parsers of the JSON and the XML format are React/Parsing. With
-- which source a call is gated is React/Sourcing, and which answers a native conversation can be
-- told of is React/Writing.
--
-- A model is found by its role (Routing, for xibi/router.py): the chain of fallbacks (Routing/Chains),
-- the clients whose breakers are closed, and a call that walks them until one answers
-- (Routing/Walking, Routing/Skipping). Mails that are no alarm are told in digests (Alerting, for
-- xibi/alerting/rules.py).
--
-- State and errors. A component's tables are lists of rows or association lists. A `Store` (in
-- Base) holds the tables with a list that says for each access to come whether it raises; a block
-- `with open_db(...)` is one access, committed or rolled back as a whole. So the theorems that
-- quantify over a store hold for every pattern of locked or failing accesses. An exception that
-- leaves an operation is `none`. Numbers are the native naturals; times are counted in the unit
-- that the component stores. Texts are texts of code points.
--
-- In Subagent, TrustGate and Checklists the database is taken to answer; there the hard behaviour is
-- in the order of writes and in texts. A regular expression is written out as a matcher of code
-- points, and Python's float scores as whole hundredths.
--
-- Loops are structural recursion, but for two on fuel: the eviction of handles, for as many rounds
-- as there are handles, enough since each round removes one; and the chain of fallbacks, for one round
-- more than there are roles, enough since no role is met twice.
--
-- Not in src/ or not modelled, and so arguments of the definitions: the clock, random numbers,
-- hashes and JSON texts, a model's answers and the prompts that they answer, whether a provider can
-- be reached, the code behind the scheduler's handlers, the sweeps' own work, the caretaker's checks,
-- whether a telegram could be sent, a model's answers to a subagent's step, when a run is cancelled,
-- what a tool's code comes to, what a registry prepares for a run, and `str.lower`. Log lines, tracing
-- spans and durations are left out. The providers' clients, mail, the web interface, MCP processes,
-- the deadlines of checklists and the matching of intents are not modelled.
pub mod Base
pub mod CircuitBreaker
pub mod Tools
pub mod ContentScan
pub mod CommandLayer
pub mod Scheduling
pub mod Handles
pub mod TrustGradient
pub mod SweepRegistry
pub mod Caretaker
pub mod ActionGate
pub mod Alerting
pub mod Checklists
pub mod Errors
pub mod Executor
pub mod React
pub mod Routing
pub mod Subagent
pub mod TrustGate
