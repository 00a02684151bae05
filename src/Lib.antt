-- ===== src/Lib.antt =====
-- qorl steers PostgreSQL's planner with plan actions that a language model proposes, and measures the
-- plans that they lead to.
--
-- Parts, and the files that model them:
--   src/qorl/plans/catalog.py    Plans/Catalog.antt. What a query's actions may name: its relations,
--                                its join graph and its indexes. `require_relations` searches the
--                                graph for the connection between the relations of a target.
--   src/qorl/plans/schemas.py    Plans/Methods.antt (the enumerations and the hint tables),
--                                Plans/Schemas.antt (the checks of each request),
--                                Plans/Schemas/Fields.antt (the validators of single fields),
--                                Plans/Schemas/Leading.antt (the join order),
--                                Plans/Schemas/Action.antt (the checks across the requests of an
--                                action) and Plans/Schemas/Compile.antt (the hint comment).
--   src/qorl/plans/verify.py     Plans/Nodes.antt (a plan, and what is looked up in it) and
--                                Plans/Verify.antt (`verify_action`, which lists where a plan departs
--                                from an action). Plans/Verify/Satisfied.antt says the same without
--                                errors.
--   src/qorl/plans/fingerprint.py and util/hashing.py  Plans/Fingerprint.antt. The canonical form that
--                                identifies a plan, and its digest with sorted keys.
--                                Plans/Fingerprint/Same.antt says which plans are the same.
--   src/qorl/plans/exceptions.py Plans/Errors.antt. ActionError, with a constructor for each message.
--   src/qorl/measure/schemas.py  Measure/Schemas.antt (the records that a rollout keeps),
--                                Measure/Evidence.antt (settings, pairs, outcomes and the record of a
--                                rollout, with the checks of the smaller ones) and
--                                Measure/Evidence/Matches.antt (`evidence_matches_outcome`).
--   src/qorl/measure/timeouts.py  Measure/Timeouts.antt. The limits of the statements, and the median
--                                that they follow from.
--   src/qorl/measure/rollout.py  Measure/Rollout.antt (a rollout, and `start`),
--                                Measure/Rollout/Attempts.antt (`evaluate`, with its probes),
--                                Measure/Rollout/Pairing.antt (`execute_pair`, and the loops over it)
--                                and Measure/Rollout/Finish.antt (`finish` and `record`).
--                                Measure/Rollout/Lifecycle.antt has the states that a rollout reaches
--                                between `start` and `finish`.
--   src/qorl/measure/query.py    Measure/Query.antt. The warm-up of one query and its timed trials.
--   src/qorl/measure/validation.py  Measure/Validation.antt (the attempts of a rollout) and
--                                Measure/Validation/Selection.antt (the choice among them).
--                                Measure/Planner.antt is the interface that they use: the plan actions
--                                of src/qorl/plans, and the worker that explains a query.
--                                Measure/Validation/Steps.antt has the states that a rollout reaches.
--   src/qorl/taskset/schemas.py and taskset.py  Taskset/Schemas.antt. The catalogs of tasks.
--   src/qorl/taskset/selection.py  Taskset/Sampling.antt (`select_tasks`, over any reading of an
--                                expression and any sampler) and
--                                Taskset/Selection.antt. `validate_splits`, which keeps the query
--                                topologies of the splits apart.
--   src/qorl/agent/interface.py, tools.py and types.py  Agent/Interface.antt. The limits of a rollout and
--                                the tools that each turn offers.
--   src/qorl/agent/tool_runtime.py  Agent/ToolRuntime.antt. The calls that change a rollout, over the
--                                evaluator of Measure/Validation.antt.
-- Prelude.antt and its children hold what the parts share: lists as sets, sorting as Python's `sorted`
-- does it, association lists as dictionaries, and `Result`, in which an exception is an `err`.
-- Numbers.antt and Json.antt model Python's numbers and decoded JSON.
--
-- How the code is read:
--   A set or a frozenset is a list in whatever order Python iterates over it; the theorems hold for
--   every order. A `frozenset` that is a key of a table is listed in the order of its enumeration.
--   A check that raises is a `Result`, and the first error is the one that is raised.
--   A decoded object is the list of its entries, in the order in which Python's dict keeps them;
--   `sha256_json` sorts them by key before it encodes.
--   A string is a native string, and `sorted` compares code points, as Python does.
--   An operation of the evaluator takes its state and gives a result or an exception, with the state
--   that it leaves in either case. The worker and the cancel event, which another thread sets, answer
--   by the number of the call; the theorems hold for all their answers.
--   The operations of a rollout run in a monad of the state and the exceptions, and an operation of the
--   evaluator that it inherits is run on the evaluator in its state.
--   The loops of a rollout run as often as its settings say, and are recursions on that number.
--   A product, a quotient and half a sum of floating-point numbers, `math.isclose` and the order that
--   `rng.shuffle` leaves are parameters, about which the theorems assume nothing; that the worker
--   reports the limit a query has exceeded, and that the keys for the reuse of timings, which are
--   digests, are equal only for equal plans, are hypotheses where a theorem uses them.
--   The search loop of `require_relations` runs on fuel, one for each relation of the target; a
--   relation is visited at most once, so that this is enough.
--
-- Not modelled: pydantic, which reads JSON into the models' fields before the checks above run, with the
-- bounds of single fields; the JSON schemas that are derived from the models; `format(value, ".15g")`,
-- which is a parameter of `compile`; the SHA-256 digest of an encoded value, which is a parameter of
-- the identities of plans; the regular expression that reads pg_hint_plan's report, whose four parts
-- `verify_action` takes; the texts of error messages; `parse_selection`, whose syntax is a regular
-- expression; `random.sample`; the capture of the host and its containers; model clients, trainers and
-- the command line, which drive processes, files and servers.
pub mod Agent
pub mod Json
pub mod Measure
pub mod Numbers
pub mod Plans
pub mod Prelude
pub mod Taskset
