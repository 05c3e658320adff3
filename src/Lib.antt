-- ===== src/Lib.antt =====
-- Orion Dock: agents in containers, with skills behind a sandbox, an execution loop around a language
-- model, safety checks, and a birth that ends in a signed constitution. This library models the core
-- logic of the Rust crates and proves what makes it correct.
--
-- The parts and their files:
--   Skills      crates/orion-skills. Manifest: the data of manifest.rs. Failure: structured_failure.rs
--               (`kind_key`, `to_constraint`). Sandbox: sandbox.rs (`filter_permissions`,
--               `check_permission`). Registry: registry.rs and the data of skill.rs. Executor:
--               executor.rs, a tool call through registry, sandbox, limiter and timeout.
--   Router      crates/orion-router. Goal: goal_frame.rs, the plan. Execution: execution_state.rs, the
--               working memory and `detect_progress`. Prompts: the texts of execution_state.rs and
--               governor.rs. Governor: the loop of governor.rs. Planner: planner.rs, and the
--               execution of governor.rs with its plan. Constraints: constraint_store.rs.
--               Provider: provider.rs of crates/orion-capabilities, what goes to a model. Routing:
--               router.rs, the check of a message and the routes to Id and Ego. Clients: how a router
--               is put together.
--   Birth       crates/orion-birth. Stage, Orchestrator and Ceremony: stages.rs, with
--               `sign_constitutional_documents` of crates/orion-core/src/keyring.rs. Machine: what the
--               operations change outside, with the birth records of crates/orion-memory. Verifier:
--               verifier.rs and document.rs of crates/orion-core, the check of the signed documents.
--   Core        crates/orion-core. Superego: superego.rs, the checks on messages and queries. Policy:
--               policy.rs, the gate on tool requests. Hosts: local_llm_url.rs, and the trust policy for MCP
--               servers of config.rs.
--   Tools       skills/. Filesystem: skill-filesystem, reading, writing, listing and searching below
--               allowed roots. Shell: skill-shell, a command of the shell behind a safety check. Install:
--               skill-cooperative-install, packages installed here, in the sidecar or by a script for
--               the mentor. Toolbox: skill-docker-exec, commands and packages in the sidecar, over HTTP (Calls).
--               Http: skill-http, the check of URLs and (Requests) the requests.
--               Host: what they use of the operating system and of serde_json.
--   Api         crates/orion-api. Jobs: the scheduled jobs of orchestration.rs, their significance,
--               and (Requests) the changes of their list. Store: the files of jobs and of their log.
--   Urls        what is used of the url crate.
--   Prelude, Affixes  shared names, lists, texts and maps; prefix and suffix tests.
--
-- How they interact: the governor records the failures of tools (Failure) as attempts, learns
-- constraints from them and chooses its next strategy by progress detection; the executor asks the
-- registry for a skill and judges its tool by the sandbox of the skill's tier; the policy asks the
-- superego about the query of a web tool, and the router about the last message of the user; the tools
-- fill the interface of skills that the executor calls; the birth signs and records with the key ring
-- and the store.
--
-- How code becomes definitions: a struct is a record, an enum a data type, a method a function by
-- clauses. A method that changes its object returns the new state. A panic is `none`. The language
-- models, the tools, the parser and the clock of the governor are an environment `Env` over a world;
-- skills run under `Run`; paths, cryptography, base64, templates and time of the birth are a
-- `Platform`, and the libraries under the verifier a `Crypto`; Unicode tables are a `Unicode`; JSON
-- values are a type `Value`; the operating system under the skills and the job files is an `Os` over a
-- world, its file paths are lists of components, so that a path is shown without a trailing slash or
-- an inner `.`, a timeout bounds the wait for a command and does not stop it, and cron is a function; an HTTP client is a function
-- over a world, and the parser of URLs a parameter; a model behind the router
-- is an `LlmProvider`, and a stream the list of its events. The birth's fallible file and database
-- operations take their failures from the list `faults`, so every interleaving of successes and
-- failures is covered. Numbers are natural numbers: the code compares them, and adds only counters
-- that a plan bounds.
--
-- Bounds: the governor's loop is a recursion on the rounds that are left of the plan's
-- `max_iterations`, as the code's `for` loop is, so no fuel is chosen. All other recursions are
-- structural.
--
-- Not modelled: the council of crates/orion-router; the parsing of manifests
-- and the discovery of skills on disk; the interleaving of calls on the executor's limiter; the birth
-- chat; vaults and secrets; the traces of the superego; the soul forge and crystallization; the
-- constant descriptors of tools; the other skills; HTTP routes, e-mail and the web interface. They are
-- I/O, glue, floating point, or left for an extension.
pub mod Prelude
pub mod Affixes
pub mod Urls
pub mod Skills
pub mod Router
pub mod Birth
pub mod Core
pub mod Tools
pub mod Api
