-- ===== src/Lib.antt =====
-- A verification library for aisb, a Docker Engine client with a policy, an audit log and a fleet
-- of hosts. Paths are from the repository's root.
--
-- An operation is invoked through `invoke` (src/aisb/ops.py). It asks the policy
-- (src/aisb/policy.py), whose rules select hosts of the inventory (src/aisb/fleet/inventory.py);
-- it runs the operation over the transport (src/aisb/transport.py), in a plan when it only
-- previews; and it writes to the audit log (src/aisb/audit.py). What the daemon sends on an attached
-- stream is taken apart by `demux` (src/aisb/streams.py). Over many hosts an operation is fanned out
-- (src/aisb/fleet/runner.py), and a runbook (src/aisb/runbooks.py, src/aisb/api/runbook.py) is a
-- procedure of operations that pauses for approvals. A session (src/aisb/api/session.py) hooks into
-- `invoke`: it journals how each change is undone, and rolls an endpoint back to its baseline.
-- Compose files are read by a parser of its own (src/aisb/yamlish.py). A stack of services is parsed
-- from a file (src/aisb/stack.py) into specs of containers (src/aisb/models.py), brought up in the
-- order of its dependencies and taken down over the transport (src/aisb/api/stack.py).
--
--   Prelude      numbers, lists, Python's dicts, sets and texts, and results
--   Streams      `demux`: bytes are natural numbers, chunks are lists of bytes
--   Glob         `fnmatch.fnmatchcase` of Python's library, which rules and selectors call
--   Fleet        Selector: the terms of a selector; Inventory: hosts, groups, `select`, `regroup`,
--                `upsert`; Runner: `fan_out`, `_attempt`, `_one` and `summary`;
--                Health: `changes` (src/aisb/fleet/health.py)
--   Policy       Matching: `matches`; Window: `in_window`; Conditions: `_conditions`; Check: `check`
--                and `enforce`
--   Transport    the requests of an operation, and `dry_run`
--   Ops          Binding: `Op.call` and `Param`; Masking: `redact` of src/aisb/audit.py; `invoke`,
--                with its previews, hooks and records
--   Runbook      Text: `render` and `argv_of`; Parse: `parse`; Engine: `_execute`, `approve` and
--                `resume`
--   Remediate    `plan` of src/aisb/insights/remediate.py: what is done about a container by itself
--   Models       `RunSpec` with `from_dict`, `to_api` and `parse_port` (src/aisb/models.py)
--   Stack        `plan`, of a stack file (src/aisb/stack.py) against the containers there are; Parse:
--                `parse`; Up, Down and Ps: `up`, `down` and `ps` of src/aisb/api/stack.py
--   Graph        `build`, `depends_on` and `parse_sockets` of src/aisb/insights/graph.py
--   Sql          literals, identifiers and `mysql_client_command` of src/aisb/services/sql.py, and the
--                statements of src/aisb/services/roles.py
--   Audit        the records of the log, `record`, the anchors and `verify`
--   Yaml         the reader of configuration files (src/aisb/yamlish.py): Quoted and Plain scalars,
--                Flow collections, Lines, scalars that are Continued, and Block with `loads`
--   Session      Snapshot: `compare` (src/aisb/insights/snapshot.py); Lifecycle: how a
--                session begins and ends; Capture, Undo, Rollback and Scope: `capture`, `_undo`, `_scope`
--                and `rollback` of src/aisb/api/session.py
--   Redact       `args`, `shell`, `healthcheck`, `labels`, and Fill: `fill` (src/aisb/redact.py)
--
-- State is passed on: the transport is its plan and what was sent, the state of `invoke` is the
-- transport and the trail of records, the log is the list of its records. What raises returns a
-- result. The daemon, the clock's zones, `re.fullmatch`, SHA-256, HMAC, the JSON text of a record and
-- what it is read back as are parameters, as are the commands of a runbook and what runs on a host,
-- what a memory limit is raised to, and which names are secret. An operation is a tree
-- of what it asks of its transport, and the answers of the daemon choose the branch; a stream is sent
-- when it is asked for, while the code sends it when it is first read, and the request for the
-- daemon's version, a GET, is left out.
--
-- The texts of Yaml and Redact are lists of code points. A float that is read stays its text; how it
-- compares with other keys is a parameter, as is `\d` of `re`. A rollback is given the snapshot of an
-- endpoint, the connections to its hosts, the creation of a container, the restoring of a volume and
-- the scripts of a database; its steps are told by what they do, and `text_of` has their text. What
-- Redact finds by regular expressions is a parameter.
--
-- A stack is given the topological sort of `graphlib`, the hash of a body, and what is asked of the
-- transport to create, start and wait for a container; what is read from an answer of the daemon is
-- a parameter. A dict whose keys are distinct is an association list, and a value of a spec that the
-- code does not look into is kept as it is. Sockets are given the texts of their addresses, and the
-- client of MySQL what the expression for its commands matches. The index of `mysql_client_command`
-- is the text behind it with a number of characters to skip, so that the loop needs no fuel.
--
-- Where a loop is no structural recursion, it recurses on fuel. The loop of `demux` takes a byte
-- at least in every round, and has as much fuel as there are bytes, and one more. `members`
-- descends into a group only if it is computed and was not seen before, and has one level for each
-- computed group, and one more. The loop of `fan_out` has a round for each host, and every round
-- takes one at least. In Yaml, `scalar` has fuel for two turns more than its text has characters:
-- a turn of `_flow` reads one, except where it meets a closing brace in a sequence and does not
-- end. `loads` has four calls for each character and each line, as a call of its four functions
-- reads a line, or a dash, or is followed by one that does.
--
-- Not modelled: files, locks, sockets, threads, TLS and SSH; the text of messages, where a reason
-- is a constructor with what the message shows; the endpoint and the duration in a record; the
-- operations of the resources themselves, the clients of the services and the front ends; the import
-- of a compose file; sizes and processors in floating point; and Python's limits on recursion and on
-- the digits of an int.
pub mod Prelude
pub mod Streams
pub mod Glob
pub mod Fleet
pub mod Policy
pub mod Transport
pub mod Runbook
pub mod Stack
pub mod Remediate
pub mod Ops
pub mod Audit
pub mod Yaml
pub mod Session
pub mod Redact
pub mod Models
pub mod Graph
pub mod Sql
