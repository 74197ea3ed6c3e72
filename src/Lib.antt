-- ===== src/Lib.antt =====
-- nauro keeps a project's decisions, questions and state as markdown files in a store, and syncs the
-- store between machines. This development models the parts of it that decide what becomes of that
-- data.
--
-- Merge (packages/nauro/src/nauro/sync/merge.py) takes two versions of a store file and the paths
-- they come under. Merge/Union is `_set_union_markdown`: the texts are lists of code points, and
-- `_parse_sections` is a fold over the lines whose state is SectionScan, the loop's local variables.
-- Merge/Paths is the lexical classification of a path (`_classify_sync_path`,
-- `_classify_component_path`), with `str.casefold` a parameter. Merge/Native is `_admit_native_path`,
-- which resolves a path and its links component by component: the file system is a parameter, a
-- snapshot that answers the long-name lookup, `os.lstat` and `os.readlink`. The loop over `pending`
-- is `walk`, a recursion on the hops left (40, `_MAX_NATIVE_LINK_HOPS`) and then on the pending
-- parts, so it ends without further fuel; where a hop is asked for and none is left the code answers
-- the link-hop limit, and so does `walk`. Merge/Skip is `should_skip` and the names of temporary
-- siblings (packages/nauro/src/nauro/store/_atomic.py). Merge/Conflict is `resolve_conflict`: the
-- folder of backups is an association list from names to contents, an atomic write replaces or adds
-- an entry. The UTF-8 codec and the time stamp are parameters.
--
-- Commit (packages/nauro-core/src/nauro_core/operations) plans a judgment commit. Commit/Claims has
-- the probes, observations and intents of `_commit_contract.py` and `validate_observation`;
-- Commit/Contract is `build_claim_contract`; Commit/Finalize is `finalize_judgment_commit` of
-- `_commit_finalize.py`. Each exception is a constructor of ClaimError. `str.lower`, SHA-256, the
-- pydantic adapter that reads a raw observation and the canonical JSON of the plan record are
-- parameters. The checks that pydantic makes of a probe or an intent as it is built (positive numbers,
-- titles that are normalized) are not modelled.
--
-- Questions (packages/nauro-core/src/nauro_core/questions.py) is the document of open questions: a
-- header and a list of blocks, as in the source. Questions/Ids is `format_question_id` and
-- `parse_question_id`; the loop over the chunks takes the number itself as fuel. Questions/Legacy is
-- the older form of an id, Questions/Parse is `OpenQuestionsFile.parse` and `format`, where the
-- cursor of the loop is the list of lines left and the lines that a block took are skipped by number.
-- Questions/Resolve, Questions/Migrate and Questions/Normalize are the three operations of those
-- names, loops over the blocks that are recursions on the list. `datetime` and `date` are types that
-- are parameters, and so are the functions that read and print them.
--
-- Sync (packages/nauro/src/nauro/sync) is the pull. Sync/Names and Sync/Headings read the numbers of
-- names and headings (`extract_decision_number` of packages/nauro-core/src/nauro_core/parsing.py and
-- headings.py), Sync/Corpus is DecisionCorpus of corpus.py with its scan, Sync/Collisions is
-- `classify_decision` of collisions.py with its writes in Collisions/Apply and the completion pass in
-- Collisions/Complete, Sync/Quarantine has the names of backups of quarantine.py, Sync/State is
-- state.py and etag.py, and Sync/Route and Sync/Pull are `_route_entry`, `_triage` and
-- `_apply_decision` of pull.py, with the write phase of `_run_pull_locked` in Pull/Writes. A run is a
-- record of the directory of decisions, the view, the hash index, the sync state, the backups and the
-- tally, which each step takes and returns; the batch is a fold over the transfers, none where one was
-- not fetched. A write fails where the parameter `write_fails` of a pull says so, and leaves what was
-- done before it. A renumbering gives the store after each of
-- its writes, so a run that is cut off is one of those stores. Methods of `str` that go by Unicode,
-- digests, codecs, the clock, `os.path.realpath` and the parser of decisions, which rests on a YAML
-- library, are parameters. Every loop is a recursion on a list.
--
-- Decisions/Slug is `slugify_decision_title` of
-- packages/nauro-core/src/nauro_core/operations/_decision_transitions.py, the loop over the title with
-- its flag `prev_dash` as a recursion on the title. `str.lower` and `str.isalnum` are parameters.
-- Decisions/Transitions has the four transitions of that file that copy a decision, and
-- Decisions/Model the decision of packages/nauro-core/src/nauro_core/decision_model.py with its
-- validators as tests. The formats of identifiers, time stamps and commits are left out there.
--
-- Base has what the parts share: Boolean tests and equality, lists, texts as lists of code points
-- with Python's `split`, `join`, `strip` and `replace`, and results that carry an error.
--
-- Not modelled: the walk over the files of a store, the transfers of a pull, push, recovery and installation of
-- generations, parsing and formatting of decisions, the commands, servers and renderers, and all network and file
-- I/O. Whitespace is that of `is_space`, the code points of `str.isspace` that it lists.
pub mod Base
pub mod Merge
pub mod Commit
pub mod Questions
pub mod Sync
pub mod Decisions
