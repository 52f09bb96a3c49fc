-- ===== src/Lib.antt =====
-- miniNBLM: users upload PDF documents, the service cuts them into chunks with embeddings, and a
-- question is answered from the chunks that a search finds. This library models the core of the
-- Python service under app/ and proves what its parts promise each other.
--
-- Parts and files:
-- - Prelude and its children: names of the library passed on, Boolean tests, lists over the native
--   numbers, equality as an interface, results of calls that may raise, integers, and the loop that
--   keeps what it has not seen before (Prelude/Dedup).
-- - Text, Json: Python's `str` as a list of code points, and JSON values with dicts as ordered fields.
-- - Presets: app/retrieval_presets.py, the validated sizes of chunks and results.
-- - Chunker: app/services/chunker.py. `chunk_pages` walks the pages; `text_windows` is the window loop
--   on one page. Chunker/Pages and Chunker/Kept hold its theorems, Chunker/Cuts, Chunker/Windows and
--   Chunker/Coverage the lemmas.
-- - Conversation: app/services/conversation_service.py, the end of a conversation within a budget.
-- - Database: the rows of app/models/ in one record `Db`, a committed state. Database/Tables has the
--   queries that one table answers.
-- - Documents: app/repositories/document_repository.py and its neighbours; Documents/Processing is
--   app/services/document_processor.py, Documents/Service app/services/document_service.py and
--   app/services/document_recovery_service.py.
-- - Reindex: app/services/reindex_service.py and app/repositories/retrieval_config_repository.py: the
--   preset in force, the job that indexes all documents again (Reindex/Job) and the write block while
--   it runs.
--   Reindex/Reach is the step relation of all operations that share the settings.
-- - Evidence, Prompt: app/services/prompt_builder.py, from retrieved chunks to the model's messages.
-- - Retrieval: app/services/retriever.py and app/services/hierarchical_retriever.py. Fusion ranks,
--   Anchors merges, Adjacent expands, Queries prepares the queries, Search puts them together.
--   Ranked, Ordered, Fused, Merged, Expanded, Goals and Found hold the lemmas and theorems.
-- - Accounts: app/services/auth_service.py with app/repositories/user_repository.py; Accounts/Password is
--   app/password_policy.py.
-- - Planning: app/services/query_rewriter.py, the question as a plan of goals and queries. Values and
--   Payload read the model's JSON, Allocation shares out the queries; Shared, Allocated, Searchable,
--   Planned and Always hold the theorems.
-- - Coverage: app/services/evidence_coverage.py. Response reads the model's judgement, Request asks for
--   it, Merge joins what a retry finds, Matrix makes the table for the prompt from the dicts of the
--   trace (app/services/retrieval_trace.py); Lookup, Cited, Parsed,
--   Planned, Completed, Returns, Dicts and Recorded hold the lemmas and theorems. The searches that a retry
--   calls are parameters of its loop; those of Retrieval answer them.
-- - Citations: app/services/citation_validator.py, over the matches of its patterns (Matches); Cited and
--   Validated hold the theorems.
-- - Generation: app/services/generator.py and app/services/evidence_guard.py (Guard). Stream is the
--   normalizer of a stream, Attempts the prompts with less and less context and what is done with an
--   answer, Literals and Repairs the literals of a question, Sources the sources and the excerpts; Streamed and Final hold the theorems.
-- - Tests: a small database, concrete rows, and each theorem at concrete values.
--
-- State and errors. An operation takes the committed `Db` and returns the next one; a transaction that
-- is rolled back returns the `Db` it began with. A call that raises returns `err`. Locks on rows are not
-- modelled: the operations of Reindex/Reach follow one another, as the locked configuration row makes
-- them do.
--
-- Loops. Most are recursion on a list. The window loop of the chunker runs on fuel, one more than the
-- characters of the page; every round moves on by at least one character, and Chunker/Pages proves that
-- the fuel is enough. `str(n)` has one more round than n. The loop that shares out queries has as many
-- rounds as slots; every round but the last takes one (Planning/Shared). The retries of Coverage count
-- down the two actions that the code allows.
--
-- Parameters: PDF parsing, captioning, the embedding service, the SQL searches, password hashing, random tokens, the clock,
-- regular expressions, `casefold`, the text of a JSON value that is no string, and
-- the floats of the scores. Nothing is assumed of them but where a theorem names a hypothesis.
--
-- The calls of the language model are parameters too, and may answer anything or raise; a number tells
-- one call from the next where the answers may differ.
--
-- Not modelled: HTTP routes and the clients behind them, the reranker's float arithmetic, the settings of language models, request limits, captions of figures, benchmarks, time
-- stamps, logging, metrics and the browser's code.
pub mod Prelude
pub mod Text
pub mod Json
pub mod Presets
pub mod Chunker
pub mod Conversation
pub mod Database
pub mod Documents
pub mod Reindex
pub mod Evidence
pub mod Prompt
pub mod Accounts
pub mod Retrieval
pub mod Coverage
pub mod Planning
pub mod Citations
pub mod Generation
mod Tests
