-- ===== src/Lib.antt =====
-- A model of nare, a coding agent's loop as a Python library and command line.
--
-- A run sends a session's transcript to a model, executes the tools that the model calls and sends
-- their results back, until the model gives a final answer that the run accepts. The parts modelled
-- are the ones that decide what such a run may do and when it ends:
--
--   Rules        the allow and deny patterns for bash commands     src/nare/bash_rules.py
--   Shell        the command lines that the patterns are read on   src/nare/shell_words.py
--   Retry        resending a failed model request                  src/nare/loop.py, transport/__init__.py,
--                                                                  transport/anthropic.py
--   Loop         holding and nudging an answer, the budgets        src/nare/loop.py, accounting.py
--   Step         one turn: the request, the answer, the calls      src/nare/loop.py
--   Run          a run from its first turn to its end              src/nare/loop.py
--   Tool         what a call passes before its tool is started     src/nare/tools.py
--   Wire         the messages of a request                         src/nare/transport/anthropic.py
--   Corrections  granting a correction for a failing answer        src/nare/corrections.py
--   Reads        what a run must have read, and its citations      src/nare/reads.py
--   Repetition   the watch on a reply that repeats itself          src/nare/repetition.py
--   Compact      eliding old content of a full context             src/nare/compact.py
--   Session      the records, thinking blocks, reopening, forking  src/nare/session.py
--   Pages        paging of what a tool returns                     src/nare/tools.py
--   Edit         replacing the one occurrence of a text            src/nare/tools.py
--   Schema       the refusal of objects that repeat a key          src/nare/schema.py
--   Json         values and dictionaries, which the others use
--
-- Rules reads its lines by Shell, and Tool asks Rules about a bash call. Loop.Hold asks Reads what
-- is owed and Corrections for a charge, and writes into the Session. Step sends the transcript by
-- Retry, after Compact, and hands the reply to Loop, Reads, Schema and Corrections, or its calls to
-- the tools; Run takes Step again and again, with Loop's budgets between. Corrections counts since
-- a reopening of the Session. Within a part, one file per group of functions holds the definitions,
-- in the order of the source and with its names, less a leading underscore; the other files hold
-- lemmas and theorems. Tests has concrete inputs.
--
-- Text is a list of code points. A Python set is a list without repeats, in the order of insertion;
-- a dict is an association list in that order. A method that changes its object returns the new
-- one, and an exception is a value of a result type. Numbers are natural where the source never has
-- a negative one; money and seconds are whole numbers of a small unit (a millionth of a price, a
-- millisecond).
--
-- Fuel: the retry loop has one more attempt than the policy allows retries, since each round but
-- the last counts one retry; the lexer has as many rounds as the line has characters, since each
-- takes one at least; a walk over a listing has one page more than it has entries, since each page
-- but the last takes one; a run has one pass more than its turns and its summary, since a pass that
-- goes on counts a turn. The depth of a denied line is the source's own bound.
--
-- Parameters: the transport's attempts, and its own rule of what may be resent where it has one
-- (Anthropic's is Retry.Anthropic); which characters are digits, and the number they read as, in a
-- citation's index; Unicode's word characters, digits, lower case and case folding; the place a
-- path leads to (`shown` in Reads); how an amount of money is written; whether a reply asks in
-- prose, and the redaction of a reply; how each tool call ends, the approver, the tools' own code
-- and what the host offers them, the schemas of the tools and what a person typed meanwhile; the
-- validator of a schema, the search for a document in a text and the caller's check; how tokens,
-- costs and exceptions are written; the length of a transcript as JSON and Python's `str` of a
-- value; a listing's cursors, which read back as the names they are made from.
--
-- Not modelled: schema validation, the deltas of a streamed reply, the details of events, the
-- arguments of `run` and its MCP connection, an interruption that falls into a request, the session
-- file, the tools that read, write and search, the search for lines like a text that an edit did
-- not find, images, the checks of a new policy, the sandbox, the rest of the transports, MCP, the
-- command line and the TUI. Most of these are input and output.
pub mod Prelude
pub mod Retry
pub mod Pages
pub mod Json
pub mod Session
pub mod Corrections
pub mod Reads
pub mod Repetition
pub mod Shell
pub mod Rules
pub mod Loop
pub mod Step
pub mod Run
pub mod Tool
pub mod Wire
pub mod Compact
pub mod Edit
pub mod Schema
pub mod Tests
