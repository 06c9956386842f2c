-- ===== src/Lib.antt =====
-- A model of the core of roboz, a framework for agents that call tools, and what holds of it.
--
-- The parts and where they are modelled (paths from the root of the repository):
--   * the permission guard (src/roboz/shed/tools/guard.py, and its types in shed/models.py and
--     tools/contexts.py): Guard. `_matches`, `_policy_verdict` and `_check_policy` are in
--     Guard.Policy; `_request_approvals` and `guard_items` in Guard.Approval. A tool that touches
--     files asks the guard first, with all the operations that it needs.
--   * the file commands (src/roboz/shed/tools/cli_commands): Cli. contracts.py is in Cli.Contracts,
--     sequence.py in Cli.Sequence, tokens.py in Cli.Tokens, execute.py in Cli.History, Cli.Process
--     and Cli.Execute, and the steps of command.py in Cli.Execute. A script is one stream of tokens;
--     a step prepares its first command, passes the guard, runs a process, and goes on with the
--     command that the control operators select. Cli.Zsh is an independent grammar of scripts with
--     the meaning that a shell gives them.
--   * truncation (src/roboz/models/truncation.py, src/roboz/llm/_truncation.py): Truncation. It
--     decides by the age of a message how much of it a request to the model holds.
--   * retries (src/roboz/llm/_retry.py): Retry. Around every model call.
--   * the patch tool (src/roboz/shed/tools/apply_patch.py, `_perform_replace`): Patch, with
--     `str.count` and `str.replace`.
--   * the agent (src/roboz/agent/core.py): Agent has the registry of tools and skills and the choice
--     of the next tool; Agent.Run has a step with its exceptions, and the loop of
--     `invoke`; Agent.Invoke has what `invoke` begins and ends with.
--   * dependencies (src/roboz/dependencies.py, `dedupe_external_dependencies`): Dependencies. Tools
--     and agents report what they need, each once. Dependencies.Causes walks along the causes of an
--     exception, and Dependencies.Reasons classifies it for a failed check.
--   * the event pipe (src/roboz/runtime/pipe.py): Pipe. The agent emits its messages through it.
--   * completions (src/roboz/llm/completion.py): Completion has the decoding and the validation of a
--     reply, Completion.Repair the attempts of `get_completion`. The summary and the agents ask
--     through it.
--   * safe scripts (src/roboz/shed/tools/safe_scripts): Scripts has the messages of protocol.py and
--     Scripts.Frames its FrameReader; Scripts.Server has `_execute` of server.py, Scripts.Discovery
--     the listing of the scripts, and Scripts.Events the stream of a request; Scripts.Client has the
--     checks of client.py and `collect`. A helper runs a script and sends the stream in frames.
--   * transfers (src/roboz/shed/tools/cli_commands/commands/transfers.py): Cli.Transfers maps the
--     sources of cp and mv to destinations, and lists the operations that the guard is asked for.
--   * model calls (src/roboz/llm/calls.py, _diagnostics.py): Calls.Images has the images of a request,
--     Calls.Stream and Calls.Diagnostics what is read of a response, Calls.Errors the classification
--     of exceptions, and Calls.Runner the attempts, the retries and the events of `_LLMCallRunner`.
--   * external calls (src/roboz/runtime/_external.py): External has the turns of a caller and of its
--     worker thread, External.Slots the calls that share the semaphore. Calls to models and some
--     tools block in such a call.
--   * compactification (src/roboz/shed/tools/compactification): Compaction has summarize.py and
--     summary_prompts.py, Compaction.Compactify has compactify_messages.py. A default tool of an
--     agent, it replaces old messages by a summary when the conversation nears the window.
--
-- The state that the code keeps is a record that its operations take and return: a
-- CommandExecution for a script, Progress for the loop over arguments. The world, which is files,
-- processes, clock and user, is a type parameter W that the operations pass on. An exception is a
-- value of Result or of a type that names its cases; an IndexError of a step is `raised`.
--
-- What is not under src/roboz is a parameter: pathlib's full_match, the regular expressions of the
-- token rules (a test on strings), json, the operating system and the codecs (the records System,
-- Codec and Timing). Texts are lists of code points, and so are bytes lists of numbers; numbers
-- are natural, and exit statuses, thresholds and lengths that may be negative are ℤ. Times are
-- natural numbers of one unit.
--
-- Percentages, of the tolerance and the threshold of a compaction, are whole numbers, and fractions
-- of them are exact where the code has floating-point numbers.
--
-- Loops over lists, the tries of a completion and the three attempts at a summary are structural.
-- Other loops run on fuel: the chain of steps, for which as many rounds as there are tokens are
-- enough; the attempts of a call, for which `max_attempts` are enough; the rounds of a pause, of
-- which there are at most one more than its time; the rounds of a script, at most as many as its
-- timeout, its output limit and two; the items of a listing; the waits of a frame's reader, which are
-- those of its connection; and the steps of an agent, which need not end.
--
-- A tool is given the live list of messages, which it may change whatever it returns or raises: so a
-- call leaves a result, messages and a world. An exception of the choice of a tool leaves the agent as
-- it is then, with the tools that have been registered.
--
-- The transfers and the listing of scripts see the files of one moment, and a listing meets no error
-- of the system. The walk along causes runs
-- on fuel, for which one more than the exceptions are enough.
--
-- An exception that is no Exception, such as a KeyboardInterrupt, is modelled where a tool or an
-- attempt of a model call raises it, not between two statements.
--
-- Not modelled: the texts of prompts and of the guard's messages (their contents are data, and
-- their rendering is a field of Environment), the preparation of the single commands but for the
-- transfers (a field of CommandSpec), logging, and the parts of the framework that no file here names:
-- persistence, the clients of providers and the endpoints, deployment.
pub mod Prelude
pub mod Guard
pub mod Cli
pub mod Truncation
pub mod Calls
pub mod Retry
pub mod Tests
pub mod Patch
pub mod Agent
pub mod Pipe
pub mod Compaction
pub mod Completion
pub mod Dependencies
pub mod Scripts
pub mod External
