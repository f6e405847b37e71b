-- ===== src/Lib.antt =====
-- A model of the core of open-feishu, a Python SDK and agent runtime for Feishu (Lark): the inbox of
-- events that workers take jobs from, the HTTP transport with its retries, the tokens, the pages of
-- lists, the long connection that brings events in frames, the approvals of an agent's writes, and
-- the schedules of its tasks.
--
-- How the parts interact: a frame of the long connection (Ws.Frame) is decoded, put together with the
-- other fragments of its message (Ws.Client), and dispatched as an event. A dispatcher
-- (Events.Dispatcher) takes an event once (Events.Seen), or puts it into the inbox (Events.Memory),
-- from which workers (Events.Runner) claim it, mark that its effects have begun, and settle it. What a
-- handler asks of Feishu goes through the transport (Http), with a token of the manager (Auth.Tokens)
-- or of the user (Auth.UserTokens),
-- and page by page where it is a list (Pagination). A tool of the agent that writes waits for an
-- approval (Agent.Pending), which a decision of the user claims, runs and settles (Agent.Approvals);
-- the registry of tools (Agent.Tools) validates the arguments of a call and makes it. An owner may have
-- the agent do a task at given times (Agent.Schedules): a draft is confirmed, a worker claims a run when
-- its time has come, holds it by a lease, ends it or lets it wait, and sends one notice.
--
-- Which file models what:
--   feishu/events/jobs.py: Events/Job.antt has EventJob and its states; Events/Memory/Store.antt,
--     Claim.antt, Settle.antt and Wakeup.antt have the methods of InMemoryEventJobStore under their own
--     names; `purge` and `recover_expired` are _purge and _recover_expired, `owned` is _owned.
--     Memory/Invariant.antt and its children keep the invariant, Memory/History.antt is the relation of
--     the states that calls reach, Memory/Claiming.antt is about claim_next and
--     Sleeping.antt about next_wakeup.
--   feishu/events/dispatcher.py: Events/Dispatcher.antt has EventDispatcher, and Dispatcher/Order.antt which
--     handlers an event reaches.
--   feishu/events/job_runner.py: Events/Runner.antt has EventJobRunner over that inbox, with what happens
--     while a handler runs as a list. Runner/Holds.antt and Settles.antt are about one job, Reaches.antt
--     about the inbox, and Left.antt and Drains.antt about the jobs that drain answers with.
--   feishu/events/idempotency.py: Events/Seen.antt has InMemorySeenStore and the function claim.
--   feishu/_transport.py: Http/Retry.antt has RetryPolicy and the tests on retries, Http/Classify.antt
--     the functions `classify` of request, upload and download, Http/Send.antt the loop _send, and
--     Http/Request.antt the three methods. feishu/errors.py: Http/Errors.antt has error_from_envelope,
--     and Http/Permission.antt permission_subjects.
--   feishu/pagination.py: Pagination.antt has iterate and paginate.
--   feishu/auth/tokens.py: Auth/Tokens.antt has TokenManager.token in its two parts.
--   feishu/auth/user_tokens.py: Auth/Identity.antt has the identity keys, Auth/UserTokens.antt TokenRecord,
--     UserTokens/Store.antt the tokens of InMemoryOAuthTokenStore with Replace.antt, and Guard.antt its guard
--     of refreshes with the tasks that hold it. Aliases.antt and Consistent.antt are about the tokens,
--     Exclusive.antt about the guard.
--   feishu/ws/_frame.py: Ws/Wire.antt has the varints and fields, Ws/Frame.antt the frames.
--   feishu/ws/client.py: Ws/Client.antt has _reassemble, Ws/Ack.antt _build_ack, and Ws/Reconnect.antt
--     the loop of start, over what each of its calls gives, with ClientConfig of feishu/ws/model.py.
--   feishu/agent/session.py: Agent/Pending.antt has PendingApproval and InMemoryPendingApprovalStore,
--     Agent/Authorizations.antt the store of authorizations, and Agent/Sessions.antt that of sessions.
--   feishu/agent/approval.py: Agent/Approvals.antt has the statuses and records, with ToolResult of
--     feishu/agent/result.py; Approvals/Action.antt the monad of a method that a cancellation may stop,
--     and _record; Approvals/Running.antt _on_claimed_decision; Approvals/Decision.antt the rest of
--     DefaultApprovalEngine. Approvals/Ends.antt, Branches.antt and Settled.antt follow a run to its end,
--     Claims.antt is about claim, Invariant.antt, Preserve.antt and Once.antt about any sequence of calls,
--     Replay.antt about results that were kept, and Consent.antt about what a decision calls.
--   feishu/agent/tools.py: Agent/Tools.antt and Tools/Validate.antt have _validate, where each value comes
--     with the validations of its members; Tools/Registry.antt has Tool and ToolRegistry. Accepts.antt says
--     what a schema accepts, and Names.antt, Loops.antt and Schema.antt compare the two.
--   feishu/agent/scheduled.py: Agent/Schedules/Owners.antt has _keys and _is_owner, over
--     Auth/Identity.antt and Texts.antt, which has _tenant; Calendar.antt has Schedule and _calendar_instant;
--     Rows.antt the tables of ScheduledTaskStore and
--     Tables.antt the statements on them; Drafts.antt, Manage.antt, Listing.antt, Due.antt, Runs.antt,
--     Waits.antt and Deliveries.antt its methods, under their own names; `start_run`, `claim_row` and
--     `claim_loop` are parts of claim_due. Calls.antt has the calls that write as one type. Next.antt is
--     about next_after, Claiming.antt about claim_due, Lifecycle.antt is the state machine of a run, which
--     its children show the calls to follow, and Overlap.antt and Finished.antt use it.
--   feishu/agent/loop.py: Agent/Turns.antt has the messages of feishu/agent/llm.py and
--     _recover_interrupted_tool_calls; Turns/Answered.antt is the protocol of tools, and Recover.antt compares.
--     Turns/Suspend.antt has _originating_tool_messages and _mark_awaiting_tool_results, which Marked.antt
--     is about.
--   Common.antt, Dict.antt, Texts.antt, Utf8.antt and Json.antt are shared: numbers and lists, Python's
--     dict in insertion order, str.strip and sorted, str.encode and bytes.decode, and the values of JSON.
--
-- Choices. Times and durations are natural numbers of ticks of the clock, and a method gets what the
-- clock reads as an argument, once for each time the source asks. Calls that hold a lock are single
-- steps. A method that may raise gives an Outcome, and a method that changes an object gives the new
-- state also where it raises after a change. Integers of the frames are unbounded, as Python's are. A
-- text is a String where it is only compared, and a list of code points where it is encoded or cut.
-- JSON numbers are integers. `copy` of a job is the identity on values. A hint of the server to wait a
-- negative time counts as zero: the source neither sleeps nor passes a deadline for it.
--
-- A decision is modelled as its claim and its run, between which other tasks may come; what a run does
-- while it waits concerns its own approval and the store of executions alone. A task may be cancelled
-- where it waits for a store of executions, the audit log or the tool; the store of approvals in
-- memory does not wait. An identifier of an approval is new when it is requested, as uuid4 gives it.
--
-- A table of SQLite is a dict from the primary key, with the constraints of its columns where a row is
-- inserted, and a method of the store of schedules is one transaction: an exception leaves the store as
-- it was. Rows that ORDER BY does not tell apart keep their order. The columns that hold JSON hold the
-- values. The times of an
-- answer with a user's token are what _coerce_int reads, and not negative. Times of schedules are whole seconds from 1970 on, and a new identifier is an argument.
--
-- Parameters: how the handlers of events end, by the number of the call, and what happens in the inbox
-- while one runs; the answers of the store of executions and of the audit log, what a handler of a tool
-- does, the hashes of keys, and the texts of errors of tools; what httpx answers at each attempt, the
-- draw of random.uniform, time.monotonic, the function that fetches a page, the answer of a
-- credential, the rules of a timezone and sha256 of a draft, the function `int` on texts, and the bytes of an answer, which json and base64 write.
--
-- Fuel: the decoder of frames has as much as there are bytes, and each field takes one. The pages of
-- `iterate` have fuel that the caller names, since a server may go on without an end; where max_items
-- is given and each page that goes on has items, so many pages are enough. The fuel of `start` counts
-- its rounds: one more than the reconnections that are allowed. The encoder of varints recurs on
-- accessibility, and the loop of `_send` on the attempts that are left. The loop of claim_due has a round
-- more than there are tasks: each round but the last puts an active one aside.
--
-- Not modelled: the calls of the REST interface, which only name a path and pass fields to the
-- transport; cards and builders; the rounds of the agent's loop and its persistence;
-- the polling of the runner of schedules; the other stores on SQLite; the sockets, tasks and timers of
-- asyncio; the building of urls and headers; logging.
pub mod Common
pub mod Dict
pub mod Utf8
pub mod Json
pub mod Texts
pub mod Http
pub mod Pagination
pub mod Auth
pub mod Ws
pub mod Events
pub mod Agent
