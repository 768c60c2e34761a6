-- ===== src/Lib.antt =====
-- EVI is a personal assistant: reminders and scheduled questions, WhatsApp and Telegram
-- channels, and write tools that a language model may call. This library models the parts of
-- its Python agent that keep state and decide, over the native numbers, and proves what makes
-- them correct.
--
-- Conventions: an instant is a number of microseconds since the first day of the calendar, a
-- date its ordinal as in date.toordinal. A table is a list of rows, an SQL statement a function
-- on it, and a function of agent/db.py, which is one transaction, is one function. Where the
-- code catches an exception, a Boolean or an Option says whether the call returned; a call of
-- the database that raises has no effect. Texts sent to the user are kept, but for the commands
-- on tasks, where a constructor names them; log lines are not kept, and metrics only in the
-- delivery of a briefing and at the end of a turn.
--
-- The loop of agent/services/reminder_loop.py calls two ticks: that of the reminders, which
-- claims due rows, sends them and closes them, and that of the scheduled tasks, which claims
-- due tasks and hands them to a worker. Both compute the next time of a series with
-- next_occurrence. The write guard stands between the language model and the tools that write.
-- Messages come from two sides: the webhook of WhatsApp, which hands commands of the user to a
-- turn and other messages to the capture of commitments and debts, and the poller of Telegram.
-- A turn is collected while it runs and recorded when it ends.
--
-- * Calendar, Calendar/Months, Calendar/Zone: the proleptic Gregorian calendar as
--   agent/services/reminders.py uses it from the datetime module, with _add_months. The zone
--   database is a parameter; the theorems take offsets that lie within 24 hours of one another.
-- * Recurrence (Days, Monthly, Total): next_occurrence of agent/services/reminders.py. Its
--   loops run 30 and 800 rounds as in the source: a round passes a month, or a day or week, and
--   they begin near the later of the two instants. Repeat is an enumeration, so that the
--   ValueError of an unknown kind cannot arise. A search that leaves the calendar, which ends
--   with the year 9999, gives none, as the source raises.
-- * Reminder (Lifecycle, Runs, Claims): the tables reminders and reminder_fires of agent/db.py,
--   from create_reminder to cancel_reminder; ties of ORDER BY keep the order of the table, and
--   a claim passes over the rows that others lock.
-- * FireDue (Ticks, Fates, Flushed, Resent): fire_due, _finish_with_retry with its three
--   attempts and _flush_pending_finish of agent/services/reminders.py, with what others do
--   during each send. The history and snapshot of _record_delivery are left out.
-- * SendResult (Retry): post_with_retry of agent/services/send_result.py, with what each
--   attempt is answered as a function.
-- * ScheduledTask (Ops, Caps, Claims, Commands, Resumed, Served): the table scheduled_tasks of
--   agent/db.py, with MAX_ACTIVE and the commands of the user, from create to resume, of
--   agent/services/scheduled_tasks.py.
-- * RunDue (Quiet, Cap, Flight): run_due, _process, _finish and _notify of
--   agent/services/scheduled_tasks.py. Others act before each row is taken: a call on the
--   table, or a step of the single worker. The turn that answers is an outcome given to the
--   worker.
-- * WriteGuard (Turns, Memory, Provenance, Confirm, Channels): agent/services/write_guard.py
--   with save_tool_snapshot and load_tool_snapshots of agent/db.py. Text normalization is a
--   parameter, since it rests on unicodedata and re. Snapshots are ordered by their insertion.
-- * SlowAck (Once): the class of agent/services/slow_ack.py as a state machine, in which a
--   timer may fire at any time.
-- * Conversation (Debts, Merge, Merging): the table wa_conversation_state of agent/db.py, from
--   record_inbound to set_debt_verdict, with merge_conversation_state and the dismissals of
--   awaited answers.
-- * ReplyDebts (Track, Listing, Owed, Awaited): agent/services/reply_debts.py and
--   agent/services/awaiting_reply.py, on that table. The classification of a text is a
--   parameter.
-- * Identity (Canonical): agent/services/contact_identity.py to the merge of conversations,
--   with the table wa_jid_alias of agent/db.py.
-- * Commitment (Queue, Ops, Closed, Captures, Worker, Waiting, Stale, Sweep): the table
--   pending_commitments of agent/db.py with its evaluation queue, the two workers of the queue,
--   process_due_evaluations of agent/services/promise_context.py and
--   process_due_task_evaluations of agent/services/task_judge.py, and the sweep and the
--   re-evaluation of agent/services/promise_context.py. What the language model answers is an
--   input, and others may change the table during each evaluation.
-- * Briefing (Ops, Items, Volume, Fit, Buttons, Deliver, Once, Resolve, Numbers, Health): the
--   table briefing_log of agent/db.py, and agent/services/briefing.py from what a source gives
--   to the delivery and back from a number to its item. The texts that rest on html and re are
--   parameters, and the assembled texts are inputs of the delivery.
-- * Probe (Warnings, Outages): the tables probe_log, probe_notified and source_status of
--   agent/db.py, with _notify and run_probe of agent/services/probe.py.
-- * Session (Held, Memories): agent/services/session_memory.py and agent/memory.py.
-- * Webhook (Filter, Sift, Route, Accounts, Recent, Claims, Routing, Once): the ids that were
--   seen and filter_for_processing of agent/services/evolution_filter.py, and the loop of
--   evolution_webhook in agent/main.py over the messages of one webhook. A comparison of a time
--   with an offset and one without makes the filter, and the webhook with it, raise; webhooks
--   run one after the other, and the file that overlapping ones share is not modelled. The
--   limits of 5000 ids and of messages for each webhook are those of the source.
-- * Poller (Order): the loop of agent/services/telegram_poller.py over the answers of
--   getUpdates, of which only the documented order is assumed.
-- * TurnLog (Collector, Tools, Usage, Stripped, Settled): the table turn_log of agent/db.py,
--   what agent/services/turn_log.py collects during a turn and records after it, and the
--   signals of agent/services/usage_signals.py. What rests on re and unicodedata is a
--   parameter.
-- * Common (Tests, Lists, Rows, Keyed, Counts, Chosen, Int) holds the shared lemmas; Examples
--   (Series, Reminders, Sends, Tasks, Commands, Guard, Acks, Debts, Promises, Briefings,
--   Aliases, Probes, Sessions, Webhooks, Usages, Updates) applies the theorems to concrete
--   inputs.
--
-- Not modelled: the files and names of contacts, the handlers of the channels with what they
-- read in a text, the judge of reply debts, the HTTP server but for the loop of its webhook,
-- the graph, tools, reports, Windmill scripts and the test harness, most of which talk to
-- services outside the program. Fuel stands only where a loop of the source has a bound of its
-- own, and in the walk from an ordinal to its date, which takes the ordinal itself as fuel.

pub mod Common
pub mod Calendar
pub mod Reminder
pub mod Recurrence
pub mod SendResult
pub mod ScheduledTask
pub mod RunDue
pub mod FireDue
pub mod WriteGuard
pub mod SlowAck
pub mod Conversation
pub mod Commitment
pub mod Briefing
pub mod ReplyDebts
pub mod Identity
pub mod Probe
pub mod TurnLog
pub mod Session
pub mod Webhook
pub mod Poller
pub mod Examples
