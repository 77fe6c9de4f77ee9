-- ===== src/Lib.antt =====
-- The reviewer bot of the Safety-Critical Rust Coding Guidelines repository.
--
-- The bot assigns the reviewers of issues and pull requests in turn, records who did what in a
-- persisted state, takes commands from comments, and replays later what it had to defer. Its decisions
-- are pure policies (scripts/reviewer_bot_core), and scripts/reviewer_bot_lib reads events, calls the
-- policies, mutates the state and talks to GitHub. The development models the policies and the
-- mutations of the state that they lead to.
--
-- Parts and files:
--   Queue      scripts/reviewer_bot_lib/queue.py: the round-robin queue (get_next_reviewer,
--              sync_members_with_queue, reposition_member_as_next, process_pass_until_expirations,
--              record_assignment). Queue/View has the order that the bot's users see, the other
--              children the theorems on each operation.
--   Review     scripts/reviewer_bot_core/review_state_machine.py over review_state_types.py: one
--              review entry, its channels of accepted events, activity and handoff; Review/Entries
--              has the operations on the entries of all issues.
--   Routing    scripts/reviewer_bot_core/comment_routing_policy.py: who wrote a comment, and whether
--              it may be handled at once.
--   Commands   scripts/reviewer_bot_core/comment_command_policy.py: what a command text leads to;
--              Commands/Authorization has authorize_assignment_command, and
--              Commands/Rights the theorems on it.
--   Freshness  scripts/reviewer_bot_core/comment_freshness_policy.py and
--              record_conversation_freshness of scripts/reviewer_bot_lib/comment_application.py:
--              which comments count as activity, and the entry after them.
--   Replay     scripts/reviewer_bot_core/reconcile_replay_policy.py: what a deferred comment, review
--              or dismissal may still do.
--   LeaseLock  scripts/reviewer_bot_lib/lock_codec.py and scripts/reviewer_bot_lib/lease_lock.py: the
--              lock on the persisted state, which is a commit message on a ref. LeaseLock/Surroundings
--              has what it reads of GitHub and the clock, LeaseLock/Leases the renewal, the release
--              and the freshness check, LeaseLock/Acquire the acquisition, and Codec, Bounds,
--              Guards, Ownership, Rounds and Acquisition the theorems.
--   LiveReviews scripts/reviewer_bot_core/live_review_support.py and
--              scripts/reviewer_bot_core/reviewer_review_helpers.py: the reviews that GitHub shows, and
--              what each counts for. Reads has the two reads, Context the classified reviews, Survivors
--              and Authors the last review of each author, Scopes, Pages and Kept the theorems.
--   Approvals  scripts/reviewer_bot_core/approval_policy.py: the decisions on completion and write
--              approval. Status has compute_pr_approval_state_result, Triage
--              find_triage_approval_after; Evidence, Authority, Granted, Result and Earliest have the
--              theorems.
--   Gaps       scripts/reviewer_bot_core/deferred_gap_diagnosis.py: why a deferred event was not
--              replayed; Gaps/Candidates has correlate_candidate_observer_runs, Gaps/Artifacts
--              correlate_run_artifacts_exact, Gaps/Swept the sweeper's use of them; Gaps/Missing and
--              Gaps/Matches have theorems.
--   Persistence scripts/reviewer_bot_core/state_adapters.py: the persisted dict of an entry. Persistence
--              has the channels and the handoff, Entries the whole entry, Sidecars the migration of
--              older shapes; RoundTrip, Handoffs, Fields, Legacy, Markers, Events and Keys the theorems.
--   Response   scripts/reviewer_bot_core/reviewer_response_policy.py: whose turn it is. Response has
--              the records and handoffs, Answers the response, Issues and Pulls the two branches of
--              derive_reviewer_response_state, Computed compute_reviewer_response_state with the
--              choice of the review of reviewer_review_helpers.py, Decision the payload and the
--              decision that it is read as, Hidden the activity that a gap hides; Done, Granted, Turns and Decorated the theorems.
--   Privileged scripts/reviewer_bot_core/privileged_command_policy.py: the command that updates the
--              lock file. Privileged has its gates, Pending the records in the state, Plans what is
--              executed; Gates and Stored the theorems.
--   Labels     scripts/reviewer_bot_lib/reviews_projection.py: the status labels of a response;
--              Labels/Deltas and Labels/States have the theorems.
--   Timestamps parse_github_timestamp of scripts/reviewer_bot_core/live_review_support.py and
--              scripts/reviewer_bot_lib/timestamps.py.
--   Value      the values of the persisted state.
--   Common     names of the libraries that are passed on, tests, lists, texts and orders.
--   Examples   runs of the models, and the theorems applied to them.
--
-- Approvals judges the reviews that LiveReviews classifies for the cycle of a Review entry. A
-- comment passes Routing, then Commands decides on its command and Freshness on its activity;
-- Freshness records through the operations of Review, and the assignment commands take their reviewer
-- from Queue. The response to a pull request is derived from the entry, the reviews of
-- LiveReviews and the result of Approvals, and Labels projects its state. A run that writes the state acquires the lease of LeaseLock, renews it and releases it.
--
-- Correspondence: a function that mutates a dict returns the new record; a RuntimeError is a value;
-- a value that Python may find absent or of another type is an Option or a data type with these
-- cases. Logins, states and permissions are ASCII texts. The dicts of accepted records are typed records,
-- as review_state_types.py has them; a list or a payload of a persisted entry that has another type
-- is an error of the model. Parameters stand for
-- datetime.fromisoformat and strptime, for the present time, for the answer of the fetch of
-- members, for the reviewer that assignment_flow.py confirms, for the bot's mention and help text,
-- and, in the record Host of LeaseLock, for GitHub's answer to a call after a history of calls, the
-- clock, the JSON codec and the settings. Reviews are JSON objects as far as the code reads them,
-- and GitHub's permission of a login is a function. No function here runs on fuel but five: the
-- pages of reviews, of which the limit is any number that is at least theirs; the rounds in which a
-- lease is acquired, for which two more than the longest wait are enough if the clock moves while
-- the run sleeps; the attempts of a renewal or release are as many as the limit of the settings;
-- the scan of the queue takes as many rounds as the queue has members, as the source's loop does,
-- and the digits of a number are at most as many as the number says.
--
-- Not modelled: logging and the rendering of comments, the calls of the GitHub API outside the
-- lease lock and the reads of reviews, the store of the state, the repair from live reviews, the
-- OverflowError of `astimezone` for a time whose instant in UTC is out of the range of `datetime`,
-- the FLS audit, the Sphinx extension and the scripts that rewrite guidelines.
pub mod Approvals
pub mod Commands
pub mod Common
pub mod Examples
pub mod Freshness
pub mod Gaps
pub mod Labels
pub mod LeaseLock
pub mod LiveReviews
pub mod Persistence
pub mod Privileged
pub mod Queue
pub mod Replay
pub mod Response
pub mod Review
pub mod Routing
pub mod Timestamps
pub mod Value
