-- ===== src/Lib.antt =====
-- Verification of encodr: planning what to do with a media file, queueing it as a job, running
-- the job, checking its output, and replacing the file by it.
--
-- encodr probes a file, plans a change from a policy, queues a job for the plan, encodes or
-- remuxes the file into a staged output, checks the output against the plan, and places it into
-- the library. The parts modelled here are:
--
--   * Media and Media/Quality: packages/core/encodr_core/media/models.py and media/quality.py.
--     Streams and files as records, with the fields that the other parts read; the resolution
--     buckets with the bitrate thresholds.
--   * Config: packages/core/encodr_core/config/policy.py and config/base.py. The rules of a
--     policy, and the validators as Boolean tests (`validate_mode`, `validate_non_4k`, ...).
--   * Planning: packages/core/encodr_core/planning. Models are the plan (models.py, enums.py,
--     reasons.py). Languages, Scores, Append and Best are the helpers of selection.py; Audio and
--     Subtitles are `select_audio_streams` and `select_subtitle_streams`, with what they
--     guarantee in Audio/Choice and Subtitles/Choice (over Audio/Members and Audio/Laws). Video
--     and Planner are planner.py, `build_video_plan` and `build_processing_plan`, with
--     Video/Required, Planner/Laws and Planner/Streams. Profiles is the choice of a profile by
--     path, of rules.py. The planner combines the two selections, the video plan and the
--     container plan into one action. Examples are the films of the tests.
--   * Verification: packages/core/encodr_core/verification. Rules is rules.py; Verifier is
--     verifier.py, its checks in the order of the calls, with Verifier/Laws; Delivered joins the
--     planner to it. The staged output enters as what the file system and ffprobe say of it
--     (`StagedOutput`).
--   * Replacement: packages/core/encodr_core/replacement/service.py. Paths has the paths that the
--     service builds; FileSystem a store of contents with the outcome of each system call, which
--     the environment chooses; Moves the functions beside the class; Service the class itself.
--     Steps, Apart, Kept, Safety, Success and Ends are the theorems about its steps and the
--     whole. Service reads the `ReplacePlan` of a plan, and its target container.
--   * Scheduling: packages/shared/encodr_shared/scheduling.py. A time is a number of
--     microseconds, and Scheduling has its calendar. Windows are tested in Scheduling itself;
--     Openings, Candidates and Next are about `next_schedule_opening`, Texts, Times and RoundTrip
--     about the texts that windows are read from and stored as.
--   * Jobs: packages/db/encodr_db/repositories/jobs.py over packages/db/encodr_db/models. Models
--     has the rows; Database the table of jobs, whose partial unique index (one active job for a
--     file) is checked at each flush; Marks what each `mark_...` does to a row; Policies the
--     rules of retries and backups; Queue the claims of workers; Retry the automatic retries;
--     Index the creation of jobs; Backups the listing and the cleanup of backups. A schedule's
--     windows are those of Scheduling.
--   * Execution: packages/core/encodr_core/execution/metrics.py and safety.py (Metrics and
--     Safety), packages/core/encodr_core/media/exclusions.py (Exclusions), `_verify_and_place`
--     (Service) and `execute_job` (Run) of packages/db/encodr_db/runtime/worker.py, and the
--     states of a tracked file in packages/db/encodr_db/repositories/tracked_files.py (Run);
--     backend_selection.py (Backend) and ffmpeg_builder.py (Command), the command of a plan,
--     whose reading by ffmpeg is in Command/Reading (the mapped streams and the dispositions)
--     and Command/Copied (the codecs, of which the last one given counts), with Command/Copying
--     on what every built command copies, and Command/Verified, Command/Subtitles and, together
--     with the planner, Command/Composed on what the verifier says of an output that follows it.
--     Execution hands the output of a run to Verification, to the guards and to Replacement, and
--     gives the result to Jobs.
--
-- How code corresponds to model. A local variable of a Python function that a later line reads is
-- a definition of its own, under the variable's name, in a section over the function's arguments.
-- A `try` is a function on the result of the call, with a clause for each outcome; an exception
-- that leaves a method is `raised`. Python's `max` and `sorted(..., reverse=True)` are `max_from`
-- and `sorted_reverse`, which keep the order of equal keys. Integers are natural numbers: stream
-- indices, channels, rates and sizes of the code are never negative, and the negated index at the
-- end of a sort key is compared the other way round; a saving of space, which can be negative, is
-- an integer. What a row's update does is a function from rows to rows, applied to the row of an
-- id; the rows of a query without an order come in that of the table. What a part learns of the
-- outside is an argument: the run of ffmpeg (`RunnerOutcome`), what ffprobe says of its output,
-- the clock, the validator of backup paths, and the backups whose removal is refused with an
-- `OSError`, which ends the cleanup.
--
-- Bounds and fuel. One loop draws random names until one is free
-- (`_temporary_replaced_backup_path`); the model takes the tokens that are drawn as a list, and
-- one token whose name is free is enough. The other is `list_backup_jobs`, which reads batches
-- until one is short: its fuel is one more than the number of rows, and as every full batch has a
-- row, it does not run out. The rest are over lists.
--
-- Not modelled. A message beside a reason's or warning's code, the rename plan and the policy's
-- context, which no decision reads; the texts and types of exceptions; floats of the
-- configuration, which stand as the bits per second that they round to; letters beyond ASCII in
-- `str.lower`. The merge of a profile into the policy stands outside: the planner starts from the
-- resolved policy. Of the repository of jobs, the lists and counts for the API and the
-- reconciliation of discovered backups are left out; of the worker, the analysis job, the reports
-- of progress, telemetry and the loop itself. The probes of the machine's encoders, the run of
-- ffmpeg, the API, the worker agent, the command line and the interface are not modelled.
pub mod Prelude
pub mod Media
pub mod Config
pub mod Scheduling
pub mod Jobs
pub mod Planning
pub mod Verification
pub mod Replacement
pub mod Execution
