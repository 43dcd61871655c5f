-- ===== src/Lib.antt =====
-- A verification library for PipelineX, a log pipeline: a source of lines feeds a queue, workers
-- run each record through the stages (parsing, validation, sessionizing, detectors), and records,
-- closed traces and anomalies reach a repository or listeners on an event bus.
--
-- The parts, with the file that models each one:
--   src/pipelinex/core/models.py: Models. Floats are a type parameter; identifiers and instants
--     are numbers.
--   src/pipelinex/core/exceptions.py: Exceptions, the classes without their messages.
--   src/pipelinex/core/pipeline.py, PipelineExecutor: Executor, with Executor/Actions for the
--     schedules, Executor/Accounting, Executor/Storage and Executor/Result for the counts,
--     and Executor/Alive, Executor/Advance, Executor/Progress and Executor/Stalled about how a run ends.
--     A function is a stretch of code between two suspension points, and a schedule is any sequence
--     of them, so every interleaving of the producer, the workers, the flusher and `run` is one.
--   src/pipelinex/core/config.py: Configuration. src/pipelinex/core/builder.py: Builder, over the
--     classes of the components; it ties Configuration, Factories and Executor together.
--   src/pipelinex/stages/sessionizing/block_sessionizer.py, BlockSessionizerStage: Sessionizer.
--     `process`, `janitor_pass`, `start` and `stop` are the calls under its lock;
--     Sessionizer/Invariant and Sessionizer/Runs are about their invariant, Sessionizer/Closing and
--     Sessionizer/Sweep about the passes, Sessionizer/History and Sessionizer/Complete about what
--     a whole run publishes for a block.
--   src/pipelinex/detectors/: Detectors for what the numeric detectors share, Detectors/ZScore,
--     Detectors/Iqr, Detectors/Cusum and Detectors/Sequence for one detector each, Detectors/Stage for
--     DetectorStage. They stand on Floats, an interface of the float operations of the source.
--   src/pipelinex/persistence/memory_repo.py, InMemoryLogRepository: MemoryRepo.
--   src/pipelinex/persistence/postgres_repo.py, PostgresLogRepository: Postgres, over a database
--     server that is an argument; Postgres/Holds names what it is relied on for, and Postgres/Clauses
--     and Postgres/Liskov compare it with the in-memory repository.
--   src/pipelinex/events/bus.py, EventBus: EventBus. The handlers are tasks that a schedule
--     interleaves; EventBus/Subscriptions is about the lists of handlers and EventBus/Finishing about
--     when the tasks are done.
--   src/pipelinex/events/listeners.py: Listeners, over EventBus and Metrics; Listeners/Delivered is
--     about what events leave in them.
--   src/pipelinex/stages/: Stages for the interface of a stage, Stages/Retry for RetryDecorator,
--     Stages/Timing for TimingDecorator, Stages/Logging for LoggingDecorator, Stages/Validation for ValidationStage and the validators,
--     Stages/Parsing for ParserStage.
--   src/pipelinex/observability/metrics.py, MetricsRegistry: Metrics.
--   src/pipelinex/stages/parsing/factory.py and src/pipelinex/detectors/factory.py: Factories.
--   src/pipelinex/api/routes.py, list_anomalies: Api.
--   src/pipelinex/stages/parsing/: Parsers for what the parsers share, Parsers/Hdfs for HDFSParser,
--     Parsers/Csv for HDFSStructuredCSVParser and Parsers/Bgl for BGLParser.
--   src/pipelinex/stages/enrichment/template_matcher.py, TemplateMatcherStage: Templates.
--   scripts/train_sequence_model.py: Training, which is generic in the parser of the lines.
--   scripts/evaluate_hdfs_sequence.py and scripts/_eval_common.py: Evaluation. It scores the events
--     that Training collects with the detector of Detectors/Sequence.
--   scripts/evaluate_bgl_point.py: Evaluation/Bgl. It counts the lines that Parsers/Bgl reads in
--     windows, and feeds the rates to the detectors of Detectors; Evaluation/Bgl/Windows,
--     Evaluation/Bgl/Bins, Evaluation/Bgl/Flagged and Evaluation/Bgl/Rows are about its steps.
--   BENCHMARKS.md, `_update_benchmarks_md` of both scripts: Report, with the sections in
--     Report/Blocks; Report/Markers and Report/Update are about finding and replacing one.
--   scripts/generate_synthetic_logs.py: Synthetic, with the texts in Synthetic/Format. Its stream is
--     read by Parsers/Hdfs: Synthetic/Blocks and Synthetic/Lines find the block of a line,
--     Synthetic/RoundTrip reads the line, and Synthetic/Stream the stream, whose draws and numbers
--     are the subject of Synthetic/Numbered.
--   src/pipelinex/cli.py: CommandLine, over Builder and Executor; CommandLine/Overrides is about its
--     options and CommandLine/Cleanup about what a run does in the end.
--   src/pipelinex/core/sources.py: Sources, with Sources/Written about texts written line by line.
--   Prelude holds the shared lists, dicts, integers, texts and Boolean equality.
--
-- Stateful code takes its state and returns the new one; an exception is a value. A method of which
-- every call holds one lock is one step. What comes from outside is an argument: clock readings,
-- new identifiers, the outcome of a stage or of a save.
--
-- Bounds: loops are recursion on their lists. The retry loop runs on fuel, max_retries + 1, which
-- is one for each attempt that it may make. Numbers in the source have no width.
--
-- Not modelled: file and network I/O, the database server, the web framework, argparse,
-- reading YAML and the checks of pydantic on types, scripts/benchmark_throughput.py,
-- the BGL lines of the generator, the API routes that only pass their arguments on. Python's
-- character classes, strptime and the csv module are parameters. The arithmetic of floats is an interface:
-- overflow errors of Python's floats and integers that are too large for one are left out, and laws of the
-- comparisons are hypotheses where a result needs them. An executor whose source raises, or that is
-- cancelled, is left out, and so is a janitor pass that `stop` cancels half-way.
pub mod Prelude
pub mod MemoryRepo
pub mod Stages
pub mod EventBus
pub mod Metrics
pub mod Factories
pub mod Api
pub mod Parsers
pub mod Builder
pub mod Configuration
pub mod Postgres
pub mod Evaluation
pub mod Report
pub mod Synthetic
pub mod CommandLine
pub mod Sources
pub mod Listeners
pub mod Training
pub mod Templates
pub mod Models
pub mod Exceptions
pub mod Executor
pub mod Floats
pub mod Detectors
pub mod Sessionizer
