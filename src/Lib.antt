-- ===== src/Lib.antt =====
-- Verification of Container Census: its notifications, its vulnerability scanner, its containers table,
-- its telemetry and the server that collects it, its settings and their migration, its access control, and
-- its checks for newer images and versions.
--
-- Container Census scans Docker hosts, stores what it finds and tells users of changes. After each scan
-- of a host, the notification service (internal/notifications) detects events, matches them with the
-- user's rules, leaves out those that are silenced or in their cooldown, and sends the rest as fast as
-- its rate limiter allows. The vulnerability scanner (internal/vulnerability) queues the images of the
-- containers, runs Trivy on those that have no fresh scan, and keeps the scans in a cache over the
-- database.
--
-- Base: numbers, texts (lists of character codes), lists, maps as association lists, and Go's signed
--   integers, shared by all parts. Models: the structs of internal/models/models.go.
-- Notifications, for internal/notifications/notifier.go unless another file is named:
--   RateLimiter (ratelimiter.go: Allow, AddToBatch, sendBatch, GetRemaining, GetResetTime), Rules
--   (ruleMatchesEvent), Silences (silenceMatches, filterSilenced, and the check of a new silence in
--   internal/api/notifications.go), Thresholds (checkThreshold, ResetThreshold), Detect (the three
--   detectors), Pipeline (ProcessEvents, matchRules, sendNotifications), Channels (channels/: webhook,
--   ntfy and in-app), Baselines (baseline.go, SaveContainerBaseline and GetContainerBaseline), Delivery
--   (sendSingleNotification, getChannel, buildMessage), Log (the table notification_log of
--   internal/storage/notifications.go).
-- Vulnerability, for internal/vulnerability: Types (models.go), Storage (the interface of cache.go and
--   its implementation in internal/storage/vulnerabilities.go), Cache (cache.go), Scanner (scanner.go),
--   Scheduler (scheduler.go), Config (config.go).
-- Storage, for internal/storage/db.go: Containers (SaveContainers, scanContainers, GetLatestContainers,
--   GetContainersByHost), Lifecycle (GetContainerLifecycleEvents), Cleanup (CleanupRedundantScans),
--   Statistics (AggregateOldStats and GetContainerStats).
--   Detect/Stored of Notifications runs the lifecycle detector over these histories.
-- Telemetry, for internal/telemetry: Types (the structs of the report and its endpoints), Status (the
--   table telemetry_status of internal/storage/db.go, and the circuit breaker over it), Submitter
--   (submitter.go), Collector (collector.go).
-- Collector, for cmd/telemetry-collector/main.go: handleIngest, saveTelemetry and the API key; the state is
--   the tables of reports, events and images.
-- Settings, for internal/storage/settings.go: the table system_settings; Config: internal/config/config.go;
--   Migration: the import and the export of internal/migration.
-- Auth, for internal/auth: the middlewares of middleware.go and session.go, login and logout.
-- Registry, for internal/registry/registry.go: parseImageName, normalizeDigest and CheckImageUpdate.
-- Version, for internal/version/version.go: isNewerVersion, parseVersion and CheckLatestVersion.
-- Server: detectHostType, of cmd/server/main.go and of internal/api/agent_handlers.go; Scans: performScan
--   and queueImagesForScanning of cmd/server/main.go, which tie the parts together: what ScanHost found is
--   stored, its images are queued, and the notifier runs over the stored rows; ImageUpdates:
--   runImageUpdateChecker of the same file, with the settings and the status of image updates of
--   internal/storage/db.go.
--
-- A method is a function from the state of its object to the new state and the result; a method that
-- holds the mutex is one step. The clock is an argument, in nanoseconds. A float64 is a value of a type
-- with the operations of the record Float64. The database queries of the detectors, the HTTP client, the
-- glob matcher of Go's library, the query for the statistics of a container, Trivy, ToUpper, Atoi, Sscanf,
-- Getenv, the YAML reader, JSON encoding, the registry's requests, the average of SQLite, what the SQLite
-- driver gives for an aggregate of times, and what the types of PostgreSQL take and keep are parameters. Go
-- ranges over maps in no fixed order: the model takes the order of the association list. A database is the
-- list of its rows; its failures are those of the parameters. Two loops have fuel: GetQueueStatus, with the
-- length of the queue, which is the bound of its counter, and the digits of a number, with the number and one.
--
-- Not modelled: the Docker and agent clients, the HTTP API, the statistics pages of the server that collects
-- telemetry, the session cookies, the vulnerability section of the configuration and its Save, the rest of
-- the storage, and logging. Of the modelled files, the sending goroutines run in order (those of the
-- telemetry submitter in any order), the tickers are the calls that they make, and waiting is left out.
pub mod Auth
pub mod Base
pub mod Collector
pub mod Models
pub mod Notifications
pub mod Registry
pub mod Server
pub mod Settings
pub mod Storage
pub mod Telemetry
pub mod Version
pub mod Vulnerability
