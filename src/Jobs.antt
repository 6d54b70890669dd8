-- ===== src/Jobs.antt =====
-- GenerationJobs of backend/pixelflow/generation_jobs: the record, its store and the worker.
pub mod Contracts
pub mod Repository
pub mod Credentials
pub mod Providers
pub mod SqlRepository
pub mod Worker
