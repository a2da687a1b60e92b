-- ===== src/Samples.antt =====
-- Tests, and the theorems at concrete inputs.
mod Instances
mod CatalogRuns
mod SysCheckerRuns
mod UpdateRuns
mod NarRuns
mod XzRuns
mod SubstRuns
mod AnalyticsRuns
mod Servers
mod TransferRuns
mod PipelineRuns
mod AnswerRuns
mod SiteRuns
mod SimulateRuns
mod IdleRuns
mod StartRuns
mod WholeRuns
