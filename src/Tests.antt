-- ===== src/Tests.antt =====
-- Runs of the models at concrete inputs, and the theorems applied to them.
mod EchoRuns
mod LoopRuns
mod ResponseRuns
mod QueueRuns
mod ThreadQueueRuns
mod FixedQueueRuns
mod PerThreadRuns
mod HandlesRuns
mod PushRuns
mod PollerRuns
mod TransferRuns
mod PerConnectionRuns
mod HashMapRuns
mod VariantRuns
mod ClientRuns
mod LatencyRuns
mod BenchRuns
