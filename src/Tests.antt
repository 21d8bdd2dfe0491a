-- ===== src/Tests.antt =====
-- Concrete runs of the modelled programs: the theorems applied where their hypotheses hold.
mod EchoRuns
mod SelectRuns
mod StressRuns
mod LoadRuns
mod PoolRuns
mod ServerRuns
mod ThreadRuns
mod LockRuns
mod ReportRuns
mod ProgramRuns
mod QueueRuns
mod FirstRuns
mod PollRuns
mod EpollRuns
mod MemoryRuns
mod ParentRuns
mod PipeRuns
mod SocketRuns
mod EchoedRuns
