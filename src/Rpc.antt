-- ===== src/Rpc.antt =====
-- src/rpc.c: the RPC server. `Json`, `Env` and `Reply` are what its answers are made of, `Checks`
-- the checks that open every handler, `Server` the state that the handlers share; the handlers
-- stand in `Store`, `Update`, `Counter`, `Swap` and `Many`.
pub mod Json
pub mod Env
pub mod Reply
pub mod Checks
pub mod Server
pub mod Bodies
pub mod Snapshot
pub mod Contents
pub mod Asks
pub mod Store
pub mod SetLaws
pub mod GetLaws
pub mod RoundTrip
pub mod RemoveLaws
pub mod Update
pub mod Updated
pub mod Texts
pub mod UpdateLaws
pub mod Counter
pub mod CounterLaws
pub mod Swap
pub mod SwapLaws
pub mod Many
pub mod ManyLaws
pub mod Mset
pub mod Mdel
pub mod Dispatch
pub mod Isolation
pub mod Frame
pub mod Serve
pub mod SnapshotLaws
pub mod Batch
pub mod BatchLaws
pub mod Stale
pub mod Stopped
mod Sample
mod Tests
mod ManyTests
mod FrameTests
mod UpdateTests
pub mod CommitLaws
pub mod Cursor
pub mod CursorRead
pub mod CursorLaws
pub mod CursorEnds
pub mod Walks
pub mod Scan
pub mod Range
pub mod RangeLaws
pub mod RangeReplies
pub mod RangeEnds
pub mod Distance
pub mod Select
pub mod SelectLaws
pub mod Similar
pub mod Mget
pub mod MgetLaws
pub mod Mseize
pub mod Admin
pub mod AdminLaws
mod SampleLaws
mod ViewTests
mod CursorTests
mod RangeTests
pub mod Database
pub mod Paths
pub mod DatabaseLaws
pub mod DatabaseTests
