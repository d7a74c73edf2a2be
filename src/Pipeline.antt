-- ===== src/Pipeline.antt =====
-- src/pipeline.rs: the work on one issue, and the loop that runs it for every issue.
pub mod Issue
pub mod Loop
