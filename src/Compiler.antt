-- ===== src/Compiler.antt =====
-- internal/domain/compiler: steps, their graph, and the compilation of a configuration into it.
pub mod Diff
pub mod Step
pub mod StepGraph
pub mod Sort
pub mod Compile
pub mod Examples
