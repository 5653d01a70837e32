-- ===== src/Tests.antt =====
-- Tests on concrete inputs, and the theorems applied to them.
mod CodegenTests
mod EncoderTests
mod LexerTests
mod ParserTests
mod InferTests
mod PipelineTests
mod EvalTests
mod MachoTests
