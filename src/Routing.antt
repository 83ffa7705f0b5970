-- ===== src/Routing.antt =====
-- packages/routing/src/matching: the request path's segments, the tables that lead from state to
-- state, and the choice among the endpoints found.
pub mod Tokenizer
pub mod JumpTables
pub mod Candidates
pub mod Selector
pub mod EndpointComparer
pub mod DfaMatcher
pub mod DfaMatcherBuilder
pub mod Patterns
mod Tests
