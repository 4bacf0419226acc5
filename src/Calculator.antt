-- ===== src/Calculator.antt =====
-- python/calculator.py: sums, differences, and brackets, evaluated on a stack while the tokens
-- come in.
pub mod Tokens
pub mod Stack
pub mod Expression
pub mod Steps
pub mod Evaluates
pub mod Terminates
mod Tests
