-- ===== src/Grafana.antt =====
-- python/extract_expressions_from_grafana_dashboard_json.py: the variables in an expression.
pub mod Target
pub mod Replaced
pub mod Defaults
pub mod Extract
mod Tests
