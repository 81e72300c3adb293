-- ===== src/Monitoring.antt =====
-- internal/controller/monitoring.go: the metrics exporter and the scrape objects of the Prometheus
-- Operator. Config is the exporter's file, Scrape the monitors.
pub mod Config
pub mod Scrape
