-- ===== src/Views.antt =====
-- What the API shows of the system, without changing it: the handlers of services/api/internal/http for the
-- dashboard, with the queries under them. The chaos reports, the tasks and the alerts have modules of their own.
pub mod Operations
pub mod Metrics
pub mod Recent
pub mod Capacity
pub mod Traces
