-- ===== src/Tests.antt =====
-- Concrete runs of the code: the theorems at concrete inputs.
pub mod Rows
pub mod Runs
pub mod Store
pub mod Callbacks
pub mod Codecs
pub mod Results
pub mod Rules
pub mod Workers
pub mod Dispatches
pub mod Requests
pub mod Translations
pub mod Locators
pub mod Coverages
pub mod Executions
pub mod Admissions
