-- ===== src/Web.antt =====
-- portal/app/compute/router.py and the dashboard of portal/app/web/router.py: what a user is shown.
pub mod Quota
pub mod Dashboard
mod Tests
