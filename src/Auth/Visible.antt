-- ===== src/Auth/Visible.antt =====
-- Which organizations a registration of apps/api/src/auth/auth.service.ts lets its user see, by
-- `listForUser` of apps/api/src/organizations/organizations.service.ts.
use fulfill_os.Platform.{Platform}
