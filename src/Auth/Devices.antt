-- ===== src/Auth/Devices.antt =====
-- Which devices a login recognises: `IsKnownUserDevice` of services/DeviceService.go.
use holvit_backend.Auth.Env.{Env}
