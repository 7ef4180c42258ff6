-- ===== src/AdaptiveServices/Tests.antt =====
-- src/services/diagnostics_service.cpp at a concrete report.
use connected_vehicle_platfo.Prelude.{◌≡◌, refl, false, [], codes}
use connected_vehicle_platfo.AdaptiveServices.{publish_diagnostic}

no_severity_test :
    publish_diagnostic (record { code = codes "P0300"; severity = []; detail = [] }) ≡ false
unfolding publish_diagnostic
no_severity_test = refl
