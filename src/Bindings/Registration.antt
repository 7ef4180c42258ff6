-- ===== src/Bindings/Registration.antt =====
-- generated/: what the factory is told at the start of the program, and the proxies that forward.
use connected_vehicle_platfo.Prelude.{◌≡◌, refl}
use connected_vehicle_platfo.TelemetryManager.{Doubles}
use connected_vehicle_platfo.Bindings.CommonApi.{CommonApi, ProxyParts, version_dispatcher}
use connected_vehicle_platfo.Bindings.Connectivity
use connected_vehicle_platfo.Bindings.Diagnostics
use connected_vehicle_platfo.Bindings.Vehicle

module _ {W D : Type 0} (api : CommonApi W D) where
  -- For each interface the proxy and the stub adapter are registered under the interface's name.
  pub names_agree :
      ((Connectivity.proxy_registration api).0 ≡ Connectivity.interface_name)
      × ((Connectivity.adapter_registration api).0 ≡ Connectivity.interface_name)
      × ((Diagnostics.proxy_registration api).0 ≡ Diagnostics.interface_name)
      × ((Diagnostics.adapter_registration api).0 ≡ Diagnostics.interface_name)
      × ((Vehicle.proxy_registration api).0 ≡ Vehicle.interface_name)
      × ((Vehicle.adapter_registration api).0 ≡ Vehicle.interface_name)
  unfolding Connectivity.proxy_registration Connectivity.adapter_registration
      Diagnostics.proxy_registration Diagnostics.adapter_registration Vehicle.proxy_registration
      Vehicle.adapter_registration
  names_agree = (refl, refl, refl, refl, refl, refl)

  -- The adapter over the default stub of each interface says the version that the proxy says.
  pub versions_agree :
      (doubles : Doubles D) (client : api.ClientId)
      → (Connectivity.own_version api
          ≡ (version_dispatcher api (Connectivity.stub_default api).get_interface_version).get
              client)
        × (Diagnostics.own_version api
            ≡ (version_dispatcher api (Diagnostics.stub_default api).get_interface_version).get
                client)
        × (Vehicle.own_version api
            ≡ (version_dispatcher api (Vehicle.stub_default api doubles).get_interface_version).get
                client)
  unfolding version_dispatcher Connectivity.own_version Connectivity.stub_default
      Diagnostics.own_version Diagnostics.stub_default Vehicle.own_version Vehicle.stub_default
  versions_agree doubles client = (refl, refl, refl)

  -- A proxy that forwards does what the proxy behind it does.
  pub forwarding_is_transparent :
      (connectivity : Connectivity.ConnectivityServiceProxyBase api)
      (diagnostics : Diagnostics.DiagnosticsServiceProxyBase api)
      (vehicle : Vehicle.VehicleSignalServiceProxyBase api) (parts : ProxyParts W)
      → (Connectivity.forwarding api connectivity ≡ connectivity)
        × (Diagnostics.forwarding api diagnostics ≡ diagnostics)
        × (Vehicle.forwarding api vehicle ≡ vehicle)
        × (Connectivity.forwarding_parts api parts ≡ parts)
        × (Diagnostics.forwarding_parts api parts ≡ parts)
        × (Vehicle.forwarding_parts api parts ≡ parts)
  unfolding Connectivity.forwarding Diagnostics.forwarding Vehicle.forwarding
      Connectivity.forwarding_parts Diagnostics.forwarding_parts Vehicle.forwarding_parts
  forwarding_is_transparent connectivity diagnostics vehicle parts =
      (refl, refl, refl, refl, refl, refl)
