-- ===== src/Bindings/Vehicle/Events.antt =====
-- generated/: what the stub of the vehicle interface fires is what the event of the proxy notifies.
use connected_vehicle_platfo.Prelude.{ℕ, Bool, ◌≡◌, refl, false, Option, none, List, [], ◌∷◌}
use mathlib.Core.List.{Memᴰ}
use connected_vehicle_platfo.Bindings.CommonApi.{
  Wire, Tuple, CommonApi, Registration, EventClient, init_stub_adapter,
}
use connected_vehicle_platfo.Bindings.Vehicle.{
  signal_values, adapter_events, adapter_fire, stub_fire, default_fire, some_ip_proxy, forwarding,
}

module _ {W D : Type 0} (api : CommonApi W D) where
  -- What the library documents of events: an event that an adapter has registered, with the group,
  -- the type and the reliability that a proxy's event names, is notified to the proxy's subscribers.
  pub record EventBus (registered : List (Registration api)) : Type 0 where
    pub notify : (carries : List Wire) → EventClient api carries → Tuple D carries → W → W
    pub announces :
        (carries : List Wire) (e : EventClient api carries) (little_endian : Bool)
        (values : Tuple D carries) (w : W)
        → Memᴰ
            (record {
              event = e.event;
              groups = e.group ∷ [];
              event_type = e.event_type;
              reliability = e.reliability;
            })
            registered
        → e.is_little_endian ≡ little_endian
        → api.send_event carries e.event little_endian values w ≡ notify carries e values w

  -- Over a library that notifies the subscribers of a registered event, fireSignalChangedEvent of a
  -- default stub whose adapter has been set notifies the subscribers of the event that the
  -- generated proxy gives, with the speed and the battery voltage; without an adapter it does
  -- nothing.
  pub signal_arrives :
      (bus : EventBus (adapter_events api)) (old : Option (ℕ → D → W → W)) (speed : ℕ) (battery : D)
      (w : W)
      → (default_fire api (init_stub_adapter (adapter_fire api) old) speed battery w
          ≡ bus.notify signal_values
              (forwarding api (some_ip_proxy api)).get_signal_changed_event
              (speed, (battery, tt))
              w)
        × (default_fire api none speed battery w ≡ w)
  unfolding adapter_events adapter_fire init_stub_adapter stub_fire default_fire some_ip_proxy
      forwarding
  signal_arrives bus old speed battery w =
      (bus.announces signal_values _ false (speed, (battery, tt)) w (Memᴰ.head refl) refl, refl)
